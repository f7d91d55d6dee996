-- ===== src/Postgres/Version.antt =====
-- Which server versions `is_expected_postgres_version` of crates/store/src/postgres.rs accepts.
use wiki_next.Base.{
  ℕ, String, ◌≡◌, ◌↔◌, ◌⊎◌, inl, inr, true, some, List, [], ◌∷◌, ◌++◌, arith, Bool-cases,
  Option-cases,
}
use wiki_next.Base.Text.{codes, same_codes}
use wiki_next.Base.Same.{same_codes_iff}
use wiki_next.Postgres.{
  expected_postgres_version, strip_prefix, begins_with_break, is_expected_postgres_version,
}

strip_prefix_iff : (p s rest : List ℕ) → (strip_prefix p s ≡ some rest) ↔ (s ≡ p ++ rest)
unfolding strip_prefix
strip_prefix_iff [] s rest = ground arith
strip_prefix_iff (c ∷ p) [] rest = ground arith
strip_prefix_iff (c ∷ p) (d ∷ s) rest = ground (arith, strip_prefix_iff p s rest)

-- The text behind a version ends it: a space or a dot and anything.
abbrev pub IsBreak : List ℕ → Type 0
IsBreak [] = ⊥
IsBreak (c ∷ rest) = (c ≡ b' ') ⊎ (c ≡ b'.')

begins_with_break_iff : (s : List ℕ) → (begins_with_break s ≡ true) ↔ IsBreak s
begins_with_break_iff [] = ground arith
begins_with_break_iff (c ∷ s) = ground arith

-- A version is accepted exactly where it is 18.4, or goes on behind 18.4 with a space or a dot, so
-- that 18.40 is refused and 18.4.1 is not.
pub is_expected_postgres_version_iff :
    (actual : String)
    → (is_expected_postgres_version actual ≡ true) ↔ (
        (codes actual ≡ codes expected_postgres_version)
        ⊎ ((rest : List ℕ) × (codes actual ≡ codes expected_postgres_version ++ rest)
            × IsBreak rest))
unfolding is_expected_postgres_version
is_expected_postgres_version_iff actual = (
  λ h. elim (Bool-cases (same_codes (codes actual) (codes expected_postgres_version))) [
    | inl same ↦
        inl (ground (arith, same_codes_iff (codes actual) (codes expected_postgres_version)))
    | inr other ↦
        elim (Option-cases (strip_prefix (codes expected_postgres_version) (codes actual))) [
          | inl e ↦ ground arith
          | inr (rest, e) ↦ inr (
            rest,
            ground (arith, strip_prefix_iff (codes expected_postgres_version) (codes actual) rest),
            ground (arith, begins_with_break_iff rest),
          )
        ]
  ],
  λ h. elim h [
    | inl same ↦ ground (arith, same_codes_iff (codes actual) (codes expected_postgres_version))
    | inr (rest, e, break) ↦ ground (
      arith,
      strip_prefix_iff (codes expected_postgres_version) (codes actual) rest,
      begins_with_break_iff rest,
    )
  ],
)
