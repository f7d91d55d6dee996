-- ===== src/Config/Identifier.antt =====
-- The PostgreSQL role names that `database_role` of crates/app/src/config.rs accepts.
use wiki_next.Base.{
  ℕ, ◌≤◌, String, ◌≡◌, refl, ap, ◌↔◌, ◌⊎◌, inl, inr, true, false, ◌||◌, List, [], ◌∷◌, arith, ◌=ₛ◌,
  eq_iff, ◌==◌, Bool-cases, all, All, ok, Result-cases,
}
use Prim.Native.String.{len}
use wiki_next.Base.Text.{codes, is_ascii_alphabetic, is_ascii_alphanumeric}
use wiki_next.Net.{UrlApi}
use wiki_next.Config.Validate.{is_identifier, database_role}

abbrev pub IsLetter : ℕ → Type 0
IsLetter c = ((b'a' ≤ c) × (c ≤ b'z')) ⊎ ((b'A' ≤ c) × (c ≤ b'Z'))

abbrev pub IsWordChar : ℕ → Type 0
IsWordChar c = (c ≡ b'_') ⊎ (IsLetter c ⊎ ((b'0' ≤ c) × (c ≤ b'9')))

-- At most 63 bytes; a letter or `_`, then letters, digits and `_`.
pub record IsIdentifier (role : String) : Type 0 where
  pub first : ℕ
  pub rest : List ℕ
  pub spelled : codes role ≡ first ∷ rest
  pub starts : (first ≡ b'_') ⊎ IsLetter first
  pub words : All IsWordChar rest
  pub short : len role ≤ 63

word_sound : (c : ℕ) → (c == b'_' || is_ascii_alphanumeric c) ≡ true → IsWordChar c
unfolding is_ascii_alphanumeric
word_sound c h = ground arith

word_complete : (c : ℕ) → IsWordChar c → (c == b'_' || is_ascii_alphanumeric c) ≡ true
unfolding is_ascii_alphanumeric
word_complete c h = ground arith

words_sound :
    (s : List ℕ) → all (λ c. c == b'_' || is_ascii_alphanumeric c) s ≡ true → All IsWordChar s
words_sound [] h = tt
words_sound (c ∷ s) h = (word_sound c (ground arith), words_sound s (ground arith))

words_complete :
    (s : List ℕ) → All IsWordChar s → all (λ c. c == b'_' || is_ascii_alphanumeric c) s ≡ true
words_complete [] h = refl
words_complete (c ∷ s) (w, ws) = rw (word_complete c w) (words_complete s ws)

identifier_of :
    (role : String) (s : List ℕ) → codes role ≡ s → is_identifier role ≡ true → IsIdentifier role
unfolding is_identifier is_ascii_alphabetic
identifier_of role [] e h = ground arith
identifier_of role (c ∷ s) e h = record {
  first = c;
  rest = s;
  spelled = e;
  starts = ground arith;
  words = words_sound s (ground arith);
  short = ground arith;
}

not_empty : (role : String) (c : ℕ) (s : List ℕ) → codes role ≡ c ∷ s → (role =ₛ "") ≡ false
unfolding codes
not_empty role c s e = elim (Bool-cases (role =ₛ "")) [
  | inl same ↦ cc (ap codes ((eq_iff role "").0 same))
  | inr other ↦ other
]

is_identifier_complete : (role : String) → IsIdentifier role → is_identifier role ≡ true
unfolding is_identifier is_ascii_alphanumeric codes
is_identifier_complete role i =
    let word = words_complete i.rest i.words in
    let filled : (role =ₛ "") ≡ false = not_empty role i.first i.rest i.spelled in
    ground (arith, i.spelled)

module _ (U : UrlApi) (T : Type 0) (field value : String) where
  -- `database_role` returns the user name of a text that parses as a URL, exactly where that name
  -- is a simple ASCII identifier of at most 63 bytes.
  pub database_role_iff :
      (role : String)
      → (database_role U {T = T} field value ≡ ok role)
        ↔ ((url : U.Url) × (U.parse value ≡ ok url) × (U.username url ≡ role) × IsIdentifier role)
  unfolding database_role
  database_role_iff role = (
    λ h. elim (Result-cases (U.parse value)) [
      | inl (url, parsed) ↦
          let e : (U.username url ≡ role) × (is_identifier (U.username url) ≡ true) =
            ground arith in
          (
            url,
            parsed,
            e.0,
            rw e.0 at (identifier_of (U.username url) (codes (U.username url)) refl e.1),
          )
      | inr (e, failed) ↦ ground arith
    ],
    λ (url, parsed, named, identifier). rw parsed (
        let k : is_identifier (U.username url) ≡ true =
          rw named (is_identifier_complete role identifier) in
        ground arith),
  )
