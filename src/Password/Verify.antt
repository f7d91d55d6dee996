-- ===== src/Password/Verify.antt =====
-- What verification costs, and the round trip, in crates/app/src/password.rs.
use wiki_next.Base.{
  ℕ, ◌≤◌, String, ◌≡◌, refl, ◌↔◌, inl, inr, true, false, some, arith, eq_iff, Option-cases, Result,
  ok, Result-cases,
}
use Prim.Native.String.{len}
use wiki_next.Password.{
  ArgonApi, max_hash_bytes, max_memory_cost_kib, max_time_cost, max_parallelism, validate_password,
  hash_password, is_expensive, parse_bounded_hash, verify_password, needs_rehash,
}

-- The costs of a hash are within the limits.
pub record IsAffordable (A : ArgonApi) (h : A.PasswordHash) : Type 0 where
  pub algorithm : A.algorithm h ≡ "argon2id"
  pub memory : (m : ℕ) × (A.get_decimal h "m" ≡ some m) × (m ≤ max_memory_cost_kib)
  pub time : (t : ℕ) × (A.get_decimal h "t" ≡ some t) × (t ≤ max_time_cost)
  pub parallelism : (p : ℕ) × (A.get_decimal h "p" ≡ some p) × (p ≤ max_parallelism)

module _ (A : ArgonApi) where
  is_expensive_iff : (h : A.PasswordHash) → (is_expensive A h ≡ false) ↔ IsAffordable A h
  is_expensive_iff h = (
    λ e. elim (Option-cases (A.get_decimal h "m")) [
      | inl missing ↦ ground (arith, eq_iff (A.algorithm h) "argon2id")
      | inr (m, hm) ↦ elim (Option-cases (A.get_decimal h "t")) [
        | inl missing ↦ ground (arith, eq_iff (A.algorithm h) "argon2id")
        | inr (t, ht) ↦ elim (Option-cases (A.get_decimal h "p")) [
          | inl missing ↦ ground (arith, eq_iff (A.algorithm h) "argon2id")
          | inr (p, hp) ↦ record {
            algorithm = ground (arith, eq_iff (A.algorithm h) "argon2id");
            memory = (m, hm, ground arith);
            time = (t, ht, ground arith);
            parallelism = (p, hp, ground arith);
          }
        ]
      ]
    ],
    λ a.
        let (m, hm, lm) = a.memory in
        let (t, ht, lt) = a.time in
        let (p, hp, lp) = a.parallelism in
        ground (arith, eq_iff (A.algorithm h) "argon2id", a.algorithm),
  )

  -- A text is parsed exactly where it is short and the parsed hash is affordable.
  parse_bounded_hash_iff :
      (text : String) (h : A.PasswordHash)
      → (parse_bounded_hash A text ≡ ok h)
        ↔ ((len text ≤ max_hash_bytes) × (A.parse text ≡ ok h) × (is_expensive A h ≡ false))
  unfolding parse_bounded_hash
  parse_bounded_hash_iff text h = (
    λ e. elim (Result-cases (A.parse text)) [
      | inl (g, parsed) ↦
          let same : g ≡ h = ground arith in rw (← same) (ground arith, parsed, ground arith)
      | inr (p, failed) ↦ ground arith
    ],
    λ (short, parsed, cheap). ground arith,
  )

  -- What the documentation of `argon2` says of the default parameters: 19 MiB, two passes, one lane
  -- and 32 bytes. A hash that they make is printed in a text that parses to it, as
  -- `$argon2id$v=19$m=19456,t=2,p=1$` with 22 characters of salt, a `$` and 43 characters of
  -- output. It verifies under its own password, and shows the algorithm, the version, the costs and
  -- the lengths that were written.
  pub record IsLawful : Type 0 where
    pub parsed : (h : A.PasswordHash) → A.parse (A.to_string h) ≡ ok h
    pub printed :
        (password : String) (salt : A.Salt) {h : A.PasswordHash}
        → A.compute password salt ≡ ok h
        → len (A.to_string h) ≡ 97
    pub verified :
        (password : String) (salt : A.Salt) {h : A.PasswordHash}
        → A.compute password salt ≡ ok h
        → A.verify password h ≡ ok tt
    pub shown :
        (password : String) (salt : A.Salt) {h : A.PasswordHash}
        → A.compute password salt ≡ ok h
        → (A.algorithm h ≡ "argon2id")
          × (A.version h ≡ some 19)
          × (A.get_decimal h "m" ≡ some A.defaults.m_cost)
          × (A.get_decimal h "t" ≡ some A.defaults.t_cost)
          × (A.get_decimal h "p" ≡ some A.defaults.p_cost)
          × (A.salt h ≡ some 22)
          × (A.hash h ≡ some A.defaults.output_len)
    pub defaults : A.defaults ≡ record { m_cost = 19456; t_cost = 2; p_cost = 1; output_len = 32 }

  hash_password-Computed :
      (password : String) (salt : A.Salt) {text : String}
      → hash_password A password salt ≡ ok text
      → (h : A.PasswordHash) × (A.compute password salt ≡ ok h)
        × (A.to_string h ≡ text)
        × (validate_password {E = A.HashError} password ≡ ok tt)
  unfolding hash_password
  hash_password-Computed password salt h =
      elim (Result-cases (validate_password {E = A.HashError} password)) [
        | inr (p, refused) ↦ ground arith
        | inl (tt, valid) ↦ elim (Result-cases (A.compute password salt)) [
          | inr (p, failed) ↦ ground arith
          | inl (g, computed) ↦ (g, computed, ground arith, valid)
        ]
      ]

  parse_bounded_hash-computed :
      IsLawful
      → (password : String) (salt : A.Salt) {h : A.PasswordHash} → A.compute password salt ≡ ok h
      → parse_bounded_hash A (A.to_string h) ≡ ok h
  parse_bounded_hash-computed L password salt {h} computed =
      let (algorithm, version, m, t, p, s, o) = L.shown password salt computed in
      let d = L.defaults in
      let size = L.printed password salt computed in
      (parse_bounded_hash_iff (A.to_string h) h).1 (
        omega (arith, size),
        L.parsed h,
        (is_expensive_iff h).1 (record {
          algorithm = algorithm;
          memory = (_, m, rw d (omega arith));
          time = (_, t, rw d (omega arith));
          parallelism = (_, p, rw d (omega arith));
        }),
      )

  -- A hash that the service has made of a password verifies under that password, and needs no new
  -- hash, if the crate is as documented.
  pub verify_password-hash_password :
      IsLawful
      → (password : String) (salt : A.Salt) {text : String}
      → hash_password A password salt ≡ ok text
      → (verify_password A password text ≡ ok true) × (needs_rehash A text ≡ ok false)
  unfolding verify_password needs_rehash
  verify_password-hash_password L password salt made =
      let (h, computed, e, valid) = hash_password-Computed password salt made in
      let bounded = parse_bounded_hash-computed L password salt computed in
      let (algorithm, version, m, t, p, s, o) = L.shown password salt computed in
      let verified = L.verified password salt computed in
      rw (← e) (ground arith, ground (arith, eq_iff (A.algorithm h) "argon2id"))

-- The crate with another verifier.
abbrev pub with_verify :
    (A : ArgonApi) → (String → A.PasswordHash → Result A.HashError (Unit {0})) → ArgonApi
with_verify A verify = record A { verify = verify }

module _ (A : ArgonApi) (verify : String → A.PasswordHash → Result A.HashError (Unit {0})) where
  parse_bounded_hash-with_verify :
      (text : String) → parse_bounded_hash (with_verify A verify) text ≡ parse_bounded_hash A text
  unfolding parse_bounded_hash
  parse_bounded_hash-with_verify text = refl

-- `verify_password` runs the verifier on affordable hashes alone: a verifier that differs on other
-- hashes makes no difference to any password and any text.
pub verify_password_affordable :
    (A : ArgonApi) (verify : String → A.PasswordHash → Result A.HashError (Unit {0}))
    → ((password : String) (h : A.PasswordHash)
        → IsAffordable A h
        → verify password h ≡ A.verify password h)
    → (password text : String)
    → verify_password (with_verify A verify) password text ≡ verify_password A password text
unfolding verify_password
verify_password_affordable A verify agree password text =
    rw (parse_bounded_hash-with_verify A verify text)
      (elim (Result-cases (parse_bounded_hash A text)) [
        | inr (p, refused) ↦ rw refused refl
        | inl (h, parsed) ↦
            let (short, whole, cheap) = (parse_bounded_hash_iff A text h).0 parsed in
            rw (parsed, agree password h ((is_expensive_iff A h).0 cheap)) refl
      ])
