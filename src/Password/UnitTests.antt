-- ===== src/Password/UnitTests.antt =====
-- The tests of crates/app/src/password.rs that need no more of the `argon2` crate than its
-- documented behaviour.
use wiki_next.Base.{String, ◌≡◌, ap, true, false, some, arith, eq_iff, ok, err}
use Prim.Native.String.{len}
use wiki_next.Password.{
  ArgonApi, unsafe_hash, hash_password, verify_password, needs_rehash, parse_bounded_hash,
  validate_password,
}
use wiki_next.Password.Verify.{IsLawful, verify_password-hash_password}

-- With whatever salt the hash is made.
abbrev HashAndVerifyPassword : Type 1
HashAndVerifyPassword =
    (A : ArgonApi)
    → IsLawful A
    → (salt : A.Salt) (hash : String)
    → hash_password A "correct horse battery staple" salt ≡ ok hash
    → verify_password A "correct horse battery staple" hash ≡ ok true

hash_and_verify : HashAndVerifyPassword
hash_and_verify A L salt hash h =
    (verify_password-hash_password A L "correct horse battery staple" salt h).0

abbrev FreshHashDoesNotNeedRehash : Type 1
FreshHashDoesNotNeedRehash =
    (A : ArgonApi)
    → IsLawful A
    → (salt : A.Salt) (hash : String) → hash_password A "password" salt ≡ ok hash
    → needs_rehash A hash ≡ ok false

fresh_hash : FreshHashDoesNotNeedRehash
fresh_hash A L salt hash h = (verify_password-hash_password A L "password" salt h).1

abbrev hostile : String
hostile = "$argon2id$v=19$m=4294967295,t=2,p=1$c2FsdHNhbHQ$MDEyMzQ1Njc4OWFiY2RlZg"

-- Where the crate reads the cost of the text, whatever its verifier does.
abbrev RejectsExcessiveHashCostBeforeVerification : Type 1
RejectsExcessiveHashCostBeforeVerification =
    (A : ArgonApi) (hash : A.PasswordHash)
    → A.parse hostile ≡ ok hash
    → A.get_decimal hash "m" ≡ some 4294967295
    → verify_password A "password" hostile ≡ err unsafe_hash

rejects_excessive : RejectsExcessiveHashCostBeforeVerification
unfolding verify_password parse_bounded_hash validate_password
rejects_excessive A hash parsed m = ground arith

-- A hash of 16 bytes under the default costs, in a text that is 21 characters shorter.
abbrev ShortDigestNeedsRehash : Type 1
ShortDigestNeedsRehash =
    (A : ArgonApi)
    → IsLawful A
    → (hash : A.PasswordHash) → A.algorithm hash ≡ "argon2id"
    → A.get_decimal hash "m" ≡ some A.defaults.m_cost
    → A.get_decimal hash "t" ≡ some A.defaults.t_cost
    → A.get_decimal hash "p" ≡ some A.defaults.p_cost
    → A.hash hash ≡ some 16
    → len (A.to_string hash) ≡ 76
    → needs_rehash A (A.to_string hash) ≡ ok true

short_digest : ShortDigestNeedsRehash
unfolding needs_rehash parse_bounded_hash
short_digest A L hash algorithm m t p digest short =
    let parsed = L.parsed hash in
    let d = L.defaults in
    ground (
      arith,
      ap (λ c. c.m_cost) d,
      ap (λ c. c.t_cost) d,
      ap (λ c. c.p_cost) d,
      ap (λ c. c.output_len) d,
      eq_iff (A.algorithm hash) "argon2id",
    )
