-- ===== src/Password.antt =====
-- crates/app/src/password.rs: the password service, over the `argon2` crate.
mod Samples
mod UnitTests
pub mod Verify
use wiki_next.Base.{
  ℕ, zero, suc, ◌+◌, ◌-◌, ◌*◌, ◌%◌, ◌^◌, ◌≤◌, ◌<◌, String, ◌≡◌, refl, sym, ap, ◌∙◌, ◌≢◌, ◌↔◌, ◌⊎◌,
  inl, inr, Bool, true, false, not, ◌&&◌, ◌||◌, Option, none, some, List, [], ◌∷◌, ◌++◌, arith,
  ◌=ₛ◌, eq_iff, ltb, leb, ◌==◌, if◌then◌else◌, Bool-cases, Option-cases, is_some, is_none_or,
  is_some_and, all, any, All, Result, ok, err, ◌>>=◌, ◌>>◌, map_err, Result-cases,
}
use Prim.Native.String.{len}
use wiki_next.Config.Validate.{reject_if}

-- In bytes.
abbrev pub max_password_bytes : ℕ
max_password_bytes = 1024

abbrev pub max_hash_bytes : ℕ
max_hash_bytes = 512

abbrev pub max_memory_cost_kib : ℕ
max_memory_cost_kib = 256 * 1024

abbrev pub max_time_cost : ℕ
max_time_cost = 10

abbrev pub max_parallelism : ℕ
max_parallelism = 8

abbrev pub expected_salt_b64_length : ℕ
expected_salt_b64_length = 22

-- `Params::default`, and `Params::DEFAULT_OUTPUT_LEN`.
pub record Params : Type 0 where
  pub m_cost : ℕ
  pub t_cost : ℕ
  pub p_cost : ℕ
  pub output_len : ℕ

-- The `argon2` and `password_hash` crates. The salt and the hash of a parsed text are known by
-- their lengths.
pub record ArgonApi : Type 1 where
  pub PasswordHash : Type 0
  pub HashError : Type 0
  pub Salt : Type 0
  pub defaults : Params
  pub parse : String → Result HashError PasswordHash
  pub to_string : PasswordHash → String
  pub algorithm : PasswordHash → String
  pub version : PasswordHash → Option ℕ
  pub get_decimal : PasswordHash → String → Option ℕ
  pub salt : PasswordHash → Option ℕ
  pub hash : PasswordHash → Option ℕ
  pub compute : String → Salt → Result HashError PasswordHash
  pub verify : String → PasswordHash → Result HashError (Unit {0})
  pub is_password : HashError → Bool

pub data PasswordError (HashError : Type 0) : Type 0 where
  empty too_long unsafe_hash : PasswordError HashError
  hash_error : HashError → PasswordError HashError

module _ {E : Type 0} where
  unfoldable pub validate_password : String → Result (PasswordError E) (Unit {0})
  validate_password password =
      if len password == 0
      then err empty
      else if ltb max_password_bytes (len password)
      then err too_long
      else ok tt

module _ (A : ArgonApi) where
  abbrev pub Checked : Type 0 → Type 0
  Checked T = Result (PasswordError A.HashError) T

  -- With the salt that `SaltString::generate` returns.
  unfoldable pub hash_password : String → A.Salt → Checked String
  hash_password password salt = do
    valid ← validate_password password
    parsed ← map_err hash_error (A.compute password salt)
    ok (A.to_string parsed)

  abbrev pub is_expensive : A.PasswordHash → Bool
  is_expensive parsed =
      not (A.algorithm parsed =ₛ "argon2id")
      || is_none_or (λ value. ltb max_memory_cost_kib value) (A.get_decimal parsed "m")
      || is_none_or (λ value. ltb max_time_cost value) (A.get_decimal parsed "t")
      || is_none_or (λ value. ltb max_parallelism value) (A.get_decimal parsed "p")

  unfoldable pub parse_bounded_hash : String → Checked A.PasswordHash
  parse_bounded_hash text = do
    reject_if (ltb max_hash_bytes (len text)) unsafe_hash
    parsed ← map_err hash_error (A.parse text)
    reject_if (is_expensive parsed) unsafe_hash
    ok parsed

  -- The `match` on the result of the verifier.
  abbrev outcome : Result A.HashError (Unit {0}) → Checked Bool
  outcome (ok _) = ok true
  outcome (err e) = if A.is_password e then ok false else err (hash_error e)

  unfoldable pub verify_password : String → String → Checked Bool
  verify_password password text = do
    valid ← validate_password password
    parsed ← parse_bounded_hash text
    outcome (A.verify password parsed)

  abbrev is_other : Option ℕ → ℕ → Bool
  is_other value expected = is_none_or (λ v. not (v == expected)) value

  abbrev pub is_outdated : A.PasswordHash → Bool
  is_outdated parsed =
      not (A.algorithm parsed =ₛ "argon2id")
      || is_other (A.version parsed) 19
      || is_other (A.get_decimal parsed "m") A.defaults.m_cost
      || is_other (A.get_decimal parsed "t") A.defaults.t_cost
      || is_other (A.get_decimal parsed "p") A.defaults.p_cost
      || is_other (A.salt parsed) expected_salt_b64_length
      || is_other (A.hash parsed) A.defaults.output_len

  unfoldable pub needs_rehash : String → Checked Bool
  needs_rehash text = do parsed ← parse_bounded_hash text; ok (is_outdated parsed)
