-- ===== src/Password/Samples.antt =====
-- Runs of the password service over one hash.
use wiki_next.Base.{
  ℕ, ◌*◌, String, ◌≡◌, refl, true, false, Option, none, some, arith, ◌=ₛ◌, if◌then◌else◌, Result,
  ok, err, Bool,
}
use wiki_next.Password.{
  ArgonApi, empty, validate_password, hash_password, parse_bounded_hash, verify_password,
  needs_rehash,
}
use wiki_next.Password.Verify.{
  IsAffordable, IsLawful, with_verify, verify_password-hash_password, verify_password_affordable,
}

abbrev cost : String → Option ℕ
cost name =
    if name =ₛ "m"
    then some 19456
    else if name =ₛ "t"
    then some 2
    else if name =ₛ "p"
    then some 1
    else none

abbrev printed : String
printed =
    "$argon2id$v=19$m=19456,t=2,p=1$c2FsdHNhbHRzYWx0c2FsdA$MDEyMzQ1Njc4OTAxMjM0NTY3ODkwMTIzNDU2Nzg5MDE"

-- The one hash, of one password.
abbrev accept_if : Bool → Result (Unit {0}) (Unit {0})
accept_if b = if b then ok tt else err tt

abbrev argon : ArgonApi
argon = record {
  PasswordHash = Unit;
  HashError = Unit;
  Salt = Unit;
  defaults = record { m_cost = 19456; t_cost = 2; p_cost = 1; output_len = 32 };
  parse = λ text. accept_if (text =ₛ printed);
  to_string = λ hash. printed;
  algorithm = λ hash. "argon2id";
  version = λ hash. some 19;
  get_decimal = λ hash name. cost name;
  salt = λ hash. some 22;
  hash = λ hash. some 32;
  compute = λ password salt. accept_if (password =ₛ "secret");
  verify = λ password hash. accept_if (password =ₛ "secret");
  is_password = λ problem. true;
}

argon-IsLawful : IsLawful argon
argon-IsLawful = record {
  parsed = λ hash. refl;
  printed = λ password salt computed. refl;
  verified = λ password salt computed. computed;
  shown = λ password salt computed. (refl, refl, refl, refl, refl, refl, refl);
  defaults = refl;
}

-- What the runs below open.
opened : Unit {0}
unfolding validate_password hash_password parse_bounded_hash verify_password needs_rehash
opened = tt

runs :
    (hash_password argon "secret" tt ≡ ok printed)
    × (verify_password argon "guess" printed ≡ ok false)
    × (hash_password argon "" tt ≡ err empty)
unfolding opened
runs = (refl, refl, refl)

verify_password-hash_password_example :
    (verify_password argon "secret" printed ≡ ok true) × (needs_rehash argon printed ≡ ok false)
unfolding opened
verify_password-hash_password_example =
    verify_password-hash_password argon argon-IsLawful "secret" tt refl

-- The crate where every hash asks for a gigabyte.
abbrev costly : ArgonApi
costly = record argon { get_decimal = λ hash name. some (1024 * 1024) }

abbrev accept : String → Unit {0} → Result (Unit {0}) (Unit {0})
accept password hash = ok tt

accept-eq-verify :
    (password : String) (hash : Unit {0})
    → IsAffordable costly hash
    → accept password hash ≡ costly.verify password hash
accept-eq-verify password hash cheap = let (m, e, small) = cheap.memory in ground arith

verify_password_affordable_example :
    verify_password (with_verify costly accept) "guess" printed
    ≡ verify_password costly "guess" printed
verify_password_affordable_example =
    verify_password_affordable costly accept accept-eq-verify "guess" printed
