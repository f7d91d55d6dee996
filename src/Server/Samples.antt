-- ===== src/Server/Samples.antt =====
-- Runs of the middleware over small layers, and the theorem at one.
use wiki_next.Base.{
  ℕ, String, ◌≡◌, refl, ap, ◌≢◌, inl, inr, true, false, Option, none, some, List, [], ◌∷◌, arith,
  ◌=ₛ◌, eq_iff, leb, if◌then◌else◌, Bool-cases,
}
use wiki_next.Config.Types.{Duration}
use wiki_next.Server.Http.{
  Outcome, replied, panicked, pending, Layer, TowerApi, Req, Out, Serve, value_or, Sets, Caught,
  Limited, IsLawful,
}
use wiki_next.Server.Layers.{
  apply_http_layers, http_layers, discard_client_request_id, make_http_span, request_id_header,
}
use wiki_next.Server.Hardened.{IsHardened, apply_http_layers-IsHardened}

-- Headers by name.
abbrev pub Table : Type 0
Table = String → Option String

abbrev pub none_set : Table
none_set name = none

abbrev set_value : Table → String → String → Table
set_value headers name value wanted = if wanted =ₛ name then some value else headers wanted

abbrev pub Answer : Type 0
Answer = Outcome Table ℕ

abbrev with_default : String → String → Answer → Answer
with_default name value (replied t r) = replied t (record r {
  headers = set_value r.headers name (elim (r.headers name) [ none ↦ value | some old ↦ old ]);
})
with_default name value (panicked t) = panicked t
with_default name value pending = pending

abbrev catch_panic : Answer → Answer
catch_panic (panicked t) = replied t (record { status = 500; headers = none_set; body = 0 })
catch_panic (replied t r) = replied t r
catch_panic pending = pending

abbrev limit_time : ℕ → Duration → Answer → Answer
limit_time status limit (replied t r) =
    if leb t limit
    then replied t r
    else replied limit (record { status = status; headers = none_set; body = 0 })
limit_time status limit (panicked t) =
    if leb t limit
    then panicked t
    else replied limit (record { status = status; headers = none_set; body = 0 })
limit_time status limit pending =
    replied limit (record { status = status; headers = none_set; body = 0 })

abbrev build_layers : List (Layer Table ℕ) → Layer Table ℕ
build_layers [] service request = service request
build_layers (l ∷ layers) service request = l (build_layers layers service) request

-- The identifier that is made.
abbrev made : String
made = "6f1c1f0e-0b7e-4d53-9a42-9a52a9c3a0aa"

abbrev pub tower : TowerApi
tower = record {
  Headers = Table;
  Body = ℕ;
  header = λ headers name. headers name;
  remove = λ headers name wanted. if wanted =ₛ name then none else headers wanted;
  to_str = λ value. some value;
  is_uuid = λ id. id =ₛ made;
  build = build_layers;
  from_fn = λ f service request. f request service;
  set_request_id = λ name service request. elim (request.headers name) [
    | none ↦ service (record request { headers = set_value request.headers name made })
    | some id ↦ service request
  ];
  propagate_request_id = λ name service request. elim (request.headers name) [
    | none ↦ service request
    | some id ↦ with_default name id (service request)
  ];
  if_not_present = λ name value service request. with_default name value (service request);
  trace = λ span service request. service request;
  catch_panic = λ service request. catch_panic (service request);
  timeout = λ status limit service request. limit_time status limit (service request);
}

pub same_name : (name : String) → (name =ₛ name) ≡ true
same_name name = ground (arith, eq_iff name name)

pub other_name : (a b : String) → a ≢ b → (a =ₛ b) ≡ false
other_name a b apart = elim (Bool-cases (a =ₛ b)) [
  | inl same ↦ absurd (apart ((eq_iff a b).0 same))
  | inr differs ↦ differs
]

value_or-eq :
    (value : String) (o : Option String)
    → elim o [ none ↦ value | some old ↦ old ] ≡ value_or tower value o
value_or-eq value none = refl
value_or-eq value (some old) = refl

with_default-Sets :
    (name value : String) (o : Answer) → Sets tower name value o (with_default name value o)
with_default-Sets name value (replied t r) = (
  _,
  refl,
  rw (same_name name) (ap (λ v. some v) (value_or-eq value (r.headers name))),
  λ n apart. rw (other_name n name apart) refl,
)
with_default-Sets name value (panicked t) = refl
with_default-Sets name value pending = refl

catch_panic-Caught : (o : Answer) → Caught tower o (catch_panic o)
catch_panic-Caught (replied t r) = refl
catch_panic-Caught (panicked t) = (_, refl, (refl, λ name apart. refl))
catch_panic-Caught pending = refl

limit_time-Limited :
    (status limit : ℕ) (o : Answer) → Limited tower status limit o (limit_time status limit o)
limit_time-Limited status limit (replied t r) = elim (Bool-cases (leb t limit)) [
  | inl short ↦ rw short (inl (ground arith, refl))
  | inr late ↦ rw late (inr (ground arith, (_, refl, (refl, λ name apart. refl))))
]
limit_time-Limited status limit (panicked t) = elim (Bool-cases (leb t limit)) [
  | inl short ↦ rw short (inl (ground arith, refl))
  | inr late ↦ rw late (inr (ground arith, (_, refl, (refl, λ name apart. refl))))
]
limit_time-Limited status limit pending = (_, refl, (refl, λ name apart. refl))

pub tower-IsLawful : IsLawful tower
tower-IsLawful = record {
  removed = λ headers name. rw (same_name name) refl;
  kept = λ headers name n apart. rw (other_name n name apart) refl;
  build_nil = λ service request. refl;
  build_cons = λ l layers service request. refl;
  from_fn = λ f service request. refl;
  identified = λ name service request absent. (
    made,
    set_value request.headers name made,
    same_name made,
    rw (same_name name) refl,
    (λ n apart. rw (other_name n name apart) refl),
    rw absent refl,
  );
  propagated =
      λ name id service request present. rw present (with_default-Sets name id (service request));
  defaulted = λ name value service request. with_default-Sets name value (service request);
  traced = λ span service request. refl;
  caught = λ service request. catch_panic-Caught (service request);
  limited = λ status limit service request. limit_time-Limited status limit (service request);
}

-- A client that names its request, and routes that panic.
abbrev attack : Req tower
attack = record {
  method = "GET";
  path = "/panic";
  version = "HTTP/1.1";
  headers = set_value none_set request_id_header "attacker-controlled";
}

abbrev panicking : Serve tower
panicking request = panicked 3

-- What the runs below open.
opened : Unit {0}
unfolding apply_http_layers http_layers discard_client_request_id make_http_span
opened = tt

abbrev status_and_id : Out tower → Option (ℕ × Option String × Option String)
status_and_id (replied t r) =
    some (r.status, r.headers request_id_header, r.headers "x-content-type-options")
status_and_id (panicked t) = none
status_and_id pending = none

hardens :
    (status_and_id (apply_http_layers tower panicking 1000 attack)
      ≡ some (500, some made, some "nosniff"))
    × (status_and_id (apply_http_layers tower (λ r. pending) 1000 attack)
        ≡ some (504, some made, some "nosniff"))
unfolding opened
hardens = (refl, refl)

apply_http_layers-IsHardened_example :
    (id : String) × (headers : Table) × ((id =ₛ made) ≡ true)
    × (headers request_id_header ≡ some id)
    × ((n : String) → n ≢ request_id_header → headers n ≡ attack.headers n)
    × IsHardened tower tower-IsLawful panicking 1000
        (record attack { headers = headers })
        id
        (apply_http_layers tower panicking 1000 attack)
apply_http_layers-IsHardened_example =
    apply_http_layers-IsHardened tower tower-IsLawful panicking 1000 attack
