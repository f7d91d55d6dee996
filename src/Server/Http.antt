-- ===== src/Server/Http.antt =====
-- Requests and responses, and what crates/server/src/lib.rs takes from the `http`, `tower`,
-- `tower_http` and `axum` crates.
use wiki_next.Base.{ℕ, ◌≤◌, String, ◌≡◌, ◌≢◌, ◌⊎◌, Bool, true, Option, none, some, List, [], ◌∷◌}
use wiki_next.Config.Types.{Duration}

pub record Request (Headers : Type 0) : Type 0 where
  pub method : String
  pub path : String
  pub version : String
  pub headers : Headers

-- The fields of a span.
pub record Span : Type 0 where
  pub request_id : String
  pub method : String
  pub path : String
  pub version : String

pub record Response (Headers Body : Type 0) : Type 0 where
  pub status : ℕ
  pub headers : Headers
  pub body : Body

-- What becomes of a request: a response after a time, a panic after a time, or no end.
pub data Outcome (Headers Body : Type 0) : Type 0 where
  replied : Duration → Response Headers Body → Outcome Headers Body
  panicked : Duration → Outcome Headers Body
  pending : Outcome Headers Body

abbrev pub Service : Type 0 → Type 0 → Type 0
Service Headers Body = Request Headers → Outcome Headers Body

abbrev pub Layer : Type 0 → Type 0 → Type 0
Layer Headers Body = Service Headers Body → Service Headers Body

-- The layers by the names of their constructors. `to_str` is none where a value is not visible ASCII.
pub record TowerApi : Type 1 where
  pub Headers : Type 0
  pub Body : Type 0
  pub header : Headers → String → Option String
  pub remove : Headers → String → Headers
  pub to_str : String → Option String
  pub is_uuid : String → Bool
  pub build : List (Layer Headers Body) → Layer Headers Body
  pub from_fn : (Request Headers → Service Headers Body → Outcome Headers Body) → Layer Headers Body
  pub set_request_id : String → Layer Headers Body
  pub propagate_request_id : String → Layer Headers Body
  pub if_not_present : String → String → Layer Headers Body
  pub trace : (Request Headers → Span) → Layer Headers Body
  pub catch_panic : Layer Headers Body
  pub timeout : ℕ → Duration → Layer Headers Body

module _ (T : TowerApi) where
  abbrev pub Req : Type 0
  Req = Request T.Headers

  abbrev pub Res : Type 0
  Res = Response T.Headers T.Body

  abbrev pub Out : Type 0
  Out = Outcome T.Headers T.Body

  abbrev pub Serve : Type 0
  Serve = Service T.Headers T.Body

  -- The headers agree, that name apart.
  abbrev pub Keeps : String → T.Headers → T.Headers → Type 0
  Keeps name old new = (other : String) → other ≢ name → T.header new other ≡ T.header old other

  abbrev pub value_or : String → Option String → String
  value_or value none = value
  value_or value (some present) = present

  -- The second outcome is the first, with the header where a response lacked it.
  abbrev pub Sets : String → String → Out → Out → Type 0
  Sets name value (replied t r) out =
      (headers : T.Headers) × (out ≡ replied t (record r { headers = headers }))
      × (T.header headers name ≡ some (value_or value (T.header r.headers name)))
      × Keeps name r.headers headers
  Sets name value (panicked t) out = out ≡ panicked t
  Sets name value pending out = out ≡ pending

  -- A response that a layer has made itself: no header but that of its text.
  abbrev pub IsBare : ℕ → Res → Type 0
  IsBare status r =
      (r.status ≡ status)
      × ((name : String) → name ≢ "content-type" → T.header r.headers name ≡ none)

  abbrev pub Caught : Out → Out → Type 0
  Caught (panicked t) out = (r : Res) × (out ≡ replied t r) × IsBare 500 r
  Caught (replied t r) out = out ≡ replied t r
  Caught pending out = out ≡ pending

  abbrev pub TimedOut : ℕ → Duration → Out → Type 0
  TimedOut status limit out = (r : Res) × (out ≡ replied limit r) × IsBare status r

  -- What ends before the limit stays, and what ends after it is lost.
  abbrev pub Limited : ℕ → Duration → Out → Out → Type 0
  Limited status limit (replied t r) out =
      ((t ≤ limit) × (out ≡ replied t r)) ⊎ ((limit ≤ t) × TimedOut status limit out)
  Limited status limit (panicked t) out =
      ((t ≤ limit) × (out ≡ panicked t)) ⊎ ((limit ≤ t) × TimedOut status limit out)
  Limited status limit pending out = TimedOut status limit out

  -- What the documentation of the layers promises.
  pub record IsLawful : Type 0 where
    pub removed :
        (headers : T.Headers) (name : String) → T.header (T.remove headers name) name ≡ none
    pub kept : (headers : T.Headers) (name : String) → Keeps name headers (T.remove headers name)
    pub build_nil : (s : Serve) (req : Req) → T.build [] s req ≡ s req
    pub build_cons :
        (l : Layer T.Headers T.Body) (rest : List (Layer T.Headers T.Body)) (s : Serve) (req : Req)
        → T.build (l ∷ rest) s req ≡ l (T.build rest s) req
    pub from_fn : (f : Req → Serve → Out) (s : Serve) (req : Req) → T.from_fn f s req ≡ f req s
    pub identified :
        (name : String) (s : Serve) (req : Req)
        → T.header req.headers name ≡ none
        → (id : String) × (headers : T.Headers) × (T.is_uuid id ≡ true)
          × (T.header headers name ≡ some id)
          × Keeps name req.headers headers
          × (T.set_request_id name s req ≡ s (record req { headers = headers }))
    pub propagated :
        (name id : String) (s : Serve) (req : Req)
        → T.header req.headers name ≡ some id
        → Sets name id (s req) (T.propagate_request_id name s req)
    pub defaulted :
        (name value : String) (s : Serve) (req : Req)
        → Sets name value (s req) (T.if_not_present name value s req)
    pub traced : (span : Req → Span) (s : Serve) (req : Req) → T.trace span s req ≡ s req
    pub caught : (s : Serve) (req : Req) → Caught (s req) (T.catch_panic s req)
    pub limited :
        (status : ℕ) (limit : Duration) (s : Serve) (req : Req)
        → Limited status limit (s req) (T.timeout status limit s req)
