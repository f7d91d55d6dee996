-- ===== src/Server/Good.antt =====
-- What the layers of crates/server/src/lib.rs make of a response, one layer at a time.
use wiki_next.Base.{
  ℕ, ◌≤◌, String, ◌≡◌, refl, sym, ap, ◌∙◌, ◌≢◌, ◌⊎◌, inl, inr, false, none, some, List, [], ◌∷◌,
  arith, ◌=ₛ◌, eq_iff, Option-cases,
}
use wiki_next.Config.Types.{Duration}
use wiki_next.Server.Http.{
  replied, panicked, pending, TowerApi, Res, Out, Keeps, Sets, Caught, Limited, value_or, IsBare,
}
use wiki_next.Server.Layers.{gateway_timeout}

pub differ : (a b : String) → (a =ₛ b) ≡ false → a ≢ b
differ a b h same = ground (arith, eq_iff a b)

le_refl : (n : ℕ) → n ≤ n
le_refl n = omega arith

-- Headers with the values that layers give them.
abbrev pub Defaults : Type 0
Defaults = List (String × String)

-- The name is none of theirs.
abbrev pub IsNew : String → Defaults → Type 0
IsNew name [] = Unit
IsNew name ((other, value) ∷ set) = (name ≢ other) × IsNew name set

module _ (T : TowerApi) where
  -- What the routes have made of a request shows in the response: their own status and body, 500
  -- where they panicked, 504 where the limit was reached.
  abbrev pub Answers : Duration → Out T → Duration → Res T → Type 0
  Answers limit (replied t own) time r =
      ((time ≡ t) × (r.status ≡ own.status) × (r.body ≡ own.body))
      ⊎ ((limit ≤ t) × (r.status ≡ gateway_timeout))
  Answers limit (panicked t) time r =
      ((time ≡ t) × (r.status ≡ 500)) ⊎ ((limit ≤ t) × (r.status ≡ gateway_timeout))
  Answers limit pending time r = r.status ≡ gateway_timeout

  -- The header has the value that the routes have given it themselves.
  abbrev pub IsOwn : String → Out T → Res T → Type 0
  IsOwn name (replied t own) r =
      (value : String) × (T.header own.headers name ≡ some value)
      × (T.header r.headers name ≡ some value)
  IsOwn name (panicked t) r = ⊥
  IsOwn name pending r = ⊥

  -- Every header has the value that a layer gives it, or one that the routes have given it.
  abbrev pub AreSet : Out T → Res T → Defaults → Type 0
  AreSet inner r [] = Unit
  AreSet inner r ((name, value) ∷ set) =
      ((T.header r.headers name ≡ some value) ⊎ IsOwn name inner r) × AreSet inner r set

  -- No other header is there but those of the routes, and that of the type of the content.
  abbrev pub AreFree : Out T → Res T → Defaults → Type 0
  AreFree inner r set =
      (name : String)
      → name ≢ "content-type"
      → IsNew name set
      → (T.header r.headers name ≡ none) ⊎ IsOwn name inner r

  -- A response in time, with the headers so far.
  abbrev pub IsGood : Duration → Out T → Defaults → Out T → Type 0
  IsGood limit inner set out =
      (time : Duration) × (r : Res T) × (out ≡ replied time r)
      × (time ≤ limit)
      × Answers limit inner time r
      × AreSet inner r set
      × AreFree inner r set

  Answers-record :
      (limit : Duration) (inner : Out T) (time : Duration) (r : Res T) (headers : T.Headers)
      → Answers limit inner time r
      → Answers limit inner time (record r { headers = headers })
  Answers-record limit (replied t own) time r headers h = h
  Answers-record limit (panicked t) time r headers h = h
  Answers-record limit pending time r headers h = h

  IsOwn-record :
      (name : String) (inner : Out T) (r : Res T) (headers : T.Headers)
      → T.header headers name ≡ T.header r.headers name
      → IsOwn name inner r
      → IsOwn name inner (record r { headers = headers })
  IsOwn-record name (replied t own) r headers same (value, mine, there) =
      (value, mine, same ∙ there)
  IsOwn-record name (panicked t) r headers same own = elim own [ ]
  IsOwn-record name pending r headers same own = elim own [ ]

  AreSet-Keeps :
      (inner : Out T) (r : Res T) (headers : T.Headers) (name : String) (set : Defaults)
      → IsNew name set
      → Keeps T name r.headers headers
      → AreSet inner r set
      → AreSet inner (record r { headers = headers }) set
  AreSet-Keeps inner r headers name [] new keeps h = tt
  AreSet-Keeps inner r headers name ((other, value) ∷ set) (differs, new) keeps (here, h) =
      let same = keeps other (λ e. differs (sym e)) in
      (
        elim here [
          | inl given ↦ inl (same ∙ given)
          | inr own ↦ inr (IsOwn-record other inner r headers same own)
        ],
        AreSet-Keeps inner r headers name set new keeps h,
      )

  -- A header that is set where it lacks has its value, or that of the routes.
  set-IsOwn :
      (inner : Out T) (r : Res T) (headers : T.Headers) (name value : String)
      → T.header headers name ≡ some (value_or T value (T.header r.headers name))
      → (T.header r.headers name ≡ none) ⊎ IsOwn name inner r
      → (T.header headers name ≡ some value) ⊎ IsOwn name inner (record r { headers = headers })
  set-IsOwn inner r headers name value set (inl free) =
      inl (set ∙ ap (λ o. some (value_or T value o)) free)
  set-IsOwn (replied t own) r headers name value set (inr (v, mine, there)) =
      inr (v, mine, set ∙ ap (λ o. some (value_or T value o)) there)
  set-IsOwn (panicked t) r headers name value set (inr own) = elim own [ ]
  set-IsOwn pending r headers name value set (inr own) = elim own [ ]

  -- A layer that sets a header where it lacks keeps a response good, and adds the header.
  pub Sets-IsGood :
      (limit : Duration) (inner : Out T) (set : Defaults) (name value : String)
      (before after : Out T)
      → name ≢ "content-type"
      → IsNew name set
      → Sets T name value before after
      → IsGood limit inner set before
      → IsGood limit inner ((name, value) ∷ set) after
  Sets-IsGood limit inner set name value (replied t r) after typed new (headers, e, made, keeps)
        (time, r', same, short, answers, are, free) =
      let at : time ≡ t = cc in
      let its : r' ≡ r = cc in
      let are' : AreSet inner r set = rw its at are in
      let free' : AreFree inner r set = rw its at free in
      (
        t,
        record r { headers = headers },
        e,
        rw at at short,
        Answers-record limit inner t r headers (rw (at, its) at answers),
        (
          set-IsOwn inner r headers name value made (free' name typed new),
          AreSet-Keeps inner r headers name set new keeps are',
        ),
        λ other typed' (differs, new').
            let same' = keeps other differs in
            elim (free' other typed' new') [
              | inl none_there ↦ inl (same' ∙ none_there)
              | inr own ↦ inr (IsOwn-record other inner r headers same' own)
            ],
      )
  Sets-IsGood limit inner set name value (panicked t) after typed new e
        (time, r', same, short, answers, are, free) =
      ground arith
  Sets-IsGood limit inner set name value pending after typed new e
        (time, r', same, short, answers, are, free) =
      ground arith

  IsBare-AreFree : (status : ℕ) (inner : Out T) (r : Res T) → IsBare T status r → AreFree inner r []
  IsBare-AreFree status inner r (is, bare) name typed new = inl (bare name typed)

  -- The two innermost layers turn every end of the routes into a response in time.
  pub IsGood-Caught :
      (limit : Duration) (inner limited out : Out T)
      → Limited T gateway_timeout limit inner limited
      → Caught T limited out
      → IsGood limit inner [] out
  IsGood-Caught limit (replied t own) limited out (inl (short, e)) c = (
    t,
    own,
    (rw e at c),
    short,
    inl (refl, refl, refl),
    tt,
    λ name typed new. elim (Option-cases (T.header own.headers name)) [
      | inl free ↦ inl free
      | inr (value, there) ↦ inr (value, there, there)
    ],
  )
  IsGood-Caught limit (replied t own) limited out (inr (late, (r, e, (status, bare)))) c = (
    limit,
    r,
    (rw e at c),
    le_refl limit,
    inr (late, status),
    tt,
    IsBare-AreFree gateway_timeout (replied t own) r (status, bare),
  )
  IsGood-Caught limit (panicked t) limited out (inl (short, e)) c =
      let (r, made, (status, bare)) : Caught T (panicked t) out = rw e at c in
      (t, r, made, short, inl (refl, status), tt, IsBare-AreFree 500 (panicked t) r (status, bare))
  IsGood-Caught limit (panicked t) limited out (inr (late, (r, e, (status, bare)))) c = (
    limit,
    r,
    (rw e at c),
    le_refl limit,
    inr (late, status),
    tt,
    IsBare-AreFree gateway_timeout (panicked t) r (status, bare),
  )
  IsGood-Caught limit pending limited out (r, e, (status, bare)) c = (
    limit,
    r,
    (rw e at c),
    le_refl limit,
    status,
    tt,
    IsBare-AreFree gateway_timeout pending r (status, bare),
  )
