-- ===== src/Runtime/Cache.antt =====
-- How old a report of `readiness` or `search_status` can be, and how often they probe, in
-- crates/app/src/runtime.rs.
use mathlib.Core.Path.{subst}
use wiki_next.Base.{
  ◌+◌, ◌≤◌, ◌<◌, ◌≡◌, refl, sym, ◌⊎◌, inl, inr, true, false, Option, none, some, List, [], ◌∷◌,
  arith, Bool-cases, Option-cases,
}
use wiki_next.Runtime.Report.{
  diagnostic_cache_ttl, DiagnosticReport, CachedReport, fresh, Call, Cached, serve, refresh,
  Attempt, completed, dropped, attempt,
}

module _ {E : Type 0} where
  -- A call of the list has the property.
  abbrev pub SomeCall : (Call E → Type 0) → List (Call E) → Type 0
  SomeCall P [] = ⊥
  SomeCall P (c ∷ calls) = P c ⊎ SomeCall P calls

  SomeCall-map :
      {P Q : Call E → Type 0} (calls : List (Call E))
      → ((c : Call E) → P c → Q c)
      → SomeCall P calls
      → SomeCall Q calls
  SomeCall-map [] f h = elim h [ ]
  SomeCall-map (c ∷ calls) f (inl h) = inl (f c h)
  SomeCall-map (c ∷ calls) f (inr h) = inr (SomeCall-map calls f h)

  -- From the newest call on, each started a whole lifetime of the cache after the one before it
  -- had finished.
  abbrev pub AreSpaced : List (Call E) → Type 0
  AreSpaced [] = Unit
  AreSpaced (c ∷ []) = Unit
  AreSpaced (c ∷ d ∷ calls) =
      (d.finished + diagnostic_cache_ttl ≤ c.started) × AreSpaced (d ∷ calls)

module _ {E : Type 0} (probe : E → DiagnosticReport) where
  -- The reports that the calls are given, in order, and the cache after them.
  abbrev pub served : List (Attempt E) → Cached E → List (Option DiagnosticReport)
  served [] cached = []
  served (a ∷ attempts) cached =
      let (report, cached') = attempt probe a cached in report ∷ served attempts cached'

  abbrev pub after : List (Attempt E) → Cached E → Cached E
  after [] cached = cached
  after (a ∷ attempts) cached = after attempts (attempt probe a cached).1

  -- The report is that of the probe of `p`, which is the call itself or had finished less than a
  -- lifetime of the cache before the call.
  abbrev pub IsRecent : Call E → DiagnosticReport → Call E → Type 0
  IsRecent c report p =
      (report ≡ probe p.environment) × ((p ≡ c) ⊎ (c.started < p.finished + diagnostic_cache_ttl))

  -- Every call that runs to its end has a report, from a probe of this call or of one before it.
  abbrev pub AreRecent : List (Call E) → List (Attempt E) → List (Option DiagnosticReport) → Type 0
  AreRecent past [] reports = reports ≡ []
  AreRecent past (a ∷ attempts) [] = ⊥
  AreRecent past (completed c ∷ attempts) (none ∷ reports) = ⊥
  AreRecent past (completed c ∷ attempts) (some report ∷ reports) =
      SomeCall (IsRecent c report) (c ∷ past) × AreRecent (c ∷ past) attempts reports
  AreRecent past (dropped ∷ attempts) (report ∷ reports) =
      (report ≡ none) × AreRecent past attempts reports

  abbrev IsOf : CachedReport → Call E → Type 0
  IsOf last p = (last.checked_at ≡ p.finished) × (last.report ≡ probe p.environment)

  -- The cache holds the report of a call of the past.
  abbrev HoldsPast : List (Call E) → Option CachedReport → Type 0
  HoldsPast past none = Unit
  HoldsPast past (some last) = SomeCall (IsOf last) past

  of_fresh :
      (c : Call E) (last : CachedReport)
      → fresh c.started last ≡ true
      → (p : Call E) → IsOf last p
      → IsRecent c last.report p
  unfolding fresh
  of_fresh c last young p (at, report) = (report, inr (ground arith))

  -- A call is given the cached report while it is fresh, and probes otherwise.
  serve_cases :
      (c : Call E) (cached : Cached E)
      → ((last : CachedReport) × (cached.cache ≡ some last)
          × (fresh c.started last ≡ true)
          × (serve probe c cached ≡ (last.report, cached)))
        ⊎ (((cached.cache ≡ none)
              ⊎ ((last : CachedReport) × (cached.cache ≡ some last)
                  × (fresh c.started last ≡ false)))
            × (serve probe c cached ≡ refresh probe c cached.probes))
  unfolding serve
  serve_cases c cached = elim (Option-cases cached.cache) [
    | inl empty ↦ inr (inl empty, ground arith)
    | inr (last, full) ↦ elim (Bool-cases (fresh c.started last)) [
      | inl young ↦ inl (last, full, young, ground arith)
      | inr old ↦ inr (inr (last, full, old), ground arith)
    ]
  ]

  abbrev IsServed : List (Call E) → Call E → DiagnosticReport × Cached E → Type 0
  IsServed past c (report, cached) =
      SomeCall (IsRecent c report) (c ∷ past) × HoldsPast (c ∷ past) cached.cache

  serve-IsRecent :
      (past : List (Call E)) (c : Call E) (cached : Cached E)
      → HoldsPast past cached.cache
      → IsServed past c (serve probe c cached)
  serve-IsRecent past c cached held = elim (serve_cases c cached) [
    | inr (stale, e) ↦
        subst (λ out. IsServed past c out) (sym e) (inl (refl, inl refl), inl (refl, refl))
    | inl (last, full, young, e) ↦
        let held' : SomeCall (IsOf last) past = rw full at held in
        subst (λ out. IsServed past c out) (sym e)
          (inr (SomeCall-map past (of_fresh c last young) held'), rw full (inr held'))
  ]

  served-AreRecent :
      (past : List (Call E)) (attempts : List (Attempt E)) (cached : Cached E)
      → HoldsPast past cached.cache
      → AreRecent past attempts (served attempts cached)
  unfolding attempt
  served-AreRecent past [] cached held = refl
  served-AreRecent past (completed c ∷ attempts) cached held =
      let (recent, held') = serve-IsRecent past c cached held in
      (recent, served-AreRecent (c ∷ past) attempts (serve probe c cached).1 held')
  served-AreRecent past (dropped ∷ attempts) cached held =
      (refl, served-AreRecent past attempts cached held)

  -- In any sequence of calls, on a cache that is empty at first, some of which are dropped before
  -- they end, each that runs to its end is given a report of a probe, its own or that of an earlier
  -- call that ran to its end. In the second case that probe had finished less than five seconds
  -- before the call started.
  pub served-recent :
      (attempts : List (Attempt E))
      → AreRecent [] attempts (served attempts (record { cache = none; probes = [] }))
  served-recent attempts = served-AreRecent [] attempts _ tt

  abbrev IsLast : Option CachedReport → List (Call E) → Type 0
  IsLast none probes = probes ≡ []
  IsLast (some last) [] = ⊥
  IsLast (some last) (p ∷ probes) = last.checked_at ≡ p.finished

  -- The newest probe filled the cache, and the probes are spaced.
  abbrev IsRated : Cached E → Type 0
  IsRated cached = IsLast cached.cache cached.probes × AreSpaced cached.probes

  AreSpaced-cons :
      (c : Call E) (last : CachedReport) (probes : List (Call E))
      → IsLast (some last) probes
      → fresh c.started last ≡ false
      → AreSpaced probes
      → AreSpaced (c ∷ probes)
  unfolding fresh
  AreSpaced-cons c last [] filled old spaced = tt
  AreSpaced-cons c last (p ∷ probes) filled old spaced = (ground arith, spaced)

  serve-IsRated :
      (c : Call E) (cached : Cached E) → IsRated cached → IsRated (serve probe c cached).1
  serve-IsRated c cached (filled, spaced) = elim (serve_cases c cached) [
    | inl (last, full, young, e) ↦ rw e (filled, spaced)
    | inr (inl empty, e) ↦
        let none_yet : cached.probes ≡ [] = rw empty at filled in rw (e, none_yet) (refl, tt)
    | inr (inr (last, full, old), e) ↦
        let filled' : IsLast (some last) cached.probes = rw full at filled in
        rw e (refl, AreSpaced-cons c last cached.probes filled' old spaced)
  ]

  after-IsRated :
      (attempts : List (Attempt E)) (cached : Cached E)
      → IsRated cached
      → IsRated (after attempts cached)
  unfolding attempt
  after-IsRated [] cached rated = rated
  after-IsRated (completed c ∷ attempts) cached rated =
      after-IsRated attempts (serve probe c cached).1 (serve-IsRated c cached rated)
  after-IsRated (dropped ∷ attempts) cached rated = after-IsRated attempts cached rated

  -- However often the reports are asked for, on a cache that is empty at first, a call that runs to
  -- its end probes only if it starts five seconds or more after the last such probe had finished.
  -- Calls that are dropped before they end do not count.
  pub after-spaced :
      (attempts : List (Attempt E))
      → AreSpaced (after attempts (record { cache = none; probes = [] })).probes
  after-spaced attempts = (after-IsRated attempts _ (refl, tt)).1
