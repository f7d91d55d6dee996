-- ===== src/Runtime/Report.antt =====
-- The diagnostic reports and their cache in crates/app/src/runtime.rs.
use wiki_next.Base.{
  ℕ, ◌-◌, ◌*◌, String, Bool, true, false, Option, none, some, List, ◌∷◌, ltb, if◌then◌else◌, all,
  Result, ok, err,
}
use wiki_next.Config.Types.{Duration}

abbrev pub diagnostic_cache_ttl : Duration
diagnostic_cache_ttl = 5 * 1000

pub data CheckStatus : Type 0 where
  passed failed : CheckStatus

pub record DiagnosticCheck : Type 0 where
  pub component : String
  pub status : CheckStatus
  pub detail : String

unfoldable pub success : String → String → DiagnosticCheck
success component detail = record { component = component; status = passed; detail = detail }

-- The error is given as its text.
unfoldable pub failure : String → String → DiagnosticCheck
failure component error = record { component = component; status = failed; detail = error }

abbrev pub is_passed : CheckStatus → Bool
is_passed passed = true
is_passed failed = false

-- `DiagnosticCheck::is_ok`.
unfoldable pub is_ok : DiagnosticCheck → Bool
is_ok check = is_passed check.status

pub record DiagnosticReport : Type 0 where
  pub healthy : Bool
  pub checks : List DiagnosticCheck

-- `DiagnosticReport::new`.
unfoldable pub report_new : List DiagnosticCheck → DiagnosticReport
report_new checks = record { healthy = all is_ok checks; checks = checks }

-- Instants are in milliseconds.
pub record CachedReport : Type 0 where
  pub checked_at : ℕ
  pub report : DiagnosticReport

-- `CachedReport::fresh`. The time that has passed stops at zero, as that of `elapsed`.
unfoldable pub fresh : ℕ → CachedReport → Bool
fresh now cached = ltb (now - cached.checked_at) diagnostic_cache_ttl

-- One call, under the mutex of its cache: when it has the lock, when its report is ready, and what
-- its probes meet.
pub record Call (E : Type 0) : Type 0 where
  pub started : ℕ
  pub finished : ℕ
  pub environment : E

-- The cache, and the calls that have probed, newest first.
pub record Cached (E : Type 0) : Type 0 where
  pub cache : Option CachedReport
  pub probes : List (Call E)

module _ {E : Type 0} (probe : E → DiagnosticReport) where
  abbrev pub refresh : Call E → List (Call E) → DiagnosticReport × Cached E
  refresh call probes =
      let report = probe call.environment in
      (
        report,
        record {
          cache = some (record { checked_at = call.finished; report = report });
          probes = call ∷ probes;
        },
      )

  -- The common shape of `readiness` and `search_status`.
  unfoldable pub serve : Call E → Cached E → DiagnosticReport × Cached E
  serve call cached = elim cached.cache [
    | none ↦ refresh call cached.probes
    | some last ↦
        if fresh call.started last then (last.report, cached) else refresh call cached.probes
  ]

-- A call that runs to its end, or one whose future is dropped before, as by the time limit of the
-- server.
pub data Attempt (E : Type 0) : Type 0 where
  completed : Call E → Attempt E
  dropped : Attempt E

-- The cache is filled behind the last `await`: a call that is dropped leaves it as it was.
unfoldable pub attempt :
    {E : Type 0}
    → (E → DiagnosticReport)
    → Attempt E
    → Cached E
    → Option DiagnosticReport × Cached E
attempt probe (completed call) cached =
    let (report, cached') = serve probe call cached in (some report, cached')
attempt probe dropped cached = (none, cached)

-- A check whose text does not depend on what the probe has returned.
unfoldable pub check_of : {F A : Type 0} → String → String → String → Result F A → DiagnosticCheck
check_of component available unavailable (ok _) = success component available
check_of component available unavailable (err _) = failure component unavailable

-- A check whose text shows what the probe has returned.
abbrev pub doctor_check :
    {F A : Type 0} → String → (A → String) → (F → String) → Result F A → DiagnosticCheck
doctor_check component show complain (ok status) = success component (show status)
doctor_check component show complain (err e) = failure component (complain e)
