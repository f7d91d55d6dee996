-- ===== src/Runtime/UnitTests.antt =====
-- The test of crates/app/src/runtime.rs.
use wiki_next.Base.{◌≡◌, refl, true, false, [], ◌∷◌}
use wiki_next.Runtime.Report.{report_new, success, failure, is_ok}

abbrev ReportIsHealthyOnlyWhenEveryCheckPasses : Type 0
ReportIsHealthyOnlyWhenEveryCheckPasses =
    ((report_new (success "test" "ok" ∷ [])).healthy ≡ true)
    × ((report_new (success "first" "ok" ∷ failure "second" "failed" ∷ [])).healthy ≡ false)

healthy_only : ReportIsHealthyOnlyWhenEveryCheckPasses
unfolding report_new success failure is_ok
healthy_only = (refl, refl)
