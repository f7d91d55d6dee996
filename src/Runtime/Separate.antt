-- ===== src/Runtime/Separate.antt =====
-- How the two reports of crates/app/src/runtime.rs, on readiness and on the search engine, share the
-- services.
use wiki_next.Base.{◌≡◌, refl, ap, Option, some, List, [], ◌∷◌}
use wiki_next.Net.{UrlApi}
use wiki_next.Search.{HttpApi}
use wiki_next.Postgres.{PgApi}
use wiki_next.Runtime.Report.{DiagnosticReport, Call, Attempt, completed, attempt}
use wiki_next.Runtime.Cache.{served}
use wiki_next.Runtime.Services.{
  StorageApi, Site, Network, AppServices, readiness_report, readiness, search_report, search_status,
}

module _ (U : UrlApi) (W : HttpApi U.Url) (G : PgApi) (S : StorageApi) where
  -- What the services are asked for, with what the probes meet then.
  pub data Question : Type 0 where
    asks_readiness : Call (Site U W G S) → Question
    asks_search : Call (Network U W G S) → Question

  -- The reports on readiness that are given, in order.
  abbrev pub readiness_reports :
      List Question → AppServices U W G S → List (Option DiagnosticReport)
  readiness_reports [] services = []
  readiness_reports (asks_readiness call ∷ questions) services =
      let (report, services') = readiness U W G S services call in
      some report ∷ readiness_reports questions services'
  readiness_reports (asks_search call ∷ questions) services =
      readiness_reports questions (search_status U W G S services call).1

  -- The reports on the search engine that are given, in order.
  abbrev pub search_reports : List Question → AppServices U W G S → List (Option DiagnosticReport)
  search_reports [] services = []
  search_reports (asks_readiness call ∷ questions) services =
      search_reports questions (readiness U W G S services call).1
  search_reports (asks_search call ∷ questions) services =
      let (report, services') = search_status U W G S services call in
      some report ∷ search_reports questions services'

  abbrev pub readiness_attempts : List Question → List (Attempt (Site U W G S))
  readiness_attempts [] = []
  readiness_attempts (asks_readiness call ∷ questions) =
      completed call ∷ readiness_attempts questions
  readiness_attempts (asks_search call ∷ questions) = readiness_attempts questions

  abbrev pub search_attempts : List Question → List (Attempt (Network U W G S))
  search_attempts [] = []
  search_attempts (asks_readiness call ∷ questions) = search_attempts questions
  search_attempts (asks_search call ∷ questions) = completed call ∷ search_attempts questions

  -- However the questions for the two reports follow each other, the reports on readiness are those
  -- that its cache gives to the questions for readiness alone, and the reports on the search engine
  -- are those that the other cache gives to the other questions alone: an outage of the search
  -- engine shows in no report on readiness.
  pub reports-separate :
      (questions : List Question) (services : AppServices U W G S)
      → (readiness_reports questions services
          ≡ served
              (readiness_report U W G S services.local_storage)
              (readiness_attempts questions)
              services.readiness_cache)
        × (search_reports questions services
            ≡ served
                (search_report U W G S services.search_client)
                (search_attempts questions)
                services.search_cache)
  unfolding readiness search_status attempt
  reports-separate [] services = (refl, refl)
  reports-separate (asks_readiness call ∷ questions) services =
      let (ready, found) = reports-separate questions (readiness U W G S services call).1 in
      (ap (λ reports. some (readiness U W G S services call).0 ∷ reports) ready, found)
  reports-separate (asks_search call ∷ questions) services =
      let (ready, found) = reports-separate questions (search_status U W G S services call).1 in
      (ready, ap (λ reports. some (search_status U W G S services call).0 ∷ reports) found)
