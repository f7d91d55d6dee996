-- ===== src/Command/Samples.antt =====
-- Runs of the three commands on a small machine, and the theorems at them.
use wiki_next.Base.{
  ◌+◌, String, ◌≡◌, refl, ◌↔◌, true, false, none, some, [], ◌∷◌, arith, ◌=ₛ◌, if◌then◌else◌, Result,
  ok, err,
}
use wiki_next.Config.Types.{Config, shutdown_timeout}
use wiki_next.Paths.{PathBuf, path_of}
use wiki_next.Search.{HttpApi, Response}
use wiki_next.Config.Samples.{UrlParts, urls, system, toml, loaded}
use wiki_next.Config.Samples as ConfigRuns
use wiki_next.Config.Load.{load}
use wiki_next.Search.Samples.{health_of, version_of}
use wiki_next.Runtime.Samples.{disks, postgres, fmt, config}
use wiki_next.Runtime.Samples as RuntimeRuns
use wiki_next.Runtime.Startup.{HasDatabase, HasSearch}
use wiki_next.Runtime.Services.{doctor_storage, run_doctor}
use wiki_next.Server.Telemetry.{TracingApi, init_tracing}
use wiki_next.Server.Shutdown.{
  Process, comes, interrupt, terminate, wait_for_shutdown_signal, wait_for_notification,
  select_server, shutdown_channel, run_server, serve,
}
use wiki_next.Server.Deadline.{IsGraceful}
use wiki_next.Server.Http.{Serve}
use wiki_next.Server.Samples.{tower}
use wiki_next.Server.RouteSamples.{routes}
use wiki_next.Server.Routes.{Visits}
use wiki_next.Command.Doctor.{told, all_succeeded, doctor_tells}
use wiki_next.Command.Run.{
  Command, serve_command, doctor_command, Cli, exit_success, serialize, Machine, start_services,
  examine, run, exit, check_line, exit_failure,
}
use wiki_next.Command.Exit.{IsDone, CanPrint, exit-IsDone, exit_doctor_iff}

abbrev answer : UrlParts → Result (Unit {0}) (Response (Unit {0}))
answer url =
    if url.path =ₛ "health"
    then ok (record { status = 200; content_length = none; chunks = ok (1 ∷ []) ∷ [] })
    else ok (record { status = 200; content_length = none; chunks = ok (2 ∷ []) ∷ [] })

abbrev web : HttpApi UrlParts
web = record {
  HeaderValue = String;
  HeaderError = Unit;
  RequestError = Unit;
  JsonError = Unit;
  Client = Unit;
  header_value = λ text. ok text;
  set_sensitive = λ value. value;
  client = λ options. ok tt;
  send = λ client url. answer url;
  health_from_slice = health_of;
  version_from_slice = version_of;
}

abbrev tracing : TracingApi
tracing = record {
  EnvFilter = String;
  ParseError = Unit;
  InitError = Unit;
  try_new = λ text. ok text;
  init_pretty = λ env_filter. ok tt;
  init_json = λ env_filter. ok tt;
}

abbrev process : Process (Visits routes urls web postgres disks → Serve tower)
process = record {
  Listener = Unit;
  bind_listener = λ address. ok tt;
  local_addr = λ listener. ok loaded.server.bind;
  ctrl_c = comes none;
  sigterm = comes (some 50);
  serve_until = λ listener app stop. elim stop [ none ↦ none | some n ↦ some (n + 5, ok tt) ];
  takes_server = true;
}

process-IsGraceful : IsGraceful process
process-IsGraceful listener app none t h = ground arith
process-IsGraceful listener app (some n) t h = (n, refl, ground arith)

abbrev machine : Machine
machine = record {
  url = urls;
  toml = toml;
  system = system;
  http = web;
  postgres = postgres;
  storage = disks;
  tracing = tracing;
  tower = tower;
  routes = routes;
  process = process;
  fmt = fmt;
  JsonError = Unit;
  to_string_pretty = λ report. ok "{}";
  disk = 0;
  deadline = none;
}

abbrev cli : Command → Cli
cli command = record { config = path_of "config.toml"; command = command }

serves : exit machine (cli serve_command) ≡ some (exit_success, [])
unfolding exit run start_services load init_tracing interrupt terminate wait_for_shutdown_signal
    wait_for_notification select_server shutdown_channel run_server serve ConfigRuns.opened
    RuntimeRuns.opened shutdown_timeout
serves = refl

-- A line for each component, and a report that cannot be printed.
examines :
    (run machine (cli (doctor_command false)) ≡ (
      some (ok tt),
      "[OK] postgresql: PostgreSQL 18.4, схема 1" ∷ "[OK] meilisearch: Meilisearch 1.45.1 доступен"
          ∷ "[OK] storage: каталог ./data доступен" ∷ [],
    ))
    × (run (record machine { to_string_pretty = λ report. err tt }) (cli (doctor_command true))
        ≡ (some (err (serialize tt)), []))
unfolding run examine load init_tracing check_line ConfigRuns.opened RuntimeRuns.opened
examines = (refl, refl)

exit-IsDone_example : IsDone machine (path_of "config.toml") serve_command
exit-IsDone_example = exit-IsDone machine (cli serve_command) process-IsGraceful serves

exit_doctor_iff_example : (exit machine (cli (doctor_command true)) ≡ some (exit_success, [])) ↔ (
    (config : Config) × (load urls toml system (path_of "config.toml") ≡ ok config)
    × (init_tracing tracing config.observability ≡ ok tt)
    × HasDatabase urls web postgres disks config
    × HasSearch urls web postgres disks config
    × ((kept : PathBuf) × ((doctor_storage urls web postgres disks config 0).0 ≡ ok kept))
    × CanPrint machine true (run_doctor urls web postgres disks fmt config 0).0)
exit_doctor_iff_example = exit_doctor_iff machine (path_of "config.toml") true

-- A machine that cannot print a report.
abbrev mute : Machine
mute = record machine { to_string_pretty = λ report. err tt }

fails : (run mute (cli (doctor_command true))).0 ≡ some (err (serialize tt))
unfolding run examine load init_tracing ConfigRuns.opened RuntimeRuns.opened
fails = refl

doctor_tells_example :
    ((run machine (cli (doctor_command false))).1 ≡ told machine loaded)
    × (exit machine (cli (doctor_command false)) ≡ (
        if all_succeeded machine loaded
        then some (exit_success, [])
        else some (exit_failure, "Ошибка: doctor обнаружил ошибки" ∷ [])))
unfolding load init_tracing ConfigRuns.opened RuntimeRuns.opened
doctor_tells_example = doctor_tells machine (path_of "config.toml") loaded refl refl
