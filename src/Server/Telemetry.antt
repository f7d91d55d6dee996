-- ===== src/Server/Telemetry.antt =====
-- `init_tracing` of crates/server/src/lib.rs, over the `tracing_subscriber` crate.
use wiki_next.Base.{String, Result, ◌>>=◌, map_err}
use wiki_next.Config.Types.{LogFormat, pretty, json, ObservabilityConfig}

pub data TelemetryError (ParseError InitError : Type 0) : Type 0 where
  filter : ParseError → TelemetryError ParseError InitError
  already_initialized : InitError → TelemetryError ParseError InitError

-- A subscriber is installed once, in one of two formats.
pub record TracingApi : Type 1 where
  pub EnvFilter : Type 0
  pub ParseError : Type 0
  pub InitError : Type 0
  pub try_new : String → Result ParseError EnvFilter
  pub init_pretty : EnvFilter → Result InitError (Unit {0})
  pub init_json : EnvFilter → Result InitError (Unit {0})

module _ (R : TracingApi) where
  abbrev init_format : LogFormat → R.EnvFilter → Result R.InitError (Unit {0})
  init_format pretty env_filter = R.init_pretty env_filter
  init_format json env_filter = R.init_json env_filter

  unfoldable pub init_tracing :
      ObservabilityConfig → Result (TelemetryError R.ParseError R.InitError) (Unit {0})
  init_tracing config = do
    env_filter ← map_err filter (R.try_new config.filter)
    map_err already_initialized (init_format config.format env_filter)
