-- ===== src/Server/Signals.antt =====
-- Runs of the server from its socket to its end, and the theorems at them.
use wiki_next.Base.{ℕ, ◌+◌, ◌≤◌, ◌≡◌, refl, ◌⊎◌, true, none, some, arith, Result, ok, err}
use wiki_next.Config.Types.{IoError}
use wiki_next.Net.{SocketAddr, v4}
use wiki_next.Server.Shutdown
use wiki_next.Server.Shutdown.{
  ServerError, shutdown_timed_out, Signal, not_installed, comes, Process, Ending, interrupt,
  terminate, wait_for_shutdown_signal, wait_for_notification, select_server, shutdown_channel,
  run_server,
}
use wiki_next.Server.Deadline.{IsEnding, told, IsGraceful, serve_ends, serve-IsEnding}

-- A process that gets a signal, and whose server takes five milliseconds to stop.
abbrev pub process : Process (Unit {0})
process = record {
  Listener = Unit;
  bind_listener = λ address. ok tt;
  local_addr = λ listener. ok (record { ip = v4 127 0 0 1; port = 3000 });
  ctrl_c = comes (some 50);
  sigterm = comes none;
  serve_until = λ listener app stop. elim stop [ none ↦ none | some n ↦ some (n + 5, ok tt) ];
  takes_server = true;
}

abbrev address : SocketAddr
address = record { ip = v4 127 0 0 1; port = 3000 }

pub process-IsGraceful : IsGraceful process
process-IsGraceful listener app none t h = ground arith
process-IsGraceful listener app (some n) t h = (n, refl, ground arith)

-- What the runs below open.
waiting : Unit {0}
unfolding interrupt terminate wait_for_shutdown_signal wait_for_notification select_server
    shutdown_channel run_server Shutdown.serve
waiting = tt

stops :
    (Shutdown.serve process address tt 20 ≡ some (55, ok tt))
    × (Shutdown.serve process address tt 3 ≡ some (53, err (shutdown_timed_out 3)))
    × (Shutdown.serve (record process { ctrl_c = not_installed }) address tt 20 ≡ some (5, ok tt))
    × (Shutdown.serve
          (record process { ctrl_c = comes none; sigterm = not_installed })
          address
          tt
          20
        ≡ none)
unfolding waiting
stops = (refl, refl, refl, refl)

serve_ends_example :
    (t : ℕ) × (r : Result ServerError (Unit {0})) × (Shutdown.serve process address tt 3
      ≡ some (t, r))
    × (t ≤ 50 + 3)
unfolding waiting
serve_ends_example = serve_ends process address tt 3 {n = 50} refl

abbrev over : Result ServerError (Unit {0})
over = err (shutdown_timed_out 3)

serve-IsEnding_example :
    ((e : IoError) × (over ≡ err (Shutdown.bind e)) × (◌≡◌ {A = ℕ} 53 0))
    ⊎ ((listener : Unit {0}) × (process.bind_listener address ≡ ok listener)
        × IsEnding process.ctrl_c process.sigterm
            (told process)
            (process.serve_until listener tt (told process))
            3
            53
            over)
unfolding waiting
serve-IsEnding_example = serve-IsEnding process address tt 3 over process-IsGraceful refl
