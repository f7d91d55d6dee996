-- ===== src/Server/Shutdown.antt =====
-- The life of the server in crates/server/src/lib.rs: its sockets, signals and deadline, over the
-- `tokio` crate and `axum::serve`. A future is the time at which it is done, if it ever is; time
-- starts with the future.
use wiki_next.Base.{
  ℕ, ◌+◌, Bool, ◌&&◌, ◌||◌, Option, none, some, ltb, leb, ◌==◌, if◌then◌else◌, is_some_and, Result,
  ok, err, map_err,
}
use wiki_next.Net.{SocketAddr}
use wiki_next.Config.Types.{Duration, IoError}

pub data ServerError : Type 0 where
  bind serve_error : IoError → ServerError
  shutdown_timed_out : Duration → ServerError

-- A signal of the process: its handler could not be installed, or it comes at a time, or never.
pub data Signal : Type 0 where
  not_installed : Signal
  comes : Option ℕ → Signal

abbrev pub min_time : Option ℕ → Option ℕ → Option ℕ
min_time none b = b
min_time (some a) none = some a
min_time (some a) (some b) = some (if leb a b then a else b)

-- `interrupt`: a handler that is not installed is logged, and the future is done.
unfoldable pub interrupt : Signal → Option ℕ
interrupt not_installed = some 0
interrupt (comes t) = t

-- `terminate`: a handler that is not installed is logged, and the future waits for ever.
unfoldable pub terminate : Signal → Option ℕ
terminate not_installed = none
terminate (comes t) = t

unfoldable pub wait_for_shutdown_signal : Signal → Signal → Option ℕ
wait_for_shutdown_signal ctrl_c sigterm = min_time (interrupt ctrl_c) (terminate sigterm)

-- `watch`: when `true` was sent, and when the sender was dropped.
pub record Watch : Type 0 where
  pub sent : Option ℕ
  pub dropped : Option ℕ

abbrev is_by : ℕ → Option ℕ → Bool
is_by now event = is_some_and (λ t. leb t now) event

abbrev max_time : ℕ → Option ℕ → Option ℕ
max_time now none = none
max_time now (some t) = some (if leb t now then now else t)

-- `wait_for_notification`, called at `now`: an error of `wait_for`, when the sender is gone, ends it
-- too.
unfoldable pub wait_for_notification : Watch → ℕ → Option ℕ
wait_for_notification receiver now =
    if is_by now receiver.sent
    then some now
    else max_time now (min_time receiver.sent receiver.dropped)

-- What the server's process meets. The graceful server is done at a time that depends on when it is
-- told to stop. Where two branches of a `select!` are ready at once, either may be taken.
pub record Process (App : Type 0) : Type 1 where
  pub Listener : Type 0
  pub bind_listener : SocketAddr → Result IoError Listener
  pub local_addr : Listener → Result IoError SocketAddr
  pub ctrl_c : Signal
  pub sigterm : Signal
  pub serve_until : Listener → App → Option ℕ → Option (ℕ × Result IoError (Unit {0}))
  pub takes_server : Bool

-- A program that is done at a time, or runs for ever.
abbrev pub Ending : Type 0
Ending = Option (ℕ × Result ServerError (Unit {0}))

abbrev pub plus_time : Option ℕ → Duration → Option ℕ
plus_time none d = none
plus_time (some t) d = some (t + d)

abbrev ended : ℕ × Result IoError (Unit {0}) → Ending
ended (t, result) = some (t, map_err serve_error result)

-- The last `select!` of `serve`.
unfoldable pub select_server :
    Bool → Duration → Option (ℕ × Result IoError (Unit {0})) → Option ℕ → Ending
select_server takes_server timeout none none = none
select_server takes_server timeout (some e) none = ended e
select_server takes_server timeout none (some d) = some (d, err (shutdown_timed_out timeout))
select_server takes_server timeout (some (t, result)) (some d) =
    if ltb t d || (t == d && takes_server)
    then ended (t, result)
    else some (d, err (shutdown_timed_out timeout))

module _ {App : Type 0} (P : Process App) where
  -- The channel of `serve`: the task sends once, and then drops its sender.
  unfoldable pub shutdown_channel : Watch
  shutdown_channel =
      let signal = wait_for_shutdown_signal P.ctrl_c P.sigterm in
      record { sent = signal; dropped = signal }

  -- The futures of `serve` once the socket is open.
  unfoldable pub run_server : P.Listener → App → Duration → Ending
  run_server listener app shutdown_timeout =
      select_server P.takes_server shutdown_timeout
        (P.serve_until listener app (wait_for_notification shutdown_channel 0))
        (plus_time (wait_for_notification shutdown_channel 0) shutdown_timeout)

  -- `serve`, with the router that it makes.
  unfoldable pub serve : SocketAddr → App → Duration → Ending
  serve address app shutdown_timeout = elim (P.bind_listener address) [
    | err e ↦ some (0, err (bind e))
    | ok listener ↦ elim (P.local_addr listener) [
      | err e ↦ some (0, err (bind e))
      | ok local ↦ run_server listener app shutdown_timeout
    ]
  ]
