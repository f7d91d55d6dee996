-- ===== src/Server/Deadline.antt =====
-- When the server of crates/server/src/lib.rs ends, and how.
use wiki_next.Base.{
  ℕ, ◌+◌, ◌≤◌, ◌≡◌, refl, sym, ◌∙◌, ◌⊎◌, inl, inr, Bool, ◌&&◌, ◌||◌, Option, none, some, arith, ltb,
  ◌==◌, Bool-cases, Result, ok, err, map_err, Result-cases,
}
use wiki_next.Net.{SocketAddr}
use wiki_next.Config.Types.{Duration, IoError}
use wiki_next.Server.Shutdown.{
  ServerError, bind, serve_error, shutdown_timed_out, Signal, not_installed, comes, interrupt,
  terminate, wait_for_shutdown_signal, wait_for_notification, Process, plus_time, select_server,
  shutdown_channel, run_server, serve,
}

wait_for_notification_sent :
    (signal : Option ℕ)
    → wait_for_notification (record { sent = signal; dropped = signal }) 0 ≡ signal
unfolding wait_for_notification
wait_for_notification_sent none = refl
wait_for_notification_sent (some t) = ground arith

-- What tells the server to stop at that time: a signal, or a handler for Ctrl+C that is missing.
abbrev pub IsTold : Signal → Signal → ℕ → Type 0
IsTold ctrl_c sigterm n =
    (ctrl_c ≡ comes (some n)) ⊎ (sigterm ≡ comes (some n)) ⊎ ((ctrl_c ≡ not_installed) × (n ≡ 0))

wait_for_shutdown_signal-IsTold :
    (ctrl_c sigterm : Signal) {n : ℕ}
    → wait_for_shutdown_signal ctrl_c sigterm ≡ some n
    → IsTold ctrl_c sigterm n
unfolding wait_for_shutdown_signal interrupt terminate
wait_for_shutdown_signal-IsTold not_installed not_installed h = ground arith
wait_for_shutdown_signal-IsTold not_installed (comes none) h = ground arith
wait_for_shutdown_signal-IsTold not_installed (comes (some t)) h = ground arith
wait_for_shutdown_signal-IsTold (comes none) not_installed h = ground arith
wait_for_shutdown_signal-IsTold (comes (some t)) not_installed h = ground arith
wait_for_shutdown_signal-IsTold (comes none) (comes none) h = ground arith
wait_for_shutdown_signal-IsTold (comes none) (comes (some t)) h = ground arith
wait_for_shutdown_signal-IsTold (comes (some s)) (comes none) h = ground arith
wait_for_shutdown_signal-IsTold (comes (some s)) (comes (some t)) h = ground arith

select_server_by :
    (takes : Bool) (timeout d : ℕ) (server : Option (ℕ × Result IoError (Unit {0})))
    → (t : ℕ) × (r : Result ServerError (Unit {0})) × (select_server takes timeout server (some d)
        ≡ some (t, r))
      × (t ≤ d)
unfolding select_server
select_server_by takes timeout d none = (d, _, refl, omega arith)
select_server_by takes timeout d (some (t, result)) =
    elim (Bool-cases (ltb t d || (t == d && takes))) [
      | inl first ↦ (t, map_err serve_error result, ground arith, ground arith)
      | inr late ↦ (d, err (shutdown_timed_out timeout), ground arith, omega arith)
    ]

abbrev pub Server : Type 0
Server = Option (ℕ × Result IoError (Unit {0}))

-- How the server may have ended at that time: well, after it was told to stop and within the time
-- for it; by its own error; or at the deadline, which its own end has
-- not come before.
abbrev pub IsEnding :
    Signal → Signal → Option ℕ → Server → Duration → ℕ → Result ServerError (Unit {0}) → Type 0
IsEnding ctrl_c sigterm told server timeout t (ok u) =
    (server ≡ some (t, ok u)) × ((n : ℕ) × IsTold ctrl_c sigterm n × (n ≤ t) × (t ≤ n + timeout))
IsEnding ctrl_c sigterm told server timeout t (err (bind e)) = ⊥
IsEnding ctrl_c sigterm told server timeout t (err (serve_error e)) =
    (server ≡ some (t, err e)) × ((n : ℕ) → told ≡ some n → t ≤ n + timeout)
IsEnding ctrl_c sigterm told server timeout t (err (shutdown_timed_out d)) =
    (d ≡ timeout)
    × ((n : ℕ) × IsTold ctrl_c sigterm n × (t ≡ n + timeout))
    × ((t' : ℕ) (r : Result IoError (Unit {0})) → server ≡ some (t', r) → t ≤ t')

-- The `select!` takes the server, no later than the deadline, or the deadline, no later than it.
select_server-cases :
    (takes : Bool) (timeout : Duration) (server : Server) (told : Option ℕ) {t : ℕ}
    {r : Result ServerError (Unit {0})}
    → select_server takes timeout server (plus_time told timeout) ≡ some (t, r)
    → ((own : Result IoError (Unit {0})) × (server ≡ some (t, own))
        × (r ≡ map_err serve_error own)
        × ((n : ℕ) → told ≡ some n → t ≤ n + timeout))
      ⊎ ((n : ℕ) × (told ≡ some n)
          × (t ≡ n + timeout)
          × (r ≡ err (shutdown_timed_out timeout))
          × ((t' : ℕ) (own : Result IoError (Unit {0})) → server ≡ some (t', own) → t ≤ t'))
unfolding select_server
select_server-cases takes timeout none none h = ground arith
select_server-cases takes timeout (some (s, own)) none h =
    inl (own, ground arith, ground arith, λ n told. ground arith)
select_server-cases takes timeout none (some n) h =
    inr (n, refl, ground arith, ground arith, λ t' own e. ground arith)
select_server-cases takes timeout (some (s, own)) (some n) h =
    elim (Bool-cases (ltb s (n + timeout) || (s == n + timeout && takes))) [
      | inl first ↦ inl (own, ground arith, ground arith, λ m told. ground arith)
      | inr late ↦ inr (n, refl, ground arith, ground arith, λ t' own' e. ground arith)
    ]

select_server-IsEnding :
    (ctrl_c sigterm : Signal) (takes : Bool) (timeout : Duration) (server : Server)
    (told : Option ℕ) {t : ℕ} {r : Result ServerError (Unit {0})}
    → ((n : ℕ) → told ≡ some n → IsTold ctrl_c sigterm n)
    → ((t : ℕ) → server ≡ some (t, ok tt) → (n : ℕ) × (told ≡ some n) × (n ≤ t))
    → select_server takes timeout server (plus_time told timeout) ≡ some (t, r)
    → IsEnding ctrl_c sigterm told server timeout t r
select_server-IsEnding ctrl_c sigterm takes timeout server told {t} why graceful h =
    elim (select_server-cases takes timeout server told h) [
      | inl (ok u, own, same, short) ↦
          let (n, stop, after) = graceful t own in
          rw same (own, (n, why n stop, after, short n stop))
      | inl (err e, own, same, short) ↦ rw same (own, short)
      | inr (n, stop, at, same, late) ↦ rw same (refl, (n, why n stop, at), late)
    ]

module _ {App : Type 0} (P : Process App) where
  abbrev pub told : Option ℕ
  told = wait_for_shutdown_signal P.ctrl_c P.sigterm

  run_server-eq :
      (listener : P.Listener) (app : App) (timeout : Duration)
      → run_server P listener app timeout
        ≡ select_server P.takes_server timeout
            (P.serve_until listener app told)
            (plus_time told timeout)
  unfolding run_server shutdown_channel
  run_server-eq listener app timeout = rw (wait_for_notification_sent told) refl

  serve-run_server :
      (address : SocketAddr) (app : App) (timeout : Duration) {listener : P.Listener}
      {local : SocketAddr}
      → P.bind_listener address ≡ ok listener
      → P.local_addr listener ≡ ok local
      → serve P address app timeout ≡ run_server P listener app timeout
  unfolding serve
  serve-run_server address app timeout bound known = ground arith

  -- Once the process is told to stop, the server ends, and at the latest when the time for the
  -- shutdown is over.
  pub serve_ends :
      (address : SocketAddr) (app : App) (shutdown_timeout : Duration) {n : ℕ}
      → told ≡ some n
      → (t : ℕ) × (r : Result ServerError (Unit {0})) × (serve P address app shutdown_timeout
          ≡ some (t, r))
        × (t ≤ n + shutdown_timeout)
  unfolding serve
  serve_ends address app shutdown_timeout {n} stop = elim (Result-cases (P.bind_listener address)) [
    | inr (e, failed) ↦ (0, err (bind e), ground arith, omega arith)
    | inl (listener, bound) ↦ elim (Result-cases (P.local_addr listener)) [
      | inr (e, failed) ↦ (0, err (bind e), ground arith, omega arith)
      | inl (local, known) ↦
          let (t, r, e, short) =
            select_server_by P.takes_server shutdown_timeout (n + shutdown_timeout)
              (P.serve_until listener app (some n)) in
          (
            t,
            r,
            serve-run_server address app shutdown_timeout bound known
                ∙ rw stop at (run_server-eq listener app shutdown_timeout)
                ∙ e,
            short,
          )
    ]
  ]

  -- Where `axum::serve` has been told nothing, it does not end well.
  abbrev pub IsGraceful : Type 0
  IsGraceful =
      (listener : P.Listener) (app : App) (stop : Option ℕ) (t : ℕ)
      → P.serve_until listener app stop ≡ some (t, ok tt)
      → (n : ℕ) × (stop ≡ some n) × (n ≤ t)

  -- A server that ends has had no socket, or it ends in one of three ways. It ends well at the time
  -- that `axum::serve` does, between the stop and the end of the time for the shutdown. It fails
  -- with the error of `axum::serve`, within that time if it was told to stop. Or it runs into the
  -- timeout, just when that time is over, and `axum::serve` has not ended before. What tells it to
  -- stop is a signal, or a handler for Ctrl+C that could not be installed.
  pub serve-IsEnding :
      (address : SocketAddr) (app : App) (shutdown_timeout : Duration) {t : ℕ}
      (r : Result ServerError (Unit {0}))
      → IsGraceful
      → serve P address app shutdown_timeout ≡ some (t, r)
      → ((e : IoError) × (r ≡ err (bind e)) × (t ≡ 0))
        ⊎ ((listener : P.Listener) × (P.bind_listener address ≡ ok listener)
            × IsEnding P.ctrl_c P.sigterm told
                (P.serve_until listener app told)
                shutdown_timeout
                t
                r)
  unfolding serve
  serve-IsEnding address app timeout r graceful h = elim (Result-cases (P.bind_listener address)) [
    | inr (e, failed) ↦ inl (e, ground arith, ground arith)
    | inl (listener, bound) ↦ elim (Result-cases (P.local_addr listener)) [
      | inr (e, failed) ↦ inl (e, ground arith, ground arith)
      | inl (local, known) ↦ inr (
        listener,
        bound,
        select_server-IsEnding P.ctrl_c P.sigterm P.takes_server timeout
            (P.serve_until listener app told) told
            (λ n stop. wait_for_shutdown_signal-IsTold P.ctrl_c P.sigterm stop)
            (λ t' ends. graceful listener app told t' ends)
            (sym (run_server-eq listener app timeout)
              ∙ sym (serve-run_server address app timeout bound known)
              ∙ h),
      )
    ]
  ]
