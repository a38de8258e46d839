-- ===== src/Lifecycle.antt =====
-- The server's life in genpi/lifecycle.py: `_serve` with its fallback `_serve_werkzeug`, the retries of
-- binding the port, and the restart of `_schedule_process_restart` with `_do_execv`.
pub mod Retries
mod Tests
use generatorpi.Base.{if◌then◌else◌, ℕ, zero, suc, ◌+◌, Bool, true, Option, none, some}

-- What a try of the port finds: it is free, an old socket still drains, or another error.
pub data Bind : Type 0 where
  free draining broken : Bind

pub data Bound : Type 0 where
  bound exhausted surfaced : Bound

-- `for attempt in range(10)`: how it ends, and after how many sleeps.
unfoldable pub bind_retry : (tries : ℕ → Bind) → (left attempt : ℕ) → Bound × ℕ
bind_retry tries zero attempt = (exhausted, 0)
bind_retry tries (suc left) attempt = elim (tries attempt) [
  | free ↦ (bound, 0)
  | draining ↦ let rest = bind_retry tries left (attempt + 1) in (rest.0, suc rest.1)
  | broken ↦ (surfaced, 0)
]

pub data Server : Type 0 where
  cheroot werkzeug : Server

-- `_WSGI_SERVER` and `_RESTART_REQUESTED`, and how often the process was re-executed.
pub record Process : Type 0 where
  pub server : Option Server
  pub restart_requested : Bool
  pub execs : ℕ

pub data Ending : Type 0 where
  returned raised : Ending

-- Whether cheroot can be imported, the tries of the port, whether the certificate loads and the socket
-- binds, and whether a restart is scheduled while the server runs.
pub record Host : Type 0 where
  pub has_cheroot : Bool
  pub tries : ℕ → Bind
  pub prepares : Bool
  pub restarts : Bool

unfoldable pub do_execv : Process → Process
do_execv p = record p { execs = p.execs + 1 }

-- The thread of `_schedule_process_restart`: with cheroot it leaves the exec to the main thread.
unfoldable pub do_restart : Option Server → Process → Process
unfolding do_execv
do_restart (some cheroot) p = record p { restart_requested = true }
do_restart (some werkzeug) p = do_execv (record p { restart_requested = true })
do_restart none p = do_execv (record p { restart_requested = true })

-- While the server of this process serves.
unfoldable pub while_serving : Host → Process → Process
unfolding do_restart
while_serving host p = if host.restarts then do_restart p.server p else p

unfoldable pub run_werkzeug : Host → Bound → Process → Ending × Process
unfolding while_serving
run_werkzeug host bound p =
    (returned, record (while_serving host (record p { server = some werkzeug })) { server = none })
run_werkzeug host _ p = (raised, p)

unfoldable pub serve_werkzeug : Host → Process → Ending × Process
unfolding bind_retry run_werkzeug
serve_werkzeug host = run_werkzeug host (bind_retry host.tries 10 0).0

-- The end of `_serve`, on the main thread.
unfoldable pub after_serving : Process → Process
unfolding do_execv
after_serving p = if p.restart_requested then do_execv p else p

unfoldable pub run_cheroot : Host → Bound → Process → Ending × Process
unfolding while_serving after_serving
run_cheroot host bound p =
    if host.prepares
    then (
      returned,
      after_serving
          (record (while_serving host (record p { server = some cheroot })) { server = none }),
    )
    else (raised, p)
run_cheroot host _ p = (raised, p)

unfoldable pub serve : Host → Process → Ending × Process
unfolding run_cheroot bind_retry serve_werkzeug
serve host p =
    if host.has_cheroot
    then run_cheroot host (bind_retry host.tries 10 0).0 p
    else serve_werkzeug host p
