-- ===== src/Lib.antt =====
-- GeneratorPi: a Raspberry Pi controller that starts and stops a generator over a relay, with a web
-- interface. The program is the Python package genpi; this development models its core logic.
--
-- The parts and how they meet. A request passes `auth_required` (genpi/auth.py), which asks the rate
-- limiter (genpi/ratelimit.py) first, and then runs a handler of genpi/routes. The handlers drive the
-- relay sequences (genpi/control.py over genpi/relay.py), the tracked state (genpi/state.py) and the
-- fuel projection (genpi/fuel.py); what has to survive a restart goes to the database of
-- genpi/store.py. The self-updater (genpi/updater.py) replaces the program's files.
--
-- The files:
--   Base: names of the libraries, and the helpers: Boolean tests and their case lemmas (Base.Tests),
--     lists (Base.Lists), the keys of dicts (Base.Equality), dicts in insertion order (Base.Dicts),
--     integers (Base.Int), texts as lists of
--     numbers (Base.Text) and Python's `sorted` (Base.Sorting).
--   Float: the interface of the floats that the code computes with. Its laws are those that IEEE
--     arithmetic has on finite numbers (order, monotonicity of the rounded operations); the
--     additions that a theorem needs to be exact are its conditions. Float.Laws has max, min and clamp,
--     Float.Fixed is an implementation in thousandths, on which the tests run.
--   RateLimit: genpi/ratelimit.py. `Tracker` is `_fail_tracker` with `_last_cleanup`; the functions
--     have the source's names and take the readings of the clock that they make. RateLimit.Bounds has
--     the well-formedness and the cap, RateLimit.Lockout the lockout, RateLimit.Threshold the count.
--   Auth: genpi/auth.py, the cache of verified credentials and the API key. The HMAC and the password
--     hash are parameters. Auth.Transparent has the cache, Auth.Cap its cap, Auth.Guard the decorator
--     and Auth.Guard.Decision what it lets through.
--   State: genpi/state.py, the globals and the rows of the kv table that hold their durable part.
--     State.Odometer has the run-hours accounting.
--   Fuel: genpi/fuel.py, every mutator and the check for a low level. Fuel.Ranges has the ranges.
--   Tracked: histories of everything that changes the tracked state. Tracked.Ranges has the
--     invariant, Tracked.Lives the processes one after another over one database, Tracked.Pushes the
--     edge-triggered alert, Tracked.Restart the restart.
--   Routes: genpi/routes/fuel.py, genpi/routes/_helpers.py and /api/runtime/hours: what a request's body
--     makes of the tracked state. Routes.Handled relates the handlers to the steps of Tracked.
--   Control: genpi/relay.py, genpi/control.py and the routes that call them. Control.Safety is about
--     every exit of a sequence, Control.Sequences about those that finish or are refused.
--   EventLog: the table of events of genpi/store.py, its eviction and its paged reads.
--   Push: why Web Push can be sent or not, from genpi/store.py, with the cache of the key check
--     (Push.Status), and the table of subscriptions with `send_push` (Push.Subscriptions, Push.Table).
--     Push.Endpoint has the check of an endpoint in genpi/routes/push.py, Push.Requests the requests of its
--     routes; Push.Vetted is about the endpoints that are sent to, Push.Reports the route that reports a
--     browser's notification state.
--   Release: the checks of genpi/updater.py on a release: versions, the gate of incompatible versions, and
--     in Release.Manifest the paths, the version and the dependencies of a manifest. Release.Order is
--     about the order of versions, Release.Gate and Release.Blocked about the gate, Release.Confined about the paths and the
--     command for the dependencies, Release.Watch the hourly check and the route that shows its result.
--   Update: the update itself. Its own file has backup, swap and rollback of genpi/updater.py over a tree
--     of files; Update.Interrupted is about the swap, Update.Restore about the rollback. Update.Status is
--     the shared state with its log, Update.Decision the prompt with the route that answers it,
--     Update.Worker what the worker holds and what lies outside it, Update.Stages the checks, the
--     download and the backup, Update.Admit the first stage of `_run_update`, Update.Apply the second,
--     Update.Run the whole with the handler of exceptions. Update.Intact, Update.Prepared,
--     Update.Settled and Update.Reached follow a run stage by stage, Update.Ends states how it ends,
--     and Update.Aftermath is about the start after it.
--   Lifecycle: genpi/lifecycle.py, the two servers, the retries of binding the port and the restart.
--     Lifecycle.Retries is about the retries and the restart.
--   Sysmon: genpi/sysmon.py. Its own file has the readers of processor, load, memory and temperature,
--     Sysmon.Sampling those of radio, voltage and throttle flags, and the sampler; Sysmon.History has the
--     ring buffer, Sysmon.Points the history of many samples. Sysmon.Columns has the route
--     /api/system/history of genpi/routes/core.py and the page's reading of its reply in
--     genpi/frontend/app.js; Sysmon.Newest and Sysmon.Mirror are about a page that polls.
--   Logs: the log feed of genpi/routes/core.py. Its own file has the reads of the tail and of what was
--     appended, and the handler of /api/logs; Logs.Routine the search for lines of routine requests.
--     Logs.Texts, Logs.Parts, Logs.Decoding and Logs.Splits are about lines in texts, Logs.Blocks and
--     Logs.Tail about the tail, Logs.Delta about what was appended, Logs.Panel,
--     Logs.Polls and Logs.Followed about the log panel of genpi/frontend/app.js, which polls.
--   Web: the hooks of genpi/app.py. Web.Origin is about the check of a request's origin, Web.Audit about the
--     line of the access audit and the filter of the log feed.
--   Config: genpi/config.py. Its own file has the loop over the lines of the settings file, Config.Defaults
--     the defaults, Config.Provision the keys that a start generates and the rewriting of the file;
--     Config.Types and Config.Kept are about the types of the settings, Config.Texts, Config.Again,
--     Config.Rereads, Config.Restart, Config.Rewritten and Config.Restarts about a second start with the
--     file that a first one wrote, Config.Security about the permissions of the file.
--   Certificate: genpi/ssl_cert.py. Its own file has the names, the generation and the start;
--     Certificate.San is about the names, Certificate.Private about the umask and the key,
--     Certificate.Renewal about the starts after one another.
--
-- How the code is modelled. A lock makes an operation one step, so that threads are sequences of steps;
-- what other threads do during a sleep of a relay sequence is a function on the tracked state that the
-- theorems leave open. An exception is a value: `none`, or the Boolean of `sleep`. Times are naturals
-- where the code only compares and adds them, and floats where it divides. A loop is a recursion on its
-- list or on its count of attempts. Only the blocks of the log's tail and the digits of a number are
-- counted down from a bound, the size of the file and the number itself; the theorems show that it is
-- enough, since they state the whole result.
--
-- Of a text only the ASCII characters count as white space, digits or letters. The log of an update is
-- modelled line by line, with templates for the wording.
--
-- Not modelled: the log file of the program and the wording of messages, the HTTP layer and the
-- templates, the threads themselves, the text of the bootstrap script, what the disk refuses during a
-- rollback, the start-up of the program, the tools, and the page but for how it merges the polled history and the polled log.
pub mod Base
pub mod RateLimit
pub mod Release
pub mod Float
pub mod State
pub mod Fuel
pub mod Tracked
pub mod Auth
pub mod Control
pub mod EventLog
pub mod Update
pub mod Routes
pub mod Push
pub mod Lifecycle
pub mod Sysmon
pub mod Logs
pub mod Certificate
pub mod Config
pub mod Web
