-- ===== src/Command/Life.antt =====
-- cmd/run.go and cmd/root.go: the goroutines of `runRunCmd` from `handleSignals` to `g.Wait`, as
-- interleaved steps. The signal handler, the goroutine that listens and the one that shuts the
-- server down share a context and the flag `SignalReceived`; an error group keeps the first error
-- and cancels the context. A signal that comes before `signal.Notify` is registered ends the
-- process by Go's own handler, and is left out.
pub mod Results
pub mod Progress
use rosetta_casper.Common.{
  ◌≡◌, Bool, true, false, List, [], ◌∷◌, Option, none, some, lit, if◌then◌else◌,
}
use rosetta_casper.Go.Outcome.{Error, text}

-- The goroutine of `handleSignals`: it waits for a signal, sets the flag, then calls the listeners.
pub data Handler : Type 0 where
  waiting flagged finished : Handler

-- `server.ListenAndServe`, which always returns an error.
pub data Listener : Type 0 where
  listening : Listener
  ended : Error → Listener

-- The goroutine that waits for the context and calls `server.Shutdown`.
pub data Closer : Type 0 where
  idle closing closed : Closer

pub record Process : Type 0 where
  pub handler : Handler
  pub signal_received : Bool
  pub ctx_done : Bool
  pub listener : Listener
  pub closer : Closer
  -- The first error of the group.
  pub group_error : Option Error
  -- What the command has returned.
  pub exit : Option (Option Error)

abbrev pub started : Process
started = record {
  handler = waiting;
  signal_received = false;
  ctx_done = false;
  listener = listening;
  closer = idle;
  group_error = none;
  exit = none;
}

-- `http.ErrServerClosed`, which `ListenAndServe` returns once `Shutdown` is called.
abbrev pub server_closed : Error
server_closed = text (lit "http: Server closed")

abbrev pub halted : Error
halted = text (lit "rosetta-casper halted")

-- What can happen next. `listen_failed` is a failure of `ListenAndServe` of any kind and time;
-- `shutdown_returned` is the end of `Shutdown`, with or without an error.
pub data Event : Type 0 where
  signal cancel : Event
  listen_failed : Error → Event
  listen_closed shutdown_called : Event
  shutdown_returned : Option Error → Event
  waited : Event

abbrev pub or_else : Option Error → Error → Option Error
or_else none e = some e
or_else (some first) e = some first

-- A goroutine of the group ends with an error: the first one is kept, and the context is done.
abbrev pub report : Error → Process → Process
report e p = record p { group_error = or_else p.group_error e; ctx_done = true }

abbrev pub report_any : Option Error → Process → Process
report_any none p = p
report_any (some e) p = report e p

-- `if SignalReceived { return errors.New("rosetta-casper halted") }; return err`
abbrev pub returned : Process → Option Error
returned p = if p.signal_received then some halted else p.group_error

abbrev signalled : Handler → Process → Option Process
signalled waiting p = some (record p { handler = flagged; signal_received = true })
signalled flagged p = none
signalled finished p = none

abbrev cancelled : Handler → Process → Option Process
cancelled flagged p = some (record p { handler = finished; ctx_done = true })
cancelled waiting p = none
cancelled finished p = none

abbrev listened : Listener → Error → Process → Option Process
listened listening e p = some (report e (record p { listener = ended e }))
listened (ended e') e p = none

abbrev listened_closed : Closer → Process → Option Process
listened_closed idle p = none
listened_closed closing p = listened p.listener server_closed p
listened_closed closed p = listened p.listener server_closed p

abbrev shut_down : Closer → Bool → Process → Option Process
shut_down idle true p = some (record p { closer = closing })
shut_down idle false p = none
shut_down closing done p = none
shut_down closed done p = none

abbrev shut : Closer → Option Error → Process → Option Process
shut closing e p = some (report_any e (record p { closer = closed }))
shut idle e p = none
shut closed e p = none

-- `g.Wait()` returns when both goroutines of the group have ended.
abbrev waits : Listener → Closer → Process → Option Process
waits (ended e) closed p = some (record p { exit = some (returned p) })
waits (ended e) idle p = none
waits (ended e) closing p = none
waits listening c p = none

abbrev live : Event → Process → Option Process
live signal p = signalled p.handler p
live cancel p = cancelled p.handler p
live (listen_failed e) p = listened p.listener e p
live listen_closed p = listened_closed p.closer p
live shutdown_called p = shut_down p.closer p.ctx_done p
live (shutdown_returned e) p = shut p.closer e p
live waited p = waits p.listener p.closer p

-- A step of the process; none is left after the command has returned.
unfoldable pub step : Event → Process → Option Process
step e p = elim p.exit [ some _ ↦ none | none ↦ live e p ]

-- The processes that a start leads to.
pub data IsReachable : Process → Type 0 where
  start : IsReachable started
  after : {p q : Process} (e : Event) → step e p ≡ some q → IsReachable p → IsReachable q

unfoldable pub run : List Event → Process → Option Process
run [] p = some p
run (e ∷ es) p = elim (step e p) [ none ↦ none | some q ↦ run es q ]
