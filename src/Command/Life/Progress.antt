-- ===== src/Command/Life/Progress.antt =====
-- cmd/run.go: that the steps come to an end, and that the command returns once its context is done.
use rosetta_casper.Common.{
  ℕ, ◌+◌, ◌<◌, ◌≤◌, ◌≡◌, inl, inr, Option-cases, sym, ap, ◌∙◌, Bool, true, false, List, [], ◌∷◌,
  Option, none, some, arith, length,
}
use mathlib.Core.Option.{none-ne-some}
use rosetta_casper.Go.Outcome.{Error}
use rosetta_casper.Command.Life.{
  Handler, waiting, flagged, finished, Listener, listening, ended, Closer, idle, closing, closed,
  Process, started, Event, signal, cancel, listen_failed, listen_closed, shutdown_called,
  shutdown_returned, waited, step, run,
}

handler_rank : Handler → ℕ
handler_rank waiting = 2
handler_rank flagged = 1
handler_rank finished = 0

listener_rank : Listener → ℕ
listener_rank listening = 1
listener_rank (ended e) = 0

closer_rank : Closer → ℕ
closer_rank idle = 2
closer_rank closing = 1
closer_rank closed = 0

exit_rank : Option (Option Error) → ℕ
exit_rank none = 1
exit_rank (some r) = 0

-- How many steps are left at most.
rank : Process → ℕ
rank p = handler_rank p.handler + listener_rank p.listener + closer_rank p.closer + exit_rank p.exit

rank-step : (e : Event) (p : Process) {q : Process} → step e p ≡ some q → rank q < rank p
unfolding step rank handler_rank listener_rank closer_rank exit_rank
rank-step signal p h = ground arith
rank-step cancel p h = ground arith
rank-step (listen_failed e) p h = ground arith
rank-step listen_closed p h = ground arith
rank-step shutdown_called p h = ground arith
rank-step (shutdown_returned none) p h = ground arith
rank-step (shutdown_returned (some e)) p h = ground arith
rank-step waited p h = ground arith

after_step : List Event → Option Process → Option Process
after_step es o = elim o [ none ↦ none | some q ↦ run es q ]

run-cons :
    (e : Event) (es : List Event) (p : Process) {q : Process}
    → run (e ∷ es) p ≡ some q
    → (p' : Process) × (step e p ≡ some p') × (run es p' ≡ some q)
unfolding run after_step
run-cons e es p h = elim (Option-cases (step e p)) [
  | inl stuck ↦ absurd (none-ne-some _ (sym (ap (after_step es) stuck) ∙ h))
  | inr (p', taken) ↦ (p', taken, sym (ap (after_step es) taken) ∙ h)
]

rank-run :
    (es : List Event) (p : Process) {q : Process} → run es p ≡ some q → length es + rank q ≤ rank p
unfolding run
rank-run [] p h = ground arith
rank-run (e ∷ es) p h =
    let (p', taken, rest) = run-cons e es p h in
    omega (arith, rank-step e p taken, rank-run es p' rest)

-- However the steps are interleaved, at most six of them are taken.
length-run : (es : List Event) {q : Process} → run es started ≡ some q → length es ≤ 6
unfolding rank handler_rank listener_rank closer_rank exit_rank
length-run es h = omega (arith, rank-run es started h)

-- The steps that are left to a process whose context is done.
abbrev pub last_steps : Listener → List Event
last_steps listening = listen_closed ∷ waited ∷ []
last_steps (ended e) = waited ∷ []

abbrev pub steps_left : Closer → Listener → List Event
steps_left idle l = shutdown_called ∷ shutdown_returned none ∷ last_steps l
steps_left closing l = shutdown_returned none ∷ last_steps l
steps_left closed l = last_steps l

abbrev pub has_returned : Option Process → Bool
has_returned none = false
has_returned (some q) = elim q.exit [ some _ ↦ true | none ↦ false ]

-- Once the context is done, by a signal or by a failure, the command that has not returned can: the
-- steps that are left to its two goroutines and to `g.Wait` end it.
pub run-steps_left :
    (p : Process)
    → p.ctx_done ≡ true
    → p.exit ≡ none
    → has_returned (run (steps_left p.closer p.listener) p) ≡ true
unfolding run step
run-steps_left p d n = ground arith
