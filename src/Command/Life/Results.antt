-- ===== src/Command/Life/Results.antt =====
-- cmd/run.go: what the command returns, by invariants of the steps.
use rosetta_casper.Common.{
  ◌≡◌, ◌≢◌, refl, sym, ap, ◌∙◌, subst, inl, inr, ◌⊎◌, true, false, Option, none, some, arith,
  if◌then◌else◌,
}
use mathlib.Core.Option.{some-injective, none-ne-some}
use rosetta_casper.Go.Outcome.{Error}
use rosetta_casper.Command.Life.{
  waiting, Listener, listening, ended, Closer, idle, closing, closed, Process, halted, Event,
  signal, cancel, listen_failed, listen_closed, shutdown_called, shutdown_returned, waited, step,
  waits, returned, IsReachable, start, after,
}

-- Nothing has ended yet, or the first error of the group is that of the listener.
abbrev IsQuiet : Process → Type 0
IsQuiet p =
    ((p.ctx_done ≡ false) × (p.group_error ≡ none))
    ⊎ ((e : Error) × (p.listener ≡ ended e) × (p.group_error ≡ some e))

-- What holds of the parts of a process.
record IsSound (p : Process) : Type 0 where
  handled : (p.handler ≡ waiting) ⊎ (p.signal_received ≡ true)
  caused : (p.signal_received ≡ true) ⊎ IsQuiet p
  done : (p.closer ≡ idle) ⊎ (p.ctx_done ≡ true)
  failed : (p.listener ≡ listening) ⊎ (p.group_error ≢ none)

step-IsSound : (e : Event) (p : Process) {q : Process} → step e p ≡ some q → IsSound p → IsSound q
unfolding step
step-IsSound signal p h v = ground arith
step-IsSound cancel p h v = ground arith
step-IsSound (listen_failed e) p h v = ground arith
step-IsSound listen_closed p h v = ground arith
step-IsSound shutdown_called p h v = ground arith
step-IsSound (shutdown_returned r) p h v = ground arith
step-IsSound waited p h v = ground arith

reachable-IsSound : {p : Process} → IsReachable p → IsSound p
reachable-IsSound start = record {
  handled = inl refl;
  caused = inr (inl (refl, refl));
  done = inl refl;
  failed = inl refl;
}
reachable-IsSound (after {p = p} e h r) = step-IsSound e p h (reachable-IsSound r)

-- How a command that has returned `e` has ended: both goroutines of the group are over, and `e` is
-- the text for a signal, or the error of the listener.
pub record IsOver (q : Process) (e : Error) : Type 0 where
  pub listener : Error
  pub not_listening : q.listener ≡ ended listener
  pub shut_down : q.closer ≡ closed
  pub told : e ≡ (if q.signal_received then halted else listener)

waits-eq-some :
    (l : Listener) (c : Closer) (p : Process) {q : Process}
    → waits l c p ≡ some q
    → (e : Error) × (l ≡ ended e) × (c ≡ closed) × (record p { exit = some (returned p) } ≡ q)
waits-eq-some (ended e) closed p h = (e, refl, refl, cc)
waits-eq-some (ended e) idle p h = cc
waits-eq-some (ended e) closing p h = cc
waits-eq-some listening c p h = cc

-- What `returned` is, once the listener has ended.
returned-IsSound :
    (p : Process) (l : Error)
    → p.listener ≡ ended l
    → IsSound p
    → returned p ≡ some (if p.signal_received then halted else l)
returned-IsSound p l h v = ground arith

step_waited :
    (p : Process) {q : Process} → step waited p ≡ some q → waits p.listener p.closer p ≡ some q
unfolding step
step_waited p h = ground arith

waited-IsOver :
    (p : Process) {q : Process}
    → step waited p ≡ some q
    → IsSound p
    → (e : Error) × (q.exit ≡ some (some e)) × IsOver q e
waited-IsOver p h v =
    let (l, not_listening, shut_down, same) =
      waits-eq-some p.listener p.closer p (step_waited p h) in
    subst (λ (q : Process). (e : Error) × (q.exit ≡ some (some e)) × IsOver q e) same
      (
        (if p.signal_received then halted else l),
        ap some (returned-IsSound p l not_listening v),
        record { listener = l; not_listening = not_listening; shut_down = shut_down; told = refl },
      )

-- Only the end of `g.Wait` ends the command.
exit_kept : (e : Event) (p : Process) {q : Process} → e ≢ waited → step e p ≡ some q → q.exit ≡ none
unfolding step
exit_kept signal p n h = ground arith
exit_kept cancel p n h = ground arith
exit_kept (listen_failed e) p n h = ground arith
exit_kept listen_closed p n h = ground arith
exit_kept shutdown_called p n h = ground arith
exit_kept (shutdown_returned none) p n h = ground arith
exit_kept (shutdown_returned (some e)) p n h = ground arith
exit_kept waited p n h = absurd (n refl)

is_waited : (e : Event) → (e ≡ waited) ⊎ (e ≢ waited)
is_waited waited = inl refl
is_waited signal = inr (λ h. cc)
is_waited cancel = inr (λ h. cc)
is_waited (listen_failed e) = inr (λ h. cc)
is_waited listen_closed = inr (λ h. cc)
is_waited shutdown_called = inr (λ h. cc)
is_waited (shutdown_returned r) = inr (λ h. cc)

-- However the steps are interleaved, the command never returns without an error. When it returns,
-- the goroutine that listens and the one that shuts the server down have both ended; the error is
-- "rosetta-casper halted" after a signal, and without one it is the error of the listener.
pub exit-IsOver :
    {q : Process} {r : Option Error}
    → IsReachable q
    → q.exit ≡ some r
    → (e : Error) × (r ≡ some e) × IsOver q e
exit-IsOver start h = cc
exit-IsOver {q} (after {p = p} e taken before) h = elim (is_waited e) [
  | inl w ↦
      let (e', told, over) =
        waited-IsOver p (subst (λ x. step x p ≡ some q) w taken) (reachable-IsSound before) in
      (e', some-injective _ _ (sym h ∙ told), over)
  | inr n ↦ absurd (none-ne-some _ (sym (exit_kept e p n taken) ∙ h))
]
