-- ===== src/Services/Construction/Preprocess.antt =====
-- services/construction_service.go: which operations make /construction/preprocess panic.
use rosetta_casper.Common.{
  ◌≡◌, refl, ap, ◌∙◌, ◌↔◌, Bool, true, false, ◌||◌, ◌&&◌, List, [], ◌∷◌, Option, none, some, arith,
  pos, eqb_ℤ,
}
use rosetta_casper.Go.Outcome.{panic}
use rosetta_casper.Go.Outcome.Panics.{panics, panics->>=, panics_iff, or-false}
use rosetta_casper.Rosetta.{NetworkIdentifier, Operation}
use rosetta_casper.Services.Construction.{
  Preprocessed, note_sender, note_target, note_operations, construction_preprocess,
}
use rosetta_casper.Services.Construction.Flow.{
  note_sender-ne-err, note_target-ne-err, note_operations-ne-err,
}

abbrev is_missing {ℓ} : {A : Type ℓ} → Option A → Bool
is_missing none = true
is_missing (some _) = false

abbrev sender_missing : Operation → Bool
sender_missing o = eqb_ℤ o.operation_identifier.index (pos 0) && is_missing o.account

abbrev target_missing : Operation → Bool
target_missing o =
    eqb_ℤ o.operation_identifier.index (pos 1) && (is_missing o.amount || is_missing o.account)

-- Some operation with the index 0 has no account, or one with the index 1 lacks an account or an
-- amount.
abbrev pub has_incomplete : List Operation → Bool
has_incomplete [] = false
has_incomplete (o ∷ os) = sender_missing o || (target_missing o || has_incomplete os)

panics-note_sender :
    (o : Operation) (p : Preprocessed) → panics (note_sender o p) ≡ sender_missing o
unfolding note_sender
panics-note_sender o p = ground arith

panics-note_target :
    (o : Operation) (p : Preprocessed) → panics (note_target o p) ≡ target_missing o
unfolding note_target
panics-note_target o p = ground arith

panics-note_operations :
    (os : List Operation) (p : Preprocessed) → panics (note_operations os p) ≡ has_incomplete os
unfolding note_operations
panics-note_operations [] p = refl
panics-note_operations (o ∷ os) p =
    panics->>= (note_sender o p) _ (target_missing o || has_incomplete os) (note_sender-ne-err o p)
      (λ q.
        panics->>= (note_target o q) _ (has_incomplete os) (note_target-ne-err o q)
          (λ r. panics-note_operations os r)
        ∙ ap (λ b. b || has_incomplete os) (panics-note_target o q))
    ∙ ap (λ b. b || (target_missing o || has_incomplete os)) (panics-note_sender o p)

panics-construction_preprocess :
    (network : NetworkIdentifier) (os : List Operation)
    → panics (construction_preprocess network os) ≡ has_incomplete os
unfolding construction_preprocess
panics-construction_preprocess network os =
    panics->>= (note_operations os _) _ false (note_operations-ne-err os _) (λ q. refl)
    ∙ or-false _
    ∙ panics-note_operations os _

pub construction_preprocess-eq-panic_iff :
    (network : NetworkIdentifier) (os : List Operation)
    → (construction_preprocess network os ≡ panic) ↔ (has_incomplete os ≡ true)
construction_preprocess-eq-panic_iff network os =
    rw (← (panics-construction_preprocess network os))
      (panics_iff (construction_preprocess network os))
