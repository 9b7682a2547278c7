-- ===== src/Casper/Operations/Statuses.antt =====
-- casper/client.go and casper/types.go: which of the operations count, by the table of statuses.
use rosetta_casper.Common.{
  ℕ, suc, ◌≡◌, refl, ◌∙◌, Bool, false, inl, inr, List, [], ◌∷◌, ◌++◌, Option, none, some, arith,
  Text, lit, text_eq, if◌then◌else◌,
}
use rosetta_casper.Go.Outcome.{ok}
use rosetta_casper.Rosetta.{Operation, OperationStatus}
use rosetta_casper.Casper.Types.{operation_statuses, success_status, failure_status}
use rosetta_casper.Casper.Sdk.{TransferResponse, ExecutionResult}
use rosetta_casper.Casper.Operations.{fee_operations, transfer_operations, result_operations}
use rosetta_casper.Casper.Operations.Shape.{
  fee_operations-shape, transfer_operations-nil, transfer_operations-shape, result_operations-shape,
}

-- Whether a table of statuses calls a status successful.
abbrev is_successful : List OperationStatus → Text → Bool
is_successful [] status = false
is_successful (s ∷ table) status =
    if text_eq s.status status then s.successful else is_successful table status

abbrev counts : Option Text → Bool
counts none = false
counts (some status) = is_successful operation_statuses status

-- The operations that change a balance: those whose status is successful.
abbrev pub applied : List Operation → List Operation
applied [] = []
applied (o ∷ os) = if counts o.status then o ∷ applied os else applied os

applied-append : (os more : List Operation) → applied (os ++ more) ≡ applied os ++ applied more
applied-append [] more = refl
applied-append (o ∷ os) more = ground (arith, applied-append os more)

applied-fees_failed :
    (fee s v : Text) {os : List Operation}
    → fee_operations failure_status fee s v ≡ ok os
    → applied os ≡ []
unfolding lit text_eq
applied-fees_failed fee s v e =
    let (a, b, _, _, same) = fee_operations-shape failure_status fee s v e in rw (← same) refl

applied-fees_succeeded :
    (fee s v : Text) {os : List Operation}
    → fee_operations success_status fee s v ≡ ok os
    → applied os ≡ os
unfolding lit text_eq
applied-fees_succeeded fee s v e =
    let (a, b, _, _, same) = fee_operations-shape success_status fee s v e in rw (← same) refl

applied-transfers :
    (i : ℕ) (ts : List TransferResponse) {os : List Operation}
    → transfer_operations i ts ≡ ok os
    → applied os ≡ os
unfolding lit text_eq
applied-transfers i [] e = rw (← (transfer_operations-nil i e)) refl
applied-transfers i (tx ∷ ts) e =
    let (a, b, more, _, _, rest, same) = transfer_operations-shape i tx ts e in
    rw (← same) (rw (applied-transfers (suc i) ts rest) refl)

-- By the program's own table of statuses every operation of a successful execution counts, and none
-- of a failed one does: the fee of a failed execution changes no balance.
pub applied-result_operations :
    (signer validator payment : Text) (ts : List TransferResponse) (r : ExecutionResult)
    {os : List Operation}
    → result_operations signer validator payment ts r ≡ ok os
    → applied os ≡ elim r.failure [ some _ ↦ [] | none ↦ os ]
applied-result_operations s v p ts r e = elim (result_operations-shape s v p ts r e) [
  | inl f ↦ rw (f.is_failure) (applied-fees_failed f.failure.cost s v f.fees)
  | inr o ↦
      rw (o.not_failure, ← o.joined)
        (applied-append o.fees o.moves
          ∙ rw (applied-fees_succeeded _ s v o.fees_built, applied-transfers 0 ts o.moves_built))
]
