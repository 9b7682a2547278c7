-- ===== src/Casper/Operations/Indices.antt =====
-- casper/client.go: the numbers of the operations of a transaction.
use rosetta_casper.Common.{
  ℕ, suc, ◌+◌, ◌*◌, ◌<◌, ◌≡◌, refl, inl, inr, List, [], ◌∷◌, ◌++◌, none, some, arith, Text, pos,
  All, length, length-append, ap, subst,
}
use rosetta_casper.Go.Outcome.{ok}
use rosetta_casper.Rosetta.{Operation, OperationIdentifier}
use rosetta_casper.Casper.Sdk.{TransferResponse, ExecutionResult}
use rosetta_casper.Casper.Operations.{fee_operations, transfer_operations, result_operations}
use rosetta_casper.Casper.Operations.Shape.{
  fee_operations-shape, transfer_operations-nil, transfer_operations-shape, result_operations-shape,
}

abbrev IsBefore : ℕ → OperationIdentifier → Type 0
IsBefore i related = (j : ℕ) × (related.index ≡ pos j) × (j < i)

-- The operation at place `i`: its index is `i`, and it is related to earlier operations only.
pub record IsPlaced (i : ℕ) (o : Operation) : Type 0 where
  pub index : o.operation_identifier.index ≡ pos i
  pub related : All (IsBefore i) o.related_operations

abbrev pub ArePlaced : ℕ → List Operation → Type 0
ArePlaced i [] = Unit
ArePlaced i (o ∷ os) = IsPlaced i o × ArePlaced (suc i) os

-- The place may be written in another way.
module _ {i j : ℕ} (same : i ≡ j) where
  ArePlaced-at : (os : List Operation) → ArePlaced i os → ArePlaced j os
  ArePlaced-at os h = subst (λ k. ArePlaced k os) same h

ArePlaced-append :
    (i : ℕ) (os more : List Operation)
    → ArePlaced i os
    → ArePlaced (length os + i) more
    → ArePlaced i (os ++ more)
ArePlaced-append i [] more _ k = ArePlaced-at {i = 0 + i} (omega arith) more k
ArePlaced-append i (o ∷ os) more (p, h) k = (
  p,
  ArePlaced-append (suc i) os more h (ArePlaced-at {i = suc (length os) + i} (omega arith) more k),
)

fee_operations-ArePlaced :
    (status fee s v : Text) {os : List Operation}
    → fee_operations status fee s v ≡ ok os
    → ArePlaced 0 os × (length os ≡ 2)
fee_operations-ArePlaced status fee s v e =
    let (a, b, _, _, same) = fee_operations-shape status fee s v e in
    rw (← same) (
      (
        record { index = refl; related = tt },
        (record { index = refl; related = ((0, refl, omega arith), tt) }, tt),
      ),
      refl,
    )

transfer_operations-ArePlaced :
    (i : ℕ) (ts : List TransferResponse) {os : List Operation}
    → transfer_operations i ts ≡ ok os
    → ArePlaced (2 * i + 2) os × (length os ≡ 2 * length ts)
transfer_operations-ArePlaced i [] e = rw (← (transfer_operations-nil i e)) (tt, omega arith)
transfer_operations-ArePlaced i (tx ∷ ts) e =
    let (a, b, more, _, _, rest, same) = transfer_operations-shape i tx ts e in
    let (placed, counted) = transfer_operations-ArePlaced (suc i) ts rest in
    rw (← same) (
      (
        record { index = refl; related = tt },
        (
          record { index = ap pos (omega arith); related = tt },
          ArePlaced-at {i = 2 * suc i + 2} (omega arith) more placed,
        ),
      ),
      omega arith,
    )

-- A transaction has two operations for its fee, and where it succeeded two more for each transfer.
abbrev pub operations_count : List TransferResponse → ExecutionResult → ℕ
operations_count ts r = elim r.failure [ some _ ↦ 2 | none ↦ 2 + 2 * length ts ]

-- However its parts come out, a transaction that is built has its operations numbered from 0 in
-- their order, each related to earlier operations only; there are two for the fee, and where the
-- execution did not fail two more for each transfer.
pub result_operations-ArePlaced :
    (signer validator payment : Text) (ts : List TransferResponse) (r : ExecutionResult)
    {os : List Operation}
    → result_operations signer validator payment ts r ≡ ok os
    → ArePlaced 0 os × (length os ≡ operations_count ts r)
result_operations-ArePlaced s v p ts r e = elim (result_operations-shape s v p ts r e) [
  | inl f ↦ rw (f.is_failure) (fee_operations-ArePlaced _ _ s v f.fees)
  | inr o ↦
      let (fees, two) = fee_operations-ArePlaced _ _ s v o.fees_built in
      let (moves, counted) = transfer_operations-ArePlaced 0 ts o.moves_built in
      rw (o.not_failure, ← o.joined)
        (
          ArePlaced-append 0 o.fees o.moves fees
              (ArePlaced-at {i = 2 * 0 + 2} (omega arith) o.moves moves),
          omega (arith, length-append {0} o.fees o.moves),
        )
]
