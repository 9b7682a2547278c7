-- ===== src/Casper/Operations/Shape.antt =====
-- casper/client.go: what is known of the parts of a list of operations once it has been built.
use rosetta_casper.Common.{
  ℕ, suc, ◌+◌, ◌*◌, ◌≡◌, ◌⊎◌, inl, inr, List, [], ◌∷◌, ◌++◌, Option, none, some, Text, Option-cases,
}
use rosetta_casper.Go.Outcome.{ok, deref}
use rosetta_casper.Go.Outcome.Chain.{◌>>=◌, >>=-eq-ok, ok_injective}
use rosetta_casper.Rosetta.{Operation}
use rosetta_casper.Casper.Types.{fee_op_type, transfer_op_type, success_status, failure_status}
use rosetta_casper.Casper.Sdk.{TransferResponse, SuccessResult, FailureResult, ExecutionResult}
use rosetta_casper.Casper.Operations.{
  purse_without_index, identifier, operation, fee_operations, transfer_operations,
  success_operations, fee_of_success, result_operations,
}

-- The two operations of a fee.
abbrev pub fee_pair : Text → Text → Text → Text → List Operation
fee_pair status fee signer validator =
    operation 0 [] fee_op_type status signer (b'-' ∷ fee)
    ∷ operation 1 (identifier 0 ∷ []) fee_op_type status validator fee
    ∷ []

-- The two operations of the `i`th transfer.
abbrev pub transfer_pair : ℕ → Text → Text → Text → List Operation → List Operation
transfer_pair i source target amount more =
    operation (2 * i + 2) [] transfer_op_type success_status source (b'-' ∷ amount)
    ∷ operation (2 * i + 1 + 2) [] transfer_op_type success_status target amount
    ∷ more

pub fee_operations-shape :
    (status fee s v : Text) {os : List Operation}
    → fee_operations status fee s v ≡ ok os
    → (a b : Text) × (purse_without_index s ≡ ok a)
      × (purse_without_index v ≡ ok b)
      × (fee_pair status fee a b ≡ os)
unfolding fee_operations
fee_operations-shape status fee s v e =
    let (a, signer, e1) = >>=-eq-ok (purse_without_index s) _ e in
    let (b, validator, e2) = >>=-eq-ok (purse_without_index v) _ e1 in
    (a, b, signer, validator, ok_injective _ _ e2)

pub transfer_operations-nil :
    (i : ℕ) {os : List Operation} → transfer_operations i [] ≡ ok os → [] ≡ os
unfolding transfer_operations
transfer_operations-nil i e = ok_injective _ _ e

pub transfer_operations-shape :
    (i : ℕ) (tx : TransferResponse) (ts : List TransferResponse) {os : List Operation}
    → transfer_operations i (tx ∷ ts) ≡ ok os
    → (a b : Text) × (more : List Operation) × (purse_without_index tx.source ≡ ok a)
      × (purse_without_index tx.target ≡ ok b)
      × (transfer_operations (suc i) ts ≡ ok more)
      × (transfer_pair i a b tx.amount more ≡ os)
unfolding transfer_operations
transfer_operations-shape i tx ts e =
    let (a, source, e1) = >>=-eq-ok (purse_without_index tx.source) _ e in
    let (b, target, e2) = >>=-eq-ok (purse_without_index tx.target) _ e1 in
    let (more, rest, e3) = >>=-eq-ok (transfer_operations (suc i) ts) _ e2 in
    (a, b, more, source, target, rest, ok_injective _ _ e3)

-- A failed result has a fee alone; a successful one has a fee and the transfers.
pub record IsFailed (s v : Text) (r : ExecutionResult) (os : List Operation) : Type 0 where
  pub failure : FailureResult
  pub is_failure : r.failure ≡ some failure
  pub fees : fee_operations failure_status failure.cost s v ≡ ok os

pub record IsSucceeded (s v p : Text) (ts : List TransferResponse) (r : ExecutionResult)
    (os : List Operation) : Type 0 where
  pub success : SuccessResult
  pub fees : List Operation
  pub moves : List Operation
  pub not_failure : r.failure ≡ none
  pub is_success : r.success ≡ some success
  pub fees_built : fee_operations success_status (fee_of_success p success) s v ≡ ok fees
  pub moves_built : transfer_operations 0 ts ≡ ok moves
  pub joined : fees ++ moves ≡ os

deref-eq-ok {ℓ} : {A : Type ℓ} (o : Option A) {a : A} → deref o ≡ ok a → o ≡ some a
deref-eq-ok none e = cc
deref-eq-ok (some b) e = cc

module _ (s v p : Text) (ts : List TransferResponse) (r : ExecutionResult) where
  success_operations-shape :
      {os : List Operation}
      → r.failure ≡ none
      → (deref r.success >>= success_operations s v p ts) ≡ ok os
      → IsSucceeded s v p ts r os
  unfolding success_operations
  success_operations-shape fine e =
      let (success, given, e1) = >>=-eq-ok (deref r.success) _ e in
      let (fees, built, e2) =
        >>=-eq-ok (fee_operations success_status (fee_of_success p success) s v) _ e1 in
      let (moves, moved, e3) = >>=-eq-ok (transfer_operations 0 ts) _ e2 in
      record {
        success = success;
        fees = fees;
        moves = moves;
        not_failure = fine;
        is_success = deref-eq-ok r.success given;
        fees_built = built;
        moves_built = moved;
        joined = ok_injective _ _ e3;
      }

  pub result_operations-shape :
      {os : List Operation}
      → result_operations s v p ts r ≡ ok os
      → IsFailed s v r os ⊎ IsSucceeded s v p ts r os
  unfolding result_operations
  result_operations-shape e = elim (Option-cases r.failure) [
    | inl fine ↦ inr (success_operations-shape fine (rw (fine, result_operations) at e))
    | inr (f, failed) ↦
        inl
          (record { failure = f; is_failure = failed; fees = rw (failed, result_operations) at e })
  ]
