-- ===== src/Casper/Operations.antt =====
-- casper/client.go: the operations of a transaction, as `CreateRosTransaction` builds them, and
-- `PurseWithoutIndex`.
mod Shape
pub mod Indices
pub mod Conservation
pub mod Effects
pub mod Statuses
pub mod Total
pub mod Published
pub mod Purses
use rosetta_casper.Common.{
  ℕ, suc, ◌+◌, ◌*◌, List, [], ◌∷◌, ◌++◌, Option, none, some, Bool, true, false, Text, lit, text_eq,
  take, ℤ, pos, if◌then◌else◌,
}
use rosetta_casper.Go.Outcome.{Outcome, ok, panic, deref}
use rosetta_casper.Go.Outcome.Chain.{◌>>=◌}
use rosetta_casper.Go.Strings.{last_index}
use rosetta_casper.Rosetta.{OperationIdentifier, AccountIdentifier, Amount, Operation}
use rosetta_casper.Casper.Types.{
  fee_op_type, transfer_op_type, success_status, failure_status, currency,
}
use rosetta_casper.Casper.Sdk.{TransferResponse, SuccessResult, FailureResult, ExecutionResult}

-- `purse[:lastIndex]` panics where there is no dash.
unfoldable pub purse_without_index : Text → Outcome Text
purse_without_index purse = elim (last_index purse b'-') [
  | none ↦ panic
  | some i ↦ ok (take i purse)
]

abbrev pub identifier : ℕ → OperationIdentifier
identifier i = record { index = pos i }

abbrev pub account : Text → AccountIdentifier
account address = record { address = address }

abbrev pub operation : ℕ → List OperationIdentifier → Text → Text → Text → Text → Operation
operation index related type status address value = record {
  operation_identifier = identifier index;
  related_operations = related;
  type = type;
  status = some status;
  account = some (account address);
  amount = some (record { value = value; currency = currency });
  metadata = [];
}

-- The fee moves from the signer to the validator.
unfoldable pub fee_operations : Text → Text → Text → Text → Outcome (List Operation)
fee_operations status fee signer_main_purse validator_main_purse = do
  signer ← purse_without_index signer_main_purse
  validator ← purse_without_index validator_main_purse
  ok (
      operation 0 [] fee_op_type status signer (b'-' ∷ fee)
      ∷ operation 1 (identifier 0 ∷ []) fee_op_type status validator fee
      ∷ [])

-- The loop over the transfers, from the `i`th on.
unfoldable pub transfer_operations : ℕ → List TransferResponse → Outcome (List Operation)
transfer_operations i [] = ok []
transfer_operations i (tx ∷ transfers) = do
  source ← purse_without_index tx.source
  target ← purse_without_index tx.target
  more ← transfer_operations (suc i) transfers
  ok (
      operation (2 * i + 2) [] transfer_op_type success_status source (b'-' ∷ tx.amount)
      ∷ operation (2 * i + 1 + 2) [] transfer_op_type success_status target tx.amount
      ∷ more)

-- `if paymentAmount == "0" { paymentAmount = txCost }`
unfoldable pub fee_of_success : Text → SuccessResult → Text
fee_of_success payment_amount success =
    if text_eq payment_amount (lit "0") then success.cost else payment_amount

unfoldable pub success_operations :
    Text → Text → Text → List TransferResponse → SuccessResult → Outcome (List Operation)
success_operations signer validator payment_amount transfers success = do
  fees ← fee_operations success_status (fee_of_success payment_amount success) signer validator
  moves ← transfer_operations 0 transfers
  ok (fees ++ moves)

-- Both branches of `CreateRosTransaction`, for the first execution result.
unfoldable pub result_operations :
    Text → Text → Text → List TransferResponse → ExecutionResult → Outcome (List Operation)
result_operations signer validator payment_amount transfers result = elim result.failure [
  | some failure ↦ fee_operations failure_status failure.cost signer validator
  | none ↦ do
    success ← deref result.success
    success_operations signer validator payment_amount transfers success
]
