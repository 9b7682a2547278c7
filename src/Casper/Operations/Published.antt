-- ===== src/Casper/Operations/Published.antt =====
-- casper/client.go and casper/types.go: the types and statuses of the operations of a transaction,
-- beside those that the program publishes.
use rosetta_casper.Common.{
  ℕ, suc, ◌≡◌, refl, inl, inr, true, List, [], ◌∷◌, map, some, Text, lit, text_eq, member, All,
  All-append,
}
use rosetta_casper.Go.Outcome.{ok}
use rosetta_casper.Rosetta.{
  Operation, OperationIdentifier, OperationStatus, AccountIdentifier, Amount,
}
use rosetta_casper.Casper.Types.{
  operation_types, operation_statuses, success_status, failure_status, currency, fee_op_type,
  transfer_op_type,
}
use rosetta_casper.Casper.Sdk.{TransferResponse, ExecutionResult}
use rosetta_casper.Casper.Operations.{
  operation, fee_operations, transfer_operations, result_operations,
}
use rosetta_casper.Casper.Operations.Shape.{
  fee_operations-shape, transfer_operations-nil, transfer_operations-shape, result_operations-shape,
}

-- An operation as the tables of types and statuses admit it: it has a type and a status that they
-- list, an account, and an amount in the currency of the network.
pub record IsPublished (types : List Text) (statuses : List OperationStatus) (o : Operation)
    : Type 0 where
  pub kind : member o.type types ≡ true
  pub status : Text
  pub has_status : o.status ≡ some status
  pub listed : member status (map (λ (s : OperationStatus). s.status) statuses) ≡ true
  pub account : AccountIdentifier
  pub has_account : o.account ≡ some account
  pub amount : Amount
  pub has_amount : o.amount ≡ some amount
  pub in_currency : amount.currency ≡ currency

-- By the program's own tables.
abbrev pub ArePublished : List Operation → Type 0
ArePublished = All (IsPublished operation_types operation_statuses)

abbrev IsStatus : Text → Type 0
IsStatus status = member status (map (λ (s : OperationStatus). s.status) operation_statuses) ≡ true

success_status-IsStatus : IsStatus success_status
unfolding lit text_eq
success_status-IsStatus = refl

failure_status-IsStatus : IsStatus failure_status
unfolding lit text_eq
failure_status-IsStatus = refl

fee_op_type-listed : member fee_op_type operation_types ≡ true
unfolding lit text_eq
fee_op_type-listed = refl

transfer_op_type-listed : member transfer_op_type operation_types ≡ true
unfolding lit text_eq
transfer_op_type-listed = refl

operation-IsPublished :
    (index : ℕ) (related : List OperationIdentifier) (type status address value : Text)
    → member type operation_types ≡ true
    → IsStatus status
    → IsPublished operation_types operation_statuses
        (operation index related type status address value)
operation-IsPublished index related type status address value kind known = record {
  kind = kind;
  status = status;
  has_status = refl;
  listed = known;
  account = _;
  has_account = refl;
  amount = _;
  has_amount = refl;
  in_currency = refl;
}

fee_operations-ArePublished :
    (status fee s v : Text) {os : List Operation}
    → IsStatus status
    → fee_operations status fee s v ≡ ok os
    → ArePublished os
fee_operations-ArePublished status fee s v known e =
    let (a, b, _, _, same) = fee_operations-shape status fee s v e in
    rw (← same) (
      operation-IsPublished 0 _ fee_op_type status a _ fee_op_type-listed known,
      (operation-IsPublished 1 _ fee_op_type status b _ fee_op_type-listed known, tt),
    )

transfer_operations-ArePublished :
    (i : ℕ) (ts : List TransferResponse) {os : List Operation}
    → transfer_operations i ts ≡ ok os
    → ArePublished os
transfer_operations-ArePublished i [] e = rw (← (transfer_operations-nil i e)) tt
transfer_operations-ArePublished i (tx ∷ ts) e =
    let (a, b, more, _, _, rest, same) = transfer_operations-shape i tx ts e in
    let published : (j : ℕ) (address value : Text) → _ = λ j address value.
      operation-IsPublished j [] transfer_op_type success_status address value
        transfer_op_type-listed success_status-IsStatus in
    rw (← same)
      (published _ a _, (published _ b _, transfer_operations-ArePublished (suc i) ts rest))

pub result_operations-ArePublished :
    (signer validator payment : Text) (ts : List TransferResponse) (r : ExecutionResult)
    {os : List Operation}
    → result_operations signer validator payment ts r ≡ ok os
    → ArePublished os
result_operations-ArePublished s v p ts r e = elim (result_operations-shape s v p ts r e) [
  | inl f ↦ fee_operations-ArePublished failure_status _ s v failure_status-IsStatus f.fees
  | inr o ↦ rw (← o.joined) (
      All-append _ o.fees o.moves
        (fee_operations-ArePublished success_status _ s v success_status-IsStatus o.fees_built)
        (transfer_operations-ArePublished 0 ts o.moves_built))
]
