-- ===== src/Casper/Operations/Conservation.antt =====
-- casper/client.go: the amounts of the operations of a transaction.
use rosetta_casper.Common.{
  ℕ, suc, ◌≡◌, refl, sym, ap, ◌∙◌, true, inl, inr, List, [], ◌∷◌, ◌++◌, Option, none, some, arith,
  Text, ℤ, pos, sub_ℕ, ◌+ℤ◌, All,
}
use mathlib.Core.List.{append-nil}
use rosetta_casper.Go.Outcome.{ok}
use rosetta_casper.Go.Decimal.{amount_of, is_decimal, value_onto}
use rosetta_casper.Go.Decimal.Laws.{amount_of-minus, amount_of-decimal}
use rosetta_casper.Rosetta.{Operation, Amount}
use rosetta_casper.Casper.Sdk.{TransferResponse, SuccessResult, FailureResult, ExecutionResult}
use rosetta_casper.Casper.Operations.{
  fee_operations, transfer_operations, fee_of_success, result_operations,
}
use rosetta_casper.Casper.Operations.Shape.{
  fee_operations-shape, transfer_operations-nil, transfer_operations-shape, result_operations-shape,
}

-- The sum of what the amounts of the operations stand for; `none` if one is no number.
abbrev add : Option ℤ → Option ℤ → Option ℤ
add none _ = none
add (some a) none = none
add (some a) (some b) = some (a +ℤ b)

abbrev value_of : Option Amount → Option ℤ
value_of none = none
value_of (some amount) = amount_of amount.value

abbrev pub total : List Operation → Option ℤ
total [] = some (pos 0)
total (o ∷ os) = add (value_of o.amount) (total os)

-- The costs and amounts that the node reports are decimal numbers.
pub record HasDecimals (payment : Text) (ts : List TransferResponse) (r : ExecutionResult)
    : Type 0 where
  pub payment_amount : is_decimal payment ≡ true
  pub amounts : All (λ t. is_decimal t.amount ≡ true) ts
  pub failure_cost : (f : FailureResult) → r.failure ≡ some f → is_decimal f.cost ≡ true
  pub success_cost : (s : SuccessResult) → r.success ≡ some s → is_decimal s.cost ≡ true

cancel : (n : ℕ) (o : Option ℤ) → add (some (sub_ℕ 0 n)) (add (some (pos n)) o) ≡ o
unfolding ◌+ℤ◌
cancel n none = refl
cancel n (some z) = ground arith

-- A debit and a credit of one decimal text.
pub total-pair :
    (v : Text) (more : List Operation)
    → is_decimal v ≡ true
    → add (amount_of (b'-' ∷ v)) (add (amount_of v) (total more)) ≡ total more
total-pair v more h =
    rw (amount_of-minus v h) (rw (amount_of-decimal v h) (cancel (value_onto 0 v) (total more)))

total-fee_operations :
    (status fee s v : Text) (more : List Operation) {os : List Operation}
    → is_decimal fee ≡ true
    → fee_operations status fee s v ≡ ok os
    → total (os ++ more) ≡ total more
total-fee_operations status fee s v more h e =
    let (a, b, _, _, same) = fee_operations-shape status fee s v e in
    rw (← same) (total-pair fee more h)

total-transfer_operations :
    (i : ℕ) (ts : List TransferResponse) {os : List Operation}
    → All (λ t. is_decimal t.amount ≡ true) ts
    → transfer_operations i ts ≡ ok os
    → total os ≡ some (pos 0)
total-transfer_operations i [] h e = rw (← (transfer_operations-nil i e)) refl
total-transfer_operations i (tx ∷ ts) (h, hs) e =
    let (a, b, more, _, _, rest, same) = transfer_operations-shape i tx ts e in
    rw (← same) (total-pair tx.amount more h ∙ total-transfer_operations (suc i) ts hs rest)

pub is_decimal-fee_of_success :
    (p : Text) (s : SuccessResult)
    → is_decimal p ≡ true
    → is_decimal s.cost ≡ true
    → is_decimal (fee_of_success p s) ≡ true
unfolding fee_of_success
is_decimal-fee_of_success p s h k = ground arith

-- If the costs and amounts are decimal numbers, the operations of a transaction that is built move
-- value and neither make nor destroy any: their amounts add up to zero, whether the execution
-- failed or not.
pub total-result_operations :
    (signer validator payment : Text) (ts : List TransferResponse) (r : ExecutionResult)
    {os : List Operation}
    → HasDecimals payment ts r
    → result_operations signer validator payment ts r ≡ ok os
    → total os ≡ some (pos 0)
total-result_operations s v p ts r {os} d e = elim (result_operations-shape s v p ts r e) [
  | inl f ↦
      sym (ap total (append-nil os))
      ∙ total-fee_operations _ _ s v [] (d.failure_cost f.failure f.is_failure) f.fees
  | inr o ↦ rw (← o.joined) (
      total-fee_operations _ _ s v o.moves
        (is_decimal-fee_of_success p o.success d.payment_amount
          (d.success_cost o.success o.is_success))
        o.fees_built
      ∙ total-transfer_operations 0 ts d.amounts o.moves_built)
]
