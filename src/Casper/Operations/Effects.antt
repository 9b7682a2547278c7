-- ===== src/Casper/Operations/Effects.antt =====
-- casper/client.go: what each account spends and receives by the operations of a transaction.
use rosetta_casper.Common.{
  ℕ, ◌+◌, suc, ◌≡◌, refl, sym, ap, ◌∙◌, Bool, true, false, inl, inr, List, [], ◌∷◌, ◌++◌, Option,
  none, some, arith, Text, text_eq, ℤ, pos_part, neg_part, All, if◌then◌else◌,
}
use mathlib.Core.List.{append-nil}
use rosetta_casper.Go.Outcome.{Outcome, ok, err, panic}
use rosetta_casper.Go.Decimal.{amount_of, is_decimal, value_onto}
use rosetta_casper.Go.Decimal.Laws.{amount_of-minus, amount_of-decimal}
use rosetta_casper.Rosetta.{Operation, Amount, AccountIdentifier}
use rosetta_casper.Casper.Sdk.{TransferResponse, ExecutionResult}
use rosetta_casper.Casper.Operations.{
  purse_without_index, fee_operations, transfer_operations, fee_of_success, result_operations,
}
use rosetta_casper.Casper.Operations.Shape.{
  fee_operations-shape, transfer_operations-nil, transfer_operations-shape, result_operations-shape,
}
use rosetta_casper.Casper.Operations.Conservation.{HasDecimals, is_decimal-fee_of_success}

-- A part of the number that a text stands for.
abbrev part : (ℤ → ℕ) → Option ℤ → ℕ
part f none = 0
part f (some z) = f z

abbrev part_of_amount : (ℤ → ℕ) → Option Amount → ℕ
part_of_amount f none = 0
part_of_amount f (some a) = part f (amount_of a.value)

abbrev is_at : Text → Option AccountIdentifier → Bool
is_at a none = false
is_at a (some account) = text_eq account.address a

abbrev sum_at : (ℤ → ℕ) → Text → List Operation → ℕ
sum_at f a [] = 0
sum_at f a (o ∷ os) = (if is_at a o.account then part_of_amount f o.amount else 0) + sum_at f a os

-- By the operations: the debits and the credits of an account.
abbrev pub spent : Text → List Operation → ℕ
spent = sum_at neg_part

abbrev pub received : Text → List Operation → ℕ
received = sum_at pos_part

-- By the node's data: an amount that counts if `purse`, less its access rights, is the account.
abbrev counts : Text → Outcome Text → ℕ → ℕ
counts a (ok purse) n = if text_eq purse a then n else 0
counts a (err e) n = 0
counts a panic n = 0

abbrev pub if_at : Text → Text → ℕ → ℕ
if_at a purse n = counts a (purse_without_index purse) n

abbrev pub moved : (TransferResponse → Text) → Text → List TransferResponse → ℕ
moved end a [] = 0
moved end a (t ∷ ts) = if_at a (end t) (value_onto 0 t.amount) + moved end a ts

-- The fee, and the transfers that take place.
abbrev pub fee_value : Text → ExecutionResult → ℕ
fee_value payment r = elim r.failure [
  | some f ↦ value_onto 0 f.cost
  | none ↦ elim r.success [ some s ↦ value_onto 0 (fee_of_success payment s) | none ↦ 0 ]
]

abbrev pub moves : List TransferResponse → ExecutionResult → List TransferResponse
moves ts r = elim r.failure [ some _ ↦ [] | none ↦ ts ]

-- The operations spend and receive for an account what the node's data say.
pub record Accounts (a signer validator payment : Text) (ts : List TransferResponse)
    (r : ExecutionResult) (os : List Operation) : Type 0 where
  pub spends :
      spent a os ≡ if_at a signer (fee_value payment r) + moved (λ t. t.source) a (moves ts r)
  pub receives :
      received a os ≡ if_at a validator (fee_value payment r) + moved (λ t. t.target) a (moves ts r)

spent-minus :
    (v : Text) → is_decimal v ≡ true → part neg_part (amount_of (b'-' ∷ v)) ≡ value_onto 0 v
spent-minus v h = rw (amount_of-minus v h) (ground arith)

received-minus : (v : Text) → is_decimal v ≡ true → part pos_part (amount_of (b'-' ∷ v)) ≡ 0
received-minus v h = rw (amount_of-minus v h) (ground arith)

spent-decimal : (v : Text) → is_decimal v ≡ true → part neg_part (amount_of v) ≡ 0
spent-decimal v h = rw (amount_of-decimal v h) refl

received-decimal : (v : Text) → is_decimal v ≡ true → part pos_part (amount_of v) ≡ value_onto 0 v
received-decimal v h = rw (amount_of-decimal v h) refl

-- A debit at `x` and a credit at `y`, of one decimal text.
module _ (a v x y : Text) (h : is_decimal v ≡ true) (n : ℕ) where
  spent-pair :
      (if text_eq x a then part neg_part (amount_of (b'-' ∷ v)) else 0)
        + ((if text_eq y a then part neg_part (amount_of v) else 0) + n)
      ≡ (if text_eq x a then value_onto 0 v else 0) + n
  spent-pair = ground (arith, spent-minus v h, spent-decimal v h)

  received-pair :
      (if text_eq x a then part pos_part (amount_of (b'-' ∷ v)) else 0)
        + ((if text_eq y a then part pos_part (amount_of v) else 0) + n)
      ≡ (if text_eq y a then value_onto 0 v else 0) + n
  received-pair = ground (arith, received-minus v h, received-decimal v h)

spent-fee_operations :
    (a status fee s v : Text) (more : List Operation) {os : List Operation}
    → is_decimal fee ≡ true
    → fee_operations status fee s v ≡ ok os
    → (spent a (os ++ more) ≡ if_at a s (value_onto 0 fee) + spent a more)
      × (received a (os ++ more) ≡ if_at a v (value_onto 0 fee) + received a more)
spent-fee_operations a status fee s v more h e =
    let (x, y, signer, validator, same) = fee_operations-shape status fee s v e in
    rw (signer, validator, ← same) (spent-pair a fee x y h _, received-pair a fee x y h _)

spent-transfer_operations :
    (a : Text) (i : ℕ) (ts : List TransferResponse) {os : List Operation}
    → All (λ t. is_decimal t.amount ≡ true) ts
    → transfer_operations i ts ≡ ok os
    → (spent a os ≡ moved (λ t. t.source) a ts) × (received a os ≡ moved (λ t. t.target) a ts)
spent-transfer_operations a i [] h e = rw (← (transfer_operations-nil i e)) (refl, refl)
spent-transfer_operations a i (tx ∷ ts) (h, hs) e =
    let (x, y, more, source, target, rest, same) = transfer_operations-shape i tx ts e in
    let (spends, receives) = spent-transfer_operations a (suc i) ts hs rest in
    rw (source, target, ← same)
      (
        spent-pair a tx.amount x y h _
            ∙ ap (λ n. (if text_eq x a then value_onto 0 tx.amount else 0) + n) spends,
        received-pair a tx.amount x y h _
            ∙ ap (λ n. (if text_eq y a then value_onto 0 tx.amount else 0) + n) receives,
      )

-- If the costs and amounts are decimal numbers, an account spends by the operations of a
-- transaction the fee if it is the signer's, and the amounts of the transfers that come from it; it
-- receives the fee if it is the validator's, and the amounts of the transfers that go to it. A
-- failed execution has no transfers.
pub result_operations-Accounts :
    (a signer validator payment : Text) (ts : List TransferResponse) (r : ExecutionResult)
    {os : List Operation}
    → HasDecimals payment ts r
    → result_operations signer validator payment ts r ≡ ok os
    → Accounts a signer validator payment ts r os
result_operations-Accounts a s v p ts r {os} d e = elim (result_operations-shape s v p ts r e) [
  | inl f ↦
      let (spends, receives) =
        spent-fee_operations a _ _ s v [] (d.failure_cost f.failure f.is_failure) f.fees in
      rw (f.is_failure) (record {
        spends = sym (ap (spent a) (append-nil os)) ∙ spends;
        receives = sym (ap (received a) (append-nil os)) ∙ receives;
      })
  | inr o ↦
      let fee =
        is_decimal-fee_of_success p o.success d.payment_amount
          (d.success_cost o.success o.is_success) in
      let (spends, receives) = spent-fee_operations a _ _ s v o.moves fee o.fees_built in
      let (sources, targets) = spent-transfer_operations a 0 ts d.amounts o.moves_built in
      rw (o.not_failure, o.is_success, ← o.joined)
        (record {
          spends =
              spends ∙ ap (λ n. if_at a s (value_onto 0 (fee_of_success p o.success)) + n) sources;
          receives =
              receives
              ∙ ap (λ n. if_at a v (value_onto 0 (fee_of_success p o.success)) + n) targets;
        })
]
