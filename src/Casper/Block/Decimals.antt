-- ===== src/Casper/Block/Decimals.antt =====
-- casper/client.go: that the amounts of the transfers that `Block` uses are decimal numbers if those
-- of the node are.
use rosetta_casper.Common.{
  all_of, ℕ, Option, ◌≡◌, refl, Bool, true, List, [], ◌∷◌, some, none, arith, Text, ℤ, All,
}
use rosetta_casper.Go.Outcome.{Outcome, ok}
use rosetta_casper.Go.Outcome.Chain.{ok_injective}
use rosetta_casper.Go.Outcome.Run.{call-eq-ok, continue-eq-ok}
use rosetta_casper.Go.Decimal.{is_decimal}
use rosetta_casper.Go.Machine.{to_uint64}
use rosetta_casper.Rosetta.{PartialBlockIdentifier}
use rosetta_casper.Casper.Sdk.{
  Sdk, TransferResponse, BlockResponse, Deploy, DeployResult, SuccessResult, FailureResult,
  ExecutionResult,
}
use rosetta_casper.Casper.Block.{
  Fetched, fetch, fetch_by_hash, fetch_by_index, fetch_latest, zero_block,
}

abbrev pub all_decimal : List TransferResponse → Bool
all_decimal = all_of (λ t. is_decimal t.amount)

pub all_decimal-All :
    (ts : List TransferResponse) → all_decimal ts ≡ true → All (λ t. is_decimal t.amount ≡ true) ts
all_decimal-All [] h = tt
all_decimal-All (t ∷ ts) h = ground (arith, all_decimal-All ts)

abbrev pub HasDecimalCosts : ExecutionResult → Type 0
HasDecimalCosts r =
    ((f : FailureResult) → r.failure ≡ some f → is_decimal f.cost ≡ true)
    × ((x : SuccessResult) → r.success ≡ some x → is_decimal x.cost ≡ true)

-- The node reports costs and amounts as decimal numbers.
pub record ReportsDecimals (sdk : Sdk) : Type 0 where
  pub costs :
      (h : Text) (s : sdk.State) (d : DeployResult)
      → (sdk.get_deploy h s).0 ≡ ok d
      → All HasDecimalCosts d.execution_results
  pub payments :
      (d : Deploy) (s : sdk.State) (p : Text)
      → (sdk.read_payment_amount d s).0 ≡ ok p
      → is_decimal p ≡ true
  pub latest :
      (s : sdk.State) (ts : List TransferResponse)
      → (sdk.get_latest_block_transfers s).0 ≡ ok ts
      → all_decimal ts ≡ true
  pub by_hash :
      (h : Text) (s : sdk.State) (ts : List TransferResponse)
      → (sdk.get_block_transfers_by_hash h s).0 ≡ ok ts
      → all_decimal ts ≡ true
  pub by_height :
      (n : ℕ) (s : sdk.State) (ts : List TransferResponse)
      → (sdk.get_block_transfers_by_height n s).0 ≡ ok ts
      → all_decimal ts ≡ true

module _ (sdk : Sdk) (reports : ReportsDecimals sdk) where
  fetch_latest-decimal :
      (s : sdk.State) {f : Fetched} → (fetch_latest sdk s).0 ≡ ok f → all_decimal f.transfers ≡ true
  unfolding fetch_latest
  fetch_latest-decimal s e =
      let first : Outcome BlockResponse × sdk.State = sdk.get_latest_block s in
      let (b, _, e1) = call-eq-ok first _ _ e in
      let second : Outcome (List TransferResponse) × sdk.State =
        sdk.get_latest_block_transfers first.1 in
      let (ts, got, e2) = call-eq-ok second _ _ e1 in
      rw (← (ok_injective _ _ e2)) (reports.latest first.1 ts got)

  fetch_by_hash-decimal :
      (h : Option Text) (old : Fetched) (s : sdk.State) {f : Fetched}
      → all_decimal old.transfers ≡ true
      → (fetch_by_hash sdk h old s).0 ≡ ok f
      → all_decimal f.transfers ≡ true
  unfolding fetch_by_hash
  fetch_by_hash-decimal none old s d e = rw (← (ok_injective _ _ e)) d
  fetch_by_hash-decimal (some h) old s d e =
      let first : Outcome BlockResponse × sdk.State = sdk.get_block_by_hash h s in
      let (b, _, e1) = call-eq-ok first _ _ e in
      let second : Outcome (List TransferResponse) × sdk.State =
        sdk.get_block_transfers_by_hash h first.1 in
      let (ts, got, e2) = call-eq-ok second _ _ e1 in
      rw (← (ok_injective _ _ e2)) (reports.by_hash h first.1 ts got)

  fetch_by_index-decimal :
      (i : Option ℤ) (old : Fetched) (s : sdk.State) {f : Fetched}
      → all_decimal old.transfers ≡ true
      → (fetch_by_index sdk i old s).0 ≡ ok f
      → all_decimal f.transfers ≡ true
  unfolding fetch_by_index
  fetch_by_index-decimal none old s d e = rw (← (ok_injective _ _ e)) d
  fetch_by_index-decimal (some i) old s d e =
      let first : Outcome BlockResponse × sdk.State = sdk.get_block_by_height (to_uint64 i) s in
      let (b, _, e1) = call-eq-ok first _ _ e in
      let second : Outcome (List TransferResponse) × sdk.State =
        sdk.get_block_transfers_by_height (to_uint64 i) first.1 in
      let (ts, got, e2) = call-eq-ok second _ _ e1 in
      rw (← (ok_injective _ _ e2)) (reports.by_height (to_uint64 i) first.1 ts got)

  pub fetch-decimal :
      (id : Option PartialBlockIdentifier) (s : sdk.State) {f : Fetched}
      → (fetch sdk id s).0 ≡ ok f
      → all_decimal f.transfers ≡ true
  unfolding fetch
  fetch-decimal none s e = fetch_latest-decimal s e
  fetch-decimal (some id) s e =
      let old : Fetched = record { block = zero_block; transfers = [] } in
      let first : Outcome Fetched × sdk.State = fetch_by_hash sdk id.hash old s in
      let (by_hash, got, e1) = continue-eq-ok first.0 _ first.1 e in
      fetch_by_index-decimal id.index by_hash first.1 (fetch_by_hash-decimal id.hash old s refl got)
        e1
