-- ===== src/Casper/Block/Balanced.antt =====
-- casper/client.go: the operations of the transactions that `Block` and `BlockTransaction` return,
-- from the answers of the node to the end.
use rosetta_casper.Common.{
  ◌≡◌, refl, inl, inr, Bool, true, List, [], ◌∷◌, Option, some, Text, lit, pos, All, All_weaken,
  Bool-cases, subst, ◌==◌,
}
use rosetta_casper.Go.Outcome.{Outcome, ok, deref}
use rosetta_casper.Go.Outcome.Chain.{ok_injective}
use rosetta_casper.Go.Outcome.Run.{continue-eq-ok, map_error-eq-ok}
use rosetta_casper.Go.Decimal.{is_decimal}
use rosetta_casper.Go.Dict.{Dict}
use rosetta_casper.Rosetta.{PartialBlockIdentifier, Block, Transaction}
use rosetta_casper.Casper.Sdk.{Sdk, TransferResponse, Deploy, ExecutionResult}
use rosetta_casper.Casper.Operations.Indices.{ArePlaced, result_operations-ArePlaced}
use rosetta_casper.Casper.Operations.Conservation.{total, total-result_operations}
use rosetta_casper.Casper.Transaction.{first_result, payment_amount}
use rosetta_casper.Casper.Transaction.Built.{IsBuilt}
use rosetta_casper.Casper.Block.Built.{assemble-All}
use rosetta_casper.Casper.Block.{Fetched, fetch, assemble, block, grouped}
use rosetta_casper.Casper.Block.Entries.{grouped-HaveAll}
use rosetta_casper.Casper.Block.Decimals.{
  all_decimal, all_decimal-All, HasDecimalCosts, ReportsDecimals, fetch-decimal,
}

-- The operations of a transaction are numbered in order, and their amounts add up to zero.
pub record IsBalanced (t : Transaction) : Type 0 where
  pub placed : ArePlaced 0 t.operations
  pub balanced : total t.operations ≡ some (pos 0)

-- A walk over a map meets entries of the map only.
abbrev pub MeetsEntries : (Dict (List TransferResponse) → Dict (List TransferResponse)) → Type 0
MeetsEntries order =
    (p : Text × List TransferResponse → Bool) (m : Dict (List TransferResponse))
    → All (λ e. p e ≡ true) m
    → All (λ e. p e ≡ true) (order m)

first_result-HasDecimalCosts :
    (rs : List ExecutionResult) {r : ExecutionResult}
    → All HasDecimalCosts rs
    → first_result rs ≡ ok r
    → HasDecimalCosts r
first_result-HasDecimalCosts [] h e = cc
first_result-HasDecimalCosts (r ∷ rs) (h, _) e = rw (← (ok_injective _ _ e)) h

zero_text : is_decimal (lit "0") ≡ true
unfolding is_decimal lit
zero_text = refl

module _ (sdk : Sdk) (reports : ReportsDecimals sdk) where
  payment_amount-decimal :
      (d : Deploy) (s : sdk.State) {p : Text}
      → (payment_amount sdk d s).0 ≡ ok p
      → is_decimal p ≡ true
  unfolding payment_amount
  payment_amount-decimal d s {p} e =
      let (bytes, _, e1) = continue-eq-ok (deref d.module_bytes) _ s e in
      elim (Bool-cases (bytes.args_count == 0)) [
        | inl free ↦ subst (λ t. is_decimal t ≡ true) (ok_injective _ _ (rw (free) at e1)) zero_text
        | inr paid ↦ reports.payments d s p (map_error-eq-ok _ _ (rw (paid) at e1))
      ]

  IsBuilt-IsBalanced :
      {h : Text} (ts : List TransferResponse) {t : Transaction}
      → all_decimal ts ≡ true
      → IsBuilt sdk h ts t
      → IsBalanced t
  IsBuilt-IsBalanced {h} ts decimal b =
      let costs =
        first_result-HasDecimalCosts b.deploy.execution_results
          (reports.costs h b.asked b.deploy b.got_deploy) b.first in
      record {
        placed = (result_operations-ArePlaced _ _ b.payment ts b.result b.operations).0;
        balanced =
            total-result_operations b.signer b.validator b.payment ts b.result
              (record {
                payment_amount = payment_amount-decimal b.deploy.deploy b.paid b.paying;
                amounts = all_decimal-All ts decimal;
                failure_cost = costs.0;
                success_cost = costs.1;
              })
              b.operations;
      }

  module _ (order : Dict (List TransferResponse) → Dict (List TransferResponse)) where
    assemble-IsBalanced :
        MeetsEntries order
        → (f : Fetched) (s : sdk.State) {b : Block} → all_decimal f.transfers ≡ true
        → (assemble sdk order f s).0 ≡ ok b
        → All IsBalanced b.transactions
    assemble-IsBalanced meets f s d e =
        let deploys = f.block.body.deploy_hashes in
        All_weaken _ (λ t (entry, decimal, built). IsBuilt-IsBalanced entry.1 decimal built)
          (assemble-All sdk _ order f s
            (meets (λ e. all_decimal e.1) (grouped f.transfers deploys)
              (grouped-HaveAll (λ t. is_decimal t.amount) f.transfers deploys d))
            e)

    -- If the node reports costs and amounts as decimal numbers, and Go's walk over a map meets entries
    -- of the map only, each transaction of a block that
    -- `Block` returns, for any identifier, has its operations numbered from 0 in order, each related
    -- to earlier ones only, and the amounts of the operations add up to zero.
    pub block-IsBalanced :
        MeetsEntries order
        → (id : Option PartialBlockIdentifier) (s : sdk.State) {b : Block}
        → (block sdk order id s).0 ≡ ok b
        → All IsBalanced b.transactions
    unfolding block
    block-IsBalanced meets id s e =
        let first : Outcome Fetched × sdk.State = fetch sdk id s in
        let (f, got, e1) = continue-eq-ok first.0 _ first.1 e in
        assemble-IsBalanced meets f first.1 (fetch-decimal sdk reports id s got) e1
