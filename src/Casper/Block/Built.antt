-- ===== src/Casper/Block/Built.antt =====
-- casper/client.go: what the transactions of a block that `Block` returns are made of.
use rosetta_casper.Common.{◌≡◌, List, [], ◌∷◌, Option, Text, All}
use rosetta_casper.Go.Outcome.{Outcome, ok}
use rosetta_casper.Go.Outcome.Chain.{ok_injective}
use rosetta_casper.Go.Outcome.Run.{call-eq-ok, continue-eq-ok}
use rosetta_casper.Go.Dict.{Dict}
use rosetta_casper.Rosetta.{PartialBlockIdentifier, Block, Transaction}
use rosetta_casper.Casper.Sdk.{Sdk, TransferResponse, BlockResponse}
use rosetta_casper.Casper.Purse.{get_main_purse_from_public_key}
use rosetta_casper.Casper.Transaction.{create_ros_transaction}
use rosetta_casper.Casper.Transaction.Built.{IsBuilt, create_ros_transaction-IsBuilt}
use rosetta_casper.Casper.Block.{Fetched, fetch, create_transactions, assemble, block, grouped}

module _ (sdk : Sdk) (P : Text × List TransferResponse → Type 0) where
  -- The transaction of an entry of which `P` holds.
  abbrev pub IsOfEntry : Transaction → Type 0
  IsOfEntry t = (e : Text × List TransferResponse) × P e × IsBuilt sdk e.0 e.1 t

  create_transactions-All :
      (groups : Dict (List TransferResponse)) (b : BlockResponse) (purse : Text) (s : sdk.State)
      {ts : List Transaction}
      → All P groups
      → (create_transactions sdk groups b purse s).0 ≡ ok ts
      → All IsOfEntry ts
  unfolding create_transactions
  create_transactions-All [] b purse s _ e = rw (← (ok_injective _ _ e)) tt
  create_transactions-All ((h, transfers) ∷ groups) b purse s (p, ps) e =
      let step : Outcome Transaction × sdk.State =
        create_ros_transaction sdk h transfers b purse s in
      let (t, made, e1) = call-eq-ok step _ _ e in
      let (more, rest, e2) =
        continue-eq-ok (create_transactions sdk groups b purse step.1).0 _ _ e1 in
      rw (← (ok_injective _ _ e2)) (
        ((h, transfers), p, create_ros_transaction-IsBuilt sdk h transfers b purse s made),
        create_transactions-All groups b purse step.1 ps rest,
      )

  module _ (order : Dict (List TransferResponse) → Dict (List TransferResponse)) where
    pub assemble-All :
        (f : Fetched) (s : sdk.State) {b : Block}
        → All P (order (grouped f.transfers f.block.body.deploy_hashes))
        → (assemble sdk order f s).0 ≡ ok b
        → All IsOfEntry b.transactions
    unfolding assemble
    assemble-All f s p e =
        let got : Outcome Text × sdk.State =
          get_main_purse_from_public_key sdk f.block.body.proposer f.block.header.state_root_hash
            s in
        let (purse, _, e1) = call-eq-ok got _ _ e in
        let groups = order (grouped f.transfers f.block.body.deploy_hashes) in
        let (ts, made, e2) =
          continue-eq-ok (create_transactions sdk groups f.block purse got.1).0 _ _ e1 in
        rw (← (ok_injective _ _ e2)) (create_transactions-All groups f.block purse got.1 p made)

All_trivial : {A : Type 0} (xs : List A) → All (λ _. Unit {0}) xs
All_trivial [] = tt
All_trivial (x ∷ xs) = (tt, All_trivial xs)

-- Each transaction of a block is built for some deploy and some transfers.
pub block-All :
    (sdk : Sdk) (order : Dict (List TransferResponse) → Dict (List TransferResponse))
    (id : Option PartialBlockIdentifier) (s : sdk.State) {b : Block}
    → (block sdk order id s).0 ≡ ok b
    → All (IsOfEntry sdk (λ _. Unit)) b.transactions
unfolding block
block-All sdk order id s e =
    let first : Outcome Fetched × sdk.State = fetch sdk id s in
    let (f, _, e1) = continue-eq-ok first.0 _ first.1 e in
    assemble-All sdk _ order f first.1 (All_trivial _) e1
