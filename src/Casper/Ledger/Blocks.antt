-- ===== src/Casper/Ledger/Blocks.antt =====
-- casper/client.go: `Block` over a node that answers from a ledger.
use rosetta_casper.Common.{◌≡◌, refl, ap, ◌∙◌, ℕ, List, [], ◌∷◌, map, Option, none, some, Text, ℤ}
use mathlib.Core.List.{Permᴰ}
use rosetta_casper.Go.Outcome.{Outcome, map_error}
use rosetta_casper.Go.Outcome.Gives.{
  view, Gives, ◌>>=◌, continue-Gives, continue-result_of, call-result_of, result_of-map_error,
  >>=-some,
}
use rosetta_casper.Go.Strings.{slice}
use rosetta_casper.Go.Dict.{Dict}
use rosetta_casper.Go.Machine.{to_uint64}
use rosetta_casper.Rosetta.{PartialBlockIdentifier, Transaction}
use rosetta_casper.Casper.Sdk.{Sdk, TransferResponse, BlockResponse}
use rosetta_casper.Casper.Purse.{account_preimage, get_main_purse_from_public_key}
use rosetta_casper.Casper.Transaction.{create_ros_transaction}
use rosetta_casper.Casper.Block.{
  Fetched, fetch, fetch_by_hash, fetch_by_index, fetch_latest, create_transactions, assemble, block,
  block_identifier, parent_block_identifier, milliseconds, zero_block, grouped,
}
use rosetta_casper.Casper.Block.Walk.{deploys_of, carried, grouped_lem}
use rosetta_casper.Casper.Ledger.{
  Ledger, Answers, view_of, fetched, fetched_by_hash, fetched_by_height, transaction_of, block_of,
  assembled,
}
use rosetta_casper.Casper.Ledger.Unordered.{Bag, bag, gather, cons_result, gather-Same, bag-Same}
use rosetta_casper.Casper.Ledger.Transactions.{key_purse-Gives, transaction_of-Gives}

abbrev pub nothing : Fetched
nothing = record { block = zero_block; transfers = [] }

-- A walk over a map gives its entries in some order.
abbrev pub IsWalk : (Dict (List TransferResponse) → Dict (List TransferResponse)) → Type 0
IsWalk order = (m : Dict (List TransferResponse)) → Permᴰ (order m) m

gather-map :
    {K J A : Type 0} (f : J → Option A) (g : K → J) (ks : List K)
    → gather f (map g ks) ≡ gather (λ k. f (g k)) ks
gather-map f g [] = refl
gather-map f g (k ∷ ks) = ap (cons_result (f (g k))) (gather-map f g ks)

module _ (ledger : Ledger) (sum256 : List ℕ → List ℕ)
    (order : Dict (List TransferResponse) → Dict (List TransferResponse)) where
  -- The transactions in the order of the walk make the same bag as those of the deploys.
  pub transactions-IsWalk :
      IsWalk order
      → {B : Type 0} (F : Bag Transaction → B) (f : Fetched) (validator : Text)
      → (gather
            (λ (e : Text × List TransferResponse).
              transaction_of ledger sum256 f.block.header.state_root_hash validator e.0 e.1)
            (order (grouped f.transfers f.block.body.deploy_hashes))
          >>= λ ts. some (F (bag ts)))
        ≡ (gather
              (λ h.
                transaction_of ledger sum256 f.block.header.state_root_hash validator h
                  (carried f.transfers h))
              (deploys_of f.transfers f.block.body.deploy_hashes)
            >>= λ ts. some (F (bag ts)))
  transactions-IsWalk walk F f validator =
      let made : Text × List TransferResponse → Option Transaction =
        λ e. transaction_of ledger sum256 f.block.header.state_root_hash validator e.0 e.1 in
      let groups = grouped f.transfers f.block.body.deploy_hashes in
      bag-Same F (gather-Same made (walk groups))
      ∙ ap (λ r. r >>= λ ts. some (F (bag ts)))
          (ap (gather made) (grouped_lem f.transfers f.block.body.deploy_hashes)
            ∙ gather-map made _ (deploys_of f.transfers f.block.body.deploy_hashes))

module _ {sdk : Sdk} {ledger : Ledger} (answers : Answers ledger sdk) where
  pub fetch_latest-Gives : Gives (fetch_latest sdk) (fetched ledger none)
  unfolding fetch_latest
  fetch_latest-Gives s =
      let first : Outcome BlockResponse × sdk.State = sdk.get_latest_block s in
      call-result_of first _ _ (answers.latest_block s) λ b.
        let second : Outcome (List TransferResponse) × sdk.State =
          sdk.get_latest_block_transfers first.1 in
        call-result_of second _ _ (answers.latest_transfers first.1) λ ts. refl

  fetch_by_hash-Gives :
      (h : Text) (old : Fetched) → Gives (fetch_by_hash sdk (some h) old) (fetched_by_hash ledger h)
  unfolding fetch_by_hash
  fetch_by_hash-Gives h old s =
      let first : Outcome BlockResponse × sdk.State = sdk.get_block_by_hash h s in
      call-result_of first _ _ (answers.block_by_hash h s) λ b.
        let second : Outcome (List TransferResponse) × sdk.State =
          sdk.get_block_transfers_by_hash h first.1 in
        call-result_of second _ _ (answers.transfers_by_hash h first.1) λ ts. refl

  pub fetch_by_index-Gives :
      (i : ℤ) (old : Fetched)
      → Gives (fetch_by_index sdk (some i) old) (fetched_by_height ledger (to_uint64 i))
  unfolding fetch_by_index
  fetch_by_index-Gives i old s =
      let n = to_uint64 i in
      let first : Outcome BlockResponse × sdk.State = sdk.get_block_by_height n s in
      call-result_of first _ _ (answers.block_by_height n s) λ b.
        let second : Outcome (List TransferResponse) × sdk.State =
          sdk.get_block_transfers_by_height n first.1 in
        call-result_of second _ _ (answers.transfers_by_height n first.1) λ ts. refl

  pub fetch-Gives :
      (h : Text) (i : Option ℤ)
      → Gives
          (fetch sdk (some (record { hash = some h; index = i })))
          (fetched ledger (some (record { hash = some h; index = i })))
  unfolding fetch fetch_by_index
  fetch-Gives h none s =
      let first : Outcome Fetched × sdk.State = fetch_by_hash sdk (some h) nothing s in
      continue-result_of first.0 _ first.1 (fetch_by_hash-Gives h nothing s) (λ f. refl)
      ∙ >>=-some (fetched_by_hash ledger h)
  fetch-Gives h (some i) s =
      let first : Outcome Fetched × sdk.State = fetch_by_hash sdk (some h) nothing s in
      continue-result_of first.0 _ first.1 (fetch_by_hash-Gives h nothing s)
        λ f. fetch_by_index-Gives i f first.1

  -- The transactions of the entries of a map, one after the other.
  pub create_transactions-Gives :
      (groups : Dict (List TransferResponse)) (b : BlockResponse) (validator : Text)
      → Gives (create_transactions sdk groups b validator) (
          gather
            (λ (e : Text × List TransferResponse).
              transaction_of ledger sdk.sum256 b.header.state_root_hash validator e.0 e.1)
            groups)
  unfolding create_transactions
  create_transactions-Gives [] b validator s = refl
  create_transactions-Gives ((h, ts) ∷ groups) b validator s =
      let made : Outcome Transaction × sdk.State = create_ros_transaction sdk h ts b validator s in
      call-result_of made _ _ (transaction_of-Gives answers validator h ts b s) λ t.
        continue-result_of (create_transactions sdk groups b validator made.1).0 _ _
          (create_transactions-Gives groups b validator made.1) λ more. refl

  module _ (order : Dict (List TransferResponse) → Dict (List TransferResponse)) where
    assemble-Gives :
        IsWalk order
        → (f : Fetched) (s : sdk.State)
        → view view_of (assemble sdk order f s).0 ≡ assembled ledger sdk.sum256 f
    unfolding assemble
    assemble-Gives walk f s =
        let root = f.block.header.state_root_hash in
        let got : Outcome Text × sdk.State =
          get_main_purse_from_public_key sdk f.block.body.proposer root s in
        let groups = order (grouped f.transfers f.block.body.deploy_hashes) in
        continue-Gives view_of (map_error _ got.0) _ got.1
          (result_of-map_error _ got.0 ∙ key_purse-Gives answers root f.block.body.proposer s)
          λ validator.
            continue-Gives view_of (create_transactions sdk groups f.block validator got.1).0 _ _
              (create_transactions-Gives groups f.block validator got.1) (λ ts. refl)
            ∙ transactions-IsWalk ledger sdk.sum256 order walk
                (λ q. record {
                  block_identifier = block_identifier f.block;
                  parent_block_identifier = parent_block_identifier f.block;
                  timestamp = milliseconds f.block;
                  transactions = q;
                })
                f validator

    -- The empty proposer of the zero block is sliced.
    assemble-nothing : (s : sdk.State) → view view_of (assemble sdk order nothing s).0 ≡ none
    unfolding assemble get_main_purse_from_public_key account_preimage slice
    assemble-nothing s = refl

    named-Gives :
        IsWalk order
        → (h : Option Text) (i : Option ℤ) (s : sdk.State)
        → view view_of (block sdk order (some (record { hash = h; index = i })) s).0
          ≡ block_of ledger sdk.sum256 (some (record { hash = h; index = i }))
    unfolding block fetch fetch_by_hash fetch_by_index
    named-Gives walk none none s = assemble-nothing s
    named-Gives walk none (some i) s =
        let first : Outcome Fetched × sdk.State = fetch_by_index sdk (some i) nothing s in
        continue-Gives view_of first.0 _ first.1 (fetch_by_index-Gives i nothing s)
          λ f. assemble-Gives walk f first.1
    named-Gives walk (some h) i s =
        let first : Outcome Fetched × sdk.State =
          fetch sdk (some (record { hash = some h; index = i })) s in
        continue-Gives view_of first.0 _ first.1 (fetch-Gives h i s)
          λ f. assemble-Gives walk f first.1

    pub block-Gives :
        IsWalk order
        → (id : Option PartialBlockIdentifier) (s : sdk.State)
        → view view_of (block sdk order id s).0 ≡ block_of ledger sdk.sum256 id
    unfolding block fetch
    block-Gives walk none s =
        let first : Outcome Fetched × sdk.State = fetch_latest sdk s in
        continue-Gives view_of first.0 _ first.1 (fetch_latest-Gives s)
          λ f. assemble-Gives walk f first.1
    block-Gives walk (some id) s = named-Gives walk id.hash id.index s
