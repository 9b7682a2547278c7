-- ===== src/Casper/Ledger/Live/Blocks.antt =====
-- casper/client.go: `Block` on a chain that grows while it asks.
use rosetta_casper.Common.{List, [], ◌∷◌, Option, none, some, Text, ℤ}
use rosetta_casper.Go.Outcome.{Outcome}
use rosetta_casper.Go.Outcome.Gives.{>>=-some}
use rosetta_casper.Go.Strings.{slice}
use rosetta_casper.Go.Dict.{Dict}
use rosetta_casper.Go.Machine.{to_uint64}
use rosetta_casper.Rosetta.{PartialBlockIdentifier, Transaction}
use rosetta_casper.Casper.Sdk.{Sdk, TransferResponse, BlockResponse}
use rosetta_casper.Casper.Purse.{account_preimage, get_main_purse_from_public_key}
use rosetta_casper.Casper.Transaction.{create_ros_transaction}
use rosetta_casper.Casper.Block.{
  Fetched, fetch, fetch_by_hash, fetch_by_index, create_transactions, assemble, block,
  block_identifier, parent_block_identifier, milliseconds, grouped,
}
use rosetta_casper.Casper.Ledger.{
  Ledger, view_of, fetched, fetched_by_hash, fetched_by_height, transaction_of, block_of, assembled,
}
use rosetta_casper.Casper.Ledger.Unordered.{gather}
use rosetta_casper.Casper.Ledger.Blocks.{IsWalk, transactions-IsWalk, nothing}
use rosetta_casper.Casper.Ledger.Growth.{
  key_purse-Keeps, transaction_of-Keeps, gather-Keeps, fetched_by_hash-Keeps,
  fetched_by_height-Keeps, fetched-Keeps,
}
use rosetta_casper.Casper.Ledger.Live.{
  Extends-refl, Reads, Tells, Reads-ok, Reads-same, call-Reads, then-Reads, IsLive,
}
use rosetta_casper.Casper.Ledger.Live.Transactions.{key_purse-Tells, transaction_of-Tells}

module _ {sdk : Sdk} {ledger : sdk.State → Ledger} (live : IsLive sdk ledger) where
  fetch_by_hash-Tells :
      (h : Text) (old : Fetched)
      → Tells ledger (fetch_by_hash sdk (some h) old) (λ l. fetched_by_hash l h)
  unfolding fetch_by_hash
  fetch_by_hash-Tells h old s =
      let first : Outcome BlockResponse × sdk.State = sdk.get_block_by_hash h s in
      call-Reads first _ _ _ (live.block_by_hash h s) (λ l l' x. x.block_by_hash h)
        λ b.
          let second : Outcome (List TransferResponse) × sdk.State =
            sdk.get_block_transfers_by_hash h first.1 in
          call-Reads second _ _ _ (live.transfers_by_hash h first.1)
            (λ l l' x. x.transfers_by_hash h) λ ts. Reads-ok _ second.1 _

  fetch_by_index-Tells :
      (i : ℤ) (old : Fetched)
      → Tells ledger (fetch_by_index sdk (some i) old) (λ l. fetched_by_height l (to_uint64 i))
  unfolding fetch_by_index
  fetch_by_index-Tells i old s =
      let n = to_uint64 i in
      let first : Outcome BlockResponse × sdk.State = sdk.get_block_by_height n s in
      call-Reads first _ _ _ (live.block_by_height n s) (λ l l' x. x.block_by_height n)
        λ b.
          let second : Outcome (List TransferResponse) × sdk.State =
            sdk.get_block_transfers_by_height n first.1 in
          call-Reads second _ _ _ (live.transfers_by_height n first.1)
            (λ l l' x. x.transfers_by_height n) λ ts. Reads-ok _ second.1 _

  fetch-Tells :
      (h : Text) (i : Option ℤ)
      → Tells ledger
          (fetch sdk (some (record { hash = some h; index = i })))
          (λ l. fetched l (some (record { hash = some h; index = i })))
  unfolding fetch fetch_by_index
  fetch-Tells h none s =
      let first : Outcome Fetched × sdk.State = fetch_by_hash sdk (some h) nothing s in
      Reads-same _ (λ l. >>=-some (fetched_by_hash l h))
        (then-Reads first _ _ (fetch_by_hash-Tells h nothing s)
          (λ l l' x. fetched_by_hash-Keeps x sdk.sum256 h) λ f. Reads-ok _ first.1 f)
  fetch-Tells h (some i) s =
      let first : Outcome Fetched × sdk.State = fetch_by_hash sdk (some h) nothing s in
      then-Reads first _ _ (fetch_by_hash-Tells h nothing s)
        (λ l l' x. fetched_by_hash-Keeps x sdk.sum256 h) λ f. fetch_by_index-Tells i f first.1

  create_transactions-Tells :
      (groups : Dict (List TransferResponse)) (b : BlockResponse) (validator : Text)
      → Tells ledger (create_transactions sdk groups b validator) (λ l.
        gather
          (λ (e : Text × List TransferResponse).
            transaction_of l sdk.sum256 b.header.state_root_hash validator e.0 e.1)
          groups)
  unfolding create_transactions
  create_transactions-Tells [] b validator s = Reads-ok _ s []
  create_transactions-Tells ((h, ts) ∷ groups) b validator s =
      let root = b.header.state_root_hash in
      let made : Outcome Transaction × sdk.State = create_ros_transaction sdk h ts b validator s in
      call-Reads made _ _ _ (transaction_of-Tells live validator h ts b s)
        (λ l l' x. transaction_of-Keeps x sdk.sum256 root validator h ts)
        λ t.
          let rest : Outcome (List Transaction) × sdk.State =
            create_transactions sdk groups b validator made.1 in
          then-Reads rest _ _ (create_transactions-Tells groups b validator made.1)
            (λ l l' x.
              gather-Keeps _ _ groups λ e. transaction_of-Keeps x sdk.sum256 root validator e.0 e.1)
            λ more. Reads-ok _ rest.1 _

  module _ (order : Dict (List TransferResponse) → Dict (List TransferResponse))
      (walk : IsWalk order) where
    assemble-Reads :
        (f : Fetched) (s : sdk.State)
        → Reads ledger view_of s (assemble sdk order f s) (λ l. assembled l sdk.sum256 f)
    unfolding assemble
    assemble-Reads f s =
        let root = f.block.header.state_root_hash in
        let got : Outcome Text × sdk.State =
          get_main_purse_from_public_key sdk f.block.body.proposer root s in
        let groups = order (grouped f.transfers f.block.body.deploy_hashes) in
        call-Reads got _ _ _ (key_purse-Tells live root f.block.body.proposer s)
          (λ l l' x. key_purse-Keeps x sdk.sum256 root f.block.body.proposer)
          λ validator.
            let made : Outcome (List Transaction) × sdk.State =
              create_transactions sdk groups f.block validator got.1 in
            Reads-same _
              (λ l.
                transactions-IsWalk l sdk.sum256 order walk
                  (λ q. record {
                    block_identifier = block_identifier f.block;
                    parent_block_identifier = parent_block_identifier f.block;
                    timestamp = milliseconds f.block;
                    transactions = q;
                  })
                  f validator)
              (then-Reads made _ _ (create_transactions-Tells groups f.block validator got.1)
                (λ l l' x.
                  gather-Keeps _ _ groups
                    λ e. transaction_of-Keeps x sdk.sum256 root validator e.0 e.1)
                λ ts. Reads-ok view_of made.1 _)

    -- The empty proposer of the zero block is sliced.
    assemble-nothing :
        (s : sdk.State) → Reads ledger view_of s (assemble sdk order nothing s) (λ l. none)
    unfolding assemble get_main_purse_from_public_key account_preimage slice
    assemble-nothing s = record { extends = Extends-refl (ledger s); told = λ b e. cc }

    fetched-Reads :
        (h : Option Text) (i : Option ℤ) (s : sdk.State)
        → Reads ledger view_of s
            (block sdk order (some (record { hash = h; index = i })) s)
            (λ l. block_of l sdk.sum256 (some (record { hash = h; index = i })))
    unfolding block fetch fetch_by_hash fetch_by_index
    fetched-Reads none none s = assemble-nothing s
    fetched-Reads none (some i) s =
        let first : Outcome Fetched × sdk.State = fetch_by_index sdk (some i) nothing s in
        then-Reads first _ _ (fetch_by_index-Tells i nothing s)
          (λ l l' x. fetched_by_height-Keeps x sdk.sum256 (to_uint64 i))
          λ f. assemble-Reads f first.1
    fetched-Reads (some h) i s =
        let first : Outcome Fetched × sdk.State =
          fetch sdk (some (record { hash = some h; index = i })) s in
        then-Reads first _ _ (fetch-Tells h i s) (λ l l' x. fetched-Keeps x sdk.sum256 (some h) i)
          λ f. assemble-Reads f first.1

    pub block-Reads :
        (id : PartialBlockIdentifier) (s : sdk.State)
        → Reads ledger view_of s
            (block sdk order (some id) s)
            (λ l. block_of l sdk.sum256 (some id))
    block-Reads id s = fetched-Reads id.hash id.index s
