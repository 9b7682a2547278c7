-- ===== src/Casper/Block/Total.antt =====
-- casper/client.go: how `Block` ends if the node is healthy.
use rosetta_casper.Common.{Bool, ◌≢◌, ◌⊎◌, List, [], Option, none, some, arith, Text, ℤ, ◌&&◌}
use rosetta_casper.Go.Outcome.{Outcome}
use rosetta_casper.Go.Outcome.Success.{Ends, ends_ok, Finishes, continue-Ends, call-Ends}
use rosetta_casper.Go.Machine.{to_uint64}
use rosetta_casper.Go.Dict.{Dict}
use rosetta_casper.Rosetta.{PartialBlockIdentifier}
use rosetta_casper.Casper.Sdk.{Sdk, TransferResponse, BlockResponse}
use rosetta_casper.Casper.Operations.Total.{has_dash, have_dashes}
use rosetta_casper.Casper.Purse.{get_main_purse_from_public_key}
use rosetta_casper.Casper.Block.{
  Fetched, fetch, fetch_by_hash, fetch_by_index, fetch_latest, create_transactions, assemble, block,
  grouped, zero_block,
}
use rosetta_casper.Casper.Block.Balanced.{MeetsEntries}
use rosetta_casper.Casper.Block.Entries.{grouped-HaveAll}
use rosetta_casper.Casper.Block.Health.{
  HasProposer, HasDashes, IsHealthy, purse-Ends, create_transactions-Finishes,
}

-- An identifier that is left out, or names a hash, an index or both.
abbrev pub IsNamed : Option PartialBlockIdentifier → Type 0
IsNamed none = Unit
IsNamed (some id) = (id.hash ≢ none) ⊎ (id.index ≢ none)

-- What is fetched has a proposer, and its transfers have dashes.
pub record IsUsable (f : Fetched) : Type 0 where
  pub proposer : HasProposer f.block
  pub dashes : HasDashes f.transfers

-- The zero values of a block and its transfers.
abbrev nothing : Fetched
nothing = record { block = zero_block; transfers = [] }

module _ {may_fail : Bool} (sdk : Sdk) (healthy : IsHealthy may_fail sdk) where
  fetch_latest-Ends : (s : sdk.State) → Ends may_fail IsUsable (fetch_latest sdk s).0
  unfolding fetch_latest
  fetch_latest-Ends s =
      let first : Outcome BlockResponse × sdk.State = sdk.get_latest_block s in
      call-Ends first _ _ ((healthy.latest_block s)) λ b p.
        let second : Outcome (List TransferResponse) × sdk.State =
          sdk.get_latest_block_transfers first.1 in
        call-Ends second _ _ ((healthy.latest_transfers first.1))
          λ ts d. ends_ok (record { proposer = p; dashes = d })

  fetch_by_hash-Ends :
      (h : Text) (old : Fetched) (s : sdk.State)
      → Ends may_fail IsUsable (fetch_by_hash sdk (some h) old s).0
  unfolding fetch_by_hash
  fetch_by_hash-Ends h old s =
      let first : Outcome BlockResponse × sdk.State = sdk.get_block_by_hash h s in
      call-Ends first _ _ ((healthy.block_by_hash h s)) λ b p.
        let second : Outcome (List TransferResponse) × sdk.State =
          sdk.get_block_transfers_by_hash h first.1 in
        call-Ends second _ _ ((healthy.transfers_by_hash h first.1))
          λ ts d. ends_ok (record { proposer = p; dashes = d })

  fetch_by_index-Ends :
      (i : ℤ) (old : Fetched) (s : sdk.State)
      → Ends may_fail IsUsable (fetch_by_index sdk (some i) old s).0
  unfolding fetch_by_index
  fetch_by_index-Ends i old s =
      let first : Outcome BlockResponse × sdk.State = sdk.get_block_by_height (to_uint64 i) s in
      call-Ends first _ _ ((healthy.block_by_height (to_uint64 i) s)) λ b p.
        let second : Outcome (List TransferResponse) × sdk.State =
          sdk.get_block_transfers_by_height (to_uint64 i) first.1 in
        call-Ends second _ _ ((healthy.transfers_by_height (to_uint64 i) first.1))
          λ ts d. ends_ok (record { proposer = p; dashes = d })

  named-Ends :
      (h : Option Text) (i : Option ℤ) (s : sdk.State)
      → (h ≢ none) ⊎ (i ≢ none)
      → Ends may_fail IsUsable (fetch sdk (some (record { hash = h; index = i })) s).0
  unfolding fetch fetch_by_hash fetch_by_index
  named-Ends none none s n = ground arith
  named-Ends none (some i) s n = fetch_by_index-Ends i nothing s
  named-Ends (some h) none s n =
      let first : Outcome Fetched × sdk.State = fetch_by_hash sdk (some h) nothing s in
      continue-Ends first.0 _ first.1 (fetch_by_hash-Ends h nothing s) λ f usable. ends_ok usable
  named-Ends (some h) (some i) s n =
      let first : Outcome Fetched × sdk.State = fetch_by_hash sdk (some h) nothing s in
      continue-Ends first.0 _ first.1 (fetch_by_hash-Ends h nothing s)
        λ f _. fetch_by_index-Ends i f first.1

  fetch-Ends :
      (id : Option PartialBlockIdentifier) (s : sdk.State)
      → IsNamed id
      → Ends may_fail IsUsable (fetch sdk id s).0
  unfolding fetch
  fetch-Ends none s n = fetch_latest-Ends s
  fetch-Ends (some id) s n = named-Ends id.hash id.index s n

  module _ (order : Dict (List TransferResponse) → Dict (List TransferResponse)) where
    assemble-Finishes :
        MeetsEntries order
        → (f : Fetched) (s : sdk.State) → IsUsable f
        → Finishes may_fail (assemble sdk order f s).0
    unfolding assemble
    assemble-Finishes meets f s usable =
        let groups = grouped f.transfers f.block.body.deploy_hashes in
        let got : Outcome Text × sdk.State =
          get_main_purse_from_public_key sdk f.block.body.proposer f.block.header.state_root_hash
            s in
        call-Ends got _ _ ((purse-Ends sdk healthy f.block.body.proposer _ s usable.proposer))
          λ purse dash.
            continue-Ends (create_transactions sdk (order groups) f.block purse got.1).0 _ _
              (create_transactions-Finishes sdk healthy (order groups) f.block purse got.1
                (meets (λ e. have_dashes e.1) groups
                  (grouped-HaveAll (λ t. has_dash t.source && has_dash t.target) f.transfers
                    f.block.body.deploy_hashes usable.dashes))
                dash)
              λ ts _. ends_ok tt

    -- `Block` ends for the latest block and for each identifier that names a hash, an index or both.
    pub block-Finishes :
        MeetsEntries order
        → (id : Option PartialBlockIdentifier) (s : sdk.State) → IsNamed id
        → Finishes may_fail (block sdk order id s).0
    unfolding block
    block-Finishes meets id s named =
        let first : Outcome Fetched × sdk.State = fetch sdk id s in
        continue-Ends first.0 _ first.1 (fetch-Ends id s named)
          λ f usable. assemble-Finishes meets f first.1 usable
