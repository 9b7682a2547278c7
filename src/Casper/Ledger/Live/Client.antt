-- ===== src/Casper/Ledger/Live/Client.antt =====
-- casper/client.go: `Block`, `BlockTransaction` and `Balance` on a chain that grows while they ask.
use rosetta_casper.Common.{◌≡◌, List, Option, none, some, Text}
use rosetta_casper.Go.Outcome.{Outcome, ok, deref}
use rosetta_casper.Go.Dict.{Dict}
use rosetta_casper.Rosetta.{BlockIdentifier}
use rosetta_casper.Casper.Sdk.{Sdk, TransferResponse, BlockResponse, DeployResult}
use rosetta_casper.Casper.Purse.{get_main_purse_from_public_key}
use rosetta_casper.Casper.Block.{block_transaction, get_block_response, transfers_of}
use rosetta_casper.Casper.Ledger.{Ledger, block_transaction_of}
use rosetta_casper.Casper.Ledger.Transactions.{result_of-deref}
use rosetta_casper.Casper.Ledger.Query.{
  Query, of_block, of_transaction, of_balance, Told, seen, ask, determined,
}
use rosetta_casper.Casper.Ledger.Blocks.{IsWalk}
use rosetta_casper.Casper.Ledger.Growth.{key_purse-Keeps}
use rosetta_casper.Casper.Ledger.Live.{
  Tells, Extends-refl, Reads-map_error, continue-Reads, call-Reads, executed-Reads, IsLive,
}
use rosetta_casper.Casper.Ledger.Live.Transactions.{key_purse-Tells, transaction_of-Tells}
use rosetta_casper.Casper.Ledger.Live.Blocks.{block-Reads}
use rosetta_casper.Casper.Ledger.Live.Balances.{balance-Tells}

module _ {sdk : Sdk} {ledger : sdk.State → Ledger} (live : IsLive sdk ledger) where
  block_transaction-Tells :
      (id : Option BlockIdentifier) (hash : Option Text)
      → Tells ledger
          (block_transaction sdk id hash)
          (λ l. block_transaction_of l sdk.sum256 id hash)
  unfolding block_transaction get_block_response
  block_transaction-Tells id none s = record { extends = Extends-refl (ledger s); told = λ t e. cc }
  block_transaction-Tells id (some hash) s =
      let got : Outcome DeployResult × sdk.State = sdk.get_deploy hash s in
      executed-Reads got _ _ _ (live.deploy hash s) λ d result.
        let whole : Outcome BlockResponse × sdk.State =
          get_block_response sdk (record { hash = some result.block_hash; index = none }) got.1 in
        call-Reads whole _ _ _ (Reads-map_error _ _ (live.block_by_hash result.block_hash got.1))
          (λ l l' x. x.block_by_hash result.block_hash)
          λ b. continue-Reads (deref id) _ whole.1 (result_of-deref id) λ at.
            let listed : Outcome (List TransferResponse) × sdk.State =
              sdk.get_block_transfers_by_hash at.hash whole.1 in
            call-Reads listed _ _ _ (live.transfers_by_hash at.hash whole.1)
              (λ l l' x. x.transfers_by_hash at.hash)
              λ transfers.
                let root = b.header.state_root_hash in
                let owner : Outcome Text × sdk.State =
                  get_main_purse_from_public_key sdk b.body.proposer root listed.1 in
                call-Reads owner _ _ _ (key_purse-Tells live root b.body.proposer listed.1)
                  (λ l l' x. key_purse-Keeps x sdk.sum256 root b.body.proposer)
                  λ validator.
                    transaction_of-Tells live validator d.deploy.hash
                      (transfers_of d.deploy.hash transfers) b owner.1

  -- Where the chain may grow while the client asks, the node tells about a hash, a height, an executed
  -- deploy or a state root what the chain tells at some time before the call ends, and what was told
  -- stays as it is, and Go's walk over a map gives its entries in some order, then whatever one of
  -- these three methods returns is what the chain determines at the time when it returns, all of it
  -- at that one time: `Block` for an identifier with a hash or an index, up to the order of its
  -- transactions; `BlockTransaction`; and `Balance` for an account and an identifier.
  pub client-at_return :
      (order : Dict (List TransferResponse) → Dict (List TransferResponse))
      → IsWalk order
      → (q : Query) (s : sdk.State) {told : Told q} → (ask sdk order q s).0 ≡ ok told
      → determined (ledger (ask sdk order q s).1) sdk.sum256 q ≡ some (seen q told)
  client-at_return order walk (of_block id) s e = (block-Reads live order walk id s).told _ e
  client-at_return order walk (of_transaction at hash) s e =
      (block_transaction-Tells at hash s).told _ e
  client-at_return order walk (of_balance account id) s e =
      (balance-Tells live account id s).told _ e
