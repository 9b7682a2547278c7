-- ===== src/Casper/Ledger/Refinement.antt =====
-- casper/client.go: the four methods of the client over a node that answers from a ledger.
use rosetta_casper.Common.{
  ◌≡◌, refl, ◌∙◌, inl, inr, Bool-cases, List, [], Option, none, some, Text, lit, ℤ, text_eq, Bool,
  true, false, ◌||◌, if◌then◌else◌,
}
use rosetta_casper.Go.Outcome.{Outcome, deref, text, fail, wrapping}
use rosetta_casper.Go.Outcome.Gives.{
  view, Gives, continue-result_of, call-result_of, result_of-map_error, >>=-some,
}
use rosetta_casper.Go.Strings.{contains, slice}
use rosetta_casper.Go.Dict.{Dict}
use rosetta_casper.Go.Machine.{to_uint64}
use rosetta_casper.Rosetta.{BlockIdentifier, AccountIdentifier, PartialBlockIdentifier}
use rosetta_casper.Casper.Sdk.{
  Sdk, PeerInfo, TransferResponse, BlockResponse, DeployResult, StoredValue,
}
use rosetta_casper.Casper.Purse.{get_main_purse_from_public_key}
use rosetta_casper.Casper.Transaction.{first_result}
use rosetta_casper.Casper.Block.{status, block, block_transaction, get_block_response, transfers_of}
use rosetta_casper.Casper.Balance.{
  balance, balance_uref, purse_of_account_hash, purse_of_key, balance_block, block_by_hash,
  block_by_index,
}
use rosetta_casper.Casper.Ledger.{
  Ledger, Answers, view_of, item_purse, key_purse, purse_named, balance_block_of, named, status_of,
  block_of, block_transaction_of, balance_of,
}
use rosetta_casper.Casper.Ledger.Transactions.{
  key_purse-Gives, transaction_of-Gives, result_of-deref, result_of-first_result,
}
use rosetta_casper.Casper.Ledger.Blocks.{IsWalk, block-Gives}

module _ (sdk : Sdk) (ledger : Ledger) where
  -- A client whose methods answer from the ledger.
  pub record RefinesClient (order : Dict (List TransferResponse) → Dict (List TransferResponse))
      : Type 0 where
    pub status : Gives (status sdk) (status_of ledger)
    pub balance :
        (account : AccountIdentifier) (id : Option PartialBlockIdentifier)
        → Gives (balance sdk account id) (balance_of ledger sdk.sum256 account id)
    pub block :
        (id : Option PartialBlockIdentifier) (s : sdk.State)
        → view view_of (block sdk order id s).0 ≡ block_of ledger sdk.sum256 id
    pub block_transaction :
        (id : Option BlockIdentifier) (hash : Option Text)
        → Gives (block_transaction sdk id hash) (block_transaction_of ledger sdk.sum256 id hash)

module _ {sdk : Sdk} {ledger : Ledger} (answers : Answers ledger sdk) where
  status-Gives : Gives (status sdk) (status_of ledger)
  unfolding status
  status-Gives s =
      let first : Outcome BlockResponse × sdk.State = sdk.get_latest_block s in
      continue-result_of first.0 _ first.1 (answers.latest_block s) λ b.
        let second : Outcome (List PeerInfo) × sdk.State = sdk.get_peers first.1 in
        continue-result_of second.0 _ second.1 (answers.peers first.1) λ ps. refl

  pub block_transaction-Gives :
      (id : Option BlockIdentifier) (hash : Option Text)
      → Gives (block_transaction sdk id hash) (block_transaction_of ledger sdk.sum256 id hash)
  unfolding block_transaction get_block_response
  block_transaction-Gives id none s = refl
  block_transaction-Gives id (some hash) s =
      let got : Outcome DeployResult × sdk.State = sdk.get_deploy hash s in
      call-result_of got _ _ (answers.deploy hash s) λ d.
        continue-result_of (first_result d.execution_results) _ got.1
          (result_of-first_result d.execution_results)
          λ result.
            let whole : Outcome BlockResponse × sdk.State =
              get_block_response sdk (record { hash = some result.block_hash; index = none })
                got.1 in
            call-result_of whole _ _
              (result_of-map_error _ _ ∙ answers.block_by_hash result.block_hash got.1)
              λ b. continue-result_of (deref id) _ whole.1 (result_of-deref id) λ at.
                let listed : Outcome (List TransferResponse) × sdk.State =
                  sdk.get_block_transfers_by_hash at.hash whole.1 in
                call-result_of listed _ _ (answers.transfers_by_hash at.hash whole.1) λ transfers.
                  let root = b.header.state_root_hash in
                  let owner : Outcome Text × sdk.State =
                    get_main_purse_from_public_key sdk b.body.proposer root listed.1 in
                  call-result_of owner _ _ (key_purse-Gives answers root b.body.proposer listed.1)
                    λ validator.
                      transaction_of-Gives answers validator d.deploy.hash
                        (transfers_of d.deploy.hash transfers) b owner.1

  balance_named-Gives :
      (h : Option Text) (i : Option ℤ)
      → Gives (balance_block sdk (some (record { hash = h; index = i }))) (named ledger h i)
  unfolding balance_block block_by_hash block_by_index
  balance_named-Gives none none s = refl
  balance_named-Gives none (some i) s =
      result_of-map_error _ _ ∙ answers.block_by_height (to_uint64 i) s
  balance_named-Gives (some h) none s =
      let got : Outcome BlockResponse × sdk.State = sdk.get_block_by_hash h s in
      call-result_of got _ _ (answers.block_by_hash h s) (λ b. refl)
      ∙ >>=-some (ledger.block_by_hash h)
  balance_named-Gives (some h) (some i) s =
      let got : Outcome BlockResponse × sdk.State = sdk.get_block_by_hash h s in
      call-result_of got _ _ (answers.block_by_hash h s)
        λ b. result_of-map_error _ _ ∙ answers.block_by_height (to_uint64 i) got.1

  balance_block-Gives :
      (id : Option PartialBlockIdentifier)
      → Gives (balance_block sdk id) (balance_block_of ledger id)
  unfolding balance_block
  balance_block-Gives none s = result_of-map_error _ _ ∙ answers.latest_block s
  balance_block-Gives (some id) s = balance_named-Gives id.hash id.index s

  item_purse-Gives :
      (root key : Text) → Gives (purse_of_account_hash sdk root key) (item_purse ledger root key)
  unfolding purse_of_account_hash
  item_purse-Gives root key s =
      let got : Outcome StoredValue × sdk.State = sdk.get_state_item root key [] s in
      call-result_of got _ _ (answers.state_item root key [] s) λ item.
        continue-result_of (deref item.account) _ got.1 (result_of-deref item.account)
          λ account. refl

  tagged-Gives :
      (root key : Text) (ed secp : Bool)
      → Gives
          (if ed
            then wrapping
                (lit ": can't get account purse 01")
                (get_main_purse_from_public_key sdk key root)
            else if secp
            then wrapping
                (lit ": can't get account purse 02")
                (get_main_purse_from_public_key sdk key root)
            else fail (text (lit "Invalid input account")))
          (if ed || secp then key_purse ledger sdk.sum256 root key else none)
  tagged-Gives root key true secp s = result_of-map_error _ _ ∙ key_purse-Gives answers root key s
  tagged-Gives root key false true s = result_of-map_error _ _ ∙ key_purse-Gives answers root key s
  tagged-Gives root key false false s = refl

  balance_uref-Gives :
      (root address : Text)
      → Gives (balance_uref sdk root address) (purse_named ledger sdk.sum256 root address)
  unfolding balance_uref purse_of_key
  balance_uref-Gives root address s = elim (Bool-cases (contains address (lit "account-hash"))) [
    | inl hashed ↦ rw hashed (item_purse-Gives root address s)
    | inr other ↦ elim (Bool-cases (contains address (lit "uref"))) [
      | inl uref ↦ rw (other, uref) refl
      | inr other' ↦
          rw (other, other')
            (continue-result_of (slice address 0 2) _ s refl
              λ tag. tagged-Gives root address (text_eq tag (lit "01")) (text_eq tag (lit "02")) s)
    ]
  ]

  pub balance-Gives :
      (account : AccountIdentifier) (id : Option PartialBlockIdentifier)
      → Gives (balance sdk account id) (balance_of ledger sdk.sum256 account id)
  unfolding balance
  balance-Gives account id s =
      let named : Outcome BlockResponse × sdk.State = balance_block sdk id s in
      continue-result_of named.0 _ named.1 (balance_block-Gives id s) λ b.
        let root = b.header.state_root_hash in
        let purse : Outcome Text × sdk.State = balance_uref sdk root account.address named.1 in
        continue-result_of purse.0 _ purse.1 (balance_uref-Gives root account.address named.1)
          λ uref.
            let held : Outcome ℤ × sdk.State = sdk.get_account_balance root uref purse.1 in
            call-result_of held _ _ (answers.account_balance root uref purse.1) λ amount. refl

  -- Where the node answers from one state of the chain, whatever was asked before, and Go's walk over
  -- a map gives its entries in some order, the four methods of the client answer from that state:
  -- each one gives the answer that the ledger determines, and fails where the ledger determines
  -- none. The transactions of a block are determined up to their order.
  pub client-RefinesClient :
      (order : Dict (List TransferResponse) → Dict (List TransferResponse))
      → IsWalk order
      → RefinesClient sdk ledger order
  client-RefinesClient order walk = record {
    status = status-Gives;
    balance = balance-Gives;
    block = block-Gives answers order walk;
    block_transaction = block_transaction-Gives;
  }
