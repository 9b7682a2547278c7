-- ===== src/Casper/Ledger.antt =====
-- What casper/client.go promises about a node that answers from one state of the chain: each method
-- as a function of that state, without calls, orders or error texts.
pub mod Unordered
pub mod Transactions
pub mod Blocks
pub mod Named
pub mod Refinement
pub mod Coherent
pub mod Query
pub mod Growth
pub mod Live
pub mod Stable
use rosetta_casper.Common.{
  ◌≡◌, ℕ, Bool, List, [], ◌∷◌, ◌++◌, map, Option, none, some, Text, lit, text_eq, ◌==◌,
  if◌then◌else◌, ◌||◌, ℤ, length, replicate,
}
use rosetta_casper.Go.Outcome.Gives.{result_of, ◌>>=◌, Gives}
use rosetta_casper.Go.Strings.{contains, count, slice}
use rosetta_casper.Go.Decimal.{show_int}
use rosetta_casper.Go.Machine.{to_uint64}
use rosetta_casper.Go.Hex.{encode_to_string}
use rosetta_casper.Rosetta.{
  PartialBlockIdentifier, BlockIdentifier, AccountIdentifier, AccountBalanceResponse, Transaction,
  Block,
}
use rosetta_casper.Casper.Types.{currency}
use rosetta_casper.Casper.Sdk.{
  Sdk, PeerInfo, BlockResponse, TransferResponse, Deploy, DeployResult, ExecutionResult,
  StoredValue,
}
use rosetta_casper.Casper.Operations.{result_operations}
use rosetta_casper.Casper.Purse.{account_preimage}
use rosetta_casper.Casper.Block.{
  Fetched, StatusAnswer, block_identifier, parent_block_identifier, milliseconds, rosetta_peer,
  transfers_of, zero_block,
}
use rosetta_casper.Casper.Block.Walk.{deploys_of, carried}
use rosetta_casper.Casper.Ledger.Unordered.{Bag, bag, gather}

-- A state of the chain, as the node shows it; `none` is a question that it cannot answer.
pub record Ledger : Type 0 where
  pub latest_block : Option BlockResponse
  pub latest_transfers : Option (List TransferResponse)
  pub peers : Option (List PeerInfo)
  pub block_by_hash : Text → Option BlockResponse
  pub block_by_height : ℕ → Option BlockResponse
  pub transfers_by_hash : Text → Option (List TransferResponse)
  pub transfers_by_height : ℕ → Option (List TransferResponse)
  pub deploy : Text → Option DeployResult
  pub state_item : Text → Text → List Text → Option StoredValue
  pub account_balance : Text → Text → Option ℤ
  pub payment_amount : Deploy → Option Text

-- The node answers from the ledger, whatever it was asked before.
pub record Answers (ledger : Ledger) (sdk : Sdk) : Type 0 where
  pub latest_block : Gives sdk.get_latest_block ledger.latest_block
  pub latest_transfers : Gives sdk.get_latest_block_transfers ledger.latest_transfers
  pub peers : Gives sdk.get_peers ledger.peers
  pub block_by_hash : (h : Text) → Gives (sdk.get_block_by_hash h) (ledger.block_by_hash h)
  pub block_by_height : (n : ℕ) → Gives (sdk.get_block_by_height n) (ledger.block_by_height n)
  pub transfers_by_hash :
      (h : Text) → Gives (sdk.get_block_transfers_by_hash h) (ledger.transfers_by_hash h)
  pub transfers_by_height :
      (n : ℕ) → Gives (sdk.get_block_transfers_by_height n) (ledger.transfers_by_height n)
  pub deploy : (h : Text) → Gives (sdk.get_deploy h) (ledger.deploy h)
  pub state_item :
      (root key : Text) (path : List Text)
      → Gives (sdk.get_state_item root key path) (ledger.state_item root key path)
  pub account_balance :
      (root purse : Text)
      → Gives (sdk.get_account_balance root purse) (ledger.account_balance root purse)
  pub payment_amount : (d : Deploy) → Gives (sdk.read_payment_amount d) (ledger.payment_amount d)

-- The first result of a deploy.
abbrev pub first_of : List ExecutionResult → Option ExecutionResult
first_of [] = none
first_of (r ∷ _) = some r

-- A block whose transactions come in no order.
pub record BlockView : Type 0 where
  pub block_identifier : BlockIdentifier
  pub parent_block_identifier : BlockIdentifier
  pub timestamp : ℤ
  pub transactions : Bag Transaction

abbrev pub view_of : Block → BlockView
view_of b = record {
  block_identifier = b.block_identifier;
  parent_block_identifier = b.parent_block_identifier;
  timestamp = b.timestamp;
  transactions = bag b.transactions;
}

module _ (ledger : Ledger) where
  abbrev pub item_purse : Text → Text → Option Text
  item_purse root key = do
    item ← ledger.state_item root key []
    account ← item.account
    some account.main_purse

  abbrev pub payment_of : Deploy → Option Text
  payment_of d = do
    bytes ← d.module_bytes
    if bytes.args_count == 0 then some (lit "0") else ledger.payment_amount d

  -- The block that an identifier names, or the zero value. A hash must name a block also where the
  -- index decides.
  abbrev pub named : Option Text → Option ℤ → Option BlockResponse
  named none none = some zero_block
  named (some h) none = ledger.block_by_hash h
  named none (some i) = ledger.block_by_height (to_uint64 i)
  named (some h) (some i) = do _ ← ledger.block_by_hash h; ledger.block_by_height (to_uint64 i)

  abbrev pub fetched_by_hash : Text → Option Fetched
  fetched_by_hash h = do
    b ← ledger.block_by_hash h
    ts ← ledger.transfers_by_hash h
    some (record { block = b; transfers = ts })

  abbrev pub fetched_by_height : ℕ → Option Fetched
  fetched_by_height n = do
    b ← ledger.block_by_height n
    ts ← ledger.transfers_by_height n
    some (record { block = b; transfers = ts })

  -- The zero value of a block has no proposer.
  abbrev pub fetched : Option PartialBlockIdentifier → Option Fetched
  fetched none = do
    b ← ledger.latest_block
    ts ← ledger.latest_transfers
    some (record { block = b; transfers = ts })
  fetched (some id) = elim id.hash [
    | none ↦ elim id.index [ none ↦ none | some i ↦ fetched_by_height (to_uint64 i) ]
    | some h ↦ elim id.index [
      | none ↦ fetched_by_hash h
      | some i ↦ fetched_by_hash h >>= λ _. fetched_by_height (to_uint64 i)
    ]
  ]

  abbrev pub balance_block_of : Option PartialBlockIdentifier → Option BlockResponse
  balance_block_of none = ledger.latest_block
  balance_block_of (some id) = named id.hash id.index

  -- `Status`.
  abbrev pub status_of : Option StatusAnswer
  status_of = do
    b ← ledger.latest_block
    ps ← ledger.peers
    some (record {
      block = block_identifier b;
      timestamp = milliseconds b;
      peers = map rosetta_peer ps;
    })

  module _ (sum256 : List ℕ → List ℕ) where
    abbrev pub key_purse : Text → Text → Option Text
    key_purse root key = do
      buffer ← result_of (account_preimage key)
      item_purse root (lit "account-hash-" ++ encode_to_string (sum256 buffer))

    -- The transaction of a deploy, under a state root, from the transfers that are given.
    abbrev pub transaction_of : Text → Text → Text → List TransferResponse → Option Transaction
    transaction_of root validator h ts = do
      d ← ledger.deploy h
      result ← first_of d.execution_results
      signer ← key_purse root d.deploy.account
      payment ← payment_of d.deploy
      operations ← result_of (result_operations signer validator payment ts result)
      some (record { transaction_identifier = h; operations = operations; metadata = [] })

    -- The block that is made of what was fetched.
    abbrev pub assembled : Fetched → Option BlockView
    assembled f = do
      validator ← key_purse f.block.header.state_root_hash f.block.body.proposer
      transactions ←
          gather
            (λ h. transaction_of f.block.header.state_root_hash validator h (carried f.transfers h))
            (deploys_of f.transfers f.block.body.deploy_hashes)
      some (record {
        block_identifier = block_identifier f.block;
        parent_block_identifier = parent_block_identifier f.block;
        timestamp = milliseconds f.block;
        transactions = bag transactions;
      })

    -- `Block`.
    abbrev pub block_of : Option PartialBlockIdentifier → Option BlockView
    block_of id = fetched id >>= assembled

    -- `BlockTransaction`: the block is the one in which the deploy was executed, the transfers are
    -- those of the block that is named.
    abbrev pub block_transaction_of : Option BlockIdentifier → Option Text → Option Transaction
    block_transaction_of id transaction_hash = do
      hash ← transaction_hash
      d ← ledger.deploy hash
      result ← first_of d.execution_results
      b ← ledger.block_by_hash result.block_hash
      at ← id
      transfers ← ledger.transfers_by_hash at.hash
      validator ← key_purse b.header.state_root_hash b.body.proposer
      transaction_of b.header.state_root_hash validator d.deploy.hash
          (transfers_of d.deploy.hash transfers)

    -- The purse that an address stands for.
    abbrev pub purse_named : Text → Text → Option Text
    purse_named root address =
        if contains address (lit "account-hash")
        then item_purse root address
        else if contains address (lit "uref")
        then some (if count address b'-' == 1 then address ++ lit "-001" else address)
        else result_of (slice address 0 2) >>= λ tag.
            if text_eq tag (lit "01") || text_eq tag (lit "02")
            then key_purse root address
            else none

    -- `Balance`.
    abbrev pub balance_of :
        AccountIdentifier → Option PartialBlockIdentifier → Option AccountBalanceResponse
    balance_of account id = do
      b ← balance_block_of id
      uref ← purse_named b.header.state_root_hash account.address
      amount ← ledger.account_balance b.header.state_root_hash uref
      some (record {
        balances = record { value = show_int amount; currency = currency } ∷ [];
        block_identifier = block_identifier b;
        metadata = [];
      })
