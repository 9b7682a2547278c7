-- ===== src/Casper/Block.antt =====
-- casper/client.go: `NewClient` apart, the methods that read the chain: `Status`,
-- `GetBlockResponse`, `Block` and `BlockTransaction`.
mod Grouping
pub mod Aliasing
pub mod Balanced
pub mod Built
pub mod Complete
pub mod Decimals
pub mod Entries
pub mod Identifiers
pub mod Own
pub mod Source
pub mod Health
pub mod Total
pub mod Reordered
pub mod Walk
unfoldable pub use Grouping.{
  grouped, transfers_of, group_transfers, ensure_key, append_at, add_deploys, load_all,
}
use rosetta_casper.Common.{
  ℕ, ◌*◌, Bool, true, false, List, [], ◌∷◌, ◌++◌, map, Option, none, some, Text, lit, text_eq, ◌==◌,
  if◌then◌else◌, ℤ, pos, negsuc, eqb_ℤ,
}
use rosetta_casper.Go.Outcome.{
  Outcome, ok, err, panic, Error, text, wrap, M, pure, fail, crash, lift, ◌>>=◌, on_error, wrapping,
  deref, continue, map_error,
}
use rosetta_casper.Go.Dict.{Dict, keys}
use rosetta_casper.Go.Machine.{to_int64, to_uint64, pred_int64, quot}
use rosetta_casper.Rosetta.{
  BlockIdentifier, PartialBlockIdentifier, Peer, string, Transaction, Block,
}
use rosetta_casper.Casper.Types.{genesis_block_index}
use rosetta_casper.Casper.Sdk.{
  Sdk, PeerInfo, TransferResponse, BlockResponse, DeployResult, ExecutionResult,
}
use rosetta_casper.Casper.Purse.{get_main_purse_from_public_key}
use rosetta_casper.Casper.Transaction.{create_ros_transaction, first_result}

-- Three constants that nothing reads, the first in nanoseconds.
abbrev geth_http_timeout : ℕ
geth_http_timeout = 120 * 1000000000

abbrev max_trace_concurrency : ℤ
max_trace_concurrency = pos 16

abbrev semaphore_trace_weight : ℤ
semaphore_trace_weight = pos 1

abbrev pub block_identifier : BlockResponse → BlockIdentifier
block_identifier block = record { hash = block.hash; index = to_int64 block.header.height }

-- `UnixNano() / 1e6`.
abbrev pub milliseconds : BlockResponse → ℤ
milliseconds block = quot block.header.timestamp_nanos 1000000

abbrev pub parent_block_identifier : BlockResponse → BlockIdentifier
parent_block_identifier block =
    let this = block_identifier block in
    if eqb_ℤ this.index genesis_block_index
    then this
    else record { hash = block.header.parent_hash; index = pred_int64 this.index }

abbrev pub rosetta_peer : PeerInfo → Peer
rosetta_peer peer = record {
  peer_id = peer.address;
  metadata = (lit "Node ID", string peer.node_id) ∷ [];
}

pub record StatusAnswer : Type 0 where
  pub block : BlockIdentifier
  pub timestamp : ℤ
  pub peers : List Peer

-- The zero value of a block response; `UnixNano` of the zero time is out of range, and this is
-- what it comes out as.
abbrev pub zero_block : BlockResponse
zero_block = record {
  hash = [];
  header = record {
    height = 0;
    parent_hash = [];
    state_root_hash = [];
    timestamp_nanos = negsuc 6795364578871345151;
  };
  body = record { proposer = []; deploy_hashes = [] };
}

pub record Fetched : Type 0 where
  pub block : BlockResponse
  pub transfers : List TransferResponse

module _ (sdk : Sdk) where
  unfoldable pub status : M sdk.State StatusAnswer
  status = do
    block ← sdk.get_latest_block
    peers ← sdk.get_peers
    pure (record {
      block = block_identifier block;
      timestamp = milliseconds block;
      peers = map rosetta_peer peers;
    })

  unfoldable pub get_block_response : PartialBlockIdentifier → M sdk.State BlockResponse
  get_block_response id = elim id.hash [
    | some hash ↦ wrapping (lit ": could not get block by hash") (sdk.get_block_by_hash hash)
    | none ↦ elim id.index [
      | some index ↦
          wrapping (lit ": could not get block by height")
            (sdk.get_block_by_height (to_uint64 index))
      | none ↦ fail (text (lit "invalid block identifier"))
    ]
  ]

  -- The two tests on the fields of an identifier come one after the other: an index overrides a
  -- hash, and without either the variables keep their zero values.
  unfoldable pub fetch_by_hash : Option Text → Fetched → M sdk.State Fetched
  fetch_by_hash none old = pure old
  fetch_by_hash (some hash) old = do
    block ← wrapping (lit ": could not get block by hash") (sdk.get_block_by_hash hash)
    transfers ←
        wrapping (lit ": could not get block transfer by hash")
          (sdk.get_block_transfers_by_hash hash)
    pure (record { block = block; transfers = transfers })

  unfoldable pub fetch_by_index : Option ℤ → Fetched → M sdk.State Fetched
  fetch_by_index none old = pure old
  fetch_by_index (some index) old = do
    block ←
        wrapping (lit ": could not get block by height") (sdk.get_block_by_height (to_uint64 index))
    transfers ←
        wrapping (lit ": could not get block transfer by height")
          (sdk.get_block_transfers_by_height (to_uint64 index))
    pure (record { block = block; transfers = transfers })

  unfoldable pub fetch_latest : M sdk.State Fetched
  fetch_latest = do
    block ← wrapping (lit ": could not get block") sdk.get_latest_block
    transfers ← wrapping (lit ": could not get block") sdk.get_latest_block_transfers
    pure (record { block = block; transfers = transfers })

  unfoldable pub fetch : Option PartialBlockIdentifier → M sdk.State Fetched
  fetch none = fetch_latest
  fetch (some id) = do
    by_hash ← fetch_by_hash id.hash (record { block = zero_block; transfers = [] })
    fetch_by_index id.index by_hash

  -- The loop over the map of deploys, in the order in which the map is walked.
  unfoldable pub create_transactions :
      Dict (List TransferResponse) → BlockResponse → Text → M sdk.State (List Transaction)
  create_transactions [] block purse = pure []
  create_transactions ((deploy_hash, transfers) ∷ groups) block purse = do
    transaction ←
        wrapping (lit ": Failed to create rosetta transaction for deploy " ++ deploy_hash)
          (create_ros_transaction sdk deploy_hash transfers block purse)
    more ← create_transactions groups block purse
    pure (transaction ∷ more)

  -- Go walks a map in an order that is not specified: `order` lists the entries as they come.
  module _ (order : Dict (List TransferResponse) → Dict (List TransferResponse)) where
    -- What `Block` does with the block and the transfers that it has fetched.
    unfoldable pub assemble : Fetched → M sdk.State Block
    assemble f = do
      purse ←
          on_error (λ _. text (lit "failed to get validator purse"))
            (get_main_purse_from_public_key sdk f.block.body.proposer
              f.block.header.state_root_hash)
      transactions ←
          create_transactions (order (grouped f.transfers f.block.body.deploy_hashes)) f.block purse
      pure (record {
        block_identifier = block_identifier f.block;
        parent_block_identifier = parent_block_identifier f.block;
        timestamp = milliseconds f.block;
        transactions = transactions;
      })

    unfoldable pub block : Option PartialBlockIdentifier → M sdk.State Block
    block id = do fetched ← fetch id; assemble fetched

  unfoldable pub block_transaction : Option BlockIdentifier → Option Text → M sdk.State Transaction
  block_transaction id none = fail (text (lit "null pointer input"))
  block_transaction id (some transaction_hash) = do
    deploy ← wrapping (lit ": could not get deploy") (sdk.get_deploy transaction_hash)
    result ← lift (first_result deploy.execution_results)
    block ←
        wrapping (lit ": could not get deploy block")
          (get_block_response (record { hash = some result.block_hash; index = none }))
    at ← lift (deref id)
    transfers ← wrapping (lit ": could not get block") (sdk.get_block_transfers_by_hash at.hash)
    purse ←
        on_error (λ _. text (lit "failed to get validator purse BlockTransaction"))
          (get_main_purse_from_public_key sdk block.body.proposer block.header.state_root_hash)
    create_ros_transaction sdk deploy.deploy.hash (transfers_of deploy.deploy.hash transfers) block
        purse
