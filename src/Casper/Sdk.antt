-- ===== src/Casper/Sdk.antt =====
-- What the program takes from casper-golang-sdk and from blake2b: the data of the answers, with the
-- fields that it reads, and the calls. A field of pointer type is an `Option`. Where the repository
-- does not show whether a field is a pointer (`Success`, `ModuleBytes`, `Account`), `none` is the
-- nil pointer that reading it through would make panic, and a plain struct is always `some`.
use rosetta_casper.Common.{ℕ, List, Option, Text, ℤ}
use rosetta_casper.Go.Outcome.{M}

pub record BlockHeader : Type 0 where
  pub height : ℕ
  pub parent_hash : Text
  pub state_root_hash : Text
  -- `Timestamp.UnixNano()`
  pub timestamp_nanos : ℤ

pub record BlockBody : Type 0 where
  pub proposer : Text
  pub deploy_hashes : List Text

pub record BlockResponse : Type 0 where
  pub hash : Text
  pub header : BlockHeader
  pub body : BlockBody

pub record PeerInfo : Type 0 where
  pub address : Text
  pub node_id : Text

pub record TransferResponse : Type 0 where
  pub deploy_hash : Text
  pub source : Text
  pub target : Text
  pub amount : Text
  -- `From` and `To`
  pub sender : Text
  pub receiver : Text

pub record SuccessResult : Type 0 where
  pub cost : Text
  -- `none` is the nil slice.
  pub transfers : Option (List Text)

pub record FailureResult : Type 0 where
  pub cost : Text

pub record ExecutionResult : Type 0 where
  pub block_hash : Text
  pub success : Option SuccessResult
  pub failure : Option FailureResult

pub record ModuleBytes : Type 0 where
  -- `len(Args)`
  pub args_count : ℕ

pub record Deploy : Type 0 where
  pub hash : Text
  pub account : Text
  pub module_bytes : Option ModuleBytes

pub record DeployResult : Type 0 where
  pub deploy : Deploy
  pub execution_results : List ExecutionResult

pub record Account : Type 0 where
  pub main_purse : Text

pub record StoredValue : Type 0 where
  pub account : Option Account

-- The methods of `RpcClient`, over the state of the node, and `blake2b.Sum256`.
pub record Sdk : Type 1 where
  pub State : Type 0
  pub get_latest_block : M State BlockResponse
  pub get_peers : M State (List PeerInfo)
  pub get_block_by_hash : Text → M State BlockResponse
  pub get_block_by_height : ℕ → M State BlockResponse
  pub get_latest_block_transfers : M State (List TransferResponse)
  pub get_block_transfers_by_hash : Text → M State (List TransferResponse)
  pub get_block_transfers_by_height : ℕ → M State (List TransferResponse)
  pub get_deploy : Text → M State DeployResult
  pub get_state_item : Text → Text → List Text → M State StoredValue
  pub get_account_balance : Text → Text → M State ℤ
  pub read_payment_amount : Deploy → M State Text
  pub sum256 : List ℕ → List ℕ
