-- ===== src/Services/Endpoints.antt =====
-- services/{account,block,call,mempool,network}_service.go: the endpoints that read the chain.
pub mod Laws
pub mod Ledger
pub mod Published
use rosetta_casper.Common.{
  ℕ, Bool, true, false, List, [], ◌∷◌, Option, none, some, Text, lit, if◌then◌else◌, ℤ, ltb_ℤ,
}
use rosetta_casper.Go.Outcome
use rosetta_casper.Go.Outcome.{Outcome, ok, M, pure, ◌>>=◌}
use rosetta_casper.Rosetta
use rosetta_casper.Rosetta.{
  AccountIdentifier, BlockIdentifier, PartialBlockIdentifier, NetworkIdentifier, Transaction,
  AccountBalanceResponse, OperationStatus, Peer,
}
use rosetta_casper.Casper.Types
use rosetta_casper.Casper.Block.{StatusAnswer}
use rosetta_casper.Configuration.{Mode, online, offline, Configuration, middleware_version}
use rosetta_casper.Services.Errors.{
  Error, Answer, response, refused, answer, wrap_err, errors, err_unimplemented,
  err_unavailable_offline, err_rpc_client, err_block_orphaned, err_rpc_client_not_ready,
  err_rpc_client_block, err_rpc_client_transaction,
}
use rosetta_casper.Services.Client.{Client}

-- The first test of an endpoint that needs the node.
abbrev pub when_online : {S A : Type 0} → Mode → M S (Answer A) → M S (Answer A)
when_online online m = m
when_online offline m = pure (refused err_unavailable_offline)

-- A call of the client, with its error turned into one of the service.
abbrev pub calling : {S A : Type 0} → (Outcome.Error → Error) → M S A → M S (Answer A)
calling f m s = (answer f (m s).0, (m s).1)

pub record AccountBalanceRequest : Type 0 where
  pub account_identifier : Option AccountIdentifier
  pub block_identifier : Option PartialBlockIdentifier

pub record BlockRequest : Type 0 where
  pub block_identifier : Option PartialBlockIdentifier

pub record BlockTransactionRequest : Type 0 where
  pub block_identifier : Option BlockIdentifier
  pub transaction_identifier : Option Text

pub record NetworkStatusResponse : Type 0 where
  pub current_block_identifier : BlockIdentifier
  pub current_block_timestamp : ℤ
  pub genesis_block_identifier : BlockIdentifier
  pub peers : List Peer

pub record NetworkOptionsResponse : Type 0 where
  pub node_version : Text
  pub rosetta_version : Text
  pub middleware_version : Text
  pub errors : List Error
  pub operation_types : List Text
  pub operation_statuses : List OperationStatus
  pub historical_balance_lookup : Bool
  pub call_methods : List Text

-- `ErrBlockOrphaned` for an orphaned block, and another error for all else.
abbrev pub orphaned_or : Error → Outcome.Error → Error
orphaned_or other e =
    if Outcome.is_block_orphaned e
    then wrap_err err_block_orphaned (some e)
    else wrap_err other (some e)

-- An endpoint that is not implemented.
abbrev pub unimplemented : {A : Type 0} → Answer A
unimplemented = refused (wrap_err err_unimplemented none)

module _ (client : Client) (config : Configuration) where
  unfoldable pub account_balance :
      AccountBalanceRequest → M client.State (Answer AccountBalanceResponse)
  account_balance request = when_online config.mode (
      calling (λ e. wrap_err err_rpc_client (some e))
        (client.balance request.account_identifier request.block_identifier))

  unfoldable pub block : BlockRequest → M client.State (Answer Rosetta.Block)
  block request =
      when_online config.mode
        (calling (orphaned_or err_rpc_client_block) (client.block request.block_identifier))

  unfoldable pub block_transaction : BlockTransactionRequest → M client.State (Answer Transaction)
  block_transaction request = when_online config.mode (
      calling (orphaned_or err_rpc_client_transaction)
        (client.block_transaction request.block_identifier request.transaction_identifier))

  -- `asserter.MinUnixEpoch` is a constant of the Rosetta SDK.
  module _ (min_unix_epoch : ℤ) where
    abbrev pub checked : Answer StatusAnswer → Answer NetworkStatusResponse
    checked (refused e) = refused e
    checked (response status) =
        if ltb_ℤ status.timestamp min_unix_epoch
        then refused err_rpc_client_not_ready
        else response (record {
          current_block_identifier = status.block;
          current_block_timestamp = status.timestamp;
          genesis_block_identifier = config.genesis_block_identifier;
          peers = status.peers;
        })

    unfoldable pub network_status : M client.State (Answer NetworkStatusResponse)
    network_status = when_online config.mode do
      status ← calling (λ e. wrap_err err_rpc_client (some e)) client.status
      pure (checked status)

  unfoldable pub network_list : Answer (List NetworkIdentifier)
  network_list = response (config.network ∷ [])

-- `types.RosettaAPIVersion` is a constant of the Rosetta SDK.
unfoldable pub network_options : Text → Answer NetworkOptionsResponse
network_options rosetta_version = response (record {
  node_version = Types.node_version;
  rosetta_version = rosetta_version;
  middleware_version = middleware_version;
  errors = errors;
  operation_types = Types.operation_types;
  operation_statuses = Types.operation_statuses;
  historical_balance_lookup = Types.historical_balance_supported;
  call_methods = Types.call_methods;
})

-- The endpoints that nothing is behind, each with a response of some type.
module _ (A : Type 0) where
  unfoldable pub account_coins : Answer A
  account_coins = unimplemented

  unfoldable pub call : Answer A
  call = unimplemented

  unfoldable pub mempool : Answer A
  mempool = unimplemented

  unfoldable pub mempool_transaction : Answer A
  mempool_transaction = unimplemented
