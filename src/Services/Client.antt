-- ===== src/Services/Client.antt =====
-- services/types.go: the interface `Client`, the client of package casper behind it, and the nil
-- client that cmd/run.go hands over where the mode is offline.
use rosetta_casper.Common.{ℕ, List, Option, Text}
use rosetta_casper.Go.Outcome.{M, crash}
use rosetta_casper.Go.Dict.{Dict}
use rosetta_casper.Rosetta.{
  AccountIdentifier, BlockIdentifier, PartialBlockIdentifier, Block, Transaction,
  AccountBalanceResponse,
}
use rosetta_casper.Casper.Sdk.{Sdk, TransferResponse}
use rosetta_casper.Casper.Block as Blocks
use rosetta_casper.Casper.Block.{StatusAnswer}
use rosetta_casper.Casper.Balance

pub record Client : Type 1 where
  pub State : Type 0
  pub status : M State StatusAnswer
  pub block : Option PartialBlockIdentifier → M State Block
  pub block_transaction : Option BlockIdentifier → Option Text → M State Transaction
  pub balance :
      Option AccountIdentifier → Option PartialBlockIdentifier → M State AccountBalanceResponse

abbrev pub casper_client :
    Sdk → (Dict (List TransferResponse) → Dict (List TransferResponse)) → Client
casper_client sdk order = record {
  State = sdk.State;
  status = Blocks.status sdk;
  block = Blocks.block sdk order;
  block_transaction = Blocks.block_transaction sdk;
  balance = Balance.balance_pointer sdk;
}

-- The node behind a nil pointer: each call of it reads the field `RpcClient` through the pointer.
abbrev pub nil_sdk : (List ℕ → List ℕ) → Sdk
nil_sdk sum256 = record {
  State = Unit {0};
  get_latest_block = crash;
  get_peers = crash;
  get_block_by_hash = λ _. crash;
  get_block_by_height = λ _. crash;
  get_latest_block_transfers = crash;
  get_block_transfers_by_hash = λ _. crash;
  get_block_transfers_by_height = λ _. crash;
  get_deploy = λ _. crash;
  get_state_item = λ _ _ _. crash;
  get_account_balance = λ _ _. crash;
  read_payment_amount = λ _. crash;
  sum256 = sum256;
}

-- Its methods run as on any other client, up to their first call of the node.
abbrev pub nil_client :
    (List ℕ → List ℕ) → (Dict (List TransferResponse) → Dict (List TransferResponse)) → Client
nil_client sum256 order = casper_client (nil_sdk sum256) order
