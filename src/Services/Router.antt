-- ===== src/Services/Router.antt =====
-- services/router.go, and the constructors of the services: all share one configuration and one
-- client. `endpoint` names the method of a service for each kind of request of the API; how the
-- Rosetta SDK reads a request from HTTP and checks it is not modelled.
pub mod Replies
pub mod Safety
pub mod State
use rosetta_casper.Common.{List, [], ◌∷◌, Option, Text, ℤ}
use rosetta_casper.Go.Outcome.{Outcome, ok, err, panic, M, lift}
use rosetta_casper.Go.Dict.{Dict}
use rosetta_casper.Rosetta.{
  Value, NetworkIdentifier, AccountIdentifier, Operation, Block, Transaction,
  AccountBalanceResponse,
}
use rosetta_casper.Configuration.{Configuration}
use rosetta_casper.ClientSdk.{Deploy}
use rosetta_casper.Services.Errors.{Answer, response, refused}
use rosetta_casper.Services.Client.{Client}
use rosetta_casper.Services.Endpoints
use rosetta_casper.Services.Endpoints.{
  AccountBalanceRequest, BlockRequest, BlockTransactionRequest, NetworkStatusResponse,
  NetworkOptionsResponse,
}
use rosetta_casper.Services.Construction.{
  Keypair, PublicKey, Preprocessed, Payloads, derive_pointer, preprocess_pointer,
  construction_metadata, construction_payloads, construction_combine, construction_hash,
  construction_parse, construction_submit,
}

pub record AccountApiService : Type 1 where
  pub config : Configuration
  pub client : Client

abbrev pub new_account_api_service : Configuration → Client → AccountApiService
new_account_api_service cfg client = record { config = cfg; client = client }

pub record BlockApiService : Type 1 where
  pub config : Configuration
  pub client : Client

abbrev pub new_block_api_service : Configuration → Client → BlockApiService
new_block_api_service cfg client = record { config = cfg; client = client }

pub record CallApiService : Type 1 where
  pub config : Configuration
  pub client : Client

abbrev pub new_call_api_service : Configuration → Client → CallApiService
new_call_api_service cfg client = record { config = cfg; client = client }

pub record ConstructionApiService : Type 1 where
  pub config : Configuration
  pub client : Client

abbrev pub new_construction_api_service : Configuration → Client → ConstructionApiService
new_construction_api_service cfg client = record { config = cfg; client = client }

pub record NetworkApiService : Type 1 where
  pub config : Configuration
  pub client : Client

abbrev pub new_network_api_service : Configuration → Client → NetworkApiService
new_network_api_service cfg client = record { config = cfg; client = client }

-- A service without state.
pub data MempoolApiService : Type 0 where
  mempool_api_service : MempoolApiService

abbrev pub new_mempool_api_service : MempoolApiService
new_mempool_api_service = mempool_api_service

pub record BlockchainRouter : Type 1 where
  pub network : NetworkApiService
  pub account : AccountApiService
  pub block : BlockApiService
  pub construction : ConstructionApiService
  pub mempool : MempoolApiService
  pub call : CallApiService

abbrev pub new_blockchain_router : Configuration → Client → BlockchainRouter
new_blockchain_router config client = record {
  network = new_network_api_service config client;
  account = new_account_api_service config client;
  block = new_block_api_service config client;
  construction = new_construction_api_service config client;
  mempool = new_mempool_api_service;
  call = new_call_api_service config client;
}

pub data Request : Type 0 where
  network_list network_options network_status : Request
  account_balance : AccountBalanceRequest → Request
  account_coins : Request
  block : BlockRequest → Request
  block_transaction : BlockTransactionRequest → Request
  call mempool mempool_transaction : Request
  derive : Option PublicKey → Request
  preprocess : Option NetworkIdentifier → List (Option Operation) → Request
  metadata : Dict Value → Request
  payloads : Dict Value → Request
  combine : Text → Request
  hash parse submit : Request

pub data Reply : Type 0 where
  networks : List NetworkIdentifier → Reply
  options : NetworkOptionsResponse → Reply
  status : NetworkStatusResponse → Reply
  balance : AccountBalanceResponse → Reply
  a_block : Block → Reply
  transaction : Transaction → Reply
  account : AccountIdentifier → Reply
  preprocessed : Preprocessed → Reply
  copied : Dict Value → Reply
  unsigned : Payloads → Reply
  signed : Text → Reply

abbrev replied : {A : Type 0} → (A → Reply) → Answer A → Answer Reply
replied f (response a) = response (f a)
replied f (refused e) = refused e

abbrev reply : {A : Type 0} → (A → Reply) → Outcome (Answer A) → Outcome (Answer Reply)
reply f (ok a) = ok (replied f a)
reply f (err e) = err e
reply f panic = panic

abbrev replying : {S A : Type 0} → (A → Reply) → M S (Answer A) → M S (Answer Reply)
replying f m s = (reply f (m s).0, (m s).1)

-- What the endpoints take from the Rosetta SDK, the Casper SDK and encoding/json.
pub record Foreign : Type 0 where
  pub rosetta_version : Text
  pub min_unix_epoch : ℤ
  pub keypair : Keypair
  pub marshal : Deploy → Outcome Text
  pub unmarshal : Text → Outcome Deploy

module _ (foreign : Foreign) (config : Configuration) (client : Client) where
  abbrev router : BlockchainRouter
  router = new_blockchain_router config client

  unfoldable pub endpoint : Request → M client.State (Answer Reply)
  endpoint network_list =
      lift
        (reply networks (ok (Endpoints.network_list router.network.client router.network.config)))
  endpoint network_options =
      lift (reply options (ok (Endpoints.network_options foreign.rosetta_version)))
  endpoint network_status =
      replying status (
        Endpoints.network_status router.network.client router.network.config foreign.min_unix_epoch)
  endpoint (account_balance request) =
      replying balance
        (Endpoints.account_balance router.account.client router.account.config request)
  endpoint account_coins = lift (ok (Endpoints.account_coins Reply))
  endpoint (block request) =
      replying a_block (Endpoints.block router.block.client router.block.config request)
  endpoint (block_transaction request) =
      replying transaction
        (Endpoints.block_transaction router.block.client router.block.config request)
  endpoint call = lift (ok (Endpoints.call Reply))
  endpoint mempool = lift (ok (Endpoints.mempool Reply))
  endpoint mempool_transaction = lift (ok (Endpoints.mempool_transaction Reply))
  endpoint (derive key) = lift (reply account (derive_pointer foreign.keypair key))
  endpoint (preprocess network operations) =
      lift (reply preprocessed (preprocess_pointer network operations))
  endpoint (metadata given) =
      lift (reply copied (ok (construction_metadata router.construction.config given)))
  endpoint (payloads given) = lift (reply unsigned (construction_payloads foreign.marshal given))
  endpoint (combine given) = lift (reply signed (construction_combine foreign.unmarshal given))
  endpoint hash = lift (ok (construction_hash Reply))
  endpoint parse = lift (ok (construction_parse Reply))
  endpoint submit = lift (ok (construction_submit Reply))

  -- The state of the client after requests, one after the other.
  unfoldable pub serve : List Request → client.State → client.State
  serve [] s = s
  serve (r ∷ rs) s = serve rs (endpoint r s).1
