-- ===== src/Command.antt =====
-- cmd/run.go: what `runRunCmd` sets up before it serves. Its life as a server, with the signals of
-- cmd/root.go, stands in a module of its own.
pub mod Life
pub mod Serving
pub mod Setup
pub mod Main
use rosetta_casper.Common.{ℕ, ◌*◌, List, [], ◌∷◌, Bool, Text, lit, ◌++◌, ℤ}
use rosetta_casper.Go.Outcome.{Outcome, ok, Error, wrap, map_error}
use rosetta_casper.Go.Outcome.Chain.{◌>>=◌}
use rosetta_casper.Go.Decimal.{show_int}
use rosetta_casper.Rosetta.{NetworkIdentifier}
use rosetta_casper.Go.Dict.{Dict}
use rosetta_casper.Casper.Types
use rosetta_casper.Casper.Sdk.{Sdk, TransferResponse}
use rosetta_casper.Configuration.{Mode, online, offline, Configuration, load_configuration}
use rosetta_casper.Services.Client.{Client, casper_client, nil_client}

-- What `asserter.NewServer` of the Rosetta SDK is given.
pub record AsserterOptions : Type 0 where
  pub operation_types : List Text
  pub historical_balance_lookup : Bool
  pub networks : List NetworkIdentifier
  pub call_methods : List Text
  pub mempool_coins : Bool

abbrev pub asserter_options : Configuration → AsserterOptions
asserter_options cfg = record {
  operation_types = Types.operation_types;
  historical_balance_lookup = Types.historical_balance_supported;
  networks = cfg.network ∷ [];
  call_methods = Types.call_methods;
  mempool_coins = Types.include_mempool_coins;
}

-- The address that `NewClient` connects to.
abbrev pub rpc_address : Text
rpc_address = lit "http://45.32.28.180:7777/rpc"

-- `time.Second`, in nanoseconds.
abbrev second : ℕ
second = 1000000000

abbrev pub read_timeout : ℕ
read_timeout = 5 * second

abbrev pub write_timeout : ℕ
write_timeout = 120 * second

abbrev pub idle_timeout : ℕ
idle_timeout = 30 * second

-- A server that is ready to listen. Its handler is the router, which the configuration and the
-- client make, in two middlewares of the Rosetta SDK.
pub record Server : Type 1 where
  pub config : Configuration
  pub client : Client
  pub address : Text
  pub read_timeout : ℕ
  pub write_timeout : ℕ
  pub idle_timeout : ℕ

-- `fmt.Errorf("%w" + t, err)`.
abbrev wrapped {ℓ} : {A : Type ℓ} → Text → Outcome A → Outcome A
wrapped t o = map_error (λ e. wrap e t) o

-- The node at an address, the order in which Go walks a map, and the asserter are parameters.
module _ {Asserter : Type 0} (connect : Text → Sdk) (sum256 : List ℕ → List ℕ)
    (order : Dict (List TransferResponse) → Dict (List TransferResponse))
    (new_asserter : AsserterOptions → Outcome Asserter) where
  -- `NewClient` never fails.
  abbrev pub new_client : Outcome Client
  new_client = ok (casper_client (connect rpc_address) order)

  abbrev pub client_of : Mode → Outcome Client
  client_of online = wrapped (lit ": cannot initialize casper client") new_client
  client_of offline = ok (nil_client sum256 order)

  unfoldable pub set_up : (Text → Text) → Outcome Server
  set_up getenv = do
    cfg ← wrapped (lit ": unable to load configuration") (load_configuration getenv)
    _ ← wrapped (lit ": could not initialize server asserter") (new_asserter (asserter_options cfg))
    client ← client_of cfg.mode
    ok (record {
      config = cfg;
      client = client;
      address = b':' ∷ show_int cfg.port;
      read_timeout = read_timeout;
      write_timeout = write_timeout;
      idle_timeout = idle_timeout;
    })
