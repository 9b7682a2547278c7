-- ===== src/Command/Serving.antt =====
-- cmd/run.go over services/ and casper/: what the server that `runRunCmd` sets up replies.
use rosetta_casper.Common.{◌≡◌, refl, sym, subst, ◌∙◌, ap, fun_ext, ℕ, List, map, none, Text}
use rosetta_casper.Go.Outcome.{Outcome, ok}
use rosetta_casper.Go.Dict.{Dict}
use rosetta_casper.Casper.Sdk.{Sdk, TransferResponse}
use rosetta_casper.Casper.Ledger.{Ledger, Answers}
use rosetta_casper.Casper.Ledger.Blocks.{IsWalk}
use rosetta_casper.Configuration.{Mode, online, offline, Configuration}
use rosetta_casper.Configuration.Load.{IsLoaded}
use rosetta_casper.Services.Client.{Client, nil_sdk}
use rosetta_casper.Services.Endpoints.Ledger.{shown}
use rosetta_casper.Services.Router.{Request, Foreign}
use rosetta_casper.Services.Router.Replies.{seen, serve_all, data_for, serve_all-eq-map}
use rosetta_casper.Command.{AsserterOptions, rpc_address, Server, set_up}
use rosetta_casper.Command.Setup.{ClientOf, set_up-IsServer}

-- A chain that tells nothing, as the nil client sees it.
abbrev untold : Ledger
untold = record {
  latest_block = none;
  latest_transfers = none;
  peers = none;
  block_by_hash = λ h. none;
  block_by_height = λ n. none;
  transfers_by_hash = λ h. none;
  transfers_by_height = λ n. none;
  deploy = λ h. none;
  state_item = λ root key path. none;
  account_balance = λ root purse. none;
  payment_amount = λ d. none;
}

untold-Answers : (sum256 : List ℕ → List ℕ) → Answers untold (nil_sdk sum256)
untold-Answers sum256 = record {
  latest_block = λ s. refl;
  latest_transfers = λ s. refl;
  peers = λ s. refl;
  block_by_hash = λ h s. refl;
  block_by_height = λ n s. refl;
  transfers_by_hash = λ h s. refl;
  transfers_by_height = λ n s. refl;
  deploy = λ h s. refl;
  state_item = λ root key path s. refl;
  account_balance = λ root purse s. refl;
  payment_amount = λ d s. refl;
}

-- Offline, the chain plays no part.
data_for_offline :
    (foreign : Foreign) (config : Configuration) (l l' : Ledger) (sum256 sum256' : List ℕ → List ℕ)
    → config.mode ≡ offline
    → (r : Request) → data_for foreign config l sum256 r ≡ data_for foreign config l' sum256' r
unfolding data_for
data_for_offline foreign config l l' sum256 sum256' off Request.network_status = rw off refl
data_for_offline foreign config l l' sum256 sum256' off (Request.account_balance r) = rw off refl
data_for_offline foreign config l l' sum256 sum256' off (Request.block r) = rw off refl
data_for_offline foreign config l l' sum256 sum256' off (Request.block_transaction r) = rw off refl
data_for_offline foreign config l l' sum256 sum256' off _ = refl

module _ {Asserter : Type 0} (connect : Text → Sdk) (sum256 : List ℕ → List ℕ)
    (order : Dict (List TransferResponse) → Dict (List TransferResponse)) (walk : IsWalk order)
    (new_asserter : AsserterOptions → Outcome Asserter) {ledger : Ledger}
    (answers : Answers ledger (connect rpc_address)) (foreign : Foreign) (rs : List Request) where
  client-Replies :
      (config : Configuration) (m : Mode)
      → config.mode ≡ m
      → (client : Client) → ClientOf connect sum256 order new_asserter m client
      → (s : client.State)
      → map (shown seen) (serve_all foreign config client rs s)
        ≡ map (data_for foreign config ledger (connect rpc_address).sum256) rs
  client-Replies config online on client e =
      subst
        (λ (c : Client).
          (s : c.State)
          → map (shown seen) (serve_all foreign config c rs s)
            ≡ map (data_for foreign config ledger (connect rpc_address).sum256) rs)
        (sym e) (serve_all-eq-map foreign config (connect rpc_address) ledger order answers walk rs)
  client-Replies config offline off client e =
      subst
        (λ (c : Client).
          (s : c.State)
          → map (shown seen) (serve_all foreign config c rs s)
            ≡ map (data_for foreign config ledger (connect rpc_address).sum256) rs)
        (sym e)
        λ s.
          serve_all-eq-map foreign config (nil_sdk sum256) untold order (untold-Answers sum256) walk
            rs s
          ∙ ap (λ f. map f rs)
              (fun_ext (data_for_offline foreign config untold ledger sum256 _ off))

  -- A server that is set up, in either mode, has the configuration that the environment names, and where the node at the fixed address answers from one
  -- state of the chain and walks over maps give their entries in some order, replies to any sequence
  -- of requests with the data that are replied to each of them alone under that configuration: online what the state of the chain determines, offline nothing to the requests
  -- that need the chain.
  pub set_up-Replies :
      (getenv : Text → Text) {server : Server}
      → set_up connect sum256 order new_asserter getenv ≡ ok server
      → (s : server.client.State)
      → IsLoaded getenv server.config
        × (map (shown seen) (serve_all foreign server.config server.client rs s)
            ≡ map (data_for foreign server.config ledger (connect rpc_address).sum256) rs)
  set_up-Replies getenv {server} e s =
      let set = set_up-IsServer connect sum256 order new_asserter getenv e in
      (set.loaded, client-Replies server.config server.config.mode refl server.client set.client s)
