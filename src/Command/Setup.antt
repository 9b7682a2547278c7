-- ===== src/Command/Setup.antt =====
-- cmd/run.go: what the server is that `runRunCmd` sets up from the environment.
use rosetta_casper.Common.{
  ℕ, List, [], ◌∷◌, ◌≡◌, refl, sym, some, Text, lit, text_eq, text_eq_iff, false, arith, ℤ,
}
use rosetta_casper.Go.Outcome.{Outcome, ok, map_error}
use rosetta_casper.Go.Outcome.Chain.{>>=-eq-ok, ok_injective}
use rosetta_casper.Go.Outcome.Run.{map_error-eq-ok}
use rosetta_casper.Go.Decimal.{amount_of}
use rosetta_casper.Go.Decimal.Laws.{amount_of-show_int}
use rosetta_casper.Go.Dict.{Dict}
use rosetta_casper.Casper.Sdk.{Sdk, TransferResponse}
use rosetta_casper.Configuration.{
  Mode, online, offline, load_configuration, mode_env, offline_text, online_text,
}
use rosetta_casper.Configuration.Load.{ModeOf, IsLoaded, load_configuration_iff}
use rosetta_casper.Services.Client.{Client, casper_client, nil_client}
use rosetta_casper.Services.Endpoints.Laws.{IsOffline, offline-IsOffline}
use rosetta_casper.Command.{
  AsserterOptions, asserter_options, rpc_address, client_of, Server, set_up,
}

module _ {Asserter : Type 0} (connect : Text → Sdk) (sum256 : List ℕ → List ℕ)
    (order : Dict (List TransferResponse) → Dict (List TransferResponse))
    (new_asserter : AsserterOptions → Outcome Asserter) where
  -- The client for a mode.
  abbrev pub ClientOf : Mode → Client → Type 1
  ClientOf online client = client ≡ casper_client (connect rpc_address) order
  ClientOf offline client = client ≡ nil_client sum256 order

  pub record IsServer (getenv : Text → Text) (server : Server) : Type 1 where
    pub loaded : IsLoaded getenv server.config
    pub asserter : Asserter
    pub asserted : new_asserter (asserter_options server.config) ≡ ok asserter
    pub client : ClientOf server.config.mode server.client
    pub one_network : (asserter_options server.config).networks ≡ server.config.network ∷ []
    pub digits : Text
    pub address : server.address ≡ b':' ∷ digits
    pub port : amount_of digits ≡ some server.config.port

  client_of-ClientOf :
      (m : Mode) {c : Client} → client_of connect sum256 order new_asserter m ≡ ok c → ClientOf m c
  client_of-ClientOf online e = sym (ok_injective _ _ e)
  client_of-ClientOf offline e = sym (ok_injective _ _ e)

  -- A server that is set up has the configuration that the environment names, gives the
  -- asserter of requests this network and no other, and listens on its port, whatever the host. Its client is the one for the fixed address,
  -- whatever the network, and offline the nil client.
  pub set_up-IsServer :
      (getenv : Text → Text) {server : Server}
      → set_up connect sum256 order new_asserter getenv ≡ ok server
      → IsServer getenv server
  unfolding set_up
  set_up-IsServer getenv e =
      let (cfg, loaded, e1) = >>=-eq-ok (map_error _ (load_configuration getenv)) _ e in
      let (asserter, asserted, e2) =
        >>=-eq-ok (map_error _ (new_asserter (asserter_options cfg))) _ e1 in
      let (client, made, e3) =
        >>=-eq-ok (client_of connect sum256 order new_asserter cfg.mode) _ e2 in
      rw (← (ok_injective _ _ e3)) (record {
        loaded = (load_configuration_iff getenv cfg).0 (map_error-eq-ok _ _ loaded);
        asserter = asserter;
        asserted = map_error-eq-ok _ _ asserted;
        client = client_of-ClientOf cfg.mode made;
        one_network = refl;
        digits = _;
        address = refl;
        port = amount_of-show_int cfg.port;
      })

  online-ne-offline : text_eq online_text offline_text ≡ false
  unfolding lit text_eq
  online-ne-offline = refl

  mode-offline : (value : Text) (m : Mode) → ModeOf value m → value ≡ offline_text → m ≡ offline
  mode-offline value m h e = ground (arith, online-ne-offline, text_eq_iff online_text offline_text)

  -- With the variable MODE set to OFFLINE, a server that is set up answers each request that would
  -- need the node that the endpoint is not available, so the nil client behind it is never used.
  pub set_up-IsOffline :
      (getenv : Text → Text) {server : Server}
      → getenv mode_env ≡ offline_text
      → set_up connect sum256 order new_asserter getenv ≡ ok server
      → (min_unix_epoch : ℤ) (s : server.client.State)
      → IsOffline server.client server.config min_unix_epoch s
  set_up-IsOffline getenv {server} given e min_unix_epoch =
      offline-IsOffline server.client server.config min_unix_epoch
        (mode-offline _ server.config.mode (set_up-IsServer getenv e).loaded.mode given)
