-- ===== src/Tests/Router.antt =====
-- The endpoints together, and sequences of requests, at concrete data.
use rosetta_casper.Common.{◌≡◌, ◌≢◌, ◌↔◌, true, List, [], ◌∷◌, map, none, lit, pos, some}
use mathlib.Core.List.Permᴰ
use rosetta_casper.Go.Outcome.{err, panic, text}
use rosetta_casper.Go.Dict.{Dict}
use rosetta_casper.Rosetta.{Value, string}
use rosetta_casper.Configuration.{online}
use rosetta_casper.Services.Client.{casper_client}
use rosetta_casper.Services.Construction.{construction_payloads, transfer_id_key}
use rosetta_casper.Services.Construction.Crashes.{
  crashes_payloads, construction_payloads-eq-panic_iff,
}
use rosetta_casper.Services.Endpoints.Ledger.{shown}
use rosetta_casper.Services.Router.{Foreign, Request, account_balance, block, call, serve, endpoint}
use rosetta_casper.Services.Router.State.{effect, serve-effect}
use rosetta_casper.Services.Router.Safety.{endpoint-ne-panic}
use rosetta_casper.Services.Router.Replies.{seen, serve_all, data_for, serve_all-eq-map}
use rosetta_casper.Tests.Node.{node}
use rosetta_casper.Tests.Healthy.{ada, ada-IsAddress, flaky, flaky-IsServing}
use rosetta_casper.Tests.Ledgers.{ledger, answers}
use rosetta_casper.Tests.Service.{marshal, keypair, alice, online_testing}

abbrev pub foreign : Foreign
foreign = record {
  rosetta_version = lit "1.4.10";
  min_unix_epoch = pos 946684800000;
  keypair = keypair;
  marshal = marshal;
  unmarshal = λ _. err (text (lit "invalid"));
}

abbrev pub requests : List Request
requests =
    account_balance (record { account_identifier = some alice; block_identifier = none })
    ∷ call
    ∷ block (record { block_identifier = none })
    ∷ []

serve-effect_example :
    serve foreign online_testing (casper_client node (λ m. m)) requests 0
    ≡ effect (casper_client node (λ m. m)) online requests 0
serve-effect_example = serve-effect foreign online_testing (casper_client node (λ m. m)) requests 0

-- Metadata with a transfer id only.
abbrev numbered : Dict Value
numbered = (transfer_id_key, string (lit "7")) ∷ []

construction_payloads-eq-panic_iff_example :
    (construction_payloads marshal numbered ≡ panic) ↔ (crashes_payloads numbered ≡ true)
construction_payloads-eq-panic_iff_example =
    construction_payloads-eq-panic_iff marshal (λ d e. cc) numbered

endpoint-ne-panic_example :
    (endpoint foreign online_testing
      (casper_client flaky (λ m. m))
      (account_balance (record { account_identifier = some ada; block_identifier = none }))
      0).0
    ≢ panic
endpoint-ne-panic_example =
    endpoint-ne-panic foreign online_testing flaky (λ m. m) flaky-IsServing (λ p m h. h) (λ d e. cc)
      (λ t e. cc)
      (account_balance (record { account_identifier = some ada; block_identifier = none }))
      (ada-IsAddress true) 0

serve_all-eq-map_example :
    map (shown seen) (serve_all foreign online_testing (casper_client node (λ m. m)) requests 0)
    ≡ map (data_for foreign online_testing ledger node.sum256) requests
serve_all-eq-map_example =
    serve_all-eq-map foreign online_testing node ledger (λ m. m) answers Permᴰ.refl requests 0
