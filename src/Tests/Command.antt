-- ===== src/Tests/Command.antt =====
-- The set-up of the server, its life, and the program at concrete data.
use rosetta_casper.Common.{
  ◌≡◌, refl, map, List, [], ◌∷◌, Option, none, some, true, Text, lit, text_eq, text_eq_refl, pos,
  if◌then◌else◌,
}
use rosetta_casper.Go.Outcome.{Outcome, ok, Error, text}
use rosetta_casper.Go.Decimal.{atoi, show_int}
use rosetta_casper.Casper.Sdk.{Sdk}
use rosetta_casper.Configuration.Load.{IsLoaded}
use rosetta_casper.Configuration.{read_mode, read_network, read_port, load_configuration}
use rosetta_casper.Services.Endpoints.Laws.{IsOffline}
use rosetta_casper.Command.{AsserterOptions, Server, set_up}
use mathlib.Core.List.Permᴰ
use rosetta_casper.Services.Client.{casper_client}
use rosetta_casper.Services.Endpoints.Ledger.{shown}
use rosetta_casper.Services.Router.Replies.{seen, serve_all, data_for}
use rosetta_casper.Tests.Ledgers.{ledger, answers}
use rosetta_casper.Tests.Router.{foreign, requests}
use rosetta_casper.Command.Serving.{set_up-Replies}
use rosetta_casper.Command.Setup.{IsServer, set_up-IsServer, set_up-IsOffline}
use rosetta_casper.Command.Life.{
  Event, signal, cancel, listen_closed, shutdown_called, shutdown_returned, waited, Process,
  started, halted, ended, finished, closed, step, run, IsReachable, start, after,
}
use rosetta_casper.Command.Main.{
  Subcommand, RootCommand, main, name_of, Dispatches, IsFailed, served, main-IsFailed,
}
use rosetta_casper.Command.Life.Results.{IsOver, exit-IsOver}
use rosetta_casper.Command.Life.Progress.{has_returned, steps_left, run-steps_left}
use rosetta_casper.Tests.Node.{node}
use rosetta_casper.Tests.Service.{environment, testing, crashing, online_testing}

abbrev connect : Text → Sdk
connect _ = node

abbrev accepting : AsserterOptions → Outcome (Unit {0})
accepting _ = ok tt

abbrev offline_server : Server
offline_server = record {
  config = testing;
  client = crashing;
  address = lit ":8081";
  read_timeout = 5000000000;
  write_timeout = 120000000000;
  idle_timeout = 30000000000;
}

set_up-IsServer_example : IsServer connect (λ bs. bs) (λ m. m) accepting environment offline_server
unfolding set_up load_configuration read_mode read_network read_port atoi show_int lit text_eq
set_up-IsServer_example = set_up-IsServer connect (λ bs. bs) (λ m. m) accepting environment refl

set_up-IsOffline_example : IsOffline crashing testing (pos 0) tt
unfolding set_up load_configuration read_mode read_network read_port atoi show_int lit text_eq
set_up-IsOffline_example =
    set_up-IsOffline connect (λ bs. bs) (λ m. m) accepting environment {server = offline_server}
      refl refl (pos 0) tt

abbrev online_environment : Text → Text
online_environment name = if text_eq name (lit "MODE") then lit "ONLINE" else environment name

abbrev online_server : Server
online_server = record offline_server {
  config = online_testing;
  client = casper_client node (λ m. m);
}

set_up-Replies_example :
    IsLoaded online_environment online_testing
    × (map (shown seen) (serve_all foreign online_testing (casper_client node (λ m. m)) requests 4)
        ≡ map (data_for foreign online_testing ledger node.sum256) requests)
unfolding set_up load_configuration read_mode read_network read_port atoi show_int lit text_eq
set_up-Replies_example =
    set_up-Replies connect (λ bs. bs) (λ m. m) Permᴰ.refl accepting answers foreign requests
      online_environment {server = online_server} refl 4

-- A signal, and the shutdown that follows.
abbrev by_signal : List Event
by_signal = signal ∷ cancel ∷ shutdown_called ∷ listen_closed ∷ shutdown_returned none ∷ waited ∷ []

abbrev stopped : Process
stopped = record {
  handler = finished;
  signal_received = true;
  ctx_done = true;
  listener = ended (text (lit "http: Server closed"));
  closer = closed;
  group_error = some (text (lit "http: Server closed"));
  exit = some (some halted);
}

signalled_lem : run by_signal started ≡ some stopped
unfolding run step
signalled_lem = refl

stopped-IsReachable : IsReachable stopped
unfolding step
stopped-IsReachable = after waited refl (
    after (shutdown_returned none) refl (
      after listen_closed refl
        (after shutdown_called refl (after cancel refl (after signal refl start)))))

exit-IsOver_example : (e : Error) × (some halted ≡ some e) × IsOver stopped e
exit-IsOver_example = exit-IsOver stopped-IsReachable refl

-- The port is taken.
abbrev taken : Process
taken = record started {
  ctx_done = true;
  listener = ended (text (lit "address already in use"));
  group_error = some (text (lit "address already in use"));
}

run-steps_left_example : has_returned (run (steps_left taken.closer taken.listener) taken) ≡ true
run-steps_left_example = run-steps_left taken refl refl

-- Cobra, for commands without flags.
abbrev by_name : List Text → List Subcommand → Option Error
by_name args [] = some (text (lit "unknown command"))
by_name [] (c ∷ cs) = none
by_name (name ∷ args) (c ∷ cs) =
    if text_eq (name_of c.use_line) name then c.run_e args else by_name (name ∷ args) cs

abbrev executing : RootCommand → List Text → Option Error
executing root args = by_name args root.commands

executing-Dispatches : Dispatches executing
executing-Dispatches root c is only = rw only (rw (text_eq_refl (name_of c.use_line)) refl)

-- A command that a signal stops.
abbrev halting : List Text → Option Error
halting _ = some halted

main-IsFailed_example :
    IsFailed connect
      (λ bs. bs)
      (λ m. m)
      accepting
      environment
      (main executing halting (lit "run" ∷ []))
unfolding set_up load_configuration read_mode read_network read_port atoi show_int lit text_eq
main-IsFailed_example =
    main-IsFailed connect (λ bs. bs) (λ m. m) accepting environment executing halting
      executing-Dispatches (served offline_server stopped refl stopped-IsReachable refl)
