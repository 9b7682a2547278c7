-- ===== src/Casper/Transaction/Built.antt =====
-- casper/client.go: what a transaction that `CreateRosTransaction` returns is made of.
use rosetta_casper.Common.{◌≡◌, refl, List, Text}
use rosetta_casper.Go.Outcome.{Outcome, ok}
use rosetta_casper.Go.Outcome.Chain.{ok_injective}
use rosetta_casper.Go.Outcome.Run.{call-eq-ok, continue-eq-ok}
use rosetta_casper.Rosetta.{Transaction}
use rosetta_casper.Casper.Sdk.{Sdk, TransferResponse, BlockResponse, DeployResult, ExecutionResult}
use rosetta_casper.Casper.Operations.{result_operations}
use rosetta_casper.Casper.Purse.{get_main_purse_from_public_key}
use rosetta_casper.Casper.Transaction.{first_result, payment_amount, create_ros_transaction}

module _ (sdk : Sdk) where
  -- A transaction with the hash `h`, whose operations are those of the transfers `ts` and of the
  -- first result of the deploy that the node gives for the hash.
  pub record IsBuilt (h : Text) (ts : List TransferResponse) (t : Transaction) : Type 0 where
    pub asked : sdk.State
    pub deploy : DeployResult
    pub got_deploy : (sdk.get_deploy h asked).0 ≡ ok deploy
    pub result : ExecutionResult
    pub first : first_result deploy.execution_results ≡ ok result
    pub paid : sdk.State
    pub payment : Text
    pub paying : (payment_amount sdk deploy.deploy paid).0 ≡ ok payment
    pub signer : Text
    pub validator : Text
    pub identifier : t.transaction_identifier ≡ h
    pub operations : result_operations signer validator payment ts result ≡ ok t.operations

  pub create_ros_transaction-IsBuilt :
      (h : Text) (ts : List TransferResponse) (b : BlockResponse) (purse : Text) (s : sdk.State)
      {t : Transaction}
      → (create_ros_transaction sdk h ts b purse s).0 ≡ ok t
      → IsBuilt h ts t
  unfolding create_ros_transaction
  create_ros_transaction-IsBuilt h ts b purse s e =
      let got : Outcome DeployResult × sdk.State = sdk.get_deploy h s in
      let (deploy, e0, e1) = call-eq-ok got _ _ e in
      let (result, first, e2) = continue-eq-ok (first_result deploy.execution_results) _ got.1 e1 in
      let signed : Outcome Text × sdk.State =
        get_main_purse_from_public_key sdk deploy.deploy.account b.header.state_root_hash got.1 in
      let (signer, _, e3) = call-eq-ok signed _ _ e2 in
      let paid : Outcome Text × sdk.State = payment_amount sdk deploy.deploy signed.1 in
      let (payment, paying, e4) = continue-eq-ok paid.0 _ paid.1 e3 in
      let (os, built, e5) =
        continue-eq-ok (result_operations signer purse payment ts result) _ paid.1 e4 in
      rw (← (ok_injective _ _ e5)) (record {
        asked = s;
        deploy = deploy;
        got_deploy = e0;
        result = result;
        first = first;
        paid = signed.1;
        payment = payment;
        paying = paying;
        signer = signer;
        validator = purse;
        identifier = refl;
        operations = built;
      })
