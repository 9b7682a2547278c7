-- ===== src/Casper/Transaction/Single.antt =====
-- casper/client.go: what `CreateOperation` builds for one transfer.
use rosetta_casper.Common.{
  ◌≡◌, refl, sym, ◌∙◌, true, List, [], ◌∷◌, Option, none, some, arith, Text, pos, length, All,
}
use rosetta_casper.Go.Outcome.{Outcome, ok, panic}
use rosetta_casper.Go.Outcome.Chain.{ok_injective}
use rosetta_casper.Go.Outcome.Run.{call-eq-ok, continue-eq-ok}
use rosetta_casper.Go.Decimal.{is_decimal}
use rosetta_casper.Rosetta.{Operation}
use rosetta_casper.Casper.Types.{success_status, failure_status}
use rosetta_casper.Casper.Sdk.{Sdk, TransferResponse, DeployResult, SuccessResult, ExecutionResult}
use rosetta_casper.Casper.Operations.Indices.{ArePlaced}
use rosetta_casper.Casper.Operations.Conservation.{total, total-pair}
use rosetta_casper.Casper.Transaction.{last_status, create_operation}

-- The status of one result.
abbrev pub status_of : SuccessResult → Text
status_of success = elim success.transfers [ none ↦ failure_status | some _ ↦ success_status ]

-- Each result holds a success, and the last of them says `status`.
pub data EndsIn : Text → List ExecutionResult → Text → Type 0 where
  over : (status : Text) → EndsIn status [] status
  next :
      {before status : Text} {rs : List ExecutionResult} (r : ExecutionResult)
      (success : SuccessResult)
      → r.success ≡ some success
      → EndsIn (status_of success) rs status
      → EndsIn before (r ∷ rs) status

after_result : List ExecutionResult → Option SuccessResult → Outcome Text
after_result rs none = panic
after_result rs (some success) = last_status (status_of success) rs

last_status-cons :
    (before : Text) (r : ExecutionResult) (rs : List ExecutionResult)
    → last_status before (r ∷ rs) ≡ after_result rs r.success
unfolding last_status after_result
last_status-cons before r rs = ground arith

after_result-eq-ok :
    (rs : List ExecutionResult) (o : Option SuccessResult) {status : Text}
    → after_result rs o ≡ ok status
    → (success : SuccessResult) × (o ≡ some success)
      × (last_status (status_of success) rs ≡ ok status)
unfolding after_result
after_result-eq-ok rs none e = cc
after_result-eq-ok rs (some success) e = (success, refl, e)

last_status-EndsIn :
    (before : Text) (rs : List ExecutionResult) {status : Text}
    → last_status before rs ≡ ok status
    → EndsIn before rs status
unfolding last_status
last_status-EndsIn before [] e = rw (← (ok_injective _ _ e)) (over before)
last_status-EndsIn before (r ∷ rs) e =
    let (success, given, rest) =
      after_result-eq-ok rs r.success (sym (last_status-cons before r rs) ∙ e) in
    next r success given (last_status-EndsIn (status_of success) rs rest)

module _ (sdk : Sdk) where
  -- The operations for one transfer, and their status.
  pub record IsSingle (tx : TransferResponse) (s : sdk.State) (os : List Operation) : Type 0 where
    pub deploy : DeployResult
    pub status : Text
    pub got_deploy : (sdk.get_deploy tx.deploy_hash s).0 ≡ ok deploy
    pub decided : EndsIn [] deploy.execution_results status
    pub carried : All (λ (o : Operation). o.status ≡ some status) os
    pub placed : ArePlaced 0 os
    pub two : length os ≡ 2
    pub balanced : total os ≡ some (pos 0)

  -- If the amount of a transfer is a decimal number, the operations that `CreateOperation` builds
  -- for it are two, numbered from 0, whose amounts add up to zero. Both carry the status that the
  -- last execution result of the deploy says; all results hold a success then.
  pub create_operation-IsSingle :
      (tx : TransferResponse) (s : sdk.State) {os : List Operation}
      → is_decimal tx.amount ≡ true
      → (create_operation sdk tx s).0 ≡ ok os
      → IsSingle tx s os
  unfolding create_operation
  create_operation-IsSingle tx s d e =
      let got : Outcome DeployResult × sdk.State = sdk.get_deploy tx.deploy_hash s in
      let (deploy, e0, e1) = call-eq-ok got _ _ e in
      let (status, decided, e2) =
        continue-eq-ok (last_status [] deploy.execution_results) _ got.1 e1 in
      rw (← (ok_injective _ _ e2)) (record {
        deploy = deploy;
        status = status;
        got_deploy = e0;
        decided = last_status-EndsIn [] deploy.execution_results decided;
        carried = (refl, (refl, tt));
        placed = (
          record { index = refl; related = tt },
          (record { index = refl; related = ((0, refl, omega arith), tt) }, tt),
        );
        two = refl;
        balanced = total-pair tx.amount [] d;
      })
