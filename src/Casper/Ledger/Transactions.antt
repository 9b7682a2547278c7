-- ===== src/Casper/Ledger/Transactions.antt =====
-- casper/client.go: purses, payments and transactions over a node that answers from a ledger.
use rosetta_casper.Common.{
  ◌≡◌, refl, ◌∙◌, List, [], ◌∷◌, ◌++◌, Option, none, some, lit, Text, ◌==◌, Bool-cases, inl, inr,
}
use rosetta_casper.Go.Outcome.{Outcome, deref}
use rosetta_casper.Go.Outcome.Gives.{
  result_of, Gives, continue-result_of, call-result_of, result_of-map_error,
}
use rosetta_casper.Go.Hex.{encode_to_string}
use rosetta_casper.Casper.Sdk.{
  Sdk, StoredValue, TransferResponse, BlockResponse, DeployResult, ExecutionResult, Deploy,
}
use rosetta_casper.Casper.Operations.{result_operations}
use rosetta_casper.Casper.Purse.{account_preimage, get_main_purse_from_public_key}
use rosetta_casper.Casper.Transaction.{first_result, payment_amount, create_ros_transaction}
use rosetta_casper.Casper.Ledger.{Ledger, Answers, first_of, key_purse, payment_of, transaction_of}

pub result_of-deref {ℓ} : {A : Type ℓ} (o : Option A) → result_of (deref o) ≡ o
result_of-deref none = refl
result_of-deref (some a) = refl

pub result_of-first_result :
    (results : List ExecutionResult) → result_of (first_result results) ≡ first_of results
result_of-first_result [] = refl
result_of-first_result (r ∷ rs) = refl

module _ {sdk : Sdk} {ledger : Ledger} (answers : Answers ledger sdk) where
  pub key_purse-Gives :
      (root key : Text)
      → Gives (get_main_purse_from_public_key sdk key root) (key_purse ledger sdk.sum256 root key)
  unfolding get_main_purse_from_public_key
  key_purse-Gives root key s = continue-result_of (account_preimage key) _ s refl λ buffer.
      let hash = lit "account-hash-" ++ encode_to_string (sdk.sum256 buffer) in
      let got : Outcome StoredValue × sdk.State = sdk.get_state_item root hash [] s in
      call-result_of got _ _ (answers.state_item root hash [] s) λ item.
        continue-result_of (deref item.account) _ got.1 (result_of-deref item.account) λ a. refl

  payment_of-Gives : (d : Deploy) → Gives (payment_amount sdk d) (payment_of ledger d)
  unfolding payment_amount
  payment_of-Gives d s =
      continue-result_of (deref d.module_bytes) _ s (result_of-deref d.module_bytes) λ bytes.
        elim (Bool-cases (bytes.args_count == 0)) [
          | inl zero ↦ rw zero refl
          | inr paid ↦ rw paid (result_of-map_error _ _ ∙ answers.payment_amount d s)
        ]

  pub transaction_of-Gives :
      (validator h : Text) (ts : List TransferResponse) (b : BlockResponse)
      → Gives
          (create_ros_transaction sdk h ts b validator)
          (transaction_of ledger sdk.sum256 b.header.state_root_hash validator h ts)
  unfolding create_ros_transaction
  transaction_of-Gives validator h ts b s =
      let root = b.header.state_root_hash in
      let got : Outcome DeployResult × sdk.State = sdk.get_deploy h s in
      call-result_of got _ _ (answers.deploy h s) λ d.
        continue-result_of (first_result d.execution_results) _ got.1
          (result_of-first_result d.execution_results)
          λ result.
            let signed : Outcome Text × sdk.State =
              get_main_purse_from_public_key sdk d.deploy.account root got.1 in
            call-result_of signed _ _ (key_purse-Gives root d.deploy.account got.1) λ signer.
              let paid : Outcome Text × sdk.State = payment_amount sdk d.deploy signed.1 in
              continue-result_of paid.0 _ paid.1 (payment_of-Gives d.deploy signed.1) λ payment.
                continue-result_of (result_operations signer validator payment ts result) _ paid.1
                  refl λ os. refl
