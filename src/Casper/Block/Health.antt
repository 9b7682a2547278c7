-- ===== src/Casper/Block/Health.antt =====
-- casper/client.go: a node that answers each call, and the transactions that are built of its answers.
use rosetta_casper.Common.{
  ℕ, ◌≤◌, ◌≡◌, refl, inl, inr, Bool, true, List, [], ◌∷◌, Option, some, arith, Text, All, ◌==◌,
  length, Bool-cases, leb,
}
use rosetta_casper.Go.Outcome.{Outcome, deref, map_error}
use rosetta_casper.Go.Outcome.Success.{
  Ends, ends_ok, ends_err, Finishes, Succeeds-Ends, continue-Ends, call-Ends, map_error-Ends,
}
use rosetta_casper.Go.Strings.{slice, slice_from}
use rosetta_casper.Go.Dict.{Dict}
use rosetta_casper.Rosetta.{Transaction}
use rosetta_casper.Casper.Sdk.{
  Sdk, TransferResponse, BlockResponse, Deploy, DeployResult, ExecutionResult, StoredValue, Account,
  ModuleBytes,
}
use rosetta_casper.Casper.Operations.{result_operations}
use rosetta_casper.Casper.Operations.Total.{
  has_dash, have_dashes, IsDecided, result_operations-Returns,
}
use rosetta_casper.Casper.Purse.{account_preimage, get_main_purse_from_public_key}
use rosetta_casper.Casper.Transaction.{first_result, payment_amount, create_ros_transaction}
use rosetta_casper.Casper.Block.{create_transactions}

-- A block has a proposer with a key's tag, and a deploy an account with one, module bytes, and a
-- result that says how it ended; a stored value is an account whose purse has a dash.
abbrev pub HasProposer : BlockResponse → Type 0
HasProposer b = 2 ≤ length b.body.proposer

abbrev pub HasDashes : List TransferResponse → Type 0
HasDashes ts = have_dashes ts ≡ true

-- The first result says how it ended; where errors are admitted, there may be none.
abbrev pub HasResult : Bool → List ExecutionResult → Type 0
HasResult may_fail [] = may_fail ≡ true
HasResult may_fail (r ∷ _) = IsDecided r

pub first_result-Ends :
    (may_fail : Bool) (results : List ExecutionResult)
    → HasResult may_fail results
    → Ends may_fail IsDecided (first_result results)
first_result-Ends may_fail [] h = ends_err h _
first_result-Ends may_fail (r ∷ rs) h = ends_ok h

pub record IsReadable (may_fail : Bool) (d : DeployResult) : Type 0 where
  pub account : 2 ≤ length d.deploy.account
  pub module_bytes : ModuleBytes
  pub has_bytes : d.deploy.module_bytes ≡ some module_bytes
  pub result : HasResult may_fail d.execution_results

abbrev pub HasPurse : StoredValue → Type 0
HasPurse item = (a : Account) × (item.account ≡ some a) × (has_dash a.main_purse ≡ true)

-- A node that answers each call, or that may fail with an error where `may_fail` says so. It does
-- not panic.
pub record IsHealthy (may_fail : Bool) (sdk : Sdk) : Type 0 where
  pub latest_block : (s : sdk.State) → Ends may_fail HasProposer (sdk.get_latest_block s).0
  pub block_by_hash :
      (h : Text) (s : sdk.State) → Ends may_fail HasProposer (sdk.get_block_by_hash h s).0
  pub block_by_height :
      (n : ℕ) (s : sdk.State) → Ends may_fail HasProposer (sdk.get_block_by_height n s).0
  pub latest_transfers :
      (s : sdk.State) → Ends may_fail HasDashes (sdk.get_latest_block_transfers s).0
  pub transfers_by_hash :
      (h : Text) (s : sdk.State) → Ends may_fail HasDashes (sdk.get_block_transfers_by_hash h s).0
  pub transfers_by_height :
      (n : ℕ) (s : sdk.State) → Ends may_fail HasDashes (sdk.get_block_transfers_by_height n s).0
  pub deploys :
      (h : Text) (s : sdk.State) → Ends may_fail (IsReadable may_fail) (sdk.get_deploy h s).0
  pub items :
      (root key : Text) (path : List Text) (s : sdk.State)
      → Ends may_fail HasPurse (sdk.get_state_item root key path s).0
  pub payments : (d : Deploy) (s : sdk.State) → Finishes may_fail (sdk.read_payment_amount d s).0

leb-true : (a b : ℕ) → a ≤ b → leb a b ≡ true
leb-true a b h = ground arith

account_preimage-Finishes :
    {may_fail : Bool} (a : Text) → 2 ≤ length a → Finishes may_fail (account_preimage a)
unfolding account_preimage slice slice_from
account_preimage-Finishes a h =
    rw (account_preimage, slice, slice_from, leb-true 2 (length a) h) (ends_ok tt)

deref-Finishes :
    {may_fail : Bool} {A : Type 0} (o : Option A) {a : A}
    → o ≡ some a
    → Ends may_fail (λ x. o ≡ some x) (deref o)
deref-Finishes o e = rw e (ends_ok refl)

module _ {may_fail : Bool} (sdk : Sdk) (healthy : IsHealthy may_fail sdk) where
  pub purse-Ends :
      (a root : Text) (s : sdk.State)
      → 2 ≤ length a
      → Ends may_fail (λ p. has_dash p ≡ true) (get_main_purse_from_public_key sdk a root s).0
  unfolding get_main_purse_from_public_key
  purse-Ends a root s h =
      continue-Ends (account_preimage a) _ s (account_preimage-Finishes a h) λ buffer _.
        continue-Ends (map_error _ (sdk.get_state_item root _ [] s).0) _ _
          (map_error-Ends _ (healthy.items root _ [] s)) λ item (x, e, d). rw e (ends_ok d)

  payment_amount-Finishes :
      (d : Deploy) (s : sdk.State) {bytes : ModuleBytes}
      → d.module_bytes ≡ some bytes
      → Finishes may_fail (payment_amount sdk d s).0
  unfolding payment_amount
  payment_amount-Finishes d s e =
      continue-Ends (deref d.module_bytes) _ s (deref-Finishes d.module_bytes e) λ bytes _.
        elim (Bool-cases (bytes.args_count == 0)) [
          | inl free ↦ rw free (ends_ok tt)
          | inr paid ↦ rw paid (map_error-Ends _ (healthy.payments d s))
        ]

  pub create_ros_transaction-Finishes :
      (h : Text) (ts : List TransferResponse) (b : BlockResponse) (purse : Text) (s : sdk.State)
      → have_dashes ts ≡ true
      → has_dash purse ≡ true
      → Finishes may_fail (create_ros_transaction sdk h ts b purse s).0
  unfolding create_ros_transaction
  create_ros_transaction-Finishes h ts b purse s dashes dash =
      let got : Outcome DeployResult × sdk.State = sdk.get_deploy h s in
      call-Ends got _ _ ((healthy.deploys h s)) λ deploy readable.
        continue-Ends (first_result deploy.execution_results) _ got.1
          (first_result-Ends may_fail deploy.execution_results readable.result)
          λ result decided.
            let signed : Outcome Text × sdk.State =
              get_main_purse_from_public_key sdk deploy.deploy.account b.header.state_root_hash
                got.1 in
            call-Ends signed _ _ ((purse-Ends deploy.deploy.account _ got.1 readable.account))
              λ signer signer_dash.
                let paid : Outcome Text × sdk.State = payment_amount sdk deploy.deploy signed.1 in
                continue-Ends paid.0 _ paid.1
                  (payment_amount-Finishes deploy.deploy signed.1 readable.has_bytes)
                  λ payment _.
                    continue-Ends (result_operations signer purse payment ts result) _ paid.1
                      (Succeeds-Ends (
                        result_operations-Returns signer purse payment ts signer_dash dash dashes
                          result decided))
                      λ os _. ends_ok tt

  pub create_transactions-Finishes :
      (groups : Dict (List TransferResponse)) (b : BlockResponse) (purse : Text) (s : sdk.State)
      → All (λ e. have_dashes e.1 ≡ true) groups
      → has_dash purse ≡ true
      → Finishes may_fail (create_transactions sdk groups b purse s).0
  unfolding create_transactions
  create_transactions-Finishes [] b purse s _ dash = ends_ok tt
  create_transactions-Finishes ((h, transfers) ∷ groups) b purse s (d, ds) dash =
      let step : Outcome Transaction × sdk.State =
        create_ros_transaction sdk h transfers b purse s in
      call-Ends step _ _ ((create_ros_transaction-Finishes h transfers b purse s d dash)) λ t _.
        continue-Ends (create_transactions sdk groups b purse step.1).0 _ _
          (create_transactions-Finishes groups b purse step.1 ds dash) λ more _. ends_ok tt
