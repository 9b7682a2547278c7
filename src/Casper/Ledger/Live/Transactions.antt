-- ===== src/Casper/Ledger/Live/Transactions.antt =====
-- casper/client.go: purses, payments and transactions on a chain that grows while they are asked for.
use rosetta_casper.Common.{refl, List, [], ◌++◌, lit, Text, ◌==◌, Bool-cases, inl, inr}
use rosetta_casper.Go.Outcome.{Outcome, deref}
use rosetta_casper.Go.Hex.{encode_to_string}
use rosetta_casper.Casper.Sdk.{
  Sdk, StoredValue, TransferResponse, BlockResponse, DeployResult, Deploy,
}
use rosetta_casper.Casper.Operations.{result_operations}
use rosetta_casper.Casper.Purse.{account_preimage, get_main_purse_from_public_key}
use rosetta_casper.Casper.Transaction.{payment_amount, create_ros_transaction}
use rosetta_casper.Casper.Ledger.{Ledger, key_purse, payment_of, transaction_of}
use rosetta_casper.Casper.Ledger.Transactions.{result_of-deref}
use rosetta_casper.Casper.Ledger.Growth.{key_purse-Keeps, payment_of-Keeps}
use rosetta_casper.Casper.Ledger.Live.{
  Tells, Reads-ok, Reads-map_error, continue-Reads, call-Reads, then-Reads, executed-Reads, IsLive,
}

module _ {sdk : Sdk} {ledger : sdk.State → Ledger} (live : IsLive sdk ledger) where
  pub key_purse-Tells :
      (root key : Text)
      → Tells ledger
          (get_main_purse_from_public_key sdk key root)
          (λ l. key_purse l sdk.sum256 root key)
  unfolding get_main_purse_from_public_key
  key_purse-Tells root key s = continue-Reads (account_preimage key) _ s refl λ buffer.
      let hash = lit "account-hash-" ++ encode_to_string (sdk.sum256 buffer) in
      let got : Outcome StoredValue × sdk.State = sdk.get_state_item root hash [] s in
      call-Reads got _ _ _ (live.state_item root hash [] s) (λ l l' x. x.state_item root hash [])
        λ item.
          continue-Reads (deref item.account) _ got.1 (result_of-deref item.account)
            λ a. Reads-ok _ got.1 a.main_purse

  payment_of-Tells : (d : Deploy) → Tells ledger (payment_amount sdk d) (λ l. payment_of l d)
  unfolding payment_amount
  payment_of-Tells d s =
      continue-Reads (deref d.module_bytes) _ s (result_of-deref d.module_bytes) λ bytes.
        elim (Bool-cases (bytes.args_count == 0)) [
          | inl zero ↦ rw zero (Reads-ok _ s _)
          | inr paid ↦ rw paid (Reads-map_error _ _ (live.payment_amount d s))
        ]

  pub transaction_of-Tells :
      (validator h : Text) (ts : List TransferResponse) (b : BlockResponse)
      → Tells ledger
          (create_ros_transaction sdk h ts b validator)
          (λ l. transaction_of l sdk.sum256 b.header.state_root_hash validator h ts)
  unfolding create_ros_transaction
  transaction_of-Tells validator h ts b s =
      let root = b.header.state_root_hash in
      let got : Outcome DeployResult × sdk.State = sdk.get_deploy h s in
      executed-Reads got _ _ _ (live.deploy h s) λ d result.
        let signed : Outcome Text × sdk.State =
          get_main_purse_from_public_key sdk d.deploy.account root got.1 in
        call-Reads signed _ _ _ (key_purse-Tells root d.deploy.account got.1)
          (λ l l' x. key_purse-Keeps x sdk.sum256 root d.deploy.account)
          λ signer.
            let paid : Outcome Text × sdk.State = payment_amount sdk d.deploy signed.1 in
            then-Reads paid _ _ (payment_of-Tells d.deploy signed.1)
              (λ l l' x. payment_of-Keeps x sdk.sum256 d.deploy)
              λ payment.
                continue-Reads (result_operations signer validator payment ts result) _ paid.1 refl
                  λ os. Reads-ok _ paid.1 _
