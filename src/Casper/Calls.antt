-- ===== src/Casper/Calls.antt =====
-- casper/client.go: how often the methods of the client call the node.
use rosetta_casper.Common.{
  ℕ, ◌+◌, ◌*◌, ◌≤◌, ◌≡◌, List, [], ◌∷◌, Option, none, some, Text, ℤ, arith, length,
}
use rosetta_casper.Go.Outcome.{Outcome, ok, err, panic, M, continue, map_error, deref}
use rosetta_casper.Go.Dict.{Dict}
use rosetta_casper.Rosetta.{PartialBlockIdentifier, BlockIdentifier, AccountIdentifier, Transaction}
use rosetta_casper.Casper.Sdk.{Sdk, TransferResponse, BlockResponse, Deploy, DeployResult}
use rosetta_casper.Casper.Operations.{result_operations}
use rosetta_casper.Casper.Purse.{get_main_purse_from_public_key}
use rosetta_casper.Casper.Transaction.{first_result, payment_amount, create_ros_transaction}
use rosetta_casper.Casper.Block.{
  Fetched, fetch, fetch_by_hash, fetch_by_index, fetch_latest, create_transactions, assemble, block,
  status, block_transaction, get_block_response, transfers_of, grouped,
}
use rosetta_casper.Casper.Balance.{
  balance, balance_block, balance_uref, block_by_hash, block_by_index, purse_of_account_hash,
  purse_of_key,
}

-- A call that is counted beside the state.
abbrev counting : {S A : Type 0} → M S A → M (S × ℕ) A
counting m s = ((m s.0).0, ((m s.0).1, s.1 + 1))

-- A node that counts its calls.
abbrev pub counted : Sdk → Sdk
counted sdk = record {
  State = sdk.State × ℕ;
  get_latest_block = counting sdk.get_latest_block;
  get_peers = counting sdk.get_peers;
  get_block_by_hash = λ h. counting (sdk.get_block_by_hash h);
  get_block_by_height = λ n. counting (sdk.get_block_by_height n);
  get_latest_block_transfers = counting sdk.get_latest_block_transfers;
  get_block_transfers_by_hash = λ h. counting (sdk.get_block_transfers_by_hash h);
  get_block_transfers_by_height = λ n. counting (sdk.get_block_transfers_by_height n);
  get_deploy = λ h. counting (sdk.get_deploy h);
  get_state_item = λ root key path. counting (sdk.get_state_item root key path);
  get_account_balance = λ root purse. counting (sdk.get_account_balance root purse);
  read_payment_amount = λ d. counting (sdk.read_payment_amount d);
  sum256 = sdk.sum256;
}

module _ {S A B : Type 0} where
  -- Two steps take the calls of both, or of the first alone.
  continue-Calls :
      (o : Outcome A) (f : A → M (S × ℕ) B) (t : S × ℕ) (n j k : ℕ)
      → t.1 ≤ n + j
      → ((a : A) → (f a t).1.1 ≤ t.1 + k)
      → (continue o f t).1.1 ≤ n + (j + k)
  continue-Calls (ok a) f t n j k h next = omega (arith, next a)
  continue-Calls (err e) f t n j k h next = omega arith
  continue-Calls panic f t n j k h next = omega arith

-- The bound may be written in another way.
raise : {x : ℕ} (n k : ℕ) {k' : ℕ} → k ≡ k' → x ≤ n + k → x ≤ n + k'
raise n k same h = omega arith

module _ (sdk : Sdk) where
  purse-Calls :
      (a root : Text) (s : sdk.State × ℕ)
      → (get_main_purse_from_public_key (counted sdk) a root s).1.1 ≤ s.1 + 1
  unfolding get_main_purse_from_public_key
  purse-Calls a root s = ground arith

  payment-Calls :
      (d : Deploy) (s : sdk.State × ℕ) → (payment_amount (counted sdk) d s).1.1 ≤ s.1 + 1
  unfolding payment_amount
  payment-Calls d s = ground arith

  create_ros_transaction-Calls :
      (h : Text) (ts : List TransferResponse) (b : BlockResponse) (purse : Text) (s : sdk.State × ℕ)
      → (create_ros_transaction (counted sdk) h ts b purse s).1.1 ≤ s.1 + 3
  unfolding create_ros_transaction
  create_ros_transaction-Calls h ts b purse s =
      let got : Outcome DeployResult × (sdk.State × ℕ) = (counted sdk).get_deploy h s in
      continue-Calls (map_error _ got.0) _ got.1 s.1 1 2 (omega arith) λ d.
        continue-Calls (first_result d.execution_results) _ got.1 got.1.1 0 2 (omega arith)
          λ result.
            let signed : Outcome Text × (sdk.State × ℕ) =
              get_main_purse_from_public_key (counted sdk) d.deploy.account b.header.state_root_hash
                got.1 in
            continue-Calls (map_error _ signed.0) _ signed.1 got.1.1 1 1
              (purse-Calls d.deploy.account b.header.state_root_hash got.1)
              λ signer.
                let paid : Outcome Text × (sdk.State × ℕ) =
                  payment_amount (counted sdk) d.deploy signed.1 in
                continue-Calls paid.0 _ paid.1 signed.1.1 1 0 (payment-Calls d.deploy signed.1)
                  λ payment.
                    continue-Calls (result_operations signer purse payment ts result) _ paid.1
                      paid.1.1 0 0 (omega arith) λ os. omega arith

  create_transactions-Calls :
      (groups : Dict (List TransferResponse)) (b : BlockResponse) (purse : Text) (s : sdk.State × ℕ)
      → (create_transactions (counted sdk) groups b purse s).1.1 ≤ s.1 + 3 * length groups
  unfolding create_transactions
  create_transactions-Calls [] b purse s = omega arith
  create_transactions-Calls ((h, transfers) ∷ groups) b purse s =
      let step : Outcome Transaction × (sdk.State × ℕ) =
        create_ros_transaction (counted sdk) h transfers b purse s in
      raise s.1 (3 + (3 * length groups + 0)) (omega arith) (
        continue-Calls (map_error _ step.0) _ step.1 s.1 3 (3 * length groups + 0)
          (create_ros_transaction-Calls h transfers b purse s)
          λ t.
            continue-Calls (create_transactions (counted sdk) groups b purse step.1).0 _ _ step.1.1
              (3 * length groups) 0 (create_transactions-Calls groups b purse step.1)
              λ more. omega arith)

  fetch-Calls :
      (id : Option PartialBlockIdentifier) (s : sdk.State × ℕ)
      → (fetch (counted sdk) id s).1.1 ≤ s.1 + 4
  unfolding fetch fetch_by_hash fetch_by_index fetch_latest
  fetch-Calls none s = ground arith
  fetch-Calls (some id) s = ground arith

  status-Calls : (s : sdk.State × ℕ) → (status (counted sdk) s).1.1 ≤ s.1 + 2
  unfolding status
  status-Calls s = ground arith

  module _ (order : Dict (List TransferResponse) → Dict (List TransferResponse)) where
    assemble-Calls :
        (f : Fetched) (s : sdk.State × ℕ)
        → (assemble (counted sdk) order f s).1.1
          ≤ s.1 + (1 + 3 * length (order (grouped f.transfers f.block.body.deploy_hashes)))
    unfolding assemble
    assemble-Calls f s =
        let root = f.block.header.state_root_hash in
        let groups = order (grouped f.transfers f.block.body.deploy_hashes) in
        let got : Outcome Text × (sdk.State × ℕ) =
          get_main_purse_from_public_key (counted sdk) f.block.body.proposer root s in
        raise s.1 (1 + (3 * length groups + 0)) (omega arith) (
          continue-Calls (map_error _ got.0) _ got.1 s.1 1 (3 * length groups + 0)
            (purse-Calls f.block.body.proposer root s)
            λ purse.
              continue-Calls (create_transactions (counted sdk) groups f.block purse got.1).0 _ _
                got.1.1 (3 * length groups) 0 (create_transactions-Calls groups f.block purse got.1)
                λ ts. omega arith)

    -- How many deploys a block has that was fetched; where none was, there are none.
    abbrev pub deploys_fetched : Outcome Fetched → ℕ
    deploys_fetched (ok f) = length (order (grouped f.transfers f.block.body.deploy_hashes))
    deploys_fetched (err e) = 0
    deploys_fetched panic = 0

    fetched-Calls :
        (o : Outcome Fetched) (t : sdk.State × ℕ)
        → (continue o (assemble (counted sdk) order) t).1.1 ≤ t.1 + (1 + 3 * deploys_fetched o)
    fetched-Calls (ok f) t = assemble-Calls f t
    fetched-Calls (err e) t = omega arith
    fetched-Calls panic t = omega arith

    block-Calls :
        (id : Option PartialBlockIdentifier) (s : sdk.State × ℕ)
        → (block (counted sdk) order id s).1.1
          ≤ s.1 + (5 + 3 * deploys_fetched (fetch (counted sdk) id s).0)
    unfolding block
    block-Calls id s =
        let first : Outcome Fetched × (sdk.State × ℕ) = fetch (counted sdk) id s in
        omega (arith, fetch-Calls id s, fetched-Calls first.0 first.1)

  block_transaction-Calls :
      (id : Option BlockIdentifier) (hash : Option Text) (s : sdk.State × ℕ)
      → (block_transaction (counted sdk) id hash s).1.1 ≤ s.1 + 7
  unfolding block_transaction get_block_response
  block_transaction-Calls id none s = omega arith
  block_transaction-Calls id (some hash) s =
      let got : Outcome DeployResult × (sdk.State × ℕ) = (counted sdk).get_deploy hash s in
      continue-Calls (map_error _ got.0) _ got.1 s.1 1 6 (omega arith) λ d.
        continue-Calls (first_result d.execution_results) _ got.1 got.1.1 0 6 (omega arith)
          λ result.
            let whole : Outcome BlockResponse × (sdk.State × ℕ) =
              get_block_response (counted sdk)
                (record { hash = some result.block_hash; index = none }) got.1 in
            continue-Calls (map_error _ whole.0) _ whole.1 got.1.1 1 5 (omega arith) λ b.
              continue-Calls (deref id) _ whole.1 whole.1.1 0 5 (omega arith) λ at.
                let listed : Outcome (List TransferResponse) × (sdk.State × ℕ) =
                  (counted sdk).get_block_transfers_by_hash at.hash whole.1 in
                continue-Calls (map_error _ listed.0) _ listed.1 whole.1.1 1 4 (omega arith)
                  λ transfers.
                    let owner : Outcome Text × (sdk.State × ℕ) =
                      get_main_purse_from_public_key (counted sdk) b.body.proposer
                        b.header.state_root_hash listed.1 in
                    continue-Calls (map_error _ owner.0) _ owner.1 listed.1.1 1 3
                      (purse-Calls b.body.proposer b.header.state_root_hash listed.1)
                      λ purse.
                        create_ros_transaction-Calls d.deploy.hash
                          (transfers_of d.deploy.hash transfers) b purse owner.1

  balance_block-Calls :
      (id : Option PartialBlockIdentifier) (s : sdk.State × ℕ)
      → (balance_block (counted sdk) id s).1.1 ≤ s.1 + 2
  unfolding balance_block block_by_hash block_by_index
  balance_block-Calls none s = ground arith
  balance_block-Calls (some id) s = ground arith

  balance_uref-Calls :
      (root address : Text) (s : sdk.State × ℕ)
      → (balance_uref (counted sdk) root address s).1.1 ≤ s.1 + 1
  unfolding balance_uref purse_of_account_hash purse_of_key
  balance_uref-Calls root address s = ground (arith, purse-Calls address root s)

  balance-Calls :
      (account : AccountIdentifier) (id : Option PartialBlockIdentifier) (s : sdk.State × ℕ)
      → (balance (counted sdk) account id s).1.1 ≤ s.1 + 4
  unfolding balance
  balance-Calls account id s =
      let named : Outcome BlockResponse × (sdk.State × ℕ) = balance_block (counted sdk) id s in
      continue-Calls named.0 _ named.1 s.1 2 2 (balance_block-Calls id s) λ b.
        let root = b.header.state_root_hash in
        let purse : Outcome Text × (sdk.State × ℕ) =
          balance_uref (counted sdk) root account.address named.1 in
        continue-Calls purse.0 _ purse.1 named.1.1 1 1
          (balance_uref-Calls root account.address named.1)
          λ uref.
            let held : Outcome ℤ × (sdk.State × ℕ) =
              (counted sdk).get_account_balance root uref purse.1 in
            continue-Calls (map_error _ held.0) _ held.1 purse.1.1 1 0 (omega arith)
              λ amount. omega arith

  -- On any node that counts its calls, `Status` makes at most two, `Balance` four, `BlockTransaction`
  -- seven, and `Block` five and three more for each deploy that the fetched block has in the map which
  -- `Block` walks, all of them however they end.
  pub client-Calls :
      (order : Dict (List TransferResponse) → Dict (List TransferResponse))
      (account : AccountIdentifier) (id : Option PartialBlockIdentifier)
      (at : Option BlockIdentifier) (hash : Option Text) (s : sdk.State × ℕ)
      → ((status (counted sdk) s).1.1 ≤ s.1 + 2)
        × ((balance (counted sdk) account id s).1.1 ≤ s.1 + 4)
        × ((block_transaction (counted sdk) at hash s).1.1 ≤ s.1 + 7)
        × ((block (counted sdk) order id s).1.1
            ≤ s.1 + (5 + 3 * deploys_fetched order (fetch (counted sdk) id s).0))
  client-Calls order account id at hash s = (
    status-Calls s,
    balance-Calls account id s,
    block_transaction-Calls at hash s,
    block-Calls order id s,
  )
