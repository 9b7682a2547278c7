-- ===== src/Casper/Ledger/Growth.antt =====
-- casper/client.go: what the chain has told for a hash or an index, after it has grown.
use rosetta_casper.Common.{
  ◌≡◌, refl, ℕ, List, [], ◌∷◌, Option, none, some, Text, lit, ℤ, ◌++◌, ◌==◌, Bool-cases, inl, inr,
}
use rosetta_casper.Go.Outcome.Gives.{>>=-eq-some, result_of, ◌>>=◌}
use rosetta_casper.Go.Hex.{encode_to_string}
use rosetta_casper.Go.Machine.{to_uint64}
use rosetta_casper.Rosetta.{PartialBlockIdentifier, BlockIdentifier}
use rosetta_casper.Casper.Sdk.{TransferResponse, Deploy, DeployResult, ExecutionResult}
use rosetta_casper.Casper.Purse.{account_preimage}
use rosetta_casper.Casper.Block.{Fetched, transfers_of}
use rosetta_casper.Casper.Block.Walk.{carried, deploys_of}
use rosetta_casper.Casper.Ledger.{
  Ledger, first_of, key_purse, payment_of, transaction_of, fetched_by_hash, fetched_by_height,
  fetched, assembled, block_of, block_transaction_of,
}
use rosetta_casper.Casper.Ledger.Unordered.{gather}

-- An answer that was given is given again.
abbrev pub Keeps {ℓ} : {A : Type ℓ} → Option A → Option A → Type ℓ
Keeps {A} o o' = (a : A) → o ≡ some a → o' ≡ some a

pub Keeps-refl {ℓ} : {A : Type ℓ} (o : Option A) → Keeps o o
Keeps-refl o a e = e

pub >>=-Keeps {ℓ κ} :
    {A : Type ℓ} {B : Type κ} (o : Option A) {o' : Option A} (f f' : A → Option B)
    → Keeps o o'
    → ((a : A) → Keeps (f a) (f' a))
    → Keeps (o >>= f) (o' >>= f')
>>=-Keeps none f f' h k b e = cc
>>=-Keeps (some a) f f' h k b e = rw (h a refl) (k a b e)

pub gather-Keeps :
    {K A : Type 0} (f f' : K → Option A) (ks : List K)
    → ((k : K) → Keeps (f k) (f' k))
    → Keeps (gather f ks) (gather f' ks)
gather-Keeps f f' [] h = Keeps-refl (some [])
gather-Keeps f f' (k ∷ ks) h =
    >>=-Keeps (f k) _ _ (h k)
      λ a. >>=-Keeps (gather f ks) _ _ (gather-Keeps f f' ks h) λ more. Keeps-refl _

-- A later state of the chain: a question about a hash, an index, an executed deploy, or a state root
-- that was answered keeps its answer. The latest block may be another one, and a deploy that had no
-- result may have some.
pub record Extends (old new : Ledger) : Type 0 where
  pub block_by_hash : (h : Text) → Keeps (old.block_by_hash h) (new.block_by_hash h)
  pub block_by_height : (n : ℕ) → Keeps (old.block_by_height n) (new.block_by_height n)
  pub transfers_by_hash : (h : Text) → Keeps (old.transfers_by_hash h) (new.transfers_by_hash h)
  pub transfers_by_height : (n : ℕ) → Keeps (old.transfers_by_height n) (new.transfers_by_height n)
  pub deploy :
      (h : Text) (d : DeployResult) {r : ExecutionResult}
      → old.deploy h ≡ some d
      → first_of d.execution_results ≡ some r
      → new.deploy h ≡ some d
  pub state_item :
      (root key : Text) (path : List Text)
      → Keeps (old.state_item root key path) (new.state_item root key path)
  pub account_balance :
      (root purse : Text) → Keeps (old.account_balance root purse) (new.account_balance root purse)
  pub payment_amount : (d : Deploy) → Keeps (old.payment_amount d) (new.payment_amount d)

module _ {old new : Ledger} (extends : Extends old new) (sum256 : List ℕ → List ℕ) where
  pub key_purse-Keeps :
      (root key : Text) → Keeps (key_purse old sum256 root key) (key_purse new sum256 root key)
  key_purse-Keeps root key =
      >>=-Keeps (result_of (account_preimage key)) _ _ (Keeps-refl _) λ buffer.
        >>=-Keeps (old.state_item root (lit "account-hash-" ++ encode_to_string (sum256 buffer)) [])
          _ _ (extends.state_item root _ []) λ item. Keeps-refl _

  pub payment_of-Keeps : (d : Deploy) → Keeps (payment_of old d) (payment_of new d)
  payment_of-Keeps d = >>=-Keeps d.module_bytes _ _ (Keeps-refl _) λ bytes.
      elim (Bool-cases (bytes.args_count == 0)) [
        | inl free ↦ rw free (Keeps-refl _)
        | inr paid ↦ rw paid (extends.payment_amount d)
      ]

  -- What is made of an executed deploy.
  executed-Keeps :
      {B : Type 0} (h : Text) (f f' : DeployResult → ExecutionResult → Option B)
      → ((d : DeployResult) (r : ExecutionResult) → Keeps (f d r) (f' d r))
      → Keeps
          (old.deploy h >>= λ d. first_of d.execution_results >>= f d)
          (new.deploy h >>= λ d. first_of d.execution_results >>= f' d)
  executed-Keeps h f f' k b e =
      let (d, found, e1) = >>=-eq-some (old.deploy h) _ e in
      let (r, first, e2) = >>=-eq-some (first_of d.execution_results) _ e1 in
      rw (extends.deploy h d found first, first) (k d r b e2)

  pub transaction_of-Keeps :
      (root validator h : Text) (ts : List TransferResponse)
      → Keeps
          (transaction_of old sum256 root validator h ts)
          (transaction_of new sum256 root validator h ts)
  transaction_of-Keeps root validator h ts = executed-Keeps h _ _ λ d result.
      >>=-Keeps (key_purse old sum256 root d.deploy.account) _ _
        (key_purse-Keeps root d.deploy.account)
        λ signer.
          >>=-Keeps (payment_of old d.deploy) _ _ (payment_of-Keeps d.deploy)
            λ payment. Keeps-refl _

  assembled-Keeps : (f : Fetched) → Keeps (assembled old sum256 f) (assembled new sum256 f)
  assembled-Keeps f =
      let root = f.block.header.state_root_hash in
      >>=-Keeps (key_purse old sum256 root f.block.body.proposer) _ _
        (key_purse-Keeps root f.block.body.proposer)
        λ validator.
          >>=-Keeps (gather _ (deploys_of f.transfers f.block.body.deploy_hashes)) _ _
            (gather-Keeps _ _ (deploys_of f.transfers f.block.body.deploy_hashes)
              λ h. transaction_of-Keeps root validator h (carried f.transfers h))
            λ ts. Keeps-refl _

  pub fetched_by_hash-Keeps : (h : Text) → Keeps (fetched_by_hash old h) (fetched_by_hash new h)
  fetched_by_hash-Keeps h =
      >>=-Keeps (old.block_by_hash h) _ _ (extends.block_by_hash h) λ b.
        >>=-Keeps (old.transfers_by_hash h) _ _ (extends.transfers_by_hash h) λ ts. Keeps-refl _

  pub fetched_by_height-Keeps : (n : ℕ) → Keeps (fetched_by_height old n) (fetched_by_height new n)
  fetched_by_height-Keeps n = >>=-Keeps (old.block_by_height n) _ _ (extends.block_by_height n) λ b.
      >>=-Keeps (old.transfers_by_height n) _ _ (extends.transfers_by_height n) λ ts. Keeps-refl _

  pub fetched-Keeps :
      (h : Option Text) (i : Option ℤ)
      → Keeps
          (fetched old (some (record { hash = h; index = i })))
          (fetched new (some (record { hash = h; index = i })))
  fetched-Keeps none none = Keeps-refl none
  fetched-Keeps none (some i) = fetched_by_height-Keeps (to_uint64 i)
  fetched-Keeps (some h) none = fetched_by_hash-Keeps h
  fetched-Keeps (some h) (some i) =
      >>=-Keeps (fetched_by_hash old h) _ _ (fetched_by_hash-Keeps h)
        λ f. fetched_by_height-Keeps (to_uint64 i)

  pub block_of-Keeps :
      (id : PartialBlockIdentifier)
      → Keeps (block_of old sum256 (some id)) (block_of new sum256 (some id))
  block_of-Keeps id =
      >>=-Keeps (fetched old (some id)) _ _ (fetched-Keeps id.hash id.index) assembled-Keeps

  pub block_transaction_of-Keeps :
      (id : Option BlockIdentifier) (hash : Option Text)
      → Keeps (block_transaction_of old sum256 id hash) (block_transaction_of new sum256 id hash)
  block_transaction_of-Keeps id hash = >>=-Keeps hash _ _ (Keeps-refl hash) λ h.
      executed-Keeps h _ _ λ d result.
        >>=-Keeps (old.block_by_hash result.block_hash) _ _
          (extends.block_by_hash result.block_hash)
          λ b. >>=-Keeps id _ _ (Keeps-refl id) λ at.
            >>=-Keeps (old.transfers_by_hash at.hash) _ _ (extends.transfers_by_hash at.hash)
              λ transfers.
                >>=-Keeps (key_purse old sum256 b.header.state_root_hash b.body.proposer) _ _
                  (key_purse-Keeps b.header.state_root_hash b.body.proposer)
                  λ validator.
                    transaction_of-Keeps b.header.state_root_hash validator d.deploy.hash
                      (transfers_of d.deploy.hash transfers)
