-- ===== src/Casper/Ledger/Live.antt =====
-- casper/client.go on a chain that grows while the client asks: what a run has read, seen from the
-- state of the chain at its end.
pub mod Transactions
pub mod Blocks
pub mod Balances
pub mod Client
pub mod Latest
use rosetta_casper.Common.{◌≡◌, refl, sym, ap, ◌∙◌, ℕ, List, [], ◌∷◌, Option, none, some, Text, ℤ}
use rosetta_casper.Go.Outcome.{Outcome, ok, err, panic, Error, M, continue, map_error}
use rosetta_casper.Go.Outcome.Gives.{result_of, ◌>>=◌}
use rosetta_casper.Casper.Sdk.{Sdk, Deploy, DeployResult, ExecutionResult}
use rosetta_casper.Casper.Transaction.{first_result}
use rosetta_casper.Casper.Ledger.{Ledger, first_of}
use rosetta_casper.Casper.Ledger.Growth.{Keeps, Extends}

pub Extends-refl : (l : Ledger) → Extends l l
Extends-refl l = record {
  block_by_hash = λ h b e. e;
  block_by_height = λ n b e. e;
  transfers_by_hash = λ h ts e. e;
  transfers_by_height = λ n ts e. e;
  deploy = λ h d e first. e;
  state_item = λ root key path item e. e;
  account_balance = λ root purse amount e. e;
  payment_amount = λ d amount e. e;
}

Extends-trans : {l l' l'' : Ledger} → Extends l l' → Extends l' l'' → Extends l l''
Extends-trans h k = record {
  block_by_hash = λ t b e. k.block_by_hash t b (h.block_by_hash t b e);
  block_by_height = λ n b e. k.block_by_height n b (h.block_by_height n b e);
  transfers_by_hash = λ t ts e. k.transfers_by_hash t ts (h.transfers_by_hash t ts e);
  transfers_by_height = λ n ts e. k.transfers_by_height n ts (h.transfers_by_height n ts e);
  deploy = λ t d e first. k.deploy t d (h.deploy t d e first) first;
  state_item =
      λ root key path item e. k.state_item root key path item (h.state_item root key path item e);
  account_balance = λ root purse amount e.
      k.account_balance root purse amount (h.account_balance root purse amount e);
  payment_amount = λ d amount e. k.payment_amount d amount (h.payment_amount d amount e);
}

-- An answer that the chain keeps as it grows.
abbrev pub IsKept {ℓ} : {B : Type ℓ} → (Ledger → Option B) → Type ℓ
IsKept r = (l l' : Ledger) → Extends l l' → Keeps (r l) (r l')

module _ {S : Type 0} (ledger : S → Ledger) where
  -- A run that starts in a state: the chain has only grown, and a result that the run has is what the
  -- chain tells at the end of it.
  pub record Reads {ℓ} {A : Type 0} {B : Type ℓ} (h : A → B) (s : S) (run : Outcome A × S)
      (r : Ledger → Option B) : Type ℓ where
    pub extends : Extends (ledger s) (ledger run.1)
    pub told : (a : A) → run.0 ≡ ok a → r (ledger run.1) ≡ some (h a)

  -- A call of the node that is answered from the chain as it is at some time before the call ends.
  abbrev pub Tells : {A : Type 0} → M S A → (Ledger → Option A) → Type 0
  Tells m r = (s : S) → Reads (λ a. a) s (m s) r

module _ {S : Type 0} {ledger : S → Ledger} where
  pub Reads-ok {ℓ} :
      {A : Type 0} {B : Type ℓ} (h : A → B) (s : S) (a : A)
      → Reads ledger h s (ok a, s) (λ l. some (h a))
  Reads-ok h s a = record {
    extends = Extends-refl (ledger s);
    told = λ b e. ap (λ o. result_of o >>= λ x. some (h x)) e;
  }

  pub Reads-same {ℓ} :
      {A : Type 0} {B : Type ℓ} {h : A → B} {r r' : Ledger → Option B} {s : S} (run : Outcome A × S)
      → ((l : Ledger) → r l ≡ r' l)
      → Reads ledger h s run r
      → Reads ledger h s run r'
  Reads-same run same reads = record {
    extends = reads.extends;
    told = λ a e. sym (same (ledger run.1)) ∙ reads.told a e;
  }

  pub Reads-map_error {ℓ} :
      {A : Type 0} {B : Type ℓ} {h : A → B} {r : Ledger → Option B} {s : S} (e : Error → Error)
      (run : Outcome A × S)
      → Reads ledger h s run r
      → Reads ledger h s (map_error e run.0, run.1) r
  Reads-map_error e (ok a, s') reads = reads
  Reads-map_error e (err x, s') reads = record { extends = reads.extends; told = λ a k. cc }
  Reads-map_error e (panic, s') reads = reads

  -- A step that needs no call.
  pub continue-Reads {ℓ} :
      {A B : Type 0} {C : Type ℓ} {h : B → C} (o : Outcome A) (f : A → M S B) (s : S)
      {g : A → Ledger → Option C} {r : Option A}
      → result_of o ≡ r
      → ((a : A) → Reads ledger h s (f a s) (g a))
      → Reads ledger h s (continue o f s) (λ l. r >>= λ a. g a l)
  continue-Reads (ok a) f s e next = rw (← e) (next a)
  continue-Reads (err x) f s e next = record { extends = Extends-refl (ledger s); told = λ b k. cc }
  continue-Reads panic f s e next = record { extends = Extends-refl (ledger s); told = λ b k. cc }

  -- A part that calls the node, and the rest of the run.
  pub then-Reads {ℓ} :
      {A B : Type 0} {C : Type ℓ} {h : B → C} {s : S} (run : Outcome A × S) (f : A → M S B)
      (g : A → Ledger → Option C) {r : Ledger → Option A}
      → Reads ledger (λ a. a) s run r
      → IsKept r
      → ((a : A) → Reads ledger h run.1 (f a run.1) (g a))
      → Reads ledger h s (continue run.0 f run.1) (λ l. r l >>= λ a. g a l)
  then-Reads (ok a, s') f g first kept next = record {
    extends = Extends-trans first.extends (next a).extends;
    told = λ b k. rw (kept _ _ (next a).extends a (first.told a refl)) ((next a).told b k);
  }
  then-Reads (err x, s') f g first kept next = record { extends = first.extends; told = λ b k. cc }
  then-Reads (panic, s') f g first kept next = record { extends = first.extends; told = λ b k. cc }

  -- The same after a call whose error is replaced.
  pub call-Reads {ℓ} :
      {A B : Type 0} {C : Type ℓ} {h : B → C} {s : S} (call : Outcome A × S) (e : Error → Error)
      (f : A → M S B) (g : A → Ledger → Option C) {r : Ledger → Option A}
      → Reads ledger (λ a. a) s call r
      → IsKept r
      → ((a : A) → Reads ledger h call.1 (f a call.1) (g a))
      → Reads ledger h s (continue (map_error e call.0) f call.1) (λ l. r l >>= λ a. g a l)
  call-Reads call e f g first =
      then-Reads (map_error e call.0, call.1) f g (Reads-map_error e call first)

  -- The first result of a deploy that was told, and the rest of the run.
  executed {ℓ} :
      {B : Type 0} {C : Type ℓ} {h : B → C} {s s' : S} {hash : Text} (d : DeployResult)
      (xs : List ExecutionResult) (f : ExecutionResult → M S B)
      {g : DeployResult → ExecutionResult → Ledger → Option C}
      → d.execution_results ≡ xs
      → (ledger s').deploy hash ≡ some d
      → Extends (ledger s) (ledger s')
      → ((x : ExecutionResult) → Reads ledger h s' (f x s') (g d x))
      → Reads ledger h s
          (continue (first_result xs) f s')
          (λ l. l.deploy hash >>= λ d. first_of d.execution_results >>= λ x. g d x l)
  executed d [] f e found grown next = record { extends = grown; told = λ b k. cc }
  executed {hash = hash} d (x ∷ xs) f {g} e found grown next = record {
    extends = Extends-trans grown (next x).extends;
    told = λ b k.
        rw ((next x).extends.deploy hash d found (ap first_of e), ap first_of e)
          ((next x).told b k);
  }

  -- The call for a deploy, its first result, and the rest of the run.
  pub executed-Reads {ℓ} :
      {B : Type 0} {C : Type ℓ} {h : B → C} {s : S} {hash : Text} (call : Outcome DeployResult × S)
      (e : Error → Error) (f : DeployResult → ExecutionResult → M S B)
      (g : DeployResult → ExecutionResult → Ledger → Option C)
      → Reads ledger (λ a. a) s call (λ l. l.deploy hash)
      → ((d : DeployResult) (x : ExecutionResult) → Reads ledger h call.1 (f d x call.1) (g d x))
      → Reads ledger h s
          (continue
            (map_error e call.0)
            (λ d. continue (first_result d.execution_results) (f d))
            call.1)
          (λ l. l.deploy hash >>= λ d. first_of d.execution_results >>= λ x. g d x l)
  executed-Reads {s = s} (ok d, s') e f g first next =
      executed d d.execution_results (f d) refl (first.told d refl) first.extends (next d)
  executed-Reads (err x, s') e f g first next = record { extends = first.extends; told = λ b k. cc }
  executed-Reads (panic, s') e f g first next = record { extends = first.extends; told = λ b k. cc }

-- The node, on a chain that grows: each call that names what it asks for tells what the chain tells
-- at some time before the call ends.
pub record IsLive (sdk : Sdk) (ledger : sdk.State → Ledger) : Type 0 where
  pub block_by_hash : (h : Text) → Tells ledger (sdk.get_block_by_hash h) (λ l. l.block_by_hash h)
  pub block_by_height :
      (n : ℕ) → Tells ledger (sdk.get_block_by_height n) (λ l. l.block_by_height n)
  pub transfers_by_hash :
      (h : Text) → Tells ledger (sdk.get_block_transfers_by_hash h) (λ l. l.transfers_by_hash h)
  pub transfers_by_height :
      (n : ℕ) → Tells ledger (sdk.get_block_transfers_by_height n) (λ l. l.transfers_by_height n)
  pub deploy : (h : Text) → Tells ledger (sdk.get_deploy h) (λ l. l.deploy h)
  pub state_item :
      (root key : Text) (path : List Text)
      → Tells ledger (sdk.get_state_item root key path) (λ l. l.state_item root key path)
  pub account_balance :
      (root purse : Text)
      → Tells ledger (sdk.get_account_balance root purse) (λ l. l.account_balance root purse)
  pub payment_amount :
      (d : Deploy) → Tells ledger (sdk.read_payment_amount d) (λ l. l.payment_amount d)
