-- ===== src/Casper/Block/Own.antt =====
-- casper/client.go: what a transaction that `BlockTransaction` returns is made of.
use rosetta_casper.Common.{
  ◌≡◌, ◌≢◌, inl, inr, Bool, true, false, Bool-cases, List, [], ◌∷◌, Option, none, some, Text,
  text_eq, text_eq_iff,
}
use rosetta_casper.Go.Outcome.{Outcome, ok, deref}
use rosetta_casper.Go.Outcome.Run.{call-eq-ok, continue-eq-ok}
use rosetta_casper.Rosetta.{BlockIdentifier, Transaction}
use rosetta_casper.Casper.Sdk.{Sdk, TransferResponse, BlockResponse, DeployResult}
use rosetta_casper.Casper.Purse.{get_main_purse_from_public_key}
use rosetta_casper.Casper.Transaction.{first_result}
use rosetta_casper.Casper.Transaction.Built.{IsBuilt, create_ros_transaction-IsBuilt}
use rosetta_casper.Casper.Block.{block_transaction, get_block_response, transfers_of}

-- The second list has those transfers of the first that name the deploy, in their order.
pub data Selects (h : Text) : List TransferResponse → List TransferResponse → Type 0 where
  none_left : Selects h [] []
  taken :
      (t : TransferResponse) (ts own : List TransferResponse)
      → t.deploy_hash ≡ h
      → Selects h ts own
      → Selects h (t ∷ ts) (t ∷ own)
  skipped :
      (t : TransferResponse) (ts own : List TransferResponse)
      → t.deploy_hash ≢ h
      → Selects h ts own
      → Selects h (t ∷ ts) own

transfers_of-Selects : (h : Text) (ts : List TransferResponse) → Selects h ts (transfers_of h ts)
unfolding transfers_of
transfers_of-Selects h [] = none_left
transfers_of-Selects h (t ∷ ts) = elim (Bool-cases (text_eq t.deploy_hash h)) [
  | inl same ↦
      rw same (taken t ts _ ((text_eq_iff t.deploy_hash h).0 same) (transfers_of-Selects h ts))
  | inr other ↦ rw other (
      skipped t ts _ (λ e. clash other ((text_eq_iff t.deploy_hash h).1 e))
        (transfers_of-Selects h ts))
]
  where
    clash : {b : Bool} → b ≡ false → b ≡ true → ⊥
    clash e e' = cc

module _ (sdk : Sdk) where
  -- The answers of the node that a transaction rests on.
  pub record IsOwn (id : Option BlockIdentifier) (hash : Text) (s : sdk.State) (t : Transaction)
      : Type 0 where
    pub deploy : DeployResult
    pub got_deploy : (sdk.get_deploy hash s).0 ≡ ok deploy
    pub at : BlockIdentifier
    pub named : deref id ≡ ok at
    pub later : sdk.State
    pub transfers : List TransferResponse
    pub got_transfers : (sdk.get_block_transfers_by_hash at.hash later).0 ≡ ok transfers
    pub own : List TransferResponse
    pub selected : Selects deploy.deploy.hash transfers own
    pub built : IsBuilt sdk deploy.deploy.hash own t

  -- A transaction that `BlockTransaction` returns has the hash of the deploy that the node gives for
  -- the hash that was asked for, and its operations are those of the transfers that name this
  -- deploy, of all of them and of no other, among those of the block that was named.
  pub block_transaction-IsOwn :
      (id : Option BlockIdentifier) (hash : Text) (s : sdk.State) {t : Transaction}
      → (block_transaction sdk id (some hash) s).0 ≡ ok t
      → IsOwn id hash s t
  unfolding block_transaction
  block_transaction-IsOwn id hash s e =
      let got : Outcome DeployResult × sdk.State = sdk.get_deploy hash s in
      let (deploy, e0, e1) = call-eq-ok got _ _ e in
      let (result, _, e2) = continue-eq-ok (first_result deploy.execution_results) _ got.1 e1 in
      let whole : Outcome BlockResponse × sdk.State =
        get_block_response sdk (record { hash = some result.block_hash; index = none }) got.1 in
      let (b, _, e3) = call-eq-ok whole _ _ e2 in
      let (at, named, e4) = continue-eq-ok (deref id) _ whole.1 e3 in
      let listed : Outcome (List TransferResponse) × sdk.State =
        sdk.get_block_transfers_by_hash at.hash whole.1 in
      let (transfers, got_transfers, e5) = call-eq-ok listed _ _ e4 in
      let owner : Outcome Text × sdk.State =
        get_main_purse_from_public_key sdk b.body.proposer b.header.state_root_hash listed.1 in
      let (purse, _, e6) = call-eq-ok owner _ _ e5 in
      record {
        deploy = deploy;
        got_deploy = e0;
        at = at;
        named = named;
        later = whole.1;
        transfers = transfers;
        got_transfers = got_transfers;
        own = transfers_of deploy.deploy.hash transfers;
        selected = transfers_of-Selects deploy.deploy.hash transfers;
        built = create_ros_transaction-IsBuilt sdk deploy.deploy.hash _ b purse owner.1 e6;
      }
