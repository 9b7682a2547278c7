-- ===== src/Casper/Ledger/Named.antt =====
-- casper/client.go: what is answered for the latest block, asked for again by its name.
use rosetta_casper.Common.{◌≡◌, refl, sym, ap, ◌∙◌, ℕ, ◌<◌, ◌^◌, List, none, some}
use mathlib.Core.Option.{some-injective}
use rosetta_casper.Go.Outcome.{ok}
use rosetta_casper.Go.Outcome.Gives.{result_of, view, >>=-eq-some}
use rosetta_casper.Go.Dict.{Dict}
use rosetta_casper.Go.Machine.{to_uint64-to_int64}
use rosetta_casper.Rosetta.{
  PartialBlockIdentifier, BlockIdentifier, AccountIdentifier, AccountBalanceResponse, Block,
}
use rosetta_casper.Casper.Sdk.{Sdk, TransferResponse}
use rosetta_casper.Casper.Block.{Fetched, StatusAnswer, status, block, block_identifier}
use rosetta_casper.Casper.Balance.{balance}
use rosetta_casper.Casper.Ledger.{
  Ledger, Answers, BlockView, key_purse, transaction_of, view_of, fetched, assembled, block_of,
  balance_of, status_of, purse_named,
}
use rosetta_casper.Casper.Block.Walk.{deploys_of, carried}
use rosetta_casper.Casper.Ledger.Unordered.{gather}
use rosetta_casper.Casper.Ledger.Blocks.{IsWalk}
use rosetta_casper.Casper.Ledger.Refinement.{client-RefinesClient}
use rosetta_casper.Casper.Ledger.Query.{of_block}
use rosetta_casper.Casper.Ledger.Stable.{IsStable, seen_again, told_again}

-- The identifier of a block, as it is asked for: by hash and index.
abbrev pub by_name : BlockIdentifier → PartialBlockIdentifier
by_name id = record { hash = some id.hash; index = some id.index }

-- The latest block and its transfers are found under its hash and under its height.
pub record HasLatest (ledger : Ledger) (f : Fetched) : Type 0 where
  pub block : ledger.latest_block ≡ some f.block
  pub transfers : ledger.latest_transfers ≡ some f.transfers
  pub block_by_hash : ledger.block_by_hash f.block.hash ≡ some f.block
  pub transfers_by_hash : ledger.transfers_by_hash f.block.hash ≡ some f.transfers
  pub block_by_height : ledger.block_by_height f.block.header.height ≡ some f.block
  pub transfers_by_height : ledger.transfers_by_height f.block.header.height ≡ some f.transfers
  pub height : f.block.header.height < 2 ^ 64

module _ (ledger : Ledger) (sum256 : List ℕ → List ℕ) where
  block_identifier-assembled :
      (f : Fetched) {v : BlockView}
      → assembled ledger sum256 f ≡ some v
      → v.block_identifier ≡ block_identifier f.block
  block_identifier-assembled f e =
      let root = f.block.header.state_root_hash in
      let (validator, found, e1) =
        >>=-eq-some (key_purse ledger sum256 root f.block.body.proposer) _ e in
      let (ts, made, e2) =
        >>=-eq-some
          (gather (λ h. transaction_of ledger sum256 root validator h (carried f.transfers h))
            (deploys_of f.transfers f.block.body.deploy_hashes))
          _ e1 in
      sym (ap (λ (v : BlockView). v.block_identifier) (some-injective _ _ e2))

  module _ {f : Fetched} (latest : HasLatest ledger f) where
    fetched-by_name :
        fetched ledger (some (by_name (block_identifier f.block))) ≡ fetched ledger none
    fetched-by_name =
        rw
          (
            latest.block_by_hash,
            latest.transfers_by_hash,
            to_uint64-to_int64 f.block.header.height latest.height,
            latest.block_by_height,
            latest.transfers_by_height,
            latest.block,
            latest.transfers,
          )
          refl

    fetched-none : fetched ledger none ≡ some f
    fetched-none = rw (latest.block, latest.transfers) refl

    block_of-by_name :
        block_of ledger sum256 (some (by_name (block_identifier f.block)))
        ≡ block_of ledger sum256 none
    block_of-by_name = rw fetched-by_name refl

    balance_of-by_name :
        (account : AccountIdentifier)
        → balance_of ledger sum256 account (some (by_name (block_identifier f.block)))
          ≡ balance_of ledger sum256 account none
    balance_of-by_name account =
        rw
          (
            latest.block_by_hash,
            to_uint64-to_int64 f.block.header.height latest.height,
            latest.block_by_height,
            latest.block,
          )
          refl

    block-status_of :
        {a : StatusAnswer} → status_of ledger ≡ some a → a.block ≡ block_identifier f.block
    block-status_of e =
        let (b, found, e1) = >>=-eq-some ledger.latest_block _ e in
        let (ps, told, e2) = >>=-eq-some ledger.peers _ e1 in
        sym (ap (λ (a : StatusAnswer). a.block) (some-injective _ _ e2))
        ∙ ap block_identifier (some-injective _ _ (sym found ∙ latest.block))

    block_identifier-balance_of :
        (account : AccountIdentifier) {held : AccountBalanceResponse}
        → balance_of ledger sum256 account none ≡ some held
        → held.block_identifier ≡ block_identifier f.block
    block_identifier-balance_of account e =
        let (b, found, e1) = >>=-eq-some ledger.latest_block _ e in
        let (uref, named, e2) =
          >>=-eq-some (purse_named ledger sum256 b.header.state_root_hash account.address) _ e1 in
        let (amount, told, e3) =
          >>=-eq-some (ledger.account_balance b.header.state_root_hash uref) _ e2 in
        sym (ap (λ (a : AccountBalanceResponse). a.block_identifier) (some-injective _ _ e3))
        ∙ ap block_identifier (some-injective _ _ (sym found ∙ latest.block))

module _ (sdk : Sdk) (order : Dict (List TransferResponse) → Dict (List TransferResponse))
    (account : AccountIdentifier) where
  -- What the methods answer for the latest block, and what they answer for its name.
  pub record AnswersByName (a : StatusAnswer) (b : Block) (held : AccountBalanceResponse)
      (s : sdk.State) : Type 0 where
    pub current : a.block ≡ b.block_identifier
    pub held_at : held.block_identifier ≡ b.block_identifier
    pub block_again : IsStable sdk order (of_block (by_name b.block_identifier)) s b
    pub balance_again : (balance sdk account (some (by_name b.block_identifier)) s).0 ≡ ok held

module _ {sdk : Sdk} {ledger : Ledger} (answers : Answers ledger sdk)
    (order : Dict (List TransferResponse) → Dict (List TransferResponse)) (walk : IsWalk order)
    {f : Fetched} (latest : HasLatest ledger f) (account : AccountIdentifier) where
  -- Where the node answers from one state of the chain, in which the latest block and its transfers
  -- are also found under its hash and its height, a uint64, and walks over maps give their entries in
  -- some order, `Status`, `Block` and `Balance` name one block where they are asked without an
  -- identifier, and for the hash and the index of this name `Block` returns the same block up to the
  -- order of its transactions, and `Balance` the same balance.
  pub client-AnswersByName :
      (s1 s2 s3 s : sdk.State) {a : StatusAnswer} {b : Block} {held : AccountBalanceResponse}
      → (status sdk s1).0 ≡ ok a
      → (block sdk order none s2).0 ≡ ok b
      → (balance sdk account none s3).0 ≡ ok held
      → AnswersByName sdk order account a b held s
  client-AnswersByName s1 s2 s3 s {a} {b} {held} e1 e2 e3 =
      let refines = client-RefinesClient answers order walk in
      let told : block_of ledger sdk.sum256 none ≡ some (view_of b) =
        sym (refines.block none s2) ∙ ap (view view_of) e2 in
      let name : b.block_identifier ≡ block_identifier f.block =
        block_identifier-assembled ledger sdk.sum256 f
          (rw (fetched-none ledger sdk.sum256 latest) at told) in
      let (b', got, same) =
        seen_again view_of _ _ (refines.block none s2)
          (refines.block (some (by_name b.block_identifier)) s)
          (λ v e. rw name (block_of-by_name ledger sdk.sum256 latest ∙ e)) e2 in
      record {
        current =
            block-status_of ledger sdk.sum256 latest (sym (refines.status s1) ∙ ap result_of e1)
            ∙ sym name;
        held_at =
            block_identifier-balance_of ledger sdk.sum256 latest account
              (sym (refines.balance account none s3) ∙ ap result_of e3)
            ∙ sym name;
        block_again = record { again = b'; given = got; same = same };
        balance_again =
            told_again _ _ (refines.balance account none s3)
              (refines.balance account (some (by_name b.block_identifier)) s)
              (λ v e. rw name (balance_of-by_name ledger sdk.sum256 latest account ∙ e)) e3;
      }
