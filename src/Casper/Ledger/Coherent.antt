-- ===== src/Casper/Ledger/Coherent.antt =====
-- casper/client.go: `BlockTransaction` beside `Block`.
use rosetta_casper.Common.{
  ◌≡◌, refl, sym, ap, subst, ◌∙◌, List, [], ◌∷◌, Option, none, some, Text, All, All_weaken, All-map,
  ℤ,
}
use mathlib.Core.List.{Memᴰ}
use mathlib.Core.Option.{some-injective}
use rosetta_casper.Go.Dict.{Dict}
use rosetta_casper.Go.Outcome.{Outcome, ok, err, panic}
use rosetta_casper.Go.Outcome.Chain.{ok_injective}
use rosetta_casper.Go.Outcome.Run.{call-eq-ok, continue-eq-ok}
use rosetta_casper.Go.Outcome.Gives.{>>=-eq-some, result_of}
use rosetta_casper.Rosetta.{Block, Transaction, PartialBlockIdentifier}
use rosetta_casper.Casper.Sdk.{Sdk, TransferResponse, DeployResult, ExecutionResult}
use rosetta_casper.Casper.Operations.{result_operations}
use rosetta_casper.Casper.Purse.{get_main_purse_from_public_key}
use rosetta_casper.Casper.Block.{
  Fetched, fetch, create_transactions, assemble, block, block_transaction, block_identifier,
  grouped, transfers_of, fetch_by_hash,
}
use rosetta_casper.Casper.Block.Aliasing.{last_transfer, replicate_iff}
use rosetta_casper.Casper.Block.Reordered.{All-Permᴰ}
use rosetta_casper.Casper.Block.Walk.{carried, deploys_of, grouped_lem}
use rosetta_casper.Casper.Ledger.{
  Ledger, Answers, first_of, fetched, transaction_of, key_purse, payment_of,
}
use rosetta_casper.Casper.Ledger.Unordered.{gather}
use rosetta_casper.Casper.Ledger.Transactions.{key_purse-Gives}
use rosetta_casper.Casper.Ledger.Blocks.{
  IsWalk, create_transactions-Gives, fetch-Gives, fetch_latest-Gives, fetch_by_index-Gives,
}
use rosetta_casper.Casper.Ledger.Refinement.{block_transaction-Gives}

pub result_of-eq-some : {A : Type 0} (o : Outcome A) {a : A} → result_of o ≡ some a → o ≡ ok a
result_of-eq-some (ok b) e = ap ok (some-injective _ _ e)
result_of-eq-some (err e') e = cc
result_of-eq-some panic e = cc

module _ {A : Type 0} (P : A → Type 0) where
  All-Memᴰ : (xs : List A) {x : A} → All P xs → Memᴰ x xs → P x
  All-Memᴰ [] _ m = elim m [ ]
  All-Memᴰ (x ∷ xs) (p, h) (Memᴰ.head e) = subst P (sym e) p
  All-Memᴰ (x ∷ xs) (p, h) (Memᴰ.tail m) = All-Memᴰ xs h m

-- Where a result that was gathered comes from.
gather-All :
    {K A : Type 0} (P : K → Type 0) (f : K → Option A) (ks : List K) {rs : List A}
    → All P ks
    → gather f ks ≡ some rs
    → All (λ a. (k : K) × P k × (f k ≡ some a)) rs
gather-All P f [] h e = subst (All _) (some-injective _ _ e) tt
gather-All P f (k ∷ ks) (p, h) e =
    let (a, here, e1) = >>=-eq-some (f k) _ e in
    let (more, rest, e2) = >>=-eq-some (gather f ks) _ e1 in
    subst (All _) (some-injective _ _ e2) ((k, p, here), gather-All P f ks h rest)

hash-transaction_of :
    (ledger : Ledger) (sum256 : _) (root validator h : Text) (ts : List TransferResponse)
    {t : Transaction}
    → transaction_of ledger sum256 root validator h ts ≡ some t
    → t.transaction_identifier ≡ h
hash-transaction_of ledger sum256 root validator h ts e =
    let (d, _, e1) = >>=-eq-some (ledger.deploy h) _ e in
    let (result, _, e2) = >>=-eq-some (first_of d.execution_results) _ e1 in
    let (signer, _, e3) = >>=-eq-some (key_purse ledger sum256 root d.deploy.account) _ e2 in
    let (payment, _, e4) = >>=-eq-some (payment_of ledger d.deploy) _ e3 in
    let (os, _, e5) =
      >>=-eq-some (result_of (result_operations signer validator payment ts result)) _ e4 in
    ap (λ (t : Transaction). t.transaction_identifier) (sym (some-injective _ _ e5))

module _ {sdk : Sdk} {ledger : Ledger} (answers : Answers ledger sdk) where
  fetch_named :
      (h : Option Text) (i : Option ℤ) (f : Fetched) (s : sdk.State)
      → fetched ledger (some (record { hash = h; index = i })) ≡ some f
      → (fetch sdk (some (record { hash = h; index = i })) s).0 ≡ ok f
  unfolding fetch fetch_by_hash
  fetch_named none none f s e = cc
  fetch_named none (some i) f s e = result_of-eq-some _ (fetch_by_index-Gives answers i _ s ∙ e)
  fetch_named (some h) i f s e = result_of-eq-some _ (fetch-Gives answers h i s ∙ e)

  fetch_lem :
      (id : Option PartialBlockIdentifier) (f : Fetched) (s : sdk.State)
      → fetched ledger id ≡ some f
      → (fetch sdk id s).0 ≡ ok f
  unfolding fetch
  fetch_lem none f s e = result_of-eq-some _ (fetch_latest-Gives answers s ∙ e)
  fetch_lem (some id) f s e = fetch_named id.hash id.index f s e

  -- A transaction of a block: that of an entry of the map, under the purse of the block's proposer.
  record IsMade (f : Fetched) (t : Transaction) : Type 0 where
    validator : Text
    owner :
        key_purse ledger sdk.sum256 f.block.header.state_root_hash f.block.body.proposer
        ≡ some validator
    made :
        transaction_of ledger sdk.sum256 f.block.header.state_root_hash validator
          t.transaction_identifier
          (carried f.transfers t.transaction_identifier)
        ≡ some t

  module _ (order : Dict (List TransferResponse) → Dict (List TransferResponse)) where
    assemble-IsMade :
        IsWalk order
        → (f : Fetched) (s : sdk.State) {b : Block} → (assemble sdk order f s).0 ≡ ok b
        → All (IsMade f) b.transactions
    unfolding assemble
    assemble-IsMade walk f s e =
        let root = f.block.header.state_root_hash in
        let got : Outcome Text × sdk.State =
          get_main_purse_from_public_key sdk f.block.body.proposer root s in
        let (validator, found, e1) = call-eq-ok got _ _ e in
        let groups = grouped f.transfers f.block.body.deploy_hashes in
        let (ts, built, e2) =
          continue-eq-ok (create_transactions sdk (order groups) f.block validator got.1).0 _ _
            e1 in
        let carries : All (λ (x : Text × List TransferResponse). x.1 ≡ carried f.transfers x.0)
            groups =
          subst (All _) (sym (grouped_lem f.transfers f.block.body.deploy_hashes))
            (All-map _ _ (deploys_of f.transfers f.block.body.deploy_hashes) λ h. refl) in
        subst (λ (b : Block). All (IsMade f) b.transactions) (ok_injective _ _ e2)
          (All_weaken ts
            (λ t (x, same, from).
              let named = hash-transaction_of ledger sdk.sum256 root validator x.0 x.1 from in
              record {
                validator = validator;
                owner =
                    sym (key_purse-Gives answers root f.block.body.proposer s) ∙ ap result_of found;
                made =
                    subst
                      (λ h.
                        transaction_of ledger sdk.sum256 root validator h (carried f.transfers h)
                        ≡ some t)
                      (sym named)
                      (subst (λ xs. transaction_of ledger sdk.sum256 root validator x.0 xs ≡ some t)
                        same from);
              })
            (gather-All _ _ (order groups) (All-Permᴰ _ (walk groups) carries) (
              sym (create_transactions-Gives answers (order groups) f.block validator got.1)
              ∙ ap result_of built)))

    block-IsMade :
        IsWalk order
        → (id : Option PartialBlockIdentifier) (f : Fetched) (s : sdk.State) {b : Block}
        → fetched ledger id ≡ some f
        → (block sdk order id s).0 ≡ ok b
        → All (IsMade f) b.transactions
    unfolding block
    block-IsMade walk id f s {b} named e =
        let first : Outcome Fetched × sdk.State = fetch sdk id s in
        let (f', got, e1) = continue-eq-ok first.0 _ first.1 e in
        assemble-IsMade walk f first.1 (
          subst (λ (g : Fetched). (assemble sdk order g first.1).0 ≡ ok b)
            (ok_injective _ _ (sym got ∙ fetch_lem id f s named)) e1)

    -- Where the node answers from one state of the chain, in which a block and its transfers are also
    -- found under the block's own hash, and Go's walk over a map gives its entries in some order, a
    -- transaction of the block that `Block` returns is what `BlockTransaction` returns for the block
    -- and the transaction's hash, provided that the deploy of this hash names itself and its first
    -- result the block, and that all transfers of the deploy equal the last transfer of the block.
    pub block_transaction-eq-block :
        IsWalk order
        → (id : Option PartialBlockIdentifier) (f : Fetched) (s later : sdk.State) {b : Block}
        → fetched ledger id ≡ some f
        → (block sdk order id s).0 ≡ ok b
        → ledger.block_by_hash f.block.hash ≡ some f.block
        → ledger.transfers_by_hash f.block.hash ≡ some f.transfers
        → (t : Transaction) → Memᴰ t b.transactions
        → (d : DeployResult) (r : ExecutionResult) (rest : List ExecutionResult)
        → ledger.deploy t.transaction_identifier ≡ some d
        → d.deploy.hash ≡ t.transaction_identifier
        → d.execution_results ≡ r ∷ rest
        → r.block_hash ≡ f.block.hash
        → All
            (λ x. x ≡ last_transfer f.transfers)
            (transfers_of t.transaction_identifier f.transfers)
        → (block_transaction sdk
            (some (block_identifier f.block))
            (some t.transaction_identifier)
            later).0
          ≡ ok t
    block_transaction-eq-block walk id f s later named e by_hash listed t member d r rest found own
          first at alike =
        let made = All-Memᴰ (IsMade f) _ (block-IsMade walk id f s named e) member in
        result_of-eq-some _ (
          block_transaction-Gives answers (some (block_identifier f.block))
            (some t.transaction_identifier) later
          ∙ rw (found, first, at, by_hash, listed, made.owner, own)
              (subst
                (λ xs.
                  transaction_of ledger sdk.sum256 f.block.header.state_root_hash made.validator
                    t.transaction_identifier xs
                  ≡ some t)
                ((replicate_iff (last_transfer f.transfers) _).1 alike) made.made))
