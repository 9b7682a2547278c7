-- ===== src/Casper/Block/Source.antt =====
-- casper/client.go: which answers of the node a block that `Block` returns is made of.
use rosetta_casper.Common.{
  ◌≡◌, ◌≢◌, ◌⊎◌, inl, inr, ◌∙◌, refl, sym, ap, subst, map, All, All_weaken, All-map, List, [], ◌∷◌,
  Option, none, some, Text, ℤ,
}
use rosetta_casper.Go.Outcome.{Outcome, ok}
use rosetta_casper.Go.Outcome.Chain.{ok_injective}
use rosetta_casper.Go.Outcome.Run.{call-eq-ok, continue-eq-ok}
use rosetta_casper.Go.Strings.{slice}
use rosetta_casper.Go.Dict.{Dict, keys}
use rosetta_casper.Go.Machine.{to_uint64}
use rosetta_casper.Rosetta.{PartialBlockIdentifier, Block, Transaction}
use rosetta_casper.Casper.Sdk.{Sdk, TransferResponse, BlockResponse}
use rosetta_casper.Casper.Purse.{account_preimage, get_main_purse_from_public_key}
use mathlib.Core.List.{Permᴰ}
use rosetta_casper.Casper.Ledger.Blocks.{IsWalk}
use rosetta_casper.Casper.Transaction.Built.{IsBuilt}
use rosetta_casper.Casper.Block.Built.{IsOfEntry, assemble-All}
use rosetta_casper.Casper.Block.Complete.{hash_of, hashes-create_transactions}
use rosetta_casper.Casper.Block.Reordered.{All-Permᴰ, map-Permᴰ}
use rosetta_casper.Casper.Block.Walk.{carried, deploys_of, grouped_lem}
use rosetta_casper.Casper.Block.{
  Fetched, fetch, fetch_by_hash, fetch_by_index, fetch_latest, create_transactions, assemble, block,
  block_identifier, parent_block_identifier, milliseconds, zero_block, grouped,
}

keys-carried :
    (ts : List TransferResponse) (hs : List Text) → keys (map (λ h. (h, carried ts h)) hs) ≡ hs
keys-carried ts [] = refl
keys-carried ts (h ∷ hs) = ap (λ ks. h ∷ ks) (keys-carried ts hs)

-- The zero values of a block and its transfers.
abbrev nothing : Fetched
nothing = record { block = zero_block; transfers = [] }

module _ (sdk : Sdk) where
  -- Where a block and its transfers come from: two calls, the second after the first. With an
  -- index, a hash beside it does not matter; an identifier with neither has no source.
  pub data Source : Option PartialBlockIdentifier → Fetched → Type 0 where
    latest :
        (f : Fetched) (s : sdk.State)
        → (sdk.get_latest_block s).0 ≡ ok f.block
        → (sdk.get_latest_block_transfers (sdk.get_latest_block s).1).0 ≡ ok f.transfers
        → Source none f
    by_hash :
        (h : Text) (f : Fetched) (s : sdk.State)
        → (sdk.get_block_by_hash h s).0 ≡ ok f.block
        → (sdk.get_block_transfers_by_hash h (sdk.get_block_by_hash h s).1).0 ≡ ok f.transfers
        → Source (some (record { hash = some h; index = none })) f
    by_height :
        (h : Option Text) (i : ℤ) (f : Fetched) (s : sdk.State)
        → (sdk.get_block_by_height (to_uint64 i) s).0 ≡ ok f.block
        → (sdk.get_block_transfers_by_height
            (to_uint64 i)
            (sdk.get_block_by_height (to_uint64 i) s).1).0
          ≡ ok f.transfers
        → Source (some (record { hash = h; index = some i })) f

  fetch_latest-Source :
      (s : sdk.State) {f : Fetched} → (fetch_latest sdk s).0 ≡ ok f → Source none f
  unfolding fetch_latest
  fetch_latest-Source s e =
      let first : Outcome BlockResponse × sdk.State = sdk.get_latest_block s in
      let (b, e0, e1) = call-eq-ok first _ _ e in
      let second : Outcome (List TransferResponse) × sdk.State =
        sdk.get_latest_block_transfers first.1 in
      let (ts, e2, e3) = call-eq-ok second _ _ e1 in rw (← (ok_injective _ _ e3)) (latest _ s e0 e2)

  fetch_by_hash-Source :
      (h : Text) (old : Fetched) (s : sdk.State) {f : Fetched}
      → (fetch_by_hash sdk (some h) old s).0 ≡ ok f
      → Source (some (record { hash = some h; index = none })) f
  unfolding fetch_by_hash
  fetch_by_hash-Source h old s e =
      let first : Outcome BlockResponse × sdk.State = sdk.get_block_by_hash h s in
      let (b, e0, e1) = call-eq-ok first _ _ e in
      let second : Outcome (List TransferResponse) × sdk.State =
        sdk.get_block_transfers_by_hash h first.1 in
      let (ts, e2, e3) = call-eq-ok second _ _ e1 in
      rw (← (ok_injective _ _ e3)) (by_hash h _ s e0 e2)

  fetch_by_index-Source :
      (h : Option Text) (i : ℤ) (old : Fetched) (s : sdk.State) {f : Fetched}
      → (fetch_by_index sdk (some i) old s).0 ≡ ok f
      → Source (some (record { hash = h; index = some i })) f
  unfolding fetch_by_index
  fetch_by_index-Source h i old s e =
      let first : Outcome BlockResponse × sdk.State = sdk.get_block_by_height (to_uint64 i) s in
      let (b, e0, e1) = call-eq-ok first _ _ e in
      let second : Outcome (List TransferResponse) × sdk.State =
        sdk.get_block_transfers_by_height (to_uint64 i) first.1 in
      let (ts, e2, e3) = call-eq-ok second _ _ e1 in
      rw (← (ok_injective _ _ e3)) (by_height h i _ s e0 e2)

  -- Both steps of `fetch`, from the zero values.
  fetched-Source :
      (h : Option Text) (i : Option ℤ) (old : Fetched) (s s' : sdk.State) {f : Fetched}
      → (fetch_by_hash sdk h nothing s).0 ≡ ok old
      → (fetch_by_index sdk i old s').0 ≡ ok f
      → ((h ≡ none) × (i ≡ none) × (f ≡ nothing)) ⊎ Source (some (record { hash = h; index = i })) f
  unfolding fetch_by_hash fetch_by_index
  fetched-Source h (some i) old s s' got e = inr (fetch_by_index-Source h i old s' e)
  fetched-Source (some h) none old s s' got e =
      inr (rw (← (ok_injective _ _ e)) (fetch_by_hash-Source h nothing s got))
  fetched-Source none none old s s' got e =
      inl (refl, refl, sym (ok_injective _ _ e) ∙ sym (ok_injective _ _ got))

  fetch-Source :
      (h : Option Text) (i : Option ℤ) (s : sdk.State) {f : Fetched}
      → (fetch sdk (some (record { hash = h; index = i })) s).0 ≡ ok f
      → ((h ≡ none) × (i ≡ none) × (f ≡ nothing)) ⊎ Source (some (record { hash = h; index = i })) f
  unfolding fetch
  fetch-Source h i s e =
      let first : Outcome Fetched × sdk.State = fetch_by_hash sdk h nothing s in
      let (f, got, e1) = continue-eq-ok first.0 _ first.1 e in fetched-Source h i f s first.1 got e1

  -- A transaction that is made of the transfers that are carried for its deploy.
  abbrev pub IsBuiltFrom : List TransferResponse → Transaction → Type 0
  IsBuiltFrom transfers t =
      IsBuilt sdk t.transaction_identifier (carried transfers t.transaction_identifier) t

  IsOfEntry-IsBuiltFrom :
      (transfers : List TransferResponse) (t : Transaction)
      → IsOfEntry sdk (λ e. e.1 ≡ carried transfers e.0) t
      → IsBuiltFrom transfers t
  IsOfEntry-IsBuiltFrom transfers t (e, same, built) =
      subst (λ h. IsBuilt sdk h (carried transfers h) t) (sym built.identifier)
        (subst (λ ts. IsBuilt sdk e.0 ts t) same built)

  -- The head of a block is that of what was fetched. Its transactions are those of the deploys that
  -- the fetched block lists or that own one of the fetched transfers, one of each, and each is built
  -- from the transfers that the map of `Block` holds for its deploy.
  pub record IsSourced (id : Option PartialBlockIdentifier) (b : Block) : Type 0 where
    pub fetched : Fetched
    pub source : Source id fetched
    pub identifier : b.block_identifier ≡ block_identifier fetched.block
    pub parent : b.parent_block_identifier ≡ parent_block_identifier fetched.block
    pub time : b.timestamp ≡ milliseconds fetched.block
    pub deploys :
        Permᴰ
          (map hash_of b.transactions)
          (deploys_of fetched.transfers fetched.block.body.deploy_hashes)
    pub built : All (IsBuiltFrom fetched.transfers) b.transactions

  module _ (order : Dict (List TransferResponse) → Dict (List TransferResponse))
      (walk : IsWalk order) where
    assemble-IsSourced :
        {id : Option PartialBlockIdentifier} (f : Fetched) (s : sdk.State) {b : Block}
        → Source id f
        → (assemble sdk order f s).0 ≡ ok b
        → IsSourced id b
    unfolding assemble
    assemble-IsSourced f s {b} source e =
        let got : Outcome Text × sdk.State =
          get_main_purse_from_public_key sdk f.block.body.proposer f.block.header.state_root_hash
            s in
        let (purse, _, e1) = call-eq-ok got _ _ e in
        let map_of = grouped f.transfers f.block.body.deploy_hashes in
        let listed = deploys_of f.transfers f.block.body.deploy_hashes in
        let entries : map_of ≡ map (λ h. (h, carried f.transfers h)) listed =
          grouped_lem f.transfers f.block.body.deploy_hashes in
        let (ts, made, e2) =
          continue-eq-ok (create_transactions sdk (order map_of) f.block purse got.1).0 _ _ e1 in
        let same = ok_injective _ _ e2 in
        let named : map hash_of b.transactions ≡ keys (order map_of) =
          sym (ap (λ (b : Block). map hash_of b.transactions) same)
          ∙ hashes-create_transactions sdk (order map_of) f.block purse got.1 made in
        record {
          fetched = f;
          source = source;
          identifier = sym (ap (λ (b : Block). b.block_identifier) same);
          parent = sym (ap (λ (b : Block). b.parent_block_identifier) same);
          time = sym (ap (λ (b : Block). b.timestamp) same);
          deploys =
              subst (λ hs. Permᴰ hs listed) (sym named)
                (subst (Permᴰ (keys (order map_of)))
                  (ap keys entries ∙ keys-carried f.transfers listed)
                  (map-Permᴰ (λ e. e.0) (walk map_of)));
          built = All_weaken _ (IsOfEntry-IsBuiltFrom f.transfers) (
              assemble-All sdk _ order f s
                (All-Permᴰ _ (walk map_of)
                  (subst (All _) (sym entries) (All-map _ _ listed λ h. refl)))
                e);
        }

    -- The empty proposer of the zero block is sliced.
    assemble-nothing : (s : sdk.State) {b : Block} → (assemble sdk order nothing s).0 ≢ ok b
    unfolding assemble get_main_purse_from_public_key account_preimage slice
    assemble-nothing s e = cc

    named-IsSourced :
        (h : Option Text) (i : Option ℤ) (s : sdk.State) {b : Block}
        → (block sdk order (some (record { hash = h; index = i })) s).0 ≡ ok b
        → IsSourced (some (record { hash = h; index = i })) b
    unfolding block
    named-IsSourced h i s e =
        let first : Outcome Fetched × sdk.State =
          fetch sdk (some (record { hash = h; index = i })) s in
        let (f, got, e1) = continue-eq-ok first.0 _ first.1 e in
        elim (fetch-Source h i s got) [
          | inl (_, _, empty) ↦ absurd (assemble-nothing first.1 (rw empty at e1))
          | inr source ↦ assemble-IsSourced f first.1 source e1
        ]

    -- If Go's walk over a map gives its entries in some order, a block that `Block` returns is made of
    -- the block and the transfers that the node gave, in two calls one after the other, for the latest
    -- block where no identifier is given, for the index where there is one, and for the hash
    -- otherwise; an identifier with neither gives no block. Its head is that of the fetched block. It
    -- has one transaction for each deploy that the fetched block lists or that owns one of the fetched
    -- transfers and no other, each built from as many transfers as its deploy owns of those fetched,
    -- all equal to the last of them.
    pub block-IsSourced :
        (id : Option PartialBlockIdentifier) (s : sdk.State) {b : Block}
        → (block sdk order id s).0 ≡ ok b
        → IsSourced id b
    unfolding block fetch
    block-IsSourced none s e =
        let first : Outcome Fetched × sdk.State = fetch_latest sdk s in
        let (f, got, e1) = continue-eq-ok first.0 _ first.1 e in
        assemble-IsSourced f first.1 (fetch_latest-Source s got) e1
    block-IsSourced (some id) s e = named-IsSourced id.hash id.index s e
