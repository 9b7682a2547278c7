-- ===== src/Casper/Block/Complete.antt =====
-- casper/client.go: which transactions `Block` returns.
use rosetta_casper.Common.{
  ℕ, ◌+◌, ◌≡◌, ◌≢◌, refl, sym, ap, ap₂, ◌∙◌, inl, inr, Bool, true, false, ◌||◌, List, [], ◌∷◌, map,
  Option, none, some, arith, member, Text, text_eq, text_eq_iff, if◌then◌else◌, All, Bool-cases,
}
use rosetta_casper.Go.Outcome.{Outcome, ok, M, map_error}
use rosetta_casper.Go.Outcome.Chain.{ok_injective}
use rosetta_casper.Go.Outcome.Run.{call-eq-ok, continue-eq-ok}
use rosetta_casper.Go.Dict.{Dict, keys, lookup, HasDistinctKeys, insert-HasDistinctKeys}
use rosetta_casper.Rosetta.{Transaction, Block}
use rosetta_casper.Casper.Sdk.{Sdk, TransferResponse, BlockResponse}
use rosetta_casper.Casper.Purse.{get_main_purse_from_public_key}
use rosetta_casper.Casper.Transaction.{create_ros_transaction}
use rosetta_casper.Casper.Block.{Fetched, create_transactions, assemble}
use rosetta_casper.Casper.Block.Grouping.{
  Pointer, Loop, ensure_key, append_at, next, start, group_transfers, add_deploys, load_all,
  grouped,
}
use rosetta_casper.Casper.Block.Aliasing.{lookup-grouped, has_transfer}

-- How often a text is listed.
abbrev pub occurrences : Text → List Text → ℕ
occurrences k [] = 0
occurrences k (h ∷ hs) = (if text_eq h k then 1 else 0) + occurrences k hs

ensure_key-HasDistinctKeys :
    (k : Text) (m : Dict (List Pointer)) → HasDistinctKeys m → HasDistinctKeys (ensure_key k m)
unfolding ensure_key
ensure_key-HasDistinctKeys k m h = ground (arith, insert-HasDistinctKeys k [] m h)

group_transfers-HasDistinctKeys :
    (l : Loop) (ts : List TransferResponse)
    → HasDistinctKeys l.groups
    → HasDistinctKeys (group_transfers l ts).groups
unfolding group_transfers append_at
group_transfers-HasDistinctKeys l [] h = h
group_transfers-HasDistinctKeys l (t ∷ ts) h =
    group_transfers-HasDistinctKeys (next l t) ts (
      insert-HasDistinctKeys t.deploy_hash _ _
        (ensure_key-HasDistinctKeys t.deploy_hash l.groups h))

add_deploys-HasDistinctKeys :
    (hs : List Text) (m : Dict (List Pointer))
    → HasDistinctKeys m
    → HasDistinctKeys (add_deploys hs m)
unfolding add_deploys
add_deploys-HasDistinctKeys [] m h = h
add_deploys-HasDistinctKeys (k ∷ hs) m h =
    add_deploys-HasDistinctKeys hs (ensure_key k m) (ensure_key-HasDistinctKeys k m h)

pub keys-load_all : (l : Loop) (m : Dict (List Pointer)) → keys (load_all l m) ≡ keys m
unfolding load_all
keys-load_all l [] = refl
keys-load_all l ((k, ps) ∷ m) = ap (λ ks. k ∷ ks) (keys-load_all l m)

absent : (k : Text) (hs : List Text) → All (λ j. j ≢ k) hs → occurrences k hs ≡ 0
absent k [] _ = refl
absent k (h ∷ hs) (n, ns) = ground (arith, text_eq_iff h k, absent k hs ns)

abbrev is_some {ℓ} : {A : Type ℓ} → Option A → Bool
is_some none = false
is_some (some _) = true

-- In a map without repeated keys a key is listed once if it has an entry, and never if not.
occurrences-keys {ℓ} :
    {V : Type ℓ} (k : Text) (m : Dict V)
    → HasDistinctKeys m
    → occurrences k (keys m) ≡ (if is_some (lookup k m) then 1 else 0)
unfolding lookup
occurrences-keys k [] _ = refl
occurrences-keys k ((j, v) ∷ m) (fresh, h) = elim (Bool-cases (text_eq j k)) [
  | inl same ↦ rw (same, absent k (keys m) (rw ((text_eq_iff j k).0 same) at fresh)) (omega arith)
  | inr other ↦ rw (other, occurrences-keys k m h) (omega arith)
]

load_all-HasDistinctKeys :
    (l : Loop) (m : Dict (List Pointer)) → HasDistinctKeys m → HasDistinctKeys (load_all l m)
unfolding load_all
load_all-HasDistinctKeys l [] _ = tt
load_all-HasDistinctKeys l ((k, ps) ∷ m) (fresh, h) =
    (rw (keys-load_all l m) fresh, load_all-HasDistinctKeys l m h)

pub grouped-HasDistinctKeys :
    (ts : List TransferResponse) (deploys : List Text) → HasDistinctKeys (grouped ts deploys)
unfolding grouped
grouped-HasDistinctKeys ts deploys =
    load_all-HasDistinctKeys (group_transfers start ts) _
      (add_deploys-HasDistinctKeys deploys _ (group_transfers-HasDistinctKeys start ts tt))

occurrences-grouped :
    (k : Text) (ts : List TransferResponse) (deploys : List Text)
    → occurrences k (keys (grouped ts deploys))
      ≡ (if has_transfer k ts || member k deploys then 1 else 0)
occurrences-grouped k ts deploys =
    occurrences-keys k (grouped ts deploys) (grouped-HasDistinctKeys ts deploys)
    ∙ rw (lookup-grouped k ts deploys) (ground arith)

abbrev pub hash_of : Transaction → Text
hash_of t = t.transaction_identifier

-- A walk over a map visits each entry once.
abbrev pub VisitsOnce : (Dict (List TransferResponse) → Dict (List TransferResponse)) → Type 0
VisitsOnce order =
    (m : Dict (List TransferResponse)) (k : Text)
    → occurrences k (keys (order m)) ≡ occurrences k (keys m)

module _ (sdk : Sdk) where
  hash-create_ros_transaction :
      (h : Text) (ts : List TransferResponse) (b : BlockResponse) (purse : Text) (s : sdk.State)
      {t : Transaction}
      → (create_ros_transaction sdk h ts b purse s).0 ≡ ok t
      → hash_of t ≡ h
  unfolding create_ros_transaction
  hash-create_ros_transaction h ts b purse s e = ground arith

  pub hashes-create_transactions :
      (groups : Dict (List TransferResponse)) (b : BlockResponse) (purse : Text) (s : sdk.State)
      {ts : List Transaction}
      → (create_transactions sdk groups b purse s).0 ≡ ok ts
      → map hash_of ts ≡ keys groups
  unfolding create_transactions
  hashes-create_transactions [] b purse s e = sym (ap (map hash_of) (ok_injective _ _ e))
  hashes-create_transactions ((h, transfers) ∷ groups) b purse s e =
      let step : Outcome Transaction × sdk.State =
        create_ros_transaction sdk h transfers b purse s in
      let (t, made, e1) = call-eq-ok step _ _ e in
      let (more, rest, e2) =
        continue-eq-ok (create_transactions sdk groups b purse step.1).0 _ _ e1 in
      let same : t ∷ more ≡ _ = ok_injective _ _ e2 in
      sym (ap (map hash_of) same)
      ∙ ap₂ (λ x xs. x ∷ xs) (hash-create_ros_transaction h transfers b purse s made)
          (hashes-create_transactions groups b purse step.1 rest)

  module _ (order : Dict (List TransferResponse) → Dict (List TransferResponse)) where
    abbrev entries : Fetched → Dict (List TransferResponse)
    entries f = order (grouped f.transfers f.block.body.deploy_hashes)

    abbrev validator_purse : Fetched → M sdk.State Text
    validator_purse f =
        get_main_purse_from_public_key sdk f.block.body.proposer f.block.header.state_root_hash

    -- If Go's walk over a map visits each entry once, a block that `Block` returns has exactly one
    -- transaction for each deploy that the block lists or that owns one of its transfers, and none
    -- for any other text.
    pub occurrences-assemble :
        VisitsOnce order
        → (f : Fetched) (s : sdk.State) {b : Block} → (assemble sdk order f s).0 ≡ ok b
        → (k : Text)
        → occurrences k (map hash_of b.transactions)
          ≡ (if has_transfer k f.transfers || member k f.block.body.deploy_hashes then 1 else 0)
    unfolding assemble
    occurrences-assemble once f s e k =
        let (purse, _, e1) =
          continue-eq-ok (map_error _ (validator_purse f s).0) _ (validator_purse f s).1 e in
        let (ts, made, e2) =
          continue-eq-ok (create_transactions sdk (entries f) f.block purse _).0 _ _ e1 in
        ap (λ (b : Block). occurrences k (map hash_of b.transactions)) (sym (ok_injective _ _ e2))
        ∙ ap (occurrences k) (hashes-create_transactions (entries f) f.block purse _ made)
        ∙ once (grouped f.transfers f.block.body.deploy_hashes) k
        ∙ occurrences-grouped k f.transfers f.block.body.deploy_hashes
