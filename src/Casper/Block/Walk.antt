-- ===== src/Casper/Block/Walk.antt =====
-- casper/client.go: the walk of `Block` over the map of deploys, as a list of its entries.
use rosetta_casper.Common.{
  ◌≡◌, ◌≢◌, refl, sym, ap, ap₂, ◌∙◌, inl, inr, Bool, true, false, ◌||◌, List, [], ◌∷◌, ◌++◌, map,
  Option, none, some, arith, member, Text, text_eq, text_eq_iff, if◌then◌else◌, All, length,
  replicate, Bool-cases, Option-cases,
}
use mathlib.Core.Option.{some-injective}
use rosetta_casper.Go.Dict.{Dict, lookup, insert, keys, HasDistinctKeys}
use rosetta_casper.Casper.Sdk.{TransferResponse}
use rosetta_casper.Casper.Block.Grouping.{
  Pointer, Loop, ensure_key, append_at, next, start, group_transfers, add_deploys, grouped,
  transfers_of,
}
use rosetta_casper.Casper.Block.Aliasing.{lookup-grouped, has_transfer, last_transfer}
use rosetta_casper.Casper.Block.Complete.{grouped-HasDistinctKeys, keys-load_all}

-- The deploys of a block in the order in which they first come up, each once.
abbrev pub add_new : Text → List Text → List Text
add_new h seen = if member h seen then seen else seen ++ (h ∷ [])

abbrev pub collect : List Text → List Text → List Text
collect seen [] = seen
collect seen (h ∷ hs) = collect (add_new h seen) hs

abbrev pub deploys_of : List TransferResponse → List Text → List Text
deploys_of ts deploys =
    collect (collect [] (map (λ (t : TransferResponse). t.deploy_hash) ts)) deploys

-- What `Block` takes for the transfers of a deploy: as many as it has, all equal to the last one of
-- the block.
abbrev pub carried : List TransferResponse → Text → List TransferResponse
carried ts h = replicate (length (transfers_of h ts)) (last_transfer ts)

module _ {ℓ} {V : Type ℓ} where
  member-lookup : (k : Text) (m : Dict V) {v : V} → lookup k m ≡ some v → member k (keys m) ≡ true
  unfolding lookup
  member-lookup k [] e = cc
  member-lookup k ((j, w) ∷ m) {v} e = ground (arith, member-lookup k m {v = v})

  member-lookup-none : (k : Text) (m : Dict V) → lookup k m ≡ none → member k (keys m) ≡ false
  unfolding lookup
  member-lookup-none k [] e = refl
  member-lookup-none k ((j, w) ∷ m) e = ground (arith, member-lookup-none k m)

  keys-insert : (k : Text) (v : V) (m : Dict V) → keys (insert k v m) ≡ add_new k (keys m)
  unfolding insert
  keys-insert k v [] = refl
  keys-insert k v ((j, w) ∷ m) = elim (Bool-cases (text_eq j k)) [
    | inl same ↦ rw (same, (text_eq_iff j k).0 same) refl
    | inr other ↦ rw (other, keys-insert k v m) (push (member k (keys m)))
  ]
    where
      push :
          (b : Bool)
          → (j ∷ (if b then keys m else keys m ++ (k ∷ [])))
            ≡ (if b then j ∷ keys m else j ∷ (keys m ++ (k ∷ [])))
      push true = refl
      push false = refl

  lookup-absent : (k : Text) (m : Dict V) → All (λ j. j ≢ k) (keys m) → lookup k m ≡ none
  unfolding lookup
  lookup-absent k [] h = refl
  lookup-absent k ((j, w) ∷ m) h = ground (arith, text_eq_iff j k, lookup-absent k m h.1)

  -- A map whose entries are a function of their keys is the list of these entries.
  map-keys :
      (f : Text → V) (m : Dict V)
      → HasDistinctKeys m
      → ((k : Text) (v : V) → lookup k m ≡ some v → v ≡ f k)
      → m ≡ map (λ k. (k, f k)) (keys m)
  unfolding lookup
  map-keys f [] d h = refl
  map-keys f ((j, w) ∷ m) d h =
      ap₂ (λ (v : V) (es : Dict V). (j, v) ∷ es) (h j w (rw ((text_eq_iff j j).1 refl) refl))
        (map-keys f m d.1 λ k v e. elim (Bool-cases (text_eq j k)) [
          | inl same ↦ absurd (clash (lookup-absent k m (rw ((text_eq_iff j k).0 same) at d.0)) e)
          | inr other ↦ h k v (rw other e)
        ])
    where
      clash : {o : Option V} {v : V} → o ≡ none → o ≡ some v → ⊥
      clash e e' = cc

keys-ensure_key : (k : Text) (m : Dict (List Pointer)) → keys (ensure_key k m) ≡ add_new k (keys m)
unfolding ensure_key
keys-ensure_key k m = elim (Option-cases (lookup k m)) [
  | inl new ↦ rw (keys, new) (keys-insert k [] m)
  | inr (ps, old) ↦ rw (keys, old, member-lookup k m old) refl
]

member-append : (k : Text) (ks : List Text) → member k (ks ++ (k ∷ [])) ≡ true
member-append k [] = rw ((text_eq_iff k k).1 refl) refl
member-append k (j ∷ ks) = ground (arith, member-append k ks)

add_new_twice : (k : Text) (ks : List Text) → add_new k (add_new k ks) ≡ add_new k ks
add_new_twice k ks = elim (Bool-cases (member k ks)) [
  | inl old ↦ rw (old, old) refl
  | inr new ↦ rw (new, member-append k ks) refl
]

keys-next :
    (l : Loop) (t : TransferResponse)
    → keys (next l t).groups ≡ add_new t.deploy_hash (keys l.groups)
unfolding append_at
keys-next l t =
    keys-insert t.deploy_hash _ (ensure_key t.deploy_hash l.groups)
    ∙ ap (add_new t.deploy_hash) (keys-ensure_key t.deploy_hash l.groups)
    ∙ add_new_twice t.deploy_hash (keys l.groups)

keys-group_transfers :
    (l : Loop) (ts : List TransferResponse)
    → keys (group_transfers l ts).groups
      ≡ collect (keys l.groups) (map (λ (t : TransferResponse). t.deploy_hash) ts)
unfolding group_transfers
keys-group_transfers l [] = refl
keys-group_transfers l (t ∷ ts) = keys-group_transfers (next l t) ts ∙ rw (keys-next l t) refl

keys-add_deploys :
    (hs : List Text) (m : Dict (List Pointer)) → keys (add_deploys hs m) ≡ collect (keys m) hs
unfolding add_deploys
keys-add_deploys [] m = refl
keys-add_deploys (h ∷ hs) m = keys-add_deploys hs (ensure_key h m) ∙ rw (keys-ensure_key h m) refl

keys-grouped :
    (ts : List TransferResponse) (deploys : List Text)
    → keys (grouped ts deploys) ≡ deploys_of ts deploys
unfolding grouped
keys-grouped ts deploys =
    let l = group_transfers start ts in
    keys-load_all l _
    ∙ keys-add_deploys deploys l.groups
    ∙ ap (λ ks. collect ks deploys) (keys-group_transfers start ts)

-- The map that `Block` walks has one entry for each deploy that the block lists or that owns one of
-- its transfers, made in the order in which they first come up, transfers first; the entry is a list
-- as long as that of the deploy's own transfers, of copies of the last transfer of the block.
pub grouped_lem :
    (ts : List TransferResponse) (deploys : List Text)
    → grouped ts deploys ≡ map (λ h. (h, carried ts h)) (deploys_of ts deploys)
grouped_lem ts deploys =
    map-keys (carried ts) (grouped ts deploys) (grouped-HasDistinctKeys ts deploys) (λ k v e.
      entry (has_transfer k ts || member k deploys) (sym (lookup-grouped k ts deploys) ∙ e))
    ∙ ap (map (λ h. (h, carried ts h))) (keys-grouped ts deploys)
  where
    entry :
        (known : Bool) {v w : List TransferResponse}
        → (if known then some w else none) ≡ some v
        → v ≡ w
    entry true e = sym (some-injective _ _ e)
    entry false e = cc
