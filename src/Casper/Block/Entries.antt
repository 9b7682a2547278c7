-- ===== src/Casper/Block/Entries.antt =====
-- casper/client.go: a test that holds of the transfers of a block holds of those in the map that
-- `Block` walks.
use rosetta_casper.Common.{
  ◌≡◌, refl, ◌⊎◌, inl, inr, Bool, true, List, [], ◌∷◌, map, arith, Text, All, all_of,
}
use rosetta_casper.Go.Dict.{Dict, insert}
use rosetta_casper.Casper.Sdk.{TransferResponse}
use rosetta_casper.Casper.Block.Grouping.{
  Pointer, to_trs, Loop, load, ensure_key, next, start, group_transfers, add_deploys, load_all,
  grouped,
}

abbrev AreEmpty : Dict (List Pointer) → Type 0
AreEmpty m = All (λ e. e.1 ≡ []) m

insert-AreEmpty : (k : Text) (m : Dict (List Pointer)) → AreEmpty m → AreEmpty (insert k [] m)
unfolding insert
insert-AreEmpty k [] h = (refl, tt)
insert-AreEmpty k ((j, ps) ∷ m) h = ground (arith, insert-AreEmpty k m)

add_deploys-AreEmpty :
    (hs : List Text) (m : Dict (List Pointer)) → AreEmpty m → AreEmpty (add_deploys hs m)
unfolding add_deploys ensure_key
add_deploys-AreEmpty [] m h = h
add_deploys-AreEmpty (k ∷ hs) m h =
    add_deploys-AreEmpty hs (ensure_key k m) (ground (arith, insert-AreEmpty k m))

module _ (p : TransferResponse → Bool) where
  -- The test holds of all transfers in all entries.
  abbrev pub HaveAll : Dict (List TransferResponse) → Type 0
  HaveAll m = All (λ e. all_of p e.1 ≡ true) m

  -- The test holds of the loop variable, or no transfer has come yet.
  Holds : Loop → Type 0
  Holds l = (p l.trs ≡ true) ⊎ (l.groups ≡ [])

  group_transfers-Holds :
      (l : Loop) (ts : List TransferResponse)
      → Holds l
      → all_of p ts ≡ true
      → Holds (group_transfers l ts)
  unfolding group_transfers Holds
  group_transfers-Holds l [] h d = h
  group_transfers-Holds l (t ∷ ts) h d =
      group_transfers-Holds (next l t) ts (inl (ground arith)) (ground arith)

  all_of-map-load :
      (l : Loop) (ps : List Pointer) → p l.trs ≡ true → all_of p (map (load l) ps) ≡ true
  all_of-map-load l [] h = refl
  all_of-map-load l (to_trs ∷ ps) h = ground (arith, all_of-map-load l ps)

  load_all-holds : (l : Loop) (m : Dict (List Pointer)) → p l.trs ≡ true → HaveAll (load_all l m)
  unfolding load_all
  load_all-holds l [] h = tt
  load_all-holds l ((k, ps) ∷ m) h = (all_of-map-load l ps h, load_all-holds l m h)

  load_all-empty : (l : Loop) (m : Dict (List Pointer)) → AreEmpty m → HaveAll (load_all l m)
  unfolding load_all
  load_all-empty l [] h = tt
  load_all-empty l ((k, ps) ∷ m) (e, h) = (rw e refl, load_all-empty l m h)

  load_all-HaveAll :
      (l : Loop) (deploys : List Text)
      → Holds l
      → HaveAll (load_all l (add_deploys deploys l.groups))
  unfolding Holds
  load_all-HaveAll l deploys (inl h) = load_all-holds l _ h
  load_all-HaveAll l deploys (inr h) =
      load_all-empty l _ (add_deploys-AreEmpty deploys l.groups (rw h tt))

  pub grouped-HaveAll :
      (ts : List TransferResponse) (deploys : List Text)
      → all_of p ts ≡ true
      → HaveAll (grouped ts deploys)
  unfolding grouped Holds
  grouped-HaveAll ts deploys h =
      load_all-HaveAll (group_transfers start ts) deploys
        (group_transfers-Holds start ts (inr refl) h)
