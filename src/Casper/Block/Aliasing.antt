-- ===== src/Casper/Block/Aliasing.antt =====
-- casper/client.go: what the loops of `Block` leave in the map from deploys to transfers.
use rosetta_casper.Common.{
  ℕ, zero, suc, ◌≡◌, refl, sym, ap, ◌∙◌, ◌↔◌, inl, inr, Bool, true, false, ◌||◌, List, [], ◌∷◌,
  ◌++◌, map, Option, none, some, arith, member, Text, text_eq, text_eq_iff, if◌then◌else◌, length,
  replicate, All, Bool-cases,
}
use mathlib.Core.List.{append-nil, append_assoc, head-eq_of_cons-eq, tail-eq_of_cons-eq}
use mathlib.Core.Option.{some-injective}
use rosetta_casper.Go.Dict.{Dict, lookup, lookup-insert}
use rosetta_casper.Casper.Sdk.{TransferResponse}
use rosetta_casper.Casper.Block.Grouping.{
  Pointer, to_trs, Loop, load, ensure_key, or_nil, append_at, next, start, group_transfers,
  add_deploys, zero_transfer, load_all, grouped, transfers_of,
}

-- The last transfer of a block, or the zero value.
abbrev pub last_or : TransferResponse → List TransferResponse → TransferResponse
last_or d [] = d
last_or d (t ∷ ts) = last_or t ts

abbrev pub last_transfer : List TransferResponse → TransferResponse
last_transfer = last_or zero_transfer

-- Whether a transfer of the block belongs to the deploy.
abbrev pub has_transfer : Text → List TransferResponse → Bool
has_transfer k [] = false
has_transfer k (t ∷ ts) = text_eq t.deploy_hash k || has_transfer k ts

lookup-ensure_key :
    (h k : Text) (m : Dict (List Pointer))
    → lookup k (ensure_key h m)
      ≡ elim (lookup k m) [ some ps ↦ some ps | none ↦ if text_eq h k then some [] else none ]
unfolding ensure_key
lookup-ensure_key h k m = ground (arith, lookup-insert h k [] m, text_eq_iff h k)

lookup-append_at :
    (h k : Text) (p : Pointer) (m : Dict (List Pointer))
    → lookup k (append_at h p (ensure_key h m))
      ≡ (if text_eq h k then some (or_nil (lookup k m) ++ (p ∷ [])) else lookup k m)
unfolding append_at
lookup-append_at h k p m = ground (
  arith,
  lookup-insert h k (or_nil (lookup h (ensure_key h m)) ++ (p ∷ [])) (ensure_key h m),
  lookup-ensure_key h k m,
  lookup-ensure_key h h m,
  text_eq_iff h k,
)

abbrev or_listed : Bool → Option (List Pointer) → Option (List Pointer)
or_listed listed (some ps) = some ps
or_listed listed none = if listed then some [] else none

abbrev read : Loop → Option (List Pointer) → Option (List TransferResponse)
read l none = none
read l (some ps) = some (map (load l) ps)

abbrev is_positive : ℕ → Bool
is_positive zero = false
is_positive (suc _) = true

-- `n` more pointers in an entry.
abbrev grow : Option (List Pointer) → ℕ → Option (List Pointer)
grow (some ps) n = some (ps ++ replicate n to_trs)
grow none zero = none
grow none (suc n) = some (replicate (suc n) to_trs)

grow-step :
    (old : Option (List Pointer)) (n : ℕ)
    → grow (some (or_nil old ++ (to_trs ∷ []))) n ≡ grow old (suc n)
grow-step none n = refl
grow-step (some ps) n = ap some (append_assoc ps (to_trs ∷ []) (replicate n to_trs))

grow-zero : (old : Option (List Pointer)) → grow old 0 ≡ old
grow-zero none = refl
grow-zero (some ps) = ap some (append-nil ps)

trs-group_transfers :
    (l : Loop) (ts : List TransferResponse) → (group_transfers l ts).trs ≡ last_or l.trs ts
unfolding group_transfers
trs-group_transfers l [] = refl
trs-group_transfers l (t ∷ ts) = trs-group_transfers (next l t) ts

lookup-group_transfers :
    (k : Text) (l : Loop) (ts : List TransferResponse)
    → lookup k (group_transfers l ts).groups ≡ grow (lookup k l.groups) (length (transfers_of k ts))
unfolding group_transfers transfers_of
lookup-group_transfers k l [] = sym (grow-zero (lookup k l.groups))
lookup-group_transfers k l (t ∷ ts) =
    lookup-group_transfers k (next l t) ts ∙ elim (Bool-cases (text_eq t.deploy_hash k)) [
      | inl same ↦
          rw (lookup-append_at t.deploy_hash k to_trs l.groups, same)
            (grow-step (lookup k l.groups) (length (transfers_of k ts)))
      | inr other ↦ rw (lookup-append_at t.deploy_hash k to_trs l.groups, other) refl
    ]

lookup-add_deploys :
    (k : Text) (hs : List Text) (m : Dict (List Pointer))
    → lookup k (add_deploys hs m) ≡ or_listed (member k hs) (lookup k m)
unfolding add_deploys
lookup-add_deploys k [] m = ground arith
lookup-add_deploys k (h ∷ hs) m =
    ground (arith, lookup-add_deploys k hs (ensure_key h m), lookup-ensure_key h k m)

lookup-load_all :
    (k : Text) (l : Loop) (m : Dict (List Pointer)) → lookup k (load_all l m) ≡ read l (lookup k m)
unfolding load_all lookup
lookup-load_all k l [] = refl
lookup-load_all k l ((j, ps) ∷ m) = ground (arith, lookup-load_all k l m)

map-load-replicate : (l : Loop) (n : ℕ) → map (load l) (replicate n to_trs) ≡ replicate n l.trs
map-load-replicate l zero = refl
map-load-replicate l (suc n) = ap (λ ts. l.trs ∷ ts) (map-load-replicate l n)

-- A deploy has a transfer exactly if some transfer is its own.
has_transfer_lem :
    (k : Text) (ts : List TransferResponse)
    → has_transfer k ts ≡ is_positive (length (transfers_of k ts))
unfolding transfers_of
has_transfer_lem k [] = refl
has_transfer_lem k (t ∷ ts) = ground (arith, has_transfer_lem k ts)

-- The entry of a deploy with `n` transfers, which `listed` says is in the block.
entry :
    (l : Loop) (n : ℕ) (listed : Bool)
    → read l (or_listed listed (grow none n))
      ≡ (if is_positive n || listed then some (replicate n l.trs) else none)
entry l zero true = refl
entry l zero false = refl
entry l (suc n) listed = ap some (map-load-replicate l (suc n))

-- In the map that `Block` walks, a deploy has an entry exactly if it is listed in the block or owns
-- a transfer. The entry is as long as the list of the deploy's own transfers, and each place holds
-- the last transfer of the block.
pub lookup-grouped :
    (k : Text) (ts : List TransferResponse) (deploys : List Text)
    → lookup k (grouped ts deploys) ≡ (
        if has_transfer k ts || member k deploys
        then some (replicate (length (transfers_of k ts)) (last_transfer ts))
        else none)
unfolding grouped lookup
lookup-grouped k ts deploys =
    lookup-load_all k (group_transfers start ts) _
    ∙ rw (lookup-add_deploys k deploys, lookup-group_transfers k start ts)
        (rw (has_transfer_lem k ts, ← (trs-group_transfers start ts))
          (entry (group_transfers start ts) (length (transfers_of k ts)) (member k deploys)))

pub replicate_iff {ℓ} :
    {A : Type ℓ} (x : A) (xs : List A) → (replicate (length xs) x ≡ xs) ↔ All (λ y. y ≡ x) xs
replicate_iff x [] = (λ _. tt, λ _. refl)
replicate_iff x (y ∷ ys) =
    let (to, from) = replicate_iff x ys in
    (
      λ e. (sym (head-eq_of_cons-eq e), to (tail-eq_of_cons-eq e)),
      λ (same, rest). cc (same, from rest),
    )

-- For a deploy that the block knows, `Block` uses the transfers that `BlockTransaction` uses
-- exactly if every transfer of the deploy equals the last transfer of the block.
grouped-eq-transfers_of_iff :
    (k : Text) (ts : List TransferResponse) (deploys : List Text)
    → (has_transfer k ts || member k deploys) ≡ true
    → (lookup k (grouped ts deploys) ≡ some (transfers_of k ts))
      ↔ All (λ t. t ≡ last_transfer ts) (transfers_of k ts)
grouped-eq-transfers_of_iff k ts deploys known =
    let (to, from) = replicate_iff (last_transfer ts) (transfers_of k ts) in
    let found : lookup k (grouped ts deploys)
        ≡ some (replicate (length (transfers_of k ts)) (last_transfer ts)) =
      lookup-grouped k ts deploys ∙ rw known refl in
    (λ e. to (some-injective _ _ (sym found ∙ e)), λ h. found ∙ ap some (from h))
