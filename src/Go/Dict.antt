-- ===== src/Go/Dict.antt =====
-- A Go map with string keys: an association list without repeated keys.
use rosetta_casper.Common.{
  ◌≡◌, refl, ◌≢◌, Option, none, some, List, [], ◌∷◌, arith, Text, text_eq, text_eq_iff,
  if◌then◌else◌, All,
}

abbrev pub Dict {ℓ} : Type ℓ → Type ℓ
Dict V = List (Text × V)

module _ {ℓ} {V : Type ℓ} where
  unfoldable pub lookup : Text → Dict V → Option V
  lookup k [] = none
  lookup k ((j, v) ∷ m) = if text_eq j k then some v else lookup k m

  -- `m[k] = v`.
  unfoldable pub insert : Text → V → Dict V → Dict V
  insert k v [] = (k, v) ∷ []
  insert k v ((j, w) ∷ m) = if text_eq j k then (k, v) ∷ m else (j, w) ∷ insert k v m

  abbrev pub keys : Dict V → List Text
  keys [] = []
  keys ((k, v) ∷ m) = k ∷ keys m

  -- No key is listed twice.
  abbrev pub HasDistinctKeys : Dict V → Type 0
  HasDistinctKeys [] = Unit
  HasDistinctKeys ((k, v) ∷ m) = All (λ j. j ≢ k) (keys m) × HasDistinctKeys m

  pub lookup-insert :
      (k j : Text) (v : V) (m : Dict V)
      → lookup j (insert k v m) ≡ (if text_eq k j then some v else lookup j m)
  unfolding lookup insert
  lookup-insert k j v [] = refl
  lookup-insert k j v ((i, w) ∷ m) =
      ground (arith, text_eq_iff k j, text_eq_iff i k, text_eq_iff i j, lookup-insert k j v m)

  All-keys-insert {κ} :
      (P : Text → Type κ) (k : Text) (v : V) (m : Dict V)
      → All P (keys m)
      → P k
      → All P (keys (insert k v m))
  unfolding insert
  All-keys-insert P k v [] h p = (p, tt)
  All-keys-insert P k v ((i, w) ∷ m) h p = ground (arith, All-keys-insert P k v m h.1 p)

  pub insert-HasDistinctKeys :
      (k : Text) (v : V) (m : Dict V) → HasDistinctKeys m → HasDistinctKeys (insert k v m)
  unfolding insert
  insert-HasDistinctKeys k v [] h = (tt, tt)
  insert-HasDistinctKeys k v ((i, w) ∷ m) h = ground (
    arith,
    text_eq_iff i k,
    insert-HasDistinctKeys k v m h.1,
    λ (n : k ≢ i). All-keys-insert (λ j. j ≢ i) k v m h.0 n,
  )
