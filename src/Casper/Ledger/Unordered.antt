-- ===== src/Casper/Ledger/Unordered.antt =====
-- Lists up to order, for what the walk over a Go map leaves; and results that are gathered along a
-- list, which do not depend on its order.
use rosetta_casper.Common.{◌≡◌, refl, ap, List, [], ◌∷◌, Option, none, some}
use mathlib.Core.List.{Permᴰ}
use mathlib.Core.List.Permᴰ
use mathlib.Core.Quot
use mathlib.Core.Quot.{Quot}
use rosetta_casper.Go.Outcome.Gives.{◌>>=◌}

abbrev pub Bag : Type 0 → Type 0
Bag A = Quot (λ (xs ys : List A). Permᴰ xs ys)

abbrev pub bag : {A : Type 0} → List A → Bag A
bag = Quot.mk

-- Both fail, or both give lists that differ in order only.
pub data Same {A : Type 0} : Option (List A) → Option (List A) → Type 0 where
  neither : Same none none
  both : {xs ys : List A} → Permᴰ xs ys → Same (some xs) (some ys)

abbrev pub cons_result : {A : Type 0} → Option A → Option (List A) → Option (List A)
cons_result r rs = r >>= λ x. rs >>= λ xs. some (x ∷ xs)

-- The results along a list, if there is one everywhere.
abbrev pub gather : {K A : Type 0} → (K → Option A) → List K → Option (List A)
gather f [] = some []
gather f (k ∷ ks) = cons_result (f k) (gather f ks)

module _ {A : Type 0} where
  Same-refl : (r : Option (List A)) → Same r r
  Same-refl none = neither
  Same-refl (some xs) = both (Permᴰ.refl xs)

  Same-cons :
      (r : Option A) {a b : Option (List A)} → Same a b → Same (cons_result r a) (cons_result r b)
  Same-cons none h = neither
  Same-cons (some x) neither = neither
  Same-cons (some x) (both h) = both (Permᴰ.cons refl h)

  Same-swap :
      (r q : Option A) (a : Option (List A))
      → Same (cons_result r (cons_result q a)) (cons_result q (cons_result r a))
  Same-swap none none a = neither
  Same-swap none (some y) none = neither
  Same-swap none (some y) (some ys) = neither
  Same-swap (some x) none none = neither
  Same-swap (some x) none (some xs) = neither
  Same-swap (some x) (some y) none = neither
  Same-swap (some x) (some y) (some xs) = both (Permᴰ.swap refl refl)

  Same-trans : {a b c : Option (List A)} → Same a b → Same b c → Same a c
  Same-trans neither k = k
  Same-trans (both h) (both k) = both (Permᴰ.trans h k)

  -- What is made of a bag does not depend on the order.
  pub bag-Same :
      {B : Type 0} (f : Bag A → B) {a b : Option (List A)}
      → Same a b
      → (a >>= λ xs. some (f (bag xs))) ≡ (b >>= λ xs. some (f (bag xs)))
  bag-Same f neither = refl
  bag-Same f (both h) = ap (λ q. some (f q)) (Quot.sound h)

module _ {K A : Type 0} (f : K → Option A) where
  -- A permutation of the places permutes the results.
  pub gather-Same : {ks js : List K} → Permᴰ ks js → Same (gather f ks) (gather f js)
  gather-Same Permᴰ.nil = both Permᴰ.nil
  gather-Same (Permᴰ.cons {a = a} {b = b} e h) = rw e (Same-cons (f b) (gather-Same h))
  gather-Same (Permᴰ.swap {a = a} {b = b} {l = l} e e') = rw (e, e') (Same-swap _ _ (gather f l))
  gather-Same (Permᴰ.trans h k) = Same-trans (gather-Same h) (gather-Same k)
