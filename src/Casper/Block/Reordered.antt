-- ===== src/Casper/Block/Reordered.antt =====
-- casper/client.go: what holds of the entries of a map, whatever the order in which `Block` walks them.
use mathlib.Core.List.{Permᴰ}
use rosetta_casper.Common.{sym, ap, subst, List, map, All}

module _ {A : Type 0} (P : A → Type 0) where
  pub All-Permᴰ : {xs ys : List A} → Permᴰ xs ys → All P ys → All P xs
  All-Permᴰ Permᴰ.nil h = tt
  All-Permᴰ (Permᴰ.cons e d) (p, h) = (subst P (sym e) p, All-Permᴰ d h)
  All-Permᴰ (Permᴰ.swap e e') (p, (q, h)) = (subst P (sym e) q, (subst P (sym e') p, h))
  All-Permᴰ (Permᴰ.trans d d') h = All-Permᴰ d (All-Permᴰ d' h)

pub map-Permᴰ :
    {A B : Type 0} (f : A → B) {xs ys : List A} → Permᴰ xs ys → Permᴰ (map f xs) (map f ys)
map-Permᴰ f Permᴰ.nil = Permᴰ.nil
map-Permᴰ f (Permᴰ.cons e d) = Permᴰ.cons (ap f e) (map-Permᴰ f d)
map-Permᴰ f (Permᴰ.swap e e') = Permᴰ.swap (ap f e) (ap f e')
map-Permᴰ f (Permᴰ.trans d d') = Permᴰ.trans (map-Permᴰ f d) (map-Permᴰ f d')
