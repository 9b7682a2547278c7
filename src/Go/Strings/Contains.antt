-- ===== src/Go/Strings/Contains.antt =====
-- Package `strings`: `Contains` by the bytes that occur.
use rosetta_casper.Common.{
  ℕ, ◌≡◌, ◌∙◌, refl, sym, subst, true, ◌==◌, Bool-cases, inl, inr, [], ◌∷◌, arith, Text, All,
}
use rosetta_casper.Go.Strings.{has_prefix, contains}

-- What holds of each byte of a text holds of each byte of what it starts with.
has_prefix-All : (P : ℕ → Type 0) (s t : Text) → has_prefix s t ≡ true → All P s → All P t
unfolding has_prefix
has_prefix-All P s [] h all = tt
has_prefix-All P [] (c ∷ t) h all = cc
has_prefix-All P (b ∷ s) (c ∷ t) h (p, ps) = elim (Bool-cases (b == c)) [
  | inl e ↦ (subst P (ground arith) p, has_prefix-All P s t (sym (rw e refl) ∙ h) ps)
  | inr e ↦ absurd (ground arith)
]

-- And of each byte of what it contains.
pub contains-All : (P : ℕ → Type 0) (s t : Text) → contains s t ≡ true → All P s → All P t
unfolding contains
contains-All P [] t h all = has_prefix-All P [] t h all
contains-All P (b ∷ s) t h all = elim (Bool-cases (has_prefix (b ∷ s) t)) [
  | inl e ↦ has_prefix-All P (b ∷ s) t e all
  | inr e ↦ contains-All P s t (sym (rw e refl) ∙ h) (all.1)
]
