-- ===== src/Go/Outcome/Run.antt =====
-- Runs over the state of a service: what is known of the steps of a run that succeeds.
use rosetta_casper.Common.{◌≡◌, refl}
use rosetta_casper.Go.Outcome.{Outcome, ok, err, panic, Error, M, continue, map_error}

module _ {S A B : Type 0} where
  -- A run of two steps succeeds by a success of each.
  pub continue-eq-ok :
      (o : Outcome A) (f : A → M S B) (s : S) {b : B}
      → (continue o f s).0 ≡ ok b
      → (a : A) × (o ≡ ok a) × ((f a s).0 ≡ ok b)
  continue-eq-ok (ok a) f s e = (a, refl, e)
  continue-eq-ok (err e') f s e = cc
  continue-eq-ok panic f s e = cc

pub map_error-eq-ok {ℓ} :
    {A : Type ℓ} (f : Error → Error) (o : Outcome A) {a : A} → map_error f o ≡ ok a → o ≡ ok a
map_error-eq-ok f (ok a) e = e
map_error-eq-ok f (err e') e = cc
map_error-eq-ok f panic e = cc

-- After a call whose error is replaced.
pub call-eq-ok :
    {S A B : Type 0} (call : Outcome A × S) (g : Error → Error) (f : A → M S B) {b : B}
    → (continue (map_error g call.0) f call.1).0 ≡ ok b
    → (a : A) × (call.0 ≡ ok a) × ((f a call.1).0 ≡ ok b)
call-eq-ok call g f e =
    let (a, first, rest) = continue-eq-ok (map_error g call.0) f call.1 e in
    (a, map_error-eq-ok g call.0 first, rest)
