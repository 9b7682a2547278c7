-- ===== src/Go/Outcome/Success.antt =====
-- Runs that succeed: a success of each step is one of the whole.
use rosetta_casper.Common.{◌≡◌, ◌≢◌, refl, Bool, true, false}
use rosetta_casper.Go.Outcome.{Outcome, ok, err, panic, Error, M, continue, map_error}
use rosetta_casper.Go.Outcome.Chain.{◌>>=◌}

-- A step succeeds with a result of which `P` holds.
abbrev pub Succeeds : {A : Type 0} → (A → Type 0) → Outcome A → Type 0
Succeeds {A} P o = (a : A) × (o ≡ ok a) × P a

-- It succeeds.
abbrev pub Returns : {A : Type 0} → Outcome A → Type 0
Returns = Succeeds (λ _. Unit {0})

module _ {A B : Type 0} {P : A → Type 0} {Q : B → Type 0} where
  pub >>=-Succeeds :
      (o : Outcome A) (f : A → Outcome B)
      → Succeeds P o
      → ((a : A) → P a → Succeeds Q (f a))
      → Succeeds Q (o >>= f)
  >>=-Succeeds o f (a, e, p) next = rw e (next a p)

-- A step that succeeds with a result of which `P` holds, or else, where errors are admitted, ends
-- with an error. It does not panic.
pub data Ends {A : Type 0} (may_fail : Bool) (P : A → Type 0) : Outcome A → Type 0 where
  ends_ok : {a : A} → P a → Ends may_fail P (ok a)
  ends_err : may_fail ≡ true → (e : Error) → Ends may_fail P (err e)

-- It ends, with any result.
abbrev pub Finishes : {A : Type 0} → Bool → Outcome A → Type 0
Finishes may_fail o = Ends may_fail (λ _. Unit {0}) o

module _ {A : Type 0} {P : A → Type 0} {may_fail : Bool} where
  pub Succeeds-Ends : {o : Outcome A} → Succeeds P o → Ends may_fail P o
  Succeeds-Ends (a, e, p) = rw e (ends_ok p)

  pub map_error-Ends :
      (g : Error → Error) {o : Outcome A} → Ends may_fail P o → Ends may_fail P (map_error g o)
  map_error-Ends g (ends_ok p) = ends_ok p
  map_error-Ends g (ends_err m e) = ends_err m (g e)

  pub Ends-Finishes : {o : Outcome A} → Ends may_fail P o → Finishes may_fail o
  Ends-Finishes (ends_ok p) = ends_ok tt
  Ends-Finishes (ends_err m e) = ends_err m e

  pub continue-Ends :
      {S B : Type 0} {Q : B → Type 0} (o : Outcome A) (f : A → M S B) (s : S)
      → Ends may_fail P o
      → ((a : A) → P a → Ends may_fail Q (f a s).0)
      → Ends may_fail Q (continue o f s).0
  continue-Ends o f s (ends_ok {a = a} p) next = next a p
  continue-Ends o f s (ends_err m e) next = ends_err m e

-- The next step after a call whose error is replaced.
pub call-Ends :
    {S A B : Type 0} {P : A → Type 0} {Q : B → Type 0} {may_fail : Bool} (call : Outcome A × S)
    (g : Error → Error) (f : A → M S B)
    → Ends may_fail P call.0
    → ((a : A) → P a → Ends may_fail Q (f a call.1).0)
    → Ends may_fail Q (continue (map_error g call.0) f call.1).0
call-Ends call g f h = continue-Ends (map_error g call.0) f call.1 (map_error-Ends g h)

-- Without errors, it succeeds; in any case it does not panic.
pub Ends-Succeeds : {A : Type 0} {P : A → Type 0} {o : Outcome A} → Ends false P o → Succeeds P o
Ends-Succeeds (ends_ok {a = a} p) = (a, refl, p)
Ends-Succeeds (ends_err m e) = cc

pub Ends-ne-panic :
    {A : Type 0} {P : A → Type 0} {may_fail : Bool} {o : Outcome A} → Ends may_fail P o → o ≢ panic
Ends-ne-panic (ends_ok p) = λ h. cc
Ends-ne-panic (ends_err m e) = λ h. cc
