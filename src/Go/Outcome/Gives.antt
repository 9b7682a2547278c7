-- ===== src/Go/Outcome/Gives.antt =====
-- Runs whose result does not depend on the state of the service: what they give, with the texts of
-- errors and the difference between an error and a panic forgotten.
use rosetta_casper.Common.{◌≡◌, refl, ◌∙◌, Option, none, some}
use rosetta_casper.Go.Outcome.{Outcome, ok, err, panic, Error, M, continue, map_error}

infixl 5 ◌>>=◌
abbrev pub ◌>>=◌ {ℓ κ} : {A : Type ℓ} {B : Type κ} → Option A → (A → Option B) → Option B
none >>= f = none
some a >>= f = f a

-- The result, seen through a function.
abbrev pub view {ℓ κ} : {A : Type ℓ} {B : Type κ} → (A → B) → Outcome A → Option B
view f (ok a) = some (f a)
view f (err e) = none
view f panic = none

abbrev pub result_of {ℓ} : {A : Type ℓ} → Outcome A → Option A
result_of = view (λ a. a)

-- Whatever the state, the run has this result.
abbrev pub Gives : {S A : Type 0} → M S A → Option A → Type 0
Gives {S} m o = (s : S) → result_of (m s).0 ≡ o

pub continue-Gives {ℓ} :
    {S A B : Type 0} {C : Type ℓ} {r : Option A} {g : A → Option C} (h : B → C) (o : Outcome A)
    (f : A → M S B) (s : S)
    → result_of o ≡ r
    → ((a : A) → view h (f a s).0 ≡ g a)
    → view h (continue o f s).0 ≡ (r >>= g)
continue-Gives h (ok a) f s e next = next a ∙ rw (← e) refl
continue-Gives h (err e') f s e next = rw (← e) refl
continue-Gives h panic f s e next = rw (← e) refl

pub result_of-map_error {ℓ} :
    {A : Type ℓ} (f : Error → Error) (o : Outcome A) → result_of (map_error f o) ≡ result_of o
result_of-map_error f (ok a) = refl
result_of-map_error f (err e) = refl
result_of-map_error f panic = refl

pub >>=-some {ℓ} : {A : Type ℓ} (o : Option A) → (o >>= λ a. some a) ≡ o
>>=-some none = refl
>>=-some (some a) = refl

-- The next step of a run whose results are taken as they are.
pub continue-result_of :
    {S A : Type 0} {B : Type 0} {r : Option A} {g : A → Option B} (o : Outcome A) (f : A → M S B)
    (s : S)
    → result_of o ≡ r
    → ((a : A) → result_of (f a s).0 ≡ g a)
    → result_of (continue o f s).0 ≡ (r >>= g)
continue-result_of = continue-Gives (λ a. a)

-- The same after a call whose error is replaced.
pub call-result_of :
    {S A B : Type 0} {r : Option A} {g : A → Option B} (call : Outcome A × S) (e : Error → Error)
    (f : A → M S B)
    → result_of call.0 ≡ r
    → ((a : A) → result_of (f a call.1).0 ≡ g a)
    → result_of (continue (map_error e call.0) f call.1).0 ≡ (r >>= g)
call-result_of call e f first =
    continue-result_of (map_error e call.0) f call.1 (result_of-map_error e call.0 ∙ first)

-- A result that is there has steps that are there.
pub >>=-eq-some {ℓ κ} :
    {A : Type ℓ} {B : Type κ} (o : Option A) (f : A → Option B) {b : B}
    → (o >>= f) ≡ some b
    → (a : A) × (o ≡ some a) × (f a ≡ some b)
>>=-eq-some none f e = cc
>>=-eq-some (some a) f e = (a, refl, e)
