-- ===== src/Go/Outcome/Panics.antt =====
-- Whether an outcome is a panic, as a test.
use rosetta_casper.Common.{◌≡◌, ◌≢◌, refl, ◌↔◌, Bool, true, false, ◌||◌}
use rosetta_casper.Go.Outcome
use rosetta_casper.Go.Outcome.{Outcome, ok, err, panic}
use rosetta_casper.Go.Outcome.Chain.{◌>>=◌}

abbrev pub panics {ℓ} : {A : Type ℓ} → Outcome A → Bool
panics (ok a) = false
panics (err e) = false
panics panic = true

pub panics->>= {ℓ κ} :
    {A : Type ℓ} {B : Type κ} (m : Outcome A) (f : A → Outcome B) (b : Bool)
    → ((e : Outcome.Error) → m ≢ err e)
    → ((a : A) → panics (f a) ≡ b)
    → panics (m >>= f) ≡ (panics m || b)
panics->>= (ok a) f b n h = h a
panics->>= (err e) f b n h = absurd (n e refl)
panics->>= panic f b n h = refl

pub panics_iff {ℓ} : {A : Type ℓ} (m : Outcome A) → (m ≡ panic) ↔ (panics m ≡ true)
panics_iff (ok a) = (λ e. cc, λ e. cc)
panics_iff (err e) = (λ e. cc, λ e. cc)
panics_iff panic = (λ e. refl, λ e. refl)

pub or-false : (b : Bool) → (b || false) ≡ b
or-false true = refl
or-false false = refl
