-- ===== src/Go/Outcome.antt =====
-- Go's `(value, error)` results with run-time panics, alone and over the state of a remote service.
-- The errors are those of casper/errors.go, those made by `errors.New` or a foreign library, and
-- those that `fmt.Errorf("%w…", err)` wraps. A text handed to `fmt.Errorf` holds no `%`.
pub mod Chain
pub mod Gives
pub mod Panics
pub mod Run
pub mod Success
use rosetta_casper.Common.{
  ◌≡◌, refl, Bool, true, false, List, ◌++◌, Text, lit, arith, Option, none, some, ◌∷◌, [],
}

pub data Error : Type 0 where
  block_orphaned call_parameters_invalid call_output_marshal call_method_invalid : Error
  text : Text → Error
  wrap : Error → Text → Error

-- `err.Error()`.
unfoldable pub message : Error → Text
message block_orphaned = lit "block orphaned"
message call_parameters_invalid = lit "call parameters invalid"
message call_output_marshal = lit "call output marshal"
message call_method_invalid = lit "call method invalid"
message (text t) = t
message (wrap e t) = message e ++ t

-- `errors.Is(err, casper.ErrBlockOrphaned)`: the sentinel stands in the chain of wrapped errors.
unfoldable pub is_block_orphaned : Error → Bool
is_block_orphaned block_orphaned = true
is_block_orphaned (wrap e t) = is_block_orphaned e
is_block_orphaned _ = false

pub data Outcome {ℓ} (A : Type ℓ) : Type ℓ where
  ok : A → Outcome A
  err : Error → Outcome A
  panic : Outcome A

-- A computation that may call a remote service, whose state is `S`.
abbrev pub M : Type 0 → Type 0 → Type 0
M S A = S → Outcome A × S

module _ {S : Type 0} where
  abbrev pub pure : {A : Type 0} → A → M S A
  pure a s = (ok a, s)

  abbrev pub fail : {A : Type 0} → Error → M S A
  fail e s = (err e, s)

  abbrev pub crash : {A : Type 0} → M S A
  crash s = (panic, s)

  -- An outcome that needs no call.
  abbrev pub lift : {A : Type 0} → Outcome A → M S A
  lift o s = (o, s)

  abbrev pub continue : {A B : Type 0} → Outcome A → (A → M S B) → M S B
  continue (ok a) f s = f a s
  continue (err e) f s = (err e, s)
  continue panic f s = (panic, s)

  infixl 5 ◌>>=◌
  abbrev pub ◌>>=◌ : {A B : Type 0} → M S A → (A → M S B) → M S B
  ◌>>=◌ m f s = continue (m s).0 f (m s).1

-- `if err != nil { return nil, … }` with another error in the place of `err`.
abbrev pub map_error {ℓ} : {A : Type ℓ} → (Error → Error) → Outcome A → Outcome A
map_error f (ok a) = ok a
map_error f (err e) = err (f e)
map_error f panic = panic

module _ {S : Type 0} where
  abbrev pub on_error : {A : Type 0} → (Error → Error) → M S A → M S A
  on_error f m s = (map_error f (m s).0, (m s).1)

  -- `fmt.Errorf("%w" + t, err)`.
  abbrev pub wrapping : {A : Type 0} → Text → M S A → M S A
  wrapping t = on_error (λ e. wrap e t)

-- The dereference of a pointer that may be nil.
abbrev pub deref {ℓ} : {A : Type ℓ} → Option A → Outcome A
deref none = panic
deref (some a) = ok a
