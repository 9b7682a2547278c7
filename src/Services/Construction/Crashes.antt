-- ===== src/Services/Construction/Crashes.antt =====
-- services/construction_service.go: which metadata make /construction/payloads panic.
use rosetta_casper.Common.{◌≡◌, ◌≢◌, refl, ap, ◌∙◌, ◌↔◌, Bool, true, false, ◌||◌, ◌&&◌, Text, lit}
use rosetta_casper.Go.Outcome
use rosetta_casper.Go.Outcome.{Outcome, ok, err, panic}
use rosetta_casper.Go.Outcome.Chain.{◌>>=◌}
use rosetta_casper.Go.Outcome.Panics.{panics, panics->>=, panics_iff, or-false}
use rosetta_casper.Go.Decimal.{
  Parsed, parsed, invalid_syntax, out_of_range, parse_int, to_outcome, parse_int64,
}
use rosetta_casper.Go.Dict.{Dict}
use rosetta_casper.Rosetta.{Value, null, string, other}
use rosetta_casper.ClientSdk.{Deploy}
use rosetta_casper.Services.Errors.{Answer}
use rosetta_casper.Services.Construction.{
  at, as_string, parsed_or_refused, construction_payloads, transfer_id_key, chain_name_key,
  transfer_amount_key, target_addr_key, source_addr_key, gas_price_key,
}

abbrev is_no_text : Value → Bool
is_no_text (string t) = false
is_no_text null = true
is_no_text other = true

-- One of the five texts beside the transfer id is missing.
abbrev lacks_text : Dict Value → Bool
lacks_text m =
    is_no_text (at m chain_name_key)
    || (is_no_text (at m transfer_amount_key)
        || (is_no_text (at m target_addr_key)
            || (is_no_text (at m source_addr_key) || is_no_text (at m gas_price_key))))

abbrev returns : {A : Type 0} → Outcome A → Bool
returns (ok a) = true
returns (err e) = false
returns panic = false

-- The transfer id is no text, or it is a number and another text is missing.
abbrev crashes : Value → Bool → Bool
crashes (string id) lacking = returns (parse_int64 id) && lacking
crashes null lacking = true
crashes other lacking = true

abbrev pub crashes_payloads : Dict Value → Bool
crashes_payloads m = crashes (at m transfer_id_key) (lacks_text m)

panics-as_string : (v : Value) → panics (as_string v) ≡ is_no_text v
panics-as_string (string t) = refl
panics-as_string null = refl
panics-as_string other = refl

as_string-ne-err : (v : Value) (e : Outcome.Error) → as_string v ≢ err e
as_string-ne-err (string t) e = λ h. cc
as_string-ne-err null e = λ h. cc
as_string-ne-err other e = λ h. cc

-- The next text, and the rest.
panics-text :
    {B : Type 0} (v : Value) (f : Text → Outcome B) (b : Bool)
    → ((t : Text) → panics (f t) ≡ b)
    → panics (as_string v >>= f) ≡ (is_no_text v || b)
panics-text v f b h =
    panics->>= (as_string v) f b (as_string-ne-err v) h ∙ ap (λ c. c || b) (panics-as_string v)

panics-parsed_or_refused :
    {A B : Type 0} (o : Outcome A) (f : A → Outcome (Answer B)) (b : Bool)
    → o ≢ panic
    → ((a : A) → panics (f a) ≡ b)
    → panics (parsed_or_refused o f) ≡ (returns o && b)
panics-parsed_or_refused (ok a) f b n h = h a
panics-parsed_or_refused (err e) f b n h = refl
panics-parsed_or_refused panic f b n h = absurd (n refl)

and-false : (b : Bool) → (b && false) ≡ false
and-false true = refl
and-false false = refl

to_outcome-ne-panic : (function t : Text) (p : Parsed) → to_outcome function t p ≢ panic
unfolding to_outcome
to_outcome-ne-panic function t (parsed z) = λ e. cc
to_outcome-ne-panic function t invalid_syntax = λ e. cc
to_outcome-ne-panic function t out_of_range = λ e. cc

parse_int64-ne-panic : (t : Text) → parse_int64 t ≢ panic
unfolding parse_int64
parse_int64-ne-panic t = to_outcome-ne-panic (lit "ParseInt") t (parse_int t)

module _ (marshal : Deploy → Outcome Text) (returning : (d : Deploy) → marshal d ≢ panic) where
  panics-construction_payloads :
      (m : Dict Value) (v : Value)
      → at m transfer_id_key ≡ v
      → panics (construction_payloads marshal m) ≡ crashes v (lacks_text m)
  unfolding construction_payloads
  panics-construction_payloads m (string id) e = rw e (
      panics-parsed_or_refused (parse_int64 id) _ (lacks_text m) (parse_int64-ne-panic id) λ n.
        panics-text (at m chain_name_key) _ _ λ chain.
          panics-text (at m transfer_amount_key) _ _ λ amount.
            panics-text (at m target_addr_key) _ _ λ target.
              panics-text (at m source_addr_key) _ _ λ source.
                panics-text (at m gas_price_key) _ false (λ gas.
                  panics-parsed_or_refused (marshal _) _ false (returning _) (λ u. refl)
                  ∙ and-false _)
                ∙ or-false _)
  panics-construction_payloads m null e = rw e refl
  panics-construction_payloads m other e = rw e refl

  -- If the encoding of a deploy does not panic, /construction/payloads panics exactly if the metadata
  -- hold no text under the key of the transfer id, or hold an int64 there and no text under one of the
  -- other five keys of a transfer.
  pub construction_payloads-eq-panic_iff :
      (m : Dict Value) → (construction_payloads marshal m ≡ panic) ↔ (crashes_payloads m ≡ true)
  construction_payloads-eq-panic_iff m =
      rw (← (panics-construction_payloads m (at m transfer_id_key) refl))
        (panics_iff (construction_payloads marshal m))
