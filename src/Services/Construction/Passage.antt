-- ===== src/Services/Construction/Passage.antt =====
-- services/construction_service.go: the passage of any list of operations from
-- /construction/preprocess over /construction/metadata to /construction/payloads.
use rosetta_casper.Common.{
  ◌≡◌, ◌≢◌, refl, sym, ◌∙◌, ◌↔◌, inl, inr, Bool, true, false, List, Text, lit, text_eq, Bool-cases,
}
use rosetta_casper.Go.Outcome
use rosetta_casper.Go.Outcome.{Outcome, ok, err, panic}
use rosetta_casper.Go.Outcome.Chain.{◌>>=◌}
use rosetta_casper.Rosetta.{Value, NetworkIdentifier, Operation}
use rosetta_casper.Configuration.{Configuration, online}
use rosetta_casper.ClientSdk.{Deploy}
use rosetta_casper.Services.Errors.{Error, Answer, response, refused}
use rosetta_casper.Services.Construction.{
  Preprocessed, Payloads, at, transfer_id_key, chain_name_key, transfer_amount_key, target_addr_key,
  source_addr_key, gas_price_key, construction_preprocess, copied_metadata, construction_metadata,
  construction_payloads,
}
use rosetta_casper.Services.Construction.Flow.{
  >>=-ne-err, note_operations-ne-err, construction_preprocess-ne-refused,
}
use rosetta_casper.Services.Construction.Preprocess.{
  has_incomplete, construction_preprocess-eq-panic_iff,
}
use rosetta_casper.Services.Construction.Options.{options_at, at-construction_preprocess}
use rosetta_casper.Services.Construction.Metadata.{
  is_transfer_key, at-copied_metadata, IsPayloads, construction_payloads-eq-response_iff,
}

-- A refusal ends the passage.
abbrev passing : {A B : Type 0} → Answer A → (A → Outcome (Answer B)) → Outcome (Answer B)
passing (refused e) f = ok (refused e)
passing (response a) f = f a

-- The answer of each endpoint is handed to the next one.
abbrev pub passage :
    Configuration
    → (Deploy → Outcome Text)
    → NetworkIdentifier
    → List Operation
    → Outcome (Answer Payloads)
passage config marshal network os = construction_preprocess network os >>= λ preprocessed.
    passing preprocessed
      λ p. passing (construction_metadata config p.options) (construction_payloads marshal)

is_transfer_key_lem :
    (is_transfer_key transfer_id_key ≡ true)
    × (is_transfer_key chain_name_key ≡ true)
    × (is_transfer_key transfer_amount_key ≡ true)
    × (is_transfer_key target_addr_key ≡ true)
    × (is_transfer_key source_addr_key ≡ true)
    × (is_transfer_key gas_price_key ≡ true)
unfolding lit text_eq
is_transfer_key_lem = (refl, refl, refl, refl, refl, refl)

-- Only the values under the six keys matter.
IsPayloads-at :
    (marshal : Deploy → Outcome Text) (f g : Text → Value) {a : Payloads}
    → ((k : Text) → is_transfer_key k ≡ true → f k ≡ g k)
    → IsPayloads marshal f a
    → IsPayloads marshal g a
IsPayloads-at marshal f g same h =
    let (id_key, chain_key, amount_key, target_key, source_key, gas_key) = is_transfer_key_lem in
    record {
      id = h.id;
      transfer_id = h.transfer_id;
      chain_name = h.chain_name;
      transfer_amount = h.transfer_amount;
      target = h.target;
      source = h.source;
      gas_price = h.gas_price;
      is_number = h.is_number;
      encoded = h.encoded;
      signed_by = h.signed_by;
      has_id = sym (same transfer_id_key id_key) ∙ h.has_id;
      has_chain_name = sym (same chain_name_key chain_key) ∙ h.has_chain_name;
      has_transfer_amount = sym (same transfer_amount_key amount_key) ∙ h.has_transfer_amount;
      has_target = sym (same target_addr_key target_key) ∙ h.has_target;
      has_source = sym (same source_addr_key source_key) ∙ h.has_source;
      has_gas_price = sym (same gas_price_key gas_key) ∙ h.has_gas_price;
    }

answered :
    {A : Type 0} (o : Outcome (Answer A))
    → o ≢ panic
    → ((e : Outcome.Error) → o ≢ err e)
    → ((e : Error) → o ≢ ok (refused e))
    → (a : A) × (o ≡ ok (response a))
answered (ok (response a)) p e r = (a, refl)
answered (ok (refused e')) p e r = absurd (r e' refl)
answered (err e') p e r = absurd (e e' refl)
answered panic p e r = absurd (p refl)

module _ (network : NetworkIdentifier) (os : List Operation) where
  construction_preprocess-ne-err : (e : Outcome.Error) → construction_preprocess network os ≢ err e
  unfolding construction_preprocess
  construction_preprocess-ne-err e = >>=-ne-err _ _ e (note_operations-ne-err os _ e) λ p. λ h. cc

  -- The endpoint answers where it does not panic.
  construction_preprocess-eq-response :
      has_incomplete os ≡ false
      → (p : Preprocessed) × (construction_preprocess network os ≡ ok (response p))
  construction_preprocess-eq-response complete =
      answered (construction_preprocess network os)
        (λ h. clash complete ((construction_preprocess-eq-panic_iff network os).0 h))
        construction_preprocess-ne-err (construction_preprocess-ne-refused network os)
    where
      clash : {b : Bool} → b ≡ false → b ≡ true → ⊥
      clash f t = cc

  -- What the metadata hold under the key of a transfer.
  metadata_at :
      {p : Preprocessed}
      → construction_preprocess network os ≡ ok (response p)
      → (k : Text) → is_transfer_key k ≡ true
      → at (copied_metadata p.options) k ≡ options_at network os k
  metadata_at {p} done k known =
      at-copied_metadata p.options k ∙ rw known ((at-construction_preprocess network os done).1 k)

  module _ (config : Configuration) (marshal : Deploy → Outcome Text) (on : config.mode ≡ online)
      (a : Payloads) where
    -- Past the first endpoint.
    passed_iff :
        {p : Preprocessed}
        → construction_preprocess network os ≡ ok (response p)
        → (passage config marshal network os ≡ ok (response a))
          ↔ IsPayloads marshal (options_at network os) a
    unfolding construction_metadata
    passed_iff {p} done =
        let (sound, complete) =
          construction_payloads-eq-response_iff marshal (copied_metadata p.options) a in
        rw (done, on)
          (
            λ e. IsPayloads-at marshal _ _ (metadata_at done) (sound e),
            λ h. complete (IsPayloads-at marshal _ _ (λ k known. sym (metadata_at done k known)) h),
          )

    passage_sound :
        passage config marshal network os ≡ ok (response a)
        → (has_incomplete os ≡ false) × IsPayloads marshal (options_at network os) a
    passage_sound e = elim (Bool-cases (has_incomplete os)) [
      | inl incomplete ↦
          absurd (
            not_answered (rw ((construction_preprocess-eq-panic_iff network os).1 incomplete) at e))
      | inr complete ↦ (complete, (passed_iff (construction_preprocess-eq-response complete).1).0 e)
    ]
      where
        not_answered : {b : Answer Payloads} → panic ≡ ok b → ⊥
        not_answered h = cc

    -- In online mode, operations whose answers are handed from /construction/preprocess to
    -- /construction/metadata and on to /construction/payloads are answered exactly if none with the
    -- index 0 lacks an account, none with the index 1 an account or an amount, and what the last
    -- operations of these indices say, with the name of the network, describes a transfer that is
    -- encoded: a source, a target, an amount, and a transfer id that is an int64. The account that is
    -- to sign is that of the last operation with the index 1.
    pub passage-eq-response_iff :
        (passage config marshal network os ≡ ok (response a))
        ↔ ((has_incomplete os ≡ false) × IsPayloads marshal (options_at network os) a)
    passage-eq-response_iff =
        (passage_sound, λ h. (passed_iff (construction_preprocess-eq-response h.0).1).1 h.1)
