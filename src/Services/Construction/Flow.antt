-- ===== src/Services/Construction/Flow.antt =====
-- services/construction_service.go: what becomes of a transfer from /construction/preprocess over
-- /construction/metadata to /construction/payloads.
use rosetta_casper.Common.{
  ℕ, ◌≡◌, ◌≢◌, refl, List, [], ◌∷◌, some, arith, Text, lit, text_eq, ℤ, pos,
}
use rosetta_casper.Go.Outcome
use rosetta_casper.Go.Outcome.{Outcome, ok, err, panic}
use rosetta_casper.Go.Outcome.Chain.{◌>>=◌}
use rosetta_casper.Go.Decimal.{parse_int64}
use rosetta_casper.Go.Dict.{Dict, lookup, insert}
use rosetta_casper.Rosetta.{
  Value, null, string, NetworkIdentifier, AccountIdentifier, Amount, OperationIdentifier, Operation,
}
use rosetta_casper.Configuration.{online, Configuration}
use rosetta_casper.ClientSdk.{Deploy, DeployParams, new_deploy}
use rosetta_casper.Services.Errors.{Error, Answer, response, refused}
use rosetta_casper.Services.Construction.{
  Keypair, PublicKey, Preprocessed, Payloads, at, transfer_id_key, chain_name_key,
  transfer_amount_key, target_addr_key, source_addr_key, gas_price_key, note_sender, note_target,
  note_operations, construction_derive, construction_preprocess, copied_metadata,
  construction_metadata, construction_payloads,
}

abbrev index : ℕ → OperationIdentifier
index i = record { index = pos i }

-- The debit of a sender, and the credit of a receiver; all else of the two operations is free.
abbrev pub debit : AccountIdentifier → Operation → Operation
debit sender o = record o { operation_identifier = index 0; account = some sender }

abbrev pub credit : AccountIdentifier → Amount → Operation → Operation
credit receiver amount o = record o {
  operation_identifier = index 1;
  account = some receiver;
  amount = some amount;
}

module _ (network : NetworkIdentifier) (config : Configuration) (marshal : Deploy → Outcome Text)
    (sender receiver : AccountIdentifier) (amount : Amount) (o o' : Operation) where
  -- The options that a transfer leaves.
  abbrev options_of : Dict Value
  options_of =
      (chain_name_key, string network.network)
      ∷ (source_addr_key, string sender.address)
      ∷ (transfer_amount_key, string amount.value)
      ∷ (target_addr_key, string receiver.address)
      ∷ (transfer_id_key, at o'.metadata transfer_id_key)
      ∷ (gas_price_key, string (lit "1"))
      ∷ []

  -- A run through the three endpoints that ends in `payloads`.
  pub record Run (payloads : Outcome (Answer Payloads)) : Type 0 where
    pub preprocessed : Preprocessed
    pub metadata : Dict Value
    pub first :
        construction_preprocess network (debit sender o ∷ credit receiver amount o' ∷ [])
        ≡ ok (response preprocessed)
    pub keys : preprocessed.required_public_keys ≡ sender ∷ []
    pub second : construction_metadata config preprocessed.options ≡ response metadata
    pub third : construction_payloads marshal metadata ≡ payloads

  -- In online mode, a transfer with a transfer id that is an int64 passes through all three endpoints,
  -- if deploys can be encoded. The public
  -- key that is asked for is the sender's, the account that is to sign is the receiver, and the
  -- unsigned transaction is that of any other transfer: it does not depend on this one.
  pub transfer-Run :
      (id : Text) (n : ℤ) (any : DeployParams) (unsigned : Text)
      → config.mode ≡ online
      → at o'.metadata transfer_id_key ≡ string id
      → parse_int64 id ≡ ok n
      → marshal (new_deploy any) ≡ ok unsigned
      → Run (ok (response (record { unsigned_transaction = unsigned; signers = receiver ∷ [] })))
  unfolding construction_preprocess construction_metadata construction_payloads note_operations
      note_sender note_target copied_metadata new_deploy insert lookup lit text_eq
  transfer-Run id n any unsigned on given number marshalled = record {
    preprocessed = record { options = options_of; required_public_keys = sender ∷ [] };
    metadata = copied_metadata options_of;
    first = refl;
    keys = refl;
    second = rw on refl;
    third = rw (given, number, marshalled) refl;
  }

  -- In online mode, a transfer whose receiving operation names no transfer id passes /construction/preprocess and
  -- /construction/metadata, and makes /construction/payloads panic.
  transfer_without_id-Run : config.mode ≡ online → at o'.metadata transfer_id_key ≡ null → Run panic
  unfolding construction_preprocess construction_metadata construction_payloads note_operations
      note_sender note_target copied_metadata insert lookup lit text_eq
  transfer_without_id-Run on missing = record {
    preprocessed = record { options = options_of; required_public_keys = sender ∷ [] };
    metadata = copied_metadata options_of;
    first = refl;
    keys = refl;
    second = rw on refl;
    third = rw missing refl;
  }

>>=-ne-refused {ℓ} :
    {A : Type ℓ} {B : Type 0} (m : Outcome A) (f : A → Outcome (Answer B)) (e : Error)
    → ((a : A) → f a ≢ ok (refused e))
    → ((e' : Outcome.Error) → m ≢ err e')
    → (m >>= f) ≢ ok (refused e)
>>=-ne-refused (ok a) f e h _ = h a
>>=-ne-refused (err e') f e _ n = absurd (n e' refl)
>>=-ne-refused panic f e _ _ = λ p. cc

pub >>=-ne-err {ℓ κ} :
    {A : Type ℓ} {B : Type κ} (m : Outcome A) (f : A → Outcome B) (e : Outcome.Error)
    → m ≢ err e
    → ((a : A) → f a ≢ err e)
    → (m >>= f) ≢ err e
>>=-ne-err (ok a) f e _ h = h a
>>=-ne-err (err e') f e n _ = λ p. n (cc)
>>=-ne-err panic f e _ _ = λ p. cc

pub note_sender-ne-err :
    (o : Operation) (p : Preprocessed) (e : Outcome.Error) → note_sender o p ≢ err e
unfolding note_sender
note_sender-ne-err o p e = ground arith

pub note_target-ne-err :
    (o : Operation) (p : Preprocessed) (e : Outcome.Error) → note_target o p ≢ err e
unfolding note_target
note_target-ne-err o p e = ground arith

pub note_operations-ne-err :
    (os : List Operation) (p : Preprocessed) (e : Outcome.Error) → note_operations os p ≢ err e
unfolding note_operations
note_operations-ne-err [] p e = λ q. cc
note_operations-ne-err (o ∷ os) p e =
    >>=-ne-err (note_sender o p) _ e (note_sender-ne-err o p e) λ sender.
      >>=-ne-err (note_target o sender) _ e (note_target-ne-err o sender e)
        λ both. note_operations-ne-err os both e

pub construction_preprocess-ne-refused :
    (network : NetworkIdentifier) (os : List Operation) (e : Error)
    → construction_preprocess network os ≢ ok (refused e)
unfolding construction_preprocess
construction_preprocess-ne-refused network os e =
    >>=-ne-refused _ _ e (λ p q. cc) (note_operations-ne-err os _)

-- Neither /construction/derive nor /construction/preprocess ever returns an error, whatever the
-- public key and the operations are: the one always answers, the other answers or panics.
never_refused :
    (keypair : Keypair) (key : PublicKey) (network : NetworkIdentifier) (os : List Operation)
    (e : Error)
    → (construction_derive keypair key ≢ refused e)
      × (construction_preprocess network os ≢ ok (refused e))
unfolding construction_derive
never_refused keypair key network os e =
    ((λ p. cc), construction_preprocess-ne-refused network os e)
