-- ===== src/Services/Construction.antt =====
-- services/construction_service.go: the endpoints that construct a transaction.
pub mod Crashes
pub mod Derive
pub mod Flow
pub mod Metadata
pub mod Options
pub mod Passage
pub mod Preprocess
use rosetta_casper.Common.{
  ℕ, Bool, List, [], ◌∷◌, ◌++◌, Option, none, some, Text, lit, text_eq, if◌then◌else◌, ℤ, pos,
  eqb_ℤ,
}
use rosetta_casper.Go.Outcome
use rosetta_casper.Go.Outcome.{Outcome, ok, err, panic, deref}
use rosetta_casper.Go.Outcome.Chain.{◌>>=◌}
use rosetta_casper.Go.Decimal.{parse_int64}
use rosetta_casper.Go.Dict.{Dict, lookup, insert}
use rosetta_casper.Rosetta.{
  Value, null, string, other, NetworkIdentifier, AccountIdentifier, Operation,
}
use rosetta_casper.Configuration.{Mode, online, offline, Configuration}
use rosetta_casper.ClientSdk.{Deploy, DeployParams, new_deploy}
use rosetta_casper.Services.Errors.{
  Answer, response, refused, answer, wrap_err, err_unavailable_offline, err_unimplemented,
  err_unable_to_parse_intermediate_result,
}

abbrev pub chain_name_key : Text
chain_name_key = lit "chain_name"

abbrev pub transfer_amount_key : Text
transfer_amount_key = lit "transfer_amount"

-- The metadata are not read under this key.
abbrev payment_amount_key : Text
payment_amount_key = lit "payment_amount"

abbrev pub target_addr_key : Text
target_addr_key = lit "target_addr"

abbrev pub source_addr_key : Text
source_addr_key = lit "source_addr"

abbrev pub gas_price_key : Text
gas_price_key = lit "gas_price"

abbrev pub transfer_id_key : Text
transfer_id_key = lit "transfer_id"

-- `m[k]`, which is nil for a missing key.
abbrev or_null : Option Value → Value
or_null none = null
or_null (some v) = v

abbrev pub at : Dict Value → Text → Value
at m k = or_null (lookup k m)

-- `v.(string)` panics on a nil and on a value of another type.
abbrev pub as_string : Value → Outcome Text
as_string (string t) = ok t
as_string null = panic
as_string other = panic

-- The key pairs of the Casper SDK: the names of the two kinds, and `AccountHex` of each.
pub record Keypair : Type 0 where
  pub ed25519_tag : Text
  pub secp256k1_tag : Text
  pub ed25519_account_hex : List ℕ → Text
  pub secp256k1_account_hex : List ℕ → Text

pub record PublicKey : Type 0 where
  pub bytes : List ℕ
  pub curve_type : Text

-- The two tests come one after the other.
unfoldable pub construction_derive : Keypair → PublicKey → Answer AccountIdentifier
construction_derive keypair key =
    let first : Text =
      if text_eq key.curve_type keypair.ed25519_tag
      then keypair.ed25519_account_hex key.bytes
      else [] in
    response (record {
      address =
          if text_eq key.curve_type keypair.secp256k1_tag
          then keypair.secp256k1_account_hex key.bytes
          else first;
    })

-- The key of the request, through its pointer.
unfoldable pub derive_pointer : Keypair → Option PublicKey → Outcome (Answer AccountIdentifier)
derive_pointer keypair pointer = do key ← deref pointer; ok (construction_derive keypair key)

pub record Preprocessed : Type 0 where
  pub options : Dict Value
  pub required_public_keys : List AccountIdentifier

-- `if operation.OperationIdentifier.Index == 0 { … }`
unfoldable pub note_sender : Operation → Preprocessed → Outcome Preprocessed
note_sender operation p =
    if eqb_ℤ operation.operation_identifier.index (pos 0)
    then (do
      account ← deref operation.account
      ok (record {
        options = insert source_addr_key (string account.address) p.options;
        required_public_keys = p.required_public_keys ++ (account ∷ []);
      }))
    else ok p

-- `if operation.OperationIdentifier.Index == 1 { … }`
unfoldable pub note_target : Operation → Preprocessed → Outcome Preprocessed
note_target operation p =
    if eqb_ℤ operation.operation_identifier.index (pos 1)
    then (do
      amount ← deref operation.amount
      account ← deref operation.account
      ok (record p {
        options = insert transfer_id_key (at operation.metadata transfer_id_key) (
            insert target_addr_key (string account.address)
              (insert transfer_amount_key (string amount.value) p.options));
      }))
    else ok p

unfoldable pub note_operations : List Operation → Preprocessed → Outcome Preprocessed
note_operations [] p = ok p
note_operations (operation ∷ operations) p = do
  sender ← note_sender operation p
  both ← note_target operation sender
  note_operations operations both

abbrev before_operations : NetworkIdentifier → Preprocessed
before_operations network = record {
  options = insert chain_name_key (string network.network) [];
  required_public_keys = [];
}

abbrev after_operations : Preprocessed → Outcome (Answer Preprocessed)
after_operations p =
    ok (response (record p { options = insert gas_price_key (string (lit "1")) p.options }))

unfoldable pub construction_preprocess :
    NetworkIdentifier → List Operation → Outcome (Answer Preprocessed)
construction_preprocess network operations = do
  p ← note_operations operations (before_operations network)
  after_operations p

-- The loop over the operations of a request; `none` is one whose pointer, or that of whose identifier,
-- is nil, so that reading its index panics.
unfoldable pub note_pointers : List (Option Operation) → Preprocessed → Outcome Preprocessed
note_pointers [] p = ok p
note_pointers (pointer ∷ pointers) p = do
  operation ← deref pointer
  sender ← note_sender operation p
  both ← note_target operation sender
  note_pointers pointers both

-- The endpoint with the pointers of its request: the network is read first.
unfoldable pub preprocess_pointer :
    Option NetworkIdentifier → List (Option Operation) → Outcome (Answer Preprocessed)
preprocess_pointer pointer operations = do
  network ← deref pointer
  p ← note_pointers operations (before_operations network)
  after_operations p

abbrev pub copy : Text → Dict Value → Dict Value → Dict Value
copy key from to = insert key (at from key) to

unfoldable pub copied_metadata : Dict Value → Dict Value
copied_metadata options = copy transfer_id_key options (
    copy gas_price_key options (
      copy source_addr_key options (
        copy target_addr_key options
          (copy transfer_amount_key options (copy chain_name_key options [])))))

-- The metadata; the list of suggested fees is empty.
unfoldable pub construction_metadata : Configuration → Dict Value → Answer (Dict Value)
construction_metadata config options = elim config.mode [
  | offline ↦ refused err_unavailable_offline
  | online ↦ response (copied_metadata options)
]

-- A signing payload names an account, and holds nothing else.
pub record Payloads : Type 0 where
  pub unsigned_transaction : Text
  pub signers : List AccountIdentifier

-- `return nil, wrapErr(ErrUnableToParseIntermediateResult, err)`, or the rest.
abbrev pub parsed_or_refused :
    {A B : Type 0} → Outcome A → (A → Outcome (Answer B)) → Outcome (Answer B)
parsed_or_refused (ok a) f = f a
parsed_or_refused (err e) f =
    ok (refused (wrap_err err_unable_to_parse_intermediate_result (some e)))
parsed_or_refused panic f = panic

-- `marshal` and `unmarshal` are those of encoding/json on a deploy.
module _ (marshal : Deploy → Outcome Text) where
  unfoldable pub construction_payloads : Dict Value → Outcome (Answer Payloads)
  construction_payloads metadata = do
    id_text ← as_string (at metadata transfer_id_key)
    parsed_or_refused (parse_int64 id_text) λ transfer_id. do
      chain_name ← as_string (at metadata chain_name_key)
      transfer_amount ← as_string (at metadata transfer_amount_key)
      target_account ← as_string (at metadata target_addr_key)
      src_account ← as_string (at metadata source_addr_key)
      gas_price ← as_string (at metadata gas_price_key)
      parsed_or_refused
          (marshal (
            new_deploy (record {
              chain_name = chain_name;
              transfer_amount = transfer_amount;
              payment_amount = [];
              target_account = target_account;
              src_account = src_account;
              gas_price = gas_price;
              transfer_id = transfer_id;
            })))
          λ unsigned. ok (
            response (record {
              unsigned_transaction = unsigned;
              signers = record { address = target_account } ∷ [];
            }))

module _ (unmarshal : Text → Outcome Deploy) where
  -- The signed transaction of the response is the empty text.
  unfoldable pub construction_combine : Text → Outcome (Answer Text)
  construction_combine unsigned_transaction =
      parsed_or_refused (unmarshal unsigned_transaction) λ _. ok (response [])

module _ (A : Type 0) where
  unfoldable pub construction_hash : Answer A
  construction_hash = refused (wrap_err err_unimplemented none)

  unfoldable pub construction_parse : Answer A
  construction_parse = refused (wrap_err err_unimplemented none)

  unfoldable pub construction_submit : Answer A
  construction_submit = refused (wrap_err err_unimplemented none)
