-- ===== src/Services/Construction/Metadata.antt =====
-- services/construction_service.go: what /construction/metadata keeps, and when
-- /construction/payloads answers.
use rosetta_casper.Common.{
  ◌≡◌, refl, sym, ap, ◌↔◌, Bool, ◌||◌, [], ◌∷◌, arith, Text, text_eq, text_eq_iff, ℤ, if◌then◌else◌,
}
use rosetta_casper.Go.Outcome.{Outcome, ok, err, panic}
use rosetta_casper.Go.Outcome.Chain.{>>=-eq-ok, ok_injective}
use rosetta_casper.Go.Decimal.{parse_int64}
use rosetta_casper.Go.Dict.{Dict, lookup, lookup-insert}
use rosetta_casper.Rosetta.{Value, null, string, other}
use rosetta_casper.ClientSdk.{Deploy, new_deploy}
use rosetta_casper.Services.Errors.{Answer, response}
use rosetta_casper.Services.Construction.{
  Payloads, at, as_string, transfer_id_key, chain_name_key, transfer_amount_key, target_addr_key,
  source_addr_key, gas_price_key, copy, copied_metadata, parsed_or_refused, construction_payloads,
}

at-copy :
    (t k : Text) (from to : Dict Value)
    → at (copy t from to) k ≡ (if text_eq t k then at from k else at to k)
at-copy t k from to = ground (arith, lookup-insert t k (at from t) to, text_eq_iff t k)

at-nil : (k : Text) → at [] k ≡ null
unfolding lookup
at-nil k = refl

-- The keys that a transfer is described by.
abbrev pub is_transfer_key : Text → Bool
is_transfer_key k =
    text_eq transfer_id_key k
    || (text_eq gas_price_key k
        || (text_eq source_addr_key k
            || (text_eq target_addr_key k
                || (text_eq transfer_amount_key k || text_eq chain_name_key k))))

-- /construction/metadata passes on what the options hold under the six keys of a transfer, and
-- nothing else.
pub at-copied_metadata :
    (options : Dict Value) (k : Text)
    → at (copied_metadata options) k ≡ (if is_transfer_key k then at options k else null)
unfolding copied_metadata
at-copied_metadata options k =
    rw
      (
        at-copy transfer_id_key k options _,
        at-copy gas_price_key k options _,
        at-copy source_addr_key k options _,
        at-copy target_addr_key k options _,
        at-copy transfer_amount_key k options _,
        at-copy chain_name_key k options [],
        at-nil k,
      )
      (ground arith)

parsed_or_refused-eq-response :
    {A B : Type 0} (o : Outcome A) (f : A → Outcome (Answer B)) {b : B}
    → parsed_or_refused o f ≡ ok (response b)
    → (a : A) × (o ≡ ok a) × (f a ≡ ok (response b))
parsed_or_refused-eq-response (ok a) f e = (a, refl, e)
parsed_or_refused-eq-response (err e') f e = cc
parsed_or_refused-eq-response panic f e = cc

response_injective : {A : Type 0} (a b : A) → response a ≡ response b → a ≡ b
response_injective a b h = cc

as_string-eq-ok : (v : Value) {t : Text} → as_string v ≡ ok t → v ≡ string t
as_string-eq-ok (string t) e = ap string (ok_injective _ _ e)
as_string-eq-ok null e = cc
as_string-eq-ok other e = cc

module _ (marshal : Deploy → Outcome Text) where
  -- The values that describe a transfer, by their keys, and the payloads for it.
  pub record IsPayloads (value_at : Text → Value) (p : Payloads) : Type 0 where
    pub id : Text
    pub transfer_id : ℤ
    pub chain_name : Text
    pub transfer_amount : Text
    pub target : Text
    pub source : Text
    pub gas_price : Text
    pub has_id : value_at transfer_id_key ≡ string id
    pub is_number : parse_int64 id ≡ ok transfer_id
    pub has_chain_name : value_at chain_name_key ≡ string chain_name
    pub has_transfer_amount : value_at transfer_amount_key ≡ string transfer_amount
    pub has_target : value_at target_addr_key ≡ string target
    pub has_source : value_at source_addr_key ≡ string source
    pub has_gas_price : value_at gas_price_key ≡ string gas_price
    pub encoded :
        marshal (
          new_deploy (record {
            chain_name = chain_name;
            transfer_amount = transfer_amount;
            payment_amount = [];
            target_account = target;
            src_account = source;
            gas_price = gas_price;
            transfer_id = transfer_id;
          }))
        ≡ ok p.unsigned_transaction
    pub signed_by : p.signers ≡ record { address = target } ∷ []

  payloads_sound :
      (metadata : Dict Value) (p : Payloads)
      → construction_payloads marshal metadata ≡ ok (response p)
      → IsPayloads (at metadata) p
  unfolding construction_payloads
  payloads_sound metadata p e =
      let (id, e1, f1) = >>=-eq-ok (as_string (at metadata transfer_id_key)) _ e in
      let (n, e2, f2) = parsed_or_refused-eq-response (parse_int64 id) _ f1 in
      let (chain, e3, f3) = >>=-eq-ok (as_string (at metadata chain_name_key)) _ f2 in
      let (amount, e4, f4) = >>=-eq-ok (as_string (at metadata transfer_amount_key)) _ f3 in
      let (target, e5, f5) = >>=-eq-ok (as_string (at metadata target_addr_key)) _ f4 in
      let (source, e6, f6) = >>=-eq-ok (as_string (at metadata source_addr_key)) _ f5 in
      let (gas, e7, f7) = >>=-eq-ok (as_string (at metadata gas_price_key)) _ f6 in
      let (unsigned, e8, f8) = parsed_or_refused-eq-response (marshal _) _ f7 in
      rw (← (response_injective _ _ (ok_injective _ _ f8))) (record {
        id = id;
        transfer_id = n;
        chain_name = chain;
        transfer_amount = amount;
        target = target;
        source = source;
        gas_price = gas;
        has_id = as_string-eq-ok _ e1;
        is_number = e2;
        has_chain_name = as_string-eq-ok _ e3;
        has_transfer_amount = as_string-eq-ok _ e4;
        has_target = as_string-eq-ok _ e5;
        has_source = as_string-eq-ok _ e6;
        has_gas_price = as_string-eq-ok _ e7;
        encoded = e8;
        signed_by = refl;
      })

  payloads_complete :
      (metadata : Dict Value) (p : Payloads)
      → IsPayloads (at metadata) p
      → construction_payloads marshal metadata ≡ ok (response p)
  unfolding construction_payloads
  payloads_complete metadata p h =
      rw
        (
          h.has_id, h.is_number, h.has_chain_name, h.has_transfer_amount, h.has_target,
          h.has_source, h.has_gas_price, h.encoded,
        )
        (ap
          (λ signers. ok (
            response (record { unsigned_transaction = p.unsigned_transaction; signers = signers })))
          (sym h.signed_by))

  -- /construction/payloads answers exactly if the metadata hold texts under the six keys of a
  -- transfer, that of the transfer id is an int64, and the deploy is encoded; the unsigned
  -- transaction is that encoding, and the account that is to sign is the one under the key of the
  -- target.
  pub construction_payloads-eq-response_iff :
      (metadata : Dict Value) (p : Payloads)
      → (construction_payloads marshal metadata ≡ ok (response p)) ↔ IsPayloads (at metadata) p
  construction_payloads-eq-response_iff metadata p =
      (payloads_sound metadata p, payloads_complete metadata p)
