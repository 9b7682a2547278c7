-- ===== src/Services/Construction/Options.antt =====
-- services/construction_service.go: what /construction/preprocess makes of any list of operations.
use rosetta_casper.Common.{
  ◌≡◌, refl, sym, ap, ◌∙◌, inl, inr, Bool, List, [], ◌∷◌, ◌++◌, Option, none, some, arith, Text,
  lit, text_eq, pos, eqb_ℤ, if◌then◌else◌, Bool-cases,
}
use mathlib.Core.List.{append-nil, append_assoc}
use rosetta_casper.Go.Outcome.{ok, deref}
use rosetta_casper.Go.Outcome.Chain.{>>=-eq-ok, ok_injective}
use rosetta_casper.Go.Dict.{Dict, lookup, insert, lookup-insert}
use rosetta_casper.Rosetta.{
  Value, null, string, NetworkIdentifier, AccountIdentifier, Amount, Operation,
}
use rosetta_casper.Services.Errors.{response}
use rosetta_casper.Services.Construction.{
  Preprocessed, at, transfer_id_key, chain_name_key, transfer_amount_key, target_addr_key,
  source_addr_key, gas_price_key, note_sender, note_target, note_operations,
  construction_preprocess,
}

at-insert :
    (k j : Text) (v : Value) (m : Dict Value)
    → at (insert j v m) k ≡ (if text_eq j k then v else at m k)
at-insert k j v m = rw (lookup-insert j k v m) (ground arith)

abbrev is_debit : Operation → Bool
is_debit o = eqb_ℤ o.operation_identifier.index (pos 0)

abbrev is_credit : Operation → Bool
is_credit o = eqb_ℤ o.operation_identifier.index (pos 1)

-- The address of an account, or what was there before.
abbrev address_or : Value → Option AccountIdentifier → Value
address_or old none = old
address_or old (some a) = string a.address

abbrev amount_or : Value → Option Amount → Value
amount_or old none = old
amount_or old (some a) = string a.value

-- What an operation with the index 0, or 1, makes of the value under a key.
abbrev sender_at : Text → Operation → Value → Value
sender_at k o old =
    if is_debit o
    then (if text_eq source_addr_key k then address_or old o.account else old)
    else old

abbrev target_at : Text → Operation → Value → Value
target_at k o old =
    if is_credit o
    then (if text_eq transfer_id_key k
        then at o.metadata transfer_id_key
        else if text_eq target_addr_key k
        then address_or old o.account
        else if text_eq transfer_amount_key k
        then amount_or old o.amount
        else old)
    else old

abbrev noted : Text → List Operation → Value → Value
noted k [] old = old
noted k (o ∷ os) old = noted k os (target_at k o (sender_at k o old))

-- The accounts of the operations with the index 0.
abbrev account_list : Option AccountIdentifier → List AccountIdentifier
account_list none = []
account_list (some a) = a ∷ []

abbrev pub senders : List Operation → List AccountIdentifier
senders [] = []
senders (o ∷ os) = (if is_debit o then account_list o.account else []) ++ senders os

-- The value under a key, for a list of operations.
abbrev pub options_at : NetworkIdentifier → List Operation → Text → Value
options_at network os k =
    if text_eq gas_price_key k
    then string (lit "1")
    else noted k os (if text_eq chain_name_key k then string network.network else null)

response_injective : {A : Type 0} {a b : A} → response a ≡ response b → a ≡ b
response_injective e = cc

deref-eq-ok {ℓ} : {A : Type ℓ} (o : Option A) {a : A} → deref o ≡ ok a → o ≡ some a
deref-eq-ok none e = cc
deref-eq-ok (some b) e = cc

-- What is left of the options and of the list of public keys after one operation.
record IsNoted (k : Text) (keys : List AccountIdentifier) (value : Value) (q : Preprocessed)
    : Type 0 where
  required : q.required_public_keys ≡ keys
  value_at : at q.options k ≡ value

note_sender-IsNoted :
    (k : Text) (o : Operation) (p : Preprocessed) {q : Preprocessed}
    → note_sender o p ≡ ok q
    → IsNoted k
        (p.required_public_keys ++ (if is_debit o then account_list o.account else []))
        (sender_at k o (at p.options k))
        q
unfolding note_sender
note_sender-IsNoted k o p e = elim (Bool-cases (is_debit o)) [
  | inl is ↦
      let (a, given, built) = >>=-eq-ok (deref o.account) _ (rw (is, note_sender) at e) in
      rw (is, deref-eq-ok o.account given, ← (ok_injective _ _ built))
        (record { required = refl; value_at = at-insert k source_addr_key _ p.options })
  | inr is_not ↦
      rw (is_not, ← (ok_injective _ _ (rw (is_not, note_sender) at e)))
        (record { required = sym (append-nil _); value_at = refl })
]

note_target-IsNoted :
    (k : Text) (o : Operation) (p : Preprocessed) {q : Preprocessed}
    → note_target o p ≡ ok q
    → IsNoted k p.required_public_keys (target_at k o (at p.options k)) q
unfolding note_target
note_target-IsNoted k o p e = elim (Bool-cases (is_credit o)) [
  | inl is ↦
      let (amount, priced, e1) = >>=-eq-ok (deref o.amount) _ (rw (is, note_target) at e) in
      let (account, given, built) = >>=-eq-ok (deref o.account) _ e1 in
      rw (is, deref-eq-ok o.amount priced, deref-eq-ok o.account given, ← (ok_injective _ _ built))
        (record {
          required = refl;
          value_at =
              at-insert k transfer_id_key _ _
              ∙ rw
                  (at-insert k target_addr_key (string account.address)
                    (insert transfer_amount_key (string amount.value) p.options))
                  (rw (at-insert k transfer_amount_key (string amount.value) p.options) refl);
        })
  | inr is_not ↦
      rw (is_not, ← (ok_injective _ _ (rw (is_not, note_target) at e)))
        (record { required = refl; value_at = refl })
]

note_operations-IsNoted :
    (k : Text) (os : List Operation) (p : Preprocessed) {q : Preprocessed}
    → note_operations os p ≡ ok q
    → IsNoted k (p.required_public_keys ++ senders os) (noted k os (at p.options k)) q
unfolding note_operations
note_operations-IsNoted k [] p e =
    rw (← (ok_injective _ _ e)) (record { required = sym (append-nil _); value_at = refl })
note_operations-IsNoted k (o ∷ os) p {q} e =
    let (sender, debited, e1) = >>=-eq-ok (note_sender o p) _ e in
    let (both, credited, e2) = >>=-eq-ok (note_target o sender) _ e1 in
    let first = note_sender-IsNoted k o p debited in
    let second = note_target-IsNoted k o sender credited in
    let rest = note_operations-IsNoted k os both e2 in
    record {
      required =
          rest.required
          ∙ ap (λ ks. ks ++ senders os) (second.required ∙ first.required)
          ∙ append_assoc _ _ (senders os);
      value_at =
          rest.value_at ∙ ap (noted k os) (second.value_at ∙ ap (target_at k o) first.value_at);
    }

-- Where /construction/preprocess answers, it asks for the public keys of the accounts of the
-- operations with the index 0, in their order. Under a key the options hold what the last operation
-- that says something of it says: of the source, those with the index 0, of the amount, the target
-- and the transfer id, those with the index 1, which set the transfer id to nothing where they name
-- none; beside these the name of the network and the gas price "1", and nothing else.
pub at-construction_preprocess :
    (network : NetworkIdentifier) (os : List Operation) {p : Preprocessed}
    → construction_preprocess network os ≡ ok (response p)
    → (p.required_public_keys ≡ senders os)
      × ((k : Text) → at p.options k ≡ options_at network os k)
unfolding construction_preprocess lookup
at-construction_preprocess network os {p} e =
    let (q, done, e1) = >>=-eq-ok (note_operations os _) _ e in
    let built : record q { options = insert gas_price_key (string (lit "1")) q.options } ≡ p =
      response_injective (ok_injective _ _ e1) in
    rw (← built) (
      (note_operations-IsNoted gas_price_key os _ done).required,
      λ k.
          at-insert k gas_price_key _ q.options
          ∙ rw ((note_operations-IsNoted k os _ done).value_at)
              (rw (at-insert k chain_name_key (string network.network) []) refl),
    )
