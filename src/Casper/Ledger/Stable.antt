-- ===== src/Casper/Ledger/Stable.antt =====
-- casper/client.go: what the client answers once the chain has grown.
use rosetta_casper.Common.{
  ◌≡◌, refl, sym, ap, ◌∙◌, ℕ, List, [], Option, none, some, Text, lit, ℤ, Bool-cases, inl, inr,
}
use mathlib.Core.Option.{some-injective}
use rosetta_casper.Go.Outcome.{Outcome, ok, err, panic}
use rosetta_casper.Go.Outcome.Gives.{result_of, view}
use rosetta_casper.Rosetta.{AccountIdentifier}
use rosetta_casper.Casper.Ledger.Growth.{
  Keeps, Keeps-refl, >>=-Keeps, Extends, key_purse-Keeps, block_of-Keeps,
  block_transaction_of-Keeps,
}
use rosetta_casper.Casper.Ledger.Refinement.{client-RefinesClient}
use rosetta_casper.Go.Strings.{contains, slice}
use rosetta_casper.Common.{text_eq, ◌||◌}
use rosetta_casper.Casper.Ledger.{named, purse_named, balance_of, item_purse}
use rosetta_casper.Go.Dict.{Dict}
use rosetta_casper.Go.Machine.{to_uint64}
use rosetta_casper.Rosetta.{PartialBlockIdentifier}
use rosetta_casper.Casper.Sdk.{Sdk, TransferResponse}
use rosetta_casper.Casper.Ledger.{Ledger, Answers, view_of, block_of, block_transaction_of}
use rosetta_casper.Casper.Ledger.Query.{
  Query, of_block, of_transaction, of_balance, Told, seen, ask,
}
use rosetta_casper.Casper.Ledger.Blocks.{IsWalk}

module _ {old new : Ledger} (extends : Extends old new) (sum256 : List ℕ → List ℕ) where
  pub item_purse-Keeps :
      (root key : Text) → Keeps (item_purse old root key) (item_purse new root key)
  item_purse-Keeps root key =
      >>=-Keeps (old.state_item root key []) _ _ (extends.state_item root key [])
        λ item. Keeps-refl _

  pub purse_named-Keeps :
      (root address : Text)
      → Keeps (purse_named old sum256 root address) (purse_named new sum256 root address)
  purse_named-Keeps root address = elim (Bool-cases (contains address (lit "account-hash"))) [
    | inl hashed ↦ rw hashed (item_purse-Keeps root address)
    | inr plain ↦ rw plain (elim (Bool-cases (contains address (lit "uref"))) [
      | inl purse ↦ rw purse (Keeps-refl _)
      | inr key ↦ rw key (
          >>=-Keeps (result_of (slice address 0 2)) _ _ (Keeps-refl _) λ tag.
            elim (Bool-cases (text_eq tag (lit "01") || text_eq tag (lit "02"))) [
              | inl known ↦ rw known (key_purse-Keeps extends sum256 root address)
              | inr other ↦ rw other (Keeps-refl none)
            ])
    ])
  ]

  pub named-Keeps : (h : Option Text) (i : Option ℤ) → Keeps (named old h i) (named new h i)
  named-Keeps none none = Keeps-refl _
  named-Keeps none (some i) = extends.block_by_height (to_uint64 i)
  named-Keeps (some h) none = extends.block_by_hash h
  named-Keeps (some h) (some i) =
      >>=-Keeps (old.block_by_hash h) _ _ (extends.block_by_hash h)
        λ b. extends.block_by_height (to_uint64 i)

  pub balance_of-Keeps :
      (account : AccountIdentifier) (id : PartialBlockIdentifier)
      → Keeps (balance_of old sum256 account (some id)) (balance_of new sum256 account (some id))
  balance_of-Keeps account id =
      >>=-Keeps (named old id.hash id.index) _ _ (named-Keeps id.hash id.index) λ b.
        let root = b.header.state_root_hash in
        >>=-Keeps (purse_named old sum256 root account.address) _ _
          (purse_named-Keeps root account.address)
          λ uref.
            >>=-Keeps (old.account_balance root uref) _ _ (extends.account_balance root uref)
              λ amount. Keeps-refl _

view-eq-some :
    {A B : Type 0} (f : A → B) (o : Outcome A) {b : B}
    → view f o ≡ some b
    → (a : A) × (o ≡ ok a) × (f a ≡ b)
view-eq-some f (ok a) e = (a, refl, some-injective _ _ e)
view-eq-some f (err e') e = cc
view-eq-some f panic e = cc

-- What was seen of an outcome through a function is seen again.
pub seen_again :
    {A B : Type 0} (f : A → B) (o o' : Outcome A) {r r' : Option B}
    → view f o ≡ r
    → view f o' ≡ r'
    → Keeps r r'
    → {a : A} → o ≡ ok a
    → (a' : A) × (o' ≡ ok a') × (f a' ≡ f a)
seen_again f o o' seen seen' keeps {a} e =
    view-eq-some f o' (seen' ∙ keeps (f a) (sym seen ∙ ap (view f) e))

pub told_again :
    {A : Type 0} (o o' : Outcome A) {r r' : Option A}
    → result_of o ≡ r
    → result_of o' ≡ r'
    → Keeps r r'
    → {a : A} → o ≡ ok a
    → o' ≡ ok a
told_again o o' seen seen' keeps e =
    let (a', given, same) = seen_again (λ a. a) o o' seen seen' keeps e in given ∙ ap ok same

-- What was told is told again, a block up to the order of its transactions.
pub record IsStable (later : Sdk)
    (order : Dict (List TransferResponse) → Dict (List TransferResponse)) (q : Query)
    (s : later.State) (told : Told q) : Type 0 where
  pub again : Told q
  pub given : (ask later order q s).0 ≡ ok again
  pub same : seen q again ≡ seen q told

-- The client on a node that answers from a ledger, and later from one that extends it.
module _ {sdk later : Sdk} {old new : Ledger} (answers : Answers old sdk)
    (answers' : Answers new later) (extends : Extends old new) (same : later.sum256 ≡ sdk.sum256)
    (order order' : Dict (List TransferResponse) → Dict (List TransferResponse))
    (walk : IsWalk order) (walk' : IsWalk order') where
  -- If the node answers from one state of the chain, and later from one that keeps each answer about
  -- a hash, a height, an executed deploy or a state root, hashes are computed alike, and Go's walks
  -- over maps give their entries in some order, then whatever one of these three methods returned it
  -- returns again later: `Block` for an identifier with a hash or an index, with the same
  -- identifiers, the same timestamp and the same transactions up to their order; `BlockTransaction`
  -- the same transaction; and `Balance` the same balance for an account and an identifier.
  pub client-IsStable :
      (q : Query) (s1 : sdk.State) (s : later.State) {told : Told q}
      → (ask sdk order q s1).0 ≡ ok told
      → IsStable later order' q s told
  client-IsStable (of_block id) s1 s e =
      let refines = client-RefinesClient answers order walk in
      let refines' = client-RefinesClient answers' order' walk' in
      let (b', given, seen) =
        seen_again view_of _ _ (refines.block (some id) s1)
          (refines'.block (some id) s ∙ ap (λ sum. block_of new sum (some id)) same)
          (block_of-Keeps extends sdk.sum256 id) e in
      record { again = b'; given = given; same = seen }
  client-IsStable (of_transaction at hash) s1 s {told} e =
      let refines = client-RefinesClient answers order walk in
      let refines' = client-RefinesClient answers' order' walk' in
      record {
        again = told;
        given =
            told_again _ _ (refines.block_transaction at hash s1)
              (refines'.block_transaction at hash s
                ∙ ap (λ sum. block_transaction_of new sum at hash) same)
              (block_transaction_of-Keeps extends sdk.sum256 at hash) e;
        same = refl;
      }
  client-IsStable (of_balance account id) s1 s {told} e =
      let refines = client-RefinesClient answers order walk in
      let refines' = client-RefinesClient answers' order' walk' in
      record {
        again = told;
        given =
            told_again _ _ (refines.balance account (some id) s1)
              (refines'.balance account (some id) s
                ∙ ap (λ sum. balance_of new sum account (some id)) same)
              (balance_of-Keeps extends sdk.sum256 account id) e;
        same = refl;
      }
