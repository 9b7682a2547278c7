-- ===== src/Casper/Ledger/Live/Balances.antt =====
-- casper/client.go: `Balance` on a chain that grows while it asks.
use rosetta_casper.Common.{
  refl, Bool, true, false, ◌||◌, [], Option, none, some, lit, Text, ℕ, List, ◌∷◌, text_eq, ℤ,
  if◌then◌else◌, Bool-cases, inl, inr,
}
use rosetta_casper.Go.Outcome.{Outcome, deref, wrapping, fail, text}
use rosetta_casper.Go.Outcome.Gives.{>>=-some, ◌>>=◌}
use rosetta_casper.Go.Strings.{contains, slice}
use rosetta_casper.Go.Machine.{to_uint64}
use rosetta_casper.Rosetta.{AccountIdentifier, AccountBalanceResponse, PartialBlockIdentifier}
use rosetta_casper.Casper.Sdk.{Sdk, StoredValue, BlockResponse}
use rosetta_casper.Casper.Block.{zero_block, block_identifier}
use rosetta_casper.Go.Decimal.{show_int}
use rosetta_casper.Casper.Types.{currency}
use rosetta_casper.Casper.Purse.{get_main_purse_from_public_key}
use rosetta_casper.Casper.Balance.{
  balance, balance_at, balance_block, balance_uref, block_by_hash, block_by_index,
  purse_of_account_hash, purse_of_key,
}
use rosetta_casper.Casper.Ledger.{Ledger, key_purse, item_purse, named, purse_named, balance_of}
use rosetta_casper.Casper.Ledger.Transactions.{result_of-deref}
use rosetta_casper.Casper.Ledger.Stable.{named-Keeps, purse_named-Keeps}
use rosetta_casper.Casper.Ledger.Live.{
  Reads, Tells, Extends-refl, Reads-ok, Reads-same, Reads-map_error, continue-Reads, call-Reads,
  then-Reads, IsLive,
}
use rosetta_casper.Casper.Ledger.Live.Transactions.{key_purse-Tells}

abbrev pub held_of :
    Ledger → (List ℕ → List ℕ) → AccountIdentifier → BlockResponse → Option AccountBalanceResponse
held_of l sum256 account b =
    purse_named l sum256 b.header.state_root_hash account.address >>= λ uref.
    l.account_balance b.header.state_root_hash uref >>= λ amount. some (record {
      balances = record { value = show_int amount; currency = currency } ∷ [];
      block_identifier = block_identifier b;
      metadata = [];
    })

module _ {sdk : Sdk} {ledger : sdk.State → Ledger} (live : IsLive sdk ledger) where
  named-Tells :
      (h : Option Text) (i : Option ℤ)
      → Tells ledger (balance_block sdk (some (record { hash = h; index = i }))) (λ l. named l h i)
  unfolding balance_block block_by_hash block_by_index
  named-Tells none none s = Reads-ok _ s zero_block
  named-Tells none (some i) s = Reads-map_error _ _ (live.block_by_height (to_uint64 i) s)
  named-Tells (some h) none s =
      let got : Outcome BlockResponse × sdk.State = sdk.get_block_by_hash h s in
      Reads-same _ (λ l. >>=-some (l.block_by_hash h))
        (call-Reads got _ _ _ (live.block_by_hash h s) (λ l l' x. x.block_by_hash h)
          λ b. Reads-ok _ got.1 b)
  named-Tells (some h) (some i) s =
      let got : Outcome BlockResponse × sdk.State = sdk.get_block_by_hash h s in
      call-Reads got _ _ _ (live.block_by_hash h s) (λ l l' x. x.block_by_hash h)
        λ b. Reads-map_error _ _ (live.block_by_height (to_uint64 i) got.1)

  item_purse-Tells :
      (root key : Text)
      → Tells ledger (purse_of_account_hash sdk root key) (λ l. item_purse l root key)
  unfolding purse_of_account_hash
  item_purse-Tells root key s =
      let got : Outcome StoredValue × sdk.State = sdk.get_state_item root key [] s in
      call-Reads got _ _ _ (live.state_item root key [] s) (λ l l' x. x.state_item root key [])
        λ item.
          continue-Reads (deref item.account) _ got.1 (result_of-deref item.account)
            λ account. Reads-ok _ got.1 account.main_purse

  tagged-Tells :
      (root key : Text) (ed secp : Bool)
      → Tells ledger
          (if ed
            then wrapping
                (lit ": can't get account purse 01")
                (get_main_purse_from_public_key sdk key root)
            else if secp
            then wrapping
                (lit ": can't get account purse 02")
                (get_main_purse_from_public_key sdk key root)
            else fail (text (lit "Invalid input account")))
          (λ l. if ed || secp then key_purse l sdk.sum256 root key else none)
  tagged-Tells root key true secp s = Reads-map_error _ _ (key_purse-Tells live root key s)
  tagged-Tells root key false true s = Reads-map_error _ _ (key_purse-Tells live root key s)
  tagged-Tells root key false false s = record {
    extends = Extends-refl (ledger s);
    told = λ a e. cc;
  }

  balance_uref-Tells :
      (root address : Text)
      → Tells ledger (balance_uref sdk root address) (λ l. purse_named l sdk.sum256 root address)
  unfolding balance_uref purse_of_key
  balance_uref-Tells root address s = elim (Bool-cases (contains address (lit "account-hash"))) [
    | inl hashed ↦ rw hashed (item_purse-Tells root address s)
    | inr other ↦ elim (Bool-cases (contains address (lit "uref"))) [
      | inl uref ↦ rw (other, uref) (Reads-ok _ s _)
      | inr other' ↦
          rw (other, other')
            (continue-Reads (slice address 0 2) _ s refl
              λ tag. tagged-Tells root address (text_eq tag (lit "01")) (text_eq tag (lit "02")) s)
    ]
  ]

  -- The balance at a block that is at hand.
  pub held-Reads :
      (account : AccountIdentifier) (b : BlockResponse) (s : sdk.State)
      → Reads ledger (λ a. a) s (balance_at sdk account b s) (λ l. held_of l sdk.sum256 account b)
  unfolding balance_at
  held-Reads account b s =
      let root = b.header.state_root_hash in
      let purse : Outcome Text × sdk.State = balance_uref sdk root account.address s in
      then-Reads purse _ _ (balance_uref-Tells root account.address s)
        (λ l l' x. purse_named-Keeps x sdk.sum256 root account.address)
        λ uref.
          let held : Outcome ℤ × sdk.State = sdk.get_account_balance root uref purse.1 in
          call-Reads held _ _ _ (live.account_balance root uref purse.1)
            (λ l l' x. x.account_balance root uref) λ amount. Reads-ok _ held.1 _

  pub balance-Tells :
      (account : AccountIdentifier) (id : PartialBlockIdentifier)
      → Tells ledger
          (balance sdk account (some id))
          (λ l. balance_of l sdk.sum256 account (some id))
  unfolding balance
  balance-Tells account id s =
      let block : Outcome BlockResponse × sdk.State = balance_block sdk (some id) s in
      then-Reads block _ _ (named-Tells id.hash id.index s)
        (λ l l' x. named-Keeps x sdk.sum256 id.hash id.index) λ b. held-Reads account b block.1
