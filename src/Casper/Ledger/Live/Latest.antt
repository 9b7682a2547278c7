-- ===== src/Casper/Ledger/Live/Latest.antt =====
-- casper/client.go: `Balance` for the latest block on a chain that grows while it asks.
use rosetta_casper.Common.{◌≡◌, sym, ap, subst, ℕ, List, none, some}
use mathlib.Core.Option.{some-injective}
use rosetta_casper.Go.Outcome.{Outcome, ok, Error, continue, map_error}
use rosetta_casper.Go.Outcome.Run.{call-eq-ok}
use rosetta_casper.Go.Outcome.Gives.{>>=-eq-some}
use rosetta_casper.Rosetta.{AccountIdentifier, AccountBalanceResponse}
use rosetta_casper.Casper.Sdk.{Sdk, BlockResponse}
use rosetta_casper.Casper.Balance.{balance, balance_at, balance_block}
use rosetta_casper.Casper.Ledger.{Ledger, balance_of, purse_named}
use rosetta_casper.Casper.Ledger.Live.{IsLive}
use rosetta_casper.Casper.Ledger.Live.Balances.{held_of, held-Reads}

-- A latest block that the node tells is found under its hash.
abbrev pub TellsLatest : (sdk : Sdk) → (sdk.State → Ledger) → Type 0
TellsLatest sdk ledger =
    (s : sdk.State) (b : BlockResponse)
    → (sdk.get_latest_block s).0 ≡ ok b
    → (ledger (sdk.get_latest_block s).1).block_by_hash b.hash ≡ some b

-- The balance names the block.
hash-held_of :
    (l : Ledger) (sum256 : List ℕ → List ℕ) (account : AccountIdentifier) (b : BlockResponse)
    {held : AccountBalanceResponse}
    → held_of l sum256 account b ≡ some held
    → held.block_identifier.hash ≡ b.hash
hash-held_of l sum256 account b e =
    let root = b.header.state_root_hash in
    let (uref, named, e1) = >>=-eq-some (purse_named l sum256 root account.address) _ e in
    let (amount, told, e2) = >>=-eq-some (l.account_balance root uref) _ e1 in
    sym (ap (λ (a : AccountBalanceResponse). a.block_identifier.hash) (some-injective _ _ e2))

module _ {sdk : Sdk} {ledger : sdk.State → Ledger} (live : IsLive sdk ledger)
    (tells : TellsLatest sdk ledger) where
  -- The same once the block is told.
  at_told :
      (account : AccountIdentifier) (first : Outcome BlockResponse × sdk.State) (g : Error → Error)
      {b : BlockResponse} {held : AccountBalanceResponse}
      → first.0 ≡ ok b
      → (ledger first.1).block_by_hash b.hash ≡ some b
      → (balance_at sdk account b first.1).0 ≡ ok held
      → balance_of
          (ledger (continue (map_error g first.0) (balance_at sdk account) first.1).1)
          sdk.sum256
          account
          (some (record { hash = some held.block_identifier.hash; index = none }))
        ≡ some held
  at_told account first g {b} {held} got found e =
      let reads = held-Reads live account b first.1 in
      let told = reads.told held e in
      let last = ledger (balance_at sdk account b first.1).1 in
      let hash = hash-held_of last sdk.sum256 account b told in
      rw got (
        subst
          (λ h.
            balance_of last sdk.sum256 account (some (record { hash = some h; index = none }))
            ≡ some held)
          (sym hash) (rw (reads.extends.block_by_hash b.hash b found) told))

  -- Where the chain may grow while the client asks, the node tells what the chain tells at some time
  -- before the call ends, and the latest block that it tells is found under its hash, a balance that
  -- `Balance` returns without an identifier is, at the time when it returns, the balance at the block
  -- that it names, also if this is no longer the latest.
  pub balance_latest :
      (account : AccountIdentifier) (s : sdk.State) {held : AccountBalanceResponse}
      → (balance sdk account none s).0 ≡ ok held
      → balance_of
          (ledger (balance sdk account none s).1)
          sdk.sum256
          account
          (some (record { hash = some held.block_identifier.hash; index = none }))
        ≡ some held
  unfolding balance balance_block
  balance_latest account s {held} e =
      let first : Outcome BlockResponse × sdk.State = sdk.get_latest_block s in
      let (b, got, e1) = call-eq-ok first _ _ e in at_told account first _ got (tells s b got) e1
