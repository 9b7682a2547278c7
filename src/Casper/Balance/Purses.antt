-- ===== src/Casper/Balance/Purses.antt =====
-- casper/client.go: the accounts that the operations of `Block` name, as `Balance` reads them.
use rosetta_casper.Common.{◌≡◌, refl, true, false, ◌∷◌, ◌++◌, Text, lit}
use rosetta_casper.Go.Outcome.{ok}
use rosetta_casper.Go.Strings.{contains, count}
use rosetta_casper.Casper.Sdk.{Sdk}
use rosetta_casper.Casper.Operations.{purse_without_index}
use rosetta_casper.Casper.Operations.Purses.{purse_without_index-append}
use rosetta_casper.Casper.Balance.{balance_uref}

-- The text of a purse, `uref-<hash>-<rights>`.
pub record IsPurse (address rights : Text) : Type 0 where
  pub no_dash : count rights b'-' ≡ 0
  pub one_dash : count address b'-' ≡ 1
  pub is_uref : contains address (lit "uref") ≡ true
  pub no_account : contains address (lit "account-hash") ≡ false

module _ (sdk : Sdk) where
  -- For a purse `uref-<hash>-<rights>`, the account that an operation names is the purse without its
  -- access rights, and `Balance` takes it, without a call, for the same purse with the access rights
  -- 001, under whatever state root.
  pub balance_uref-purse_without_index :
      {address rights : Text}
      → IsPurse address rights
      → (root : Text) (s : sdk.State)
      → (purse_without_index (address ++ (b'-' ∷ rights)) ≡ ok address)
        × (balance_uref sdk root address s ≡ (ok (address ++ lit "-001"), s))
  unfolding balance_uref
  balance_uref-purse_without_index {address} {rights} p root s = (
    purse_without_index-append address rights (p.no_dash),
    rw (p.no_account, p.is_uref, p.one_dash) refl,
  )
