-- ===== src/Casper/Balance/Accounts.antt =====
-- casper/client.go: what `Balance` reports.
use rosetta_casper.Common.{◌≡◌, [], ◌∷◌, Option, some, Text, ℤ}
use rosetta_casper.Go.Outcome.{Outcome, ok}
use rosetta_casper.Go.Decimal.{amount_of}
use rosetta_casper.Rosetta.{AccountIdentifier, PartialBlockIdentifier, AccountBalanceResponse}
use rosetta_casper.Casper.Types.{currency}
use rosetta_casper.Casper.Sdk.{Sdk, BlockResponse}
use rosetta_casper.Casper.Block.{block_identifier}
use rosetta_casper.Casper.Balance.{balance_block, balance_uref}

module _ (sdk : Sdk) where
  -- What a balance response reports of a run from `s`: there are a block that was fetched, a purse
  -- that was found under the state root of that block, and an amount that the node gave for both.
  pub record IsBalanceOf (account : AccountIdentifier) (id : Option PartialBlockIdentifier)
      (s : sdk.State) (r : AccountBalanceResponse) : Type 0 where
    pub block : BlockResponse
    pub uref : Text
    pub amount : ℤ
    pub value : Text
    pub fetched : (balance_block sdk id s).0 ≡ ok block
    pub found :
        (balance_uref sdk block.header.state_root_hash account.address (balance_block sdk id s).1).0
        ≡ ok uref
    pub answered :
        (sdk.get_account_balance block.header.state_root_hash uref
          (balance_uref sdk block.header.state_root_hash account.address
            (balance_block sdk id s).1).1).0
        ≡ ok amount
    pub at : r.block_identifier ≡ block_identifier block
    pub only : r.balances ≡ record { value = value; currency = currency } ∷ []
    pub denotes : amount_of value ≡ some amount
