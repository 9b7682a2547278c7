-- ===== src/Casper/Balance.antt =====
-- casper/client.go: `Balance`.
pub mod Accounts
pub mod Purses
use rosetta_casper.Common.{
  ℕ, Bool, List, [], ◌∷◌, ◌++◌, Option, none, some, Text, lit, text_eq, ◌==◌, if◌then◌else◌, ℤ,
}
use rosetta_casper.Go.Outcome.{text, M, pure, fail, lift, ◌>>=◌, wrapping, deref}
use rosetta_casper.Go.Strings.{contains, count, slice}
use rosetta_casper.Go.Decimal.{show_int}
use rosetta_casper.Go.Machine.{to_uint64}
use rosetta_casper.Rosetta.{AccountIdentifier, PartialBlockIdentifier, AccountBalanceResponse}
use rosetta_casper.Casper.Types.{currency}
use rosetta_casper.Casper.Sdk.{Sdk, BlockResponse}
use rosetta_casper.Casper.Block.{block_identifier, zero_block}
use rosetta_casper.Casper.Purse.{get_main_purse_from_public_key}

module _ (sdk : Sdk) where
  -- An index overrides a hash; without either the block keeps its zero value.
  unfoldable pub block_by_hash : Option Text → BlockResponse → M sdk.State BlockResponse
  block_by_hash none old = pure old
  block_by_hash (some hash) old =
      wrapping (lit ": could not get block") (sdk.get_block_by_hash hash)

  unfoldable pub block_by_index : Option ℤ → BlockResponse → M sdk.State BlockResponse
  block_by_index none old = pure old
  block_by_index (some index) old =
      wrapping (lit ": could not get block") (sdk.get_block_by_height (to_uint64 index))

  unfoldable pub balance_block : Option PartialBlockIdentifier → M sdk.State BlockResponse
  balance_block none = wrapping (lit ": could not get block") sdk.get_latest_block
  balance_block (some id) = do
    by_hash ← block_by_hash id.hash zero_block
    block_by_index id.index by_hash

  unfoldable pub purse_of_account_hash : Text → Text → M sdk.State Text
  purse_of_account_hash root address = do
    item ← wrapping (lit ": could not get state item") (sdk.get_state_item root address [])
    account ← lift (deref item.account)
    pure account.main_purse

  -- An address with the tag of a public key, or an error.
  unfoldable pub purse_of_key : Text → Text → M sdk.State Text
  purse_of_key root address = do
    tag ← lift (slice address 0 2)
    if text_eq tag (lit "01")
        then wrapping (lit ": can't get account purse 01")
            (get_main_purse_from_public_key sdk address root)
        else if text_eq tag (lit "02")
        then wrapping (lit ": can't get account purse 02")
            (get_main_purse_from_public_key sdk address root)
        else fail (text (lit "Invalid input account"))

  -- The purse that the address stands for.
  unfoldable pub balance_uref : Text → Text → M sdk.State Text
  unfolding purse_of_account_hash purse_of_key
  balance_uref root address =
      if contains address (lit "account-hash")
      then purse_of_account_hash root address
      else if contains address (lit "uref")
      then pure (if count address b'-' == 1 then address ++ lit "-001" else address)
      else purse_of_key root address

  -- The rest of `Balance`, for the block that it has.
  unfoldable pub balance_at : AccountIdentifier → BlockResponse → M sdk.State AccountBalanceResponse
  balance_at account block = do
    uref ← balance_uref block.header.state_root_hash account.address
    amount ←
        wrapping (lit ": can't get account balance")
          (sdk.get_account_balance block.header.state_root_hash uref)
    pure (record {
      balances = record { value = show_int amount; currency = currency } ∷ [];
      block_identifier = block_identifier block;
      metadata = [];
    })

  -- The account is read through its pointer once there is a block; a nil pointer is a panic.
  unfoldable pub balance_pointer :
      Option AccountIdentifier → Option PartialBlockIdentifier → M sdk.State AccountBalanceResponse
  unfolding balance_at
  balance_pointer pointer id = do
    block ← balance_block id
    account ← lift (deref pointer)
    balance_at account block

  -- `Balance` for an account that is there.
  unfoldable pub balance :
      AccountIdentifier → Option PartialBlockIdentifier → M sdk.State AccountBalanceResponse
  unfolding balance_pointer
  balance account id = balance_pointer (some account) id
