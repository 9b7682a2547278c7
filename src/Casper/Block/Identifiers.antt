-- ===== src/Casper/Block/Identifiers.antt =====
-- casper/client.go: the identifiers of a block and of its parent, and blocks that are not named.
use rosetta_casper.Common.{ℕ, zero, suc, ◌^◌, ◌<◌, ◌≡◌, refl, List, none, some, arith, pos}
use rosetta_casper.Go.Outcome.{panic}
use rosetta_casper.Go.Dict.{Dict}
use rosetta_casper.Go.Strings.{slice}
use rosetta_casper.Go.Machine.{to_int64_small, pred_int64-suc}
use rosetta_casper.Rosetta.{BlockIdentifier}
use rosetta_casper.Casper.Sdk.{Sdk, TransferResponse, BlockResponse}
use rosetta_casper.Casper.Purse.{account_preimage, get_main_purse_from_public_key}
use rosetta_casper.Casper.Block.{
  block_identifier, parent_block_identifier, fetch_by_hash, fetch_by_index, fetch, assemble, block,
}

-- The identifier of the parent of a block at a height: the genesis block is its own parent.
abbrev pub parent_at : ℕ → BlockResponse → BlockIdentifier
parent_at zero b = block_identifier b
parent_at (suc n) b = record { hash = b.header.parent_hash; index = pos n }

parent_lem :
    (n : ℕ) (b : BlockResponse)
    → n < 2 ^ 63
    → (block_identifier b).index ≡ pos n
    → parent_block_identifier b ≡ parent_at n b
parent_lem zero b h e = rw e refl
parent_lem (suc n) b h e = rw e (ground (arith, pred_int64-suc n))

-- Up to the largest int64 a block is numbered by its height, and its parent by the height before,
-- under the parent's hash; the genesis block is given as its own parent.
pub block_identifier-parents :
    (b : BlockResponse)
    → b.header.height < 2 ^ 63
    → ((block_identifier b).index ≡ pos b.header.height)
      × (parent_block_identifier b ≡ parent_at b.header.height b)
block_identifier-parents b h =
    let small = to_int64_small b.header.height h in (small, parent_lem b.header.height b h small)

module _ (sdk : Sdk) (order : Dict (List TransferResponse) → Dict (List TransferResponse)) where
  -- An identifier that names neither a hash nor an index is not an error and does not stand for the
  -- current block: `Block` panics on it, without having called the node.
  pub block-unnamed :
      (s : sdk.State) → block sdk order (some (record { hash = none; index = none })) s ≡ (panic, s)
  unfolding block fetch fetch_by_hash fetch_by_index assemble get_main_purse_from_public_key
      account_preimage slice
  block-unnamed s = refl
