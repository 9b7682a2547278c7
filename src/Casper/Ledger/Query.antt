-- ===== src/Casper/Ledger/Query.antt =====
-- casper/client.go: the three methods that ask for data of a named block, as one kind of question.
use rosetta_casper.Common.{ℕ, List, Option, some, Text}
use rosetta_casper.Go.Outcome.{M}
use rosetta_casper.Go.Dict.{Dict}
use rosetta_casper.Rosetta.{
  PartialBlockIdentifier, BlockIdentifier, AccountIdentifier, AccountBalanceResponse, Block,
  Transaction,
}
use rosetta_casper.Casper.Sdk.{Sdk, TransferResponse}
use rosetta_casper.Casper.Block.{block, block_transaction}
use rosetta_casper.Casper.Balance.{balance}
use rosetta_casper.Casper.Ledger.{
  Ledger, BlockView, view_of, block_of, block_transaction_of, balance_of,
}

-- What is asked: `Block` and `Balance` for an identifier that is given, `BlockTransaction`.
pub data Query : Type 0 where
  of_block : PartialBlockIdentifier → Query
  of_transaction : Option BlockIdentifier → Option Text → Query
  of_balance : AccountIdentifier → PartialBlockIdentifier → Query

abbrev pub Told : Query → Type 0
Told (of_block id) = Block
Told (of_transaction at hash) = Transaction
Told (of_balance account id) = AccountBalanceResponse

-- What is told, a block up to the order of its transactions.
abbrev pub Seen : Query → Type 0
Seen (of_block id) = BlockView
Seen (of_transaction at hash) = Transaction
Seen (of_balance account id) = AccountBalanceResponse

abbrev pub seen : (q : Query) → Told q → Seen q
seen (of_block id) b = view_of b
seen (of_transaction at hash) t = t
seen (of_balance account id) held = held

-- The client's method.
abbrev pub ask :
    (sdk : Sdk)
    → (Dict (List TransferResponse) → Dict (List TransferResponse))
    → (q : Query) → M sdk.State (Told q)
ask sdk order (of_block id) = block sdk order (some id)
ask sdk order (of_transaction at hash) = block_transaction sdk at hash
ask sdk order (of_balance account id) = balance sdk account (some id)

-- What a state of the chain determines.
abbrev pub determined : Ledger → (List ℕ → List ℕ) → (q : Query) → Option (Seen q)
determined l sum256 (of_block id) = block_of l sum256 (some id)
determined l sum256 (of_transaction at hash) = block_transaction_of l sum256 at hash
determined l sum256 (of_balance account id) = balance_of l sum256 account (some id)
