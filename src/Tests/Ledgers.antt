-- ===== src/Tests/Ledgers.antt =====
-- The client on a node that answers from a ledger, at concrete data.
use rosetta_casper.Common.{◌≡◌, refl, [], ◌∷◌, none, some, arith, lit, text_eq, pos}
use mathlib.Core.List.{Memᴰ}
use mathlib.Core.List.Permᴰ
use rosetta_casper.Casper.Ledger.{Ledger, Answers}
use rosetta_casper.Casper.Ledger.Refinement.{RefinesClient, client-RefinesClient}
use rosetta_casper.Casper.Ledger.Coherent.{block_transaction-eq-block}
use rosetta_casper.Casper.Ledger.Growth.{Extends}
use rosetta_casper.Casper.Ledger.Named.{HasLatest, AnswersByName, client-AnswersByName}
use rosetta_casper.Casper.Ledger.Query.{of_block}
use rosetta_casper.Casper.Ledger.Stable.{IsStable, client-IsStable}
use rosetta_casper.Casper.Balance.{balance}
use rosetta_casper.Casper.Types.{currency}
use rosetta_casper.Go.Decimal.{show_int}
use rosetta_casper.Casper.Sdk.{Sdk}
use rosetta_casper.Casper.Block.{
  block, status, StatusAnswer, block_transaction, block_identifier, transfers_of,
}
use rosetta_casper.Go.Outcome.{ok, fail, text}
use rosetta_casper.Rosetta.{
  PartialBlockIdentifier, AccountIdentifier, AccountBalanceResponse, Transaction,
}
use rosetta_casper.Tests.Chain.{client, operations_of}
use rosetta_casper.Tests.Blocks.{latest, latest_lem}
use rosetta_casper.Tests.Node.{head, transfers, deploy, stored, succeeded, node}

-- What the small node shows.
abbrev pub ledger : Ledger
ledger = record {
  latest_block = some head;
  latest_transfers = some transfers;
  peers = some (record { address = lit "1.2.3.4"; node_id = lit "n1" } ∷ []);
  block_by_hash = λ _. some head;
  block_by_height = λ _. some head;
  transfers_by_hash = λ _. some transfers;
  transfers_by_height = λ _. some transfers;
  deploy = λ h. some (deploy h);
  state_item = λ _ _ _. some stored;
  account_balance = λ _ _. some (pos 1234);
  payment_amount = λ _. some (lit "1000");
}

pub answers : Answers ledger node
answers = record {
  latest_block = λ s. refl;
  latest_transfers = λ s. refl;
  peers = λ s. refl;
  block_by_hash = λ h s. refl;
  block_by_height = λ n s. refl;
  transfers_by_hash = λ h s. refl;
  transfers_by_height = λ n s. refl;
  deploy = λ h s. refl;
  state_item = λ root key path s. refl;
  account_balance = λ root purse s. refl;
  payment_amount = λ d s. refl;
}

client-RefinesClient_example : RefinesClient node ledger (λ m. m)
client-RefinesClient_example = client-RefinesClient answers (λ m. m) Permᴰ.refl

-- The transaction of the second deploy, which owns the last transfer.
unfoldable pub second : Transaction
unfolding operations_of
second = record {
  transaction_identifier = lit "d2";
  operations = operations_of (lit "40");
  metadata = [];
}

second-in-latest : Memᴰ second latest.transactions
unfolding client latest second operations_of
second-in-latest = Memᴰ.tail (Memᴰ.head refl)

block_transaction-eq-block_example :
    (block_transaction node (some (block_identifier head)) (some second.transaction_identifier) 9).0
    ≡ ok second
unfolding second transfers_of lit text_eq
block_transaction-eq-block_example =
    block_transaction-eq-block answers (λ m. m) Permᴰ.refl none
      (record { block = head; transfers = transfers }) 0 9 refl latest_lem refl refl second
      second-in-latest (deploy (lit "d2")) succeeded [] refl refl refl refl (refl, tt)

-- The node before it had told the block by its height, or any latest block.
abbrev younger : Sdk
younger = record node {
  get_latest_block = fail (text (lit "none yet"));
  get_block_by_height = λ _. fail (text (lit "none yet"));
}

abbrev younger_ledger : Ledger
younger_ledger = record ledger { latest_block = none; block_by_height = λ _. none }

younger-Answers : Answers younger_ledger younger
younger-Answers = record {
  latest_block = λ s. refl;
  latest_transfers = λ s. refl;
  peers = λ s. refl;
  block_by_hash = λ h s. refl;
  block_by_height = λ n s. refl;
  transfers_by_hash = λ h s. refl;
  transfers_by_height = λ n s. refl;
  deploy = λ h s. refl;
  state_item = λ root key path s. refl;
  account_balance = λ root purse s. refl;
  payment_amount = λ d s. refl;
}

grown : Extends younger_ledger ledger
grown = record {
  block_by_hash = λ h b e. e;
  block_by_height = λ n b e. cc;
  transfers_by_hash = λ h ts e. e;
  transfers_by_height = λ n ts e. e;
  deploy = λ h d e first. e;
  state_item = λ root key path item e. e;
  account_balance = λ root purse amount e. e;
  payment_amount = λ d amount e. e;
}

abbrev pub fifth : PartialBlockIdentifier
fifth = record { hash = some (lit "b5"); index = none }

told : (block younger (λ m. m) (some fifth) 0).0 ≡ ok latest
unfolding client latest
told = refl

abbrev pub purse : AccountIdentifier
purse = record { address = lit "uref-m-007" }

abbrev pub held : AccountBalanceResponse
held = record {
  balances = record { value = show_int (pos 1234); currency = currency } ∷ [];
  block_identifier = block_identifier head;
  metadata = [];
}

client-IsStable_example : IsStable node (λ m. m) (of_block fifth) 7 latest
client-IsStable_example =
    client-IsStable younger-Answers answers grown refl (λ m. m) (λ m. m) Permᴰ.refl Permᴰ.refl
      (of_block fifth) 0 7 told

latest-HasLatest : HasLatest ledger (record { block = head; transfers = transfers })
latest-HasLatest = record {
  block = refl;
  transfers = refl;
  block_by_hash = refl;
  transfers_by_hash = refl;
  block_by_height = refl;
  transfers_by_height = refl;
  height = omega arith;
}

current : StatusAnswer
unfolding client
current = elim (status node 0).0 [
  | ok a ↦ a
  | _ ↦ record { block = block_identifier head; timestamp = pos 0; peers = [] }
]

current_lem : (status node 0).0 ≡ ok current
unfolding client current
current_lem = refl

held_lem : (balance node purse none 0).0 ≡ ok held
unfolding client
held_lem = refl

client-AnswersByName_example : AnswersByName node (λ m. m) purse current latest held 5
client-AnswersByName_example =
    client-AnswersByName answers (λ m. m) Permᴰ.refl latest-HasLatest purse 0 0 0 5 current_lem
      latest_lem held_lem
