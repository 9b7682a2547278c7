-- ===== src/Tests/Growing.antt =====
-- The client on a chain that grows with each call, at concrete data.
use rosetta_casper.Common.{
  ◌≡◌, refl, ap, ◌∙◌, ℕ, ◌+◌, Option, none, some, lit, leb, if◌then◌else◌, arith, pos,
}
use mathlib.Core.List.Permᴰ
use rosetta_casper.Go.Outcome.{ok, err, text, M}
use rosetta_casper.Go.Outcome.Gives.{result_of}
use rosetta_casper.Casper.Sdk.{Sdk}
use rosetta_casper.Casper.Block.{block}
use rosetta_casper.Casper.Balance.{balance}
use rosetta_casper.Casper.Ledger.{Ledger, view_of, block_of, balance_of}
use rosetta_casper.Casper.Ledger.Growth.{Keeps, Extends}
use rosetta_casper.Casper.Ledger.Live.{Tells, IsLive}
use rosetta_casper.Casper.Ledger.Live.Latest.{TellsLatest, balance_latest}
use rosetta_casper.Casper.Ledger.Query.{of_block}
use rosetta_casper.Casper.Ledger.Live.Client.{client-at_return}
use rosetta_casper.Tests.Node.{head, transfers, deploy, stored, node}
use rosetta_casper.Tests.Chain.{client}
use rosetta_casper.Tests.Blocks.{latest}
use rosetta_casper.Tests.Ledgers.{ledger, purse, held, fifth}

-- The block at height 5 and its transfers are there once the chain has it.
abbrev from_fifth : {A : Type 0} → A → ℕ → Option A
from_fifth a n = if leb 5 n then some a else none

abbrev chain : ℕ → Ledger
chain n = record ledger {
  block_by_hash = λ h. from_fifth head n;
  transfers_by_hash = λ h. from_fifth transfers n;
}

-- Each call takes as long as a block; it is answered from the chain at its end.
abbrev asked : {A : Type 0} → A → M ℕ A
asked a n = (if leb 5 (n + 1) then ok a else err (text (lit "unknown")), n + 1)

abbrev growing : Sdk
growing = record node {
  get_latest_block = asked head;
  get_block_by_hash = λ h. asked head;
  get_block_transfers_by_hash = λ h. asked transfers;
}

from_fifth-Keeps : {A : Type 0} (a : A) (n : ℕ) → Keeps (from_fifth a n) (from_fifth a (n + 1))
from_fifth-Keeps a n b e = ground arith

chain-Extends : (n : ℕ) → Extends (chain n) (chain (n + 1))
chain-Extends n = record {
  block_by_hash = λ h. from_fifth-Keeps head n;
  block_by_height = λ k b e. e;
  transfers_by_hash = λ h. from_fifth-Keeps transfers n;
  transfers_by_height = λ k ts e. e;
  deploy = λ h d e first. e;
  state_item = λ root key path item e. e;
  account_balance = λ root purse amount e. e;
  payment_amount = λ d amount e. e;
}

answering-Tells :
    {A : Type 0} (a : A) (r : Ledger → Option A)
    → ((n : ℕ) → r (chain n) ≡ some a)
    → Tells chain (λ n. (ok a, n + 1)) r
answering-Tells a r same n = record {
  extends = chain-Extends n;
  told = λ b e. same (n + 1) ∙ ap result_of e;
}

asked_told : {A : Type 0} (a b : A) (n : ℕ) → (asked a n).0 ≡ ok b → from_fifth a (n + 1) ≡ some b
asked_told a b n e = ground arith

growing-IsLive : IsLive growing chain
growing-IsLive = record {
  block_by_hash = λ h n. record { extends = chain-Extends n; told = λ b e. asked_told head b n e };
  block_by_height = λ k. answering-Tells head (λ l. l.block_by_height k) (λ n. refl);
  transfers_by_hash =
      λ h n. record { extends = chain-Extends n; told = λ ts e. asked_told transfers ts n e };
  transfers_by_height = λ k. answering-Tells transfers (λ l. l.transfers_by_height k) (λ n. refl);
  deploy = λ h. answering-Tells (deploy h) (λ l. l.deploy h) (λ n. refl);
  state_item =
      λ root key path. answering-Tells stored (λ l. l.state_item root key path) (λ n. refl);
  account_balance =
      λ root purse. answering-Tells (pos 1234) (λ l. l.account_balance root purse) (λ n. refl);
  payment_amount = λ d. answering-Tells (lit "1000") (λ l. l.payment_amount d) (λ n. refl);
}

returned : (block growing (λ m. m) (some fifth) 4).0 ≡ ok latest
unfolding client latest
returned = refl

client-at_return_example :
    block_of (chain (block growing (λ m. m) (some fifth) 4).1) growing.sum256 (some fifth)
    ≡ some (view_of latest)
client-at_return_example =
    client-at_return growing-IsLive (λ m. m) Permᴰ.refl (of_block fifth) 4 returned

growing-TellsLatest : TellsLatest growing chain
growing-TellsLatest n b e = asked_told head b n e

returned_latest : (balance growing purse none 4).0 ≡ ok held
unfolding client
returned_latest = refl

balance_latest_example :
    balance_of
      (chain (balance growing purse none 4).1)
      growing.sum256
      purse
      (some (record { hash = some held.block_identifier.hash; index = none }))
    ≡ some held
balance_latest_example = balance_latest growing-IsLive growing-TellsLatest purse 4 returned_latest
