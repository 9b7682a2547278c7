-- ===== src/Tests/Healthy.antt =====
-- The small node, and one that fails at times, serve the methods of the client.
use rosetta_casper.Common.{
  ℕ, Bool, true, refl, List, [], ℤ, inl, inr, Option, none, some, arith, Text, lit, text_eq, pos,
  Bool-cases, if◌then◌else◌,
}
use rosetta_casper.Go.Outcome.{M, fail, text}
use rosetta_casper.Go.Outcome.Success.{Ends, Finishes, ends_ok, ends_err}
use rosetta_casper.Go.Strings.{count, slice}
use rosetta_casper.Rosetta.{AccountIdentifier, BlockIdentifier, PartialBlockIdentifier}
use rosetta_casper.Casper.Sdk.{Sdk, DeployResult, ExecutionResult}
use rosetta_casper.Casper.Block.Health.{IsHealthy, IsReadable, HasResult}
use rosetta_casper.Casper.Serving.{IsServing, IsAddress}
use rosetta_casper.Tests.Node.{node, deploy, answering}

-- The small node with other answers for deploys and balances.
abbrev altered : (Text → M ℕ DeployResult) → M ℕ ℤ → Sdk
altered get_deploy balance = record node {
  get_deploy = get_deploy;
  get_account_balance = λ _ _. balance;
}

module _ (may_fail : Bool) (get_deploy : Text → M ℕ DeployResult) (balance : M ℕ ℤ)
    (deploys : (h : Text) (s : ℕ) → Ends may_fail (IsReadable may_fail) (get_deploy h s).0)
    (balances : (s : ℕ) → Finishes may_fail (balance s).0) where
  healthy : IsHealthy may_fail (altered get_deploy balance)
  unfolding count lit
  healthy = record {
    latest_block = λ s. ends_ok (omega arith);
    block_by_hash = λ h s. ends_ok (omega arith);
    block_by_height = λ n s. ends_ok (omega arith);
    latest_transfers = λ s. ends_ok refl;
    transfers_by_hash = λ h s. ends_ok refl;
    transfers_by_height = λ n s. ends_ok refl;
    deploys = deploys;
    items = λ root key path s. ends_ok (_, refl, refl);
    payments = λ d s. ends_ok tt;
  }

  altered-IsServing : IsServing may_fail (altered get_deploy balance)
  altered-IsServing = record {
    healthy = healthy;
    peers = λ s. ends_ok tt;
    balances = λ root purse s. balances s;
  }

readable :
    (may_fail : Bool) (h : Text) (results : List ExecutionResult)
    → HasResult may_fail results
    → IsReadable may_fail (record (deploy h) { execution_results = results })
unfolding lit
readable may_fail h results result = record {
  account = omega arith;
  module_bytes = _;
  has_bytes = refl;
  result = result;
}

unfoldable pub ada : AccountIdentifier
ada = record { address = lit "01ab" }

pub ada-IsAddress : (may_fail : Bool) → IsAddress may_fail ada.address
unfolding ada slice lit text_eq
ada-IsAddress may_fail = inr (record { tag = lit "01"; starts = refl; known = ground arith })

abbrev named : Option PartialBlockIdentifier
named = some (record { hash = some (lit "b5"); index = none })

abbrev pub at : BlockIdentifier
at = record { hash = lit "b5"; index = pos 5 }

-- A node that does not know one of the deploys, has not run the others, and has no balances.
abbrev some_deploys : Text → M ℕ DeployResult
some_deploys h =
    if text_eq h (lit "d1")
    then fail (text (lit "unknown deploy"))
    else answering (record (deploy h) { execution_results = [] })

some_deploys-Ends : (h : Text) (s : ℕ) → Ends true (IsReadable true) (some_deploys h s).0
some_deploys-Ends h s = elim (Bool-cases (text_eq h (lit "d1"))) [
  | inl unknown ↦ rw unknown (ends_err refl _)
  | inr known ↦ rw known (ends_ok (readable true h [] refl))
]

abbrev pub flaky : Sdk
flaky = altered some_deploys (fail (text (lit "down")))

pub flaky-IsServing : IsServing true flaky
flaky-IsServing =
    altered-IsServing true some_deploys (fail (text (lit "down"))) some_deploys-Ends
      λ s. ends_err refl _
