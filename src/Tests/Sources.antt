-- ===== src/Tests/Sources.antt =====
-- Where blocks come from, single transfers, purses and printed configurations at concrete data.
use rosetta_casper.Common.{◌≡◌, refl, List, [], ◌∷◌, ◌++◌, none, arith, lit, text_eq}
use mathlib.Core.List.Permᴰ
use rosetta_casper.Go.Outcome.{ok}
use rosetta_casper.Go.Strings.{count, contains, has_prefix}
use rosetta_casper.Go.Decimal.{is_decimal}
use rosetta_casper.Rosetta.{Operation}
use rosetta_casper.Casper.Types.{transfer_op_type, success_status}
use rosetta_casper.Casper.Operations.{purse_without_index, operation, identifier}
use rosetta_casper.Casper.Transaction.{last_status, create_operation, zero_account}
use rosetta_casper.Casper.Transaction.Single.{IsSingle, create_operation-IsSingle}
use rosetta_casper.Casper.Block.Source.{IsSourced, block-IsSourced}
use rosetta_casper.Casper.Balance.{balance_uref}
use rosetta_casper.Casper.Balance.Purses.{IsPurse, balance_uref-purse_without_index}
use rosetta_casper.Configuration.{offline, load_configuration}
use rosetta_casper.Configuration.Print.{
  test, environment_of, configuration_of, load_configuration-environment_of,
}
use rosetta_casper.Tests.Node.{first_transfer, node}
use rosetta_casper.Tests.Blocks.{latest, latest_lem}

block-IsSourced_example : IsSourced node none latest
block-IsSourced_example = block-IsSourced node (λ m. m) Permᴰ.refl none 0 latest_lem

abbrev single : List Operation
single =
    operation 0 [] transfer_op_type success_status zero_account (lit "-25")
    ∷ operation 1 (identifier 0 ∷ []) transfer_op_type success_status zero_account (lit "25")
    ∷ []

create_operation-IsSingle_example : IsSingle node first_transfer 0 single
unfolding create_operation last_status is_decimal lit text_eq
create_operation-IsSingle_example = create_operation-IsSingle node first_transfer 0 refl refl

main-IsPurse : IsPurse (lit "uref-m") (lit "007")
unfolding count contains has_prefix lit
main-IsPurse = record { no_dash = refl; one_dash = refl; is_uref = refl; no_account = refl }

balance_uref-purse_without_index_example :
    (purse_without_index (lit "uref-m" ++ (b'-' ∷ lit "007")) ≡ ok (lit "uref-m"))
    × (balance_uref node (lit "r5") (lit "uref-m") 3 ≡ (ok (lit "uref-m" ++ lit "-001"), 3))
balance_uref-purse_without_index_example =
    balance_uref-purse_without_index node main-IsPurse (lit "r5") 3

load_configuration-environment_of_example :
    load_configuration (environment_of offline test 8081) ≡ ok (configuration_of offline test 8081)
load_configuration-environment_of_example =
    load_configuration-environment_of offline test 8081 (omega arith) (omega arith)
