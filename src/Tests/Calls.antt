-- ===== src/Tests/Calls.antt =====
-- The calls of the client on the small node.
use rosetta_casper.Common.{◌+◌, ◌*◌, ◌≤◌, none, some, lit}
use rosetta_casper.Casper.Block.{fetch, status, block, block_transaction}
use rosetta_casper.Casper.Balance.{balance}
use rosetta_casper.Casper.Calls.{counted, deploys_fetched, client-Calls}
use rosetta_casper.Tests.Node.{node}
use rosetta_casper.Tests.Blocks.{asked}
use rosetta_casper.Tests.Service.{alice}

client-Calls_example :
    ((status (counted node) (0, 0)).1.1 ≤ 0 + 2)
    × ((balance (counted node) alice none (0, 0)).1.1 ≤ 0 + 4)
    × ((block_transaction (counted node) asked (some (lit "d2")) (0, 0)).1.1 ≤ 0 + 7)
    × ((block (counted node) (λ m. m) none (0, 0)).1.1
        ≤ 0 + (5 + 3 * deploys_fetched node (λ m. m) (fetch (counted node) none (0, 0)).0))
client-Calls_example = client-Calls node (λ m. m) alice none asked (some (lit "d2")) (0, 0)
