-- ===== src/Tests/Node.antt =====
-- A node that counts its calls: one block with two transfers, of two deploys.
use rosetta_casper.Common.{ℕ, ◌+◌, List, [], ◌∷◌, none, some, Text, lit, pos}
use rosetta_casper.Go.Outcome.{ok, M, fail, text}
use rosetta_casper.Casper.Sdk.{
  Sdk, BlockResponse, TransferResponse, DeployResult, ExecutionResult, StoredValue,
}

abbrev pub head : BlockResponse
head = record {
  hash = lit "b5";
  header = record {
    height = 5;
    parent_hash = lit "b4";
    state_root_hash = lit "r5";
    timestamp_nanos = pos 1600000000123456789;
  };
  body = record { proposer = lit "01ab"; deploy_hashes = lit "d1" ∷ lit "d3" ∷ [] };
}

abbrev pub transfer : Text → Text → Text → Text → TransferResponse
transfer deploy source target amount = record {
  deploy_hash = deploy;
  source = source;
  target = target;
  amount = amount;
  sender = [];
  receiver = [];
}

abbrev pub first_transfer : TransferResponse
first_transfer = transfer (lit "d1") (lit "uref-a-007") (lit "uref-b-007") (lit "25")

abbrev pub second_transfer : TransferResponse
second_transfer = transfer (lit "d2") (lit "uref-c-007") (lit "uref-d-007") (lit "40")

abbrev pub transfers : List TransferResponse
transfers = first_transfer ∷ second_transfer ∷ []

abbrev pub succeeded : ExecutionResult
succeeded = record {
  block_hash = lit "b5";
  success = some (record { cost = lit "100"; transfers = some [] });
  failure = none;
}

abbrev pub failed : ExecutionResult
failed = record {
  block_hash = lit "b5";
  success = none;
  failure = some (record { cost = lit "70" });
}

abbrev pub deploy : Text → DeployResult
deploy hash = record {
  deploy = record {
    hash = hash;
    account = lit "02cd";
    module_bytes = some (record { args_count = 0 });
  };
  execution_results = succeeded ∷ [];
}

abbrev pub answering : {A : Type 0} → A → M ℕ A
answering a calls = (ok a, calls + 1)

abbrev pub stored : StoredValue
stored = record { account = some (record { main_purse = lit "uref-m-007" }) }

abbrev pub node : Sdk
node = record {
  State = ℕ;
  get_latest_block = answering head;
  get_peers = answering (record { address = lit "1.2.3.4"; node_id = lit "n1" } ∷ []);
  get_block_by_hash = λ _. answering head;
  get_block_by_height = λ _. answering head;
  get_latest_block_transfers = answering transfers;
  get_block_transfers_by_hash = λ _. answering transfers;
  get_block_transfers_by_height = λ _. answering transfers;
  get_deploy = λ h. answering (deploy h);
  get_state_item = λ _ _ _. answering stored;
  get_account_balance = λ _ _. answering (pos 1234);
  read_payment_amount = λ _. answering (lit "1000");
  sum256 = λ bs. bs;
}

-- A node that is down.
abbrev pub down : Sdk
down = record {
  State = ℕ;
  get_latest_block = fail (text (lit "down"));
  get_peers = fail (text (lit "down"));
  get_block_by_hash = λ _. fail (text (lit "down"));
  get_block_by_height = λ _. fail (text (lit "down"));
  get_latest_block_transfers = fail (text (lit "down"));
  get_block_transfers_by_hash = λ _. fail (text (lit "down"));
  get_block_transfers_by_height = λ _. fail (text (lit "down"));
  get_deploy = λ _. fail (text (lit "down"));
  get_state_item = λ _ _ _. fail (text (lit "down"));
  get_account_balance = λ _ _. fail (text (lit "down"));
  read_payment_amount = λ _. fail (text (lit "down"));
  sum256 = λ bs. bs;
}
