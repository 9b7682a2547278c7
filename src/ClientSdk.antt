-- ===== src/ClientSdk.antt =====
-- casper/casper_client_sdk/casper_client_sdk.go: the data of a deploy and its constructors.
use rosetta_casper.Common.{ℕ, List, [], Option, none, Text, lit, ℤ, pos}

pub record DeployParams : Type 0 where
  pub chain_name : Text
  pub transfer_amount : Text
  pub payment_amount : Text
  pub target_account : Text
  pub src_account : Text
  pub gas_price : Text
  pub transfer_id : ℤ

pub record StandardAmount : Type 0 where
  pub cl_type : Text
  pub amount_bytes : Text
  pub amount : Text

pub record PaymentArgs : Type 0 where
  pub amount : StandardAmount

pub record ModuleBytes : Type 0 where
  pub module_bytes : Text
  pub args : PaymentArgs

pub record Payment : Type 0 where
  pub module_bytes : ModuleBytes

pub record AccountClType : Type 0 where
  pub byte_array : ℕ

pub record TargetAccount : Type 0 where
  pub cl_type : AccountClType
  pub account_bytes : Text
  pub account : Text

pub record IdClType : Type 0 where
  pub option : Text

pub record TransferId : Type 0 where
  pub cl_type : IdClType
  pub id_bytes : Text
  pub id : ℤ

pub record TransferArgs : Type 0 where
  pub amount : StandardAmount
  pub target : TargetAccount
  pub id : TransferId

pub record Transfer : Type 0 where
  pub args : TransferArgs

pub record Session : Type 0 where
  pub transfer : Transfer

pub record Approval : Type 0 where
  pub signer : Text
  pub signature : Text

-- A time is the text that its JSON form holds.
pub record DeployHeader : Type 0 where
  pub account : Text
  pub timestamp : Text
  pub ttl : Text
  pub gas_price : ℤ
  pub body_hash : Text
  -- `none` is the nil slice.
  pub dependencies : Option (List Text)
  pub chain_name : Text

pub record Deploy : Type 0 where
  pub hash : Text
  pub header : DeployHeader
  pub payment : Payment
  pub session : Session
  pub approvals : Option (List Approval)

-- The zero values.
abbrev pub zero_amount : StandardAmount
zero_amount = record { cl_type = []; amount_bytes = []; amount = [] }

abbrev pub zero_module_bytes : ModuleBytes
zero_module_bytes = record { module_bytes = []; args = record { amount = zero_amount } }

abbrev pub zero_transfer : Transfer
zero_transfer = record {
  args = record {
    amount = zero_amount;
    target = record { cl_type = record { byte_array = 0 }; account_bytes = []; account = [] };
    id = record { cl_type = record { option = [] }; id_bytes = []; id = pos 0 };
  };
}

abbrev pub zero_header : DeployHeader
zero_header = record {
  account = [];
  timestamp = lit "0001-01-01T00:00:00Z";
  ttl = [];
  gas_price = pos 0;
  body_hash = [];
  dependencies = none;
  chain_name = [];
}

-- The parameters are not used.
unfoldable pub new_deploy : DeployParams → Deploy
new_deploy deploy_params = record {
  hash = [];
  header = zero_header;
  payment = record { module_bytes = zero_module_bytes };
  session = record { transfer = zero_transfer };
  approvals = none;
}

-- `now` is what `time.Now()` gives.
unfoldable pub new_deploy_header : Text → Text → Text → Text → DeployHeader
new_deploy_header now account chain_name body_hash = record {
  account = account;
  timestamp = now;
  ttl = lit "30m";
  gas_price = pos 1;
  body_hash = body_hash;
  dependencies = none;
  chain_name = chain_name;
}

abbrev u512 : Text → StandardAmount
u512 amount = record zero_amount { cl_type = lit "U512"; amount = amount }

unfoldable pub new_payment : Text → Payment
new_payment payment_amount = record {
  module_bytes = record zero_module_bytes { args = record { amount = u512 payment_amount } };
}

unfoldable pub new_session : Text → Text → ℤ → Session
new_session transfer_amount target_account transfer_id = record {
  transfer = record {
    args = record {
      amount = u512 transfer_amount;
      target = record {
        cl_type = record { byte_array = 32 };
        account_bytes = [];
        account = target_account;
      };
      id = record { cl_type = record { option = [] }; id_bytes = []; id = transfer_id };
    };
  };
}

unfoldable pub new_approval : Text → Approval
new_approval src_account = record { signer = src_account; signature = [] }
