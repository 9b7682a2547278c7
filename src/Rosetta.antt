-- ===== src/Rosetta.antt =====
-- The data of github.com/coinbase/rosetta-sdk-go/types that the program builds and reads, with the
-- fields that it uses. A pointer that may be nil is an `Option`.
use rosetta_casper.Common.{ℕ, Bool, List, Option, Text, ℤ}
use rosetta_casper.Go.Dict.{Dict}

-- What an `interface{}` holds: nothing, a string, or a value of another type.
pub data Value : Type 0 where
  null : Value
  string : Text → Value
  other : Value

pub record NetworkIdentifier : Type 0 where
  pub blockchain : Text
  pub network : Text

pub record BlockIdentifier : Type 0 where
  pub hash : Text
  pub index : ℤ

pub record PartialBlockIdentifier : Type 0 where
  pub hash : Option Text
  pub index : Option ℤ

pub record Peer : Type 0 where
  pub peer_id : Text
  pub metadata : Dict Value

pub record Currency : Type 0 where
  pub symbol : Text
  pub decimals : ℕ

pub record Amount : Type 0 where
  pub value : Text
  pub currency : Currency

pub record AccountIdentifier : Type 0 where
  pub address : Text

pub record OperationIdentifier : Type 0 where
  pub index : ℤ

pub record Operation : Type 0 where
  pub operation_identifier : OperationIdentifier
  pub related_operations : List OperationIdentifier
  pub type : Text
  pub status : Option Text
  pub account : Option AccountIdentifier
  pub amount : Option Amount
  pub metadata : Dict Value

pub record Transaction : Type 0 where
  pub transaction_identifier : Text
  pub operations : List Operation
  pub metadata : Dict Value

pub record Block : Type 0 where
  pub block_identifier : BlockIdentifier
  pub parent_block_identifier : BlockIdentifier
  pub timestamp : ℤ
  pub transactions : List Transaction

pub record AccountBalanceResponse : Type 0 where
  pub balances : List Amount
  pub block_identifier : BlockIdentifier
  pub metadata : Dict Value

pub record OperationStatus : Type 0 where
  pub status : Text
  pub successful : Bool
