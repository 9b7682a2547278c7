-- ===== src/Services/Endpoints/Published.antt =====
-- services/block_service.go over casper/client.go, beside services/network_service.go: the
-- operations that the endpoints answer with, by the tables that /network/options publishes.
use rosetta_casper.Common.{
  ◌≡◌, refl, subst, List, [], ◌∷◌, Option, none, some, Text, All, All_weaken,
}
use rosetta_casper.Go.Outcome
use rosetta_casper.Go.Outcome.{Outcome, ok, err, panic}
use rosetta_casper.Go.Dict.{Dict}
use rosetta_casper.Rosetta.{Block, Transaction, PartialBlockIdentifier, BlockIdentifier}
use rosetta_casper.Casper.Sdk.{Sdk, TransferResponse}
use rosetta_casper.Casper.Operations.Indices.{ArePlaced, result_operations-ArePlaced}
use rosetta_casper.Casper.Operations.Published.{IsPublished, result_operations-ArePublished}
use rosetta_casper.Casper.Transaction.Built.{IsBuilt}
use rosetta_casper.Casper.Block as Blocks
use rosetta_casper.Casper.Block.Built.{block-All}
use rosetta_casper.Casper.Block.Own.{block_transaction-IsOwn}
use rosetta_casper.Configuration.{Mode, Configuration, online, offline}
use rosetta_casper.Services.Errors.{
  Error, Answer, response, refused, answer, err_rpc_client_block, err_rpc_client_transaction,
}
use rosetta_casper.Services.Client.{casper_client}
use rosetta_casper.Services.Endpoints.{
  BlockRequest, BlockTransactionRequest, NetworkOptionsResponse, block, block_transaction,
  network_options, when_online, calling, orphaned_or,
}

-- The transactions that an answer holds: none where it is refused or there is none.
abbrev pub in_block : Outcome (Answer Block) → List Transaction
in_block (ok (response b)) = b.transactions
in_block (ok (refused e)) = []
in_block (err e) = []
in_block panic = []

abbrev pub in_transaction : Outcome (Answer Transaction) → List Transaction
in_transaction (ok (response t)) = t ∷ []
in_transaction (ok (refused e)) = []
in_transaction (err e) = []
in_transaction panic = []

-- Its operations have published types and statuses, and are numbered in order.
pub record IsAdmitted (options : NetworkOptionsResponse) (t : Transaction) : Type 0 where
  pub published : All (IsPublished options.operation_types options.operation_statuses) t.operations
  pub placed : ArePlaced 0 t.operations

module _ (P : Transaction → Type 0) (f : Outcome.Error → Error) where
  in_block-answer :
      (o : Outcome Block)
      → ((b : Block) → o ≡ ok b → All P b.transactions)
      → All P (in_block (answer f o))
  in_block-answer (ok b) h = h b refl
  in_block-answer (err e) h = tt
  in_block-answer panic h = tt

  in_transaction-answer :
      (o : Outcome Transaction)
      → ((t : Transaction) → o ≡ ok t → P t)
      → All P (in_transaction (answer f o))
  in_transaction-answer (ok t) h = (h t refl, tt)
  in_transaction-answer (err e) h = tt
  in_transaction-answer panic h = tt

response_injective : {A : Type 0} {a b : A} → response a ≡ response b → a ≡ b
response_injective e = cc

module _ (sdk : Sdk) (order : Dict (List TransferResponse) → Dict (List TransferResponse))
    (config : Configuration) (rosetta_version : Text) {options : NetworkOptionsResponse}
    (published : network_options rosetta_version ≡ response options) where
  IsBuilt-IsAdmitted :
      (h : Text) (ts : List TransferResponse) {t : Transaction}
      → IsBuilt sdk h ts t
      → IsAdmitted options t
  unfolding network_options
  IsBuilt-IsAdmitted h ts {t} b =
      subst (λ options. IsAdmitted options t) (response_injective published)
        (record {
          published =
              result_operations-ArePublished b.signer b.validator b.payment ts b.result
                b.operations;
          placed =
              (result_operations-ArePlaced b.signer b.validator b.payment ts b.result
                b.operations).0;
        })

  block-IsAdmitted :
      (m : Mode) (id : Option PartialBlockIdentifier) (s : sdk.State)
      → All (IsAdmitted options) (
          in_block
            (when_online m
              (calling (orphaned_or err_rpc_client_block) (Blocks.block sdk order id))
              s).0)
  block-IsAdmitted offline id s = tt
  block-IsAdmitted online id s = in_block-answer _ _ (Blocks.block sdk order id s).0 λ b e.
      All_weaken b.transactions (λ t (entry, _, built). IsBuilt-IsAdmitted entry.0 entry.1 built)
        (block-All sdk order id s e)

  block_transaction-IsAdmitted :
      (m : Mode) (id : Option BlockIdentifier) (hash : Option Text) (s : sdk.State)
      → All (IsAdmitted options) (
          in_transaction
            (when_online m
              (calling
                (orphaned_or err_rpc_client_transaction)
                (Blocks.block_transaction sdk id hash))
              s).0)
  unfolding Blocks.block_transaction
  block_transaction-IsAdmitted offline id hash s = tt
  block_transaction-IsAdmitted online id none s = tt
  block_transaction-IsAdmitted online id (some hash) s =
      in_transaction-answer _ _ (Blocks.block_transaction sdk id (some hash) s).0
        λ t e. IsBuilt-IsAdmitted _ _ (block_transaction-IsOwn sdk id hash s e).built

  -- Whatever the node answers, each transaction that /block or /block/transaction answers with has
  -- operations of the types and statuses that /network/options publishes, each with an account and
  -- an amount in CSPR, numbered from 0 in order and related to earlier ones only.
  pub transactions-IsAdmitted :
      (r : BlockRequest) (q : BlockTransactionRequest) (s : sdk.State)
      → All (IsAdmitted options) (in_block (block (casper_client sdk order) config r s).0)
        × All
            (IsAdmitted options)
            (in_transaction (block_transaction (casper_client sdk order) config q s).0)
  unfolding block block_transaction
  transactions-IsAdmitted r q s = (
    block-IsAdmitted config.mode r.block_identifier s,
    block_transaction-IsAdmitted config.mode q.block_identifier q.transaction_identifier s,
  )
