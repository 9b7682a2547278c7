-- ===== src/Services/Endpoints/Ledger.antt =====
-- services/*_service.go over casper/client.go: what the endpoints answer on a node that answers from
-- one state of the chain.
use rosetta_casper.Common.{
  ◌≡◌, refl, ◌∙◌, List, Option, none, some, ℤ, ltb_ℤ, if◌then◌else◌, Bool-cases, inl, inr,
}
use rosetta_casper.Go.Outcome
use rosetta_casper.Go.Outcome.{Outcome, ok, err, panic, M, continue}
use rosetta_casper.Go.Outcome.Gives.{result_of, view, Gives, ◌>>=◌}
use rosetta_casper.Casper.Sdk.{Sdk, TransferResponse}
use rosetta_casper.Go.Dict.{Dict}
use rosetta_casper.Casper.Block as Blocks
use rosetta_casper.Casper.Block.{StatusAnswer}
use rosetta_casper.Casper.Ledger.{
  Ledger, Answers, view_of, status_of, balance_of, block_of, block_transaction_of,
}
use rosetta_casper.Casper.Ledger.Blocks.{IsWalk}
use rosetta_casper.Casper.Ledger.Refinement.{RefinesClient, client-RefinesClient}
use rosetta_casper.Configuration.{Configuration, online}
use rosetta_casper.Services.Errors.{Error, Answer, response, refused, answer}
use rosetta_casper.Rosetta.{AccountIdentifier, PartialBlockIdentifier}
use rosetta_casper.Casper.Balance.{balance, balance_pointer, balance_block}
use rosetta_casper.Services.Client.{casper_client}
use rosetta_casper.Services.Endpoints.{
  AccountBalanceRequest, BlockRequest, BlockTransactionRequest, NetworkStatusResponse,
  account_balance, block, block_transaction, network_status, checked,
}

-- What is answered, seen through a function; nothing where the request is refused or panics.
abbrev pub shown : {A B : Type 0} → (A → B) → Outcome (Answer A) → Option B
shown f (ok (response a)) = some (f a)
shown f (ok (refused e)) = none
shown f (err e) = none
shown f panic = none

shown-answer :
    {A B : Type 0} (f : A → B) (g : Outcome.Error → Error) (o : Outcome A)
    → shown f (answer g o) ≡ view f o
shown-answer f g (ok a) = refl
shown-answer f g (err e) = refl
shown-answer f g panic = refl

-- A run whose second step has no result has none.
result_of-nothing :
    {S A B : Type 0} (o : Outcome A) (f : A → M S B) (s : S)
    → ((a : A) (t : S) → result_of (f a t).0 ≡ none)
    → result_of (continue o f s).0 ≡ none
result_of-nothing (ok a) f s h = h a s
result_of-nothing (err e) f s h = refl
result_of-nothing panic f s h = refl

module _ (config : Configuration) (min_unix_epoch : ℤ) where
  -- A status, if its block is no older than the earliest timestamp.
  abbrev pub reported : StatusAnswer → Option NetworkStatusResponse
  reported status =
      if ltb_ℤ status.timestamp min_unix_epoch
      then none
      else some (record {
        current_block_identifier = status.block;
        current_block_timestamp = status.timestamp;
        genesis_block_identifier = config.genesis_block_identifier;
        peers = status.peers;
      })

module _ (sdk : Sdk) (ledger : Ledger)
    (order : Dict (List TransferResponse) → Dict (List TransferResponse)) (config : Configuration)
    (min_unix_epoch : ℤ) where
  -- The four endpoints that need the node.
  pub record AnswersFromLedger : Type 0 where
    pub balances :
        (r : AccountBalanceRequest) (s : sdk.State)
        → shown (λ a. a) (account_balance (casper_client sdk order) config r s).0
          ≡ (r.account_identifier >>= λ a. balance_of ledger sdk.sum256 a r.block_identifier)
    pub blocks :
        (r : BlockRequest) (s : sdk.State)
        → shown view_of (block (casper_client sdk order) config r s).0
          ≡ block_of ledger sdk.sum256 r.block_identifier
    pub transactions :
        (r : BlockTransactionRequest) (s : sdk.State)
        → shown (λ a. a) (block_transaction (casper_client sdk order) config r s).0
          ≡ block_transaction_of ledger sdk.sum256 r.block_identifier r.transaction_identifier
    pub status :
        (s : sdk.State)
        → shown (λ a. a) (network_status (casper_client sdk order) config min_unix_epoch s).0
          ≡ (status_of ledger >>= reported config min_unix_epoch)

  balance_pointer-Gives :
      RefinesClient sdk ledger order
      → (pointer : Option AccountIdentifier) (id : Option PartialBlockIdentifier)
      → Gives (balance_pointer sdk pointer id) (pointer >>= λ a. balance_of ledger sdk.sum256 a id)
  unfolding balance balance_pointer
  balance_pointer-Gives client (some a) id s = client.balance a id s
  balance_pointer-Gives client none id s =
      result_of-nothing (balance_block sdk id s).0 _ _ λ b t. refl

  shown-checked :
      (a : StatusAnswer)
      → shown (λ r. r) (ok (checked (casper_client sdk order) config min_unix_epoch (response a)))
        ≡ reported config min_unix_epoch a
  shown-checked a = elim (Bool-cases (ltb_ℤ a.timestamp min_unix_epoch)) [
    | inl early ↦ rw early refl
    | inr late ↦ rw late refl
  ]

  shown-reported :
      (f : Outcome.Error → Error) (o : Outcome StatusAnswer) (s : sdk.State)
      {r : Option StatusAnswer}
      → result_of o ≡ r
      → shown
          (λ a. a)
          (continue
            (answer f o)
            (λ a s. (ok (checked (casper_client sdk order) config min_unix_epoch a), s))
            s).0
        ≡ (r >>= reported config min_unix_epoch)
  shown-reported f (ok a) s e = shown-checked a ∙ rw (← e) refl
  shown-reported f (err e') s e = rw (← e) refl
  shown-reported f panic s e = rw (← e) refl

  -- In online mode, on a node that answers from one state of the chain, whatever was asked before,
  -- and with a walk over a map that gives its entries in some order, the endpoints /account/balance,
  -- /block, /block/transaction and /network/status answer what the state of the chain determines, a
  -- block up to the order of its transactions, and the status if the latest block is no older than
  -- the earliest timestamp; where it determines nothing they do not answer with data.
  pub endpoints-AnswersFromLedger :
      Answers ledger sdk → IsWalk order → config.mode ≡ online → AnswersFromLedger
  unfolding account_balance block block_transaction network_status
  endpoints-AnswersFromLedger answers walk on =
      let client = client-RefinesClient answers order walk in
      record {
        balances = λ r s. rw on (
            shown-answer (λ a. a) _ _
            ∙ balance_pointer-Gives client r.account_identifier r.block_identifier s);
        blocks = λ r s. rw on (shown-answer view_of _ _ ∙ client.block r.block_identifier s);
        transactions = λ r s. rw on (
            shown-answer (λ a. a) _ _
            ∙ client.block_transaction r.block_identifier r.transaction_identifier s);
        status = λ s. rw on (shown-reported _ (Blocks.status sdk s).0 _ (client.status s));
      }
