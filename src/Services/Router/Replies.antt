-- ===== src/Services/Router/Replies.antt =====
-- services/ over casper/client.go: what the server replies to whole sequences of requests, on a node
-- that answers from one state of the chain.
use rosetta_casper.Common.{◌≡◌, refl, ap, ◌∙◌, ℕ, List, [], ◌∷◌, map, Option, none, some, inl, inr}
use rosetta_casper.Go.Outcome.{Outcome, ok, err, panic}
use rosetta_casper.Go.Outcome.Gives.{◌>>=◌}
use rosetta_casper.Go.Dict.{Dict}
use rosetta_casper.Configuration.{Mode, online, offline, Configuration}
use rosetta_casper.Casper.Sdk.{Sdk, TransferResponse}
use rosetta_casper.Casper.Ledger.{
  Ledger, Answers, BlockView, view_of, status_of, balance_of, block_of, block_transaction_of,
}
use rosetta_casper.Casper.Ledger.Blocks.{IsWalk}
use rosetta_casper.Services.Errors.{Answer, response, refused}
use rosetta_casper.Services.Client.{Client, casper_client}
use rosetta_casper.Services.Endpoints
use rosetta_casper.Services.Endpoints.{
  network_list, account_coins, call, mempool, mempool_transaction, NetworkStatusResponse,
}
use rosetta_casper.Rosetta.{Block, Transaction, AccountBalanceResponse}
use rosetta_casper.Services.Endpoints.Laws.{offline-IsOffline}
use rosetta_casper.Services.Endpoints.Ledger.{
  shown, reported, AnswersFromLedger, endpoints-AnswersFromLedger,
}
use rosetta_casper.Services.Construction.{
  derive_pointer, preprocess_pointer, construction_metadata, construction_payloads,
  construction_combine, construction_hash, construction_parse, construction_submit,
}
use rosetta_casper.Services.Router.{Request, Reply, reply, Foreign, endpoint}
use rosetta_casper.Services.Router.State.{mode_cases}

-- A reply with data; the transactions of a block come in no order.
pub data ReplyView : Type 0 where
  block_view : BlockView → ReplyView
  plain : Reply → ReplyView

abbrev pub seen : Reply → ReplyView
seen (Reply.a_block b) = block_view (view_of b)
seen r = plain r

shown-reply :
    {A : Type 0} (f : A → Reply) (o : Outcome (Answer A))
    → shown seen (reply f o) ≡ shown (λ a. seen (f a)) o
shown-reply f (ok (response a)) = refl
shown-reply f (ok (refused e)) = refl
shown-reply f (err e) = refl
shown-reply f panic = refl

-- What is shown in two steps.
shown->>= :
    {A B C : Type 0} (k : A → C) (h : A → B) (g : B → C)
    → ((a : A) → k a ≡ g (h a))
    → (o : Outcome (Answer A)) → shown k o ≡ (shown h o >>= λ b. some (g b))
shown->>= k h g same (ok (response a)) = ap some (same a)
shown->>= k h g same (ok (refused e)) = refl
shown->>= k h g same (err e) = refl
shown->>= k h g same panic = refl

abbrev pub online_only : {A : Type 0} → Mode → Option A → Option A
online_only online o = o
online_only offline o = none

module _ (foreign : Foreign) (config : Configuration) (client : Client) where
  -- The outcomes of requests, one after the other.
  pub serve_all : List Request → client.State → List (Outcome (Answer Reply))
  serve_all [] s = []
  serve_all (r ∷ rs) s =
      (endpoint foreign config client r s).0 ∷ serve_all rs (endpoint foreign config client r s).1

module _ (foreign : Foreign) (config : Configuration) (ledger : Ledger)
    (sum256 : List ℕ → List ℕ) where
  -- The data that are replied to a request: what the state of the chain determines, in online mode,
  -- and for the requests that need no chain a function of the request.
  unfoldable pub data_for : Request → Option ReplyView
  data_for Request.network_list = some (plain (Reply.networks (config.network ∷ [])))
  data_for Request.network_options =
      shown (λ o. plain (Reply.options o)) (ok (Endpoints.network_options foreign.rosetta_version))
  data_for Request.network_status = online_only config.mode (
      (status_of ledger >>= reported config foreign.min_unix_epoch) >>= λ a.
      some (plain (Reply.status a)))
  data_for (Request.account_balance r) = online_only config.mode (
      (r.account_identifier >>= λ a. balance_of ledger sum256 a r.block_identifier) >>= λ a.
      some (plain (Reply.balance a)))
  data_for (Request.block r) =
      online_only config.mode
        (block_of ledger sum256 r.block_identifier >>= λ b. some (block_view b))
  data_for (Request.block_transaction r) = online_only config.mode (
      block_transaction_of ledger sum256 r.block_identifier r.transaction_identifier >>= λ t.
      some (plain (Reply.transaction t)))
  data_for (Request.derive key) =
      shown (λ a. plain (Reply.account a)) (derive_pointer foreign.keypair key)
  data_for (Request.preprocess network operations) =
      shown (λ p. plain (Reply.preprocessed p)) (preprocess_pointer network operations)
  data_for (Request.metadata given) =
      shown (λ m. plain (Reply.copied m)) (ok (construction_metadata config given))
  data_for (Request.payloads given) =
      shown (λ p. plain (Reply.unsigned p)) (construction_payloads foreign.marshal given)
  data_for (Request.combine given) =
      shown (λ t. plain (Reply.signed t)) (construction_combine foreign.unmarshal given)
  data_for _ = none

module _ (foreign : Foreign) (config : Configuration) (sdk : Sdk) (ledger : Ledger)
    (order : Dict (List TransferResponse) → Dict (List TransferResponse))
    (answers : Answers ledger sdk) (walk : IsWalk order) where
  -- The data of the reply, whatever was asked before.
  abbrev data_of : Request → sdk.State → Option ReplyView
  data_of r s = shown seen (endpoint foreign config (casper_client sdk order) r s).0

  online_answers :
      config.mode ≡ online → AnswersFromLedger sdk ledger order config foreign.min_unix_epoch
  online_answers on =
      endpoints-AnswersFromLedger sdk ledger order config foreign.min_unix_epoch answers walk on

  -- With the data of one endpoint, offline and online.
  in_mode :
      {o o' : Option ReplyView}
      → (config.mode ≡ offline → o ≡ none)
      → (config.mode ≡ online → o ≡ o')
      → o ≡ online_only config.mode o'
  in_mode {o} {o'} off on = elim (mode_cases config.mode) [
    | inl e ↦ on e ∙ rw e refl
    | inr e ↦ off e ∙ rw e refl
  ]

  -- What the client answers is replied.
  replied :
      {A B : Type 0} (f : A → Reply) (h : A → B) (g : B → ReplyView)
      → ((a : A) → seen (f a) ≡ g (h a))
      → (o : Outcome (Answer A)) {r : Option B} → shown h o ≡ r
      → shown seen (reply f o) ≡ (r >>= λ b. some (g b))
  replied f h g same o e =
      shown-reply f o ∙ shown->>= _ h g same o ∙ ap (λ r. r >>= λ b. some (g b)) e

  data_of_lem :
      (r : Request) (s : sdk.State) → data_of r s ≡ data_for foreign config ledger sdk.sum256 r
  unfolding endpoint data_for network_list account_coins call mempool mempool_transaction
      construction_hash construction_parse construction_submit
  data_of_lem Request.network_list s = refl
  data_of_lem Request.network_options s =
      shown-reply Reply.options (ok (Endpoints.network_options foreign.rosetta_version))
  data_of_lem Request.network_status s =
      in_mode
        (λ off.
          ap
            (λ (m : Outcome (Answer NetworkStatusResponse) × sdk.State).
              shown seen (reply Reply.status m.0))
            (offline-IsOffline (casper_client sdk order) config foreign.min_unix_epoch off
              s).status)
        (λ on. replied Reply.status (λ a. a) _ (λ a. refl) _ ((online_answers on).status s))
  data_of_lem (Request.account_balance r) s =
      in_mode
        (λ off.
          ap
            (λ (m : Outcome (Answer AccountBalanceResponse) × sdk.State).
              shown seen (reply Reply.balance m.0))
            ((offline-IsOffline (casper_client sdk order) config foreign.min_unix_epoch off
                s).account
              r))
        (λ on. replied Reply.balance (λ a. a) _ (λ a. refl) _ ((online_answers on).balances r s))
  data_of_lem Request.account_coins s = refl
  data_of_lem (Request.block r) s =
      in_mode
        (λ off.
          ap (λ (m : Outcome (Answer Block) × sdk.State). shown seen (reply Reply.a_block m.0))
            ((offline-IsOffline (casper_client sdk order) config foreign.min_unix_epoch off
                s).blocks
              r))
        (λ on. replied Reply.a_block view_of _ (λ a. refl) _ ((online_answers on).blocks r s))
  data_of_lem (Request.block_transaction r) s =
      in_mode
        (λ off.
          ap
            (λ (m : Outcome (Answer Transaction) × sdk.State).
              shown seen (reply Reply.transaction m.0))
            ((offline-IsOffline (casper_client sdk order) config foreign.min_unix_epoch off
                s).transactions
              r))
        (λ on.
          replied Reply.transaction (λ a. a) _ (λ a. refl) _ ((online_answers on).transactions r s))
  data_of_lem Request.call s = refl
  data_of_lem Request.mempool s = refl
  data_of_lem Request.mempool_transaction s = refl
  data_of_lem (Request.derive key) s =
      shown-reply Reply.account (derive_pointer foreign.keypair key)
  data_of_lem (Request.preprocess network operations) s =
      shown-reply Reply.preprocessed (preprocess_pointer network operations)
  data_of_lem (Request.metadata given) s =
      shown-reply Reply.copied (ok (construction_metadata config given))
  data_of_lem (Request.payloads given) s =
      shown-reply Reply.unsigned (construction_payloads foreign.marshal given)
  data_of_lem (Request.combine given) s =
      shown-reply Reply.signed (construction_combine foreign.unmarshal given)
  data_of_lem Request.hash s = refl
  data_of_lem Request.parse s = refl
  data_of_lem Request.submit s = refl

  -- On a node that answers from one state of the chain, and with walks over maps that give their
  -- entries in some order, the server replies to any sequence of requests with the data that are
  -- replied to each of them alone, whatever was asked before: what the state of the chain determines,
  -- up to the order of transactions, to the four requests that need it, in online mode only; and a
  -- function of the request and the configuration to all others.
  pub serve_all-eq-map :
      (rs : List Request) (s : sdk.State)
      → map (shown seen) (serve_all foreign config (casper_client sdk order) rs s)
        ≡ map (data_for foreign config ledger sdk.sum256) rs
  unfolding serve_all
  serve_all-eq-map [] s = refl
  serve_all-eq-map (r ∷ rs) s = rw (data_of_lem r s, serve_all-eq-map rs _) refl
