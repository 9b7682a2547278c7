-- ===== src/Services/Endpoints/Laws.antt =====
-- services/*_service.go: what the endpoints return, in both modes.
use rosetta_casper.Common.{
  ◌≡◌, refl, sym, ap, subst, ◌∙◌, inl, inr, Bool, true, false, some, arith, ℤ, ltb_ℤ, Bool-cases,
  ◌↔◌,
}
use rosetta_casper.Go.Outcome
use rosetta_casper.Go.Outcome.{Outcome, ok, err, panic, is_block_orphaned, M, continue, pure}
use rosetta_casper.Casper.Block.{StatusAnswer}
use rosetta_casper.Configuration.{online, offline, Configuration}
use rosetta_casper.Services.Errors.{
  Error, Answer, response, refused, wrap_err, is_declared, answer, err_unavailable_offline,
  err_rpc_client_block, err_rpc_client_transaction, err_rpc_client,
}
use rosetta_casper.Services.Client.{Client}
use rosetta_casper.Services.Endpoints.{
  AccountBalanceRequest, BlockRequest, BlockTransactionRequest, NetworkStatusResponse,
  account_balance, block, block_transaction, network_status, orphaned_or, checked,
}

module _ (client : Client) (config : Configuration) (min_unix_epoch : ℤ) where
  -- The four endpoints that need the node, at one state of the client.
  pub record IsOffline (s : client.State) : Type 0 where
    pub account :
        (r : AccountBalanceRequest)
        → account_balance client config r s ≡ (ok (refused err_unavailable_offline), s)
    pub blocks :
        (r : BlockRequest) → block client config r s ≡ (ok (refused err_unavailable_offline), s)
    pub transactions :
        (r : BlockTransactionRequest)
        → block_transaction client config r s ≡ (ok (refused err_unavailable_offline), s)
    pub status :
        network_status client config min_unix_epoch s ≡ (ok (refused err_unavailable_offline), s)

  -- In offline mode the endpoints that need the node answer that they are not available, whatever
  -- the client is (the nil client, which panics, included), and leave its state alone.
  pub offline-IsOffline : config.mode ≡ offline → (s : client.State) → IsOffline s
  unfolding account_balance block block_transaction network_status
  offline-IsOffline off s = record {
    account = λ r. rw off refl;
    blocks = λ r. rw off refl;
    transactions = λ r. rw off refl;
    status = rw off refl;
  }

-- How the outcome of a call comes out of an endpoint. A success is answered by `respond`; an error
-- becomes a refusal that tells it, and `listed` says whether `Errors` lists the code.
pub data Relays {A B : Type 0} (respond : A → Answer B) (listed : Outcome.Error → Bool)
    : Outcome A → Outcome (Answer B) → Type 0 where
  succeeded : (a : A) → Relays respond listed (ok a) (ok (respond a))
  failed :
      (e : Outcome.Error) (error : Error)
      → error.context ≡ some (Outcome.message e)
      → is_declared error ≡ listed e
      → Relays respond listed (err e) (ok (refused error))
  crashed : Relays respond listed panic panic

-- An endpoint makes one call and relays its outcome.
pub record RelaysCall {S A B : Type 0} (respond : A → Answer B) (listed : Outcome.Error → Bool)
    (call : M S A) (endpoint : M S (Answer B)) (s : S) : Type 0 where
  pub relayed : Relays respond listed (call s).0 (endpoint s).0
  pub one_call : (endpoint s).1 ≡ (call s).1

answer-Relays :
    {A : Type 0} (f : Outcome.Error → Error) (listed : Outcome.Error → Bool)
    → ((e : Outcome.Error) → (f e).context ≡ some (Outcome.message e))
    → ((e : Outcome.Error) → is_declared (f e) ≡ listed e)
    → (o : Outcome A) → Relays response listed o (answer f o)
answer-Relays f listed told declared (ok a) = succeeded a
answer-Relays f listed told declared (err e) = failed e (f e) (told e) (declared e)
answer-Relays f listed told declared panic = crashed

context-orphaned_or :
    (other : Error) (e : Outcome.Error) → (orphaned_or other e).context ≡ some (Outcome.message e)
unfolding wrap_err
context-orphaned_or other e = ground arith

is_declared-orphaned_or :
    (other : Error)
    → is_declared other ≡ false
    → (e : Outcome.Error) → is_declared (orphaned_or other e) ≡ is_block_orphaned e
unfolding wrap_err
is_declared-orphaned_or other h e = elim (Bool-cases (is_block_orphaned e)) [
  | inl orphaned ↦ rw orphaned refl
  | inr fine ↦ rw fine h
]

-- How the outcome of `Status` comes out of /network/status: a status that is recent enough is answered
-- beside the genesis block, one that is older becomes a refusal, an error becomes a refusal that
-- tells it, and `Errors` lists the code of neither refusal.
pub data RelaysStatus (config : Configuration) (min_unix_epoch : ℤ)
    : Outcome StatusAnswer → Outcome (Answer NetworkStatusResponse) → Type 0 where
  recent :
      (a : StatusAnswer)
      → ltb_ℤ a.timestamp min_unix_epoch ≡ false
      → RelaysStatus config min_unix_epoch (ok a) (
          ok (
            response (record {
              current_block_identifier = a.block;
              current_block_timestamp = a.timestamp;
              genesis_block_identifier = config.genesis_block_identifier;
              peers = a.peers;
            })))
  not_ready :
      (a : StatusAnswer) (error : Error)
      → ltb_ℤ a.timestamp min_unix_epoch ≡ true
      → is_declared error ≡ false
      → RelaysStatus config min_unix_epoch (ok a) (ok (refused error))
  unanswered :
      (e : Outcome.Error) (error : Error)
      → error.context ≡ some (Outcome.message e)
      → is_declared error ≡ false
      → RelaysStatus config min_unix_epoch (err e) (ok (refused error))
  down : RelaysStatus config min_unix_epoch panic panic

module _ (client : Client) (config : Configuration) (min_unix_epoch : ℤ) where
  -- What /network/status makes of the outcome of the call.
  abbrev reported : Outcome StatusAnswer → M client.State (Answer NetworkStatusResponse)
  reported o =
      continue (answer (λ e. wrap_err err_rpc_client (some e)) o)
        (λ a. pure (checked client config min_unix_epoch a))

  pub record IsOnline (s : client.State) : Type 0 where
    pub account :
        (r : AccountBalanceRequest)
        → RelaysCall response
            (λ _. false)
            (client.balance r.account_identifier r.block_identifier)
            (account_balance client config r)
            s
    pub blocks :
        (r : BlockRequest)
        → RelaysCall response is_block_orphaned
            (client.block r.block_identifier)
            (block client config r)
            s
    pub transactions :
        (r : BlockTransactionRequest)
        → RelaysCall response is_block_orphaned
            (client.block_transaction r.block_identifier r.transaction_identifier)
            (block_transaction client config r)
            s
    pub status :
        RelaysStatus config min_unix_epoch
          (client.status s).0
          (network_status client config min_unix_epoch s).0
    pub status_call : (network_status client config min_unix_epoch s).1 ≡ (client.status s).1

  reported-RelaysStatus :
      (o : Outcome StatusAnswer) (s : client.State)
      → RelaysStatus config min_unix_epoch o (reported o s).0
  unfolding wrap_err
  reported-RelaysStatus (ok a) s = elim (Bool-cases (ltb_ℤ a.timestamp min_unix_epoch)) [
    | inl old ↦ rw old (not_ready a _ old refl)
    | inr young ↦ rw young (recent a young)
  ]
  reported-RelaysStatus (err e) s = unanswered e _ refl refl
  reported-RelaysStatus panic s = down

  reported_state : (o : Outcome StatusAnswer) (s : client.State) → (reported o s).1 ≡ s
  reported_state (ok a) s = refl
  reported_state (err e) s = refl
  reported_state panic s = refl

  network_status-reported :
      config.mode ≡ online
      → (s : client.State)
      → network_status client config min_unix_epoch s
        ≡ reported (client.status s).0 (client.status s).1
  unfolding network_status
  network_status-reported on s = rw on refl

  -- In online mode each endpoint that needs the node makes one call of the client and relays its
  -- outcome: a success is the answer, except that a status which is older than the earliest timestamp
  -- that Rosetta admits is refused, an error becomes a refusal that tells it, and a panic goes through.
  -- The code of a refusal is in the published list only where a block or a transaction fails by
  -- `ErrBlockOrphaned`; all other refusals, that of an old status included, have codes that the list
  -- lacks.
  pub online-IsOnline : config.mode ≡ online → (s : client.State) → IsOnline s
  unfolding account_balance block block_transaction network_status wrap_err
  online-IsOnline on s = record {
    account = λ r.
        rw on (record { relayed = answer-Relays _ _ (λ e. refl) (λ e. refl) _; one_call = refl });
    blocks = λ r. rw on (record {
      relayed =
          answer-Relays _ _ (context-orphaned_or err_rpc_client_block)
            (is_declared-orphaned_or err_rpc_client_block refl) _;
      one_call = refl;
    });
    transactions = λ r. rw on (record {
      relayed =
          answer-Relays _ _ (context-orphaned_or err_rpc_client_transaction)
            (is_declared-orphaned_or err_rpc_client_transaction refl) _;
      one_call = refl;
    });
    status =
        subst (RelaysStatus config min_unix_epoch (client.status s).0)
          (sym (ap (λ x. x.0) (network_status-reported on s)))
          (reported-RelaysStatus (client.status s).0 _);
    status_call =
        ap (λ x. x.1) (network_status-reported on s) ∙ reported_state (client.status s).0 _;
  }

  -- The outcome of the client's call is a status that is answered as `answered`.
  record IsReady (o : Outcome StatusAnswer) (answered : NetworkStatusResponse) : Type 0 where
    status : StatusAnswer
    given : o ≡ ok status
    recent : ltb_ℤ status.timestamp min_unix_epoch ≡ false
    same : answered ≡ record {
      current_block_identifier = status.block;
      current_block_timestamp = status.timestamp;
      genesis_block_identifier = config.genesis_block_identifier;
      peers = status.peers;
    }

  reported-IsReady :
      (o : Outcome StatusAnswer) (s : client.State) (answered : NetworkStatusResponse)
      → (reported o s).0 ≡ ok (response answered)
      → IsReady o answered
  reported-IsReady (ok a) s answered e = elim (Bool-cases (ltb_ℤ a.timestamp min_unix_epoch)) [
    | inl old ↦ cc
    | inr young ↦ record { status = a; given = refl; recent = young; same = cc }
  ]
  reported-IsReady (err e') s answered e = cc
  reported-IsReady panic s answered e = cc

  reported-eq-response :
      {o : Outcome StatusAnswer} (s : client.State) {answered : NetworkStatusResponse}
      → IsReady o answered
      → (reported o s).0 ≡ ok (response answered)
  reported-eq-response s r = rw (r.given, r.recent, r.same) refl

  -- In online mode /network/status answers exactly with the status of the client beside the genesis
  -- block of the configured network, provided that the latest block is not older than the earliest
  -- timestamp that Rosetta admits.
  network_status-eq-response_iff :
      config.mode ≡ online
      → (s : client.State) (answered : NetworkStatusResponse)
      → ((network_status client config min_unix_epoch s).0 ≡ ok (response answered))
        ↔ IsReady (client.status s).0 answered
  network_status-eq-response_iff on s answered =
      rw (network_status-reported on s)
        (reported-IsReady (client.status s).0 _ answered, reported-eq-response _)
