-- ===== src/Services/Router/State.antt =====
-- services/: which requests touch the client, for whole sequences of requests.
use rosetta_casper.Common.{◌≡◌, refl, sym, ◌⊎◌, inl, inr, List, [], ◌∷◌, ◌∙◌, ap}
use rosetta_casper.Configuration.{Mode, online, offline, Configuration}
use rosetta_casper.Services.Client.{Client}
use rosetta_casper.Services.Endpoints.Laws.{offline-IsOffline, online-IsOnline}
use rosetta_casper.Services.Router.{
  Request, network_status, account_balance, block, block_transaction, Foreign, endpoint, serve,
}

module _ (client : Client) where
  -- The state that the client's own method for a request leaves.
  abbrev asked : Request → client.State → client.State
  asked network_status s = (client.status s).1
  asked (account_balance r) s = (client.balance r.account_identifier r.block_identifier s).1
  asked (block r) s = (client.block r.block_identifier s).1
  asked (block_transaction r) s =
      (client.block_transaction r.block_identifier r.transaction_identifier s).1
  asked _ s = s

  -- What requests do to the client: nothing offline, and at most one call each online.
  unfoldable pub effect : Mode → List Request → client.State → client.State
  effect offline rs s = s
  effect online [] s = s
  effect online (r ∷ rs) s = effect online rs (asked r s)

  effect_offline : (rs : List Request) (s : client.State) → s ≡ effect offline rs s
  unfolding effect
  effect_offline rs s = refl

pub mode_cases : (m : Mode) → (m ≡ online) ⊎ (m ≡ offline)
mode_cases online = inl refl
mode_cases offline = inr refl

module _ (foreign : Foreign) (config : Configuration) (client : Client) where
  endpoint_offline :
      config.mode ≡ offline
      → (r : Request) (s : client.State) → (endpoint foreign config client r s).1 ≡ s
  unfolding endpoint
  endpoint_offline off network_status s =
      ap (λ x. x.1) (offline-IsOffline client config foreign.min_unix_epoch off s).status
  endpoint_offline off (account_balance r) s =
      ap (λ x. x.1) ((offline-IsOffline client config foreign.min_unix_epoch off s).account r)
  endpoint_offline off (block r) s =
      ap (λ x. x.1) ((offline-IsOffline client config foreign.min_unix_epoch off s).blocks r)
  endpoint_offline off (block_transaction r) s =
      ap (λ x. x.1) ((offline-IsOffline client config foreign.min_unix_epoch off s).transactions r)
  endpoint_offline off _ s = refl

  endpoint_online :
      config.mode ≡ online
      → (r : Request) (s : client.State) → (endpoint foreign config client r s).1 ≡ asked client r s
  unfolding endpoint
  endpoint_online on network_status s =
      (online-IsOnline client config foreign.min_unix_epoch on s).status_call
  endpoint_online on (account_balance r) s =
      ((online-IsOnline client config foreign.min_unix_epoch on s).account r).one_call
  endpoint_online on (block r) s =
      ((online-IsOnline client config foreign.min_unix_epoch on s).blocks r).one_call
  endpoint_online on (block_transaction r) s =
      ((online-IsOnline client config foreign.min_unix_epoch on s).transactions r).one_call
  endpoint_online on _ s = refl

  serve_offline :
      config.mode ≡ offline
      → (rs : List Request) (s : client.State) → serve foreign config client rs s ≡ s
  unfolding serve
  serve_offline off [] s = refl
  serve_offline off (r ∷ rs) s =
      serve_offline off rs (endpoint foreign config client r s).1 ∙ endpoint_offline off r s

  serve_online :
      config.mode ≡ online
      → (rs : List Request) (s : client.State)
      → serve foreign config client rs s ≡ effect client online rs s
  unfolding serve effect
  serve_online on [] s = refl
  serve_online on (r ∷ rs) s =
      serve_online on rs (endpoint foreign config client r s).1
      ∙ ap (effect client online rs) (endpoint_online on r s)

  -- Whatever requests come, in whatever order, they touch the client only through the methods
  -- `Status`, `Balance`, `Block` and `BlockTransaction`, once for each request to the endpoint of
  -- the same name, and offline not at all.
  pub serve-effect :
      (rs : List Request) (s : client.State)
      → serve foreign config client rs s ≡ effect client config.mode rs s
  serve-effect rs s = elim (mode_cases config.mode) [
    | inl on ↦ serve_online on rs s ∙ ap (λ m. effect client m rs s) (sym on)
    | inr off ↦
        serve_offline off rs s
        ∙ effect_offline client rs s
        ∙ ap (λ m. effect client m rs s) (sym off)
  ]
