-- ===== src/Services/Router/Safety.antt =====
-- services/: which requests cannot make an endpoint panic, in either mode.
use rosetta_casper.Common.{
  ◌≡◌, ◌≢◌, refl, ap, fun_ext, map, Bool, true, false, [], ◌∷◌, List, Option, none, some, Text,
}
use rosetta_casper.Go.Outcome
use rosetta_casper.Go.Outcome.{Outcome, ok, err, panic, M, continue, pure}
use rosetta_casper.Go.Outcome.Chain.{◌>>=◌}
use rosetta_casper.Go.Outcome.Success.{Ends-ne-panic}
use rosetta_casper.Go.Dict.{Dict}
use rosetta_casper.Rosetta.{
  BlockIdentifier, PartialBlockIdentifier, AccountIdentifier, NetworkIdentifier, Operation,
}
use rosetta_casper.Casper.Balance.{balance, balance_pointer}
use rosetta_casper.ClientSdk.{Deploy}
use rosetta_casper.Configuration.{Mode, online, offline, Configuration}
use rosetta_casper.Casper.Sdk.{Sdk, TransferResponse}
use rosetta_casper.Casper.Block as Blocks
use rosetta_casper.Casper.Block.Balanced.{MeetsEntries}
use rosetta_casper.Casper.Block.Total.{IsNamed, block-Finishes}
use rosetta_casper.Casper.Serving.{
  IsServing, IsAddress, status-Finishes, balance-Finishes, block_transaction-Finishes,
}
use rosetta_casper.Services.Errors.{Error, Answer, answer}
use rosetta_casper.Services.Client.{casper_client}
use rosetta_casper.Services.Endpoints.{
  when_online, account_balance, block, block_transaction, network_status,
}
use rosetta_casper.Services.Construction.{
  PublicKey, Preprocessed, construction_preprocess, derive_pointer, note_sender, note_target,
  note_operations, note_pointers, preprocess_pointer, parsed_or_refused, construction_combine,
}
use rosetta_casper.Services.Construction.Preprocess.{
  has_incomplete, construction_preprocess-eq-panic_iff,
}
use rosetta_casper.Services.Construction.Crashes.{
  crashes_payloads, construction_payloads-eq-panic_iff,
}
use rosetta_casper.Services.Router.{Request, Reply, reply, Foreign, endpoint}

-- An account that is there and is an account hash, a purse or a text of two bytes or more.
abbrev IsKnown : Option AccountIdentifier → Type 0
IsKnown none = ⊥
IsKnown (some account) = IsAddress true account.address

-- Operations that are there, with their identifiers and what is read of them.
abbrev AreComplete : List (Option Operation) → Type 0
AreComplete operations =
    (present : List Operation) × (operations ≡ map (λ o. some o) present)
    × (has_incomplete present ≡ false)

-- The loop over operations that are there.
note_pointers-map :
    (os : List Operation) (p : Preprocessed)
    → note_pointers (map (λ o. some o) os) p ≡ note_operations os p
unfolding note_pointers note_operations
note_pointers-map [] p = refl
note_pointers-map (o ∷ os) p =
    ap (λ f. note_sender o p >>= λ sender. note_target o sender >>= f)
      (fun_ext λ both. note_pointers-map os both)

-- A request whose account, public key and network are there, the account in one of these forms, whose
-- block identifier names something where one is given and is there where it is needed, and whose
-- operations and metadata are complete.
abbrev pub IsComplete : Request → Type 0
IsComplete (Request.account_balance r) = IsKnown r.account_identifier
IsComplete (Request.block r) = IsNamed r.block_identifier
IsComplete (Request.block_transaction r) = r.block_identifier ≢ none
IsComplete (Request.derive key) = key ≢ none
IsComplete (Request.preprocess network operations) = (network ≢ none) × AreComplete operations
IsComplete (Request.payloads metadata) = crashes_payloads metadata ≡ false
IsComplete _ = Unit

reply-ne-panic :
    {A : Type 0} (f : A → Reply) (o : Outcome (Answer A)) → o ≢ panic → reply f o ≢ panic
reply-ne-panic f (ok a) n = λ e. cc
reply-ne-panic f (err e') n = λ e. cc
reply-ne-panic f panic n = λ e. n refl

answer-ne-panic :
    {A : Type 0} (g : Outcome.Error → Error) (o : Outcome A) → o ≢ panic → answer g o ≢ panic
answer-ne-panic g (ok a) n = λ e. cc
answer-ne-panic g (err e') n = λ e. cc
answer-ne-panic g panic n = λ e. n refl

when_online-ne-panic :
    {S A : Type 0} (mode : Mode) (m : M S (Answer A)) (s : S)
    → (m s).0 ≢ panic
    → (when_online mode m s).0 ≢ panic
when_online-ne-panic online m s n = n
when_online-ne-panic offline m s n = λ e. cc

checked-ne-panic :
    {S A B : Type 0} (o : Outcome A) (f : A → B) (s : S)
    → o ≢ panic
    → (continue o (λ a. pure (f a)) s).0 ≢ panic
checked-ne-panic (ok a) f s n = λ e. cc
checked-ne-panic (err e') f s n = λ e. cc
checked-ne-panic panic f s n = λ e. n refl

parsed_or_refused-ne-panic :
    {A B : Type 0} (o : Outcome A) (f : A → Outcome (Answer B))
    → o ≢ panic
    → ((a : A) → f a ≢ panic)
    → parsed_or_refused o f ≢ panic
parsed_or_refused-ne-panic (ok a) f n next = next a
parsed_or_refused-ne-panic (err e') f n next = λ e. cc
parsed_or_refused-ne-panic panic f n next = λ e. n refl

clash : {b : Bool} → b ≡ false → b ≡ true → ⊥
clash h k = cc

module _ (foreign : Foreign) (config : Configuration) (sdk : Sdk)
    (order : Dict (List TransferResponse) → Dict (List TransferResponse))
    (serving : IsServing true sdk) (meets : MeetsEntries order) where
  found-ne-panic :
      (at : Option BlockIdentifier) (hash : Option Text) (s : sdk.State)
      → at ≢ none
      → (Blocks.block_transaction sdk at hash s).0 ≢ panic
  unfolding Blocks.block_transaction
  found-ne-panic none hash s given = absurd (given refl)
  found-ne-panic (some at) none s given = λ e. cc
  found-ne-panic (some at) (some hash) s given =
      Ends-ne-panic (block_transaction-Finishes sdk serving at hash s)

  known-ne-panic :
      (account : Option AccountIdentifier) (id : Option PartialBlockIdentifier) (s : sdk.State)
      → IsKnown account
      → (balance_pointer sdk account id s).0 ≢ panic
  unfolding balance balance_pointer
  known-ne-panic none id s known = absurd known
  known-ne-panic (some account) id s known =
      Ends-ne-panic (balance-Finishes sdk serving account id s known)

  derive_pointer-ne-panic :
      (key : Option PublicKey) → key ≢ none → derive_pointer foreign.keypair key ≢ panic
  unfolding derive_pointer
  derive_pointer-ne-panic none given = absurd (given refl)
  derive_pointer-ne-panic (some key) given = λ e. cc

  preprocess_pointer-ne-panic :
      (network : Option NetworkIdentifier) (operations : List (Option Operation))
      → network ≢ none
      → AreComplete operations
      → preprocess_pointer network operations ≢ panic
  unfolding preprocess_pointer construction_preprocess
  preprocess_pointer-ne-panic none operations given h = absurd (given refl)
  preprocess_pointer-ne-panic (some network) operations given (os, there, h) = λ e. clash h (
      (construction_preprocess-eq-panic_iff network os).0 (rw (there, note_pointers-map os _) at e))

  -- If the calls of the node may fail with an error at any time, and where they do not, each item of
  -- the state that is asked for is an account, public keys have a tag, purses have a dash, deploys
  -- have module bytes, and a first result of a deploy says how it ended, Go's walk over a map meets
  -- entries of the map only, and encoding/json does not panic, then no request makes
  -- an endpoint panic, in either mode, but these: a balance without an
  -- account, or of a text of less than two bytes that is no account hash and no purse; a block for an
  -- identifier with neither a hash nor an index; a transaction without a block identifier;
  -- /construction/derive without a public key; /construction/preprocess without a network, or with an
  -- operation that is not there or lacks its identifier or what is read of it; and /construction/payloads with metadata that lack a
  -- text.
  pub endpoint-ne-panic :
      ((d : Deploy) → foreign.marshal d ≢ panic)
      → ((t : Text) → foreign.unmarshal t ≢ panic)
      → (r : Request) → IsComplete r
      → (s : sdk.State) → (endpoint foreign config (casper_client sdk order) r s).0 ≢ panic
  unfolding endpoint account_balance block block_transaction network_status construction_combine
  endpoint-ne-panic encodes decodes Request.network_list h s = λ e. cc
  endpoint-ne-panic encodes decodes Request.network_options h s = λ e. cc
  endpoint-ne-panic encodes decodes Request.network_status h s = reply-ne-panic _ _ (
      when_online-ne-panic config.mode _ s (
        checked-ne-panic _ _ _
          (answer-ne-panic _ _ (Ends-ne-panic (status-Finishes sdk serving s)))))
  endpoint-ne-panic encodes decodes (Request.account_balance r) h s = reply-ne-panic _ _ (
      when_online-ne-panic config.mode _ s
        (answer-ne-panic _ _ (known-ne-panic r.account_identifier r.block_identifier s h)))
  endpoint-ne-panic encodes decodes Request.account_coins h s = λ e. cc
  endpoint-ne-panic encodes decodes (Request.block r) h s = reply-ne-panic _ _ (
      when_online-ne-panic config.mode _ s (
        answer-ne-panic _ _
          (Ends-ne-panic (block-Finishes sdk serving.healthy order meets r.block_identifier s h))))
  endpoint-ne-panic encodes decodes (Request.block_transaction r) h s = reply-ne-panic _ _ (
      when_online-ne-panic config.mode _ s
        (answer-ne-panic _ _ (found-ne-panic r.block_identifier r.transaction_identifier s h)))
  endpoint-ne-panic encodes decodes Request.call h s = λ e. cc
  endpoint-ne-panic encodes decodes Request.mempool h s = λ e. cc
  endpoint-ne-panic encodes decodes Request.mempool_transaction h s = λ e. cc
  endpoint-ne-panic encodes decodes (Request.derive key) h s =
      reply-ne-panic _ _ (derive_pointer-ne-panic key h)
  endpoint-ne-panic encodes decodes (Request.preprocess network operations) h s =
      reply-ne-panic _ _ (preprocess_pointer-ne-panic network operations (h.0) (h.1))
  endpoint-ne-panic encodes decodes (Request.metadata given) h s = reply-ne-panic _ (ok _) (λ e. cc)
  endpoint-ne-panic encodes decodes (Request.payloads given) h s =
      reply-ne-panic _ _
        (λ e. clash h ((construction_payloads-eq-panic_iff foreign.marshal encodes given).0 e))
  endpoint-ne-panic encodes decodes (Request.combine given) h s =
      reply-ne-panic _ _ (parsed_or_refused-ne-panic _ _ (decodes given) (λ d e. cc))
  endpoint-ne-panic encodes decodes Request.hash h s = λ e. cc
  endpoint-ne-panic encodes decodes Request.parse h s = λ e. cc
  endpoint-ne-panic encodes decodes Request.submit h s = λ e. cc
