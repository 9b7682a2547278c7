-- ===== src/Casper/Serving.antt =====
-- casper/client.go: how each method of the client ends if the node is healthy.
use rosetta_casper.Common.{
  ◌≡◌, ◌≢◌, ◌⊎◌, inl, inr, true, false, ◌||◌, List, [], ◌∷◌, Option, none, some, arith, Text, lit,
  text_eq, ℤ, Bool, Bool-cases, if◌then◌else◌, ◌≤◌, length,
}
use rosetta_casper.Go.Outcome.{Outcome, ok, panic, map_error, wrapping, fail, text}
use rosetta_casper.Go.Outcome.Success.{
  ends_ok, Finishes, Succeeds-Ends, continue-Ends, call-Ends, map_error-Ends, Ends-Finishes,
  Returns, Ends-ne-panic, ends_err,
}
use rosetta_casper.Go.Strings.{contains, slice}
use rosetta_casper.Go.Machine.{to_uint64}
use rosetta_casper.Go.Dict.{Dict}
use rosetta_casper.Rosetta.{PartialBlockIdentifier, BlockIdentifier, AccountIdentifier}
use rosetta_casper.Casper.Sdk.{
  Sdk, TransferResponse, BlockResponse, DeployResult, PeerInfo, StoredValue,
}
use rosetta_casper.Casper.Purse.{get_main_purse_from_public_key}
use rosetta_casper.Casper.Transaction.{first_result}
use rosetta_casper.Casper.Block.{block, status, block_transaction, get_block_response, transfers_of}
use rosetta_casper.Casper.Block.Balanced.{MeetsEntries}
use rosetta_casper.Casper.Block.Health.{
  IsHealthy, first_result-Ends, HasDashes, purse-Ends, create_ros_transaction-Finishes,
}
use rosetta_casper.Casper.Block.Total.{IsNamed, block-Finishes}
use rosetta_casper.Casper.Balance.{
  balance, balance_block, balance_uref, block_by_hash, block_by_index, purse_of_account_hash,
  purse_of_key,
}

-- The same with the calls for peers and balances.
pub record IsServing (may_fail : Bool) (sdk : Sdk) : Type 0 where
  pub healthy : IsHealthy may_fail sdk
  pub peers : (s : sdk.State) → Finishes may_fail (sdk.get_peers s).0
  pub balances :
      (root purse : Text) (s : sdk.State)
      → Finishes may_fail (sdk.get_account_balance root purse s).0

-- A text with the tag of a public key, or with any other where errors are admitted.
pub record HasTag (may_fail : Bool) (address : Text) : Type 0 where
  pub tag : Text
  pub starts : slice address 0 2 ≡ ok tag
  pub known : (may_fail || (text_eq tag (lit "01") || text_eq tag (lit "02"))) ≡ true

-- An account hash, a purse, or a public key.
abbrev pub IsAddress : Bool → Text → Type 0
IsAddress may_fail address =
    ((contains address (lit "account-hash") || contains address (lit "uref")) ≡ true)
    ⊎ HasTag may_fail address

transfers_of-HasDashes :
    (h : Text) (ts : List TransferResponse) → HasDashes ts → HasDashes (transfers_of h ts)
unfolding transfers_of
transfers_of-HasDashes h [] d = d
transfers_of-HasDashes h (t ∷ ts) d = ground (arith, transfers_of-HasDashes h ts)

module _ (sdk : Sdk) (order : Dict (List TransferResponse) → Dict (List TransferResponse))
    (account : AccountIdentifier) (id : Option PartialBlockIdentifier) (at : BlockIdentifier)
    (hash : Text) (s : sdk.State) where
  -- The four methods of the client, for one request of each: how they end, that they succeed, and
  -- that they do not panic.
  record AllFinish (may_fail : Bool) : Type 0 where
    status : Finishes may_fail (status sdk s).0
    balance : Finishes may_fail (balance sdk account id s).0
    block : Finishes may_fail (block sdk order id s).0
    block_transaction : Finishes may_fail (block_transaction sdk (some at) (some hash) s).0

  pub record AllReturn : Type 0 where
    pub status : Returns (status sdk s).0
    pub balance : Returns (balance sdk account id s).0
    pub block : Returns (block sdk order id s).0
    pub block_transaction : Returns (block_transaction sdk (some at) (some hash) s).0

  record NonePanics : Type 0 where
    status : (status sdk s).0 ≢ panic
    balance : (balance sdk account id s).0 ≢ panic
    block : (block sdk order id s).0 ≢ panic
    block_transaction : (block_transaction sdk (some at) (some hash) s).0 ≢ panic

length-slice : (a : Text) {tag : Text} → slice a 0 2 ≡ ok tag → 2 ≤ length a
unfolding slice
length-slice a e = ground arith

or-false : (b : Bool) → (b || (false || false)) ≡ true → b ≡ true
or-false b e = ground arith

false-ne-true : false ≡ true → ⊥
false-ne-true e = cc

module _ {may_fail : Bool} (sdk : Sdk) (serving : IsServing may_fail sdk) where
  pub status-Finishes : (s : sdk.State) → Finishes may_fail (status sdk s).0
  unfolding status
  status-Finishes s =
      let first : Outcome BlockResponse × sdk.State = sdk.get_latest_block s in
      continue-Ends first.0 _ first.1 (serving.healthy.latest_block s) λ b _.
        let second : Outcome (List PeerInfo) × sdk.State = sdk.get_peers first.1 in
        continue-Ends second.0 _ second.1 (serving.peers first.1) λ ps _. ends_ok tt

  pub block_transaction-Finishes :
      (id : BlockIdentifier) (hash : Text) (s : sdk.State)
      → Finishes may_fail (block_transaction sdk (some id) (some hash) s).0
  unfolding block_transaction get_block_response
  block_transaction-Finishes id hash s =
      let got : Outcome DeployResult × sdk.State = sdk.get_deploy hash s in
      call-Ends got _ _ ((serving.healthy.deploys hash s)) λ deploy readable.
        continue-Ends (first_result deploy.execution_results) _ got.1
          (first_result-Ends may_fail deploy.execution_results readable.result)
          λ result _.
            let whole : Outcome BlockResponse × sdk.State =
              sdk.get_block_by_hash result.block_hash got.1 in
            continue-Ends (map_error _ (map_error _ whole.0)) _ whole.1
              (map_error-Ends _
                (map_error-Ends _ (serving.healthy.block_by_hash result.block_hash got.1)))
              λ b proposer.
                let listed : Outcome (List TransferResponse) × sdk.State =
                  sdk.get_block_transfers_by_hash id.hash whole.1 in
                call-Ends listed _ _ ((serving.healthy.transfers_by_hash id.hash whole.1))
                  λ transfers dashes.
                    let owner : Outcome Text × sdk.State =
                      get_main_purse_from_public_key sdk b.body.proposer b.header.state_root_hash
                        listed.1 in
                    call-Ends owner _ _
                      ((purse-Ends sdk serving.healthy b.body.proposer _ listed.1 proposer))
                      λ purse dash.
                        create_ros_transaction-Finishes sdk serving.healthy deploy.deploy.hash _ b
                          purse owner.1 (transfers_of-HasDashes deploy.deploy.hash transfers dashes)
                          dash

  named-Finishes :
      (h : Option Text) (i : Option ℤ) (s : sdk.State)
      → Finishes may_fail (balance_block sdk (some (record { hash = h; index = i })) s).0
  unfolding balance_block block_by_hash block_by_index
  named-Finishes none none s = ends_ok tt
  named-Finishes none (some i) s =
      map_error-Ends _ (Ends-Finishes (serving.healthy.block_by_height (to_uint64 i) s))
  named-Finishes (some h) none s =
      let first : Outcome BlockResponse × sdk.State = sdk.get_block_by_hash h s in
      call-Ends first _ _ ((serving.healthy.block_by_hash h s)) λ b _. ends_ok tt
  named-Finishes (some h) (some i) s =
      let first : Outcome BlockResponse × sdk.State = sdk.get_block_by_hash h s in
      call-Ends first _ _ ((serving.healthy.block_by_hash h s)) λ b _.
        map_error-Ends _ (Ends-Finishes (serving.healthy.block_by_height (to_uint64 i) first.1))

  balance_block-Finishes :
      (id : Option PartialBlockIdentifier) (s : sdk.State)
      → Finishes may_fail (balance_block sdk id s).0
  unfolding balance_block
  balance_block-Finishes none s = map_error-Ends _ (Ends-Finishes (serving.healthy.latest_block s))
  balance_block-Finishes (some id) s = named-Finishes id.hash id.index s

  purse_of_account_hash-Finishes :
      (root address : Text) (s : sdk.State)
      → Finishes may_fail (purse_of_account_hash sdk root address s).0
  unfolding purse_of_account_hash
  purse_of_account_hash-Finishes root address s =
      let got : Outcome StoredValue × sdk.State = sdk.get_state_item root address [] s in
      call-Ends got _ _ ((serving.healthy.items root address [] s))
        λ item (x, e, d). rw e (ends_ok tt)

  tagged-Finishes :
      (root address : Text) (ed secp : Bool) (s : sdk.State)
      → 2 ≤ length address
      → (may_fail || (ed || secp)) ≡ true
      → Finishes may_fail
          ((if ed
              then wrapping
                  (lit ": can't get account purse 01")
                  (get_main_purse_from_public_key sdk address root)
              else if secp
              then wrapping
                  (lit ": can't get account purse 02")
                  (get_main_purse_from_public_key sdk address root)
              else fail (text (lit "Invalid input account")))
            s).0
  tagged-Finishes root address true secp s long known =
      map_error-Ends _ (Ends-Finishes (purse-Ends sdk serving.healthy address root s long))
  tagged-Finishes root address false true s long known =
      map_error-Ends _ (Ends-Finishes (purse-Ends sdk serving.healthy address root s long))
  tagged-Finishes root address false false s long known = ends_err (or-false may_fail known) _

  purse_of_key-Finishes :
      (root address : Text) (s : sdk.State)
      → HasTag may_fail address
      → Finishes may_fail (purse_of_key sdk root address s).0
  unfolding purse_of_key
  purse_of_key-Finishes root address s h =
      continue-Ends {P = λ t. (may_fail || (text_eq t (lit "01") || text_eq t (lit "02"))) ≡ true}
        (slice address 0 2) _ s (Succeeds-Ends (h.tag, h.starts, h.known))
        λ tag known.
          tagged-Finishes root address (text_eq tag (lit "01")) (text_eq tag (lit "02")) s
            (length-slice address h.starts) known

  balance_uref-Finishes :
      (root address : Text) (s : sdk.State)
      → IsAddress may_fail address
      → Finishes may_fail (balance_uref sdk root address s).0
  unfolding balance_uref
  balance_uref-Finishes root address s h =
      elim (Bool-cases (contains address (lit "account-hash"))) [
        | inl hashed ↦ rw hashed (purse_of_account_hash-Finishes root address s)
        | inr other ↦ elim (Bool-cases (contains address (lit "uref"))) [
          | inl uref ↦ rw (other, uref) (ends_ok tt)
          | inr other' ↦
              rw (other, other')
                (elim h [
                  | inl named ↦ absurd (false-ne-true (rw (other, other') at named))
                  | inr tag ↦ purse_of_key-Finishes root address s tag
                ])
        ]
      ]

  pub balance-Finishes :
      (account : AccountIdentifier) (id : Option PartialBlockIdentifier) (s : sdk.State)
      → IsAddress may_fail account.address
      → Finishes may_fail (balance sdk account id s).0
  unfolding balance
  balance-Finishes account id s h =
      let named : Outcome BlockResponse × sdk.State = balance_block sdk id s in
      continue-Ends named.0 _ named.1 (balance_block-Finishes id s) λ b _.
        let root = b.header.state_root_hash in
        let purse : Outcome Text × sdk.State = balance_uref sdk root account.address named.1 in
        continue-Ends purse.0 _ purse.1 (balance_uref-Finishes root account.address named.1 h)
          λ uref _.
            let held : Outcome ℤ × sdk.State = sdk.get_account_balance root uref purse.1 in
            call-Ends held _ _ ((serving.balances root uref purse.1)) λ amount _. ends_ok tt

  client-AllFinish :
      (order : Dict (List TransferResponse) → Dict (List TransferResponse))
      → MeetsEntries order
      → (account : AccountIdentifier) → IsAddress may_fail account.address
      → (id : Option PartialBlockIdentifier) → IsNamed id
      → (at : BlockIdentifier) (hash : Text) (s : sdk.State)
      → AllFinish sdk order account id at hash s may_fail
  client-AllFinish order meets account known id named at hash s = record {
    status = status-Finishes s;
    balance = balance-Finishes account id s known;
    block = block-Finishes sdk serving.healthy order meets id s named;
    block_transaction = block_transaction-Finishes at hash s;
  }

module _ (sdk : Sdk) (order : Dict (List TransferResponse) → Dict (List TransferResponse))
    (meets : MeetsEntries order) (account : AccountIdentifier) (id : Option PartialBlockIdentifier)
    (named : IsNamed id) (at : BlockIdentifier) (hash : Text) (s : sdk.State) where
  -- If the calls of the node may fail with an error at any time, and where they do not, public keys
  -- have a tag, purses have a dash, deploys have module bytes, and a first result of a deploy says how
  -- it ended, and Go's walk over a map meets entries of the map only, none of the four methods
  -- panics, for an account that is an account hash, a purse or any text of two bytes or more, for an
  -- identifier that is left out or names a hash, an index or both, and for a block identifier and a
  -- transaction hash that are given.
  client-NonePanics :
      IsServing true sdk
      → IsAddress true account.address
      → NonePanics sdk order account id at hash s
  client-NonePanics serving known =
      let ends = client-AllFinish sdk serving order meets account known id named at hash s in
      record {
        status = Ends-ne-panic ends.status;
        balance = Ends-ne-panic ends.balance;
        block = Ends-ne-panic ends.block;
        block_transaction = Ends-ne-panic ends.block_transaction;
      }
