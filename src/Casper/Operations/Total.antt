-- ===== src/Casper/Operations/Total.antt =====
-- casper/client.go: when the operations of a transaction are built.
use rosetta_casper.Common.{
  all_of, ℕ, suc, ◌≡◌, ◌≢◌, refl, ◌⊎◌, inl, inr, Bool, true, ◌&&◌, not, List, [], ◌∷◌, none, arith,
  Text, ◌==◌, Option-cases,
}
use rosetta_casper.Go.Outcome.Success.{Returns, >>=-Succeeds}
use rosetta_casper.Go.Strings.{count, last_index}
use rosetta_casper.Casper.Sdk.{TransferResponse, SuccessResult, ExecutionResult}
use rosetta_casper.Casper.Operations.{
  purse_without_index, fee_operations, transfer_operations, success_operations, result_operations,
}
use rosetta_casper.Casper.Operations.Purses.{last_index-eq-none_iff}

-- A purse has a dash.
abbrev pub has_dash : Text → Bool
has_dash s = not (count s b'-' == 0)

-- So have the purses of transfers.
abbrev pub have_dashes : List TransferResponse → Bool
have_dashes = all_of (λ t. has_dash t.source && has_dash t.target)

-- A result says that the execution failed or that it succeeded.
abbrev pub IsDecided : ExecutionResult → Type 0
IsDecided r = (r.failure ≢ none) ⊎ (r.success ≢ none)

purse_without_index-Returns : (s : Text) → has_dash s ≡ true → Returns (purse_without_index s)
unfolding purse_without_index
purse_without_index-Returns s h = elim (Option-cases (last_index s b'-')) [
  | inl missing ↦ ground (arith, last_index-eq-none_iff s b'-')
  | inr (i, found) ↦ rw (found, purse_without_index) (_, refl, tt)
]

fee_operations-Returns :
    (status fee s v : Text)
    → has_dash s ≡ true
    → has_dash v ≡ true
    → Returns (fee_operations status fee s v)
unfolding fee_operations
fee_operations-Returns status fee s v h k =
    >>=-Succeeds (purse_without_index s) _ (purse_without_index-Returns s h) λ a _.
      >>=-Succeeds (purse_without_index v) _ (purse_without_index-Returns v k) λ b _. (_, refl, tt)

transfer_operations-Returns :
    (i : ℕ) (ts : List TransferResponse)
    → have_dashes ts ≡ true
    → Returns (transfer_operations i ts)
unfolding transfer_operations
transfer_operations-Returns i [] h = (_, refl, tt)
transfer_operations-Returns i (t ∷ ts) h =
    >>=-Succeeds (purse_without_index t.source) _
      (purse_without_index-Returns t.source (ground arith))
      λ a _.
        >>=-Succeeds (purse_without_index t.target) _
          (purse_without_index-Returns t.target (ground arith))
          λ b _.
            >>=-Succeeds (transfer_operations (suc i) ts) _
              (transfer_operations-Returns (suc i) ts (ground arith)) λ more _. (_, refl, tt)

module _ (s v p : Text) (ts : List TransferResponse) (h : has_dash s ≡ true) (k : has_dash v ≡ true)
    (t : have_dashes ts ≡ true) where
  success_operations-Returns : (x : SuccessResult) → Returns (success_operations s v p ts x)
  unfolding success_operations
  success_operations-Returns x =
      >>=-Succeeds (fee_operations _ _ s v) _ (fee_operations-Returns _ _ s v h k) λ fees _.
        >>=-Succeeds (transfer_operations 0 ts) _ (transfer_operations-Returns 0 ts t)
          λ moves _. (_, refl, tt)

  -- The operations are built if the purses have a dash and the result says how the execution ended.
  pub result_operations-Returns :
      (r : ExecutionResult) → IsDecided r → Returns (result_operations s v p ts r)
  unfolding result_operations
  result_operations-Returns r d = elim (Option-cases r.failure) [
    | inr (f, failed) ↦ rw (failed, result_operations) (fee_operations-Returns _ _ s v h k)
    | inl fine ↦ elim (Option-cases r.success) [
      | inr (x, done) ↦ rw (fine, done, result_operations) (success_operations-Returns x)
      | inl missing ↦ elim d [ inl n ↦ absurd (n fine) | inr n ↦ absurd (n missing) ]
    ]
  ]
