-- ===== src/Services/Errors.antt =====
-- services/errors.go: the errors that the endpoints return, and `wrapErr`.
use rosetta_casper.Common.{
  ℕ, Bool, true, false, ◌||◌, List, [], ◌∷◌, Option, none, some, Text, lit, ◌==◌,
}
use rosetta_casper.Go.Outcome
use rosetta_casper.Go.Outcome.{Outcome, ok, err, panic, M}

-- `types.Error`. The details hold nothing but a text under "context", or nothing.
pub record Error : Type 0 where
  pub code : ℕ
  pub message : Text
  pub retriable : Bool
  pub context : Option Text

abbrev pub plain : ℕ → Text → Error
plain code message = record { code = code; message = message; retriable = false; context = none }

abbrev pub retriable : ℕ → Text → Error
retriable code message = record { code = code; message = message; retriable = true; context = none }

abbrev pub err_unimplemented : Error
err_unimplemented = plain 0 (lit "Endpoint not implemented")

abbrev pub err_unavailable_offline : Error
err_unavailable_offline = plain 1 (lit "Endpoint unavailable offline")

abbrev pub err_rpc_client : Error
err_rpc_client = plain 2 (lit "RPCClient error")

abbrev pub err_unable_to_decompress_pubkey : Error
err_unable_to_decompress_pubkey = plain 3 (lit "unable to decompress public key")

abbrev pub err_unclear_intent : Error
err_unclear_intent = plain 4 (lit "Unable to parse intent")

abbrev pub err_unable_to_parse_intermediate_result : Error
err_unable_to_parse_intermediate_result = plain 5 (lit "Unable to parse intermediate result")

abbrev pub err_signature_invalid : Error
err_signature_invalid = plain 6 (lit "Signature invalid")

abbrev pub err_broadcast_failed : Error
err_broadcast_failed = plain 7 (lit "Unable to broadcast transaction")

abbrev pub err_call_parameters_invalid : Error
err_call_parameters_invalid = plain 8 (lit "Call parameters invalid")

abbrev pub err_call_output_marshal : Error
err_call_output_marshal = plain 9 (lit "Call output marshal failed")

abbrev pub err_call_method_invalid : Error
err_call_method_invalid = plain 10 (lit "Call method invalid")

abbrev pub err_block_orphaned : Error
err_block_orphaned = retriable 11 (lit "Block orphaned")

abbrev pub err_invalid_address : Error
err_invalid_address = plain 12 (lit "Invalid address")

abbrev pub err_rpc_client_not_ready : Error
err_rpc_client_not_ready = retriable 13 (lit "RPCClient not ready")

abbrev pub err_rpc_client_block : Error
err_rpc_client_block = plain 14 (lit "RPCClient block error")

abbrev pub err_rpc_client_transaction : Error
err_rpc_client_transaction = plain 15 (lit "RPCClient Transaction error")

-- The list `Errors`, which /network/options publishes.
abbrev pub errors : List Error
errors =
    err_unimplemented ∷ err_unavailable_offline ∷ err_unable_to_decompress_pubkey
    ∷ err_unclear_intent ∷ err_unable_to_parse_intermediate_result ∷ err_signature_invalid
    ∷ err_broadcast_failed ∷ err_call_parameters_invalid ∷ err_call_output_marshal
    ∷ err_call_method_invalid ∷ err_block_orphaned ∷ err_invalid_address ∷ []

abbrev details : Option Outcome.Error → Option Text
details none = none
details (some e) = some (Outcome.message e)

unfoldable pub wrap_err : Error → Option Outcome.Error → Error
wrap_err r_err e = record r_err { context = details e }

-- What an endpoint returns: a response or an error.
pub data Answer (A : Type 0) : Type 0 where
  response : A → Answer A
  refused : Error → Answer A

abbrev pub answer : {A : Type 0} → (Outcome.Error → Error) → Outcome A → Outcome (Answer A)
answer f (ok a) = ok (response a)
answer f (err e) = ok (refused (f e))
answer f panic = panic

-- Whether the published list has an error of this code.
abbrev has_code : ℕ → List Error → Bool
has_code code [] = false
has_code code (e ∷ es) = e.code == code || has_code code es

abbrev pub is_declared : Error → Bool
is_declared e = has_code e.code errors
