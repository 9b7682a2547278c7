-- ===== src/Casper/Block/Grouping.antt =====
-- casper/client.go: how `Block` and `BlockTransaction` find the transfers of a deploy.
-- go.mod names Go 1.15, in which a `for … range` loop has one variable for all its rounds: the
-- pointers `&trs` that the loop of `Block` stores all point to that one variable.
use rosetta_casper.Common.{
  List, [], ◌∷◌, ◌++◌, map, Option, none, some, Text, text_eq, if◌then◌else◌,
}
use rosetta_casper.Go.Dict.{Dict, lookup, insert}
use rosetta_casper.Casper.Sdk.{TransferResponse}

-- `&trs`.
pub data Pointer : Type 0 where
  to_trs : Pointer

-- The variables of the loop over the transfers.
pub record Loop : Type 0 where
  pub trs : TransferResponse
  pub groups : Dict (List Pointer)

-- A read through a pointer.
abbrev pub load : Loop → Pointer → TransferResponse
load l to_trs = l.trs

-- `if _, ok := m[k]; !ok { m[k] = []… }`
unfoldable pub ensure_key : Text → Dict (List Pointer) → Dict (List Pointer)
ensure_key k m = elim (lookup k m) [ none ↦ insert k [] m | some _ ↦ m ]

abbrev pub or_nil : Option (List Pointer) → List Pointer
or_nil none = []
or_nil (some ps) = ps

-- `m[k] = append(m[k], p)`
unfoldable pub append_at : Text → Pointer → Dict (List Pointer) → Dict (List Pointer)
append_at k p m = insert k (or_nil (lookup k m) ++ (p ∷ [])) m

-- One round.
abbrev pub next : Loop → TransferResponse → Loop
next l t = record {
  trs = t;
  groups = append_at t.deploy_hash to_trs (ensure_key t.deploy_hash l.groups);
}

unfoldable pub group_transfers : Loop → List TransferResponse → Loop
group_transfers l [] = l
group_transfers l (t ∷ ts) = group_transfers (next l t) ts

unfoldable pub add_deploys : List Text → Dict (List Pointer) → Dict (List Pointer)
add_deploys [] m = m
add_deploys (h ∷ hs) m = add_deploys hs (ensure_key h m)

abbrev pub zero_transfer : TransferResponse
zero_transfer = record {
  deploy_hash = [];
  source = [];
  target = [];
  amount = [];
  sender = [];
  receiver = [];
}

abbrev pub start : Loop
start = record { trs = zero_transfer; groups = [] }

-- A map of pointers, read through them after the loop.
unfoldable pub load_all : Loop → Dict (List Pointer) → Dict (List TransferResponse)
load_all l [] = []
load_all l ((k, ps) ∷ m) = (k, map (load l) ps) ∷ load_all l m

-- The transfers by deploy, as `Block` hands them to `CreateRosTransaction`.
unfoldable pub grouped : List TransferResponse → List Text → Dict (List TransferResponse)
grouped ts deploys = let l = group_transfers start ts in load_all l (add_deploys deploys l.groups)

-- The loop of `BlockTransaction` points to the elements of the slice themselves.
unfoldable pub transfers_of : Text → List TransferResponse → List TransferResponse
transfers_of h [] = []
transfers_of h (t ∷ ts) =
    let rest = transfers_of h ts in if text_eq t.deploy_hash h then t ∷ rest else rest
