-- ===== src/Services/JsonMap.antt =====
-- services/utils.go: the conversions between a value and a map of JSON fields.
use rosetta_casper.Common.{◌≡◌, Text}
use rosetta_casper.Go.Outcome.{Outcome, ok}
use rosetta_casper.Go.Outcome.Chain.{◌>>=◌, >>=-eq-ok}
use rosetta_casper.Go.Dict.{Dict}
use rosetta_casper.Rosetta.{Value}

-- encoding/json, at the type `A` of a value and at maps of fields.
record Codec (A : Type 0) : Type 0 where
  pub marshal : A → Outcome Text
  pub unmarshal : Text → Outcome A
  pub marshal_map : Dict Value → Outcome Text
  pub unmarshal_map : Text → Outcome (Dict Value)

module _ {A : Type 0} (json : Codec A) where
  unfoldable marshal_json_map : A → Outcome (Dict Value)
  marshal_json_map i = do b ← json.marshal i; json.unmarshal_map b

  unfoldable unmarshal_json_map : Dict Value → Outcome A
  unmarshal_json_map m = do b ← json.marshal_map m; json.unmarshal b

  -- What encoding/json promises for a type without its own decoder: a value is decoded from its
  -- encoding, and fields that are encoded again are decoded to the same value as before.
  record IsLossless : Type 0 where
    pub decodes : (i : A) (b : Text) → json.marshal i ≡ ok b → json.unmarshal b ≡ ok i
    pub encodes :
        (b : Text) (m : Dict Value)
        → json.unmarshal_map b ≡ ok m
        → (b' : Text) × (json.marshal_map m ≡ ok b') × (json.unmarshal b' ≡ json.unmarshal b)

  -- If encoding/json loses nothing of a value, and nothing of fields that it encodes again, a value that is
  -- turned into a map of fields is read back from it.
  unmarshal_json_map-marshal_json_map :
      IsLossless
      → (i : A) {m : Dict Value} → marshal_json_map i ≡ ok m
      → unmarshal_json_map m ≡ ok i
  unfolding marshal_json_map unmarshal_json_map
  unmarshal_json_map-marshal_json_map lossless i e =
      let (b, encoded, e1) = >>=-eq-ok (json.marshal i) _ e in
      let (b', again, same) = lossless.encodes b _ e1 in
      rw (again, same) (lossless.decodes i b encoded)
