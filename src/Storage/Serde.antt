-- ===== src/Storage/Serde.antt =====
-- The encoders of other crates that the storage layer calls: serde_json for the JSON columns, and
-- bincode for the payload of a module lookup. Nothing but their results is used.
use standardoc.Base.{String, ℕ, List}
use standardoc.Ir.Symbol.{Signature, RawCallArg}
use standardoc.Ir.Lookup.{ModuleLookup}
use standardoc.Storage.Error.{Result}

pub record Serde : Type 0 where
  pub signature_to_string : Signature → Result String
  pub strings_to_string : List String → String
  pub call_args_to_string : List RawCallArg → String
  pub encode_to_vec : ModuleLookup → Result (List ℕ)
