-- ===== src/Ir/Ffi.antt =====
-- crates/standardoc-ir/src/ffi.rs: the two sides of a foreign-function binding and their slugs.
pub mod Slugs
use standardoc.Base.{String, Option, none, some, List, [], ◌∷◌}
use standardoc.Base.Text.{match_text}

pub data FfiAbi : Type 0 where
  c system stdcall lua jni python_c_api : FfiAbi
  other : String → FfiAbi

unfoldable pub abi_as_slug : FfiAbi → String
abi_as_slug FfiAbi.c = "c"
abi_as_slug FfiAbi.system = "system"
abi_as_slug FfiAbi.stdcall = "stdcall"
abi_as_slug FfiAbi.lua = "lua"
abi_as_slug FfiAbi.jni = "jni"
abi_as_slug FfiAbi.python_c_api = "python_c_api"
abi_as_slug (FfiAbi.other s) = s

abbrev pub abi_arms : List (String × FfiAbi)
abi_arms =
    ("c", FfiAbi.c)
    ∷ ("system", FfiAbi.system)
    ∷ ("stdcall", FfiAbi.stdcall)
    ∷ ("lua", FfiAbi.lua)
    ∷ ("jni", FfiAbi.jni)
    ∷ ("python_c_api", FfiAbi.python_c_api)
    ∷ []

unfoldable pub abi_from_slug : String → FfiAbi
unfolding match_text
abi_from_slug s = elim (match_text abi_arms s) [ some abi ↦ abi | none ↦ FfiAbi.other s ]

pub data FfiDirection : Type 0 where
  export_side import_side : FfiDirection

unfoldable pub direction_as_slug : FfiDirection → String
direction_as_slug FfiDirection.export_side = "export"
direction_as_slug FfiDirection.import_side = "import"

abbrev pub direction_arms : List (String × FfiDirection)
direction_arms = ("export", FfiDirection.export_side) ∷ ("import", FfiDirection.import_side) ∷ []

unfoldable pub direction_from_slug : String → Option FfiDirection
unfolding match_text
direction_from_slug s = match_text direction_arms s
