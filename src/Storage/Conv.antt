-- ===== src/Storage/Conv.antt =====
-- crates/standardoc-core/src/storage/conv.rs: how the enums are written in SQL columns. The JSON of
-- signatures goes through serde, and is not modelled.
pub mod RoundTrip
pub mod DeclKinds
use standardoc.Base.{String, Option, none, some, List, [], ◌∷◌}
use standardoc.Base.Text.{append, strip_prefix, split_once, match_text}
use standardoc.Ir.Kinds.{
  Kind, EdgeKind, EdgeConfidence, Visibility, SourceOrigin, Language, DeclKind, EntryPointKind,
}
use standardoc.Storage.Error.{Result, ok, err, StorageError, ◌>>=◌}

-- The last arm of each reader: `other => Err(InvalidStoredData { … })`.
abbrev pub or_invalid : {A : Type 0} → String → String → Option A → Result A
or_invalid what other none = err (StorageError.invalid_stored_data what other)
or_invalid what other (some a) = ok a

unfoldable pub language_to_sql_text : Language → String
language_to_sql_text Language.rust = "rust"
language_to_sql_text Language.type_script = "typescript"
language_to_sql_text Language.java_script = "javascript"
language_to_sql_text Language.lua = "lua"
language_to_sql_text Language.vue = "vue"
language_to_sql_text Language.svelte = "svelte"
language_to_sql_text Language.c = "c"

abbrev pub language_arms : List (String × Language)
language_arms =
    ("rust", Language.rust)
    ∷ ("typescript", Language.type_script)
    ∷ ("javascript", Language.java_script)
    ∷ ("lua", Language.lua)
    ∷ ("vue", Language.vue)
    ∷ ("svelte", Language.svelte)
    ∷ ("c", Language.c)
    ∷ []

unfoldable pub language_from_sql_text : String → Result Language
unfolding match_text
language_from_sql_text s = or_invalid "unknown language" s (match_text language_arms s)

unfoldable pub kind_to_sql_text : Kind → String
kind_to_sql_text Kind.callable = "callable"
kind_to_sql_text Kind.type = "type"
kind_to_sql_text Kind.value = "value"
kind_to_sql_text Kind.module_kind = "module"
kind_to_sql_text Kind.macro = "macro"

abbrev pub kind_arms : List (String × Kind)
kind_arms =
    ("callable", Kind.callable)
    ∷ ("type", Kind.type)
    ∷ ("value", Kind.value)
    ∷ ("module", Kind.module_kind)
    ∷ ("macro", Kind.macro)
    ∷ []

unfoldable pub kind_from_sql_text : String → Result Kind
unfolding match_text
kind_from_sql_text s = or_invalid "unknown kind" s (match_text kind_arms s)

unfoldable pub entry_point_to_sql_text : EntryPointKind → String
entry_point_to_sql_text EntryPointKind.binary_main = "binary_main"
entry_point_to_sql_text EntryPointKind.public_api = "public_api"
entry_point_to_sql_text EntryPointKind.ffi_export = "ffi_export"

abbrev pub entry_point_arms : List (String × EntryPointKind)
entry_point_arms =
    ("binary_main", EntryPointKind.binary_main)
    ∷ ("public_api", EntryPointKind.public_api)
    ∷ ("ffi_export", EntryPointKind.ffi_export)
    ∷ []

unfoldable pub entry_point_from_sql_text : String → Result EntryPointKind
unfolding match_text
entry_point_from_sql_text s = or_invalid "unknown entry_point" s (match_text entry_point_arms s)

unfoldable pub visibility_to_sql_text : Visibility → String
visibility_to_sql_text Visibility.public = "public"
visibility_to_sql_text Visibility.private = "private"
visibility_to_sql_text Visibility.crate = "crate"
visibility_to_sql_text Visibility.protected = "protected"

abbrev pub visibility_arms : List (String × Visibility)
visibility_arms =
    ("public", Visibility.public)
    ∷ ("private", Visibility.private)
    ∷ ("crate", Visibility.crate)
    ∷ ("protected", Visibility.protected)
    ∷ []

unfoldable pub visibility_from_sql_text : String → Result Visibility
unfolding match_text
visibility_from_sql_text s = or_invalid "unknown visibility" s (match_text visibility_arms s)

unfoldable pub source_origin_to_sql_text : SourceOrigin → String
source_origin_to_sql_text SourceOrigin.workspace = "workspace"
source_origin_to_sql_text SourceOrigin.cargo_registry = "cargo_registry"
source_origin_to_sql_text SourceOrigin.node_modules_dts = "node_modules_dts"
source_origin_to_sql_text SourceOrigin.manual_external = "manual_external"

abbrev pub source_origin_arms : List (String × SourceOrigin)
source_origin_arms =
    ("workspace", SourceOrigin.workspace)
    ∷ ("cargo_registry", SourceOrigin.cargo_registry)
    ∷ ("node_modules_dts", SourceOrigin.node_modules_dts)
    ∷ ("manual_external", SourceOrigin.manual_external)
    ∷ []

unfoldable pub source_origin_from_sql_text : String → Result SourceOrigin
unfolding match_text
source_origin_from_sql_text s =
    or_invalid "unknown source_origin" s (match_text source_origin_arms s)

unfoldable pub edge_kind_to_sql_text : EdgeKind → String
edge_kind_to_sql_text EdgeKind.calls = "CALLS"
edge_kind_to_sql_text EdgeKind.imports = "IMPORTS"
edge_kind_to_sql_text EdgeKind.extends = "EXTENDS"
edge_kind_to_sql_text EdgeKind.implements = "IMPLEMENTS"
edge_kind_to_sql_text EdgeKind.references = "REFERENCES"
edge_kind_to_sql_text EdgeKind.uses_type = "USES_TYPE"

abbrev pub edge_kind_arms : List (String × EdgeKind)
edge_kind_arms =
    ("CALLS", EdgeKind.calls)
    ∷ ("IMPORTS", EdgeKind.imports)
    ∷ ("EXTENDS", EdgeKind.extends)
    ∷ ("IMPLEMENTS", EdgeKind.implements)
    ∷ ("REFERENCES", EdgeKind.references)
    ∷ ("USES_TYPE", EdgeKind.uses_type)
    ∷ []

unfoldable pub edge_kind_from_sql_text : String → Result EdgeKind
unfolding match_text
edge_kind_from_sql_text s = or_invalid "unknown edge kind" s (match_text edge_kind_arms s)

unfoldable pub edge_confidence_to_sql_text : EdgeConfidence → String
edge_confidence_to_sql_text EdgeConfidence.extracted = "extracted"
edge_confidence_to_sql_text EdgeConfidence.inferred = "inferred"
edge_confidence_to_sql_text EdgeConfidence.ambiguous = "ambiguous"

abbrev pub edge_confidence_arms : List (String × EdgeConfidence)
edge_confidence_arms =
    ("extracted", EdgeConfidence.extracted)
    ∷ ("inferred", EdgeConfidence.inferred)
    ∷ ("ambiguous", EdgeConfidence.ambiguous)
    ∷ []

unfoldable pub edge_confidence_from_sql_text : String → Result EdgeConfidence
unfolding match_text
edge_confidence_from_sql_text s =
    or_invalid "unknown edge confidence" s (match_text edge_confidence_arms s)

unfoldable pub decl_kind_to_sql_text : DeclKind → String
unfolding append language_to_sql_text
decl_kind_to_sql_text DeclKind.module_decl = "module"
decl_kind_to_sql_text DeclKind.namespace = "namespace"
decl_kind_to_sql_text DeclKind.crate = "crate"
decl_kind_to_sql_text DeclKind.struct = "struct"
decl_kind_to_sql_text DeclKind.enum = "enum"
decl_kind_to_sql_text DeclKind.union = "union"
decl_kind_to_sql_text DeclKind.class = "class"
decl_kind_to_sql_text DeclKind.interface = "interface"
decl_kind_to_sql_text DeclKind.type_alias = "type_alias"
decl_kind_to_sql_text DeclKind.function = "function"
decl_kind_to_sql_text DeclKind.method = "method"
decl_kind_to_sql_text DeclKind.constructor = "constructor"
decl_kind_to_sql_text DeclKind.getter = "getter"
decl_kind_to_sql_text DeclKind.setter = "setter"
decl_kind_to_sql_text DeclKind.const = "const"
decl_kind_to_sql_text DeclKind.static = "static"
decl_kind_to_sql_text DeclKind.var = "var"
decl_kind_to_sql_text DeclKind.field = "field"
decl_kind_to_sql_text DeclKind.enum_variant = "enum_variant"
decl_kind_to_sql_text DeclKind.declarative_macro = "declarative_macro"
decl_kind_to_sql_text DeclKind.proc_macro = "proc_macro"
decl_kind_to_sql_text DeclKind.decorator = "decorator"
decl_kind_to_sql_text (DeclKind.custom lang tag) =
    append "custom:" (append (language_to_sql_text lang) (append ":" tag))

abbrev pub decl_kind_arms : List (String × DeclKind)
decl_kind_arms =
    ("module", DeclKind.module_decl)
    ∷ ("namespace", DeclKind.namespace)
    ∷ ("crate", DeclKind.crate)
    ∷ ("struct", DeclKind.struct)
    ∷ ("enum", DeclKind.enum)
    ∷ ("union", DeclKind.union)
    ∷ ("class", DeclKind.class)
    ∷ ("interface", DeclKind.interface)
    ∷ ("type_alias", DeclKind.type_alias)
    ∷ ("function", DeclKind.function)
    ∷ ("method", DeclKind.method)
    ∷ ("constructor", DeclKind.constructor)
    ∷ ("getter", DeclKind.getter)
    ∷ ("setter", DeclKind.setter)
    ∷ ("const", DeclKind.const)
    ∷ ("static", DeclKind.static)
    ∷ ("var", DeclKind.var)
    ∷ ("field", DeclKind.field)
    ∷ ("enum_variant", DeclKind.enum_variant)
    ∷ ("declarative_macro", DeclKind.declarative_macro)
    ∷ ("proc_macro", DeclKind.proc_macro)
    ∷ ("decorator", DeclKind.decorator)
    ∷ []

-- `rest.split_once(':')`, behind the prefix "custom:" of `other`
unfoldable pub custom_from_sql_text : String → String → Result DeclKind
unfolding split_once language_from_sql_text
custom_from_sql_text other rest = elim (split_once ":" rest) [
  | none ↦ err (StorageError.invalid_stored_data "custom decl_kind missing tag" other)
  | some (lang_s, tag) ↦ do lang ← language_from_sql_text lang_s; ok (DeclKind.custom lang tag)
]

unfoldable pub decl_kind_from_sql_text : String → Result DeclKind
unfolding match_text strip_prefix custom_from_sql_text
decl_kind_from_sql_text s = elim (match_text decl_kind_arms s) [
  | some d ↦ ok d
  | none ↦ elim (strip_prefix "custom:" s) [
    | some rest ↦ custom_from_sql_text s rest
    | none ↦ err (StorageError.invalid_stored_data "unknown decl_kind" s)
  ]
]
