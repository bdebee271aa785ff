-- ===== src/Ir/Lookup.antt =====
-- crates/standardoc-ir/src/lookup.rs: the identifier table of a module, with its scopes.
pub mod Scopes
pub mod Resolve
mod Examples
use standardoc.Base.{
  ℕ, zero, suc, ◌+◌, ◌-◌, ◌^◌, ◌%◌, String, Bool, ◌&&◌, Option, none, some, List, [], ◌∷◌, ◌++◌,
  length, get_elem?, find_last, eqb, if◌then◌else◌,
}
use standardoc.Base.Assoc
use standardoc.Ir.Kinds.{Kind, Language}

pub data AliasMutability : Type 0 where
  const mutable : AliasMutability

pub data Substrate : Type 0 where
  native : Language → Substrate
  ust : String → Substrate
  wasm : Substrate
  ffi : String → Substrate
  browser node database message_bus kernel hypervisor : Substrate
  custom : String → Substrate

pub data LocalDeclKind : Type 0 where
  function class interface enum struct trait impl type_alias const var macro : LocalDeclKind
  let_decl module_decl namespace : LocalDeclKind
  custom : Language → String → LocalDeclKind

pub data ScopeKind : Type 0 where
  module_scope function block type_container loop catch macro : ScopeKind
  custom : Language → String → ScopeKind

pub data BuiltinTag : Type 0 where
  net decode encode console file_system process math time memory : BuiltinTag
  reflection async iter format : BuiltinTag
  custom : String → BuiltinTag

pub data BindingSource : Type 0 where
  import_binding : String → Option String → Bool → Bool → BindingSource
  local_decl : LocalDeclKind → BindingSource
  type_param param : BindingSource
  builtin : BuiltinTag → String → BindingSource
  bridge : Substrate → Substrate → String → BindingSource
  unresolved : BindingSource

pub record ScopeRange : Type 0 where
  pub start_line : ℕ
  pub end_line : ℕ
  pub parent : Option ℕ
  pub kind : ScopeKind

pub record IdentResolution : Type 0 where
  pub name : String
  pub source : BindingSource
  pub resolved_fqdn : Option String
  pub aliases_to : Option String
  pub mutability : Option AliasMutability
  pub scope_idx : ℕ
  pub attributes : List String
  pub ir_kind : Option Kind

pub record ImportRecord : Type 0 where
  pub local_name : String
  pub origin_module : String
  pub origin_symbol : Option String
  pub is_type_only : Bool
  pub is_re_export : Bool

pub record ModuleLookup : Type 0 where
  pub module_fqdn : String
  pub language : Language
  pub scopes : List ScopeRange
  pub bindings : List (String × List IdentResolution)
  pub imports : List ImportRecord
  pub built_at_epoch_ms : ℕ
  pub span_to_scope : List (ℕ × ℕ × ℕ)

abbrev pub u32_modulus : ℕ
u32_modulus = 2 ^ 32

abbrev pub root_scope : ℕ
root_scope = 0

-- The clock of `new` is an argument.
unfoldable pub new : ℕ → String → Language → ModuleLookup
new epoch_ms module_fqdn language = record {
  module_fqdn = module_fqdn;
  language = language;
  scopes =
      record {
        start_line = 1;
        end_line = u32_modulus - 1;
        parent = none;
        kind = ScopeKind.module_scope;
      }
      ∷ [];
  bindings = [];
  imports = [];
  built_at_epoch_ms = epoch_ms;
  span_to_scope = [];
}

-- The index is the length, cast to 32 bits.
unfoldable pub push_scope : ModuleLookup → ScopeRange → ModuleLookup × ℕ
push_scope l range = (record l { scopes = l.scopes ++ range ∷ [] }, length l.scopes % u32_modulus)

-- `span_to_scope.insert((byte_lo, byte_hi), idx)`
unfoldable pub insert_span : List (ℕ × ℕ × ℕ) → ℕ → ℕ → ℕ → List (ℕ × ℕ × ℕ)
insert_span [] lo hi idx = (lo, hi, idx) ∷ []
insert_span ((a, b, i) ∷ m) lo hi idx =
    let rest = insert_span m lo hi idx in
    if eqb a lo && eqb b hi then (lo, hi, idx) ∷ m else (a, b, i) ∷ rest

unfoldable pub get_span : List (ℕ × ℕ × ℕ) → ℕ → ℕ → Option ℕ
get_span [] lo hi = none
get_span ((a, b, i) ∷ m) lo hi =
    let rest = get_span m lo hi in if eqb a lo && eqb b hi then some i else rest

unfoldable pub push_scope_with_span : ModuleLookup → ScopeRange → ℕ → ℕ → ModuleLookup × ℕ
unfolding push_scope
push_scope_with_span l range lo hi =
    let (l', idx) = push_scope l range in
    (record l' { span_to_scope = insert_span l'.span_to_scope lo hi idx }, idx)

unfoldable pub scope_idx_for_span : ModuleLookup → ℕ → ℕ → Option ℕ
scope_idx_for_span l lo hi = get_span l.span_to_scope lo hi

-- `entry(name).or_default()`
abbrev pub entry_or_default : Option (List IdentResolution) → List IdentResolution
entry_or_default none = []
entry_or_default (some rs) = rs

unfoldable pub push_binding : ModuleLookup → IdentResolution → ModuleLookup
push_binding l r = record l {
  bindings =
      Assoc.insert l.bindings r.name (entry_or_default (Assoc.get l.bindings r.name) ++ r ∷ []);
}

unfoldable pub push_import : ModuleLookup → ImportRecord → ModuleLookup
push_import l r = record l { imports = l.imports ++ r ∷ [] }

-- `self.scopes.get(scope_idx).and_then(|s| s.parent)`
abbrev pub parent_of : List ScopeRange → ℕ → Option ℕ
parent_of scopes idx = elim (get_elem? scopes idx) [ none ↦ none | some s ↦ s.parent ]

abbrev pub in_scope : ℕ → IdentResolution → Bool
in_scope idx r = eqb r.scope_idx idx

-- The loop of `resolve_local`. `none` means that the fuel ran out.
unfoldable pub resolve_from :
    ℕ → List ScopeRange → List IdentResolution → ℕ → Option (Option IdentResolution)
resolve_from zero scopes entries idx = none
resolve_from (suc fuel) scopes entries idx = elim (find_last (in_scope idx) entries) [
  | some found ↦ some (some found)
  | none ↦ elim (parent_of scopes idx) [
    | some parent ↦ resolve_from fuel scopes entries parent
    | none ↦ some none
  ]
]

-- The fuel is one more than the number of scopes.
unfoldable pub resolve_local : ModuleLookup → String → ℕ → Option (Option IdentResolution)
unfolding resolve_from
resolve_local l name idx = elim (Assoc.get l.bindings name) [
  | none ↦ some none
  | some entries ↦ resolve_from (suc (length l.scopes)) l.scopes entries idx
]
