-- ===== src/Storage/CrossWorkspace.antt =====
-- crates/standardoc-core/src/storage/cross_workspace.rs. `decode` is bincode on the payload of a module
-- lookup, none where it fails.
use standardoc.Base.{
  String, ℕ, Bool, ◌&&◌, not, Option, none, some, List, [], ◌∷◌, find, keep_if, eqb, ◌==◌,
}
use standardoc.Base.Assoc
use standardoc.Base.Text.{append}
use standardoc.Ir.Lookup.{ModuleLookup, IdentResolution, BindingSource, root_scope}
use standardoc.Storage.Error.{Result, ok, err, StorageError, ◌>>=◌}
use standardoc.Storage.Database.{Database, ModuleLookupRow}
use standardoc.Pipeline.Writer.{primary_workspace_id}

pub record CrossWorkspaceResolution : Type 0 where
  pub workspace_id : String
  pub resolved_fqdn : String
  pub binding_source : BindingSource

abbrev pub fqdn_or : String → String → Option String → String
fqdn_or origin_module origin_symbol none = append origin_module (append "::" origin_symbol)
fqdn_or origin_module origin_symbol (some fqdn) = fqdn

-- The first binding of the root scope.
unfoldable pub root_resolution :
    ModuleLookup → String → String → String → Option CrossWorkspaceResolution
unfolding append Assoc.get
root_resolution lookup origin_module origin_symbol workspace_id =
    elim (Assoc.get lookup.bindings origin_symbol) [
      | none ↦ none
      | some entries ↦ elim (find (λ (b : IdentResolution). eqb b.scope_idx root_scope) entries) [
        | none ↦ none
        | some b ↦ some (record {
          workspace_id = workspace_id;
          resolved_fqdn = fqdn_or origin_module origin_symbol b.resolved_fqdn;
          binding_source = b.source;
        })
      ]
    ]

-- `WHERE module_fqdn = ?1 AND workspace_id != ?2`
abbrev pub is_peer_row : String → ModuleLookupRow → Bool
is_peer_row origin_module row =
    row.module_fqdn == origin_module && not (row.workspace_id == primary_workspace_id)

abbrev pub is_primary_row : String → ModuleLookupRow → Bool
is_primary_row origin_module row =
    row.module_fqdn == origin_module && row.workspace_id == primary_workspace_id

unfoldable pub peer_workspace_for_module : Database → String → Option String
peer_workspace_for_module db origin_module =
    elim (find (is_peer_row origin_module) db.module_lookups) [
      | none ↦ none
      | some row ↦ some row.workspace_id
    ]

module _ (decode : List ℕ → Option ModuleLookup) where
  unfoldable pub decode_module_lookup : List ℕ → Result ModuleLookup
  decode_module_lookup bytes = elim (decode bytes) [
    | some lookup ↦ ok lookup
    | none ↦ err (StorageError.invalid_stored_data "ModuleLookup decode (cross-workspace)" "")
  ]

  unfoldable pub root_resolution_from_payload :
      List ℕ → String → String → String → Result (Option CrossWorkspaceResolution)
  unfolding decode_module_lookup root_resolution
  root_resolution_from_payload payload origin_module origin_symbol workspace_id = do
    lookup ← decode_module_lookup payload
    ok (root_resolution lookup origin_module origin_symbol workspace_id)

  -- The loop over the rows of the peers.
  unfoldable pub first_resolution :
      List ModuleLookupRow → String → String → Result (Option CrossWorkspaceResolution)
  unfolding root_resolution_from_payload
  first_resolution [] origin_module origin_symbol = ok none
  first_resolution (row ∷ rows) origin_module origin_symbol = do
    found ← root_resolution_from_payload row.payload origin_module origin_symbol row.workspace_id
    elim found [
      | some resolution ↦ ok (some resolution)
      | none ↦ first_resolution rows origin_module origin_symbol
    ]

  unfoldable pub resolve_cross_workspace_import :
      Database → String → String → Result (Option CrossWorkspaceResolution)
  unfolding first_resolution
  resolve_cross_workspace_import db origin_module origin_symbol =
      first_resolution (keep_if (is_peer_row origin_module) db.module_lookups) origin_module
        origin_symbol

  unfoldable pub resolve_intra_workspace_import :
      Database → String → String → Result (Option CrossWorkspaceResolution)
  unfolding root_resolution_from_payload
  resolve_intra_workspace_import db origin_module origin_symbol =
      elim (find (is_primary_row origin_module) db.module_lookups) [
        | none ↦ ok none
        | some row ↦
            root_resolution_from_payload row.payload origin_module origin_symbol
              primary_workspace_id
      ]

  unfoldable pub all_resolutions :
      List ModuleLookupRow → String → String → Result (List CrossWorkspaceResolution)
  unfolding root_resolution_from_payload
  all_resolutions [] origin_module origin_symbol = ok []
  all_resolutions (row ∷ rows) origin_module origin_symbol = do
    found ← root_resolution_from_payload row.payload origin_module origin_symbol row.workspace_id
    rest ← all_resolutions rows origin_module origin_symbol
    ok (elim found [ some resolution ↦ resolution ∷ rest | none ↦ rest ])

  unfoldable pub list_cross_workspace_providers :
      Database → String → String → Result (List CrossWorkspaceResolution)
  unfolding all_resolutions
  list_cross_workspace_providers db origin_module origin_symbol =
      all_resolutions (keep_if (is_peer_row origin_module) db.module_lookups) origin_module
        origin_symbol
