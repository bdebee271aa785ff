-- ===== src/Ir/CrossWorkspace.antt =====
-- crates/standardoc-ir/src/cross_workspace.rs: the answers of a resolver of other workspaces' names.
use standardoc.Base.{String, Bool, true, false}

pub data CrossWorkspaceLookup : Type 0 where
  hit : String → String → CrossWorkspaceLookup
  known_peer_missing_symbol : String → CrossWorkspaceLookup
  unknown : CrossWorkspaceLookup

abbrev pub bridge_slug : String
bridge_slug = "custom:cross-workspace"

unfoldable pub is_hit : CrossWorkspaceLookup → Bool
is_hit (CrossWorkspaceLookup.hit _ _) = true
is_hit (CrossWorkspaceLookup.known_peer_missing_symbol _) = false
is_hit CrossWorkspaceLookup.unknown = false
