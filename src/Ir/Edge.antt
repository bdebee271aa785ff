-- ===== src/Ir/Edge.antt =====
-- crates/standardoc-ir/src/edge.rs: edges as the extractors emit them.
use standardoc.Base.{String, ℕ, List, Option, none}
use standardoc.Ir.Kinds.{EdgeKind, EdgeConfidence}

pub record Site : Type 0 where
  pub file : String
  pub line : ℕ
  pub col : ℕ

pub data ResolvedOrUnresolved : Type 0 where
  resolved : String → ResolvedOrUnresolved
  unresolved : String → ResolvedOrUnresolved
  unresolved_bridge : String → String → ResolvedOrUnresolved

pub record RawEdge : Type 0 where
  pub from_fqdn : String
  pub kind : EdgeKind
  pub to : ResolvedOrUnresolved
  pub sites : List Site
  pub attributes : List String
  pub confidence : EdgeConfidence
  pub receiver_type : Option String

unfoldable pub default_confidence : ResolvedOrUnresolved → EdgeConfidence
default_confidence (ResolvedOrUnresolved.resolved _) = EdgeConfidence.extracted
default_confidence (ResolvedOrUnresolved.unresolved_bridge _ _) = EdgeConfidence.inferred
default_confidence (ResolvedOrUnresolved.unresolved _) = EdgeConfidence.ambiguous

unfoldable pub with_default_confidence :
    String → EdgeKind → ResolvedOrUnresolved → List Site → List String → RawEdge
unfolding default_confidence
with_default_confidence from_fqdn kind to sites attributes = record {
  from_fqdn = from_fqdn;
  kind = kind;
  to = to;
  sites = sites;
  attributes = attributes;
  confidence = default_confidence to;
  receiver_type = none;
}
