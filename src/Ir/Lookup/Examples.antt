-- ===== src/Ir/Lookup/Examples.antt =====
-- The table of one module with a function scope, and the theorems of the lookup at it.
use standardoc.Base.{
  get_elem?, eqb, ◌&&◌, if◌then◌else◌, ℕ, ◌<◌, ◌≡◌, refl, String, Option, none, some, [], In,
  length, arith, false, ◌==◌,
}
use standardoc.Base.Assoc
use standardoc.Ir.Kinds.{Language}
use standardoc.Ir.Lookup.{
  ScopeKind, ScopeRange, BindingSource, IdentResolution, ModuleLookup, new, push_scope,
  push_binding, push_scope_with_span, resolve_local,
}
use standardoc.Ir.Lookup.Scopes.{
  scope_of_span, IsWellFormed, new-IsWellFormed, push_scope-IsWellFormed,
  push_scope_with_span-IsWellFormed, scope_idx_for_span-push_scope_with_span,
}
use standardoc.Ir.Lookup.Resolve.{
  Encloses, entries_of, resolve_local-lexical, resolve_local-push_binding,
}

abbrev body_range : ScopeRange
body_range = record { start_line = 3; end_line = 9; parent = some 0; kind = ScopeKind.function }

abbrev binding : String → ℕ → IdentResolution
binding name idx = record {
  name = name;
  source = BindingSource.param;
  resolved_fqdn = none;
  aliases_to = none;
  mutability = none;
  scope_idx = idx;
  attributes = [];
  ir_kind = none;
}

abbrev start : ModuleLookup
start = new 7 "crate::m" Language.rust

-- `x` at the root and in the function, `y` at the root only.
abbrev sample : ModuleLookup
sample =
    push_binding
      (push_binding (push_binding (push_scope start body_range).0 (binding "x" 0)) (binding "x" 1))
      (binding "y" 0)

shadowed : resolve_local sample "x" 1 ≡ some (some (binding "x" 1))
unfolding resolve_local push_binding push_scope new Assoc.get Assoc.insert
shadowed = refl

from_the_root : resolve_local sample "y" 1 ≡ some (some (binding "y" 0))
unfolding resolve_local push_binding push_scope new Assoc.get Assoc.insert
from_the_root = refl

unknown : resolve_local sample "z" 1 ≡ some none
unfolding resolve_local push_binding push_scope new Assoc.get Assoc.insert
unknown = refl

parent_inside : (p : ℕ) → body_range.parent ≡ some p → p < length start.scopes
unfolding new
parent_inside p h = ground arith

sample-IsWellFormed : IsWellFormed sample
unfolding push_binding push_scope
sample-IsWellFormed =
    let pushed =
      push_scope-IsWellFormed start body_range (new-IsWellFormed 7 "crate::m" Language.rust)
        parent_inside in
    record { rooted = pushed.rooted; ordered = pushed.ordered; spans = pushed.spans }

push_scope_with_span-IsWellFormed_example :
    IsWellFormed (push_scope_with_span start body_range 10 90).0
unfolding new
push_scope_with_span-IsWellFormed_example =
    push_scope_with_span-IsWellFormed start body_range 10 90
      (new-IsWellFormed 7 "crate::m" Language.rust) (omega arith) parent_inside

resolve_local-lexical_example :
    (r : Option IdentResolution) × (resolve_local sample "x" 1 ≡ some r)
    × ((found : IdentResolution)
        → r ≡ some found
        → In found (entries_of sample "x") × Encloses sample.scopes found.scope_idx 1)
    × ((b : IdentResolution)
        → In b (entries_of sample "x")
        → Encloses sample.scopes b.scope_idx 1
        → (found : IdentResolution) × (r ≡ some found)
          × Encloses sample.scopes b.scope_idx found.scope_idx)
resolve_local-lexical_example = resolve_local-lexical sample "x" 1 sample-IsWellFormed

resolve_local-push_binding_example :
    (resolve_local (push_binding sample (binding "x" 1)) "x" 1 ≡ some (some (binding "x" 1)))
    × ((name : String) (idx : ℕ)
        → ("x" == name) ≡ false
        → resolve_local (push_binding sample (binding "x" 1)) name idx
          ≡ resolve_local sample name idx)
resolve_local-push_binding_example = resolve_local-push_binding sample (binding "x" 1)

scope_idx_for_span-push_scope_with_span_example :
    ((push_scope_with_span start body_range 10 90).1 ≡ 1)
    × (get_elem? (push_scope_with_span start body_range 10 90).0.scopes 1 ≡ some body_range)
    × ((a b : ℕ)
        → scope_of_span (push_scope_with_span start body_range 10 90).0 a b
          ≡ (if eqb 10 a && eqb 90 b then some body_range else scope_of_span start a b))
unfolding new
scope_idx_for_span-push_scope_with_span_example =
    scope_idx_for_span-push_scope_with_span start body_range 10 90
      (new-IsWellFormed 7 "crate::m" Language.rust) (omega arith)
