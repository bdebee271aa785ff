-- ===== src/Pipeline/Examples/Links.antt =====
-- Tests of the binding pass: `api.c` exports `f` and `api.h` imports it.
use Prim.Native.Char.{Char, char, code}
use standardoc.Ir.Ffi.{FfiDirection}
use standardoc.Base.{
  In, List, subst, false, ◌||◌, ◌&&◌, eqb, if◌then◌else◌, String, ℕ, ◌≡◌, refl, sym as inverse, ap,
  inl, inr, Bool, true, none, some, [], ◌∷◌, arith, ◌==◌,
}
use standardoc.Base.Text.{append}
use standardoc.Storage.Error.{ok}
use standardoc.Storage.Serde.{Serde}
use standardoc.Storage.Database.{Database, SymbolRow, EdgeRow, FfiBindingRow}
use standardoc.Storage.Symbols.{upsert_row}
use standardoc.Storage.FfiSides.{BindingSide, fetch_all_sides}
use standardoc.Storage.Index.{IsConsistent}
use standardoc.Pipeline.FfiResolve.{FfiResolveReport, ffi_needle, ffi_attribute, run_ffi_pass}
use standardoc.Pipeline.FfiResolve.Links.{IsPair, Linked}
use standardoc.Pipeline.FfiResolve.Pass.{run_ffi_pass-Linked}
use standardoc.Pipeline.FfiResolve.Edges.{IsLink, run_ffi_pass-IsLink}
use standardoc.Pipeline.FfiResolve.Consistent.{run_ffi_pass-IsConsistent, run_ffi_pass_idem}
use standardoc.Pipeline.Examples.{plain, symbol_row}
use standardoc.Pipeline.Examples.Joins.{with_rows, bare-IsConsistent, next_row}

-- The encoder of a list of texts, with the quote and the backslash escaped.
abbrev escaped : String → String
escaped String.[] = ""
escaped (String.◌∷◌ c s) =
    let rest = String.◌∷◌ c (escaped s) in
    if eqb (code c) 34 || eqb (code c) 92 then String.◌∷◌ (char 92 tt) rest else rest

abbrev elements : List String → String
elements [] = ""
elements (text ∷ []) = append "\"" (append (escaped text) "\"")
elements (text ∷ next ∷ texts) =
    append "\"" (append (escaped text) (append "\"," (elements (next ∷ texts))))

abbrev quoting : Serde
quoting = record plain { strings_to_string = λ texts. append "[" (append (elements texts) "]") }

abbrev any_suffix : (String → Bool) → String → Bool
any_suffix test String.[] = test ""
any_suffix test (String.◌∷◌ d text) = test (String.◌∷◌ d text) || any_suffix test text

abbrev after_first : Char → (String → Bool) → String → Bool
after_first c test String.[] = false
after_first c test (String.◌∷◌ d text) = eqb (code c) (code d) && test text

-- Patterns of `%` and of characters that stand for themselves.
abbrev matches : String → String → Bool
matches String.[] text = text == ""
matches (String.◌∷◌ c pattern) text =
    if eqb (code c) 37
    then any_suffix (matches pattern) text
    else after_first c (matches pattern) text

abbrev exporter_row : SymbolRow
exporter_row = symbol_row 1 "f" "api::f" "api.c" 1 "h" 1

abbrev importer_row : SymbolRow
importer_row = symbol_row 2 "f" "user::f" "api.h" 1 "h" 1

abbrev binding : ℕ → String → FfiBindingRow
binding symbol_id direction = record {
  symbol_id = symbol_id;
  abi = "c";
  direction = direction;
  abi_name = "f";
  convention = none;
}

abbrev unbound : Database
unbound = with_rows (exporter_row ∷ importer_row ∷ []) 3

abbrev bound : Database
bound = record unbound { ffi_bindings = binding 1 "export" ∷ binding 2 "import" ∷ [] }

unbound-IsConsistent : IsConsistent unbound
unfolding upsert_row
unbound-IsConsistent = next_row (with_rows (exporter_row ∷ []) 2) importer_row unbound 2 refl refl (
    next_row (with_rows [] 1) exporter_row (with_rows (exporter_row ∷ []) 2) 1 refl refl
      bare-IsConsistent)

bound-IsConsistent : IsConsistent bound
bound-IsConsistent = record {
  table = unbound-IsConsistent.table;
  edges = unbound-IsConsistent.edges;
}

abbrev side : ℕ → String → BindingSide
side symbol_id fqdn = record {
  symbol_id = symbol_id;
  fqdn = fqdn;
  abi_name = "f";
  abi = "c";
  workspace_id = "primary";
}

abbrev link : EdgeRow
link = record {
  id = 1;
  from_symbol_id = 2;
  kind = "IMPORTS";
  to_symbol_id = some 1;
  to_unresolved = none;
  attributes = "[\"ffi:c\"]";
  confidence = "inferred";
  receiver_type = none;
}

links_once : (run_ffi_pass matches quoting bound).0.edges ≡ link ∷ []
unfolding run_ffi_pass append
links_once = refl

sides-IsPair : IsPair bound (side 2 "user::f") (side 1 "api::f")
unfolding fetch_all_sides
sides-IsPair = record {
  imported = inl refl;
  exported = refl;
  apart = λ same. absurd (omega (arith, same));
}

run_ffi_pass-Linked_example :
    ((report : FfiResolveReport) × ((run_ffi_pass matches quoting bound).1 ≡ ok report))
    × Linked matches quoting bound bound (run_ffi_pass matches quoting bound).0
run_ffi_pass-Linked_example = run_ffi_pass-Linked matches quoting bound

run_ffi_pass-IsLink_example :
    (e : EdgeRow) × In e (run_ffi_pass matches quoting bound).0.edges
    × IsLink matches quoting (side 2 "user::f") (side 1 "api::f") e
run_ffi_pass-IsLink_example =
    run_ffi_pass-IsLink matches quoting bound (side 2 "user::f") (side 1 "api::f")
      bound-IsConsistent sides-IsPair refl

run_ffi_pass-IsConsistent_example : IsConsistent (run_ffi_pass matches quoting bound).0
run_ffi_pass-IsConsistent_example =
    run_ffi_pass-IsConsistent matches quoting bound bound-IsConsistent

-- The one import of the workspace, and its ABI.
finds :
    (i : BindingSide)
    → In i (fetch_all_sides bound FfiDirection.import_side)
    → matches (ffi_needle i.abi) (quoting.strings_to_string (ffi_attribute i.abi ∷ [])) ≡ true
unfolding fetch_all_sides append
finds i (inl e) =
    subst
      (λ (x : BindingSide).
        matches (ffi_needle x.abi) (quoting.strings_to_string (ffi_attribute x.abi ∷ [])) ≡ true)
      (inverse e) refl
finds i (inr never) = absurd never

run_ffi_pass_idem_example :
    (run_ffi_pass matches quoting (run_ffi_pass matches quoting bound).0).0
    ≡ (run_ffi_pass matches quoting bound).0
run_ffi_pass_idem_example =
    run_ffi_pass_idem matches quoting bound "primary" bound-IsConsistent finds (λ s held.
      elim held [
        | inl e ↦ ap (λ (x : SymbolRow). x.workspace_id) e
        | inr rest ↦ elim rest [
          | inl e ↦ ap (λ (x : SymbolRow). x.workspace_id) e
          | inr never ↦ absurd never
        ]
      ])

-- The same import from another workspace: the name of the export is not known there, so each pass
-- writes the edge once more.
abbrev apart : Database
apart = record bound { symbols = exporter_row ∷ record importer_row { workspace_id = "lib" } ∷ [] }

links_twice :
    (run_ffi_pass matches quoting (run_ffi_pass matches quoting apart).0).0.edges
    ≡ record link { to_symbol_id = none; to_unresolved = some "api::f" }
      ∷ record link { id = 2; to_symbol_id = none; to_unresolved = some "api::f" }
      ∷ []
unfolding run_ffi_pass append
links_twice = refl
