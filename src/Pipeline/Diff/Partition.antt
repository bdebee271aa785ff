-- ===== src/Pipeline/Diff/Partition.antt =====
-- `diff_symbols` sorts an extraction against the rows of its file.
use standardoc.Base.{
  String, ℕ, Bool, true, not, ◌≡◌, ◌≢◌, refl, sym as inverse, ap, subst, ◌↔◌, Option, List, [],
  ◌++◌, In, concat_map, In-concat_map, In-concat_map_of,
}
use standardoc.Base.Assoc
use standardoc.Ir.Symbol.{RawSymbol}
use standardoc.Pipeline.Diff.Entries.{
  insert_of, position_update_of, modification_of, inserts_of, modifications_of, position_updates_of,
  plan_symbols_lem, HasDistinctNames, In-insert_of, Decides,
}
use standardoc.Pipeline.Diff.{
  DbSymbolRow, DiffPlan, index_rows, same_hash, missing_ids, empty_plan, diff_symbols,
}
use standardoc.Pipeline.Diff.Decisions.{
  IsNew, HasRow, IsNew-iff, Decides-iff, missing_ids_iff, In-position_update_of, In-modification_of,
  same_hash_iff, other_hash_iff,
}

-- What a plan has to be: each extracted symbol is sorted by the row of its name, and the rows whose
-- names are gone are deleted.
pub record Sorts (existing : List DbSymbolRow) (extracted : List RawSymbol) (plan : DiffPlan)
    : Type 0 where
  pub inserts : (sym : RawSymbol) → In sym plan.inserts ↔ (In sym extracted × IsNew existing sym)
  pub position_updates :
      (id : ℕ) (sym : RawSymbol)
      → In (id, sym) plan.position_updates
        ↔ (In sym extracted × HasRow existing id sym (λ old new. old ≡ new))
  pub modifications :
      (id : ℕ) (sym : RawSymbol)
      → In (id, sym) plan.modifications
        ↔ (In sym extracted × HasRow existing id sym (λ old new. old ≢ new))
  pub deletions :
      (id : ℕ)
      → In id plan.deletions ↔ (
          (r : DbSymbolRow) × In r existing
          × (r.id ≡ id)
          × ((sym : RawSymbol) → In sym extracted → sym.fqdn ≢ r.fqdn))

module _ (existing : List DbSymbolRow) (extracted : List RawSymbol) where
  abbrev expected : DiffPlan
  expected =
      let by_fqdn = index_rows existing [] in
      record {
        inserts = inserts_of by_fqdn extracted;
        modifications = modifications_of by_fqdn extracted;
        position_updates = position_updates_of by_fqdn extracted;
        deletions = missing_ids extracted existing;
      }

  diff_symbols_lem : diff_symbols existing extracted ≡ expected
  unfolding diff_symbols
  diff_symbols_lem =
      ap (λ (p : DiffPlan). record p { deletions = p.deletions ++ missing_ids extracted existing })
        (plan_symbols_lem (index_rows existing []) extracted empty_plan)

  -- Both lists of pairs, by the test that makes them.
  In-pairs :
      HasDistinctNames existing
      → (pairs_of : Option DbSymbolRow → RawSymbol → List (ℕ × RawSymbol))
      → (test : Bool → Bool) (R : Option String → Option String → Type 0)
      → ((a b : Option String) → (test (same_hash a b) ≡ true) ↔ R b a)
      → ((o : Option DbSymbolRow) (id : ℕ) (sym x : RawSymbol)
          → In (id, sym) (pairs_of o x) ↔ Decides o test id sym x)
      → (id : ℕ) (sym : RawSymbol)
      → In
          (id, sym)
          (concat_map (λ s. pairs_of (Assoc.get (index_rows existing []) s.fqdn) s) extracted)
        ↔ (In sym extracted × HasRow existing id sym R)
  In-pairs distinct pairs_of test R decides entry id sym =
      let f = λ (s : RawSymbol). pairs_of (Assoc.get (index_rows existing []) s.fqdn) s in
      let by_row = Decides-iff existing extracted distinct test R decides id sym in
      (
        λ h.
            let (x, held, added) = In-concat_map f (id, sym) extracted h in
            let (same, row) =
              (by_row x).0 ((entry (Assoc.get (index_rows existing []) x.fqdn) id sym x).0 added) in
            subst (λ y. In y extracted × HasRow existing id y R) (inverse same) (held, row),
        λ h.
            In-concat_map_of f (id, sym) sym extracted h.0
              ((entry (Assoc.get (index_rows existing []) sym.fqdn) id sym sym).1
                ((by_row sym).1 (refl, h.1))),
      )

  -- Where no two rows of the file have one name, the plan of `diff_symbols` sorts the extraction:
  -- a symbol is inserted exactly if no row has its name, its position is updated exactly if the row
  -- of its name has its hash (both may be absent), it is a modification exactly if the hash
  -- differs, and a row is deleted exactly if no symbol has its name any more.
  pub diff_symbols-Sorts :
      HasDistinctNames existing → Sorts existing extracted (diff_symbols existing extracted)
  diff_symbols-Sorts distinct =
      let row_at = λ (s : RawSymbol). Assoc.get (index_rows existing []) s.fqdn in
      subst (Sorts existing extracted) (inverse diff_symbols_lem) record {
        inserts = λ sym. (
          λ h.
              let (x, held, added) = In-concat_map (λ s. insert_of (row_at s) s) sym extracted h in
              let (same, missing) = (In-insert_of (row_at x) sym x).0 added in
              subst (λ y. In y extracted × IsNew existing y) (inverse same)
                (held, (IsNew-iff existing extracted distinct x).0 missing),
          λ h.
              In-concat_map_of (λ s. insert_of (row_at s) s) sym sym extracted h.0
                ((In-insert_of (row_at sym) sym sym).1
                  (refl, (IsNew-iff existing extracted distinct sym).1 h.1)),
        );
        position_updates =
            In-pairs distinct position_update_of (λ b. b) (λ old new. old ≡ new) same_hash_iff
              In-position_update_of;
        modifications =
            In-pairs distinct modification_of not (λ old new. old ≢ new) other_hash_iff
              In-modification_of;
        deletions = missing_ids_iff extracted existing;
      }
