-- ===== src/Pipeline/Diff/Entries.antt =====
-- What one extracted symbol, and then all of them, add to a plan.
use mathlib.Core.List.{append-nil, append_assoc}
use standardoc.Base.{
  String, ℕ, Bool, true, false, not, ◌≡◌, refl, sym as inverse, ap, ap₂, subst, ◌∙◌, ◌↔◌, inl, inr,
  Option, none, some, List, [], ◌∷◌, ◌++◌, ◌==◌, eq_iff, In, find_last, find_last-some,
  find_last-none, concat_map, Option-cases, Bool-cases, arith, eq_refl,
}
use standardoc.Base.Assoc
use standardoc.Ir.Symbol.{RawSymbol}
use standardoc.Pipeline.Diff.{
  DbSymbolRow, DiffPlan, index_rows, same_hash, place_symbol, plan_symbol, plan_symbols,
}

abbrev pub named : String → DbSymbolRow → Bool
named fqdn row = row.fqdn == fqdn

-- The map of rows holds the last row of each name.
pub get-index_rows :
    (rows : List DbSymbolRow) (m : List (String × DbSymbolRow)) (fqdn : String)
    → Assoc.get (index_rows rows m) fqdn
      ≡ elim (find_last (named fqdn) rows) [ some r ↦ some r | none ↦ Assoc.get m fqdn ]
unfolding index_rows
get-index_rows [] m fqdn = refl
get-index_rows (row ∷ rows) m fqdn = ground (
  arith,
  get-index_rows rows (Assoc.insert m row.fqdn row) fqdn,
  Assoc.get-insert m row.fqdn fqdn row,
)

pub eq_of_same_hash : (a b : Option String) → same_hash a b ≡ true → a ≡ b
unfolding same_hash
eq_of_same_hash none none h = refl
eq_of_same_hash none (some b) h = absurd (cc)
eq_of_same_hash (some a) none h = absurd (cc)
eq_of_same_hash (some a) (some b) h = ap some ((eq_iff a b).0 h)

pub same_hash_refl : (a : Option String) → same_hash a a ≡ true
unfolding same_hash
same_hash_refl none = refl
same_hash_refl (some a) = eq_refl a

abbrev pub pair_if : Bool → ℕ × RawSymbol → List (ℕ × RawSymbol)
pair_if true p = p ∷ []
pair_if false p = []

-- What one symbol adds to each list of the plan, by the row of its name.
unfoldable pub insert_of : Option DbSymbolRow → RawSymbol → List RawSymbol
insert_of none s = s ∷ []
insert_of (some row) s = []

unfoldable pub position_update_of : Option DbSymbolRow → RawSymbol → List (ℕ × RawSymbol)
position_update_of none s = []
position_update_of (some row) s = pair_if (same_hash s.body_hash row.body_hash) (row.id, s)

unfoldable pub modification_of : Option DbSymbolRow → RawSymbol → List (ℕ × RawSymbol)
modification_of none s = []
modification_of (some row) s = pair_if (not (same_hash s.body_hash row.body_hash)) (row.id, s)

pub place_symbol_lem :
    (o : Option DbSymbolRow) (plan : DiffPlan) (s : RawSymbol)
    → place_symbol o plan s ≡ record {
      inserts = plan.inserts ++ insert_of o s;
      modifications = plan.modifications ++ modification_of o s;
      position_updates = plan.position_updates ++ position_update_of o s;
      deletions = plan.deletions;
    }
unfolding place_symbol insert_of position_update_of modification_of
place_symbol_lem none plan s = simp append-nil
place_symbol_lem (some row) plan s = elim (Bool-cases (same_hash s.body_hash row.body_hash)) [
  | inl same ↦ simp (same, append-nil)
  | inr other ↦ simp (other, append-nil)
]

module _ (by_fqdn : List (String × DbSymbolRow)) where
  abbrev pub inserts_of : List RawSymbol → List RawSymbol
  inserts_of = concat_map (λ s. insert_of (Assoc.get by_fqdn s.fqdn) s)

  abbrev pub modifications_of : List RawSymbol → List (ℕ × RawSymbol)
  modifications_of = concat_map (λ s. modification_of (Assoc.get by_fqdn s.fqdn) s)

  abbrev pub position_updates_of : List RawSymbol → List (ℕ × RawSymbol)
  position_updates_of = concat_map (λ s. position_update_of (Assoc.get by_fqdn s.fqdn) s)

  pub plan_symbols_lem :
      (syms : List RawSymbol) (plan : DiffPlan)
      → plan_symbols by_fqdn plan syms ≡ record {
        inserts = plan.inserts ++ inserts_of syms;
        modifications = plan.modifications ++ modifications_of syms;
        position_updates = plan.position_updates ++ position_updates_of syms;
        deletions = plan.deletions;
      }
  unfolding plan_symbols plan_symbol
  plan_symbols_lem [] plan = simp append-nil
  plan_symbols_lem (s ∷ syms) plan =
      ap (λ p. plan_symbols by_fqdn p syms) (place_symbol_lem (Assoc.get by_fqdn s.fqdn) plan s)
      ∙ plan_symbols_lem syms _
      ∙ simp append_assoc

-- No two rows have one name, as the key of the table has it within a workspace.
abbrev pub HasDistinctNames : List DbSymbolRow → Type 0
HasDistinctNames rows = (r s : DbSymbolRow) → In r rows → In s rows → r.fqdn ≡ s.fqdn → r ≡ s

-- The row of a name, if there is one.
pub row_of :
    (rows : List DbSymbolRow) (r : DbSymbolRow)
    → HasDistinctNames rows
    → In r rows
    → (fqdn : String) → r.fqdn ≡ fqdn
    → Assoc.get (index_rows rows []) fqdn ≡ some r
row_of rows r distinct held fqdn same = elim (Option-cases (find_last (named fqdn) rows)) [
  | inl e ↦
      let missed = find_last-none (named fqdn) rows r e held in
      absurd (cc ((eq_iff r.fqdn fqdn).1 same, missed))
  | inr (s, e) ↦
      let (held', tested) = find_last-some (named fqdn) rows s e in
      let one : s ≡ r = distinct s r held' held ((eq_iff s.fqdn fqdn).0 tested ∙ inverse same) in
      get-index_rows rows [] fqdn ∙ rw e (ap some one)
]

pub row_of_get :
    (rows : List DbSymbolRow) (fqdn : String) (r : DbSymbolRow)
    → Assoc.get (index_rows rows []) fqdn ≡ some r
    → In r rows × (r.fqdn ≡ fqdn)
unfolding Assoc.get
row_of_get rows fqdn r h = elim (Option-cases (find_last (named fqdn) rows)) [
  | inl e ↦ absurd (cc (rw e at (inverse (get-index_rows rows [] fqdn) ∙ h)))
  | inr (s, e) ↦
      let same : s ≡ r = cc (rw e at (inverse (get-index_rows rows [] fqdn) ∙ h)) in
      let (held, tested) = find_last-some (named fqdn) rows r (e ∙ ap some same) in
      (held, (eq_iff r.fqdn fqdn).0 tested)
]

pub In-insert_of :
    (o : Option DbSymbolRow) (sym x : RawSymbol) → In sym (insert_of o x) ↔ ((sym ≡ x) × (o ≡ none))
unfolding insert_of
In-insert_of none sym x = ((λ h. elim h [ inl e ↦ (e, refl) | inr h' ↦ absurd h' ]), λ h. inl h.0)
In-insert_of (some row) sym x = ((λ h. absurd h), λ h. absurd (cc h.1))

pub In-pair_if : (b : Bool) (p q : ℕ × RawSymbol) → In p (pair_if b q) ↔ ((b ≡ true) × (p ≡ q))
In-pair_if true p q = ((λ h. elim h [ inl e ↦ (refl, e) | inr h' ↦ absurd h' ]), λ h. inl h.1)
In-pair_if false p q = ((λ h. absurd h), λ h. absurd (cc h.0))

-- A row that decides a pair of the plan, with the outcome of its hash test.
abbrev pub Decides : Option DbSymbolRow → (Bool → Bool) → ℕ → RawSymbol → RawSymbol → Type 0
Decides o test id sym x =
    (sym ≡ x)
    × ((row : DbSymbolRow) × (o ≡ some row)
        × (row.id ≡ id)
        × (test (same_hash x.body_hash row.body_hash) ≡ true))

pub In-pair_of_row :
    (test : Bool → Bool) (row : DbSymbolRow) (id : ℕ) (sym x : RawSymbol)
    → In (id, sym) (pair_if (test (same_hash x.body_hash row.body_hash)) (row.id, x))
      ↔ Decides (some row) test id sym x
In-pair_of_row test row id sym x =
    let b = test (same_hash x.body_hash row.body_hash) in
    (
      λ h.
          let (passed, same) = (In-pair_if b (id, sym) (row.id, x)).0 h in
          (
            ap (λ (p : ℕ × RawSymbol). p.1) same,
            (row, refl, ap (λ (p : ℕ × RawSymbol). p.0) (inverse same), passed),
          ),
      λ d.
          let one : row ≡ d.1.0 = cc (d.1.1) in
          (In-pair_if b (id, sym) (row.id, x)).1 (
            subst (λ (r : DbSymbolRow). test (same_hash x.body_hash r.body_hash) ≡ true)
                (inverse one) d.1.3,
            ap₂ (λ (i : ℕ) (s : RawSymbol). (i, s))
                (inverse d.1.2 ∙ ap (λ (r : DbSymbolRow). r.id) (inverse one)) d.0,
          ),
    )
