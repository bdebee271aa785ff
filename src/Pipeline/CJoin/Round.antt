-- ===== src/Pipeline/CJoin/Round.antt =====
-- What one round of the join pass does: a prototype with one definition goes, any other stays.
use standardoc.Base.{
  String, ℕ, suc, ◌+◌, ◌≡◌, refl, sym as inverse, ap, ◌∙◌, ◌⊎◌, inl, inr, Bool, true, false, not,
  List, [], ◌∷◌, map, In, find, keep_if, ◌==◌, eq_iff, eqb_iff, ◌&&◌, Option-cases, Bool-cases,
  arith,
}
use standardoc.Storage.Error.{ok, Result-cases, ok-injective}
use standardoc.Storage.Database.{Database, SymbolRow, has_id, symbol_by_id}
use standardoc.Storage.Symbols.{delete_symbol_row}
use standardoc.Storage.DeclLocation.{loses_its_end, upsert_decl_location, delete_from_symbols}
use standardoc.Storage.Index.Delete.{without}
use standardoc.Pipeline.CJoin.{
  CJoinReport, DeclRow, is_def, find_defs_by_name, decl_location, join_decl, visit_decl,
}

abbrev pub IsUnique : List ℕ → Type 0
IsUnique defs = (def_id : ℕ) × (defs ≡ def_id ∷ [])

upsert_decl_location-symbols :
    (db : Database) (d : DeclRow) (def_id : ℕ) (db' : Database)
    → upsert_decl_location db def_id (decl_location d) ≡ ok db'
    → db'.symbols ≡ db.symbols
unfolding upsert_decl_location
upsert_decl_location-symbols db d def_id db' e =
    elim (Option-cases (symbol_by_id db.symbols def_id)) [
      | inl missing ↦ absurd (cc (rw (upsert_decl_location, missing) at e))
      | inr (s, found) ↦ inverse (
          ap (λ (x : Database). x.symbols)
            (ok-injective _ _ (rw (upsert_decl_location, found) at e)))
    ]

delete_from_symbols-symbols :
    (db : Database) (id : ℕ) (db' : Database)
    → delete_from_symbols db id ≡ ok db'
    → db'.symbols ≡ without id db.symbols
unfolding delete_from_symbols delete_symbol_row
delete_from_symbols-symbols db id db' e = elim (Option-cases (find (loses_its_end id) db.edges)) [
  | inr (edge, found) ↦ absurd (cc (rw (delete_from_symbols, found) at e))
  | inl kept ↦
      inverse
        (ap (λ (x : Database). x.symbols) (ok-injective _ _ (rw (delete_from_symbols, kept) at e)))
]

join_decl-symbols :
    (db : Database) (d : DeclRow) (def_id : ℕ) (report report' : CJoinReport)
    → (join_decl db d def_id report).1 ≡ ok report'
    → ((join_decl db d def_id report).0.symbols ≡ without d.id db.symbols)
      × (report' ≡ record report { joined = suc report.joined })
unfolding join_decl
join_decl-symbols db d def_id report report' h =
    elim (Result-cases (upsert_decl_location db def_id (decl_location d))) [
      | inr (stopped, e) ↦ absurd (cc (rw (join_decl, e) at h))
      | inl (db₁, e) ↦ elim (Result-cases (delete_from_symbols db₁ d.id)) [
        | inr (stopped, e') ↦ absurd (cc (rw (join_decl, e, e') at h))
        | inl (db₂, e') ↦ (
          rw (join_decl, e, e')
              (delete_from_symbols-symbols db₁ d.id db₂ e'
                ∙ ap (without d.id) (upsert_decl_location-symbols db d def_id db₁ e)),
          inverse (ok-injective _ _ (rw (join_decl, e, e') at h)),
        )
      ]
    ]

abbrev pub visits : CJoinReport → ℕ
visits report = report.joined + report.orphans_kept + report.ambiguous_skipped

-- The two ways a round ends well, and the counter that it raises.
pub visit_decl-symbols :
    (db : Database) (d : DeclRow) (defs : List ℕ) (report report' : CJoinReport)
    → (visit_decl db d defs report).1 ≡ ok report'
    → (IsUnique defs
        × ((visit_decl db d defs report).0.symbols ≡ without d.id db.symbols)
        × (report' ≡ record report { joined = suc report.joined }))
      ⊎ ((IsUnique defs → ⊥)
          × ((visit_decl db d defs report).0 ≡ db)
          × (report'.joined ≡ report.joined)
          × (visits report' ≡ suc (visits report)))
unfolding visit_decl
visit_decl-symbols db d [] report report' h = inr (
  λ u. absurd (cc u.1),
  refl,
  inverse (ap (λ (r : CJoinReport). r.joined) (ok-injective _ _ h)),
  inverse (ap visits (ok-injective _ _ h)) ∙ omega arith,
)
visit_decl-symbols db d (def_id ∷ []) report report' h =
    let (symbols, raised) = join_decl-symbols db d def_id report report' h in
    inl ((def_id, refl), symbols, raised)
visit_decl-symbols db d (a ∷ b ∷ defs) report report' h = inr (
  λ u. absurd (cc u.1),
  refl,
  inverse (ap (λ (r : CJoinReport). r.joined) (ok-injective _ _ h)),
  inverse (ap visits (ok-injective _ _ h)) ∙ omega arith,
)

keep_if-keep_if :
    {A : Type 0} (p q : A → Bool) (xs : List A)
    → ((x : A) → In x xs → p x ≡ true → q x ≡ true)
    → keep_if p (keep_if q xs) ≡ keep_if p xs
keep_if-keep_if p q [] h = refl
keep_if-keep_if p q (x ∷ xs) h =
    let rest = keep_if-keep_if p q xs (λ y held. h y (inr held)) in
    elim (Bool-cases (q x)) [
      | inl kept ↦ elim (Bool-cases (p x)) [
        | inl wanted ↦ simp (kept, wanted, rest)
        | inr other ↦ simp (kept, other, rest)
      ]
      | inr dropped ↦ elim (Bool-cases (p x)) [
        | inl wanted ↦ absurd (cc (h x (inl refl) wanted, dropped))
        | inr other ↦ simp (dropped, other, rest)
      ]
    ]

pub and_left : (a b : Bool) → (a && b) ≡ true → a ≡ true
and_left true b h = refl
and_left false b h = absurd (cc)

pub and_right : (a b : Bool) → (a && b) ≡ true → b ≡ true
and_right true b h = h
and_right false b h = absurd (cc)

is_def-kind :
    (workspace_id name : String) (s : SymbolRow)
    → is_def workspace_id name s ≡ true
    → s.language_kind ≡ "fn"
is_def-kind workspace_id name s h = (eq_iff s.language_kind "fn").0 (
    and_left (s.language_kind == "fn") (s.name == name && s.workspace_id == workspace_id)
      (and_right (s.language == "c") _ h))

-- Deleting a prototype leaves the definitions of every name.
pub find_defs_by_name-without :
    (id : ℕ) (symbols : List SymbolRow) (workspace_id name : String)
    → ((s : SymbolRow) → In s symbols → s.id ≡ id → s.language_kind ≡ "fn_decl")
    → find_defs_by_name (without id symbols) workspace_id name
      ≡ find_defs_by_name symbols workspace_id name
unfolding find_defs_by_name
find_defs_by_name-without id symbols workspace_id name proto = ap (map (λ (s : SymbolRow). s.id)) (
    keep_if-keep_if (is_def workspace_id name) (λ s. not (has_id id s)) symbols
      (λ s held wanted. elim (Bool-cases (has_id id s)) [
        | inr other ↦ rw other refl
        | inl same ↦
            absurd
              (cc (is_def-kind workspace_id name s wanted, proto s held ((eqb_iff s.id id).0 same)))
      ]))
