-- ===== src/Pipeline/Diff/Decisions.antt =====
-- Which symbols have a row, and what the hash test decides.
use standardoc.Base.{
  String, ℕ, Bool, true, false, not, ◌≡◌, ◌≢◌, refl, sym as inverse, ap, subst, ◌∙◌, ◌↔◌, inl, inr,
  Option, none, some, List, [], ◌∷◌, ◌==◌, eq_iff, In, Option-cases, Bool-cases,
}
use standardoc.Base.Assoc
use standardoc.Ir.Symbol.{RawSymbol}
use standardoc.Pipeline.Diff.Entries.{
  position_update_of, modification_of, HasDistinctNames, row_of, row_of_get, Decides,
  In-pair_of_row, eq_of_same_hash, same_hash_refl,
}
use standardoc.Pipeline.Diff.{DbSymbolRow, index_rows, same_hash, is_extracted, missing_ids}

-- The extracted symbol has no row.
abbrev pub IsNew : List DbSymbolRow → RawSymbol → Type 0
IsNew existing sym = (r : DbSymbolRow) → In r existing → r.fqdn ≢ sym.fqdn

-- `id` is the row of the symbol's name, and its hash is in the given relation to the symbol's.
abbrev pub HasRow :
    List DbSymbolRow → ℕ → RawSymbol → (Option String → Option String → Type 0) → Type 0
HasRow existing id sym R =
    (r : DbSymbolRow) × In r existing
    × (r.id ≡ id)
    × (r.fqdn ≡ sym.fqdn)
    × R r.body_hash sym.body_hash

module _ (existing : List DbSymbolRow) (extracted : List RawSymbol)
    (distinct : HasDistinctNames existing) where
  abbrev row_at : RawSymbol → Option DbSymbolRow
  row_at s = Assoc.get (index_rows existing []) s.fqdn

  pub IsNew-iff : (x : RawSymbol) → (row_at x ≡ none) ↔ IsNew existing x
  IsNew-iff x = (
    λ missing r held same. absurd (cc (row_of existing r distinct held x.fqdn same)),
    λ fresh. elim (Option-cases (row_at x)) [
      | inl e ↦ e
      | inr (r, e) ↦ let (held, same) = row_of_get existing x.fqdn r e in absurd (fresh r held same)
    ],
  )

  -- The hash test decides the relation `R`.
  pub Decides-iff :
      (test : Bool → Bool) (R : Option String → Option String → Type 0)
      → ((a b : Option String) → (test (same_hash a b) ≡ true) ↔ R b a)
      → (id : ℕ) (sym x : RawSymbol)
      → Decides (row_at x) test id sym x ↔ ((sym ≡ x) × HasRow existing id x R)
  Decides-iff test R decides id sym x = (
    λ d.
        let (held, named) = row_of_get existing x.fqdn d.1.0 d.1.1 in
        (d.0, (d.1.0, held, d.1.2, named, (decides x.body_hash d.1.0.body_hash).0 d.1.3)),
    λ h.
        let (r, held, at, named, rel) = h.1 in
        (
          h.0,
          (
            r,
            row_of existing r distinct held x.fqdn named,
            at,
            (decides x.body_hash r.body_hash).1 rel,
          ),
        ),
  )

is_extracted-false_iff :
    (syms : List RawSymbol) (fqdn : String)
    → (is_extracted syms fqdn ≡ false) ↔ ((sym : RawSymbol) → In sym syms → sym.fqdn ≢ fqdn)
unfolding is_extracted
is_extracted-false_iff [] fqdn = ((λ e sym h. absurd h), λ h. refl)
is_extracted-false_iff (x ∷ syms) fqdn = elim (Bool-cases (x.fqdn == fqdn)) [
  | inl here ↦
      (λ e. absurd (cc (e, here)), λ h. absurd (h x (inl refl) ((eq_iff x.fqdn fqdn).0 here)))
  | inr there ↦
      let rest = is_extracted-false_iff syms fqdn in
      (
        λ e sym h. elim h [
          | inl same ↦ λ named. absurd (
              cc (
                there,
                (eq_iff x.fqdn fqdn).1 (inverse (ap (λ (s : RawSymbol). s.fqdn) same) ∙ named),
              ))
          | inr later ↦ rest.0 (rw there at e) sym later
        ],
        λ h. rw there (rest.1 (λ sym held. h sym (inr held))),
      )
]

pub missing_ids_iff :
    (extracted : List RawSymbol) (rows : List DbSymbolRow) (id : ℕ)
    → In id (missing_ids extracted rows) ↔ (
        (r : DbSymbolRow) × In r rows
        × (r.id ≡ id)
        × ((sym : RawSymbol) → In sym extracted → sym.fqdn ≢ r.fqdn))
unfolding missing_ids
missing_ids_iff extracted [] id = ((λ h. absurd h), λ h. absurd h.1)
missing_ids_iff extracted (row ∷ rows) id =
    let rest = missing_ids_iff extracted rows id in
    let gone = is_extracted-false_iff extracted row.fqdn in
    elim (Bool-cases (is_extracted extracted row.fqdn)) [
      | inl held ↦ rw held (
        λ h. let (r, there, e, missing) = rest.0 h in (r, inr there, e, missing),
        λ h. elim h.1 [
          | inl same ↦ absurd (
              cc (
                held,
                gone.1 (
                    subst
                      (λ (r : DbSymbolRow).
                        (sym : RawSymbol) → In sym extracted → sym.fqdn ≢ r.fqdn)
                      same h.3),
              ))
          | inr there ↦ rest.1 (h.0, there, h.2, h.3)
        ],
      )
      | inr missing ↦ rw missing (
        λ h. elim h [
          | inl e ↦ (row, inl refl, inverse e, gone.0 missing)
          | inr later ↦ let (r, there, e, m) = rest.0 later in (r, inr there, e, m)
        ],
        λ h. elim h.1 [
          | inl same ↦ inl (inverse h.2 ∙ ap (λ (r : DbSymbolRow). r.id) same)
          | inr there ↦ inr (rest.1 (h.0, there, h.2, h.3))
        ],
      )
    ]

pub In-position_update_of :
    (o : Option DbSymbolRow) (id : ℕ) (sym x : RawSymbol)
    → In (id, sym) (position_update_of o x) ↔ Decides o (λ b. b) id sym x
unfolding position_update_of
In-position_update_of none id sym x = ((λ h. absurd h), λ d. absurd (cc d.1.1))
In-position_update_of (some row) id sym x = In-pair_of_row (λ b. b) row id sym x

pub In-modification_of :
    (o : Option DbSymbolRow) (id : ℕ) (sym x : RawSymbol)
    → In (id, sym) (modification_of o x) ↔ Decides o not id sym x
unfolding modification_of
In-modification_of none id sym x = ((λ h. absurd h), λ d. absurd (cc d.1.1))
In-modification_of (some row) id sym x = In-pair_of_row not row id sym x

pub same_hash_iff : (a b : Option String) → (same_hash a b ≡ true) ↔ (b ≡ a)
same_hash_iff a b = (
  λ h. inverse (eq_of_same_hash a b h),
  λ e. subst (λ c. same_hash a c ≡ true) (inverse e) (same_hash_refl a),
)

pub other_hash_iff : (a b : Option String) → (not (same_hash a b) ≡ true) ↔ (b ≢ a)
other_hash_iff a b = elim (Bool-cases (same_hash a b)) [
  | inl same ↦ rw same (λ h. absurd (cc h), λ h. absurd (h ((same_hash_iff a b).0 same)))
  | inr other ↦ rw other (λ h e. absurd (cc (other, (same_hash_iff a b).1 e)), λ h. refl)
]
