-- ===== src/Ir/Lookup/Resolve.antt =====
-- `resolve_local`: it ends on a well-formed table, and finds the innermost shadowing binding.
use standardoc.Base.{
  ℕ, zero, suc, ◌<◌, ◌≡◌, refl, sym, ◌∙◌, ap, subst, String, true, false, ◌⊎◌, inl, inr, Option,
  none, some, List, [], ◌∷◌, ◌++◌, In, length, find_last, eqb, eqb_iff, if◌then◌else◌, arith,
  Option-cases, ◌==◌, find_last-some, find_last-none, find_last-append,
}
use standardoc.Base.Assoc
use standardoc.Ir.Lookup.{
  ScopeRange, ModuleLookup, IdentResolution, push_binding, parent_of, in_scope, resolve_from,
  resolve_local, entry_or_default,
}
use standardoc.Ir.Lookup.Scopes.{IsWellFormed}

-- `t` is `s`, or a scope around it.
pub data Encloses (scopes : List ScopeRange) (t : ℕ) : ℕ → Type 0 where
  self : Encloses scopes t t
  outward : {s p : ℕ} → parent_of scopes s ≡ some p → Encloses scopes t p → Encloses scopes t s

Encloses-cases :
    (scopes : List ScopeRange) {t : ℕ} {s : ℕ}
    → Encloses scopes t s
    → (t ≡ s) ⊎ ((p : ℕ) × (parent_of scopes s ≡ some p) × Encloses scopes t p)
Encloses-cases scopes self = inl refl
Encloses-cases scopes (outward {p = p} up around) = inr (p, up, around)

parent_of-lt :
    (scopes : List ScopeRange) (i : ℕ) {p : ℕ} → parent_of scopes i ≡ some p → i < length scopes
parent_of-lt [] i h = absurd (cc)
parent_of-lt (x ∷ xs) zero h = omega arith
parent_of-lt (x ∷ xs) (suc i) h = omega (arith, parent_of-lt xs i h)

module _ (scopes : List ScopeRange) (entries : List IdentResolution) where
  module _ (fuel idx : ℕ) where
    resolve_from-found :
        {r : IdentResolution}
        → find_last (in_scope idx) entries ≡ some r
        → resolve_from (suc fuel) scopes entries idx ≡ some (some r)
    unfolding resolve_from
    resolve_from-found e = rw (e, resolve_from)

    resolve_from-top :
        find_last (in_scope idx) entries ≡ none
        → parent_of scopes idx ≡ none
        → resolve_from (suc fuel) scopes entries idx ≡ some none
    unfolding resolve_from
    resolve_from-top e top = rw (e, top, resolve_from)

    resolve_from-up :
        (p : ℕ)
        → find_last (in_scope idx) entries ≡ none
        → parent_of scopes idx ≡ some p
        → resolve_from (suc fuel) scopes entries idx ≡ resolve_from fuel scopes entries p
    unfolding resolve_from
    resolve_from-up p e up = rw (e, up, resolve_from)

    -- One round of the walk returns if the parent's walk does.
    resolve_from-step :
        ((p : ℕ)
          → parent_of scopes idx ≡ some p
          → (r : Option IdentResolution) × (resolve_from fuel scopes entries p ≡ some r))
        → (r : Option IdentResolution) × (resolve_from (suc fuel) scopes entries idx ≡ some r)
    resolve_from-step rest = elim (Option-cases (find_last (in_scope idx) entries)) [
      | inr (found, e) ↦ (some found, resolve_from-found e)
      | inl e ↦ elim (Option-cases (parent_of scopes idx)) [
        | inl top ↦ (none, resolve_from-top e top)
        | inr (p, up) ↦ ((rest p up).0, resolve_from-up p e up ∙ (rest p up).1)
      ]
    ]

  module _ (ordered : (i p : ℕ) → parent_of scopes i ≡ some p → p < i) where
    resolve_from-returns_below :
        (fuel idx : ℕ)
        → idx < fuel
        → (r : Option IdentResolution) × (resolve_from fuel scopes entries idx ≡ some r)
    resolve_from-returns_below zero idx h = elim h [ ]
    resolve_from-returns_below (suc fuel) idx h =
        resolve_from-step fuel idx
          (λ p up. resolve_from-returns_below fuel p (omega (arith, ordered idx p up)))

    -- One round more than there are scopes is enough from any index.
    pub resolve_from-returns :
        (idx : ℕ)
        → (r : Option IdentResolution) × (resolve_from (suc (length scopes)) scopes entries idx
            ≡ some r)
    resolve_from-returns idx = resolve_from-step (length scopes) idx (λ p up.
        resolve_from-returns_below (length scopes) p
          (omega (arith, ordered idx p up, parent_of-lt scopes idx up)))

  -- What is found is a binding of the table, in the starting scope or one around it.
  pub resolve_from_sound :
      (fuel idx : ℕ) (r : IdentResolution)
      → resolve_from fuel scopes entries idx ≡ some (some r)
      → In r entries × Encloses scopes r.scope_idx idx
  unfolding resolve_from
  resolve_from_sound zero idx r h = absurd (cc)
  resolve_from_sound (suc fuel) idx r h = elim (Option-cases (find_last (in_scope idx) entries)) [
    | inr (found, e) ↦
        let same : found ≡ r = cc (resolve_from-found fuel idx e) in
        let (held, tested) = find_last-some (in_scope idx) entries r (e ∙ ap some same) in
        (held, subst (λ i. Encloses scopes r.scope_idx i) ((eqb_iff _ _).0 tested) self)
    | inl e ↦ elim (Option-cases (parent_of scopes idx)) [
      | inl top ↦ absurd (cc (resolve_from-top fuel idx e top))
      | inr (p, up) ↦
          let (held, around) =
            resolve_from_sound fuel p r (sym (resolve_from-up fuel idx p e up) ∙ h) in
          (held, outward up around)
    ]
  ]

  -- A binding in a scope around the start is found, or one that shadows it from further inside.
  pub resolve_from-innermost :
      (fuel t idx : ℕ) (r : Option IdentResolution) (b : IdentResolution)
      → resolve_from fuel scopes entries idx ≡ some r
      → In b entries
      → b.scope_idx ≡ t
      → Encloses scopes t idx
      → (found : IdentResolution) × (r ≡ some found) × Encloses scopes t found.scope_idx
  unfolding resolve_from
  resolve_from-innermost zero t idx r b h held at around = absurd (cc)
  resolve_from-innermost (suc fuel) t idx r b h held at around =
      elim (Option-cases (find_last (in_scope idx) entries)) [
        | inr (found, e) ↦
            let (_, tested) = find_last-some (in_scope idx) entries found e in
            (
              found,
              cc (resolve_from-found fuel idx e),
              subst (λ i. Encloses scopes t i) (sym ((eqb_iff _ _).0 tested)) around,
            )
        | inl e ↦ elim (Encloses-cases scopes around) [
          | inl same ↦
              let missed = find_last-none (in_scope idx) entries b e held in
              absurd (cc ((eqb_iff b.scope_idx idx).1 (at ∙ same), missed))
          | inr (p, up, outer) ↦
              resolve_from-innermost fuel t p r b (sym (resolve_from-up fuel idx p e up) ∙ h) held
                at outer
        ]
      ]

-- The bindings that the table holds under a name.
abbrev pub entries_of : ModuleLookup → String → List IdentResolution
entries_of l name = entry_or_default (Assoc.get l.bindings name)

-- Lexical scoping, in a well-formed table: resolution ends; what it returns is a binding of that
-- name in the starting scope or one around it; and where some binding of the name is visible, one is
-- returned that stands in the same scope or further inside.
pub resolve_local-lexical :
    (l : ModuleLookup) (name : String) (idx : ℕ)
    → IsWellFormed l
    → (r : Option IdentResolution) × (resolve_local l name idx ≡ some r)
      × ((found : IdentResolution)
          → r ≡ some found
          → In found (entries_of l name) × Encloses l.scopes found.scope_idx idx)
      × ((b : IdentResolution)
          → In b (entries_of l name)
          → Encloses l.scopes b.scope_idx idx
          → (found : IdentResolution) × (r ≡ some found)
            × Encloses l.scopes b.scope_idx found.scope_idx)
unfolding resolve_local
resolve_local-lexical l name idx w = elim (Option-cases (Assoc.get l.bindings name)) [
  | inl e ↦ (none, rw (e, resolve_local), λ found h. absurd (cc), rw e (λ b h. absurd h))
  | inr (entries, e) ↦
      let (r, returns) = resolve_from-returns l.scopes entries w.ordered idx in
      (
        r,
        rw (e, resolve_local) returns,
        rw e (λ found h.
            resolve_from_sound l.scopes entries (suc (length l.scopes)) idx found
              (returns ∙ ap some h)),
        rw e (λ b held around.
            resolve_from-innermost l.scopes entries (suc (length l.scopes)) b.scope_idx idx r b
              returns held refl around),
      )
]

-- Among the bindings of one scope the latest wins, and the other names resolve as before.
pub resolve_local-push_binding :
    (l : ModuleLookup) (b : IdentResolution)
    → (resolve_local (push_binding l b) b.name b.scope_idx ≡ some (some b))
      × ((name : String) (idx : ℕ)
          → (b.name == name) ≡ false
          → resolve_local (push_binding l b) name idx ≡ resolve_local l name idx)
unfolding resolve_local push_binding
resolve_local-push_binding l b =
    let tested : eqb b.scope_idx b.scope_idx ≡ true = (eqb_iff _ _).1 refl in
    let latest : find_last (in_scope b.scope_idx) (entries_of l b.name ++ b ∷ []) ≡ some b =
      find_last-append (in_scope b.scope_idx) (entries_of l b.name) b
      ∙ ap (λ t. if t then some b else find_last (in_scope b.scope_idx) (entries_of l b.name))
          tested in
    let held : Assoc.get (push_binding l b).bindings b.name ≡ some (entries_of l b.name ++ b ∷ []) =
      Assoc.get-insert_self l.bindings b.name (entries_of l b.name ++ b ∷ []) in
    (
      rw (held, resolve_local)
          (resolve_from-found l.scopes (entries_of l b.name ++ b ∷ []) (length l.scopes) b.scope_idx
            latest),
      λ name idx other.
          let same : Assoc.get (push_binding l b).bindings name ≡ Assoc.get l.bindings name =
            rw (Assoc.get-insert l.bindings b.name name (entries_of l b.name ++ b ∷ []), other) in
          rw (same, resolve_local),
    )
