-- ===== src/Pipeline/CrossWorkspace/Resolver.antt =====
-- crates/standardoc-core/src/cross_workspace_resolver.rs: the resolver over the database, and what it
-- remembers. A lock that is poisoned is not modelled.
use Prim.Native.Char.{code}
use standardoc.Base.{
  String, ℕ, ◌≡◌, refl, sym as inverse, ap, ap₂, ◌∙◌, inl, inr, Bool, true, ◌&&◌, Option, none,
  some, List, [], ◌∷◌, In, find, eqb, ◌==◌, eq_iff, if◌then◌else◌, Bool-cases, Option-cases,
}
use standardoc.Base.Segments.{segments, join}
use standardoc.Ir.Lookup.{ModuleLookup}
use standardoc.Ir.CrossWorkspace.{CrossWorkspaceLookup}
use standardoc.Storage.Error.{Result, ok, err}
use standardoc.Storage.Database.{Database}
use standardoc.Storage.CrossWorkspace.{
  CrossWorkspaceResolution, resolve_cross_workspace_import, resolve_intra_workspace_import,
  peer_workspace_for_module,
}
use standardoc.Storage.Index.{find-some}

-- `head.replace('_', "-")`
unfoldable pub hyphens : String → String
hyphens String.[] = String.[]
hyphens (String.◌∷◌ c s) = String.◌∷◌ (if eqb (code c) 95 then "-" else c) (hyphens s)

-- Only the first segment is changed. Replacing nothing leaves it as it is.
unfoldable pub normalize_crate_prefix_to_hyphen : String → String
unfolding segments join hyphens
normalize_crate_prefix_to_hyphen module_fqdn = elim (segments module_fqdn) [
  | [] ↦ module_fqdn
  | head ∷ tail ↦ join (hyphens head ∷ tail)
]

abbrev pub known_or : CrossWorkspaceLookup → CrossWorkspaceLookup → CrossWorkspaceLookup
known_or CrossWorkspaceLookup.unknown other = other
known_or (CrossWorkspaceLookup.hit w f) other = CrossWorkspaceLookup.hit w f
known_or (CrossWorkspaceLookup.known_peer_missing_symbol w) other =
    CrossWorkspaceLookup.known_peer_missing_symbol w

-- Pass 3
abbrev pub probe : Option String → CrossWorkspaceLookup
probe none = CrossWorkspaceLookup.unknown
probe (some workspace_id) = CrossWorkspaceLookup.known_peer_missing_symbol workspace_id

-- Pass 2, whose errors fall through
abbrev pub intra :
    Result (Option CrossWorkspaceResolution) → CrossWorkspaceLookup → CrossWorkspaceLookup
intra (err _) next = next
intra (ok none) next = next
intra (ok (some r)) next = CrossWorkspaceLookup.hit r.workspace_id r.resolved_fqdn

-- Pass 1, whose errors end the lookup
abbrev pub peers :
    Result (Option CrossWorkspaceResolution) → CrossWorkspaceLookup → CrossWorkspaceLookup
peers (err _) next = CrossWorkspaceLookup.unknown
peers (ok none) next = next
peers (ok (some r)) next = CrossWorkspaceLookup.hit r.workspace_id r.resolved_fqdn

-- The answers so far.
abbrev pub Cache : Type 0
Cache = List ((String × String) × CrossWorkspaceLookup)

abbrev pub is_entry : String → String → (String × String) × CrossWorkspaceLookup → Bool
is_entry origin_module origin_symbol ((m, s), l) = m == origin_module && s == origin_symbol

both : (a b c d : String) → (a == b && c == d) ≡ true → (a ≡ b) × (c ≡ d)
both a b c d h = elim (Bool-cases (a == b)) [
  | inl e ↦ ((eq_iff a b).0 e, (eq_iff c d).0 (rw e at h))
  | inr e ↦ absurd (cc (rw e at h))
]

module _ (decode : List ℕ → Option ModuleLookup) where
  unfoldable pub compute_with_key : Database → String → String → CrossWorkspaceLookup
  unfolding resolve_cross_workspace_import resolve_intra_workspace_import peer_workspace_for_module
  compute_with_key db origin_module origin_symbol =
      peers (resolve_cross_workspace_import decode db origin_module origin_symbol) (
        intra (resolve_intra_workspace_import decode db origin_module origin_symbol)
          (probe (peer_workspace_for_module db origin_module)))

  unfoldable pub compute : Database → String → String → CrossWorkspaceLookup
  unfolding compute_with_key normalize_crate_prefix_to_hyphen
  compute db origin_module origin_symbol =
      let normalized = normalize_crate_prefix_to_hyphen origin_module in
      known_or (compute_with_key db origin_module origin_symbol) (
        if normalized == origin_module
        then CrossWorkspaceLookup.unknown
        else compute_with_key db normalized origin_symbol)

  unfoldable pub resolve : Database → Cache → String → String → CrossWorkspaceLookup × Cache
  unfolding compute
  resolve db cache origin_module origin_symbol =
      elim (find (is_entry origin_module origin_symbol) cache) [
        | some entry ↦ (entry.1, cache)
        | none ↦
            let computed = compute db origin_module origin_symbol in
            (computed, ((origin_module, origin_symbol), computed) ∷ cache)
      ]

  -- The answers to some questions, one after the other.
  unfoldable pub resolve_all : Database → Cache → List (String × String) → List CrossWorkspaceLookup
  unfolding resolve
  resolve_all db cache [] = []
  resolve_all db cache ((m, s) ∷ questions) =
      let answered = resolve db cache m s in answered.0 ∷ resolve_all db answered.1 questions

  unfoldable pub compute_all : Database → List (String × String) → List CrossWorkspaceLookup
  compute_all db [] = []
  compute_all db ((m, s) ∷ questions) = compute db m s ∷ compute_all db questions

  -- Everything that is remembered is what would be computed.
  abbrev pub IsFresh : Database → Cache → Type 0
  IsFresh db cache =
      (m s : String) (l : CrossWorkspaceLookup) → In ((m, s), l) cache → l ≡ compute db m s

  resolve-cases :
      (db : Database) (cache : Cache) (m s : String)
      → IsFresh db cache
      → ((resolve db cache m s).0 ≡ compute db m s) × IsFresh db (resolve db cache m s).1
  unfolding resolve
  resolve-cases db cache m s fresh = elim (Option-cases (find (is_entry m s) cache)) [
    | inr (((m', s'), l), found) ↦
        let (held, tested) = find-some (is_entry m s) cache ((m', s'), l) found in
        let (same_module, same_symbol) = both m' m s' s tested in
        rw (resolve, found) (fresh m' s' l held ∙ ap₂ (compute db) same_module same_symbol, fresh)
    | inl missing ↦
        rw (resolve, missing)
          (
            refl,
            λ m' s' l held. elim held [
              | inr old ↦ fresh m' s' l old
              | inl e ↦
                  ap (λ (p : (String × String) × CrossWorkspaceLookup). p.1) e
                  ∙ ap₂ (compute db)
                      (inverse (ap (λ (p : (String × String) × CrossWorkspaceLookup). p.0.0) e))
                      (inverse (ap (λ (p : (String × String) × CrossWorkspaceLookup). p.0.1) e))
            ],
          )
  ]

  -- A resolver that remembers its answers gives to every sequence of questions the answers that it
  -- would compute, as long as the database is the same.
  pub resolve_all-compute_all :
      (db : Database) (cache : Cache) (questions : List (String × String))
      → IsFresh db cache
      → resolve_all db cache questions ≡ compute_all db questions
  unfolding resolve_all compute_all
  resolve_all-compute_all db cache [] fresh = refl
  resolve_all-compute_all db cache ((m, s) ∷ questions) fresh =
      let (same, fresh') = resolve-cases db cache m s fresh in
      ap₂ (λ x xs. x ∷ xs) same
        (resolve_all-compute_all db (resolve db cache m s).1 questions fresh')
