-- ===== src/Ir/Lookup/Scopes.antt =====
-- The scope tree of a module lookup: the invariant that the pre-passes keep, and the spans.
use standardoc.Base.{
  ℕ, zero, suc, ◌%◌, ◌<◌, ◌≡◌, refl, ap, String, ◌&&◌, ◌⊎◌, inl, inr, ◌∙◌, Bool, true, false,
  Option, none, some, List, [], ◌∷◌, ◌++◌, All, length, length-append, get_elem?,
  get_elem?-append_lt, get_elem?-append_length, eqb, if◌then◌else◌, Bool-cases, arith,
}
use standardoc.Ir.Kinds.{Language}
use standardoc.Ir.Lookup.{
  ScopeRange, ModuleLookup, u32_modulus, new, push_scope, insert_span, get_span,
  push_scope_with_span, scope_idx_for_span, parent_of,
}

-- A parent stands before its child, and every recorded span names a scope.
pub record IsWellFormed (l : ModuleLookup) : Type 0 where
  pub rooted : 0 < length l.scopes
  pub ordered : (i p : ℕ) → parent_of l.scopes i ≡ some p → p < i
  pub spans : All (λ (s : ℕ × ℕ × ℕ). s.2 < length l.scopes) l.span_to_scope

pub new-IsWellFormed :
    (epoch_ms : ℕ) (fqdn : String) (lang : Language) → IsWellFormed (new epoch_ms fqdn lang)
unfolding new
new-IsWellFormed epoch_ms fqdn lang = record {
  rooted = omega arith;
  ordered = λ i p. no_parent i p;
  spans = tt;
}
  where
    no_parent : (i p : ℕ) → parent_of (new epoch_ms fqdn lang).scopes i ≡ some p → p < i
    no_parent zero p h = absurd (cc)
    no_parent (suc i) p h = absurd (cc)

pub parent_of-append_lt :
    (xs : List ScopeRange) (r : ScopeRange) (i : ℕ)
    → i < length xs
    → parent_of (xs ++ r ∷ []) i ≡ parent_of xs i
parent_of-append_lt xs r i h = rw (get_elem?-append_lt xs (r ∷ []) i h, parent_of)

parent_of-append_ge :
    (xs : List ScopeRange) (r : ScopeRange) (i p : ℕ)
    → parent_of (xs ++ r ∷ []) i ≡ some p
    → (parent_of xs i ≡ some p) ⊎ ((i ≡ length xs) × (r.parent ≡ some p))
parent_of-append_ge [] r zero p h = inr (refl, h)
parent_of-append_ge [] r (suc i) p h = inl h
parent_of-append_ge (x ∷ xs) r zero p h = inl h
parent_of-append_ge (x ∷ xs) r (suc i) p h = elim (parent_of-append_ge xs r i p h) [
  | inl old ↦ inl old
  | inr (e, new_parent) ↦ inr (ap suc e, new_parent)
]

All-lt_weaken :
    (m : List (ℕ × ℕ × ℕ)) (n k : ℕ)
    → n < suc k
    → All (λ (s : ℕ × ℕ × ℕ). s.2 < n) m
    → All (λ (s : ℕ × ℕ × ℕ). s.2 < k) m
All-lt_weaken [] n k h a = tt
All-lt_weaken (s ∷ m) n k h (x, a) = (omega arith, All-lt_weaken m n k h a)

push_scope-ordered :
    (l : ModuleLookup) (range : ScopeRange)
    → IsWellFormed l
    → ((p : ℕ) → range.parent ≡ some p → p < length l.scopes)
    → (i p : ℕ) → parent_of (l.scopes ++ range ∷ []) i ≡ some p
    → p < i
push_scope-ordered l range w inside i p h = elim (parent_of-append_ge l.scopes range i p h) [
  | inl old ↦ w.ordered i p old
  | inr (at_end, new_parent) ↦ omega (arith, inside p new_parent)
]

pub push_scope-IsWellFormed :
    (l : ModuleLookup) (range : ScopeRange)
    → IsWellFormed l
    → ((p : ℕ) → range.parent ≡ some p → p < length l.scopes)
    → IsWellFormed (push_scope l range).0
unfolding push_scope
push_scope-IsWellFormed l range w inside = record {
  rooted = omega (arith, length-append l.scopes (range ∷ []));
  ordered = push_scope-ordered l range w inside;
  spans =
      All-lt_weaken l.span_to_scope (length l.scopes) (length (l.scopes ++ range ∷ []))
        (omega (arith, length-append l.scopes (range ∷ []))) w.spans;
}

-- The returned index is that of the scope pushed, as long as the arena fits in 32 bits.
pub push_scope-get :
    (l : ModuleLookup) (range : ScopeRange)
    → length l.scopes < u32_modulus
    → ((push_scope l range).1 ≡ length l.scopes)
      × (get_elem? (push_scope l range).0.scopes (push_scope l range).1 ≡ some range)
unfolding push_scope
push_scope-get l range h =
    let same : (push_scope l range).1 ≡ length l.scopes = omega arith in
    (same, rw same (get_elem?-append_length l.scopes range []))

pub get_span-insert_span :
    (m : List (ℕ × ℕ × ℕ)) (lo hi idx a b : ℕ)
    → get_span (insert_span m lo hi idx) a b
      ≡ (if eqb lo a && eqb hi b then some idx else get_span m a b)
unfolding get_span insert_span
get_span-insert_span [] lo hi idx a b = ground arith
get_span-insert_span ((c, d, i) ∷ m) lo hi idx a b =
    ground (arith, get_span-insert_span m lo hi idx a b)

All-insert_span :
    (m : List (ℕ × ℕ × ℕ)) (lo hi idx n : ℕ)
    → idx < n
    → All (λ (s : ℕ × ℕ × ℕ). s.2 < n) m
    → All (λ (s : ℕ × ℕ × ℕ). s.2 < n) (insert_span m lo hi idx)
unfolding insert_span
All-insert_span [] lo hi idx n h a = (h, tt)
All-insert_span ((c, d, i) ∷ m) lo hi idx n h a =
    ground (arith, All-insert_span m lo hi idx n h a.1)

-- Pushing a scope with its span keeps the table of scopes well formed, if the scope's parent is
-- there and the table has fewer scopes than a 32-bit index can count.
pub push_scope_with_span-IsWellFormed :
    (l : ModuleLookup) (range : ScopeRange) (lo hi : ℕ)
    → IsWellFormed l
    → length l.scopes < u32_modulus
    → ((p : ℕ) → range.parent ≡ some p → p < length l.scopes)
    → IsWellFormed (push_scope_with_span l range lo hi).0
unfolding push_scope_with_span
push_scope_with_span-IsWellFormed l range lo hi w small inside =
    let pushed = push_scope-IsWellFormed l range w inside in
    record {
      rooted = pushed.rooted;
      ordered = pushed.ordered;
      spans =
          All-insert_span l.span_to_scope lo hi (length l.scopes % u32_modulus)
            (length (l.scopes ++ range ∷ [])) (omega (arith, length-append l.scopes (range ∷ [])))
            pushed.spans;
    }

abbrev pub scope_at : List ScopeRange → Option ℕ → Option ScopeRange
scope_at scopes none = none
scope_at scopes (some idx) = get_elem? scopes idx

-- The scope that a span stands for.
abbrev pub scope_of_span : ModuleLookup → ℕ → ℕ → Option ScopeRange
scope_of_span l lo hi = scope_at l.scopes (scope_idx_for_span l lo hi)

scope_at-append :
    (scopes : List ScopeRange) (range : ScopeRange) (old : Option ℕ) (hit : Bool) (idx : ℕ)
    → idx ≡ length scopes
    → ((i : ℕ) → old ≡ some i → i < length scopes)
    → scope_at (scopes ++ range ∷ []) (if hit then some idx else old)
      ≡ (if hit then some range else scope_at scopes old)
scope_at-append scopes range old true idx next inside =
    ap (get_elem? (scopes ++ range ∷ [])) next ∙ get_elem?-append_length scopes range []
scope_at-append scopes range none false idx next inside = refl
scope_at-append scopes range (some i) false idx next inside =
    get_elem?-append_lt scopes (range ∷ []) i (inside i refl)

get_span-lt :
    (m : List (ℕ × ℕ × ℕ)) (n a b i : ℕ)
    → All (λ (s : ℕ × ℕ × ℕ). s.2 < n) m
    → get_span m a b ≡ some i
    → i < n
unfolding get_span
get_span-lt [] n a b i all h = absurd (cc)
get_span-lt ((c, d, j) ∷ m) n a b i all h = elim (Bool-cases (eqb c a && eqb d b)) [
  | inl hit ↦
      let same : some j ≡ some i = rw hit at h in
      let same' : j ≡ i = cc same in omega (arith, all.0)
  | inr miss ↦ get_span-lt m n a b i all.1 (rw miss at h)
]

-- In a well-formed table with fewer scopes than a 32-bit index can count, a scope that is pushed with
-- its span gets the next index and stands there; its span then stands for it, and every other span
-- for the scope that it stood for before.
pub scope_idx_for_span-push_scope_with_span :
    (l : ModuleLookup) (range : ScopeRange) (lo hi : ℕ)
    → IsWellFormed l
    → length l.scopes < u32_modulus
    → ((push_scope_with_span l range lo hi).1 ≡ length l.scopes)
      × (get_elem? (push_scope_with_span l range lo hi).0.scopes (length l.scopes) ≡ some range)
      × ((a b : ℕ)
          → scope_of_span (push_scope_with_span l range lo hi).0 a b
            ≡ (if eqb lo a && eqb hi b then some range else scope_of_span l a b))
unfolding scope_idx_for_span push_scope_with_span push_scope
scope_idx_for_span-push_scope_with_span l range lo hi w small =
    let next : length l.scopes % u32_modulus ≡ length l.scopes = omega arith in
    (
      next,
      get_elem?-append_length l.scopes range [],
      λ a b.
          ap (scope_at (l.scopes ++ range ∷ []))
            (get_span-insert_span l.span_to_scope lo hi (length l.scopes % u32_modulus) a b)
          ∙ scope_at-append l.scopes range (get_span l.span_to_scope a b) (eqb lo a && eqb hi b)
              (length l.scopes % u32_modulus) next
              (λ i. get_span-lt l.span_to_scope (length l.scopes) a b i w.spans),
    )
