-- ===== src/Base/Sort.antt =====
-- `ORDER BY`: a stable sort by insertion, and the order of texts.
use Prim.Native.Char.{code}
use Prim.Native.String.{String}
use Prim.Native.Nat.{suc}
use mathlib.Core.Path.{◌≡◌, refl, ap, ◌∙◌}
use mathlib.Core.Logic.{inl, inr, ◌⊎◌}
use mathlib.Core.Bool.{Bool, true, false, ◌&&◌, ◌||◌}
use mathlib.Core.List.{List, [], ◌∷◌}
use standardoc.Base.Tests.{if◌then◌else◌, ltb, eqb, Bool-cases}
use standardoc.Base.Lists.{In, length}

-- Texts compare by their code points.
unfoldable pub text_leb : String → String → Bool
text_leb String.[] t = true
text_leb (String.◌∷◌ c s) String.[] = false
text_leb (String.◌∷◌ c s) (String.◌∷◌ d t) =
    ltb (code c) (code d) || (eqb (code c) (code d) && text_leb s t)

module _ {A : Type 0} (le : A → A → Bool) where
  unfoldable pub insert_sorted : A → List A → List A
  insert_sorted x [] = x ∷ []
  insert_sorted x (y ∷ ys) =
      let rest = insert_sorted x ys in if le x y then x ∷ y ∷ ys else y ∷ rest

  unfoldable pub sort_by : List A → List A
  unfolding insert_sorted
  sort_by [] = []
  sort_by (x ∷ xs) = insert_sorted x (sort_by xs)

  In-insert_sorted : (a x : A) (xs : List A) → In a (insert_sorted x xs) → (a ≡ x) ⊎ In a xs
  unfolding insert_sorted
  In-insert_sorted a x [] h = h
  In-insert_sorted a x (y ∷ ys) h = elim (Bool-cases (le x y)) [
    | inl first ↦ (rw (insert_sorted, first) at h)
    | inr later ↦ elim (rw (insert_sorted, later) at h) [
      | inl e ↦ inr (inl e)
      | inr rest ↦ elim (In-insert_sorted a x ys rest) [ inl e ↦ inl e | inr k ↦ inr (inr k) ]
    ]
  ]

  In-insert_sorted_of : (a x : A) (xs : List A) → (a ≡ x) ⊎ In a xs → In a (insert_sorted x xs)
  unfolding insert_sorted
  In-insert_sorted_of a x [] h = h
  In-insert_sorted_of a x (y ∷ ys) h = elim (Bool-cases (le x y)) [
    | inl first ↦ rw (insert_sorted, first) h
    | inr later ↦
        rw (insert_sorted, later)
          (elim h [
            | inl e ↦ inr (In-insert_sorted_of a x ys (inl e))
            | inr k ↦ elim k [ inl e ↦ inl e | inr k' ↦ inr (In-insert_sorted_of a x ys (inr k')) ]
          ])
  ]

  pub In-sort_by : (a : A) (xs : List A) → In a (sort_by xs) → In a xs
  unfolding sort_by
  In-sort_by a [] h = h
  In-sort_by a (x ∷ xs) h = elim (In-insert_sorted a x (sort_by xs) h) [
    | inl e ↦ inl e
    | inr k ↦ inr (In-sort_by a xs k)
  ]

  pub In-sort_by_of : (a : A) (xs : List A) → In a xs → In a (sort_by xs)
  unfolding sort_by
  In-sort_by_of a [] h = h
  In-sort_by_of a (x ∷ xs) h =
      In-insert_sorted_of a x (sort_by xs)
        (elim h [ inl e ↦ inl e | inr k ↦ inr (In-sort_by_of a xs k) ])

  length-insert_sorted : (x : A) (xs : List A) → length (insert_sorted x xs) ≡ suc (length xs)
  unfolding insert_sorted
  length-insert_sorted x [] = refl
  length-insert_sorted x (y ∷ ys) = elim (Bool-cases (le x y)) [
    | inl first ↦ rw (insert_sorted, first) refl
    | inr later ↦ rw (insert_sorted, later) (ap suc (length-insert_sorted x ys))
  ]

  pub length-sort_by : (xs : List A) → length (sort_by xs) ≡ length xs
  unfolding sort_by
  length-sort_by [] = refl
  length-sort_by (x ∷ xs) = length-insert_sorted x (sort_by xs) ∙ ap suc (length-sort_by xs)
