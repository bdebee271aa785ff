-- ===== src/Base/Search.antt =====
-- What a search or a filter over a list returns.
use mathlib.Core.Path.{◌≡◌, refl, subst}
use mathlib.Core.Logic.{inl, inr}
use mathlib.Core.Bool.{Bool, true, false}
use mathlib.Core.Option.{none, some}
use mathlib.Core.List.{List, [], ◌∷◌, ◌++◌}
use native.Mathlib.Omega.{arith}
use standardoc.Base.Tests.{if◌then◌else◌}
use standardoc.Base.Lists.{In, In-append_left, In-append_right, In-append_cases, find_last, keep_if}

module _ {A : Type 0} (p : A → Bool) where
  pub find_last-some : (xs : List A) (a : A) → find_last p xs ≡ some a → In a xs × (p a ≡ true)
  find_last-some [] a h = absurd (cc)
  find_last-some (x ∷ xs) a h = ground (arith, find_last-some xs a)

  pub find_last-none : (xs : List A) (a : A) → find_last p xs ≡ none → In a xs → p a ≡ false
  find_last-none [] a h i = absurd i
  find_last-none (x ∷ xs) a h i = ground (arith, find_last-none xs a)

  pub find_last-append :
      (xs : List A) (y : A) → find_last p (xs ++ y ∷ []) ≡ (if p y then some y else find_last p xs)
  find_last-append [] y = refl
  find_last-append (x ∷ xs) y = ground (arith, find_last-append xs y)

  pub keep_if_sound : (xs : List A) (a : A) → In a (keep_if p xs) → In a xs × (p a ≡ true)
  keep_if_sound [] a h = absurd h
  keep_if_sound (x ∷ xs) a h = ground (arith, keep_if_sound xs a)

  pub keep_if_complete : (xs : List A) (a : A) → In a xs → p a ≡ true → In a (keep_if p xs)
  keep_if_complete [] a h e = absurd h
  keep_if_complete (x ∷ xs) a h e = ground (arith, keep_if_complete xs a)

module _ {A B : Type 0} (f : A → List B) where
  abbrev pub concat_map : List A → List B
  concat_map [] = []
  concat_map (x ∷ xs) = f x ++ concat_map xs

  pub In-concat_map : (b : B) (xs : List A) → In b (concat_map xs) → (x : A) × In x xs × In b (f x)
  In-concat_map b [] h = absurd h
  In-concat_map b (x ∷ xs) h = elim (In-append_cases b (f x) (concat_map xs) h) [
    | inl here ↦ (x, inl refl, here)
    | inr later ↦ let (y, held, there) = In-concat_map b xs later in (y, inr held, there)
  ]

  pub In-concat_map_of : (b : B) (x : A) (xs : List A) → In x xs → In b (f x) → In b (concat_map xs)
  In-concat_map_of b x [] h k = absurd h
  In-concat_map_of b x (y ∷ xs) (inl e) k =
      In-append_left b (f y) (concat_map xs) (subst (λ z. In b (f z)) e k)
  In-concat_map_of b x (y ∷ xs) (inr h) k =
      In-append_right b (f y) (concat_map xs) (In-concat_map_of b x xs h k)
