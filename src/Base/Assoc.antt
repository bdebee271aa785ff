-- ===== src/Base/Assoc.antt =====
-- `HashMap<String, V>` as an association list. The program never depends on the order in which
-- such a map is walked.
use Prim.Native.String.{String}
use mathlib.Core.Path.{◌≡◌, refl}
use mathlib.Core.Option.{Option, none, some}
use mathlib.Core.List.{List, [], ◌∷◌}
use native.Mathlib.Omega.{arith}
use text.Mathlib.Text.{◌==◌}
use text.Mathlib.TextEquality.{eq_iff}
use text.Mathlib.TextPositions.{eq_refl}
use standardoc.Base.Tests.{if◌then◌else◌}

module _ {ℓ} {V : Type ℓ} where
  -- `m.get(key)`
  unfoldable pub get : List (String × V) → String → Option V
  get [] key = none
  get ((k, v) ∷ m) key = let rest = get m key in if k == key then some v else rest

  -- `m.insert(key, v)`: the old value, if there is one, is replaced.
  unfoldable pub insert : List (String × V) → String → V → List (String × V)
  insert [] key v = (key, v) ∷ []
  insert ((k, w) ∷ m) key v =
      let rest = insert m key v in if k == key then (key, v) ∷ m else (k, w) ∷ rest

  pub get-insert :
      (m : List (String × V)) (key other : String) (v : V)
      → get (insert m key v) other ≡ (if key == other then some v else get m other)
  unfolding get insert
  get-insert [] key other v = refl
  get-insert ((k, w) ∷ m) key other v =
      ground (arith, eq_iff key other, eq_iff k key, eq_iff k other, get-insert m key other v)

  pub get-insert_self :
      (m : List (String × V)) (key : String) (v : V) → get (insert m key v) key ≡ some v
  get-insert_self m key v = simp (get-insert, eq_refl)
