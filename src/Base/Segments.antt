-- ===== src/Base/Segments.antt =====
-- Texts cut at every `::`, and put together again.
use Prim.Native.Char.{Char, code}
use Prim.Native.String.{String, [], ◌∷◌}
use mathlib.Core.Path.{◌≡◌, refl, ap, ◌∙◌, sym}
use mathlib.Core.Logic.{inl, inr}
use mathlib.Core.Bool.{Bool, true, false, ◌&&◌}
use mathlib.Core.List.{List}
use native.Mathlib.Omega.{arith}
use text.Mathlib.TextEquality.{Char-path}
use standardoc.Base.Tests.{eqb, Bool-cases}
use standardoc.Base.Text.{append}

abbrev colon : Char
colon = ":"

abbrev is_colon : Char → Bool
is_colon c = eqb (code c) 58

-- The character goes in front of the first segment.
abbrev pub put_first : Char → List String → List String
put_first c List.[] = List.◌∷◌ (c ∷ []) List.[]
put_first c (List.◌∷◌ s ss) = List.◌∷◌ (c ∷ s) ss

-- `s.split("::")`
unfoldable pub segments : String → List String
segments [] = List.◌∷◌ "" List.[]
segments (c ∷ []) = List.◌∷◌ (c ∷ []) List.[]
segments (c ∷ d ∷ s) = elim (is_colon c && is_colon d) [
  | true ↦ List.◌∷◌ "" (segments s)
  | false ↦ put_first c (segments (d ∷ s))
]

-- `segments.join("::")`
unfoldable pub join : List String → String
join List.[] = ""
join (List.◌∷◌ s List.[]) = s
join (List.◌∷◌ s (List.◌∷◌ t ts)) = append s (append "::" (join (List.◌∷◌ t ts)))

-- There is always a segment.
pub segments-cases : (s : String) → (t : String) × (ts : List String) × (segments s ≡ List.◌∷◌ t ts)
unfolding segments
segments-cases [] = ("", List.[], refl)
segments-cases (c ∷ []) = (c ∷ [], List.[], refl)
segments-cases (c ∷ d ∷ s) = elim (Bool-cases (is_colon c && is_colon d)) [
  | inl cut ↦ ("", segments s, rw (segments, cut) refl)
  | inr whole ↦
      let (t, ts, e) = segments-cases (d ∷ s) in
      (c ∷ t, ts, rw (segments, whole) (ap (put_first c) e))
]

join-put_first :
    (c : Char) (t : String) (ts : List String)
    → join (put_first c (List.◌∷◌ t ts)) ≡ c ∷ join (List.◌∷◌ t ts)
unfolding join append
join-put_first c t List.[] = refl
join-put_first c t (List.◌∷◌ u us) = refl

colons :
    (c d : Char) → (is_colon c && is_colon d) ≡ true → (s : String) → colon ∷ colon ∷ s ≡ c ∷ d ∷ s
colons c d h s =
    let first : colon ≡ c = Char-path colon c (ground arith) in
    let second : colon ≡ d = Char-path colon d (ground arith) in
    ap (λ (x : Char). x ∷ colon ∷ s) first ∙ ap (λ (x : Char). c ∷ x ∷ s) second

pub join-segments : (s : String) → join (segments s) ≡ s
unfolding segments join append
join-segments [] = refl
join-segments (c ∷ []) = refl
join-segments (c ∷ d ∷ s) = elim (Bool-cases (is_colon c && is_colon d)) [
  | inl cut ↦
      let (t, ts, e) = segments-cases s in
      rw (segments, cut, e)
        (ap (λ (r : String). colon ∷ colon ∷ r) (ap join (sym e) ∙ join-segments s)
          ∙ colons c d cut s)
  | inr whole ↦
      let (t, ts, e) = segments-cases (d ∷ s) in
      rw (segments, whole, e)
        (join-put_first c t ts
          ∙ ap (λ (r : String). c ∷ r) (ap join (sym e) ∙ join-segments (d ∷ s)))
]
