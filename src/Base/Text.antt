-- ===== src/Base/Text.antt =====
-- Text that the program builds, compares and cuts, over `String`'s own constructors, so that it
-- computes at a known beginning with an unknown rest.

use Prim.Native.Char.{Char, code}
use Prim.Native.String.{String, [], ◌∷◌}
use mathlib.Core.Path.{◌≡◌, refl, ap, ap₂, sym, ◌∙◌}
use mathlib.Core.Logic.{inl, inr}
use mathlib.Core.Bool.{Bool, true, false, ◌&&◌}
use mathlib.Core.Option
use mathlib.Core.Option.{Option, none, some}
use mathlib.Core.List.{List}
use native.Mathlib.Omega.{arith}
use text.Mathlib.TextEquality.{Char-path}
use standardoc.Base.Tests.{eqb, if◌then◌else◌, Bool-cases}
use standardoc.Base.Lists.{All}

-- `a == b`
unfoldable pub text_eq : String → String → Bool
text_eq [] [] = true
text_eq [] (d ∷ t) = false
text_eq (c ∷ s) [] = false
text_eq (c ∷ s) (d ∷ t) = eqb (code c) (code d) && text_eq s t

pub eq_of_text_eq : (s t : String) → text_eq s t ≡ true → s ≡ t
unfolding text_eq
eq_of_text_eq [] [] h = refl
eq_of_text_eq [] (d ∷ t) h = absurd (cc)
eq_of_text_eq (c ∷ s) [] h = absurd (cc)
eq_of_text_eq (c ∷ s) (d ∷ t) h =
    ap₂ ◌∷◌ (Char-path c d (ground arith)) (eq_of_text_eq s t (ground arith))

pub text_eq_refl : (s : String) → text_eq s s ≡ true
unfolding text_eq
text_eq_refl [] = refl
text_eq_refl (c ∷ s) = ground (arith, text_eq_refl s)

-- `format!("{a}{b}")`
unfoldable pub append : String → String → String
append [] t = t
append (c ∷ s) t = c ∷ append s t

pub append_assoc : (s t u : String) → append (append s t) u ≡ append s (append t u)
unfolding append
append_assoc [] t u = refl
append_assoc (c ∷ s) t u = ap (λ (r : String). c ∷ r) (append_assoc s t u)

-- `s.strip_prefix(prefix)`
unfoldable pub strip_prefix : String → String → Option String
strip_prefix [] s = some s
strip_prefix (c ∷ p) [] = none
strip_prefix (c ∷ p) (d ∷ s) =
    let rest = strip_prefix p s in if eqb (code c) (code d) then rest else none

pub append_of_strip_prefix : (p s r : String) → strip_prefix p s ≡ some r → append p r ≡ s
unfolding append strip_prefix
append_of_strip_prefix [] s r h = ground arith
append_of_strip_prefix (c ∷ p) [] r h = absurd (cc)
append_of_strip_prefix (c ∷ p) (d ∷ s) r h =
    ap₂ ◌∷◌ (Char-path c d (ground arith)) (append_of_strip_prefix p s r (ground arith))

-- `s.split_once(sep)`: the parts before and behind the first `sep`.
unfoldable pub split_once : Char → String → Option (String × String)
split_once sep [] = none
split_once sep (c ∷ s) =
    let rest = split_once sep s in
    if eqb (code c) (code sep)
    then some ("", s)
    else Option.map (λ (p : String × String). (c ∷ p.0, p.1)) rest

pub append_of_split_once :
    (sep : Char) (s a b : String) → split_once sep s ≡ some (a, b) → append a (sep ∷ b) ≡ s
unfolding append split_once
append_of_split_once sep [] a b h = absurd (cc)
append_of_split_once sep (c ∷ s) a b h = elim (Bool-cases (eqb (code c) (code sep))) [
  | inl e ↦
      let ea : a ≡ "" = ground arith in
      let eb : b ≡ s = ground arith in
      let same : sep ≡ c = Char-path sep c (ground arith) in
      rw (ea, eb) (ap (λ (d : Char). d ∷ s) same)
  | inr e ↦
      let mapped : Option.map (λ (p : String × String). (c ∷ p.0, p.1)) (split_once sep s)
          ≡ some (a, b) =
        ground arith in
      let ((a', b'), cut, same) = (Option.map-eq-some_iff _ _).0 mapped in
      let ea : c ∷ a' ≡ a = ap (λ (p : String × String). p.0) same in
      let eb : b' ≡ b = ap (λ (p : String × String). p.1) same in
      rw (← ea, ← eb) (ap (λ (r : String). c ∷ r) (append_of_split_once sep s a' b' cut))
]

-- `match s { "a" => x, … }`: the variant of the first arm whose text is `s`.
module _ {A : Type 0} where
  unfoldable pub match_text : List (String × A) → String → Option A
  match_text List.[] s = none
  match_text (List.◌∷◌ (t, a) arms) s =
      let rest = match_text arms s in if text_eq s t then some a else rest

  -- Every arm writes its variant the way `encode` does.
  pub encode_of_match_text :
      (encode : A → String) (arms : List (String × A)) (s : String) (a : A)
      → All (λ (arm : String × A). encode arm.1 ≡ arm.0) arms
      → match_text arms s ≡ some a
      → encode a ≡ s
  unfolding match_text
  encode_of_match_text encode List.[] s a all h = absurd (cc)
  encode_of_match_text encode (List.◌∷◌ (t, b) arms) s a (first, rest) h =
      elim (Bool-cases (text_eq s t)) [
        | inl e ↦
            let same : b ≡ a = ground arith in
            ap encode (sym same) ∙ first ∙ sym (eq_of_text_eq s t e)
        | inr e ↦ encode_of_match_text encode arms s a rest (ground arith)
      ]
