-- ===== src/Ir/Hash.antt =====
-- crates/standardoc-ir/src/hash.rs: a hash, kept as the 64 hexadecimal digits of `to_hex`.
use Prim.Native.Char.{Char, code}
use standardoc.Base.{
  String, ℕ, suc, ◌≡◌, refl, ap, sym as inverse, subst, ◌∙◌, Bool, true, false, ◌&&◌, ◌||◌, Option,
  none, some, leb, eqb, inl, inr, if◌then◌else◌, Option-cases, Bool-cases,
}

abbrev pub Blake3Hash : Type 0
Blake3Hash = String

-- The digit that `to_hex` writes for the nibble of a character, `char_to_nibble` then
-- `nibble_to_char`.
abbrev pub is_lower_digit : ℕ → Bool
is_lower_digit c = leb b'0' c && leb c b'9' || leb b'a' c && leb c b'f'

unfoldable pub upper_digit : ℕ → Option Char
upper_digit c =
    if eqb c b'A'
    then some "a"
    else if eqb c b'B'
    then some "b"
    else if eqb c b'C'
    then some "c"
    else if eqb c b'D'
    then some "d"
    else if eqb c b'E'
    then some "e"
    else if eqb c b'F'
    then some "f"
    else none

unfoldable pub hex_digit : Char → Option Char
unfolding upper_digit
hex_digit c = if is_lower_digit (code c) then some c else upper_digit (code c)

abbrev pub push_digit : Option Char → Option String → Option String
push_digit none t = none
push_digit (some c) none = none
push_digit (some c) (some t) = some (String.◌∷◌ c t)

-- The digits of a text, or none if a character is no digit.
unfoldable pub hex_digits : String → Option String
unfolding hex_digit
hex_digits String.[] = some String.[]
hex_digits (String.◌∷◌ c s) = push_digit (hex_digit c) (hex_digits s)

abbrev pub text_length : String → ℕ
text_length String.[] = 0
text_length (String.◌∷◌ c s) = suc (text_length s)

-- `Blake3Hash::from_hex`. Both errors are `none`. A text of 64 bytes that are not all ASCII has a
-- character that is no digit, so that characters can be counted here.
unfoldable pub from_hex : String → Option Blake3Hash
unfolding hex_digits
from_hex s = if eqb (text_length s) 64 then hex_digits s else none

-- The digits that are written are read as themselves.
lower_of_if :
    (b : Bool) (x d : Char) (rest : Option Char)
    → is_lower_digit (code x) ≡ true
    → (rest ≡ some d → is_lower_digit (code d) ≡ true)
    → (if b then some x else rest) ≡ some d
    → is_lower_digit (code d) ≡ true
lower_of_if true x d rest lower later h =
    let same : x ≡ d = cc h in ap (λ (y : Char). is_lower_digit (code y)) (inverse same) ∙ lower
lower_of_if false x d rest lower later h = later h

upper_digit-lower : (n : ℕ) (d : Char) → upper_digit n ≡ some d → is_lower_digit (code d) ≡ true
unfolding upper_digit
upper_digit-lower n d = lower_of_if (eqb n b'A') "a" d _ refl (
    lower_of_if (eqb n b'B') "b" d _ refl (
      lower_of_if (eqb n b'C') "c" d _ refl (
        lower_of_if (eqb n b'D') "d" d _ refl (
          lower_of_if (eqb n b'E') "e" d _ refl
            (lower_of_if (eqb n b'F') "f" d _ refl (λ h. absurd (cc h)))))))

hex_digit-lower : (c d : Char) → hex_digit c ≡ some d → is_lower_digit (code d) ≡ true
unfolding hex_digit
hex_digit-lower c d h = elim (Bool-cases (is_lower_digit (code c))) [
  | inl e ↦
      let same : c ≡ d = cc (rw (hex_digit, e) at h) in
      ap (λ (x : Char). is_lower_digit (code x)) (inverse same) ∙ e
  | inr e ↦ upper_digit-lower (code c) d (rw (hex_digit, e) at h)
]

hex_digit_idem : (c d : Char) → hex_digit c ≡ some d → hex_digit d ≡ some d
unfolding hex_digit
hex_digit_idem c d h = rw (hex_digit, hex_digit-lower c d h) refl

hex_digits_idem :
    (s t : String)
    → hex_digits s ≡ some t
    → (hex_digits t ≡ some t) × (text_length t ≡ text_length s)
unfolding hex_digits
hex_digits_idem String.[] t h =
    let same : String.[] ≡ t = cc in
    (subst (λ u. hex_digits u ≡ some u) same refl, ap text_length (inverse same))
hex_digits_idem (String.◌∷◌ c s) t h = elim (Option-cases (hex_digit c)) [
  | inl e ↦ absurd (cc (rw (hex_digits, e) at h))
  | inr (d, e) ↦ elim (Option-cases (hex_digits s)) [
    | inl f ↦ absurd (cc (rw (hex_digits, e, f) at h))
    | inr (u, f) ↦
        let (again, long) = hex_digits_idem s u f in
        let same : String.◌∷◌ d u ≡ t = cc (rw (hex_digits, e, f) at h) in
        subst (λ v. (hex_digits v ≡ some v) × (text_length v ≡ suc (text_length s))) same
          (rw (hex_digits, hex_digit_idem c d e, again) refl, ap suc long)
  ]
]

-- A hash that was read is written and read as itself.
pub from_hex_idem : (s t : String) → from_hex s ≡ some t → from_hex t ≡ some t
unfolding from_hex
from_hex_idem s t h = elim (Bool-cases (eqb (text_length s) 64)) [
  | inr e ↦ absurd (cc (rw (from_hex, e) at h))
  | inl e ↦
      let (again, long) = hex_digits_idem s t (rw (from_hex, e) at h) in
      rw (from_hex, long, e) again
]
