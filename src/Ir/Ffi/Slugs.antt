-- ===== src/Ir/Ffi/Slugs.antt =====
-- The slugs of foreign-function bindings, which are stored as they are.
use standardoc.Base.{
  String, ◌≡◌, ◌≢◌, refl, sym as inverse, ap, ◌∙◌, subst, inl, inr, some, List, [], ◌∷◌, All, arith,
  Bool-cases, Option-cases,
}
use standardoc.Base.Text.{match_text, text_eq, encode_of_match_text}
use standardoc.Ir.Ffi.{
  FfiAbi, abi_as_slug, abi_arms, abi_from_slug, FfiDirection, direction_as_slug, direction_arms,
  direction_from_slug,
}

abi-as_slug-from_slug : (s : String) → abi_as_slug (abi_from_slug s) ≡ s
unfolding abi_from_slug abi_as_slug
abi-as_slug-from_slug s = elim (Option-cases (match_text abi_arms s)) [
  | inl e ↦ rw (abi_from_slug, e) refl
  | inr (abi, e) ↦
      rw (abi_from_slug, e)
        (encode_of_match_text abi_as_slug abi_arms s abi
          (refl, (refl, (refl, (refl, (refl, (refl, tt)))))) e)
]

direction-as_slug-from_slug :
    (s : String) (d : FfiDirection) → direction_from_slug s ≡ some d → direction_as_slug d ≡ s
unfolding direction_from_slug direction_as_slug
direction-as_slug-from_slug s d =
    encode_of_match_text direction_as_slug direction_arms s d (refl, (refl, tt))

direction-from_slug-as_slug :
    (d : FfiDirection) → direction_from_slug (direction_as_slug d) ≡ some d
unfolding direction_from_slug direction_as_slug text_eq
direction-from_slug-as_slug FfiDirection.export_side = refl
direction-from_slug-as_slug FfiDirection.import_side = refl

-- The variants with a slug of their own.
abbrev pub IsKnown : FfiAbi → Type 0
IsKnown FfiAbi.c = Unit
IsKnown FfiAbi.system = Unit
IsKnown FfiAbi.stdcall = Unit
IsKnown FfiAbi.lua = Unit
IsKnown FfiAbi.jni = Unit
IsKnown FfiAbi.python_c_api = Unit
IsKnown (FfiAbi.other s) = ⊥

-- No free text is the slug of a known variant.
abbrev pub IsCanonical : FfiAbi → Type 0
IsCanonical abi = (s : String) → abi ≡ FfiAbi.other s → (b : FfiAbi) → IsKnown b → abi_as_slug b ≢ s

match_text-IsKnown :
    (arms : List (String × FfiAbi)) (s : String) (abi : FfiAbi)
    → All (λ (arm : String × FfiAbi). IsKnown arm.1) arms
    → match_text arms s ≡ some abi
    → IsKnown abi
unfolding match_text
match_text-IsKnown [] s abi all h = absurd (cc)
match_text-IsKnown ((t, b) ∷ arms) s abi all h = elim (Bool-cases (text_eq s t)) [
  | inl e ↦ let same : b ≡ abi = ground arith in subst IsKnown same all.0
  | inr e ↦ match_text-IsKnown arms s abi all.1 (ground arith)
]

abi-from_slug-IsKnown : (b : FfiAbi) → IsKnown b → abi_from_slug (abi_as_slug b) ≡ b
unfolding abi_from_slug abi_as_slug text_eq
abi-from_slug-IsKnown FfiAbi.c known = refl
abi-from_slug-IsKnown FfiAbi.system known = refl
abi-from_slug-IsKnown FfiAbi.stdcall known = refl
abi-from_slug-IsKnown FfiAbi.lua known = refl
abi-from_slug-IsKnown FfiAbi.jni known = refl
abi-from_slug-IsKnown FfiAbi.python_c_api known = refl
abi-from_slug-IsKnown (FfiAbi.other s) known = absurd known

as_slug-other : (t : String) → abi_as_slug (FfiAbi.other t) ≡ t
unfolding abi_as_slug
as_slug-other t = refl

abi-from_slug-IsCanonical : (s : String) → IsCanonical (abi_from_slug s)
abi-from_slug-IsCanonical s t free b known same =
    let written : s ≡ t =
      inverse (abi-as_slug-from_slug s) ∙ ap abi_as_slug free ∙ as_slug-other t in
    subst IsKnown
      (inverse (abi-from_slug-IsKnown b known) ∙ ap abi_from_slug (same ∙ inverse written) ∙ free)
      known

abi-from_slug-as_slug : (a : FfiAbi) → IsCanonical a → abi_from_slug (abi_as_slug a) ≡ a
unfolding abi_from_slug abi_as_slug
abi-from_slug-as_slug (FfiAbi.other s) canonical = elim (Option-cases (match_text abi_arms s)) [
  | inl e ↦ rw (abi_from_slug, e) refl
  | inr (b, e) ↦ absurd (
      canonical s refl b (match_text-IsKnown abi_arms s b (tt, (tt, (tt, (tt, (tt, (tt, tt)))))) e)
        (encode_of_match_text abi_as_slug abi_arms s b
          (refl, (refl, (refl, (refl, (refl, (refl, tt)))))) e))
]
abi-from_slug-as_slug FfiAbi.c canonical = abi-from_slug-IsKnown FfiAbi.c tt
abi-from_slug-as_slug FfiAbi.system canonical = abi-from_slug-IsKnown FfiAbi.system tt
abi-from_slug-as_slug FfiAbi.stdcall canonical = abi-from_slug-IsKnown FfiAbi.stdcall tt
abi-from_slug-as_slug FfiAbi.lua canonical = abi-from_slug-IsKnown FfiAbi.lua tt
abi-from_slug-as_slug FfiAbi.jni canonical = abi-from_slug-IsKnown FfiAbi.jni tt
abi-from_slug-as_slug FfiAbi.python_c_api canonical = abi-from_slug-IsKnown FfiAbi.python_c_api tt

-- Binary interfaces and directions are read back as they were written, and written back as they were
-- read. A binary interface is read back as itself if it is not a free text that is the slug of a known
-- one, and none that is read is such a text; a direction always is, and a slug that is read as a
-- direction is the one that it is written as.
pub slugs_round_trip :
    ((a : FfiAbi) → IsCanonical a → abi_from_slug (abi_as_slug a) ≡ a)
    × ((s : String) → IsCanonical (abi_from_slug s) × (abi_as_slug (abi_from_slug s) ≡ s))
    × ((d : FfiDirection) → direction_from_slug (direction_as_slug d) ≡ some d)
    × ((s : String) (d : FfiDirection) → direction_from_slug s ≡ some d → direction_as_slug d ≡ s)
slugs_round_trip = (
  abi-from_slug-as_slug,
  λ s. (abi-from_slug-IsCanonical s, abi-as_slug-from_slug s),
  direction-from_slug-as_slug,
  direction-as_slug-from_slug,
)
