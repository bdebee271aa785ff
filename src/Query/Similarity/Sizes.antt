-- ===== src/Query/Similarity/Sizes.antt =====
-- The counts of the quotient of two token lists, as sizes of sets.
use standardoc.Base.{
  String, ℕ, ◌≡◌, ◌≢◌, refl, sym as inverse, ap₂, Bool, true, not, List, [], ◌∷◌, length, ◌≤◌, ◌<◌,
  keep_if, keep_if_sound, keep_if_complete, arith, In, inl, inr, Bool-cases, subst, ◌==◌, ◌↔◌, ◌⊎◌,
  ◌∙◌, ◌++◌, In-append_cases, In-append_left, In-append_right, length-append, eq_iff,
}
use standardoc.Query.Graph.{has_text}
use standardoc.Query.Graph.Edges.{has_text_iff, has_text-of}
use standardoc.Query.Similarity.Sets.{In-distinct}
use standardoc.Query.Similarity.{distinct, intersection_count, union_count, jaccard}

-- No text stands twice in the list.
abbrev pub Once : List String → Type 0
Once [] = Unit
Once (t ∷ ts) = (In t ts → ⊥) × Once ts

Once-keep_if : (p : String → Bool) (ts : List String) → Once ts → Once (keep_if p ts)
Once-keep_if p [] once = tt
Once-keep_if p (t ∷ ts) (fresh, once) = elim (Bool-cases (p t)) [
  | inl kept ↦ rw (keep_if, kept) (λ h. fresh (keep_if_sound p ts t h).0, Once-keep_if p ts once)
  | inr dropped ↦ rw (keep_if, dropped) (Once-keep_if p ts once)
]

Once-distinct : (ts : List String) → Once (distinct ts)
Once-distinct [] = tt
Once-distinct (t ∷ ts) = elim (Bool-cases (has_text (distinct ts) t)) [
  | inl again ↦ rw (distinct, again) (Once-distinct ts)
  | inr first ↦
      rw (distinct, first)
        (λ h. absurd (cc (first, has_text-of (distinct ts) t h)), Once-distinct ts)
]

differ : (t x : String) → t ≢ x → not (t == x) ≡ true
differ t x apart = elim (Bool-cases (t == x)) [
  | inl same ↦ absurd (apart ((eq_iff t x).0 same))
  | inr other ↦ rw (other) refl
]

abbrev others : String → List String → List String
others x = keep_if (λ t. not (t == x))

length-others_leq : (x : String) (ts : List String) → length (others x ts) ≤ length ts
length-others_leq x [] = omega arith
length-others_leq x (t ∷ ts) = ground (arith, length-others_leq x ts)

length-others : (x : String) (ts : List String) → In x ts → length (others x ts) < length ts
length-others x [] h = absurd h
length-others x (t ∷ ts) h = elim (Bool-cases (t == x)) [
  | inl same ↦ rw (same) (let rest = length-others_leq x ts in omega arith)
  | inr other ↦ rw (other) (elim h [
    | inl e ↦ absurd (cc ((eq_iff t x).1 (inverse e), other))
    | inr later ↦ let rest = length-others x ts later in omega arith
  ])
]

pigeonhole :
    (xs ys : List String) → Once xs → ((t : String) → In t xs → In t ys) → length xs ≤ length ys
pigeonhole [] ys once within = omega arith
pigeonhole (x ∷ xs) ys (fresh, once) within =
    let fewer = pigeonhole xs (others x ys) once (λ t h.
      keep_if_complete (λ u. not (u == x)) ys t (within t (inr h))
        (differ t x (λ e. fresh (subst (λ u. In u xs) e h)))) in
    let room = length-others x ys (within x (inl refl)) in omega arith

-- Two lists without repetitions that have the same texts are of one length.
same_length :
    (xs ys : List String)
    → Once xs
    → Once ys
    → ((t : String) → In t xs ↔ In t ys)
    → length xs ≡ length ys
same_length xs ys once once' same =
    let there = pigeonhole xs ys once (λ t. (same t).0) in
    let back = pigeonhole ys xs once' (λ t. (same t).1) in omega arith

distinct_iff : (ts : List String) (t : String) → In t (distinct ts) ↔ In t ts
distinct_iff ts t = (distinct_sound ts, In-distinct ts t)
  where
    distinct_sound : (ts : List String) → In t (distinct ts) → In t ts
    distinct_sound [] h = h
    distinct_sound (u ∷ ts) h = elim (Bool-cases (has_text (distinct ts) u)) [
      | inl again ↦ inr (distinct_sound ts (rw (distinct, again) at h))
      | inr first ↦ elim (rw (distinct, first) at h) [
        | inl e ↦ inl e
        | inr later ↦ inr (distinct_sound ts later)
      ]
    ]

Once-append :
    (xs ys : List String)
    → Once xs
    → Once ys
    → ((t : String) → In t xs → In t ys → ⊥)
    → Once (xs ++ ys)
Once-append [] ys once once' apart = once'
Once-append (x ∷ xs) ys (fresh, once) once' apart = (
  λ h. elim (In-append_cases x xs ys h) [
    | inl here ↦ fresh here
    | inr there ↦ apart x (inl refl) there
  ],
  Once-append xs ys once once' (λ t h. apart t (inr h)),
)

module _ (a b : List String) where
  shared_iff :
      (t : String) → In t (keep_if (has_text (distinct b)) (distinct a)) ↔ (In t a × In t b)
  shared_iff t = (
    λ h.
        let (in_a, seen) = keep_if_sound (has_text (distinct b)) (distinct a) t h in
        ((distinct_iff a t).0 in_a, (distinct_iff b t).0 (has_text_iff (distinct b) t seen)),
    λ k.
        keep_if_complete (has_text (distinct b)) (distinct a) t ((distinct_iff a t).1 k.0)
          (has_text-of (distinct b) t ((distinct_iff b t).1 k.1)),
  )

  abbrev added : List String
  added = keep_if (λ t. not (has_text (distinct a) t)) (distinct b)

  added-apart : (t : String) → In t (distinct a) → In t added → ⊥
  added-apart t here there =
      let (_, new) = keep_if_sound (λ t. not (has_text (distinct a) t)) (distinct b) t there in
      absurd (cc (has_text-of (distinct a) t here, new))

  joined_iff : (t : String) → In t (distinct a ++ added) ↔ (In t a ⊎ In t b)
  joined_iff t = (
    λ h. elim (In-append_cases t (distinct a) added h) [
      | inl here ↦ inl ((distinct_iff a t).0 here)
      | inr there ↦ inr (
          (distinct_iff b t).0
            (keep_if_sound (λ t. not (has_text (distinct a) t)) (distinct b) t there).0)
    ],
    λ k. elim (Bool-cases (has_text (distinct a) t)) [
      | inl seen ↦ In-append_left t (distinct a) added (has_text_iff (distinct a) t seen)
      | inr new ↦ elim k [
        | inl in_a ↦ absurd (cc (new, has_text-of (distinct a) t ((distinct_iff a t).1 in_a)))
        | inr in_b ↦ In-append_right t (distinct a) added (
            keep_if_complete (λ t. not (has_text (distinct a) t)) (distinct b) t
              ((distinct_iff b t).1 in_b) (rw new refl))
      ]
    ],
  )

  intersection_count-length :
      (shared : List String)
      → Once shared
      → ((t : String) → In t shared ↔ (In t a × In t b))
      → intersection_count a b ≡ length shared
  unfolding intersection_count
  intersection_count-length shared once members =
      same_length (keep_if (has_text (distinct b)) (distinct a)) shared
        (Once-keep_if (has_text (distinct b)) (distinct a) (Once-distinct a)) once
        (λ t. (λ h. (members t).1 ((shared_iff t).0 h), λ k. (shared_iff t).1 ((members t).0 k)))

  union_count-length :
      (joined : List String)
      → Once joined
      → ((t : String) → In t joined ↔ (In t a ⊎ In t b))
      → union_count a b ≡ length joined
  unfolding union_count
  union_count-length joined once members =
      inverse (length-append (distinct a) added)
      ∙ same_length (distinct a ++ added) joined
          (Once-append (distinct a) added (Once-distinct a)
            (Once-keep_if (λ t. not (has_text (distinct a) t)) (distinct b) (Once-distinct b))
            added-apart)
          once
          (λ t. (λ h. (members t).1 ((joined_iff t).0 h), λ k. (joined_iff t).1 ((members t).0 k)))

-- The quotient of two lists that are not empty has the sizes of their intersection and of their union
-- as sets: of any lists without repetitions that have the tokens of both, and of either.
pub jaccard-length :
    (a b shared joined : List String)
    → a ≢ []
    → b ≢ []
    → Once shared
    → ((t : String) → In t shared ↔ (In t a × In t b))
    → Once joined
    → ((t : String) → In t joined ↔ (In t a ⊎ In t b))
    → jaccard a b ≡ (length shared, length joined)
unfolding jaccard
jaccard-length [] b shared joined some_a some_b once is_shared once' is_joined =
    absurd (some_a refl)
jaccard-length (x ∷ xs) [] shared joined some_a some_b once is_shared once' is_joined =
    absurd (some_b refl)
jaccard-length (x ∷ xs) (y ∷ ys) shared joined some_a some_b once is_shared once' is_joined =
    ap₂ (λ (n d : ℕ). (n, d)) (intersection_count-length (x ∷ xs) (y ∷ ys) shared once is_shared)
      (union_count-length (x ∷ xs) (y ∷ ys) joined once' is_joined)
