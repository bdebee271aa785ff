-- ===== src/Query/Similarity/Sets.antt =====
-- The counts of the quotient of two token lists.
use standardoc.Base.{
  String, Bool, List, [], ◌∷◌, length, ◌≤◌, ◌<◌, keep_if, arith, In, inl, inr, sym as inverse,
  Bool-cases, subst, keep_if_complete,
}
use standardoc.Query.Graph.{has_text}
use standardoc.Query.Graph.Edges.{has_text_iff, has_text-of}
use standardoc.Query.Similarity.{distinct, intersection_count, union_count, jaccard}

length-keep_if : (p : String → Bool) (ts : List String) → length (keep_if p ts) ≤ length ts
length-keep_if p [] = omega arith
length-keep_if p (t ∷ ts) = ground (arith, length-keep_if p ts)

distinct-nonempty : (t : String) (ts : List String) → 0 < length (distinct (t ∷ ts))
distinct-nonempty t [] = omega arith
distinct-nonempty t (u ∷ ts) = ground (arith, distinct-nonempty u ts)

pub In-distinct : (ts : List String) (t : String) → In t ts → In t (distinct ts)
In-distinct [] t h = absurd h
In-distinct (u ∷ ts) t h = elim (Bool-cases (has_text (distinct ts) u)) [
  | inl again ↦
      rw (distinct, again)
        (elim h [
          | inl e ↦ subst (λ v. In v (distinct ts)) (inverse e) (has_text_iff (distinct ts) u again)
          | inr later ↦ In-distinct ts t later
        ])
  | inr first ↦
      rw (distinct, first) (elim h [ inl e ↦ inl e | inr later ↦ inr (In-distinct ts t later) ])
]

length-of_In : (t : String) (ts : List String) → In t ts → 0 < length ts
length-of_In t [] h = absurd h
length-of_In t (u ∷ ts) h = omega arith

-- The quotient has a denominator that is not 0 and is not above 1, and is not 0 when a token is
-- in both lists.
pub jaccard-bounds :
    (a b : List String)
    → (0 < (jaccard a b).1)
      × (((jaccard a b).0 ≤ (jaccard a b).1)
          × ((t : String) → In t a → In t b → 0 < (jaccard a b).0))
unfolding jaccard intersection_count union_count
jaccard-bounds [] [] = (omega arith, (omega arith, λ t never h. absurd never))
jaccard-bounds [] (y ∷ ys) = (omega arith, (omega arith, λ t never h. absurd never))
jaccard-bounds (x ∷ xs) [] = (omega arith, (omega arith, λ t h never. absurd never))
jaccard-bounds (x ∷ xs) (y ∷ ys) =
    let a = x ∷ xs in
    let b = y ∷ ys in
    let some_token = distinct-nonempty x xs in
    let shorter = length-keep_if (has_text (distinct b)) (distinct a) in
    (
      omega arith,
      (
        omega arith,
        λ t in_a in_b. length-of_In t (keep_if (has_text (distinct b)) (distinct a)) (
            keep_if_complete (has_text (distinct b)) (distinct a) t (In-distinct a t in_a)
              (has_text-of (distinct b) t (In-distinct b t in_b))),
      ),
    )
