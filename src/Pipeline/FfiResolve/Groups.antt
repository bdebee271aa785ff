-- ===== src/Pipeline/FfiResolve/Groups.antt =====
-- The groups by key hold what a filter of the list by that key holds.
use mathlib.Core.List.{append_assoc, append-nil}
use standardoc.Base.{
  String, ◌≡◌, refl, sym as inverse, ap, subst, ◌∙◌, inl, inr, Bool, true, ◌&&◌, Option, none, some,
  List, [], ◌∷◌, ◌++◌, In, In-append_left, In-append_right, In-append_last, find, keep_if, ◌==◌,
  eq_iff, Bool-cases,
}
use standardoc.Storage.FfiSides.{BindingSide}
use standardoc.Pipeline.FfiResolve.{Group, is_group_of, push_side, group_sides, get_group}

abbrev pub has_abi_name : String → String → BindingSide → Bool
has_abi_name abi abi_name side = side.abi == abi && side.abi_name == abi_name

pub both_iff : (a b c d : String) → (a == b && c == d) ≡ true → (a ≡ b) × (c ≡ d)
both_iff a b c d h = elim (Bool-cases (a == b)) [
  | inl e ↦ ((eq_iff a b).0 e, (eq_iff c d).0 (rw e at h))
  | inr e ↦ absurd (cc (rw e at h))
]

pub both_of : (a b c d : String) → a ≡ b → c ≡ d → (a == b && c == d) ≡ true
both_of a b c d h k = simp ((eq_iff a b).1 h, (eq_iff c d).1 k)

-- The sides of the group of a key, none where there is no group.
abbrev sides_in : Option Group → List BindingSide
sides_in none = []
sides_in (some g) = g.sides

abbrev sides_at : List Group → String → String → List BindingSide
sides_at groups abi abi_name = sides_in (find (is_group_of abi abi_name) groups)

-- A group of the side's key has another key's test answer as the side has.
same_test :
    (abi abi_name : String) (side : BindingSide) (g : Group)
    → is_group_of side.abi side.abi_name g ≡ true
    → is_group_of abi abi_name g ≡ has_abi_name abi abi_name side
same_test abi abi_name side g h =
    let (a, n) = both_iff g.abi side.abi g.abi_name side.abi_name h in
    ap (λ t. t == abi && g.abi_name == abi_name) a ∙ ap (λ t. side.abi == abi && t == abi_name) n

-- A side of the key has its own group at the key.
own_test :
    (abi abi_name : String) (side : BindingSide) (g : Group)
    → is_group_of abi abi_name g ≡ true
    → has_abi_name abi abi_name side ≡ true
    → is_group_of side.abi side.abi_name g ≡ true
own_test abi abi_name side g h k =
    let (a, n) = both_iff g.abi abi g.abi_name abi_name h in
    let (a', n') = both_iff side.abi abi side.abi_name abi_name k in
    both_of g.abi side.abi g.abi_name side.abi_name (a ∙ inverse a') (n ∙ inverse n')

sides_at-push_side :
    (groups : List Group) (side : BindingSide) (abi abi_name : String)
    → sides_at (push_side groups side) abi abi_name
      ≡ sides_at groups abi abi_name ++ keep_if (has_abi_name abi abi_name) (side ∷ [])
unfolding push_side
sides_at-push_side [] side abi abi_name = elim (Bool-cases (has_abi_name abi abi_name side)) [
  | inl mine ↦ simp (sides_at, sides_in, push_side, mine)
  | inr other ↦ simp (sides_at, sides_in, push_side, other)
]
sides_at-push_side (g ∷ groups) side abi abi_name =
    let rest = sides_at-push_side groups side abi abi_name in
    elim (Bool-cases (is_group_of side.abi side.abi_name g)) [
      | inl at ↦ elim (Bool-cases (has_abi_name abi abi_name side)) [
        | inl mine ↦ simp (push_side, at, mine, same_test abi abi_name side g at ∙ mine)
        | inr other ↦
            simp (push_side, at, other, same_test abi abi_name side g at ∙ other, append-nil)
      ]
      | inr apart ↦ elim (Bool-cases (is_group_of abi abi_name g)) [
        | inr skipped ↦ simp (push_side, apart, skipped, rest)
        | inl found ↦ elim (Bool-cases (has_abi_name abi abi_name side)) [
          | inl mine ↦ absurd (cc (own_test abi abi_name side g found mine, apart))
          | inr other ↦ simp (push_side, apart, found, other, append-nil)
        ]
      ]
    ]

sides_at-group_sides :
    (sides : List BindingSide) (groups : List Group) (abi abi_name : String)
    → sides_at (group_sides sides groups) abi abi_name
      ≡ sides_at groups abi abi_name ++ keep_if (has_abi_name abi abi_name) sides
unfolding group_sides
sides_at-group_sides [] groups abi abi_name = inverse (append-nil _)
sides_at-group_sides (side ∷ sides) groups abi abi_name =
    let p = has_abi_name abi abi_name in
    let split : keep_if p (side ∷ []) ++ keep_if p sides ≡ keep_if p (side ∷ sides) =
      elim (Bool-cases (p side)) [ inl e ↦ simp e | inr e ↦ simp e ] in
    sides_at-group_sides sides (push_side groups side) abi abi_name
    ∙ ap (λ xs. xs ++ keep_if p sides) (sides_at-push_side groups side abi abi_name)
    ∙ append_assoc (sides_at groups abi abi_name) (keep_if p (side ∷ [])) (keep_if p sides)
    ∙ ap (λ xs. sides_at groups abi abi_name ++ xs) split

-- The group that is found for a key holds the sides of that key.
pub get_group-group_sides :
    (sides : List BindingSide) (abi abi_name : String) (g : Group)
    → get_group (group_sides sides []) abi abi_name ≡ some g
    → g.sides ≡ keep_if (has_abi_name abi abi_name) sides
unfolding get_group
get_group-group_sides sides abi abi_name g found =
    ap sides_in (inverse found) ∙ sides_at-group_sides sides [] abi abi_name

pub get_group-none :
    (sides : List BindingSide) (abi abi_name : String)
    → get_group (group_sides sides []) abi abi_name ≡ none
    → [] ≡ keep_if (has_abi_name abi abi_name) sides
unfolding get_group
get_group-none sides abi abi_name missing =
    ap sides_in (inverse missing) ∙ sides_at-group_sides sides [] abi abi_name

-- A group holds sides of the list, each of its key.
abbrev IsGroup : List BindingSide → Group → Type 0
IsGroup seen g =
    (side : BindingSide)
    → In side g.sides
    → In side seen × (side.abi ≡ g.abi) × (side.abi_name ≡ g.abi_name)

IsGroup-push :
    (seen : List BindingSide) (groups : List Group) (side : BindingSide)
    → ((g : Group) → In g groups → IsGroup seen g)
    → In side seen
    → (g : Group) → In g (push_side groups side)
    → IsGroup seen g
unfolding push_side
IsGroup-push seen [] side h held g (inl e) = subst (IsGroup seen) (inverse e) (λ s there.
    elim there [
      | inl same ↦
          subst (λ x. In x seen × (x.abi ≡ side.abi) × (x.abi_name ≡ side.abi_name)) (inverse same)
            (held, refl, refl)
      | inr never ↦ absurd never
    ])
IsGroup-push seen [] side h held g (inr never) = absurd never
IsGroup-push seen (first ∷ groups) side h held g there =
    elim (Bool-cases (is_group_of side.abi side.abi_name first)) [
      | inl at ↦ elim (rw (push_side, at) at there) [
        | inr later ↦ h g (inr later)
        | inl e ↦ subst (IsGroup seen) (inverse e) (λ s s_held.
            elim (In-append_last s first.sides side s_held) [
              | inl old ↦ h first (inl refl) s old
              | inr new ↦
                  let (a, n) = both_iff first.abi side.abi first.abi_name side.abi_name at in
                  subst (λ x. In x seen × (x.abi ≡ first.abi) × (x.abi_name ≡ first.abi_name))
                    (inverse new) (held, inverse a, inverse n)
            ])
      ]
      | inr apart ↦ elim (rw (push_side, apart) at there) [
        | inl e ↦ h g (inl e)
        | inr later ↦ IsGroup-push seen groups side (λ x k. h x (inr k)) held g later
      ]
    ]

IsGroup-group_sides :
    (seen sides : List BindingSide) (groups : List Group)
    → ((g : Group) → In g groups → IsGroup seen g)
    → ((s : BindingSide) → In s sides → In s seen)
    → (g : Group) → In g (group_sides sides groups)
    → IsGroup seen g
unfolding group_sides
IsGroup-group_sides seen [] groups h sub = h
IsGroup-group_sides seen (side ∷ sides) groups h sub =
    IsGroup-group_sides seen sides (push_side groups side)
      (IsGroup-push seen groups side h (sub side (inl refl))) (λ s k. sub s (inr k))

pub group_sides-IsGroup :
    (sides : List BindingSide) (g : Group)
    → In g (group_sides sides [])
    → (side : BindingSide) → In side g.sides
    → In side sides × (side.abi ≡ g.abi) × (side.abi_name ≡ g.abi_name)
group_sides-IsGroup sides = IsGroup-group_sides sides sides [] (λ g h. absurd h) (λ s h. h)

-- No side is lost.
abbrev IsGrouped : List Group → BindingSide → Type 0
IsGrouped groups side = (g : Group) × In g groups × In side g.sides

push_side-IsGrouped :
    (groups : List Group) (new side : BindingSide)
    → IsGrouped groups side
    → IsGrouped (push_side groups new) side
unfolding push_side
push_side-IsGrouped [] new side h = absurd h.1
push_side-IsGrouped (first ∷ groups) new side (g, there, held) =
    elim (Bool-cases (is_group_of new.abi new.abi_name first)) [
      | inl at ↦
          rw (push_side, at)
            (elim there [
              | inl e ↦ (
                _,
                inl refl,
                In-append_left side first.sides _ (subst (λ (x : Group). In side x.sides) e held),
              )
              | inr later ↦ (g, inr later, held)
            ])
      | inr apart ↦
          rw (push_side, apart)
            (elim there [
              | inl e ↦ (g, inl e, held)
              | inr later ↦
                  let (g', there', held') = push_side-IsGrouped groups new side (g, later, held) in
                  (g', inr there', held')
            ])
    ]

push_side-new : (groups : List Group) (new : BindingSide) → IsGrouped (push_side groups new) new
unfolding push_side
push_side-new [] new = (_, inl refl, inl refl)
push_side-new (first ∷ groups) new = elim (Bool-cases (is_group_of new.abi new.abi_name first)) [
  | inl at ↦ rw (push_side, at) (_, inl refl, In-append_right new first.sides (new ∷ []) (inl refl))
  | inr apart ↦
      let (g, there, held) = push_side-new groups new in rw (push_side, apart) (g, inr there, held)
]

IsGrouped-later :
    (sides : List BindingSide) (groups : List Group) (side : BindingSide)
    → IsGrouped groups side
    → IsGrouped (group_sides sides groups) side
unfolding group_sides
IsGrouped-later [] groups side h = h
IsGrouped-later (new ∷ sides) groups side h =
    IsGrouped-later sides (push_side groups new) side (push_side-IsGrouped groups new side h)

pub group_sides-IsGrouped :
    (sides : List BindingSide) (groups : List Group) (side : BindingSide)
    → In side sides
    → IsGrouped (group_sides sides groups) side
unfolding group_sides
group_sides-IsGrouped [] groups side h = absurd h
group_sides-IsGrouped (new ∷ sides) groups side (inl e) =
    IsGrouped-later sides (push_side groups new) side
      (subst (IsGrouped (push_side groups new)) (inverse e) (push_side-new groups new))
group_sides-IsGrouped (new ∷ sides) groups side (inr h) =
    group_sides-IsGrouped sides (push_side groups new) side h
