-- ===== src/Pipeline/CrossWorkspace/Chain.antt =====
-- The chain of splits answers with the longest prefix that the resolver knows.
use mathlib.Core.List.{append_assoc, append-nil}
use standardoc.Base.{
  length, length-append, ◌<◌, ◌≤◌, arith, String, ◌≡◌, refl, sym as inverse, ap, subst, ◌∙◌, ◌⊎◌,
  inl, inr, false, Option, none, some, List, [], ◌∷◌, ◌++◌, In, In-append_cases, In-append_left,
  In-append_right,
}
use standardoc.Base.Segments.{segments, join, segments-cases, join-segments}
use standardoc.Ir.CrossWorkspace.{CrossWorkspaceLookup, is_hit}
use standardoc.Pipeline.CrossWorkspace.{
  Split, splits_after, with_tail, first_answer, resolve_segments, resolve_with_suffix_chain,
}

module _ (resolve : String → String → CrossWorkspaceLookup) where
  abbrev pub asked : Split → CrossWorkspaceLookup
  asked s = resolve (join s.prefix) s.head

  -- The answer to a list of splits, which are asked in order.
  pub data Answers : List Split → Option CrossWorkspaceLookup → Type 0 where
    hits :
        (earlier later : List Split) (s : Split) (workspace_id fqdn : String)
        → ((x : Split) → In x earlier → is_hit (asked x) ≡ false)
        → asked s ≡ CrossWorkspaceLookup.hit workspace_id fqdn
        → Answers
            (earlier ++ s ∷ later)
            (some (CrossWorkspaceLookup.hit workspace_id (with_tail fqdn s.tail)))
    misses :
        (earlier later : List Split) (s : Split) (workspace_id : String)
        → ((x : Split) → In x earlier → asked x ≡ CrossWorkspaceLookup.unknown)
        → asked s ≡ CrossWorkspaceLookup.known_peer_missing_symbol workspace_id
        → ((x : Split) → In x later → is_hit (asked x) ≡ false)
        → Answers
            (earlier ++ s ∷ later)
            (some (CrossWorkspaceLookup.known_peer_missing_symbol workspace_id))
    knows_nothing :
        {splits : List Split}
        → ((x : Split) → In x splits → asked x ≡ CrossWorkspaceLookup.unknown)
        → Answers splits none

  lookup_cases :
      (l : CrossWorkspaceLookup)
      → ((workspace_id fqdn : String) × (l ≡ CrossWorkspaceLookup.hit workspace_id fqdn))
        ⊎ (((workspace_id : String) × (l
                ≡ CrossWorkspaceLookup.known_peer_missing_symbol workspace_id))
            ⊎ (l ≡ CrossWorkspaceLookup.unknown))
  lookup_cases (CrossWorkspaceLookup.hit w f) = inl (w, f, refl)
  lookup_cases (CrossWorkspaceLookup.known_peer_missing_symbol w) = inr (inl (w, refl))
  lookup_cases CrossWorkspaceLookup.unknown = inr (inr refl)

  abbrev FirstHit : List Split → Option CrossWorkspaceLookup → Type 0
  FirstHit splits answer =
      (earlier later : List Split) × (s : Split) × (workspace_id fqdn : String) × (earlier
          ++ s ∷ later
        ≡ splits)
      × ((x : Split) → In x earlier → is_hit (asked x) ≡ false)
      × (asked s ≡ CrossWorkspaceLookup.hit workspace_id fqdn)
      × (answer ≡ some (CrossWorkspaceLookup.hit workspace_id (with_tail fqdn s.tail)))

  FirstHit-skip :
      (s : Split) (splits : List Split) (answer : Option CrossWorkspaceLookup)
      → is_hit (asked s) ≡ false
      → FirstHit splits answer
      → FirstHit (s ∷ splits) answer
  FirstHit-skip s splits answer missed (earlier, later, x, w, f, e, before, found, same) = (
    s ∷ earlier,
    later,
    x,
    w,
    f,
    ap (λ ss. s ∷ ss) e,
    λ y held. elim held [
      | inl first ↦ ap (λ (z : Split). is_hit (asked z)) first ∙ missed
      | inr rest ↦ before y rest
    ],
    found,
    same,
  )

  -- Once a peer is known, only a hit changes the answer.
  first_answer-some :
      (splits : List Split) (old : CrossWorkspaceLookup)
      → FirstHit splits (first_answer resolve splits (some old))
        ⊎ (((x : Split) → In x splits → is_hit (asked x) ≡ false)
            × (first_answer resolve splits (some old) ≡ some old))
  unfolding first_answer is_hit
  first_answer-some [] old = inr (λ x never. absurd never, refl)
  first_answer-some (s ∷ splits) old = elim (lookup_cases (asked s)) [
    | inl (w, f, e) ↦
        inl ([], splits, s, w, f, refl, λ x never. absurd never, e, rw (first_answer, e) refl)
    | inr rest ↦
        let missed : is_hit (asked s) ≡ false = elim rest [
          | inl (w, e) ↦ rw e refl
          | inr e ↦ rw e refl
        ] in
        let same : first_answer resolve (s ∷ splits) (some old)
            ≡ first_answer resolve splits (some old) =
          elim rest [
            | inl (w, e) ↦ rw (first_answer, e) refl
            | inr e ↦ rw (first_answer, e) refl
          ] in
        elim (first_answer-some splits old) [
          | inl found ↦
              inl (
                subst (FirstHit (s ∷ splits)) (inverse same)
                  (FirstHit-skip s splits _ missed found))
          | inr (none_hit, kept) ↦ inr (
            λ x held. elim held [
              | inl first ↦ ap (λ (z : Split). is_hit (asked z)) first ∙ missed
              | inr later ↦ none_hit x later
            ],
            same ∙ kept,
          )
        ]
  ]

  Answers-skip :
      (s : Split) (splits : List Split) (answer : Option CrossWorkspaceLookup)
      → asked s ≡ CrossWorkspaceLookup.unknown
      → Answers splits answer
      → Answers (s ∷ splits) answer
  unfolding is_hit
  Answers-skip s splits answer e (hits earlier later x w f before found) =
      hits (s ∷ earlier) later x w f
        (λ y held. elim held [
          | inl first ↦ ap (λ (z : Split). is_hit (asked z)) first ∙ ap is_hit e
          | inr rest ↦ before y rest
        ])
        found
  Answers-skip s splits answer e (misses earlier later x w before found after) =
      misses (s ∷ earlier) later x w
        (λ y held. elim held [ inl first ↦ ap asked first ∙ e | inr rest ↦ before y rest ]) found
        after
  Answers-skip s splits answer e (knows_nothing all) =
      knows_nothing (λ y held. elim held [ inl first ↦ ap asked first ∙ e | inr rest ↦ all y rest ])

  pub first_answer-Answers :
      (splits : List Split) → Answers splits (first_answer resolve splits none)
  unfolding first_answer is_hit
  first_answer-Answers [] = knows_nothing (λ x never. absurd never)
  first_answer-Answers (s ∷ splits) = elim (lookup_cases (asked s)) [
    | inl (w, f, e) ↦ rw (first_answer, e) (hits [] splits s w f (λ x never. absurd never) e)
    | inr rest ↦ elim rest [
      | inr e ↦ rw (first_answer, e) (Answers-skip s splits _ e (first_answer-Answers splits))
      | inl (w, e) ↦
          rw (first_answer, e)
            (elim (first_answer-some splits (CrossWorkspaceLookup.known_peer_missing_symbol w)) [
              | inr (none_hit, kept) ↦
                  subst (Answers (s ∷ splits)) (inverse kept)
                    (misses [] splits s w (λ x never. absurd never) e none_hit)
              | inl found ↦
                  let (earlier, later, x, w', f, same, before, hit_at, answer) =
                    FirstHit-skip s splits _ (ap is_hit e) found in
                  subst (Answers (s ∷ splits)) (inverse answer) (
                    subst
                      (λ ss. Answers ss (some (CrossWorkspaceLookup.hit w' (with_tail f x.tail))))
                      same (hits earlier later x w' f before hit_at))
            ])
    ]
  ]

-- A split cuts the list behind its prefix, and every cut is one of them.
splits_after_sound :
    (prefix rest : List String) (s : Split)
    → In s (splits_after prefix rest)
    → s.prefix ++ s.head ∷ s.tail ≡ prefix ++ rest
unfolding splits_after
splits_after_sound prefix [] s h = absurd h
splits_after_sound prefix (head ∷ tail) s h =
    elim (In-append_cases s (splits_after (prefix ++ head ∷ []) tail) _ h) [
      | inl longer ↦
          splits_after_sound (prefix ++ head ∷ []) tail s longer
          ∙ append_assoc prefix (head ∷ []) tail
      | inr last ↦ elim last [
        | inl e ↦ ap (λ (x : Split). x.prefix ++ x.head ∷ x.tail) e
        | inr never ↦ absurd never
      ]
    ]

splits_after_complete :
    (prefix middle : List String) (head : String) (tail : List String)
    → In
        (record { prefix = prefix ++ middle; head = head; tail = tail })
        (splits_after prefix (middle ++ head ∷ tail))
unfolding splits_after
splits_after_complete prefix [] head tail =
    In-append_right _ (splits_after (prefix ++ head ∷ []) tail) _
      (inl (ap (λ p. record { prefix = p; head = head; tail = tail }) (append-nil prefix)))
splits_after_complete prefix (m ∷ middle) head tail =
    In-append_left _ (splits_after (prefix ++ m ∷ []) (middle ++ head ∷ tail)) _ (
      subst
        (λ p.
          In (record { prefix = p; head = head; tail = tail })
            (splits_after (prefix ++ m ∷ []) (middle ++ head ∷ tail)))
        (append_assoc prefix (m ∷ []) middle)
        (splits_after_complete (prefix ++ m ∷ []) middle head tail))

-- Longer prefixes come first.
abbrev pub IsDescending : List Split → Type 0
IsDescending [] = Unit
IsDescending (s ∷ ss) =
    ((x : Split) → In x ss → length x.prefix < length s.prefix) × IsDescending ss

IsDescending-append :
    (ss : List Split) (s : Split)
    → IsDescending ss
    → ((x : Split) → In x ss → length s.prefix < length x.prefix)
    → IsDescending (ss ++ s ∷ [])
IsDescending-append [] s h below = (λ x never. absurd never, tt)
IsDescending-append (y ∷ ss) s h below = (
  λ x held. elim (In-append_cases x ss (s ∷ []) held) [
    | inl old ↦ h.0 x old
    | inr last ↦ elim last [
      | inl e ↦
          subst (λ (z : Split). length z.prefix < length y.prefix) (inverse e) (below y (inl refl))
      | inr never ↦ absurd never
    ]
  ],
  IsDescending-append ss s h.1 (λ x held. below x (inr held)),
)

splits_after-longer :
    (prefix rest : List String) (x : Split)
    → In x (splits_after prefix rest)
    → length prefix ≤ length x.prefix
unfolding splits_after
splits_after-longer prefix [] x h = absurd h
splits_after-longer prefix (head ∷ tail) x h =
    elim (In-append_cases x (splits_after (prefix ++ head ∷ []) tail) _ h) [
      | inl longer ↦ omega (
        arith,
        splits_after-longer (prefix ++ head ∷ []) tail x longer,
        length-append prefix (head ∷ []),
      )
      | inr last ↦ elim last [
        | inl e ↦ subst (λ (z : Split). length prefix ≤ length z.prefix) (inverse e) (omega arith)
        | inr never ↦ absurd never
      ]
    ]

splits_after-IsDescending : (prefix rest : List String) → IsDescending (splits_after prefix rest)
unfolding splits_after
splits_after-IsDescending prefix [] = tt
splits_after-IsDescending prefix (head ∷ tail) =
    IsDescending-append (splits_after (prefix ++ head ∷ []) tail) _
      (splits_after-IsDescending (prefix ++ head ∷ []) tail)
      (λ x held. omega (
        arith,
        splits_after-longer (prefix ++ head ∷ []) tail x held,
        length-append prefix (head ∷ []),
      ))

abbrev pub splits_of : List String → List Split
splits_of [] = []
splits_of (first ∷ rest) = splits_after (first ∷ []) rest

abbrev pub splits : String → List Split
splits candidate = splits_of (segments candidate)

-- The splits are all the cuts of the path behind its first segment, longer prefixes first.
pub record IsCut (candidate : String) : Type 0 where
  pub whole : (s : Split) → In s (splits candidate) → join (s.prefix ++ s.head ∷ s.tail) ≡ candidate
  pub every :
      (first : String) (middle : List String) (head : String) (tail : List String)
      → segments candidate ≡ first ∷ (middle ++ head ∷ tail)
      → In (record { prefix = first ∷ middle; head = head; tail = tail }) (splits candidate)
  pub ordered : IsDescending (splits candidate)

-- The chain asks the resolver about the cuts of the path behind its segments, the longest prefix
-- first, and gives the first hit, with what stands behind the segment that was asked for. Without a
-- hit it gives the first peer that is known for a prefix, and nothing if there is none.
pub resolve_with_suffix_chain-Answers :
    (resolve : String → String → CrossWorkspaceLookup) (candidate : String)
    → Answers resolve (splits candidate) (resolve_with_suffix_chain resolve candidate)
      × IsCut candidate
unfolding resolve_with_suffix_chain resolve_segments
resolve_with_suffix_chain-Answers resolve candidate =
    let (first, rest, e) = segments-cases candidate in
    (
      rw (resolve_with_suffix_chain, resolve_segments, e)
          (first_answer-Answers resolve (splits_after (first ∷ []) rest)),
      record {
        whole = λ s held.
            ap join
              (splits_after_sound (first ∷ []) rest s (subst (λ ss. In s (splits_of ss)) e held))
            ∙ ap join (inverse e)
            ∙ join-segments candidate;
        every = λ f middle head tail cut.
            subst
              (λ ss. In (record { prefix = f ∷ middle; head = head; tail = tail }) (splits_of ss))
              (inverse cut) (splits_after_complete (f ∷ []) middle head tail);
        ordered =
            subst (λ ss. IsDescending (splits_of ss)) (inverse e)
              (splits_after-IsDescending (first ∷ []) rest);
      },
    )
