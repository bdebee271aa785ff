-- ===== src/Query/Graph/Edges.antt =====
-- The edges that the viewer is sent: each once, and of an allowed kind.
use standardoc.Base.{
  String, ◌≡◌, refl, sym as inverse, ap, subst, ◌⊎◌, inl, inr, Bool, true, false, ◌&&◌, Option,
  some, List, [], ◌∷◌, ◌++◌, In, In-append_last, keep_if, keep_if_sound, eqb_iff, ◌==◌, eq_iff,
  Bool-cases,
}
use standardoc.Ir.Kinds.{EdgeKind}
use standardoc.Ir.Edge.{RawEdge}
use standardoc.Storage.Error.{ok}
use standardoc.Storage.Database.{Database}
use standardoc.Query.Rows.{edges_from, edges_to}
use standardoc.Query.Graph.{
  GraphEdge, edge_kind_index, same_kind, has_edge_key, has_text, kind_allowed, resolved_fqdn,
  push_edge,
}

abbrev pub IsSameEdge : GraphEdge → GraphEdge → Type 0
IsSameEdge a b = (a.from ≡ b.from) × (a.to ≡ b.to) × (a.kind ≡ b.kind)

-- No two of the edges have the same ends and kind.
abbrev pub NoRepeat : List GraphEdge → Type 0
NoRepeat [] = Unit
NoRepeat (e ∷ es) = ((x : GraphEdge) → In x es → IsSameEdge e x → ⊥) × NoRepeat es

NoRepeat-append :
    (es : List GraphEdge) (e : GraphEdge)
    → NoRepeat es
    → ((x : GraphEdge) → In x es → IsSameEdge x e → ⊥)
    → NoRepeat (es ++ e ∷ [])
NoRepeat-append [] e h new = (λ x never. absurd never, tt)
NoRepeat-append (y ∷ es) e h new = (
  λ x there same. elim (In-append_last x es e there) [
    | inl old ↦ h.0 x old same
    | inr last ↦ new y (inl refl) (subst (IsSameEdge y) last same)
  ],
  NoRepeat-append es e h.1 (λ x there. new x (inr there)),
)

pub NoRepeat-keep_if :
    (p : GraphEdge → Bool) (es : List GraphEdge) → NoRepeat es → NoRepeat (keep_if p es)
NoRepeat-keep_if p [] h = tt
NoRepeat-keep_if p (e ∷ es) h =
    let rest = NoRepeat-keep_if p es h.1 in
    elim (Bool-cases (p e)) [
      | inl kept ↦ rw kept ((λ x there. h.0 x (keep_if_sound p es x there).0), rest)
      | inr dropped ↦ rw dropped rest
    ]

key_test :
    (e x : GraphEdge)
    → IsSameEdge x e
    → (x.from == e.from && (x.to == e.to && same_kind x.kind e.kind)) ≡ true
key_test e x (from, to, kind) = simp (
  (eq_iff x.from e.from).1 from,
  (eq_iff x.to e.to).1 to,
  (eqb_iff (edge_kind_index x.kind) (edge_kind_index e.kind)).1 (ap edge_kind_index kind),
)

has_edge_key-none :
    (es : List GraphEdge) (e : GraphEdge)
    → has_edge_key es e.from e.to e.kind ≡ false
    → (x : GraphEdge) → In x es
    → IsSameEdge x e
    → ⊥
has_edge_key-none [] e h x there same = absurd there
has_edge_key-none (y ∷ es) e h x there same =
    elim (Bool-cases (y.from == e.from && (y.to == e.to && same_kind y.kind e.kind))) [
      | inl hit ↦ absurd (cc (rw hit at h))
      | inr miss ↦ elim there [
        | inl first ↦ absurd (cc (key_test e y (subst (λ z. IsSameEdge z e) first same), miss))
        | inr later ↦ has_edge_key-none es e (rw miss at h) x later same
      ]
    ]

pub push_edge-NoRepeat :
    (es : List GraphEdge) (from to : String) (kind : EdgeKind) (outbound : Bool)
    → NoRepeat es
    → NoRepeat (push_edge es from to kind outbound)
unfolding push_edge
push_edge-NoRepeat es from to kind outbound h = elim (Bool-cases (has_edge_key es from to kind)) [
  | inl known ↦ rw (push_edge, known) h
  | inr new ↦
      let e : GraphEdge = record { from = from; to = to; kind = kind; outbound = outbound } in
      rw (push_edge, new) (NoRepeat-append es e h (has_edge_key-none es e new))
]

pub push_edge-cases :
    (es : List GraphEdge) (from to : String) (kind : EdgeKind) (outbound : Bool) (g : GraphEdge)
    → In g (push_edge es from to kind outbound)
    → In g es ⊎ (g ≡ record { from = from; to = to; kind = kind; outbound = outbound })
unfolding push_edge
push_edge-cases es from to kind outbound g h = elim (Bool-cases (has_edge_key es from to kind)) [
  | inl known ↦ inl (rw (push_edge, known) at h)
  | inr new ↦ In-append_last g es _ (rw (push_edge, new) at h)
]

pub has_text_iff : (ss : List String) (t : String) → has_text ss t ≡ true → In t ss
has_text_iff [] t h = absurd (cc)
has_text_iff (s ∷ ss) t h = elim (Bool-cases (s == t)) [
  | inl hit ↦ inl (inverse ((eq_iff s t).0 hit))
  | inr miss ↦ inr (has_text_iff ss t (rw miss at h))
]

pub has_text-of : (ss : List String) (t : String) → In t ss → has_text ss t ≡ true
has_text-of [] t h = absurd h
has_text-of (s ∷ ss) t h = elim (Bool-cases (s == t)) [
  | inl hit ↦ rw hit refl
  | inr miss ↦ elim h [
    | inl e ↦ absurd (cc ((eq_iff s t).1 (inverse e), miss))
    | inr later ↦ rw miss (has_text-of ss t later)
  ]
]

module _ (from_str : String → Option (List String)) (db : Database)
    (kinds : Option (List EdgeKind)) where
  -- An allowed edge that the queries read: out of its source, or into its target.
  abbrev pub IsRead : GraphEdge → Type 0
  IsRead g =
      (kind_allowed kinds g.kind ≡ true)
      × (((es : List RawEdge) × (e : RawEdge) × (edges_from from_str db g.from ≡ ok es)
            × In e es
            × (e.kind ≡ g.kind)
            × (resolved_fqdn e.to ≡ some g.to))
          ⊎ ((es : List RawEdge) × (e : RawEdge) × (edges_to from_str db g.to ≡ ok es)
              × In e es
              × (e.kind ≡ g.kind)
              × (e.from_fqdn ≡ g.from)
              × (g.outbound ≡ false)))
