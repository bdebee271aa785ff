-- ===== src/Query/Graph/Stored.antt =====
-- Which rows of the tables an edge that the queries read stands for.
use standardoc.Base.{
  String, ℕ, ◌≡◌, refl, sym as inverse, ap, ◌∙◌, subst, ◌⊎◌, inl, inr, Bool, true, false, ◌||◌,
  Option, none, some, List, [], ◌∷◌, map, In, keep_if, keep_if_sound, eqb_iff, eq_iff, ◌==◌,
  Bool-cases, Option-cases, concat_map, In-concat_map,
}
use standardoc.Ir.Kinds.{EdgeKind}
use standardoc.Ir.Edge.{RawEdge, ResolvedOrUnresolved}
use standardoc.Storage.Error.{ok, ok_of_bind, ok-injective}
use standardoc.Storage.Conv.{edge_kind_from_sql_text, edge_confidence_from_sql_text}
use standardoc.Storage.Database.{Database, SymbolRow, EdgeRow, has_id, symbol_by_id, symbol_by_key}
use standardoc.Storage.Symbols.{points_to, leaves}
use standardoc.Storage.Index.{In-map, symbol_by_key-some, symbol_by_id-some}
use standardoc.Storage.Index.Delete.{points_to_iff}
use standardoc.Pipeline.Writer.{primary_workspace_id}
use standardoc.Query.Rows.{
  lookup_fqdn_by_id, lookup_id_by_fqdn, load_edge_sites, build_target, parse_attributes, build_edge,
  build_edges, edges_from, edges_to, enters, with_source,
}
use standardoc.Query.Graph.{GraphEdge, kind_allowed, resolved_fqdn}
use standardoc.Query.Graph.Edges.{IsRead}

-- A symbol of the id and the name.
abbrev pub IsNamed : Database → ℕ → String → Type 0
IsNamed db id name = (s : SymbolRow) × In s db.symbols × (s.id ≡ id) × (s.fqdn ≡ name)

-- The end of a row is a symbol of the name; or, behind an inbound edge, the unresolved name.
abbrev pub IsEnd : Database → EdgeRow → String → Bool → Type 0
IsEnd db row name outbound =
    ((id : ℕ) × (row.to_symbol_id ≡ some id) × IsNamed db id name)
    ⊎ ((row.to_unresolved ≡ some name) × (outbound ≡ false))

-- A row of `edges` of an allowed kind, between the ends of the drawn edge.
abbrev pub IsStored : Database → Option (List EdgeKind) → GraphEdge → Type 0
IsStored db kinds g =
    (kind_allowed kinds g.kind ≡ true)
    × (row : EdgeRow) × In row db.edges
    × (edge_kind_from_sql_text row.kind ≡ ok g.kind)
    × IsNamed db row.from_symbol_id g.from
    × IsEnd db row g.to g.outbound

lookup_id_by_fqdn-some :
    (db : Database) (fqdn : String) (id : ℕ)
    → lookup_id_by_fqdn db fqdn ≡ some id
    → IsNamed db id fqdn
unfolding lookup_id_by_fqdn
lookup_id_by_fqdn-some db fqdn id h =
    elim (Option-cases (symbol_by_key db.symbols primary_workspace_id fqdn)) [
      | inl missing ↦ absurd (cc (rw (lookup_id_by_fqdn, missing) at h))
      | inr (s, found) ↦
          let (held, _, named) = symbol_by_key-some db.symbols primary_workspace_id fqdn s found in
          let same : s.id ≡ id = cc (rw (lookup_id_by_fqdn, found) at h) in (s, held, same, named)
    ]

lookup_fqdn_by_id-some :
    (db : Database) (id : ℕ) (name : String)
    → lookup_fqdn_by_id db id ≡ some name
    → IsNamed db id name
unfolding lookup_fqdn_by_id
lookup_fqdn_by_id-some db id name h = elim (Option-cases (symbol_by_id db.symbols id)) [
  | inl missing ↦ absurd (cc (rw (lookup_fqdn_by_id, missing) at h))
  | inr (s, found) ↦
      let (held, at) = symbol_by_id-some db.symbols id s found in
      let same : s.fqdn ≡ name = cc (rw (lookup_fqdn_by_id, found) at h) in (s, held, at, same)
]

build_target-resolved :
    (db : Database) (row : EdgeRow) (to : ResolvedOrUnresolved) (name : String)
    → build_target db row ≡ ok to
    → resolved_fqdn to ≡ some name
    → (id : ℕ) × (row.to_symbol_id ≡ some id) × IsNamed db id name
unfolding build_target resolved_fqdn
build_target-resolved db row to name h resolved = elim (Option-cases row.to_symbol_id) [
  | inl open_end ↦ elim (Option-cases row.to_unresolved) [
    | inl nothing ↦ absurd (cc (rw (build_target, open_end, nothing) at h))
    | inr (other, free) ↦
        let same = ok-injective _ _ (rw (build_target, open_end, free) at h) in
        let none_left : resolved_fqdn (ResolvedOrUnresolved.unresolved other) ≡ some name =
          ap resolved_fqdn same ∙ resolved in
        absurd (cc none_left)
  ]
  | inr (id, at) ↦ elim (Option-cases row.to_unresolved) [
    | inr (other, free) ↦ absurd (cc (rw (build_target, at, free) at h))
    | inl closed ↦ elim (Option-cases (lookup_fqdn_by_id db id)) [
      | inl gone ↦ absurd (cc (rw (build_target, at, closed, gone) at h))
      | inr (fqdn, found) ↦
          let same = ok-injective _ _ (rw (build_target, at, closed, found) at h) in
          let named : some fqdn ≡ some name = ap resolved_fqdn same ∙ resolved in
          (id, at, lookup_fqdn_by_id-some db id name (found ∙ named))
    ]
  ]
]

or_false : (b : Bool) → (b || false) ≡ true → b ≡ true
or_false true h = refl
or_false false h = h

module _ (from_str : String → Option (List String)) (db : Database) where
  build_edge-row :
      (row : EdgeRow) (from : String) (e : RawEdge)
      → build_edge from_str db row from ≡ ok e
      → (edge_kind_from_sql_text row.kind ≡ ok e.kind)
        × (build_target db row ≡ ok e.to)
        × (e.from_fqdn ≡ from)
  unfolding build_edge
  build_edge-row row from e done =
      let (kind, read, e₁) = ok_of_bind (edge_kind_from_sql_text row.kind) _ done in
      let (to, target, e₂) = ok_of_bind (build_target db row) _ e₁ in
      let (sites, _, e₃) = ok_of_bind (load_edge_sites db row.id) _ e₂ in
      let (attributes, _, e₄) = ok_of_bind (parse_attributes (from_str row.attributes)) _ e₃ in
      let (confidence, _, e₅) = ok_of_bind (edge_confidence_from_sql_text row.confidence) _ e₄ in
      let same = ok-injective _ _ e₅ in
      (
        read ∙ ap (λ (x : RawEdge). ok x.kind) same,
        target ∙ ap (λ (x : RawEdge). ok x.to) same,
        inverse (ap (λ (x : RawEdge). x.from_fqdn) same),
      )

  build_edges-row :
      (rows : List (EdgeRow × String)) (es : List RawEdge) (e : RawEdge)
      → build_edges from_str db rows ≡ ok es
      → In e es
      → (p : EdgeRow × String) × In p rows × (build_edge from_str db p.0 p.1 ≡ ok e)
  unfolding build_edges
  build_edges-row [] es e done held = absurd (subst (In e) (inverse (ok-injective _ _ done)) held)
  build_edges-row ((row, from) ∷ rows) es e done held =
      let (first, built, e₁) = ok_of_bind (build_edge from_str db row from) _ done in
      let (rest, later, e₂) = ok_of_bind (build_edges from_str db rows) _ e₁ in
      elim (subst (In e) (inverse (ok-injective _ _ e₂)) held) [
        | inl same ↦ ((row, from), inl refl, built ∙ ap ok (inverse same))
        | inr there ↦ let (p, k, h) = build_edges-row rows rest e later there in (p, inr k, h)
      ]

  edges_from-row :
      (fqdn : String) (es : List RawEdge) (e : RawEdge) (name : String)
      → edges_from from_str db fqdn ≡ ok es
      → In e es
      → resolved_fqdn e.to ≡ some name
      → (row : EdgeRow) × In row db.edges
        × (edge_kind_from_sql_text row.kind ≡ ok e.kind)
        × IsNamed db row.from_symbol_id fqdn
        × ((id : ℕ) × (row.to_symbol_id ≡ some id) × IsNamed db id name)
  unfolding edges_from
  edges_from-row fqdn es e name done held resolved =
      elim (Option-cases (lookup_id_by_fqdn db fqdn)) [
        | inl unknown ↦
            absurd
              (subst (In e) (inverse (ok-injective _ _ (rw (edges_from, unknown) at done))) held)
        | inr (id, found) ↦
            let ((row, from), listed, built) =
              build_edges-row (map (λ r. (r, fqdn)) (keep_if (leaves id) db.edges)) es e
                (rw (edges_from, found) at done) held in
            let (row', kept, same) =
              In-map (λ (r : EdgeRow). (r, fqdn)) (row, from) (keep_if (leaves id) db.edges)
                listed in
            let same' : row ≡ row' = ap (λ (p : EdgeRow × String). p.0) same in
            let (stored, at) = keep_if_sound (leaves id) db.edges row' kept in
            let (kind, target, _) = build_edge-row row from e built in
            let (s, there, key, named) = lookup_id_by_fqdn-some db fqdn id found in
            (
              row,
              subst (λ r. In r db.edges) (inverse same') stored,
              kind,
              (
                s,
                there,
                key
                    ∙ inverse ((eqb_iff row'.from_symbol_id id).0 at)
                    ∙ inverse (ap (λ (r : EdgeRow). r.from_symbol_id) same'),
                named,
              ),
              build_target-resolved db row e.to name target resolved,
            )
      ]

  into_symbol :
      (row : EdgeRow) (fqdn : String) (found : Option ℕ)
      → lookup_id_by_fqdn db fqdn ≡ found
      → ((elim found [ none ↦ false | some id ↦ points_to id row ]) || false) ≡ true
      → (id : ℕ) × (row.to_symbol_id ≡ some id) × IsNamed db id fqdn
  into_symbol row fqdn none known tested = absurd (cc tested)
  into_symbol row fqdn (some id) known tested = (
    id,
    points_to_iff id row (or_false (points_to id row) tested),
    lookup_id_by_fqdn-some db fqdn id known,
  )

  enters-end :
      (row : EdgeRow) (fqdn : String)
      → enters from_str (lookup_id_by_fqdn db fqdn) fqdn row ≡ true
      → ((id : ℕ) × (row.to_symbol_id ≡ some id) × IsNamed db id fqdn)
        ⊎ (row.to_unresolved ≡ some fqdn)
  enters-end row fqdn tested = elim (Option-cases row.to_unresolved) [
    | inr (name, free) ↦ elim (Bool-cases (name == fqdn)) [
      | inl same ↦ inr (free ∙ ap some ((eq_iff name fqdn).0 same))
      | inr other ↦
          inl (into_symbol row fqdn (lookup_id_by_fqdn db fqdn) refl (rw (free, other) at tested))
    ]
    | inl closed ↦ inl (into_symbol row fqdn (lookup_id_by_fqdn db fqdn) refl (rw closed at tested))
  ]

  edges_to-row :
      (fqdn : String) (es : List RawEdge) (e : RawEdge)
      → edges_to from_str db fqdn ≡ ok es
      → In e es
      → (row : EdgeRow) × In row db.edges
        × (edge_kind_from_sql_text row.kind ≡ ok e.kind)
        × IsNamed db row.from_symbol_id e.from_fqdn
        × (((id : ℕ) × (row.to_symbol_id ≡ some id) × IsNamed db id fqdn)
            ⊎ (row.to_unresolved ≡ some fqdn))
  unfolding edges_to
  edges_to-row fqdn es e done held =
      let found = lookup_id_by_fqdn db fqdn in
      let entering = keep_if (enters from_str found fqdn) db.edges in
      let ((row, from), listed, built) =
        build_edges-row (concat_map (with_source from_str db.symbols) entering) es e done held in
      let (row', kept, at) =
        In-concat_map (with_source from_str db.symbols) (row, from) entering listed in
      let (s, joined, same) = In-map (λ (f : SymbolRow). (row', f.fqdn)) (row, from) _ at in
      let (there, key) = keep_if_sound (has_id row'.from_symbol_id) db.symbols s joined in
      let (stored, tested) = keep_if_sound (enters from_str found fqdn) db.edges row' kept in
      let same' : row' ≡ row = inverse (ap (λ (p : EdgeRow × String). p.0) same) in
      let (kind, _, named) = build_edge-row row from e built in
      (
        row',
        stored,
        subst (λ (r : EdgeRow). edge_kind_from_sql_text r.kind ≡ ok e.kind) (inverse same') kind,
        (
          s,
          there,
          (eqb_iff s.id row'.from_symbol_id).0 key,
          inverse (named ∙ ap (λ (p : EdgeRow × String). p.1) same),
        ),
        enters-end row' fqdn tested,
      )

  pub IsRead-IsStored :
      (kinds : Option (List EdgeKind)) (g : GraphEdge)
      → IsRead from_str db kinds g
      → IsStored db kinds g
  IsRead-IsStored kinds g (allowed, how) = elim how [
    | inl (es, e, read, held, kind, to) ↦
        let (row, stored, text, source, target) = edges_from-row g.from es e g.to read held to in
        (allowed, row, stored, text ∙ ap ok kind, source, inl target)
    | inr (es, e, read, held, kind, from, inbound) ↦
        let (row, stored, text, source, target) = edges_to-row g.to es e read held in
        (
          allowed,
          row,
          stored,
          text ∙ ap ok kind,
          subst (IsNamed db row.from_symbol_id) from source,
          elim target [ inl symbol ↦ inl symbol | inr name ↦ inr (name, inbound) ],
        )
  ]
