-- ===== src/Storage/Index/Delete.antt =====
-- The tables `symbols` and `edges` without one symbol.
use standardoc.Base.{
  String, ℕ, ◌≡◌, ◌≢◌, refl, sym as inverse, ap, subst, ◌∙◌, inl, inr, Bool, true, false, not,
  Option, none, some, List, map, In, keep_if, keep_if_sound, keep_if_complete, Option-cases,
  Bool-cases, eqb_iff,
}
use mathlib.Core.Option
use standardoc.Storage.Database.{Database, SymbolRow, EdgeRow, has_id, symbol_by_id}
use standardoc.Storage.Symbols.{
  points_to, demote_edge, leaves, delete_edges, delete_symbol_row, delete_symbol,
}
use standardoc.Storage.Index.{IsTarget, IsEdge, IsTable, IsIndexed, In-map, symbol_by_id-of}

abbrev pub without : ℕ → List SymbolRow → List SymbolRow
without id = keep_if (λ s. not (has_id id s))

pub without_sound :
    (id : ℕ) (symbols : List SymbolRow) (s : SymbolRow)
    → In s (without id symbols)
    → In s symbols × (s.id ≢ id)
without_sound id symbols s h =
    let (held, tested) = keep_if_sound (λ s. not (has_id id s)) symbols s h in
    (held, λ e. absurd (cc ((eqb_iff s.id id).1 e, tested)))

pub not_of : (b : Bool) → (b ≡ true → ⊥) → not b ≡ true
not_of true h = absurd (h refl)
not_of false h = refl

pub without_complete :
    (id : ℕ) (symbols : List SymbolRow) (s : SymbolRow)
    → In s symbols
    → s.id ≢ id
    → In s (without id symbols)
without_complete id symbols s held other =
    keep_if_complete (λ s. not (has_id id s)) symbols s held
      (not_of (has_id id s) (λ e. other ((eqb_iff s.id id).0 e)))

module _ (id : ℕ) (symbols : List SymbolRow) (next : ℕ) (table : IsTable symbols next) where
  without-IsTable : IsTable (without id symbols) next
  without-IsTable = record {
    below = λ s h. table.below s (without_sound id symbols s h).0;
    id_is_key = λ s t hs ht.
        table.id_is_key s t (without_sound id symbols s hs).0 (without_sound id symbols t ht).0;
    name_is_key = λ s t hs ht.
        table.name_is_key s t (without_sound id symbols s hs).0 (without_sound id symbols t ht).0;
  }

  -- The end of an edge that did not enter the symbol stands.
  without-IsTarget :
      (pending : List ℕ) (workspace_id : String) (to : Option ℕ) (name : Option String)
      → to ≢ some id
      → IsTarget pending symbols workspace_id to name
      → IsTarget pending (without id symbols) workspace_id to name
  unfolding IsTarget
  without-IsTarget pending workspace_id (some t) (some name) other h = absurd h
  without-IsTarget pending workspace_id none none other h = absurd h
  without-IsTarget pending workspace_id (some i) none other h =
      let (t, held, same, scoped) = h in
      (
        t,
        without_complete id symbols t held (λ e. other (ap some (inverse same ∙ e))),
        same,
        scoped,
      )
  without-IsTarget pending workspace_id none (some name) other h =
      λ t held scoped named. h t (without_sound id symbols t held).0 scoped named

  -- The end of an edge that entered it is a name that no symbol of the workspace has any more.
  demoted-IsTarget :
      (pending : List ℕ) (workspace_id : String) (to : Option ℕ) (name fqdn : Option String)
      → to ≡ some id
      → fqdn ≡ Option.map (λ (s : SymbolRow). s.fqdn) (symbol_by_id symbols id)
      → IsTarget pending symbols workspace_id to name
      → IsTarget pending (without id symbols) workspace_id none fqdn
  unfolding IsTarget
  demoted-IsTarget pending workspace_id (some t) (some name) fqdn same read h = absurd h
  demoted-IsTarget pending workspace_id none name fqdn same read h = absurd (cc same)
  demoted-IsTarget pending workspace_id (some i) none fqdn same read h =
      let (d, held, at, scoped) = h in
      let at' : d.id ≡ id = at ∙ cc same in
      let found = symbol_by_id-of symbols next id d table held at' in
      subst (IsTarget pending (without id symbols) workspace_id none)
        (inverse (read ∙ ap (Option.map (λ (s : SymbolRow). s.fqdn)) found))
        (λ t there scoped' named.
          let (stored, other) = without_sound id symbols t there in
          absurd (
            other (
              ap (λ (s : SymbolRow). s.id)
                (table.name_is_key t d stored held (scoped' ∙ inverse scoped) named)
              ∙ at')))

pub points_to_iff : (id : ℕ) (e : EdgeRow) → (points_to id e ≡ true) → e.to_symbol_id ≡ some id
points_to_iff id e h = elim (Option-cases e.to_symbol_id) [
  | inl missing ↦ absurd (cc (rw missing at h))
  | inr (t, found) ↦ found ∙ ap some ((eqb_iff t id).0 (rw found at h))
]

pub points_to-of : (id : ℕ) (e : EdgeRow) → e.to_symbol_id ≡ some id → points_to id e ≡ true
points_to-of id e h = rw h ((eqb_iff id id).1 refl)

module _ (id : ℕ) (symbols : List SymbolRow) (next : ℕ) (table : IsTable symbols next) where
  abbrev name_of : Option String
  name_of = Option.map (λ (s : SymbolRow). s.fqdn) (symbol_by_id symbols id)

  demote_edge-IsEdge :
      (pending : List ℕ) (e : EdgeRow)
      → IsEdge pending symbols e
      → (demote_edge id name_of e).from_symbol_id ≢ id
      → IsEdge pending (without id symbols) (demote_edge id name_of e)
  unfolding demote_edge
  demote_edge-IsEdge pending e (s, held, same, end) stays = elim (Bool-cases (points_to id e)) [
    | inl enters ↦
        let demoted : demote_edge id name_of e
            ≡ record e { to_symbol_id = none; to_unresolved = name_of } =
          simp (demote_edge, enters) in
        subst (IsEdge pending (without id symbols)) (inverse demoted) (
          s,
          without_complete id symbols s held
              (λ at. stays (ap (λ (x : EdgeRow). x.from_symbol_id) demoted ∙ inverse same ∙ at)),
          same,
          demoted-IsTarget id symbols next table pending s.workspace_id e.to_symbol_id
              e.to_unresolved name_of (points_to_iff id e enters) refl end,
        )
    | inr misses ↦
        let kept : demote_edge id name_of e ≡ e = simp (demote_edge, misses) in
        subst (IsEdge pending (without id symbols)) (inverse kept) (
          s,
          without_complete id symbols s held
              (λ at. stays (ap (λ (x : EdgeRow). x.from_symbol_id) kept ∙ inverse same ∙ at)),
          same,
          without-IsTarget id symbols next table pending s.workspace_id e.to_symbol_id
              e.to_unresolved (λ to. absurd (cc (misses, points_to-of id e to))) end,
        )
  ]

-- Deleting a symbol keeps the index consistent for every set of pending ids.
pub delete_symbol-IsIndexed :
    (pending : List ℕ) (db : Database) (id : ℕ)
    → IsIndexed pending db
    → IsIndexed pending (delete_symbol db id)
unfolding delete_symbol delete_symbol_row delete_edges
delete_symbol-IsIndexed pending db id h = record {
  table = without-IsTable id db.symbols db.next_symbol_id h.table;
  edges = λ x there.
      let fqdn = Option.map (λ (s : SymbolRow). s.fqdn) (symbol_by_id db.symbols id) in
      let (demoted, stays) =
        keep_if_sound (λ e. not (leaves id e)) (map (demote_edge id fqdn) db.edges) x there in
      let (e, held, same) = In-map (demote_edge id fqdn) x db.edges demoted in
      subst (IsEdge pending (without id db.symbols)) (inverse same) (
        demote_edge-IsEdge id db.symbols db.next_symbol_id h.table pending e (h.edges e held) (λ at.
          absurd (
            cc (
              stays,
              (eqb_iff x.from_symbol_id id).1 (ap (λ (y : EdgeRow). y.from_symbol_id) same ∙ at),
            ))));
}

pub delete_symbol-symbols :
    (db : Database) (id : ℕ) → (delete_symbol db id).symbols ≡ without id db.symbols
unfolding delete_symbol delete_symbol_row delete_edges
delete_symbol-symbols db id = refl
