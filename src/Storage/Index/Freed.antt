-- ===== src/Storage/Index/Freed.antt =====
-- The rows that a deleted symbol leaves.
use mathlib.Core.Option
use standardoc.Base.{
  String, ℕ, ◌≡◌, ◌≢◌, refl, sym as inverse, ap, subst, ◌∙◌, ◌⊎◌, ◌↔◌, inl, inr, not, none, some,
  List, map, In, keep_if, keep_if_sound, keep_if_complete, Bool-cases, eqb_iff,
}
use standardoc.Storage.Database.{Database, SymbolRow, EdgeRow}
use standardoc.Storage.Symbols.{
  points_to, demote_edge, leaves, delete_edges, delete_symbol_row, delete_symbol,
}
use standardoc.Storage.Index.{IsIndexed, In-map, In-map_of, symbol_by_id-of}
use standardoc.Storage.Index.Delete.{
  without_sound, without_complete, not_of, points_to_iff, points_to-of, delete_symbol-IsIndexed,
}

-- What becomes of an edge when the symbol of the id and the name goes.
abbrev pub IsFreed : ℕ → String → EdgeRow → EdgeRow → Type 0
IsFreed id fqdn e x =
    (e.from_symbol_id ≢ id)
    × (((e.to_symbol_id ≢ some id) × (x ≡ e))
        ⊎ ((e.to_symbol_id ≡ some id)
            × (x ≡ record e { to_symbol_id = none; to_unresolved = some fqdn })))

demote_edge-cases :
    (id : ℕ) (fqdn : String) (e : EdgeRow)
    → ((e.to_symbol_id ≢ some id) × (demote_edge id (some fqdn) e ≡ e))
      ⊎ ((e.to_symbol_id ≡ some id)
          × (demote_edge id (some fqdn) e
              ≡ record e { to_symbol_id = none; to_unresolved = some fqdn }))
unfolding demote_edge
demote_edge-cases id fqdn e = elim (Bool-cases (points_to id e)) [
  | inl enters ↦ inr (points_to_iff id e enters, simp (demote_edge, enters))
  | inr misses ↦
      inl ((λ to. absurd (cc (misses, points_to-of id e to))), simp (demote_edge, misses))
]

demote_edge-from :
    (id : ℕ) (fqdn : String) (e : EdgeRow)
    → (demote_edge id (some fqdn) e).from_symbol_id ≡ e.from_symbol_id
demote_edge-from id fqdn e = elim (demote_edge-cases id fqdn e) [
  | inl (_, same) ↦ ap (λ (y : EdgeRow). y.from_symbol_id) same
  | inr (_, same) ↦ ap (λ (y : EdgeRow). y.from_symbol_id) same
]

demote_edge_iff :
    (id : ℕ) (fqdn : String) (es : List EdgeRow) (x : EdgeRow)
    → In x (keep_if (λ e. not (leaves id e)) (map (demote_edge id (some fqdn)) es))
      ↔ ((e : EdgeRow) × In e es × IsFreed id fqdn e x)
demote_edge_iff id fqdn es x = (
  λ there.
      let (demoted, stays) =
        keep_if_sound (λ e. not (leaves id e)) (map (demote_edge id (some fqdn)) es) x there in
      let (e, held, same) = In-map (demote_edge id (some fqdn)) x es demoted in
      let from = ap (λ (y : EdgeRow). y.from_symbol_id) same ∙ demote_edge-from id fqdn e in
      (
        e,
        held,
        (
          (λ at. absurd (cc (stays, (eqb_iff x.from_symbol_id id).1 (from ∙ at)))),
          elim (demote_edge-cases id fqdn e) [
            | inl (other, kept) ↦ inl (other, same ∙ kept)
            | inr (enters, demoted) ↦ inr (enters, same ∙ demoted)
          ],
        ),
      ),
  λ k.
      let (e, held, (stays, how)) = k in
      let same : demote_edge id (some fqdn) e ≡ x = elim (demote_edge-cases id fqdn e) [
        | inl (other, kept) ↦ elim how [
          | inl (_, at) ↦ kept ∙ inverse at
          | inr (enters, _) ↦ absurd (other enters)
        ]
        | inr (enters, demoted) ↦ elim how [
          | inl (other, _) ↦ absurd (other enters)
          | inr (_, at) ↦ demoted ∙ inverse at
        ]
      ] in
      subst (λ y. In y (keep_if (λ e. not (leaves id e)) (map (demote_edge id (some fqdn)) es)))
        same
        (keep_if_complete (λ e. not (leaves id e)) (map (demote_edge id (some fqdn)) es)
          (demote_edge id (some fqdn) e) (In-map_of (demote_edge id (some fqdn)) e es held)
          (not_of (leaves id (demote_edge id (some fqdn) e))
            (λ at. stays (inverse (demote_edge-from id fqdn e) ∙ (eqb_iff _ id).0 at)))),
)

-- Deleting a symbol leaves the other symbols, and of the edges those that do not leave it: an edge
-- that enters it falls back on its name, and any other is as before. The index is then consistent for
-- the same pending ids.
pub delete_symbol-IsFreed :
    (pending : List ℕ) (db : Database) (s : SymbolRow)
    → IsIndexed pending db
    → In s db.symbols
    → IsIndexed pending (delete_symbol db s.id)
      × ((t : SymbolRow) → In t (delete_symbol db s.id).symbols ↔ (In t db.symbols × (t.id ≢ s.id)))
      × ((x : EdgeRow)
          → In x (delete_symbol db s.id).edges
            ↔ ((e : EdgeRow) × In e db.edges × IsFreed s.id s.fqdn e x))
unfolding delete_symbol delete_symbol_row delete_edges
delete_symbol-IsFreed pending db s h held =
    let found = symbol_by_id-of db.symbols db.next_symbol_id s.id s h.table held refl in
    (
      delete_symbol-IsIndexed pending db s.id h,
      λ t. (without_sound s.id db.symbols t, λ k. without_complete s.id db.symbols t k.0 k.1),
      λ x.
          subst
            (λ name.
              In x (
                keep_if (λ e. not (leaves s.id e))
                  (map (demote_edge s.id (Option.map (λ (r : SymbolRow). r.fqdn) name)) db.edges))
              ↔ ((e : EdgeRow) × In e db.edges × IsFreed s.id s.fqdn e x))
            (inverse found) (demote_edge_iff s.id s.fqdn db.edges x),
    )
