-- ===== src/Storage/Satellites/Imports.antt =====
-- The loop of `put_module_lookup` over the imports of a module.
pub mod Rebuilt
use standardoc.Base.{
  String, ℕ, ◌≡◌, ◌↔◌, refl, sym as inverse, ap, ap₂, subst, ◌∙◌, ◌⊎◌, inl, inr, Bool, true, false,
  ◌&&◌, not, Option, none, some, List, [], ◌∷◌, ◌++◌, In, In-append_left, In-append_right,
  In-append_last, keep_if, keep_if_sound, keep_if_complete, ◌==◌, eq_iff, eq_refl, if◌then◌else◌,
  Bool-cases, arith,
}
use standardoc.Ir.Lookup.{ModuleLookup, ImportRecord}
use standardoc.Storage.Error.{Result, ok, ok_of_bind, ok-injective}
use standardoc.Storage.Serde.{Serde}
use standardoc.Storage.Database.{Database, ImportRow}
use standardoc.Storage.Satellites.{
  is_import_of, import_row, was_seen, insert_imports, put_module_lookup,
}

both : (a b : Bool) → (a && b) ≡ true → (a ≡ true) × (b ≡ true)
both true b h = (refl, h)
both false b h = absurd (cc)

-- `(local_name, origin_module)` has been written.
abbrev pub Seen : List (String × String) → String → String → Type 0
Seen seen local_name origin_module = In (local_name, origin_module) seen

was_seen_sound :
    (seen : List (String × String)) (l o : String) → was_seen seen l o ≡ true → Seen seen l o
unfolding was_seen
was_seen_sound [] l o h = absurd (cc)
was_seen_sound ((a, b) ∷ seen) l o h = elim (Bool-cases (a == l && b == o)) [
  | inl e ↦ inl (
      inverse (
        ap₂ (λ (x y : String). (x, y)) ((eq_iff a l).0 (both (a == l) (b == o) e).0)
          ((eq_iff b o).0 (both (a == l) (b == o) e).1)))
  | inr e ↦ inr (was_seen_sound seen l o (rw (was_seen, e) at h))
]

was_seen_complete :
    (seen : List (String × String)) (l o : String) → Seen seen l o → was_seen seen l o ≡ true
unfolding was_seen
was_seen_complete [] l o h = absurd h
was_seen_complete ((a, b) ∷ seen) l o (inl e) =
    let same : l ≡ a = ap (λ (p : String × String). p.0) e in
    let same' : o ≡ b = ap (λ (p : String × String). p.1) e in
    rw (was_seen, same, same', eq_refl a, eq_refl b) refl
was_seen_complete ((a, b) ∷ seen) l o (inr h) =
    let rest = was_seen_complete seen l o h in
    elim (Bool-cases (a == l && b == o)) [
      | inl e ↦ rw (was_seen, e) refl
      | inr e ↦ rw (was_seen, e) rest
    ]

module _ (workspace_id module_fqdn : String) where
  abbrev pub IsMine : ImportRow → Type 0
  IsMine r = is_import_of workspace_id module_fqdn r ≡ true

  pub import_row-IsMine : (i : ImportRecord) → IsMine (import_row workspace_id module_fqdn i)
  unfolding import_row
  import_row-IsMine i = simp eq_refl

  -- One row for each pair of a name and an origin, and all those pairs have been seen.
  pub record IsUnique (seen : List (String × String)) (rows : List ImportRow) : Type 0 where
    pub one :
        (r s : ImportRow)
        → In r rows
        → In s rows
        → IsMine r
        → IsMine s
        → r.local_name ≡ s.local_name
        → r.origin_module ≡ s.origin_module
        → r ≡ s
    pub known : (r : ImportRow) → In r rows → IsMine r → Seen seen r.local_name r.origin_module

  pub insert_imports-keeps :
      (imports : List ImportRecord) (seen : List (String × String)) (rows : List ImportRow)
      → (r : ImportRow) → In r rows
      → In r (insert_imports workspace_id module_fqdn seen imports rows)
  unfolding insert_imports
  insert_imports-keeps [] seen rows r h = h
  insert_imports-keeps (i ∷ imports) seen rows r h =
      elim (Bool-cases (was_seen seen i.local_name i.origin_module)) [
        | inl e ↦ rw (insert_imports, e) (insert_imports-keeps imports seen rows r h)
        | inr e ↦
            rw (insert_imports, e) (insert_imports-keeps imports _ _ r (In-append_left r rows _ h))
      ]

  pub insert_imports_sound :
      (imports : List ImportRecord) (seen : List (String × String)) (rows : List ImportRow)
      → (r : ImportRow) → In r (insert_imports workspace_id module_fqdn seen imports rows)
      → In r rows
        ⊎ ((i : ImportRecord) × In i imports × (r ≡ import_row workspace_id module_fqdn i))
  unfolding insert_imports
  insert_imports_sound [] seen rows r h = inl h
  insert_imports_sound (i ∷ imports) seen rows r h =
      elim (Bool-cases (was_seen seen i.local_name i.origin_module)) [
        | inl e ↦ elim (insert_imports_sound imports seen rows r (rw (insert_imports, e) at h)) [
          | inl old ↦ inl old
          | inr new ↦ inr (new.0, inr new.1, new.2)
        ]
        | inr e ↦ elim (insert_imports_sound imports _ _ r (rw (insert_imports, e) at h)) [
          | inl old ↦ elim (In-append_last r rows _ old) [
            | inl older ↦ inl older
            | inr same ↦ inr (i, inl refl, same)
          ]
          | inr new ↦ inr (new.0, inr new.1, new.2)
        ]
      ]

  -- The pair has a row.
  abbrev pub HasPair : List ImportRow → String → String → Type 0
  HasPair rows l o =
      (r : ImportRow) × In r rows × IsMine r × (r.local_name ≡ l) × (r.origin_module ≡ o)

  pub insert_imports_complete :
      (imports : List ImportRecord) (seen : List (String × String)) (rows : List ImportRow)
      → ((l o : String) → Seen seen l o → HasPair rows l o)
      → (i : ImportRecord) → In i imports
      → HasPair
          (insert_imports workspace_id module_fqdn seen imports rows)
          i.local_name
          i.origin_module
  unfolding insert_imports import_row
  insert_imports_complete [] seen rows covered i h = absurd h
  insert_imports_complete (j ∷ imports) seen rows covered i h =
      elim (Bool-cases (was_seen seen j.local_name j.origin_module)) [
        | inl e ↦
            rw (insert_imports, e)
              (elim h [
                | inl same ↦
                    let (r, held, own, name, origin) =
                      covered j.local_name j.origin_module
                        (was_seen_sound seen j.local_name j.origin_module e) in
                    (
                      r,
                      insert_imports-keeps imports seen rows r held,
                      own,
                      name ∙ ap (λ (x : ImportRecord). x.local_name) (inverse same),
                      origin ∙ ap (λ (x : ImportRecord). x.origin_module) (inverse same),
                    )
                | inr later ↦ insert_imports_complete imports seen rows covered i later
              ])
        | inr e ↦
            let row = import_row workspace_id module_fqdn j in
            let seen' = (j.local_name, j.origin_module) ∷ seen in
            let held = In-append_right row rows (row ∷ []) (inl refl) in
            rw (insert_imports, e)
              (elim h [
                | inl same ↦ (
                  row,
                  insert_imports-keeps imports seen' (rows ++ row ∷ []) row held,
                  import_row-IsMine j,
                  ap (λ (x : ImportRecord). x.local_name) (inverse same),
                  ap (λ (x : ImportRecord). x.origin_module) (inverse same),
                )
                | inr later ↦
                    insert_imports_complete imports seen' (rows ++ row ∷ [])
                      (λ l o s. elim s [
                        | inl same ↦ (
                          row,
                          held,
                          import_row-IsMine j,
                          ap (λ (p : String × String). p.0) (inverse same),
                          ap (λ (p : String × String). p.1) (inverse same),
                        )
                        | inr before ↦
                            let (r, there, own, name, origin) = covered l o before in
                            (r, In-append_left r rows (row ∷ []) there, own, name, origin)
                      ])
                      i later
              ])
      ]

  -- The row that is written next has a pair that no row has.
  module _ (i : ImportRecord) (seen : List (String × String)) (rows : List ImportRow)
      (unseen : was_seen seen i.local_name i.origin_module ≡ false) (u : IsUnique seen rows) where
    abbrev row_i : ImportRow
    row_i = import_row workspace_id module_fqdn i

    pair_is_new :
        (r : ImportRow)
        → In r rows
        → IsMine r
        → r.local_name ≡ i.local_name
        → r.origin_module ≡ i.origin_module
        → ⊥
    pair_is_new r held own name origin =
        let before : Seen seen i.local_name i.origin_module =
          subst (λ l. Seen seen l i.origin_module) name
            (subst (λ o. Seen seen r.local_name o) origin (u.known r held own)) in
        absurd (cc (unseen, was_seen_complete seen i.local_name i.origin_module before))

    written_one :
        (r s : ImportRow)
        → In r rows ⊎ (r ≡ row_i)
        → In s rows ⊎ (s ≡ row_i)
        → IsMine r
        → IsMine s
        → r.local_name ≡ s.local_name
        → r.origin_module ≡ s.origin_module
        → r ≡ s
    unfolding import_row
    written_one r s (inl a) (inl b) = u.one r s a b
    written_one r s (inr a) (inr b) = λ m n l o. a ∙ inverse b
    written_one r s (inl a) (inr b) = λ m n l o. absurd (
        pair_is_new r a m (l ∙ ap (λ (x : ImportRow). x.local_name) b)
          (o ∙ ap (λ (x : ImportRow). x.origin_module) b))
    written_one r s (inr a) (inl b) = λ m n l o. absurd (
        pair_is_new s b n (inverse l ∙ ap (λ (x : ImportRow). x.local_name) a)
          (inverse o ∙ ap (λ (x : ImportRow). x.origin_module) a))

    written-IsUnique : IsUnique ((i.local_name, i.origin_module) ∷ seen) (rows ++ row_i ∷ [])
    unfolding import_row
    written-IsUnique = record {
      one = λ r s hr hs.
          written_one r s (In-append_last r rows row_i hr) (In-append_last s rows row_i hs);
      known = λ r h own. elim (In-append_last r rows row_i h) [
        | inl old ↦ inr (u.known r old own)
        | inr e ↦ inl (ap (λ (x : ImportRow). (x.local_name, x.origin_module)) e)
      ];
    }

  pub insert_imports-IsUnique :
      (imports : List ImportRecord) (seen : List (String × String)) (rows : List ImportRow)
      → IsUnique seen rows
      → (later : List (String × String)) × IsUnique later
          (insert_imports workspace_id module_fqdn seen imports rows)
  unfolding insert_imports
  insert_imports-IsUnique [] seen rows u = (seen, u)
  insert_imports-IsUnique (i ∷ imports) seen rows u =
      elim (Bool-cases (was_seen seen i.local_name i.origin_module)) [
        | inl e ↦ rw (insert_imports, e) (insert_imports-IsUnique imports seen rows u)
        | inr e ↦
            rw (insert_imports, e)
              (insert_imports-IsUnique imports _ _ (written-IsUnique i seen rows e u))
      ]
