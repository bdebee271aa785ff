-- ===== src/Storage/Symbols/Lookup.antt =====
-- What a lookup by name finds after `insert_symbol`.
use standardoc.Base.{
  String, ℕ, ◌≡◌, refl, sym as inverse, ap, subst, ◌∙◌, Bool, true, false, Option, none, some, List,
  [], ◌∷◌, ◌++◌, map, find, inl, inr, if◌then◌else◌, Bool-cases, Option-cases, arith,
}
use mathlib.Core.Option
use standardoc.Ir.Symbol.{RawSymbol}
use standardoc.Storage.Index.{has_key-true, has_key-of, find-some}
use standardoc.Storage.Error.{ok, ok_of_bind, ok-injective}
use standardoc.Storage.Serde.{Serde}
use standardoc.Storage.Database.{Database, SymbolRow, has_key, symbol_by_key, file_by_path}
use standardoc.Storage.Symbols.{
  SymbolInsertContext, replace_row, upsert_row, insert_symbol, optional_signature, row_of_symbol,
}

module _ {A : Type 0} (p : A → Bool) where
  find-append :
      (xs : List A) (y : A) → find p xs ≡ none → p y ≡ true → find p (xs ++ y ∷ []) ≡ some y
  find-append [] y h e = rw e refl
  find-append (x ∷ xs) y h e = ground (arith, find-append xs y)

  find-append_other : (xs : List A) (y : A) → p y ≡ false → find p (xs ++ y ∷ []) ≡ find p xs
  find-append_other [] y e = rw e refl
  find-append_other (x ∷ xs) y e = ground (arith, find-append_other xs y e)

  -- A change that the test does not see changes what is found.
  find-map :
      (f : A → A) (xs : List A)
      → ((x : A) → p (f x) ≡ p x)
      → find p (map f xs) ≡ Option.map f (find p xs)
  find-map f [] keeps = refl
  find-map f (x ∷ xs) keeps = ground (arith, keeps x, find-map f xs keeps)

-- The statement as seen by lookups: the new row is found under its key with the id that is returned,
-- every other key finds what it found before.
abbrev pub IsWritten : Database → SymbolRow → Database → ℕ → Type 0
IsWritten db new db' id =
    (workspace_id fqdn : String)
    → symbol_by_key db'.symbols workspace_id fqdn ≡ (
        if has_key workspace_id fqdn new
        then some (record new { id = id })
        else symbol_by_key db.symbols workspace_id fqdn)

-- A row that has both keys.
has_key-both :
    (w f : String) (new s : SymbolRow)
    → has_key w f s ≡ true
    → has_key new.workspace_id new.fqdn s ≡ true
    → has_key w f new ≡ true
has_key-both w f new s h k =
    let (a, b) = has_key-true w f s h in
    let (c, d) = has_key-true new.workspace_id new.fqdn s k in
    has_key-of w f new (inverse c ∙ a) (inverse d ∙ b)

abbrev replaced : SymbolRow → SymbolRow → SymbolRow
replaced new s = if has_key new.workspace_id new.fqdn s then record new { id = s.id } else s

module _ (w f : String) (new : SymbolRow) where
  replaced-has_key : (s : SymbolRow) → has_key w f (replaced new s) ≡ has_key w f s
  replaced-has_key s = elim (Bool-cases (has_key new.workspace_id new.fqdn s)) [
    | inr other ↦ rw other refl
    | inl same ↦
        let (scope, name) = has_key-true new.workspace_id new.fqdn s same in
        rw same (simp (scope, name))
  ]

  -- The rows of other keys stay.
  find-replaced :
      (o : Option SymbolRow) (symbols : List SymbolRow)
      → find (has_key w f) symbols ≡ o
      → has_key w f new ≡ false
      → Option.map (replaced new) o ≡ o
  find-replaced none symbols found other = refl
  find-replaced (some s) symbols found other =
      let (_, tested) = find-some (has_key w f) symbols s found in
      elim (Bool-cases (has_key new.workspace_id new.fqdn s)) [
        | inl same ↦ absurd (cc (other, has_key-both w f new s tested same))
        | inr different ↦ rw different refl
      ]

-- Two lookups of one key.
find-same_key :
    (w f : String) (new : SymbolRow) (symbols : List SymbolRow)
    → has_key w f new ≡ true
    → find (has_key w f) symbols ≡ find (has_key new.workspace_id new.fqdn) symbols
find-same_key w f new symbols h =
    let (scope, name) = has_key-true w f new h in rw (scope, name) refl

module _ (w f : String) (new : SymbolRow) (symbols : List SymbolRow) where
  find-replace :
      (old : SymbolRow)
      → find (has_key new.workspace_id new.fqdn) symbols ≡ some old
      → find (has_key w f) (map (replaced new) symbols) ≡ (
          if has_key w f new then some (record new { id = old.id }) else find (has_key w f) symbols)
  find-replace old stored =
      let changed = find-map (has_key w f) (replaced new) symbols (replaced-has_key w f new) in
      elim (Bool-cases (has_key w f new)) [
        | inl same ↦
            let tested = (find-some (has_key new.workspace_id new.fqdn) symbols old stored).1 in
            changed
            ∙ ap (Option.map (replaced new)) (find-same_key w f new symbols same ∙ stored)
            ∙ simp (tested, same)
        | inr other ↦
            changed
            ∙ find-replaced w f new (find (has_key w f) symbols) symbols refl other
            ∙ simp other
      ]

  find-push :
      (next : ℕ)
      → find (has_key new.workspace_id new.fqdn) symbols ≡ none
      → find (has_key w f) (symbols ++ record new { id = next } ∷ [])
        ≡ (if has_key w f new then some (record new { id = next }) else find (has_key w f) symbols)
  find-push next fresh = elim (Bool-cases (has_key w f new)) [
    | inl same ↦
        find-append (has_key w f) symbols (record new { id = next })
          (find-same_key w f new symbols same ∙ fresh) same
        ∙ simp same
    | inr other ↦
        find-append_other (has_key w f) symbols (record new { id = next }) other ∙ simp other
  ]

pub upsert_row-IsWritten :
    (db : Database) (new : SymbolRow) (db' : Database) (id : ℕ)
    → upsert_row db new ≡ ok (db', id)
    → IsWritten db new db' id
unfolding upsert_row replace_row symbol_by_key
upsert_row-IsWritten db new db' id e w f =
    elim (Option-cases (file_by_path db.files new.file_path)) [
      | inl no_file ↦ absurd (cc (rw (upsert_row, no_file) at e))
      | inr (_, file) ↦ elim (Option-cases (symbol_by_key db.symbols new.workspace_id new.fqdn)) [
        | inl fresh ↦
            subst
              (λ (p : Database × ℕ). symbol_by_key p.0.symbols w f ≡ (
                if has_key w f new
                then some (record new { id = p.1 })
                else symbol_by_key db.symbols w f))
              (ok-injective _ _ (rw (upsert_row, file, fresh) at e))
              (find-push w f new db.symbols db.next_symbol_id fresh)
        | inr (old, stored) ↦
            subst
              (λ (p : Database × ℕ). symbol_by_key p.0.symbols w f ≡ (
                if has_key w f new
                then some (record new { id = p.1 })
                else symbol_by_key db.symbols w f))
              (ok-injective _ _ (rw (upsert_row, file, stored) at e))
              (find-replace w f new db.symbols old stored)
      ]
    ]

-- A symbol that is inserted, or replaces one of its name, is found under its workspace and name with
-- the id that is returned and the columns of the symbol, and every other lookup is as before.
pub insert_symbol-IsWritten :
    (serde : Serde) (db : Database) (symbol : RawSymbol) (ctx : SymbolInsertContext)
    → (db' : Database) (id : ℕ) → insert_symbol serde db symbol ctx ≡ ok (db', id)
    → (json : Option String) × (optional_signature serde symbol.signature ≡ ok json)
      × IsWritten db (row_of_symbol serde symbol ctx json 0) db' id
unfolding insert_symbol
insert_symbol-IsWritten serde db symbol ctx db' id e =
    let (json, encoded, done) =
      ok_of_bind (optional_signature serde symbol.signature)
        (λ json. upsert_row db (row_of_symbol serde symbol ctx json 0)) e in
    (json, encoded, upsert_row-IsWritten db (row_of_symbol serde symbol ctx json 0) db' id done)
