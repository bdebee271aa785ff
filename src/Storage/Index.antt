-- ===== src/Storage/Index.antt =====
-- What holds of the tables `symbols` and `edges` between the writes of the pipeline.
pub mod Append
pub mod Symbols
pub mod Edges
pub mod Promote
pub mod Delete
pub mod Freed
pub mod Frame
pub mod Relink
use standardoc.Base.{
  String, ℕ, ◌<◌, ◌≡◌, refl, sym as inverse, ap, ◌∙◌, ◌⊎◌, inl, inr, Bool, true, false, ◌&&◌,
  Option, none, some, List, [], ◌∷◌, ◌++◌, map, In, find, keep_if, eqb, eqb_iff, eq_iff, ◌==◌,
  arith, Option-cases, Bool-cases,
}
use standardoc.Storage.Database.{
  Database, SymbolRow, EdgeRow, has_key, has_id, symbol_by_key, symbol_by_id,
}

-- The end of an edge whose source is in the given workspace: either a symbol of that workspace, or
-- a name. A name that is a symbol of the workspace is one of the `pending` ids.
unfoldable pub IsTarget : List ℕ → List SymbolRow → String → Option ℕ → Option String → Type 0
IsTarget pending symbols workspace_id (some id) (some name) = ⊥
IsTarget pending symbols workspace_id none none = ⊥
IsTarget pending symbols workspace_id (some id) none =
    (t : SymbolRow) × In t symbols × (t.id ≡ id) × (t.workspace_id ≡ workspace_id)
IsTarget pending symbols workspace_id none (some name) =
    (t : SymbolRow) → In t symbols → t.workspace_id ≡ workspace_id → t.fqdn ≡ name → In t.id pending

abbrev pub IsEdge : List ℕ → List SymbolRow → EdgeRow → Type 0
IsEdge pending symbols e =
    (s : SymbolRow) × In s symbols
    × (s.id ≡ e.from_symbol_id)
    × IsTarget pending symbols s.workspace_id e.to_symbol_id e.to_unresolved

-- The ids and the pairs of a workspace and a name are keys, and the next id is above all others.
pub record IsTable (symbols : List SymbolRow) (next : ℕ) : Type 0 where
  pub below : (s : SymbolRow) → In s symbols → s.id < next
  pub id_is_key : (s t : SymbolRow) → In s symbols → In t symbols → s.id ≡ t.id → s ≡ t
  pub name_is_key :
      (s t : SymbolRow)
      → In s symbols
      → In t symbols
      → s.workspace_id ≡ t.workspace_id
      → s.fqdn ≡ t.fqdn
      → s ≡ t

pub record IsIndexed (pending : List ℕ) (db : Database) : Type 0 where
  pub table : IsTable db.symbols db.next_symbol_id
  pub edges : (e : EdgeRow) → In e db.edges → IsEdge pending db.symbols e

-- Between two commands no name of a symbol is left unresolved in its own workspace.
abbrev pub IsConsistent : Database → Type 0
IsConsistent db = IsIndexed [] db

module _ {A : Type 0} (p : A → Bool) where
  pub find-some : (xs : List A) (a : A) → find p xs ≡ some a → In a xs × (p a ≡ true)
  find-some [] a h = absurd (cc)
  find-some (x ∷ xs) a h = ground (arith, find-some xs a)

  pub find-none : (xs : List A) (a : A) → find p xs ≡ none → In a xs → p a ≡ false
  find-none [] a h i = absurd i
  find-none (x ∷ xs) a h i = ground (arith, find-none xs a)

module _ {A B : Type 0} (f : A → B) where
  pub In-map : (b : B) (xs : List A) → In b (map f xs) → (a : A) × In a xs × (b ≡ f a)
  In-map b [] h = absurd h
  In-map b (x ∷ xs) (inl e) = (x, inl refl, e)
  In-map b (x ∷ xs) (inr h) = let (a, held, e) = In-map b xs h in (a, inr held, e)

  pub In-map_of : (a : A) (xs : List A) → In a xs → In (f a) (map f xs)
  In-map_of a [] h = absurd h
  In-map_of a (x ∷ xs) (inl e) = inl (ap f e)
  In-map_of a (x ∷ xs) (inr h) = inr (In-map_of a xs h)

pub and_iff : (a b : Bool) → (a && b) ≡ true → (a ≡ true) × (b ≡ true)
and_iff true b h = (refl, h)
and_iff false b h = absurd (cc)

pub has_key-true :
    (workspace_id fqdn : String) (s : SymbolRow)
    → has_key workspace_id fqdn s ≡ true
    → (s.workspace_id ≡ workspace_id) × (s.fqdn ≡ fqdn)
has_key-true workspace_id fqdn s h =
    let (w, f) = and_iff (s.workspace_id == workspace_id) (s.fqdn == fqdn) h in
    ((eq_iff s.workspace_id workspace_id).0 w, (eq_iff s.fqdn fqdn).0 f)

pub has_key-of :
    (workspace_id fqdn : String) (s : SymbolRow)
    → s.workspace_id ≡ workspace_id
    → s.fqdn ≡ fqdn
    → has_key workspace_id fqdn s ≡ true
has_key-of workspace_id fqdn s w f =
    simp ((eq_iff s.workspace_id workspace_id).1 w, (eq_iff s.fqdn fqdn).1 f)

pub symbol_by_key-some :
    (symbols : List SymbolRow) (workspace_id fqdn : String) (s : SymbolRow)
    → symbol_by_key symbols workspace_id fqdn ≡ some s
    → In s symbols × (s.workspace_id ≡ workspace_id) × (s.fqdn ≡ fqdn)
unfolding symbol_by_key
symbol_by_key-some symbols workspace_id fqdn s h =
    let (held, tested) = find-some (has_key workspace_id fqdn) symbols s h in
    let (w, f) = has_key-true workspace_id fqdn s tested in (held, w, f)

pub symbol_by_key-none :
    (symbols : List SymbolRow) (workspace_id fqdn : String) (s : SymbolRow)
    → symbol_by_key symbols workspace_id fqdn ≡ none
    → In s symbols
    → s.workspace_id ≡ workspace_id
    → s.fqdn ≡ fqdn
    → ⊥
unfolding symbol_by_key
symbol_by_key-none symbols workspace_id fqdn s h held w f =
    let missed = find-none (has_key workspace_id fqdn) symbols s h held in
    absurd (cc (missed, has_key-of workspace_id fqdn s w f))

pub symbol_by_id-some :
    (symbols : List SymbolRow) (id : ℕ) (s : SymbolRow)
    → symbol_by_id symbols id ≡ some s
    → In s symbols × (s.id ≡ id)
unfolding symbol_by_id
symbol_by_id-some symbols id s h =
    let (held, tested) = find-some (has_id id) symbols s h in (held, (eqb_iff s.id id).0 tested)

-- A lookup by id finds the row, where ids are keys.
pub symbol_by_id-of :
    (symbols : List SymbolRow) (next id : ℕ) (s : SymbolRow)
    → IsTable symbols next
    → In s symbols
    → s.id ≡ id
    → symbol_by_id symbols id ≡ some s
unfolding symbol_by_id
symbol_by_id-of symbols next id s table held same = elim (Option-cases (find (has_id id) symbols)) [
  | inl e ↦
      let missed = find-none (has_id id) symbols s e held in
      absurd (cc (missed, (eqb_iff s.id id).1 same))
  | inr (t, e) ↦
      let (held', tested) = find-some (has_id id) symbols t e in
      e ∙ ap some (table.id_is_key t s held' held ((eqb_iff t.id id).0 tested ∙ inverse same))
]

-- More may be pending.
pub IsTarget-weaken :
    (p q : List ℕ) (symbols : List SymbolRow) (workspace_id : String)
    → ((i : ℕ) → In i p → In i q)
    → (to : Option ℕ) (name : Option String) → IsTarget p symbols workspace_id to name
    → IsTarget q symbols workspace_id to name
unfolding IsTarget
IsTarget-weaken p q symbols workspace_id sub (some id) (some name) h = absurd h
IsTarget-weaken p q symbols workspace_id sub none none h = absurd h
IsTarget-weaken p q symbols workspace_id sub (some id) none h = h
IsTarget-weaken p q symbols workspace_id sub none (some name) h =
    λ t held scoped named. sub t.id (h t held scoped named)

pub IsIndexed-weaken :
    (p q : List ℕ) (db : Database) → ((i : ℕ) → In i p → In i q) → IsIndexed p db → IsIndexed q db
IsIndexed-weaken p q db sub h = record {
  table = h.table;
  edges = λ e held.
      let (s, there, same, end) = h.edges e held in
      (
        s,
        there,
        same,
        IsTarget-weaken p q db.symbols s.workspace_id sub e.to_symbol_id e.to_unresolved end,
      );
}
