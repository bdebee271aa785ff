-- ===== src/Storage/Index/Append.antt =====
-- A row under a new key and the next id keeps the tables indexed.
use standardoc.Base.{
  String, ℕ, suc, ◌<◌, ◌≡◌, sym as inverse, ap, ◌∙◌, ◌⊎◌, inl, inr, Option, none, some, List, [],
  ◌∷◌, ◌++◌, In, In-append_left, In-append_right, In-append_last, arith,
}
use standardoc.Storage.Database.{SymbolRow, EdgeRow, symbol_by_key}
use standardoc.Storage.Index.{IsTarget, IsEdge, IsTable, symbol_by_key-none}

-- A row of a new key, under the next id.
module _ (new : SymbolRow) (symbols : List SymbolRow) (next : ℕ) (table : IsTable symbols next)
    (at : new.id ≡ next) (fresh : symbol_by_key symbols new.workspace_id new.fqdn ≡ none) where
  append-below : (s : SymbolRow) → In s symbols ⊎ (s ≡ new) → s.id < suc next
  append-below s (inl old) = let b = table.below s old in omega arith
  append-below s (inr e) = let same = ap (λ (r : SymbolRow). r.id) e in omega arith

  append-id_is_key :
      (s t : SymbolRow) → In s symbols ⊎ (s ≡ new) → In t symbols ⊎ (t ≡ new) → s.id ≡ t.id → s ≡ t
  append-id_is_key s t (inl a) (inl b) same = table.id_is_key s t a b same
  append-id_is_key s t (inl a) (inr e) same =
      let b = table.below s a in let i = ap (λ (r : SymbolRow). r.id) e in absurd (omega arith)
  append-id_is_key s t (inr e) (inl b) same =
      let a = table.below t b in let i = ap (λ (r : SymbolRow). r.id) e in absurd (omega arith)
  append-id_is_key s t (inr e) (inr e') same = e ∙ inverse e'

  append-name_is_key :
      (s t : SymbolRow)
      → In s symbols ⊎ (s ≡ new)
      → In t symbols ⊎ (t ≡ new)
      → s.workspace_id ≡ t.workspace_id
      → s.fqdn ≡ t.fqdn
      → s ≡ t
  append-name_is_key s t (inl a) (inl b) scope name = table.name_is_key s t a b scope name
  append-name_is_key s t (inl a) (inr e) scope name = absurd (
      symbol_by_key-none symbols new.workspace_id new.fqdn s fresh a
        (scope ∙ ap (λ (r : SymbolRow). r.workspace_id) e)
        (name ∙ ap (λ (r : SymbolRow). r.fqdn) e))
  append-name_is_key s t (inr e) (inl b) scope name = absurd (
      symbol_by_key-none symbols new.workspace_id new.fqdn t fresh b
        (inverse scope ∙ ap (λ (r : SymbolRow). r.workspace_id) e)
        (inverse name ∙ ap (λ (r : SymbolRow). r.fqdn) e))
  append-name_is_key s t (inr e) (inr e') scope name = e ∙ inverse e'

  pub append-IsTable : IsTable (symbols ++ new ∷ []) (suc next)
  append-IsTable = record {
    below = λ s h. append-below s (In-append_last s symbols new h);
    id_is_key = λ s t hs ht.
        append-id_is_key s t (In-append_last s symbols new hs) (In-append_last t symbols new ht);
    name_is_key = λ s t hs ht.
        append-name_is_key s t (In-append_last s symbols new hs) (In-append_last t symbols new ht);
  }

  append-IsTarget :
      (pending : List ℕ) (workspace_id : String) (to : Option ℕ) (name : Option String)
      → IsTarget pending symbols workspace_id to name
      → IsTarget (pending ++ next ∷ []) (symbols ++ new ∷ []) workspace_id to name
  unfolding IsTarget
  append-IsTarget pending workspace_id (some id) (some name) h = absurd h
  append-IsTarget pending workspace_id none none h = absurd h
  append-IsTarget pending workspace_id (some id) none h =
      let (t, held, same, scoped) = h in (t, In-append_left t symbols (new ∷ []) held, same, scoped)
  append-IsTarget pending workspace_id none (some name) h = λ t held scoped named.
      elim (In-append_last t symbols new held) [
        | inl old ↦ In-append_left t.id pending (next ∷ []) (h t old scoped named)
        | inr e ↦
            In-append_right t.id pending (next ∷ []) (inl (ap (λ (r : SymbolRow). r.id) e ∙ at))
      ]

  pub append-IsEdge :
      (pending : List ℕ) (e : EdgeRow)
      → IsEdge pending symbols e
      → IsEdge (pending ++ next ∷ []) (symbols ++ new ∷ []) e
  append-IsEdge pending e h =
      let (s, held, same, end) = h in
      (
        s,
        In-append_left s symbols (new ∷ []) held,
        same,
        append-IsTarget pending s.workspace_id e.to_symbol_id e.to_unresolved end,
      )
