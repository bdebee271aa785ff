-- ===== src/Pipeline/Examples/Diffs.antt =====
-- A diff at two stored rows and three extracted symbols.
use standardoc.Base.{
  String, ℕ, ◌≡◌, ◌≢◌, refl, false, some, List, [], ◌∷◌, In, inl, inr, ◌==◌, eq_iff, sym as inverse,
  ap, ◌∙◌,
}
use standardoc.Base.Assoc
use standardoc.Ir.Symbol.{RawSymbol}
use standardoc.Pipeline.Diff.{DbSymbolRow, diff_symbols}
use standardoc.Pipeline.Diff.Entries.{HasDistinctNames}
use standardoc.Pipeline.Diff.Partition.{Sorts, diff_symbols-Sorts}
use standardoc.Pipeline.Examples.{callable}

abbrev row : ℕ → String → String → DbSymbolRow
row id fqdn hash = record { id = id; fqdn = fqdn; body_hash = some hash }

abbrev rows : List DbSymbolRow
rows = row 1 "a::f" "h1" ∷ row 2 "a::g" "h2" ∷ row 3 "a::h" "h3" ∷ []

abbrev f : RawSymbol
f = callable "f" "a::f" "a.rs" 9 "h1"

abbrev g : RawSymbol
g = callable "g" "a::g" "a.rs" 12 "h9"

abbrev k : RawSymbol
k = callable "k" "a::k" "a.rs" 20 "h4"

planned : diff_symbols rows (f ∷ g ∷ k ∷ []) ≡ record {
  inserts = k ∷ [];
  modifications = (2, g) ∷ [];
  position_updates = (1, f) ∷ [];
  deletions = 3 ∷ [];
}
unfolding diff_symbols Assoc.get Assoc.insert
planned = refl

apart : (a b : String) → (a == b) ≡ false → a ≢ b
apart a b e same = absurd (cc (e, (eq_iff a b).1 same))

distinct_cons :
    (r : DbSymbolRow) (rest : List DbSymbolRow)
    → ((s : DbSymbolRow) → In s rest → r.fqdn ≢ s.fqdn)
    → HasDistinctNames rest
    → (s t : DbSymbolRow) → In s (r ∷ rest)
    → In t (r ∷ rest)
    → s.fqdn ≡ t.fqdn
    → s ≡ t
distinct_cons r rest fresh h s t (inl e) (inl e') same = e ∙ inverse e'
distinct_cons r rest fresh h s t (inl e) (inr k) same =
    absurd (fresh t k (inverse (ap (λ (x : DbSymbolRow). x.fqdn) e) ∙ same))
distinct_cons r rest fresh h s t (inr k) (inl e) same =
    absurd (fresh s k (inverse (ap (λ (x : DbSymbolRow). x.fqdn) e) ∙ inverse same))
distinct_cons r rest fresh h s t (inr k) (inr k') same = h s t k k' same

apart_from : (name : String) (r s : DbSymbolRow) → (name == r.fqdn) ≡ false → s ≡ r → name ≢ s.fqdn
apart_from name r s e same named =
    apart name r.fqdn e (named ∙ ap (λ (x : DbSymbolRow). x.fqdn) same)

rows-HasDistinctNames : HasDistinctNames rows
rows-HasDistinctNames =
    distinct_cons (row 1 "a::f" "h1") (row 2 "a::g" "h2" ∷ row 3 "a::h" "h3" ∷ [])
      (λ s k. elim k [
        | inl e ↦ apart_from "a::f" (row 2 "a::g" "h2") s refl e
        | inr (inl e) ↦ apart_from "a::f" (row 3 "a::h" "h3") s refl e
        | inr (inr u) ↦ absurd u
      ])
      (distinct_cons (row 2 "a::g" "h2") (row 3 "a::h" "h3" ∷ [])
        (λ s k. elim k [
          | inl e ↦ apart_from "a::g" (row 3 "a::h" "h3") s refl e
          | inr u ↦ absurd u
        ])
        (distinct_cons (row 3 "a::h" "h3") [] (λ s u. absurd u) (λ s t u. absurd u)))

diff_symbols-Sorts_example : Sorts rows (f ∷ g ∷ k ∷ []) (diff_symbols rows (f ∷ g ∷ k ∷ []))
diff_symbols-Sorts_example = diff_symbols-Sorts rows (f ∷ g ∷ k ∷ []) rows-HasDistinctNames
