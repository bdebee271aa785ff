-- ===== src/Query/Similarity.antt =====
-- crates/standardoc-core/src/query/similarity.rs, without `score`: the tokens of identifiers, and
-- the Jaccard index as its two counts. The Unicode tests and cases of characters are parameters.
mod Examples
pub mod Sets
pub mod Sizes
pub mod Tokens
use Prim.Native.Char.{Char, code}
use Prim.Native.String
use standardoc.Base.{
  String, ℕ, Bool, true, false, ◌&&◌, ◌||◌, not, Option, none, some, List, [], ◌∷◌, ◌++◌, length,
  ◌+◌, keep_if, leb, ◌==◌, if◌then◌else◌,
}
use standardoc.Base.Text.{append}
use standardoc.Query.Graph.{has_text}

-- A character between two code points.
abbrev pub between : ℕ → ℕ → Char → Bool
between low high c = leb low (code c) && leb (code c) high

abbrev pub is_ascii_uppercase : Char → Bool
is_ascii_uppercase = between 65 90

abbrev pub is_ascii_lowercase : Char → Bool
is_ascii_lowercase = between 97 122

abbrev pub is_ascii_digit : Char → Bool
is_ascii_digit = between 48 57

abbrev pub is_ascii_alphabetic : Char → Bool
is_ascii_alphabetic c = is_ascii_uppercase c || is_ascii_lowercase c

abbrev pub is_some_and : (Char → Bool) → Option Char → Bool
is_some_and test none = false
is_some_and test (some c) = test c

unfoldable pub is_boundary : Option Char → Char → Bool
is_boundary prev c =
    (is_ascii_uppercase c && is_some_and (λ p. is_ascii_lowercase p || is_ascii_digit p) prev)
    || ((is_ascii_alphabetic c && is_some_and is_ascii_digit prev)
        || (is_ascii_digit c && is_some_and is_ascii_alphabetic prev))

-- `push_if_nonempty`; the caller goes on with an empty text.
unfoldable pub push_if_nonempty : List String → String → List String
push_if_nonempty out String.[] = out
push_if_nonempty out (String.◌∷◌ c s) = out ++ String.◌∷◌ c s ∷ []

module _ (is_alphanumeric : Char → Bool) (to_lowercase : Char → String) where
  -- The loop, with what it has put out, the token that it is in, and the character before.
  unfoldable pub tokenize_from : List String → String → Option Char → String → List String
  unfolding push_if_nonempty is_boundary append
  tokenize_from out current prev String.[] = push_if_nonempty out current
  tokenize_from out current prev (String.◌∷◌ c s) = elim (is_alphanumeric c) [
    | false ↦ tokenize_from (push_if_nonempty out current) "" (some c) s
    | true ↦ elim (is_boundary prev c) [
      | true ↦ tokenize_from (push_if_nonempty out current) (to_lowercase c) (some c) s
      | false ↦ tokenize_from out (append current (to_lowercase c)) (some c) s
    ]
  ]

  unfoldable pub tokenize : String → List String
  unfolding tokenize_from
  tokenize s = tokenize_from [] "" none s

-- `iter().collect::<HashSet<_>>()`
abbrev pub distinct : List String → List String
distinct [] = []
distinct (t ∷ ts) = let rest = distinct ts in if has_text rest t then rest else t ∷ rest

unfoldable pub intersection_count : List String → List String → ℕ
intersection_count a b = length (keep_if (has_text (distinct b)) (distinct a))

unfoldable pub union_count : List String → List String → ℕ
union_count a b =
    length (distinct a) + length (keep_if (λ t. not (has_text (distinct a) t)) (distinct b))

-- The counts of the quotient.
unfoldable pub jaccard : List String → List String → ℕ × ℕ
unfolding intersection_count union_count
jaccard [] [] = (1, 1)
jaccard [] (y ∷ ys) = (0, 1)
jaccard (x ∷ xs) [] = (0, 1)
jaccard (x ∷ xs) (y ∷ ys) = (intersection_count (x ∷ xs) (y ∷ ys), union_count (x ∷ xs) (y ∷ ys))
