-- ===== src/Query/Similarity/Examples.antt =====
-- Tests of the tokens of identifiers, with the letters and digits of ASCII.
use Prim.Native.Char.{Char, code}
use standardoc.Base.{
  arith, eq_iff, inl, inr, String, ◌≡◌, ◌≢◌, refl, Bool, ◌||◌, ◌≤◌, ◌<◌, List, [], ◌∷◌, In,
  if◌then◌else◌,
}
use standardoc.Base.Text.{append}
use standardoc.Query.Similarity.{between, is_ascii_alphabetic, is_ascii_digit, tokenize, jaccard}
use standardoc.Query.Similarity.Sets.{jaccard-bounds}
use standardoc.Query.Similarity.Sizes.{jaccard-length}
use standardoc.Query.Similarity.Tokens.{concat, concat-tokenize}

abbrev is_alphanumeric : Char → Bool
is_alphanumeric c = is_ascii_alphabetic c || is_ascii_digit c

abbrev lower_from : String → String → Char → String
lower_from String.[] ls c = String.◌∷◌ c String.[]
lower_from (String.◌∷◌ u us) String.[] c = String.◌∷◌ c String.[]
lower_from (String.◌∷◌ u us) (String.◌∷◌ l ls) c =
    let rest = lower_from us ls c in
    if between (code u) (code u) c then String.◌∷◌ l String.[] else rest

abbrev to_lowercase : Char → String
to_lowercase = lower_from "ABCDEFGHIJKLMNOPQRSTUVWXYZ" "abcdefghijklmnopqrstuvwxyz"

cases_and_digits :
    tokenize is_alphanumeric to_lowercase "parseFile_2json" ≡ "parse" ∷ "file" ∷ "2" ∷ "json" ∷ []
unfolding tokenize
cases_and_digits = refl

acronym : tokenize is_alphanumeric to_lowercase "HTTPServer" ≡ "httpserver" ∷ []
unfolding tokenize
acronym = refl

abbrev two_tokens : List String
two_tokens = "parse" ∷ "file" ∷ []

abbrev three_tokens : List String
three_tokens = "file" ∷ "read" ∷ "file" ∷ []

a_third : jaccard two_tokens three_tokens ≡ (1, 3)
unfolding jaccard
a_third = refl

concat-tokenize_example :
    (concat (tokenize is_alphanumeric to_lowercase "parse_File2") ≡ "parsefile2")
    × ((t : String) → In t (tokenize is_alphanumeric to_lowercase "parse_File2") → t ≢ "")
unfolding append
concat-tokenize_example = concat-tokenize is_alphanumeric to_lowercase "parse_File2"

jaccard-bounds_example :
    (0 < (jaccard two_tokens three_tokens).1)
    × (((jaccard two_tokens three_tokens).0 ≤ (jaccard two_tokens three_tokens).1)
        × ((t : String)
            → In t two_tokens
            → In t three_tokens
            → 0 < (jaccard two_tokens three_tokens).0))
jaccard-bounds_example = jaccard-bounds two_tokens three_tokens

jaccard-length_example : jaccard ("file" ∷ []) three_tokens ≡ (1, 2)
jaccard-length_example =
    jaccard-length ("file" ∷ []) three_tokens ("file" ∷ []) ("file" ∷ "read" ∷ [])
      (λ e. absurd (cc e)) (λ e. absurd (cc e)) ((λ h. h), tt) (λ t. ground arith)
      (
        (λ h. elim h [ inl e ↦ absurd (cc ((eq_iff "file" "read").1 e)) | inr never ↦ never ]),
        ((λ h. h), tt),
      )
      (λ t. ground arith)
