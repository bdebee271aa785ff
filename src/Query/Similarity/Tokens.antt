-- ===== src/Query/Similarity/Tokens.antt =====
-- The letters and digits of the tokens of an identifier.
use Prim.Native.Char.{Char}
use standardoc.Base.{
  String, ◌≡◌, ◌≢◌, refl, sym as inverse, ap, ◌∙◌, inl, inr, Bool, true, false, Option, none, some,
  List, [], ◌∷◌, ◌++◌, In, In-append_last, Bool-cases,
}
use standardoc.Base.Text.{append, append_assoc}
use standardoc.Query.Similarity.{is_boundary, push_if_nonempty, tokenize_from, tokenize}

-- The tokens, one behind the other.
abbrev pub concat : List String → String
concat [] = ""
concat (t ∷ ts) = append t (concat ts)

append_nil : (s : String) → append s "" ≡ s
unfolding append
append_nil String.[] = refl
append_nil (String.◌∷◌ c s) = ap (λ (r : String). String.◌∷◌ c r) (append_nil s)

concat-append : (ts : List String) (t : String) → concat (ts ++ t ∷ []) ≡ append (concat ts) t
unfolding append
concat-append [] t = append_nil t
concat-append (u ∷ ts) t =
    ap (append u) (concat-append ts t) ∙ inverse (append_assoc u (concat ts) t)

concat-push_if_nonempty :
    (out : List String) (current : String)
    → concat (push_if_nonempty out current) ≡ append (concat out) current
unfolding push_if_nonempty
concat-push_if_nonempty out String.[] = inverse (append_nil (concat out))
concat-push_if_nonempty out (String.◌∷◌ c s) = concat-append out (String.◌∷◌ c s)

push_if_nonempty-nonempty :
    (out : List String) (current t : String)
    → ((u : String) → In u out → u ≢ "")
    → In t (push_if_nonempty out current)
    → t ≢ ""
unfolding push_if_nonempty
push_if_nonempty-nonempty out String.[] t h held = h t held
push_if_nonempty-nonempty out (String.◌∷◌ c s) t h held =
    elim (In-append_last t out (String.◌∷◌ c s) held) [
      | inl old ↦ h t old
      | inr e ↦ λ empty. absurd (cc (e, empty))
    ]

module _ (is_alphanumeric : Char → Bool) (to_lowercase : Char → String) where
  -- The letters and digits of a text, in lower case.
  abbrev pub lowered_letters : String → String
  lowered_letters String.[] = ""
  lowered_letters (String.◌∷◌ c s) = elim (is_alphanumeric c) [
    | false ↦ lowered_letters s
    | true ↦ append (to_lowercase c) (lowered_letters s)
  ]

  lowered_letters-letter :
      (c : Char) (s : String)
      → is_alphanumeric c ≡ true
      → lowered_letters (String.◌∷◌ c s) ≡ append (to_lowercase c) (lowered_letters s)
  lowered_letters-letter c s letter = rw (lowered_letters, letter) refl

  lowered_letters-separator :
      (c : Char) (s : String)
      → is_alphanumeric c ≡ false
      → lowered_letters (String.◌∷◌ c s) ≡ lowered_letters s
  lowered_letters-separator c s separator = rw (lowered_letters, separator) refl

  concat-tokenize_from :
      (out : List String) (current : String) (prev : Option Char) (s : String)
      → concat (tokenize_from is_alphanumeric to_lowercase out current prev s)
        ≡ append (append (concat out) current) (lowered_letters s)
  unfolding tokenize_from
  concat-tokenize_from out current prev String.[] =
      concat-push_if_nonempty out current ∙ inverse (append_nil (append (concat out) current))
  concat-tokenize_from out current prev (String.◌∷◌ c s) = elim (Bool-cases (is_alphanumeric c)) [
    | inr separator ↦
        rw (tokenize_from, separator)
          (concat-tokenize_from (push_if_nonempty out current) "" (some c) s
            ∙ ap (λ t. append t (lowered_letters s))
                (append_nil (concat (push_if_nonempty out current))
                  ∙ concat-push_if_nonempty out current)
            ∙ ap (append (append (concat out) current))
                (inverse (lowered_letters-separator c s separator)))
    | inl letter ↦ elim (Bool-cases (is_boundary prev c)) [
      | inl boundary ↦
          rw (tokenize_from, letter, boundary)
            (concat-tokenize_from (push_if_nonempty out current) (to_lowercase c) (some c) s
              ∙ ap (λ t. append (append t (to_lowercase c)) (lowered_letters s))
                  (concat-push_if_nonempty out current)
              ∙ append_assoc (append (concat out) current) (to_lowercase c) (lowered_letters s)
              ∙ ap (append (append (concat out) current))
                  (inverse (lowered_letters-letter c s letter)))
      | inr inside ↦
          rw (tokenize_from, letter, inside)
            (concat-tokenize_from out (append current (to_lowercase c)) (some c) s
              ∙ ap (λ t. append t (lowered_letters s))
                  (inverse (append_assoc (concat out) current (to_lowercase c)))
              ∙ append_assoc (append (concat out) current) (to_lowercase c) (lowered_letters s)
              ∙ ap (append (append (concat out) current))
                  (inverse (lowered_letters-letter c s letter)))
    ]
  ]

  tokenize_from-nonempty :
      (out : List String) (current : String) (prev : Option Char) (s t : String)
      → ((u : String) → In u out → u ≢ "")
      → In t (tokenize_from is_alphanumeric to_lowercase out current prev s)
      → t ≢ ""
  unfolding tokenize_from
  tokenize_from-nonempty out current prev String.[] t h held =
      push_if_nonempty-nonempty out current t h held
  tokenize_from-nonempty out current prev (String.◌∷◌ c s) t h held =
      let pushed : (u : String) → In u (push_if_nonempty out current) → u ≢ "" =
        λ u. push_if_nonempty-nonempty out current u h in
      elim (Bool-cases (is_alphanumeric c)) [
        | inr separator ↦
            tokenize_from-nonempty (push_if_nonempty out current) "" (some c) s t pushed
              (rw (tokenize_from, separator) at held)
        | inl letter ↦ elim (Bool-cases (is_boundary prev c)) [
          | inl boundary ↦
              tokenize_from-nonempty (push_if_nonempty out current) (to_lowercase c) (some c) s t
                pushed (rw (tokenize_from, letter, boundary) at held)
          | inr inside ↦
              tokenize_from-nonempty out (append current (to_lowercase c)) (some c) s t h
                (rw (tokenize_from, letter, inside) at held)
        ]
      ]

  -- The tokens of an identifier, one behind the other, are its letters and digits in lower case, and
  -- no token is empty.
  pub concat-tokenize :
      (s : String)
      → (concat (tokenize is_alphanumeric to_lowercase s) ≡ lowered_letters s)
        × ((t : String) → In t (tokenize is_alphanumeric to_lowercase s) → t ≢ "")
  unfolding tokenize append
  concat-tokenize s = (
    concat-tokenize_from [] "" none s,
    λ t. tokenize_from-nonempty [] "" none s t (λ u never. absurd never),
  )
