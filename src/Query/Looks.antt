-- ===== src/Query/Looks.antt =====
-- Which symbols look like tests, crates/standardoc-core/src/query.rs.
use standardoc.Base.{String, ℕ, Bool, ◌&&◌, ◌||◌, List, [], ◌∷◌, length, map, eqb, if◌then◌else◌}
use standardoc.Storage.Retry.{codes, starts_with, contains}

unfoldable pub ends_with : List ℕ → List ℕ → Bool
unfolding starts_with
ends_with [] p = starts_with [] p
ends_with (d ∷ s) p = (starts_with (d ∷ s) p && eqb (length (d ∷ s)) (length p)) || ends_with s p

abbrev pub any_of : (List ℕ → Bool) → List String → Bool
any_of test [] = Bool.false
any_of test (p ∷ ps) = test (codes p) || any_of test ps

unfoldable pub fqdn_looks_like_test : String → Bool
unfolding contains ends_with
fqdn_looks_like_test fqdn =
    any_of (contains (codes fqdn)) ("::tests::" ∷ "::test::" ∷ [])
    || any_of (ends_with (codes fqdn))
        ("::tests" ∷ "::test" ∷ "_test" ∷ "_tests" ∷ ".test" ∷ ".spec" ∷ [])

-- `\` as `/`
abbrev pub forward_slash : ℕ → ℕ
forward_slash c = if eqb c 92 then 47 else c

unfoldable pub file_path_looks_like_test : String → Bool
unfolding contains ends_with
file_path_looks_like_test file =
    let norm = map forward_slash (codes file) in
    any_of (contains norm) ("/tests/" ∷ "/test/" ∷ "/__tests__/" ∷ [])
    || any_of (ends_with norm) (
        "_test.rs" ∷ "_tests.rs" ∷ ".test.ts" ∷ ".test.tsx" ∷ ".test.js" ∷ ".test.jsx" ∷ ".spec.ts"
        ∷ ".spec.tsx" ∷ ".spec.js" ∷ ".spec.jsx" ∷ [])
