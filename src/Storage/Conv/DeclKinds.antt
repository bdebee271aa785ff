-- ===== src/Storage/Conv/DeclKinds.antt =====
-- The column of declaration kinds, with its free form `custom:<language>:<tag>`.
use standardoc.Base.{String, ◌≡◌, refl, ◌∙◌, ap, some, Option-cases, inl, inr}
use standardoc.Base.Text.{
  append, strip_prefix, split_once, match_text, text_eq, append_of_strip_prefix,
  append_of_split_once, encode_of_match_text,
}
use standardoc.Ir.Kinds.{Language, DeclKind}
use standardoc.Storage.Error.{ok, ok_of_bind, ◌>>=◌}
use standardoc.Storage.Conv.{
  language_to_sql_text, language_from_sql_text, decl_kind_to_sql_text, decl_kind_arms,
  custom_from_sql_text, decl_kind_from_sql_text,
}
use standardoc.Storage.Conv.RoundTrip.{IsCodec, language-IsCodec}

custom_from-to :
    (lang : Language) (tag : String)
    → decl_kind_from_sql_text (decl_kind_to_sql_text (DeclKind.custom lang tag))
      ≡ ok (DeclKind.custom lang tag)
unfolding decl_kind_to_sql_text decl_kind_from_sql_text text_eq
custom_from-to Language.rust tag = refl
custom_from-to Language.type_script tag = refl
custom_from-to Language.java_script tag = refl
custom_from-to Language.lua tag = refl
custom_from-to Language.vue tag = refl
custom_from-to Language.svelte tag = refl
custom_from-to Language.c tag = refl

decl_kind-from-to : (d : DeclKind) → decl_kind_from_sql_text (decl_kind_to_sql_text d) ≡ ok d
unfolding decl_kind_to_sql_text decl_kind_from_sql_text text_eq
decl_kind-from-to DeclKind.module_decl = refl
decl_kind-from-to DeclKind.namespace = refl
decl_kind-from-to DeclKind.crate = refl
decl_kind-from-to DeclKind.struct = refl
decl_kind-from-to DeclKind.enum = refl
decl_kind-from-to DeclKind.union = refl
decl_kind-from-to DeclKind.class = refl
decl_kind-from-to DeclKind.interface = refl
decl_kind-from-to DeclKind.type_alias = refl
decl_kind-from-to DeclKind.function = refl
decl_kind-from-to DeclKind.method = refl
decl_kind-from-to DeclKind.constructor = refl
decl_kind-from-to DeclKind.getter = refl
decl_kind-from-to DeclKind.setter = refl
decl_kind-from-to DeclKind.const = refl
decl_kind-from-to DeclKind.static = refl
decl_kind-from-to DeclKind.var = refl
decl_kind-from-to DeclKind.field = refl
decl_kind-from-to DeclKind.enum_variant = refl
decl_kind-from-to DeclKind.declarative_macro = refl
decl_kind-from-to DeclKind.proc_macro = refl
decl_kind-from-to DeclKind.decorator = refl
decl_kind-from-to (DeclKind.custom lang tag) = custom_from-to lang tag

custom-to-from :
    (other rest : String) (d : DeclKind)
    → custom_from_sql_text other rest ≡ ok d
    → decl_kind_to_sql_text d ≡ append "custom:" rest
unfolding custom_from_sql_text decl_kind_to_sql_text
custom-to-from other rest d h = elim (Option-cases (split_once ":" rest)) [
  | inl e ↦ absurd (cc (rw (e, custom_from_sql_text) at h))
  | inr ((lang_s, tag), e) ↦
      let read : (language_from_sql_text lang_s >>= λ lang. ok (DeclKind.custom lang tag)) ≡ ok d =
        rw (e, custom_from_sql_text) at h in
      let (lang, known, same) = ok_of_bind (language_from_sql_text lang_s) _ read in
      let same' : DeclKind.custom lang tag ≡ d = cc in
      let written : language_to_sql_text lang ≡ lang_s =
        language-IsCodec.to-from lang_s lang known in
      let joined : append lang_s (append ":" tag) ≡ rest =
        append_of_split_once ":" rest lang_s tag e in
      rw (← same', written, joined)
]

decl_kind_arms-encode :
    (s : String) (d : DeclKind) → match_text decl_kind_arms s ≡ some d → decl_kind_to_sql_text d ≡ s
unfolding decl_kind_to_sql_text
decl_kind_arms-encode s d h =
    encode_of_match_text decl_kind_to_sql_text decl_kind_arms s d
      (
        refl,
        (
          refl,
          (
            refl,
            (
              refl,
              (
                refl,
                (
                  refl,
                  (
                    refl,
                    (
                      refl,
                      (
                        refl,
                        (
                          refl,
                          (
                            refl,
                            (
                              refl,
                              (
                                refl,
                                (
                                  refl,
                                  (
                                    refl,
                                    (refl, (refl, (refl, (refl, (refl, (refl, (refl, tt))))))),
                                  ),
                                ),
                              ),
                            ),
                          ),
                        ),
                      ),
                    ),
                  ),
                ),
              ),
            ),
          ),
        ),
      )
      h

decl_kind-to-from :
    (s : String) (d : DeclKind) → decl_kind_from_sql_text s ≡ ok d → decl_kind_to_sql_text d ≡ s
unfolding decl_kind_from_sql_text
decl_kind-to-from s d h = elim (Option-cases (match_text decl_kind_arms s)) [
  | inr (b, e) ↦
      let same : b ≡ d = cc (rw (e, decl_kind_from_sql_text) at h) in
      decl_kind_arms-encode s d (e ∙ ap some same)
  | inl e ↦ elim (Option-cases (strip_prefix "custom:" s)) [
    | inl f ↦ absurd (cc (rw (e, f, decl_kind_from_sql_text) at h))
    | inr (rest, f) ↦
        custom-to-from s rest d (rw (e, f, decl_kind_from_sql_text) at h)
        ∙ append_of_strip_prefix "custom:" s rest f
  ]
]

-- The column of declaration kinds: every kind, a custom one of any language and tag included, reads
-- back as itself, and a text that is read at all is the one that the kind read is written as.
pub decl_kind-IsCodec : IsCodec decl_kind_to_sql_text decl_kind_from_sql_text
decl_kind-IsCodec = record { from-to = decl_kind-from-to; to-from = decl_kind-to-from }
