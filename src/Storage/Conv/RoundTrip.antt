-- ===== src/Storage/Conv/RoundTrip.antt =====
-- Every column text reads back as the variant it was written from, and nothing else is read.
use standardoc.Base.{String, ◌≡◌, refl, Option, none, some, arith}
use standardoc.Base.Text.{match_text, text_eq, encode_of_match_text}
use standardoc.Ir.Kinds.{
  Kind, EdgeKind, EdgeConfidence, Visibility, SourceOrigin, Language, EntryPointKind,
}
use standardoc.Storage.Error.{Result, ok}
use standardoc.Storage.Conv.{
  or_invalid, language_to_sql_text, language_arms, language_from_sql_text, kind_to_sql_text,
  kind_arms, kind_from_sql_text, entry_point_to_sql_text, entry_point_arms,
  entry_point_from_sql_text, visibility_to_sql_text, visibility_arms, visibility_from_sql_text,
  source_origin_to_sql_text, source_origin_arms, source_origin_from_sql_text, edge_kind_to_sql_text,
  edge_kind_arms, edge_kind_from_sql_text, edge_confidence_to_sql_text, edge_confidence_arms,
  edge_confidence_from_sql_text,
}

-- The two directions of a column format: reading undoes writing, and a text that is read at all is
-- the one that is written for what was read.
pub record IsCodec {A : Type 0} (to_text : A → String) (from_text : String → Result A)
    : Type 0 where
  pub from-to : (a : A) → from_text (to_text a) ≡ ok a
  pub to-from : (s : String) (a : A) → from_text s ≡ ok a → to_text a ≡ s

some_of_or_invalid :
    {A : Type 0} (what s : String) (o : Option A) (a : A) → or_invalid what s o ≡ ok a → o ≡ some a
some_of_or_invalid what s none a h = absurd (cc)
some_of_or_invalid what s (some b) a h = ground arith

language-from-to : (a : Language) → language_from_sql_text (language_to_sql_text a) ≡ ok a
unfolding language_to_sql_text language_from_sql_text text_eq
language-from-to Language.rust = refl
language-from-to Language.type_script = refl
language-from-to Language.java_script = refl
language-from-to Language.lua = refl
language-from-to Language.vue = refl
language-from-to Language.svelte = refl
language-from-to Language.c = refl

pub language-IsCodec : IsCodec language_to_sql_text language_from_sql_text
unfolding language_to_sql_text language_from_sql_text
language-IsCodec = record {
  from-to = language-from-to;
  to-from = λ s a h.
      encode_of_match_text language_to_sql_text language_arms s a
        (refl, (refl, (refl, (refl, (refl, (refl, (refl, tt)))))))
        (some_of_or_invalid "unknown language" s (match_text language_arms s) a h);
}

kind-from-to : (a : Kind) → kind_from_sql_text (kind_to_sql_text a) ≡ ok a
unfolding kind_to_sql_text kind_from_sql_text text_eq
kind-from-to Kind.callable = refl
kind-from-to Kind.type = refl
kind-from-to Kind.value = refl
kind-from-to Kind.module_kind = refl
kind-from-to Kind.macro = refl

pub kind-IsCodec : IsCodec kind_to_sql_text kind_from_sql_text
unfolding kind_to_sql_text kind_from_sql_text
kind-IsCodec = record {
  from-to = kind-from-to;
  to-from = λ s a h.
      encode_of_match_text kind_to_sql_text kind_arms s a (refl, (refl, (refl, (refl, (refl, tt)))))
        (some_of_or_invalid "unknown kind" s (match_text kind_arms s) a h);
}

entry_point-from-to :
    (a : EntryPointKind) → entry_point_from_sql_text (entry_point_to_sql_text a) ≡ ok a
unfolding entry_point_to_sql_text entry_point_from_sql_text text_eq
entry_point-from-to EntryPointKind.binary_main = refl
entry_point-from-to EntryPointKind.public_api = refl
entry_point-from-to EntryPointKind.ffi_export = refl

pub entry_point-IsCodec : IsCodec entry_point_to_sql_text entry_point_from_sql_text
unfolding entry_point_to_sql_text entry_point_from_sql_text
entry_point-IsCodec = record {
  from-to = entry_point-from-to;
  to-from = λ s a h.
      encode_of_match_text entry_point_to_sql_text entry_point_arms s a (refl, (refl, (refl, tt)))
        (some_of_or_invalid "unknown entry_point" s (match_text entry_point_arms s) a h);
}

visibility-from-to : (a : Visibility) → visibility_from_sql_text (visibility_to_sql_text a) ≡ ok a
unfolding visibility_to_sql_text visibility_from_sql_text text_eq
visibility-from-to Visibility.public = refl
visibility-from-to Visibility.private = refl
visibility-from-to Visibility.crate = refl
visibility-from-to Visibility.protected = refl

pub visibility-IsCodec : IsCodec visibility_to_sql_text visibility_from_sql_text
unfolding visibility_to_sql_text visibility_from_sql_text
visibility-IsCodec = record {
  from-to = visibility-from-to;
  to-from = λ s a h.
      encode_of_match_text visibility_to_sql_text visibility_arms s a
        (refl, (refl, (refl, (refl, tt))))
        (some_of_or_invalid "unknown visibility" s (match_text visibility_arms s) a h);
}

source_origin-from-to :
    (a : SourceOrigin) → source_origin_from_sql_text (source_origin_to_sql_text a) ≡ ok a
unfolding source_origin_to_sql_text source_origin_from_sql_text text_eq
source_origin-from-to SourceOrigin.workspace = refl
source_origin-from-to SourceOrigin.cargo_registry = refl
source_origin-from-to SourceOrigin.node_modules_dts = refl
source_origin-from-to SourceOrigin.manual_external = refl

pub source_origin-IsCodec : IsCodec source_origin_to_sql_text source_origin_from_sql_text
unfolding source_origin_to_sql_text source_origin_from_sql_text
source_origin-IsCodec = record {
  from-to = source_origin-from-to;
  to-from = λ s a h.
      encode_of_match_text source_origin_to_sql_text source_origin_arms s a
        (refl, (refl, (refl, (refl, tt))))
        (some_of_or_invalid "unknown source_origin" s (match_text source_origin_arms s) a h);
}

edge_kind-from-to : (a : EdgeKind) → edge_kind_from_sql_text (edge_kind_to_sql_text a) ≡ ok a
unfolding edge_kind_to_sql_text edge_kind_from_sql_text text_eq
edge_kind-from-to EdgeKind.calls = refl
edge_kind-from-to EdgeKind.imports = refl
edge_kind-from-to EdgeKind.extends = refl
edge_kind-from-to EdgeKind.implements = refl
edge_kind-from-to EdgeKind.references = refl
edge_kind-from-to EdgeKind.uses_type = refl

pub edge_kind-IsCodec : IsCodec edge_kind_to_sql_text edge_kind_from_sql_text
unfolding edge_kind_to_sql_text edge_kind_from_sql_text
edge_kind-IsCodec = record {
  from-to = edge_kind-from-to;
  to-from = λ s a h.
      encode_of_match_text edge_kind_to_sql_text edge_kind_arms s a
        (refl, (refl, (refl, (refl, (refl, (refl, tt))))))
        (some_of_or_invalid "unknown edge kind" s (match_text edge_kind_arms s) a h);
}

edge_confidence-from-to :
    (a : EdgeConfidence) → edge_confidence_from_sql_text (edge_confidence_to_sql_text a) ≡ ok a
unfolding edge_confidence_to_sql_text edge_confidence_from_sql_text text_eq
edge_confidence-from-to EdgeConfidence.extracted = refl
edge_confidence-from-to EdgeConfidence.inferred = refl
edge_confidence-from-to EdgeConfidence.ambiguous = refl

pub edge_confidence-IsCodec : IsCodec edge_confidence_to_sql_text edge_confidence_from_sql_text
unfolding edge_confidence_to_sql_text edge_confidence_from_sql_text
edge_confidence-IsCodec = record {
  from-to = edge_confidence-from-to;
  to-from = λ s a h.
      encode_of_match_text edge_confidence_to_sql_text edge_confidence_arms s a
        (refl, (refl, (refl, tt)))
        (some_of_or_invalid "unknown edge confidence" s (match_text edge_confidence_arms s) a h);
}

-- Every column whose variants carry no data is written and read back exactly: language, kind, entry
-- point, visibility, origin, edge kind and edge confidence. Reading a written text gives the variant
-- back, and a text that is read at all is the one that its variant is written as.
pub columns-IsCodec :
    IsCodec language_to_sql_text language_from_sql_text
    × IsCodec kind_to_sql_text kind_from_sql_text
    × IsCodec entry_point_to_sql_text entry_point_from_sql_text
    × IsCodec visibility_to_sql_text visibility_from_sql_text
    × IsCodec source_origin_to_sql_text source_origin_from_sql_text
    × IsCodec edge_kind_to_sql_text edge_kind_from_sql_text
    × IsCodec edge_confidence_to_sql_text edge_confidence_from_sql_text
columns-IsCodec = (
  language-IsCodec, kind-IsCodec, entry_point-IsCodec, visibility-IsCodec, source_origin-IsCodec,
  edge_kind-IsCodec, edge_confidence-IsCodec,
)
