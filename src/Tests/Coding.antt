-- ===== src/Tests/Coding.antt =====
-- Decoding, encoding, converting and defaulting the objects of a sample scheme.
use libgitops.Codec.Convertor.{hub_among}
use libgitops.Codec.Convertor.{find_hub_type}
use libgitops.Codec.Convertor.{convert_to_hub}
use libgitops.Codec.{populate_gvk}
use libgitops.Codec.Convertor.{as_crd_error}
use libgitops.Codec.Convertor.{validate_convertible}
use libgitops.Codec.Convertor.{convert_into_hub}
use libgitops.Codec.Convertor.{convert}
use libgitops.Codec.Encoder.{encoder_for_version}
use libgitops.Codec.Comments.{normal_encode}
use libgitops.Codec.Comments.{no_annotation_wrapper}
use libgitops.Codec.Encoder.{encode_for_group_version}
use libgitops.Codec.Encoder.{target_version}
use libgitops.Prelude.Dict.{insert}
use libgitops.Codec.Annotations.{set_annotation}
use libgitops.Codec.Comments.{set_comment_source_bytes}
use libgitops.Codec.Comments.{try_to_preserve_comments}
use libgitops.Codec.Decoder.{extract_nested_objects}
use libgitops.Codec.Decoder.{finish_decode}
use libgitops.Codec.Decoder.Frames.{frame_objects}
use libgitops.Codec.Decoder.Frames.{then_objects}
use libgitops.Prelude.{
  ◌≡◌, ◌↔◌, refl, ap, sym, true, false, none, some, List, [], ◌∷◌, ◌++◌, append-nil, arith, inr,
}
use libgitops.Prelude.Text.{Str, bytes}
use libgitops.Prelude.Outcome.{Error, ok, err, external}
use libgitops.Raw.Content.{yaml}
use libgitops.Key.{Gvk}
use libgitops.Frames.{
  FrameReader, read_frame_list, read_frames, read_frame, read_loop, read_round, turn, has_content,
}
use libgitops.Codec.{
  internal_versioner, to_version, list_gvk, with_kind, group_version_of, gvk_for_object,
}
use libgitops.Codec.Annotations.{get_annotation, is_meta}
use libgitops.Codec.Comments.{
  set_comment_source, encode_with_comment_support, preserve_comments_annotation, encode_onto,
}
use libgitops.Codec.Comments.Laws.{
  AgreeOnClean, encode_with_comment_support-agree, get_annotation-encode_with_comment_support,
}
use libgitops.Codec.Comments.Sources.{Stores, get_comment_source-set}
use libgitops.Codec.Convertor.{
  convert_to_version, converter_convert_to_hub, convert_crd, convert_to_group_version,
}
use libgitops.Codec.Convertor.Laws.{
  IsCustom, convert_to_version-kind, converter_convert_to_hub-custom,
}
use libgitops.Codec.Convertor.Targets.{convert_to_version-roundtrip}
use libgitops.Codec.Decoder.{
  DecodingOptions, default_decode_opts, new_decode_opts, with_comments_decode, decode_new,
  decode_all, register_list, codec_decode, extract_yaml_type_meta,
}
use libgitops.Codec.Decoder.Frames.{decode_frames, decode_all-read_frame_list}
use libgitops.Codec.Decoder.Kept.{decode_new-encode_onto}
use libgitops.Codec.Decoder.Laws.{
  Classified, decode_new-Classified, decode_new-recognizes, AddsList,
}
use libgitops.Codec.Encoder.{encode, default_encode_opts}
use libgitops.Codec.Encoder.Laws.{EncodedAll, encode-EncodedAll}
use libgitops.Codec.Defaulter.{default}
use libgitops.Codec.Defaulter.Laws.{AllDefaulted, default-AllDefaulted}
use libgitops.Tests.Codecs.{
  Car, cars, garage, trees, library, codecs, log_sink, texts_source, texts_reader, new_car, v1, v2,
  cars-IsTyped, cars-KeepsHubs, car-IsSpoke, cars-KeepsAnnotations, trees-Decodes, trees-IsForeign,
  garage-IsCoherent, log_sink-IsLog, first_error, first_error-IsAggregate,
}

abbrev red : Car
red = new_car v1 (bytes "red")

abbrev comments_opts : DecodingOptions
comments_opts = new_decode_opts (with_comments_decode true ∷ [])

abbrev documents : List Str
documents = bytes "a" ∷ bytes "b" ∷ []

documents_read :
    read_frame_list texts_source 3 2 (texts_reader documents)
    ≡ some (texts_reader [], documents, none)
unfolding read_frame_list read_frames read_frame read_loop read_round turn has_content
documents_read = refl

documents_decoded :
    decode_frames cars garage trees library default_decode_opts yaml false documents
    ≡ (true, ok (new_car v1 (bytes "a") ∷ new_car v1 (bytes "b") ∷ []))
unfolding decode_frames then_objects frame_objects decode_new codec_decode finish_decode
    extract_nested_objects register_list try_to_preserve_comments
documents_decoded = refl

decode_all-read_frame_list_example :
    (fr : FrameReader (List Str)) × (decode_all cars garage trees library default_decode_opts
        texts_source yaml 3 2 false
        (texts_reader documents)
      ≡ some (fr, true, ok (new_car v1 (bytes "a") ∷ new_car v1 (bytes "b") ∷ [])))
decode_all-read_frame_list_example =
    decode_all-read_frame_list cars garage trees library default_decode_opts yaml texts_source 3 2
      (texts_reader documents) (texts_reader []) documents false true
      (ok (new_car v1 (bytes "a") ∷ new_car v1 (bytes "b") ∷ [])) documents_read documents_decoded
      tt

abbrev v9 : Gvk
v9 = record { group = bytes "g"; version = bytes "v9"; kind = bytes "Car" }

empty_fails :
    codec_decode cars garage trees library default_decode_opts
      (register_list cars garage trees library default_decode_opts false)
      []
      none
    ≡ err (external 1)
unfolding codec_decode
empty_fails = refl

empty_typed : extract_yaml_type_meta cars garage trees library [] ≡ ok v9
unfolding extract_yaml_type_meta
empty_typed = refl

decode_new-Classified_example :
    (x : Error) × (decode_new cars garage trees library default_decode_opts false [] yaml
      ≡ (register_list cars garage trees library default_decode_opts false, err x))
    × Classified cars garage trees library
        (register_list cars garage trees library default_decode_opts false)
        v9
        (external 1)
        x
decode_new-Classified_example =
    decode_new-Classified cars garage trees library default_decode_opts false [] yaml v9
      (external 1) (garage-IsCoherent _) refl empty_fails refl empty_typed

garage-AddsList : AddsList cars garage trees library default_decode_opts
garage-AddsList = record { has_list = λ s. refl; keeps_types = λ s g h. ground (arith, h) }

decode_new-recognizes_example :
    (true ≡ true
      → garage.recognizes list_gvk
          (decode_new cars garage trees library default_decode_opts false (bytes "a") yaml).0
        ≡ true)
    × ((gvk : Gvk)
        → garage.recognizes gvk false ≡ true
        → garage.recognizes gvk
            (decode_new cars garage trees library default_decode_opts false (bytes "a") yaml).0
          ≡ true)
decode_new-recognizes_example =
    decode_new-recognizes cars garage trees library default_decode_opts garage-AddsList false
      (bytes "a") yaml

-- The car of a document, with the document in its annotations.
abbrev commented : Car
commented = record red {
  annotations = some ((preserve_comments_annotation, b'=' ∷ bytes "red") ∷ []);
}

red_decoded :
    (decode_new cars garage trees library comments_opts false (bytes "red") yaml).1 ≡ ok commented
unfolding decode_new codec_decode finish_decode try_to_preserve_comments set_comment_source_bytes
    is_meta set_annotation insert
red_decoded = refl

decode_new-encode_onto_example :
    encode_with_comment_support cars trees log_sink true (λ o. ok o.text) commented []
    ≡ encode_onto cars trees log_sink (λ o. ok o.text) (bytes "red") commented []
unfolding is_meta
decode_new-encode_onto_example =
    decode_new-encode_onto cars garage trees library comments_opts cars-KeepsAnnotations
      trees-Decodes false (bytes "red") commented (bytes "red") log_sink (λ o. ok o.text) [] refl
      red_decoded refl refl refl

clean_texts : AgreeOnClean cars (λ (o : Car). ok o.text) (λ o. ok (o.text ++ []))
clean_texts o clean = ap ok (sym (append-nil o.text))

encode_with_comment_support-agree_example :
    encode_with_comment_support cars trees log_sink true (λ o. ok o.text) commented []
    ≡ encode_with_comment_support cars trees log_sink true (λ o. ok (o.text ++ [])) commented []
encode_with_comment_support-agree_example =
    encode_with_comment_support-agree cars trees cars-KeepsAnnotations trees-IsForeign log_sink true
      (λ o. ok o.text) (λ o. ok (o.text ++ [])) clean_texts commented []

get_annotation-encode_with_comment_support_example :
    get_annotation cars preserve_comments_annotation
      (encode_with_comment_support cars trees log_sink true (λ o. ok o.text) commented []).0
    ≡ get_annotation cars preserve_comments_annotation commented
get_annotation-encode_with_comment_support_example =
    get_annotation-encode_with_comment_support cars trees cars-KeepsAnnotations log_sink true
      (λ o. ok o.text) preserve_comments_annotation commented []

red_set : set_comment_source cars trees red (bytes "red") ≡ ok commented
unfolding set_comment_source set_comment_source_bytes is_meta set_annotation insert
red_set = refl

get_comment_source-set_example :
    (text : Str) × (trees.to_string (bytes "red") ≡ ok text) × Stores cars trees text red commented
get_comment_source-set_example =
    get_comment_source-set cars trees cars-KeepsAnnotations trees-Decodes red commented
      (bytes "red") red_set

reds_encoded :
    (encode cars garage trees codecs default_encode_opts true log_sink [] (red ∷ red ∷ [])).2
    ≡ ok tt
unfolding encode target_version gvk_for_object encode_for_group_version is_meta
    encode_with_comment_support no_annotation_wrapper get_annotation normal_encode
    encoder_for_version
reds_encoded = refl

encode-EncodedAll_example :
    (texts : List Str) × EncodedAll cars garage trees codecs default_encode_opts true log_sink
      (red ∷ red ∷ [])
      texts
    × ((encode cars garage trees codecs default_encode_opts true log_sink [] (red ∷ red ∷ [])).1
        ≡ [] ++ texts)
encode-EncodedAll_example =
    encode-EncodedAll cars garage trees codecs default_encode_opts true log_sink (λ w. w)
      log_sink-IsLog refl [] (red ∷ red ∷ []) reds_encoded

default-AllDefaulted_example :
    (default cars garage true first_error (red ∷ []) ≡ ok (new_car v1 (bytes "default") ∷ [], none))
    ↔ AllDefaulted cars garage true (red ∷ []) (new_car v1 (bytes "default") ∷ [])
default-AllDefaulted_example =
    default-AllDefaulted cars garage true first_error first_error-IsAggregate (red ∷ [])
      (new_car v1 (bytes "default") ∷ [])

red-IsCustom : IsCustom cars garage true red
unfolding IsCustom
red-IsCustom = inr refl

any-IsCustom : (o : Car) → IsCustom cars garage true o
unfolding IsCustom
any-IsCustom o = ground arith

-- The hub of the car.
abbrev red_hub : Car
red_hub = record (new_car v2 (bytes "red")) { gvk = v2 }

red_kind : gvk_for_object cars garage true red ≡ ok v1
unfolding gvk_for_object
red_kind = refl

red_converted :
    convert_to_version cars garage true true red (some (to_version (group_version_of v2)))
    ≡ ok red_hub
unfolding convert_to_version convert_crd convert_to_group_version gvk_for_object convert
    convert_into_hub validate_convertible as_crd_error populate_gvk
red_converted = refl

convert_to_version-kind_example : red_hub.gvk ≡ with_kind (group_version_of v2) v1.kind
convert_to_version-kind_example =
    convert_to_version-kind cars garage true cars-IsTyped red red_hub (group_version_of v2) v1
      red-IsCustom red_kind (λ dst made. any-IsCustom dst) red_converted

converter_convert_to_hub-custom_example :
    (e : Error) × (converter_convert_to_hub cars garage true red ≡ err e)
converter_convert_to_hub-custom_example =
    converter_convert_to_hub-custom cars garage true red red-IsCustom

red_to_hub : convert_to_version cars garage true true red (some internal_versioner) ≡ ok red_hub
unfolding convert_to_version convert_crd convert_to_hub validate_convertible gvk_for_object
    as_crd_error find_hub_type hub_among
red_to_hub = refl

convert_to_version-roundtrip_example :
    convert_to_version cars garage true true red_hub (some (to_version (group_version_of v1)))
    ≡ ok (cars.set_gvk v1 red)
convert_to_version-roundtrip_example =
    convert_to_version-roundtrip cars garage true cars-IsTyped cars-KeepsHubs red (new_car v1 [])
      red_hub v1 (car-IsSpoke (bytes "red")) red_to_hub
