-- ===== src/Codec/Decoder/Options.antt =====
-- pkg/serializer/decode.go: the options of a decoder.
use libgitops.Prelude.{Bool, true, false, List, [], ◌∷◌}

-- `DecodingOptions`, whose pointers are never nil.
pub record DecodingOptions : Type 0 where
  pub convert_to_hub : Bool
  pub strict : Bool
  pub default : Bool
  pub decode_list_elements : Bool
  pub preserve_comments : Bool
  pub decode_unknown : Bool

abbrev pub DecodingOptionsFunc : Type 0
DecodingOptionsFunc = DecodingOptions → DecodingOptions

abbrev pub with_convert_to_hub_decode : Bool → DecodingOptionsFunc
with_convert_to_hub_decode convert opts = record opts { convert_to_hub = convert }

abbrev pub with_strict_decode : Bool → DecodingOptionsFunc
with_strict_decode strict opts = record opts { strict = strict }

abbrev pub with_defaults_decode : Bool → DecodingOptionsFunc
with_defaults_decode defaults opts = record opts { default = defaults }

abbrev pub with_list_elements_decoding : Bool → DecodingOptionsFunc
with_list_elements_decoding list_elements opts = record opts {
  decode_list_elements = list_elements;
}

abbrev pub with_comments_decode : Bool → DecodingOptionsFunc
with_comments_decode comments opts = record opts { preserve_comments = comments }

abbrev pub with_unknown_decode : Bool → DecodingOptionsFunc
with_unknown_decode unknown opts = record opts { decode_unknown = unknown }

abbrev pub with_decoding_options : DecodingOptions → DecodingOptionsFunc
with_decoding_options new_opts opts = new_opts

-- `defaultDecodeOpts`
abbrev pub default_decode_opts : DecodingOptions
default_decode_opts = record {
  convert_to_hub = false;
  strict = true;
  default = false;
  decode_list_elements = true;
  preserve_comments = false;
  decode_unknown = false;
}

-- The loop of `newDecodeOpts`.
abbrev pub apply_decode_opts : List DecodingOptionsFunc → DecodingOptions → DecodingOptions
apply_decode_opts [] opts = opts
apply_decode_opts (fn ∷ fns) opts = apply_decode_opts fns (fn opts)

abbrev pub new_decode_opts : List DecodingOptionsFunc → DecodingOptions
new_decode_opts fns = apply_decode_opts fns default_decode_opts
