-- ===== src/Coap/Uri.antt =====
-- coap.rs, the Uri-Path options of a request: `set_uri_path`, `post_request` and `uri_path`. A `&str` is the
-- list of its UTF-8 bytes, in which '/' is the byte 0x2f.
pub mod Path
pub mod Segments
mod Examples
use meshcop_rs.Base.{
  ℕ, Bool, true, false, not, List, [], ◌∷◌, ◌++◌, ◌==◌, if◌then◌else◌, Result, ok, err, stuck,
  ◌>>=◌, ◌>>◌, guard, ok_or, Option, none, some,
}
use meshcop_rs.Base.Utf8.{from_utf8}
use meshcop_rs.Base.Bytes.{Bytes}
use meshcop_rs.Coap.{CoapType, CoapOption, CoapMessage, is_empty, post_code}
use meshcop_rs.Error.{Error, dataset}

abbrev pub coap_option_uri_path : ℕ
coap_option_uri_path = 11

-- `retain(|option| option.number != COAP_OPTION_URI_PATH)`
pub without_path : List CoapOption → List CoapOption
without_path [] = []
without_path (option ∷ options) =
    let rest = without_path options in
    if option.number == coap_option_uri_path then rest else option ∷ rest

-- `strip_prefix('/').unwrap_or(uri_path)`
unfoldable pub strip_slash : Bytes → Bytes
strip_slash [] = []
strip_slash (b ∷ bs) = if b == 0x2f then bs else b ∷ bs

-- A byte in front of the first segment.
unfoldable pub into_first : ℕ → List Bytes → List Bytes
into_first b [] = (b ∷ []) ∷ []
into_first b (segment ∷ segments) = (b ∷ segment) ∷ segments

-- `split('/')`, which gives one segment more than there are slashes.
unfoldable pub split : Bytes → List Bytes
unfolding into_first
split [] = [] ∷ []
split (b ∷ bs) = let rest = split bs in if b == 0x2f then [] ∷ rest else into_first b rest

-- The `for` loop: the options with the segments pushed, and the result. On an empty segment the
-- segments before it have been pushed.
pub push_segments : List Bytes → List CoapOption → List CoapOption × Result Error (Unit {0})
unfolding is_empty
push_segments [] options = (options, ok tt)
push_segments (segment ∷ segments) options =
    let rest =
      push_segments segments
        (options ++ (record { number = coap_option_uri_path; value = segment } ∷ [])) in
    if is_empty segment then (options, err (dataset "CoAP Uri-Path has an empty segment")) else rest

pub path_options : Bytes → List CoapOption → List CoapOption × Result Error (Unit {0})
unfolding is_empty push_segments split
path_options trimmed options =
    if is_empty trimmed then (options, ok tt) else push_segments (split trimmed) options

pub with_options : CoapMessage → List CoapOption → CoapMessage
with_options m options = record {
  ty = m.ty;
  code = m.code;
  message_id = m.message_id;
  token = m.token;
  options = options;
  payload = m.payload;
}

pub set_uri_path : CoapMessage → Bytes → CoapMessage × Result Error (Unit {0})
unfolding path_options without_path strip_slash
set_uri_path m uri_path =
    let (options, result) = path_options (strip_slash uri_path) (without_path m.options) in
    (with_options m options, result)

pub post_request : CoapType → ℕ → Bytes → Bytes → Bytes → Result Error CoapMessage
unfolding set_uri_path
post_request ty message_id token uri_path payload =
    let (m, result) =
      set_uri_path
        (record {
          ty = ty;
          code = post_code;
          message_id = message_id;
          token = token;
          options = [];
          payload = payload;
        })
        uri_path in
    result >> ok m

-- The values of the Uri-Path options, which have to be texts.
pub path_segments : List CoapOption → Result Error (List Bytes)
path_segments [] = ok []
path_segments (option ∷ options) =
    let rest = path_segments options in
    if option.number == coap_option_uri_path
    then (do
      segment ← ok_or (from_utf8 option.value) (dataset "CoAP Uri-Path is not UTF-8")
      segments ← rest
      ok (segment ∷ segments))
    else rest

-- A slash in front of each segment: `join("/")` with one more in front.
pub joined : List Bytes → Bytes
joined [] = []
joined (segment ∷ segments) = 0x2f ∷ (segment ++ joined segments)

pub path_of_segments : List Bytes → Option Bytes
unfolding joined
path_of_segments [] = none
path_of_segments (segment ∷ segments) = some (joined (segment ∷ segments))

pub uri_path : CoapMessage → Result Error (Option Bytes)
unfolding path_segments path_of_segments
uri_path m = do segments ← path_segments m.options; ok (path_of_segments segments)
