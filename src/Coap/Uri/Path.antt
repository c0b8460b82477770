-- ===== src/Coap/Uri/Path.antt =====
-- coap.rs: `set_uri_path` and `uri_path` on one message, for a path as the source trims it.
use meshcop_rs.Base.{
  ℕ, ◌≡◌, refl, sym, ap, ◌∙◌, true, false, Bool-cases, inl, inr, List, [], ◌∷◌, ◌++◌, ◌==◌, ok,
  ◌>>◌, some, All, arith, append_assoc, append-nil,
}
use meshcop_rs.Base.Bytes.{Bytes}
use meshcop_rs.Base.Utf8.{is_utf8, from_utf8}
use meshcop_rs.Coap.{CoapOption, CoapMessage, CoapType, is_empty, post_code}
use meshcop_rs.Coap.Uri.{
  coap_option_uri_path, without_path, strip_slash, into_first, split, push_segments, path_options,
  with_options, set_uri_path, post_request, path_segments, joined, path_of_segments, uri_path,
}

-- A segment that a path may have: a text that is not empty.
abbrev pub IsSegment : Bytes → Type 0
IsSegment segment = (is_empty segment ≡ false) × (is_utf8 segment ≡ true)

unfoldable pub options_of : List Bytes → List CoapOption
options_of [] = []
options_of (segment ∷ segments) =
    record { number = coap_option_uri_path; value = segment } ∷ options_of segments

joined-into_first :
    (b : ℕ) (segment : Bytes) (segments : List Bytes)
    → joined (into_first b (segment ∷ segments)) ≡ 0x2f ∷ (b ∷ (segment ++ joined segments))
unfolding joined into_first
joined-into_first b segment segments = refl

-- Splitting at the slashes and joining with them gives the text back.
joined-split :
    (bytes : Bytes)
    → (segment : Bytes) × (segments : List Bytes) × (split bytes ≡ segment ∷ segments)
      × (segment ++ joined segments ≡ bytes)
unfolding split joined
joined-split [] = ([], [], refl, refl)
joined-split (b ∷ bytes) =
    let (segment, segments, cut, whole) = joined-split bytes in
    elim (Bool-cases (b == 0x2f)) [
      | inl slash ↦
          let is : b ≡ 0x2f = ground arith in
          ([], segment ∷ segments, rw (slash, cut) refl, rw is (ap (◌∷◌ 0x2f) whole))
      | inr other ↦
          (b ∷ segment, segments, rw (other, cut) (unfold into_first in refl), ap (◌∷◌ b) whole)
    ]

push_segments-options :
    (segments : List Bytes) (options : List CoapOption)
    → All IsSegment segments
    → push_segments segments options ≡ (options ++ options_of segments, ok tt)
unfolding push_segments options_of
push_segments-options [] options h = ap (λ o. (o, ok tt)) (sym (append-nil options))
push_segments-options (segment ∷ segments) options h =
    let pushed =
      push_segments-options segments
        (options ++ (record { number = coap_option_uri_path; value = segment } ∷ [])) h.1 in
    rw (h.0.0, pushed)
      (ap (λ o. (o, ok tt))
        (append_assoc options (record { number = coap_option_uri_path; value = segment } ∷ [])
          (options_of segments)))

from_utf8-text : (text : Bytes) → is_utf8 text ≡ true → from_utf8 text ≡ some text
unfolding from_utf8
from_utf8-text text h = rw h refl

path_segments-without_path :
    (options : List CoapOption) (segments : List Bytes)
    → All IsSegment segments
    → path_segments (without_path options ++ options_of segments) ≡ ok segments
unfolding path_segments without_path options_of
path_segments-without_path [] [] h = refl
path_segments-without_path [] (segment ∷ segments) h =
    rw (from_utf8-text segment h.0.1, path_segments-without_path [] segments h.1) refl
path_segments-without_path (option ∷ options) segments h =
    elim (Bool-cases (option.number == coap_option_uri_path)) [
      | inl path ↦ rw path (path_segments-without_path options segments h)
      | inr other ↦ rw (other, other) (path_segments-without_path options segments h)
    ]

-- What a path leaves: the other options, and behind them one for each segment.
pub set_uri_path-options :
    (m : CoapMessage) (path : Bytes)
    → is_empty (strip_slash path) ≡ false
    → All IsSegment (split (strip_slash path))
    → set_uri_path m path
      ≡ (with_options m (without_path m.options ++ options_of (split (strip_slash path))), ok tt)
unfolding set_uri_path path_options
set_uri_path-options m path filled h =
    let trimmed : Bytes = strip_slash path in
    let options : List CoapOption = without_path m.options ++ options_of (split trimmed) in
    let set : path_options trimmed (without_path m.options) ≡ (options, ok tt) =
      rw filled (push_segments-options (split trimmed) (without_path m.options) h) in
    ap (λ r. (with_options m r.0, r.1)) set

pub uri_path-set_trimmed :
    (m : CoapMessage) (path : Bytes)
    → is_empty (strip_slash path) ≡ false
    → All IsSegment (split (strip_slash path))
    → (after : CoapMessage) × (set_uri_path m path ≡ (after, ok tt))
      × (uri_path after ≡ ok (some (0x2f ∷ strip_slash path)))
unfolding uri_path
uri_path-set_trimmed m path filled h =
    let trimmed : Bytes = strip_slash path in
    let options : List CoapOption = without_path m.options ++ options_of (split trimmed) in
    let (segment, segments, cut, whole) = joined-split trimmed in
    let read : path_segments options ≡ ok (segment ∷ segments) =
      path_segments-without_path m.options (split trimmed) h ∙ ap ok cut in
    let path_is : path_of_segments (segment ∷ segments) ≡ some (0x2f ∷ trimmed) =
      unfold path_of_segments joined in ap (λ t. some (0x2f ∷ t)) whole in
    (
      with_options m options,
      set_uri_path-options m path filled h,
      unfold with_options in rw (read, path_is) refl,
    )

pub set_uri_path-payload :
    (m : CoapMessage) (path : Bytes) → (set_uri_path m path).0.payload ≡ m.payload
unfolding set_uri_path with_options
set_uri_path-payload m path = refl

-- A request carries its payload to its path.
pub post_request-uri_path :
    (ty : CoapType) (message_id : ℕ) (token path payload : Bytes)
    → is_empty (strip_slash path) ≡ false
    → All IsSegment (split (strip_slash path))
    → (m : CoapMessage) × (post_request ty message_id token path payload ≡ ok m)
      × (uri_path m ≡ ok (some (0x2f ∷ strip_slash path)))
      × (m.payload ≡ payload)
unfolding post_request
post_request-uri_path ty message_id token path payload filled h =
    let bare : CoapMessage = record {
      ty = ty;
      code = post_code;
      message_id = message_id;
      token = token;
      options = [];
      payload = payload;
    } in
    let (m, set, read) = uri_path-set_trimmed bare path filled h in
    (
      m,
      ap (λ r. r.1 >> ok r.0) set,
      read,
      sym (ap (λ r. r.0.payload) set) ∙ set_uri_path-payload bare path,
    )
