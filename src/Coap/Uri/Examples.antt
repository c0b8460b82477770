-- ===== src/Coap/Uri/Examples.antt =====
-- Runs of `post_request`, and the theorem on paths at a concrete input.
use meshcop_rs.Base.{ℕ, ◌≡◌, ◌==◌, if◌then◌else◌, refl, inr, [], ◌∷◌, All, arith, ok, err, some}
use meshcop_rs.Base.Utf8.{is_utf8}
use meshcop_rs.Coap.{CoapMessage, confirmable, post_code}
use meshcop_rs.Coap.Sorting.{of_number}
use meshcop_rs.Coap.Uri.{post_request, with_options, set_uri_path, uri_path}
use meshcop_rs.Coap.Uri.Segments.{IsName, IsPath, slashed, path_as_options, uri_path-set_uri_path}
use meshcop_rs.Error.{dataset}

-- The path "/c/cp".
slash_path :
    post_request confirmable 7 [] (0x2f ∷ 0x63 ∷ 0x2f ∷ 0x63 ∷ 0x70 ∷ []) (1 ∷ [])
    ≡ ok (record {
      ty = confirmable;
      code = post_code;
      message_id = 7;
      token = [];
      options =
          record { number = 11; value = 0x63 ∷ [] }
          ∷ record { number = 11; value = 0x63 ∷ 0x70 ∷ [] }
          ∷ [];
      payload = 1 ∷ [];
    })
unfolding post_request with_options
slash_path = refl

-- The path "/c//".
empty_segment :
    post_request confirmable 7 [] (0x2f ∷ 0x63 ∷ 0x2f ∷ 0x2f ∷ []) []
    ≡ err (dataset "CoAP Uri-Path has an empty segment")
unfolding post_request with_options
empty_segment = refl

-- A message with another path and an option of a higher number.
abbrev addressed : CoapMessage
addressed = record {
  ty = confirmable;
  code = post_code;
  message_id = 7;
  token = [];
  options =
      record { number = 12; value = 0x2a ∷ [] } ∷ record { number = 11; value = 0x61 ∷ [] } ∷ [];
  payload = 1 ∷ [];
}

cp_names : All IsName ((0x63 ∷ []) ∷ (0x63 ∷ 0x70 ∷ []) ∷ [])
unfolding is_utf8
cp_names = (
  (omega arith, refl, (omega arith, tt)),
  ((omega arith, refl, (omega arith, (omega arith, tt))), tt),
)

-- "c/cp", without a slash in front.
cp-IsPath : IsPath (0x63 ∷ 0x2f ∷ 0x63 ∷ 0x70 ∷ []) ((0x63 ∷ []) ∷ (0x63 ∷ 0x70 ∷ []) ∷ [])
unfolding slashed
cp-IsPath = inr refl

uri_path-set_uri_path_example :
    (after : CoapMessage) × (set_uri_path addressed (0x63 ∷ 0x2f ∷ 0x63 ∷ 0x70 ∷ [])
      ≡ (after, ok tt))
    × (uri_path after ≡ ok (some (slashed ((0x63 ∷ []) ∷ (0x63 ∷ 0x70 ∷ []) ∷ []))))
    × ((n : ℕ)
        → of_number n after.options ≡ (
            if n == 11
            then path_as_options ((0x63 ∷ []) ∷ (0x63 ∷ 0x70 ∷ []) ∷ [])
            else of_number n addressed.options))
    × (after ≡ record addressed { options = after.options })
uri_path-set_uri_path_example =
    uri_path-set_uri_path addressed (0x63 ∷ 0x2f ∷ 0x63 ∷ 0x70 ∷ []) (0x63 ∷ [])
      ((0x63 ∷ 0x70 ∷ []) ∷ []) cp_names cp-IsPath
