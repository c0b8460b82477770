-- ===== src/Coap.antt =====
-- crates/meshcop/src/meshcop/coap.rs: the CoAP message codec. The loop of `decode` is on fuel.
pub mod Nibble
pub mod Options
pub mod Sorting
pub mod RoundTrip
pub mod Decoding
pub mod Uri
mod Examples
use meshcop_rs.Base.{
  ℕ, zero, suc, ◌+◌, ◌-◌, ◌<◌, Bool, true, false, List, [], ◌∷◌, ◌++◌, ◌&&◌, ◌||◌, leb, ltb, ◌==◌,
  if◌then◌else◌, length, take, drop, Result, ok, err, stuck, ◌>>=◌, ◌>>◌, guard, map,
}
use meshcop_rs.Base.Bits.{◌<<<◌, ◌>>>◌}
use meshcop_rs.Base.Bytes.{Bytes, as_u8, u16_from_be_bytes, u16_to_be_bytes}
use meshcop_rs.Error.{Error, dataset}
use Prim.Native.Nat.{bit_and, bit_or}

pub data CoapType : Type 0 where
  confirmable non_confirmable acknowledgement reset : CoapType

unfoldable pub coap_type_as_u8 : CoapType → ℕ
coap_type_as_u8 confirmable = 0
coap_type_as_u8 non_confirmable = 1
coap_type_as_u8 acknowledgement = 2
coap_type_as_u8 reset = 3

pub coap_type_try_from : ℕ → Result Error CoapType
coap_type_try_from v =
    if v == 0
    then ok confirmable
    else if v == 1
    then ok non_confirmable
    else if v == 2
    then ok acknowledgement
    else if v == 3
    then ok reset
    else err (dataset "invalid CoAP type")

pub record CoapCode : Type 0 where
  pub byte : ℕ

abbrev pub empty_code : CoapCode
empty_code = record { byte = 0x00 }

abbrev pub post_code : CoapCode
post_code = record { byte = 0x02 }

abbrev pub changed_code : CoapCode
changed_code = record { byte = 0x44 }

abbrev pub content_code : CoapCode
content_code = record { byte = 0x45 }

pub record CoapOption : Type 0 where
  pub number : ℕ
  pub value : Bytes

pub record CoapMessage : Type 0 where
  pub ty : CoapType
  pub code : CoapCode
  pub message_id : ℕ
  pub token : Bytes
  pub options : List CoapOption
  pub payload : Bytes

pub empty_ack : ℕ → CoapMessage
empty_ack message_id = record {
  ty = acknowledgement;
  code = empty_code;
  message_id = message_id;
  token = [];
  options = [];
  payload = [];
}

pub empty_changed_response : CoapMessage → CoapMessage
empty_changed_response request = record {
  ty = acknowledgement;
  code = changed_code;
  message_id = request.message_id;
  token = request.token;
  options = [];
  payload = [];
}

unfoldable pub is_empty {ℓ} : {A : Type ℓ} → List A → Bool
is_empty [] = true
is_empty (x ∷ xs) = false

-- What the two tests below ask of a message besides its type.
unfoldable pub is_bare : ℕ → CoapMessage → Bool
unfolding is_empty
is_bare message_id m =
    m.code.byte == empty_code.byte
    && m.message_id == message_id
    && is_empty m.token
    && is_empty m.options
    && is_empty m.payload

unfoldable pub is_empty_ack_for : CoapMessage → ℕ → Bool
unfolding coap_type_as_u8 is_bare
is_empty_ack_for m message_id =
    coap_type_as_u8 m.ty == coap_type_as_u8 acknowledgement && is_bare message_id m

unfoldable pub is_reset_for : CoapMessage → ℕ → Bool
unfolding coap_type_as_u8 is_bare
is_reset_for m message_id = coap_type_as_u8 m.ty == coap_type_as_u8 reset && is_bare message_id m

pub encode_extended_nibble : ℕ → Result Error (ℕ × Bytes)
encode_extended_nibble v =
    if leb v 12
    then ok (as_u8 v, [])
    else if leb v 268
    then ok (13, as_u8 (v - 13) ∷ [])
    else ok (14, u16_to_be_bytes (v - 269))

pub extended_byte : Bytes → Result Error (ℕ × ℕ)
extended_byte [] = err (dataset "CoAP option extension is truncated")
extended_byte (b ∷ bs) = ok (b + 13, 1)

pub extended_u16 : Bytes → Result Error (ℕ × ℕ)
extended_u16 (a ∷ b ∷ bs) =
    if ltb (u16_from_be_bytes a b + 269) 0x1_0000
    then ok (u16_from_be_bytes a b + 269, 2)
    else err (dataset "CoAP option extension overflow")
extended_u16 _ = err (dataset "CoAP option extension is truncated")

-- The value, and the number of bytes it took behind the header.
pub decode_extended_nibble : ℕ → Bytes → Result Error (ℕ × ℕ)
decode_extended_nibble nibble bytes =
    if leb nibble 12
    then ok (nibble, 0)
    else if nibble == 13
    then extended_byte bytes
    else if nibble == 14
    then extended_u16 bytes
    else err (dataset "reserved CoAP option nibble")

pub encode_option_header : ℕ → ℕ → Bytes → Result Error Bytes
encode_option_header delta len out = do
  (delta_nibble, delta_extra) ← encode_extended_nibble delta
  guard (ltb len 0x1_0000) (dataset "CoAP option too long")
  (len_nibble, len_extra) ← encode_extended_nibble len
  ok (((out ++ (bit_or (as_u8 (delta_nibble <<< 4)) len_nibble ∷ [])) ++ delta_extra) ++ len_extra)

-- `enumerate` and `sort_by_key` of the standard library, the latter as an insertion sort.
pub enumerate : ℕ → List CoapOption → List (ℕ × CoapOption)
enumerate idx [] = []
enumerate idx (option ∷ options) = (idx, option) ∷ enumerate (suc idx) options

pub key_leb : ℕ × CoapOption → ℕ × CoapOption → Bool
key_leb (i, a) (j, b) = ltb a.number b.number || (a.number == b.number && leb i j)

pub insert : ℕ × CoapOption → List (ℕ × CoapOption) → List (ℕ × CoapOption)
insert x [] = x ∷ []
insert x (y ∷ ys) = let rest = insert x ys in if key_leb x y then x ∷ y ∷ ys else y ∷ rest

pub sort : List (ℕ × CoapOption) → List (ℕ × CoapOption)
sort [] = []
sort (x ∷ xs) = insert x (sort xs)

pub sorted_options : List CoapOption → List CoapOption
sorted_options options = map (λ (x : ℕ × CoapOption). x.1) (sort (enumerate 0 options))

-- The `for` loop of `encode`.
pub encode_options : List CoapOption → ℕ → Bytes → Result Error Bytes
encode_options [] last_number out = ok out
encode_options (option ∷ options) last_number out = do
  guard (leb last_number option.number) (dataset "CoAP option numbers decreased")
  out' ← encode_option_header (option.number - last_number) (length option.value) out
  encode_options options option.number (out' ++ option.value)

pub with_payload : Bytes → Bytes → Bytes
with_payload out [] = out
with_payload out (b ∷ payload) = (out ++ (0xff ∷ [])) ++ (b ∷ payload)

pub first_byte : CoapType → ℕ → ℕ
first_byte ty token_len = bit_or (bit_or (1 <<< 6) (coap_type_as_u8 ty <<< 4)) (as_u8 token_len)

pub encode : CoapMessage → Result Error Bytes
encode m = do
  guard (leb (length m.token) 8) (dataset "CoAP token length > 8")
  let head : Bytes = first_byte m.ty (length m.token) ∷ m.code.byte ∷ []
  out ←
      encode_options (sorted_options m.options) 0
        ((head ++ u16_to_be_bytes m.message_id) ++ m.token)
  ok (with_payload out m.payload)

-- One round of the loop of `decode`, behind the header byte `first`.
pub decode_option : ℕ → Bytes → ℕ → Result Error (CoapOption × Bytes)
decode_option first after_header last_number = do
  (delta, used_delta) ← decode_extended_nibble (first >>> 4) after_header
  let after_delta = drop used_delta after_header
  (len, used_len) ← decode_extended_nibble (bit_and first 0x0f) after_delta
  let after_length = drop used_len after_delta
  guard (leb len (length after_length)) (dataset "CoAP option value is truncated")
  guard (ltb (last_number + delta) 0x1_0000) (dataset "CoAP option number overflow")
  ok (record { number = last_number + delta; value = take len after_length }, drop len after_length)

-- The options, and the payload behind the marker 0xff.
pub decode_options : ℕ → Bytes → ℕ → List CoapOption → Result Error (List CoapOption × Bytes)
decode_options fuel [] last_number options = ok (options, [])
decode_options zero (b ∷ bs) last_number options = stuck
decode_options (suc fuel) (first ∷ after_header) last_number options =
    if first == 0xff then ok (options, after_header) else (do
      (option, rest) ← decode_option first after_header last_number
      decode_options fuel rest option.number (options ++ (option ∷ [])))

pub decode : Bytes → Result Error CoapMessage
decode (b0 ∷ b1 ∷ b2 ∷ b3 ∷ after) = do
  guard ((b0 >>> 6) == 1) (dataset "unsupported CoAP version")
  let token_len = bit_and b0 0x0f
  guard (leb token_len 8 && leb token_len (length after)) (dataset "invalid CoAP token length")
  ty ← coap_type_try_from (bit_and (b0 >>> 4) 0x03)
  let rest = drop token_len after
  (options, payload) ← decode_options (length rest) rest 0 []
  ok (record {
    ty = ty;
    code = record { byte = b1 };
    message_id = u16_from_be_bytes b2 b3;
    token = take token_len after;
    options = options;
    payload = payload;
  })
decode _ = err (dataset "CoAP header is truncated")
