-- ===== src/Tlv.antt =====
-- crates/meshcop/src/tlv.rs: the TLV codec. A length byte of 0xff announces a two-byte length.
pub mod RoundTrip
pub mod Parsing
pub mod Values
pub mod Reading
mod Examples
use meshcop_rs.Base.{
  ℕ, zero, suc, ◌%◌, Bool, Option, none, some, List, [], ◌∷◌, ◌++◌, leb, ◌==◌, if◌then◌else◌,
  length, take, drop, Result, ok, err, stuck, ◌>>=◌, ◌>>◌, guard,
}
use meshcop_rs.Base.Bytes.{Bytes, as_u8, u16_from_be_bytes, u16_to_be_bytes}
use mathlib.Core.List.{reverse}
use mathlib.Core.Option

abbrev pub max_standard_tlv_length : ℕ
max_standard_tlv_length = 254

abbrev pub extended_tlv_marker : ℕ
extended_tlv_marker = 0xff

abbrev pub max_extended_tlv_length : ℕ
max_extended_tlv_length = 0xffff

pub data TlvError : Type 0 where
  buffer_too_small invalid_length invalid_value : TlvError
  value_too_large : ℕ → TlvError

pub record TlvEntry : Type 0 where
  pub ty : ℕ
  pub value : Bytes

pub record TlvSet : Type 0 where
  pub entries : List TlvEntry

pub extended_length : Bytes → Result TlvError (ℕ × Bytes)
extended_length (high ∷ low ∷ body) = ok (u16_from_be_bytes high low, body)
extended_length _ = err buffer_too_small

-- The length in the header, and the bytes behind the header.
pub header_length : ℕ → Bytes → Result TlvError (ℕ × Bytes)
header_length length_byte after =
    if length_byte == extended_tlv_marker then extended_length after else ok (length_byte, after)

-- `end` is at most 4 + 65535, so `checked_add` does not overflow.
pub parse_one : Bytes → Result TlvError (TlvEntry × Bytes)
parse_one (ty ∷ length_byte ∷ after) = do
  (len, body) ← header_length length_byte after
  guard (leb len (length body)) buffer_too_small
  ok (record { ty = ty; value = take len body }, drop len body)
parse_one _ = err buffer_too_small

-- The `while` loop of `TlvSet::parse`, on fuel.
pub parse_loop : ℕ → Bytes → List TlvEntry → Result TlvError (List TlvEntry)
parse_loop fuel [] entries = ok entries
parse_loop zero (b ∷ bs) entries = stuck
parse_loop (suc fuel) (b ∷ bs) entries = do
  (entry, rest) ← parse_one (b ∷ bs)
  parse_loop fuel rest (entries ++ (entry ∷ []))

-- A round takes two bytes at least.
pub parse : Bytes → Result TlvError TlvSet
parse bytes = do entries ← parse_loop (length bytes) bytes []; ok (record { entries = entries })

-- What `out` holds after the call, and the call's result: a header that is refused has left `ty`.
pub encode_header : ℕ → ℕ → Bytes → Bytes × Result TlvError (Unit {0})
encode_header ty len out =
    let out' = out ++ (ty ∷ []) in
    if leb len max_standard_tlv_length
    then (out' ++ (as_u8 len ∷ []), ok tt)
    else if leb len max_extended_tlv_length
    then ((out' ++ (extended_tlv_marker ∷ [])) ++ u16_to_be_bytes (len % 0x1_0000), ok tt)
    else (out', err (value_too_large len))

pub extend_from_slice :
    Bytes × Result TlvError (Unit {0}) → Bytes → Bytes × Result TlvError (Unit {0})
extend_from_slice (out, ok _) value = (out ++ value, ok tt)
extend_from_slice (out, err e) value = (out, err e)
extend_from_slice (out, stuck) value = (out, stuck)

pub encode_entry : TlvEntry → Bytes → Bytes × Result TlvError (Unit {0})
unfolding extend_from_slice
encode_entry entry out =
    extend_from_slice (encode_header entry.ty (length entry.value) out) entry.value

-- `?` after a call that writes to `out`.
pub written : Bytes × Result TlvError (Unit {0}) → Result TlvError Bytes
written (out, ok _) = ok out
written (out, err e) = err e
written (out, stuck) = stuck

pub encode_loop : List TlvEntry → Bytes → Result TlvError Bytes
encode_loop [] out = ok out
encode_loop (entry ∷ entries) out = do
  out' ← written (encode_entry entry out)
  encode_loop entries out'

pub encode : TlvSet → Result TlvError Bytes
encode set = encode_loop set.entries []

pub push : TlvSet → TlvEntry → TlvSet
push set entry = record { entries = set.entries ++ (entry ∷ []) }

unfoldable pub find_ty : ℕ → List TlvEntry → Option TlvEntry
find_ty ty [] = none
find_ty ty (entry ∷ entries) = if entry.ty == ty then some entry else find_ty ty entries

unfoldable pub last_value : TlvSet → ℕ → Option Bytes
unfolding find_ty
last_value set ty = Option.map (λ entry. entry.value) (find_ty ty (reverse set.entries))

-- `retain(|entry| entry.ty != ty)`
pub retain_ne : ℕ → List TlvEntry → List TlvEntry
retain_ne ty [] = []
retain_ne ty (entry ∷ entries) =
    let rest = retain_ne ty entries in if entry.ty == ty then rest else entry ∷ rest

pub set_last : TlvSet → ℕ → Bytes → TlvSet
set_last set ty value = record {
  entries = retain_ne ty set.entries ++ (record { ty = ty; value = value } ∷ []);
}
