-- ===== src/Tlv/RoundTrip.antt =====
-- `TlvSet::encode` against a plain description of the wire format, and parsing what it wrote.
use meshcop_rs.Base.{
  ℕ, zero, suc, ◌/◌, ◌%◌, ◌≤◌, ◌<◌, ◌≡◌, refl, sym, ap, ◌∙◌, List, [], ◌∷◌, ◌++◌, append-nil,
  append_assoc, arith, leb, length, All, length-append, take-append, drop-append, ok, err,
  if◌then◌else◌, Result, Option, none, some, Bool-cases, inl, inr,
}
use meshcop_rs.Base.Bytes.{Bytes}
use meshcop_rs.Tlv.{
  TlvError, TlvEntry, TlvSet, value_too_large, extended_length, header_length, parse_one,
  parse_loop, parse, encode_header, encode_entry, written, encode_loop, encode,
}

-- A value that has an encoding.
abbrev pub Fits : TlvEntry → Type 0
Fits entry = length entry.value < 0x1_0000

pub header : ℕ → ℕ → Bytes
header ty len = if leb len 254 then ty ∷ len ∷ [] else ty ∷ 0xff ∷ (len / 256) ∷ (len % 256) ∷ []

pub wire : TlvEntry → Bytes
wire entry = header entry.ty (length entry.value) ++ entry.value

unfoldable pub wires : List TlvEntry → Bytes
wires [] = []
wires (entry ∷ entries) = wire entry ++ wires entries

parse_one-wire :
    (entry : TlvEntry) (rest : Bytes)
    → Fits entry
    → parse_one (wire entry ++ rest) ≡ ok (entry, rest)
unfolding parse_one wire header header_length extended_length
parse_one-wire entry rest h = ground (
  arith,
  take-append entry.value rest,
  drop-append entry.value rest,
  length-append entry.value rest,
)

encode_header-header :
    (ty len : ℕ) (out : Bytes)
    → len < 0x1_0000
    → encode_header ty len out ≡ (out ++ header ty len, ok tt)
unfolding encode_header header
encode_header-header ty len out h = ground (
  arith,
  append_assoc out (ty ∷ []) (len ∷ []),
  append_assoc out (ty ∷ []) (0xff ∷ []),
  append_assoc out (ty ∷ 0xff ∷ []) ((len / 256) ∷ (len % 256) ∷ []),
)

-- The first entry whose value has no encoding, by its length.
pub too_large : List TlvEntry → Option ℕ
too_large [] = none
too_large (entry ∷ entries) =
    if leb (length entry.value) 0xffff then too_large entries else some (length entry.value)

abbrev pub wires_or_error : Option ℕ → Bytes → Result TlvError Bytes
wires_or_error none out = ok out
wires_or_error (some n) out = err (value_too_large n)

pub encode_entry-wire :
    (entry : TlvEntry) (out : Bytes)
    → written (encode_entry entry out) ≡ (
        if leb (length entry.value) 0xffff
        then ok (out ++ wire entry)
        else err (value_too_large (length entry.value)))
unfolding encode_entry written wire
encode_entry-wire entry out = elim (Bool-cases (leb (length entry.value) 0xffff)) [
  | inl fits ↦ rw fits (
      rw (encode_header-header entry.ty (length entry.value) out (ground arith))
        (ap ok (append_assoc out (header entry.ty (length entry.value)) entry.value)))
  | inr large ↦ unfold encode_header in ground arith
]

encode_loop-wires :
    (entries : List TlvEntry) (out : Bytes)
    → encode_loop entries out ≡ wires_or_error (too_large entries) (out ++ wires entries)
unfolding encode_loop too_large wires
encode_loop-wires [] out = ap ok (sym (append-nil out))
encode_loop-wires (entry ∷ entries) out = ground (
  arith,
  encode_entry-wire entry out,
  encode_loop-wires entries (out ++ wire entry),
  append_assoc out (wire entry) (wires entries),
)

-- `encode` writes each entry's type, length and value in order, with the two-byte length exactly
-- from 255 bytes on; it fails on the first value over 65535 bytes, naming its length.
pub encode-wires :
    (set : TlvSet) → encode set ≡ wires_or_error (too_large set.entries) (wires set.entries)
unfolding encode
encode-wires set = encode_loop-wires set.entries []

too_large-none : (entries : List TlvEntry) → All Fits entries → too_large entries ≡ none
unfolding too_large
too_large-none [] h = refl
too_large-none (entry ∷ entries) h = ground (arith, too_large-none entries h.1)

length-wire : (entry : TlvEntry) → 2 ≤ length (wire entry)
unfolding wire header
length-wire entry = ground (arith, length-append (header entry.ty (length entry.value)) entry.value)

pub parse_loop-step :
    (fuel : ℕ) (bytes : Bytes) {entry : TlvEntry} {rest : Bytes} (done : List TlvEntry)
    → parse_one bytes ≡ ok (entry, rest)
    → parse_loop (suc fuel) bytes done ≡ parse_loop fuel rest (done ++ (entry ∷ []))
unfolding parse_loop
parse_loop-step fuel [] done e = unfold parse_one in cc
parse_loop-step fuel (b ∷ bs) done e = rw e

parse_loop-wires :
    (entries : List TlvEntry) (fuel : ℕ) (done : List TlvEntry)
    → All Fits entries
    → length (wires entries) ≤ fuel
    → parse_loop fuel (wires entries) done ≡ ok (done ++ entries)
unfolding wires
parse_loop-wires [] fuel done h k = unfold parse_loop in ap ok (sym (append-nil done))
parse_loop-wires (entry ∷ entries) zero done h k =
    absurd (omega (arith, length-wire entry, length-append (wire entry) (wires entries)))
parse_loop-wires (entry ∷ entries) (suc fuel) done h k =
    parse_loop-step fuel _ done (parse_one-wire entry (wires entries) h.0)
    ∙ parse_loop-wires entries fuel (done ++ (entry ∷ [])) h.1
        (omega (arith, length-wire entry, length-append (wire entry) (wires entries)))
    ∙ ap ok (append_assoc done (entry ∷ []) entries)

pub parse-wires :
    (entries : List TlvEntry)
    → All Fits entries
    → parse (wires entries) ≡ ok (record { entries = entries })
unfolding parse
parse-wires entries h =
    rw (parse_loop-wires entries (length (wires entries)) [] h (omega arith)) refl

-- A set whose values have at most 65535 bytes is encoded, and parsing the encoding gives it back:
-- the same entries in the same order, duplicates and unknown types included.
pub parse-encode :
    (set : TlvSet)
    → All Fits set.entries
    → (bytes : Bytes) × (encode set ≡ ok bytes) × (parse bytes ≡ ok set)
parse-encode set h = (
  wires set.entries,
  encode-wires set ∙ ap (λ o. wires_or_error o (wires set.entries)) (too_large-none set.entries h),
  parse-wires set.entries h,
)
