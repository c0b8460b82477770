-- ===== src/Meshcop/Notifications/Payload.antt =====
-- parsers.rs, builders.rs and util.rs: payloads that were written TLV by TLV.
use meshcop_rs.Base.{
  ℕ, ◌<◌, ◌≡◌, refl, sym, ap, ◌∙◌, true, List, [], ◌∷◌, ◌++◌, append_assoc, append-nil, arith, ok,
  length, map_err, leb,
}
use meshcop_rs.Base.Bytes.{Bytes, IsU16, u16_to_be_bytes}
use meshcop_rs.Error.{tlv}
use meshcop_rs.Meshcop.State.{append_tlv, append_u16}
use meshcop_rs.Tlv.{TlvEntry, encode_entry, written}
use meshcop_rs.Tlv.Reading.{read_u16}
use meshcop_rs.Tlv.RoundTrip.{wire, wires, encode_entry-wire}
use meshcop_rs.Wire.{read_u16-to_be_bytes}

abbrev pub entry_of : ℕ → Bytes → TlvEntry
entry_of ty value = record { ty = ty; value = value }

wires-append_one :
    (entries : List TlvEntry) (entry : TlvEntry)
    → wires (entries ++ (entry ∷ [])) ≡ wires entries ++ wire entry
unfolding wires
wires-append_one [] entry = append-nil (wire entry)
wires-append_one (first ∷ entries) entry =
    ap (λ bytes. wire first ++ bytes) (wires-append_one entries entry)
    ∙ sym (append_assoc (wire first) (wires entries) (wire entry))

-- One TLV more at the end of a payload.
pub append_tlv-wires :
    (entries : List TlvEntry) (ty : ℕ) (value : Bytes)
    → length value < 0x1_0000
    → append_tlv (wires entries) ty value ≡ ok (wires (entries ++ (entry_of ty value ∷ [])))
unfolding append_tlv
append_tlv-wires entries ty value h =
    let short : leb (length value) 0xffff ≡ true = ground arith in
    let written_is : written (encode_entry (entry_of ty value) (wires entries))
        ≡ ok (wires entries ++ wire (entry_of ty value)) =
      encode_entry-wire (entry_of ty value) (wires entries) ∙ rw short refl in
    ap (map_err tlv) written_is ∙ ap ok (sym (wires-append_one entries (entry_of ty value)))

pub append_u16-wires :
    (entries : List TlvEntry) (ty v : ℕ)
    → append_u16 (wires entries) ty v
      ≡ ok (wires (entries ++ (entry_of ty (u16_to_be_bytes v) ∷ [])))
unfolding append_u16
append_u16-wires entries ty v = append_tlv-wires entries ty (u16_to_be_bytes v) (omega arith)

-- The first TLV of a payload.
pub append_tlv-first :
    (ty : ℕ) (value : Bytes)
    → length value < 0x1_0000
    → append_tlv [] ty value ≡ ok (wires (entry_of ty value ∷ []))
append_tlv-first ty value h =
    let from_empty = append_tlv-wires [] ty value h in unfold wires in from_empty

pub append_u16-first :
    (ty v : ℕ) → append_u16 [] ty v ≡ ok (wires (entry_of ty (u16_to_be_bytes v) ∷ []))
unfolding append_u16
append_u16-first ty v = append_tlv-first ty (u16_to_be_bytes v) (omega arith)

pub read_u16-bytes : (v : ℕ) → IsU16 v → map_err tlv (read_u16 (u16_to_be_bytes v)) ≡ ok v
unfolding read_u16
read_u16-bytes v h = rw (read_u16-to_be_bytes v h) refl
