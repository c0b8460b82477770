-- ===== src/Dtls/Record/Binding.antt =====
-- record.rs: what the additional data of a record's encryption binds.
use meshcop_rs.Base.{ℕ, zero, suc, ◌/◌, ◌%◌, ◌^◌, ◌≡◌, refl, sym, ap, ◌∙◌, [], ◌∷◌, arith, ok}
use meshcop_rs.Base.Bytes.{Bytes, IsU16}
use meshcop_rs.Dtls.Record.{
  ContentType, RecordHeader, aead_additional_data, sequence_bytes, content_type_as_u8,
  content_type_try_from,
}
use meshcop_rs.Dtls.Record.Header.{IsU48, IsHeader, content_type_try_from-as_u8}

-- The byte at a place, or 0.
unfoldable pub byte : ℕ → Bytes → ℕ
byte i [] = 0
byte zero (b ∷ bs) = b
byte (suc i) (b ∷ bs) = byte i bs

pub u16_inj :
    (a b : ℕ) → IsU16 a → IsU16 b → a / 256 % 256 ≡ b / 256 % 256 → a % 256 ≡ b % 256 → a ≡ b
u16_inj a b h k e f = omega arith

pub u48_inj :
    (s t : ℕ)
    → IsU48 s
    → IsU48 t
    → s / 2 ^ 40 % 256 ≡ t / 2 ^ 40 % 256
    → s / 2 ^ 32 % 256 ≡ t / 2 ^ 32 % 256
    → s / 2 ^ 24 % 256 ≡ t / 2 ^ 24 % 256
    → s / 2 ^ 16 % 256 ≡ t / 2 ^ 16 % 256
    → s / 2 ^ 8 % 256 ≡ t / 2 ^ 8 % 256
    → s % 256 ≡ t % 256
    → s ≡ t
u48_inj s t h k b0 b1 b2 b3 b4 b5 = omega arith

content_type_as_u8_inj : (c d : ContentType) → content_type_as_u8 c ≡ content_type_as_u8 d → c ≡ d
content_type_as_u8_inj c d e =
    let f : ok c ≡ content_type_try_from (content_type_as_u8 d) =
      sym (content_type_try_from-as_u8 c) ∙ ap content_type_try_from e in
    let g = f ∙ content_type_try_from-as_u8 d in cc

-- The additional data binds the record's epoch, sequence number, type and version and the length
-- of the plaintext: two headers whose numbers fit the wire, and lengths of 16 bits, with the same
-- data agree in all of them.
pub aead_additional_data_inj :
    (h h' : RecordHeader) (n n' : ℕ)
    → IsHeader h
    → IsHeader h'
    → IsU16 n
    → IsU16 n'
    → aead_additional_data h n ≡ aead_additional_data h' n'
    → (h.content_type ≡ h'.content_type)
      × (h.version ≡ h'.version)
      × (h.epoch ≡ h'.epoch)
      × (h.sequence_number ≡ h'.sequence_number)
      × (n ≡ n')
unfolding aead_additional_data sequence_bytes byte
aead_additional_data_inj h h' n n' fits fits' small small' e = (
  content_type_as_u8_inj h.content_type h'.content_type (ap (byte 8) e),
  u16_inj h.version h'.version fits.version_fits fits'.version_fits (ap (byte 9) e)
      (ap (byte 10) e),
  u16_inj h.epoch h'.epoch fits.epoch_fits fits'.epoch_fits (ap (byte 0) e) (ap (byte 1) e),
  u48_inj h.sequence_number h'.sequence_number fits.sequence_fits fits'.sequence_fits
      (ap (byte 2) e) (ap (byte 3) e) (ap (byte 4) e) (ap (byte 5) e) (ap (byte 6) e)
      (ap (byte 7) e),
  u16_inj n n' small small' (ap (byte 11) e) (ap (byte 12) e),
)

-- It does not depend on the length that the header states.
pub aead_additional_data_len :
    (c : ContentType) (v e s l l' n : ℕ)
    → aead_additional_data
        (record { content_type = c; version = v; epoch = e; sequence_number = s; len = l })
        n
      ≡ aead_additional_data
          (record { content_type = c; version = v; epoch = e; sequence_number = s; len = l' })
          n
unfolding aead_additional_data
aead_additional_data_len c v e s l l' n = refl
