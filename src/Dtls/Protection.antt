-- ===== src/Dtls/Protection.antt =====
-- crates/meshcop-dtls/src/ccm.rs and record_protection.rs: the protection of records. The cipher
-- is the crate `ccm`, which is a parameter here.
pub mod Nonce
pub mod Opening
mod Examples
use meshcop_rs.Base.{
  ℕ, ◌+◌, ◌-◌, Bool, Option, none, some, List, [], ◌∷◌, ◌++◌, ◌≡◌, leb, ltb, if◌then◌else◌, length,
  take, drop, Result, ok, err, stuck, ◌>>=◌, ◌>>◌, guard, ok_or,
}
use meshcop_rs.Base.Bits.{◌>>>◌}
use meshcop_rs.Base.Bytes.{Bytes, as_u8, u16_to_be_bytes}
use meshcop_rs.Dtls.Error.{Error, crypto}
use meshcop_rs.Dtls.Record.{
  ContentType, RecordHeader, DtlsRecord, new_record, aead_additional_data, dtls_1_2_version,
}

abbrev pub tls_ccm_fixed_iv_len : ℕ
tls_ccm_fixed_iv_len = 4

abbrev pub tls_ccm_explicit_nonce_len : ℕ
tls_ccm_explicit_nonce_len = 8

abbrev pub tls_ccm_nonce_len : ℕ
tls_ccm_nonce_len = tls_ccm_fixed_iv_len + tls_ccm_explicit_nonce_len

abbrev pub tls_ccm_8_tag_len : ℕ
tls_ccm_8_tag_len = 8

pub record RecordProtectionKey : Type 0 where
  pub bytes : Bytes

-- The nonce: the fixed part, and behind it the epoch and the 48-bit sequence number.
pub dtls_ccm_nonce : Bytes → ℕ → ℕ → Result Error Bytes
dtls_ccm_nonce fixed_iv epoch sequence_number = do
  guard (leb sequence_number 0xffff_ffff_ffff)
      (crypto "DTLS record sequence number exceeds 48 bits")
  ok (
      fixed_iv
      ++ (u16_to_be_bytes epoch
          ++ (as_u8 (sequence_number >>> 40)
              ∷ as_u8 (sequence_number >>> 32)
              ∷ as_u8 (sequence_number >>> 24)
              ∷ as_u8 (sequence_number >>> 16)
              ∷ as_u8 (sequence_number >>> 8)
              ∷ as_u8 sequence_number
              ∷ [])))

-- What the source calls of the crate: `new_from_slice`, and `encrypt` and `decrypt` of a nonce,
-- the additional data and a message. Their errors carry nothing.
pub record Ccm : Type 1 where
  pub Cipher : Type 0
  pub new_from_slice : Bytes → Option Cipher
  pub seal : Cipher → Bytes → Bytes → Bytes → Option Bytes
  pub unseal : Cipher → Bytes → Bytes → Bytes → Option Bytes

module _ (ccm : Ccm) where
  -- `AesCcm8::encrypt` and `AesCcm8::decrypt`.
  pub encrypt : RecordProtectionKey → Bytes → Bytes → Bytes → Result Error Bytes
  encrypt key nonce aad plaintext = do
    cipher ← ok_or (ccm.new_from_slice key.bytes) (crypto "invalid AES-CCM key")
    ok_or (ccm.seal cipher nonce aad plaintext) (crypto "AES-CCM encryption failed")

  pub decrypt : RecordProtectionKey → Bytes → Bytes → Bytes → Result Error Bytes
  decrypt key nonce aad ciphertext = do
    cipher ← ok_or (ccm.new_from_slice key.bytes) (crypto "invalid AES-CCM key")
    ok_or (ccm.unseal cipher nonce aad ciphertext) (crypto "AES-CCM authentication failed")

  pub protect_aes_128_ccm_8_record :
      ContentType → ℕ → ℕ → RecordProtectionKey → Bytes → Bytes → Result Error DtlsRecord
  protect_aes_128_ccm_8_record content_type epoch sequence_number key fixed_iv plaintext = do
    guard (leb (length plaintext) 0xffff) (crypto "DTLS plaintext is too long")
    nonce ← dtls_ccm_nonce fixed_iv epoch sequence_number
    let header : RecordHeader = record {
      content_type = content_type;
      version = dtls_1_2_version;
      epoch = epoch;
      sequence_number = sequence_number;
      len = 0;
    }
    ciphertext ← encrypt key nonce (aead_additional_data header (length plaintext)) plaintext
    new_record content_type epoch sequence_number (drop tls_ccm_fixed_iv_len nonce ++ ciphertext)

  pub open_aes_128_ccm_8_record : DtlsRecord → RecordProtectionKey → Bytes → Result Error Bytes
  open_aes_128_ccm_8_record r key fixed_iv = do
    guard (leb (tls_ccm_explicit_nonce_len + tls_ccm_8_tag_len) (length r.payload))
        (crypto "DTLS AES-CCM record payload is too short")
    let encrypted = drop tls_ccm_explicit_nonce_len r.payload
    guard (leb tls_ccm_8_tag_len (length encrypted)) (crypto "DTLS AES-CCM tag is missing")
    let plaintext_len = length encrypted - tls_ccm_8_tag_len
    guard (leb plaintext_len 0xffff) (crypto "DTLS plaintext length exceeds 16 bits")
    decrypt key (fixed_iv ++ take tls_ccm_explicit_nonce_len r.payload)
        (aead_additional_data r.header plaintext_len) encrypted
