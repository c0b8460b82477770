-- ===== src/Dtls/Protection/Opening.antt =====
-- record_protection.rs: opening records, protected ones and any others.
use meshcop_rs.Base.{
  ℕ, ◌+◌, ◌-◌, ◌≡◌, ◌≤◌, ◌<◌, ap, ◌++◌, arith, length, take, drop, ok, leb, leb→le, le→leb, true,
  drop-append_eq, ok_or, length-append, ◌∙◌, sym, some, >>=-ok, guard-ok, ok_or-ok,
}
use meshcop_rs.Base.Bytes.{Bytes, u16_to_be_bytes}
use meshcop_rs.Dtls.Error.{crypto}
use meshcop_rs.Dtls.Protection.{
  Ccm, RecordProtectionKey, encrypt, decrypt, protect_aes_128_ccm_8_record,
  open_aes_128_ccm_8_record,
}
use meshcop_rs.Dtls.Protection.Nonce.{dtls_ccm_nonce-ok}
use meshcop_rs.Dtls.Record.{
  ContentType, DtlsRecord, new_record, aead_additional_data, sequence_bytes, dtls_1_2_version,
}
use meshcop_rs.Dtls.Record.Header.{IsU48}
use meshcop_rs.Dtls.Record.Binding.{aead_additional_data_len}

-- What the documentation of AES-CCM with an 8-byte tag and a nonce of 12 bytes promises: a key of
-- 16 bytes is accepted, a message below 2 ^ 24 bytes is sealed, the result is longer by the tag and
-- is unsealed under the same nonce and data, and what is unsealed was sealed.
pub record IsAead (ccm : Ccm) : Type 0 where
  pub key_accepted :
      (key : Bytes) → length key ≡ 16 → (c : ccm.Cipher) × (ccm.new_from_slice key ≡ some c)
  pub seals :
      (c : ccm.Cipher) (nonce aad message : Bytes)
      → length nonce ≡ 12
      → length message < 0x100_0000
      → (sealed : Bytes) × (ccm.seal c nonce aad message ≡ some sealed)
  pub length_sealed :
      (c : ccm.Cipher) (nonce aad message sealed : Bytes)
      → ccm.seal c nonce aad message ≡ some sealed
      → length sealed ≡ length message + 8
  pub unsealed :
      (c : ccm.Cipher) (nonce aad message sealed : Bytes)
      → ccm.seal c nonce aad message ≡ some sealed
      → ccm.unseal c nonce aad sealed ≡ some message
  pub authentic :
      (c : ccm.Cipher) (nonce aad message sealed : Bytes)
      → ccm.unseal c nonce aad sealed ≡ some message
      → ccm.seal c nonce aad message ≡ some sealed

abbrev explicit : ℕ → ℕ → Bytes
explicit e s = u16_to_be_bytes e ++ sequence_bytes s

-- A record of the version of DTLS 1.2, with the length of its payload.
abbrev framed : ContentType → ℕ → ℕ → Bytes → DtlsRecord
framed content_type e s payload = record {
  header = record {
    content_type = content_type;
    version = dtls_1_2_version;
    epoch = e;
    sequence_number = s;
    len = length payload;
  };
  payload = payload;
}

module _ (ccm : Ccm) (content_type : ContentType) (e s : ℕ) (key : RecordProtectionKey)
    (fixed_iv plaintext : Bytes) where
  abbrev additional : ℕ → Bytes
  additional len =
      aead_additional_data
        (record {
          content_type = content_type;
          version = dtls_1_2_version;
          epoch = e;
          sequence_number = s;
          len = len;
        })
        (length plaintext)

  open-framed :
      IsAead ccm
      → (c : ccm.Cipher) (sealed : Bytes) → ccm.new_from_slice key.bytes ≡ some c
      → ccm.seal c (fixed_iv ++ explicit e s) (additional 0) plaintext ≡ some sealed
      → length plaintext ≤ 0xffff
      → open_aes_128_ccm_8_record ccm
          (framed content_type e s (explicit e s ++ sealed))
          key
          fixed_iv
        ≡ ok plaintext
  unfolding open_aes_128_ccm_8_record decrypt sequence_bytes
  open-framed aead c sealed k z short =
      let len : length sealed ≡ length plaintext + 8 =
        aead.length_sealed c _ _ plaintext sealed z in
      let whole : leb 16 (length (explicit e s ++ sealed)) ≡ true = ground arith in
      let tag : leb 8 (length sealed) ≡ true = ground arith in
      let back : length sealed - 8 ≡ length plaintext = omega arith in
      let fits : leb (length plaintext) 0xffff ≡ true = ground arith in
      let aad =
        aead_additional_data_len content_type dtls_1_2_version e s (length (explicit e s ++ sealed))
          0 (length plaintext) in
      let opened = aead.unsealed c _ (additional 0) plaintext sealed z in
      rw (whole, tag, back, fits, k, aad, opened)

  protect-framed :
      (c : ccm.Cipher) (sealed : Bytes)
      → length fixed_iv ≡ 4
      → IsU48 s
      → ccm.new_from_slice key.bytes ≡ some c
      → ccm.seal c (fixed_iv ++ explicit e s) (additional 0) plaintext ≡ some sealed
      → length plaintext ≤ 0xffff
      → length (explicit e s ++ sealed) ≤ 0xffff
      → protect_aes_128_ccm_8_record ccm content_type e s key fixed_iv plaintext
        ≡ ok (framed content_type e s (explicit e s ++ sealed))
  unfolding protect_aes_128_ccm_8_record encrypt new_record
  protect-framed c sealed four h k z short fits =
      let test : leb (length plaintext) 0xffff ≡ true = le→leb (length plaintext) 0xffff short in
      let test' : leb (length (explicit e s ++ sealed)) 0xffff ≡ true =
        le→leb (length (explicit e s ++ sealed)) 0xffff fits in
      let tail = drop-append_eq 4 fixed_iv (explicit e s) (sym four) in
      rw (test, dtls_ccm_nonce-ok fixed_iv e s h, k, z, tail, test')

  -- For a cipher that behaves as AES-CCM is documented to, a key of 16 bytes, a fixed part of the
  -- nonce of 4 bytes, a sequence number of 48 bits and a plaintext of at most 65519 bytes, a record
  -- is protected, and opens to its plaintext.
  pub open-protect :
      IsAead ccm
      → length key.bytes ≡ 16
      → length fixed_iv ≡ 4
      → IsU48 s
      → length plaintext ≤ 65519
      → (r : DtlsRecord) × (protect_aes_128_ccm_8_record ccm content_type e s key fixed_iv plaintext
          ≡ ok r)
        × (open_aes_128_ccm_8_record ccm r key fixed_iv ≡ ok plaintext)
  unfolding sequence_bytes
  open-protect aead sixteen four h short =
      let (c, k) = aead.key_accepted key.bytes sixteen in
      let twelve : length (fixed_iv ++ explicit e s) ≡ 12 =
        omega (arith, length-append fixed_iv (explicit e s)) in
      let (sealed, z) =
        aead.seals c (fixed_iv ++ explicit e s) (additional 0) plaintext twelve (omega arith) in
      let len : length sealed ≡ length plaintext + 8 =
        aead.length_sealed c _ _ plaintext sealed z in
      let fits : length (explicit e s ++ sealed) ≤ 0xffff = omega arith in
      (
        framed content_type e s (explicit e s ++ sealed),
        protect-framed c sealed four h k z (omega arith) fits,
        open-framed aead c sealed k z (omega arith),
      )

decrypt-ok :
    (ccm : Ccm) (key : RecordProtectionKey) (nonce aad sealed : Bytes) {plaintext : Bytes}
    → decrypt ccm key nonce aad sealed ≡ ok plaintext
    → (c : ccm.Cipher) × (ccm.new_from_slice key.bytes ≡ some c)
      × (ccm.unseal c nonce aad sealed ≡ some plaintext)
unfolding decrypt
decrypt-ok ccm key nonce aad sealed x =
    let (c, k, z) =
      >>=-ok (ok_or (ccm.new_from_slice key.bytes) (crypto "invalid AES-CCM key")) _ x in
    (c, ok_or-ok (ccm.new_from_slice key.bytes) _ k, ok_or-ok (ccm.unseal c nonce aad sealed) _ z)

-- For a cipher that behaves as AES-CCM is documented to, a record that opens has a payload of at
-- least 16 bytes: the explicit part of the nonce, and the sealing of just that plaintext under the
-- record's own header and the nonce it carries.
pub open-Sealed :
    (ccm : Ccm) (r : DtlsRecord) (key : RecordProtectionKey) (fixed_iv plaintext : Bytes)
    → IsAead ccm
    → open_aes_128_ccm_8_record ccm r key fixed_iv ≡ ok plaintext
    → (16 ≤ length r.payload)
      × ((c : ccm.Cipher) × (ccm.new_from_slice key.bytes ≡ some c)
          × (ccm.seal c
                (fixed_iv ++ take 8 r.payload)
                (aead_additional_data r.header (length plaintext))
                plaintext
              ≡ some (drop 8 r.payload)))
unfolding open_aes_128_ccm_8_record
open-Sealed ccm r key fixed_iv plaintext aead x =
    let (whole, x1) = guard-ok (leb 16 (length r.payload)) _ _ x in
    let (tag, x2) = guard-ok (leb 8 (length (drop 8 r.payload))) _ _ x1 in
    let (fits, x3) = guard-ok (leb (length (drop 8 r.payload) - 8) 0xffff) _ _ x2 in
    let nonce : Bytes = fixed_iv ++ take 8 r.payload in
    let aad : ℕ → Bytes = aead_additional_data r.header in
    let (c, k, z) = decrypt-ok ccm key nonce (aad (length (drop 8 r.payload) - 8)) _ x3 in
    let sealed = aead.authentic c nonce (aad (length (drop 8 r.payload) - 8)) plaintext _ z in
    let len = aead.length_sealed c nonce _ plaintext _ sealed in
    let same : length plaintext ≡ length (drop 8 r.payload) - 8 = omega arith in
    (
      leb→le 16 (length r.payload) whole,
      (c, k, ap (λ n. ccm.seal c nonce (aad n) plaintext) same ∙ sealed),
    )
