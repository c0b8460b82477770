-- ===== src/Dtls/Protection/Examples.antt =====
-- A run of record_protection.rs over a cipher that only adds a tag of zeros, and the theorems at
-- concrete inputs.
use meshcop_rs.Base.{
  ℕ, zero, suc, ◌≡◌, ◌≤◌, refl, ap, ◌∙◌, [], ◌∷◌, ◌++◌, arith, length, take, drop, replicate,
  Option, none, some, ok, ◌==◌, if◌then◌else◌,
}
use meshcop_rs.Base.Bytes.{Bytes}
use meshcop_rs.Dtls.Protection.{
  Ccm, RecordProtectionKey, dtls_ccm_nonce, encrypt, decrypt, protect_aes_128_ccm_8_record,
  open_aes_128_ccm_8_record,
}
use meshcop_rs.Dtls.Protection.Nonce.{dtls_ccm_nonce_inj}
use meshcop_rs.Dtls.Protection.Opening.{IsAead, open-protect, open-Sealed}
use meshcop_rs.Dtls.Record.{DtlsRecord, application_data, new_record, aead_additional_data}
use meshcop_rs.Dtls.Record.Header.{IsHeader}
use meshcop_rs.Dtls.Record.Binding.{aead_additional_data_inj}

-- The message behind so many zeros.
behind_zeros : ℕ → Bytes → Option Bytes
behind_zeros zero bytes = some bytes
behind_zeros (suc k) (zero ∷ bytes) = behind_zeros k bytes
behind_zeros (suc k) _ = none

behind_zeros-replicate :
    (k : ℕ) (bytes : Bytes) → behind_zeros k (replicate k 0 ++ bytes) ≡ some bytes
unfolding behind_zeros
behind_zeros-replicate zero bytes = refl
behind_zeros-replicate (suc k) bytes = behind_zeros-replicate k bytes

replicate-behind_zeros :
    (k : ℕ) (bytes message : Bytes)
    → behind_zeros k bytes ≡ some message
    → Path (Option Bytes) (some (replicate k 0 ++ message)) (some bytes)
unfolding behind_zeros
replicate-behind_zeros zero bytes message e = cc
replicate-behind_zeros (suc k) (zero ∷ bytes) message e =
    let ih = replicate-behind_zeros k bytes message e in cc
replicate-behind_zeros (suc k) (suc b ∷ bytes) message e = cc
replicate-behind_zeros (suc k) [] message e = cc

abbrev zero_tag : Ccm
zero_tag = record {
  Cipher = Unit {0};
  new_from_slice = λ key. if length key == 16 then some tt else none;
  seal = λ c nonce aad message. some (replicate 8 0 ++ message);
  unseal = λ c nonce aad sealed. behind_zeros 8 sealed;
}

unseals :
    (message sealed : Bytes)
    → Path (Option Bytes) (some (replicate 8 0 ++ message)) (some sealed)
    → behind_zeros 8 sealed ≡ some message
unseals message sealed e =
    let same : sealed ≡ replicate 8 0 ++ message = cc in
    ap (behind_zeros 8) same ∙ behind_zeros-replicate 8 message

zero_tag-IsAead : IsAead zero_tag
zero_tag-IsAead = record {
  key_accepted = λ key h. (tt, rw h refl);
  seals = λ c nonce aad message h k. (replicate 8 0 ++ message, refl);
  length_sealed = λ c nonce aad message sealed e. ground arith;
  unsealed = λ c nonce aad message sealed e. unseals message sealed e;
  authentic = λ c nonce aad message sealed e. replicate-behind_zeros 8 sealed message e;
}

abbrev key : RecordProtectionKey
key = record { bytes = replicate 16 7 }

abbrev fixed_iv : Bytes
fixed_iv = 1 ∷ 2 ∷ 3 ∷ 4 ∷ []

abbrev sent : DtlsRecord
sent = record {
  header = record {
    content_type = application_data;
    version = 0xfefd;
    epoch = 1;
    sequence_number = 0x0203;
    len = 18;
  };
  payload = 0 ∷ 1 ∷ 0 ∷ 0 ∷ 0 ∷ 0 ∷ 2 ∷ 3 ∷ (replicate 8 0 ++ (0xca ∷ 0xfe ∷ []));
}

protect-sent :
    protect_aes_128_ccm_8_record zero_tag application_data 1 0x0203 key fixed_iv (0xca ∷ 0xfe ∷ [])
    ≡ ok sent
unfolding protect_aes_128_ccm_8_record encrypt dtls_ccm_nonce new_record
protect-sent = refl

open-sent : open_aes_128_ccm_8_record zero_tag sent key fixed_iv ≡ ok (0xca ∷ 0xfe ∷ [])
unfolding open_aes_128_ccm_8_record decrypt behind_zeros
open-sent = refl

open-protect_example :
    (r : DtlsRecord) × (protect_aes_128_ccm_8_record zero_tag application_data 1 0x0203 key fixed_iv
        (0xca ∷ 0xfe ∷ [])
      ≡ ok r)
    × (open_aes_128_ccm_8_record zero_tag r key fixed_iv ≡ ok (0xca ∷ 0xfe ∷ []))
open-protect_example =
    open-protect zero_tag application_data 1 0x0203 key fixed_iv (0xca ∷ 0xfe ∷ []) zero_tag-IsAead
      refl refl (omega arith) (omega arith)

open-Sealed_example :
    (16 ≤ length sent.payload)
    × ((c : zero_tag.Cipher) × (zero_tag.new_from_slice key.bytes ≡ some c)
        × (zero_tag.seal c
              (fixed_iv ++ take 8 sent.payload)
              (aead_additional_data sent.header 2)
              (0xca ∷ 0xfe ∷ [])
            ≡ some (drop 8 sent.payload)))
open-Sealed_example =
    open-Sealed zero_tag sent key fixed_iv (0xca ∷ 0xfe ∷ []) zero_tag-IsAead open-sent

sent-IsHeader : IsHeader sent.header
sent-IsHeader = record {
  version_fits = omega arith;
  epoch_fits = omega arith;
  sequence_fits = omega arith;
  len_fits = omega arith;
}

abbrev nonce : Bytes
nonce = 1 ∷ 2 ∷ 3 ∷ 4 ∷ 0 ∷ 1 ∷ 0 ∷ 0 ∷ 0 ∷ 0 ∷ 2 ∷ 3 ∷ []

nonce_of_sent : dtls_ccm_nonce fixed_iv 1 0x0203 ≡ ok nonce
unfolding dtls_ccm_nonce
nonce_of_sent = refl

dtls_ccm_nonce_inj_example : Path ℕ 1 1 × Path ℕ 0x0203 0x0203
dtls_ccm_nonce_inj_example =
    dtls_ccm_nonce_inj fixed_iv nonce 1 0x0203 1 0x0203 (omega arith) (omega arith) nonce_of_sent
      nonce_of_sent

aead_additional_data_inj_example :
    (application_data ≡ application_data)
    × Path ℕ 0xfefd 0xfefd
    × Path ℕ 1 1
    × Path ℕ 0x0203 0x0203
    × Path ℕ 2 2
aead_additional_data_inj_example =
    aead_additional_data_inj sent.header sent.header 2 2 sent-IsHeader sent-IsHeader (omega arith)
      (omega arith) refl
