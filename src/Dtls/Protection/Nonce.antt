-- ===== src/Dtls/Protection/Nonce.antt =====
-- ccm.rs: the nonce of a record.
use meshcop_rs.Base.{
  ℕ, ◌≡◌, ap, ◌++◌, arith, length, drop, Result, ok, leb, true, Bool-cases, inl, inr, drop-append,
  ◌∙◌, sym,
}
use meshcop_rs.Base.Bytes.{Bytes, IsU16, u16_to_be_bytes}
use meshcop_rs.Dtls.Protection.{dtls_ccm_nonce}
use meshcop_rs.Dtls.Error.{Error}
use meshcop_rs.Dtls.Record.{sequence_bytes}
use meshcop_rs.Dtls.Record.Binding.{byte, u16_inj, u48_inj}
use meshcop_rs.Dtls.Record.Header.{IsU48}

-- A nonce that is built holds the fixed part, the epoch and the sequence number.
pub dtls_ccm_nonce-ok :
    (fixed_iv : Bytes) (e s : ℕ)
    → IsU48 s
    → dtls_ccm_nonce fixed_iv e s ≡ ok (fixed_iv ++ (u16_to_be_bytes e ++ sequence_bytes s))
unfolding dtls_ccm_nonce sequence_bytes
dtls_ccm_nonce-ok fixed_iv e s h =
    let test : leb s 0xffff_ffff_ffff ≡ true = ground arith in rw test

pub dtls_ccm_nonce-IsU48 :
    (fixed_iv nonce : Bytes) (e s : ℕ) → dtls_ccm_nonce fixed_iv e s ≡ ok nonce → IsU48 s
unfolding dtls_ccm_nonce
dtls_ccm_nonce-IsU48 fixed_iv nonce e s x = elim (Bool-cases (leb s 0xffff_ffff_ffff)) [
  | inl small ↦ ground arith
  | inr large ↦ absurd (ground arith)
]

-- Under one fixed part, a nonce belongs to a single pair of an epoch of 16 bits and a sequence
-- number: no two records share a nonce.
pub dtls_ccm_nonce_inj :
    (fixed_iv nonce : Bytes) (e s e' s' : ℕ)
    → IsU16 e
    → IsU16 e'
    → dtls_ccm_nonce fixed_iv e s ≡ ok nonce
    → dtls_ccm_nonce fixed_iv e' s' ≡ ok nonce
    → (e ≡ e') × (s ≡ s')
unfolding byte sequence_bytes
dtls_ccm_nonce_inj fixed_iv nonce e s e' s' h h' x y =
    let k = dtls_ccm_nonce-IsU48 fixed_iv nonce e s x in
    let k' = dtls_ccm_nonce-IsU48 fixed_iv nonce e' s' y in
    let rest : u16_to_be_bytes e ++ sequence_bytes s ≡ u16_to_be_bytes e' ++ sequence_bytes s' =
      behind (u16_to_be_bytes e ++ sequence_bytes s) (u16_to_be_bytes e' ++ sequence_bytes s') (
        same (
          sym (dtls_ccm_nonce-ok fixed_iv e s k)
          ∙ x
          ∙ sym y
          ∙ dtls_ccm_nonce-ok fixed_iv e' s' k')) in
    (
      u16_inj e e' h h' (ap (byte 0) rest) (ap (byte 1) rest),
      u48_inj s s' k k' (ap (byte 2) rest) (ap (byte 3) rest) (ap (byte 4) rest) (ap (byte 5) rest)
          (ap (byte 6) rest) (ap (byte 7) rest),
    )
  where
    same : {a b : Bytes} → Path (Result Error Bytes) (ok a) (ok b) → a ≡ b
    same e = cc

    behind : (a b : Bytes) → fixed_iv ++ a ≡ fixed_iv ++ b → a ≡ b
    behind a b e =
        sym (drop-append fixed_iv a) ∙ ap (drop (length fixed_iv)) e ∙ drop-append fixed_iv b
