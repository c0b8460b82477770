-- ===== src/Derivation.antt =====
-- crates/meshcop/src/crypto/pskc.rs: the derivation of a PSKc, PBKDF2 over AES-CMAC. The MAC is a
-- parameter: `none` where it refuses its key. A text is the list of its UTF-8 bytes.
pub mod Reference
mod Examples
use meshcop_rs.Base.{
  ℕ, zero, suc, ◌+◌, ◌-◌, ◌^◌, min, Bool, true, false, not, ◌&&◌, List, [], ◌∷◌, ◌++◌, ◌==◌, leb,
  ltb, if◌then◌else◌, Option, none, some, Result, ok, err, stuck, ◌>>=◌, ◌>>◌, guard, ok_or, length,
  take, drop, replicate,
}
use meshcop_rs.Base.Bytes.{Bytes}
use meshcop_rs.Config.{Pskc}
use meshcop_rs.Error.{Error, dataset, crypto}
use meshcop_rs.Wire.{u32_to_be_bytes}
use Prim.Native.Nat.{bit_xor}

abbrev pub max_pskc_len : ℕ
max_pskc_len = 16

abbrev pub min_commissioner_credential_len : ℕ
min_commissioner_credential_len = 6

abbrev pub max_commissioner_credential_len : ℕ
max_commissioner_credential_len = 255

abbrev pub max_network_name_len : ℕ
max_network_name_len = 16

-- `for (dst, src) in t.iter_mut().zip(u) { *dst ^= src; }`
pub xor_bytes : Bytes → Bytes → Bytes
xor_bytes [] u = []
xor_bytes (dst ∷ t) [] = dst ∷ t
xor_bytes (dst ∷ t) (src ∷ u) = bit_xor dst src ∷ xor_bytes t u

-- `out[offset..offset + len].copy_from_slice(bytes)`, for bytes of this length within `out`.
pub write_at : Bytes → ℕ → Bytes → Bytes
write_at out offset bytes = take offset out ++ bytes ++ drop (offset + length bytes) out

module _ (mac : Bytes → Bytes → Option Bytes) where
  pub aes_cmac : Bytes → Bytes → Result Error Bytes
  aes_cmac key message = ok_or (mac key message) (crypto "invalid AES-CMAC key")

  pub aes_cmac_prf_128 : Bytes → Bytes → Result Error Bytes
  aes_cmac_prf_128 key message = do
    prf_key ← (if length key == 16 then ok key else aes_cmac (replicate 16 0) key)
    aes_cmac prf_key message

  -- The inner loop, with so many rounds left.
  pub rounds : Bytes → ℕ → Bytes → Bytes → Result Error Bytes
  rounds password zero u t = ok t
  rounds password (suc n) u t = do
    u' ← aes_cmac_prf_128 password u
    rounds password n u' (xor_bytes t u')

  pub block : Bytes → Bytes → ℕ → ℕ → Result Error Bytes
  block password salt iterations block_counter = do
    u ← aes_cmac_prf_128 password (salt ++ u32_to_be_bytes block_counter)
    rounds password (iterations - 1) u u

  -- The outer loop, on fuel.
  pub block_loop : ℕ → Bytes → Bytes → ℕ → ℕ → ℕ → Bytes → Result Error Bytes
  block_loop zero password salt iterations block_counter offset out =
      if ltb offset (length out) then stuck else ok out
  block_loop (suc fuel) password salt iterations block_counter offset out =
      if ltb offset (length out)
      then (do
        t ← block password salt iterations block_counter
        let len = min (length out - offset) (length t)
        guard (ltb (block_counter + 1) (2 ^ 32)) (crypto "PBKDF2 block counter overflow")
        block_loop fuel password salt iterations (block_counter + 1) (offset + len)
            (write_at out offset (take len t)))
      else ok out

  -- The bytes that the buffer holds after, for a buffer of so many zeros before.
  pub pbkdf2_aes_cmac_prf_128 : Bytes → Bytes → ℕ → ℕ → Result Error Bytes
  pbkdf2_aes_cmac_prf_128 password salt iterations out_len = do
    guard (not (iterations == 0)) (crypto "PBKDF2 iteration count must be nonzero")
    block_loop out_len password salt iterations 1 0 (replicate out_len 0)

  pub generate_pskc : Bytes → Bytes → Bytes → Result Error Pskc
  generate_pskc passphrase network_name extended_pan_id = do
    guard
        (leb min_commissioner_credential_len (length passphrase)
          && leb (length passphrase) max_commissioner_credential_len)
        (dataset "passphrase length must be in [6, 255]")
    guard (leb (length network_name) max_network_name_len)
        (dataset "network name is longer than 16 bytes")
    out ←
        pbkdf2_aes_cmac_prf_128 passphrase
          ((0x54 ∷ 0x68 ∷ 0x72 ∷ 0x65 ∷ 0x61 ∷ 0x64 ∷ []) ++ extended_pan_id ++ network_name) 16_384
          max_pskc_len
    ok (record { bytes = out })
