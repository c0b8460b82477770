-- ===== src/Derivation/Examples.antt =====
-- Runs of pskc.rs over a function in the place of the MAC, and its theorem for it.
use meshcop_rs.Base.{
  ℕ, ◌≡◌, ◌%◌, refl, length, [], ◌∷◌, ◌++◌, some, Option, ok, err, arith, replicate,
}
use meshcop_rs.Base.Bytes.{Bytes, byte_at}
use meshcop_rs.Derivation.{generate_pskc, pbkdf2_aes_cmac_prf_128}
use meshcop_rs.Derivation.Reference.{
  IsCmac, IsPrfKey, iterate, xor_at, salt_of, generate_pskc-xor_at,
}
use meshcop_rs.Error.{dataset, crypto}

-- No MAC, but 16 bytes that depend on the key and the message.
abbrev mixed : Bytes → Bytes → Option Bytes
mixed key message = some (byte_at key 0 ∷ byte_at message 1 ∷ length message % 256 ∷ replicate 13 3)

mixed-IsCmac : IsCmac mixed
mixed-IsCmac key message h =
    (byte_at key 0 ∷ byte_at message 1 ∷ length message % 256 ∷ replicate 13 3, refl, refl)

too_short :
    generate_pskc mixed (1 ∷ 2 ∷ 3 ∷ 4 ∷ 5 ∷ []) [] []
    ≡ err (dataset "passphrase length must be in [6, 255]")
unfolding generate_pskc
too_short = refl

long_name :
    generate_pskc mixed (replicate 6 1) (replicate 17 1) []
    ≡ err (dataset "network name is longer than 16 bytes")
unfolding generate_pskc
long_name = refl

no_iterations :
    pbkdf2_aes_cmac_prf_128 mixed [] [] 0 16 ≡ err (crypto "PBKDF2 iteration count must be nonzero")
unfolding pbkdf2_aes_cmac_prf_128
no_iterations = refl

generate_pskc-xor_at_example :
    (f : Bytes → Bytes) × (key : Bytes) × (pskc : Bytes) × IsPrfKey mixed (replicate 6 1) key
    × ((m : Bytes) → mixed key m ≡ some (f m))
    × (generate_pskc mixed (replicate 6 1) (0x61 ∷ []) (replicate 8 2)
        ≡ ok (record { bytes = pskc }))
    × (length pskc ≡ 16)
    × ((i : ℕ)
        → byte_at pskc i
          ≡ xor_at
              (iterate f (salt_of (replicate 8 2) (0x61 ∷ []) ++ (0 ∷ 0 ∷ 0 ∷ 1 ∷ [])))
              i
              16_383)
generate_pskc-xor_at_example =
    generate_pskc-xor_at mixed mixed-IsCmac (replicate 6 1) (0x61 ∷ []) (replicate 8 2)
      (omega arith) (omega arith) (omega arith)
