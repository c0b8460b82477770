-- ===== src/Dtls/Hello/Total.antt =====
-- hello.rs: reading extensions from any bytes.
use meshcop_rs.Base.{
  ℕ, zero, suc, ◌≤◌, ◌≡◌, refl, ◌⊎◌, inl, inr, List, [], ◌∷◌, ◌++◌, arith, Result, ok, err, length,
  length-drop, ltb, Bool-cases, drop, take,
}
use meshcop_rs.Base.Bytes.{Bytes, u16_from_be_bytes}
use meshcop_rs.Dtls.Error.{Error, crypto}
use meshcop_rs.Dtls.Hello.{TlsExtension}
use meshcop_rs.Dtls.Hello.Reading.{
  read_exact, read_u16, read_vec_u16, read_extension, read_extensions_loop, extensions_of,
  read_extensions,
}

-- An error, or a value with at most so many bytes left.
unfoldable Reads : {A : Type 0} → Result Error (A × Bytes) → ℕ → Type 0
Reads {A} result n =
    ((a : A) × (rest : Bytes) × (result ≡ ok (a, rest)) × (length rest ≤ n))
    ⊎ ((e : Error) × (result ≡ err e))

read_exact-Reads : (n : ℕ) (bytes : Bytes) → Reads (read_exact n bytes) (length bytes)
unfolding Reads read_exact
read_exact-Reads n bytes = elim (Bool-cases (ltb (length bytes) n)) [
  | inl short ↦ inr (crypto "DTLS structure is truncated", rw short refl)
  | inr long ↦ inl (take n bytes, drop n bytes, rw long refl, omega (arith, length-drop n bytes))
]

read_extension-Reads : (b : ℕ) (bytes : Bytes) → Reads (read_extension (b ∷ bytes)) (length bytes)
unfolding Reads read_extension read_u16 read_vec_u16
read_extension-Reads b [] = inr (crypto "DTLS structure is truncated", refl)
read_extension-Reads b (c ∷ []) = inr (crypto "DTLS structure is truncated", refl)
read_extension-Reads b (c ∷ d ∷ []) = inr (crypto "DTLS structure is truncated", refl)
read_extension-Reads b (c ∷ d ∷ f ∷ bytes) = elim (read_exact-Reads (u16_from_be_bytes d f) bytes) [
  | inl (body, rest, e, less) ↦ inl (
    (record { extension_type = u16_from_be_bytes b c; body = body }),
    rest,
    rw e refl,
    omega arith,
  )
  | inr (x, e) ↦ inr (x, rw e refl)
]

read_extensions_loop_total :
    (fuel : ℕ) (bytes : Bytes) (before : List TlsExtension)
    → length bytes ≤ fuel
    → ((extensions : List TlsExtension) × (read_extensions_loop fuel bytes before ≡ ok extensions))
      ⊎ ((e : Error) × (read_extensions_loop fuel bytes before ≡ err e))
unfolding read_extensions_loop Reads
read_extensions_loop_total fuel [] before h = inl (before, refl)
read_extensions_loop_total zero (b ∷ bytes) before h = absurd (omega arith)
read_extensions_loop_total (suc fuel) (b ∷ bytes) before h = elim (read_extension-Reads b bytes) [
  | inr (x, e) ↦ inr (x, rw e refl)
  | inl (extension, rest, e, less) ↦
      rw e (read_extensions_loop_total fuel rest (before ++ (extension ∷ [])) (omega arith))
]

-- Reading the extensions ends on every input, with extensions or an error.
pub read_extensions_total :
    (bytes : Bytes)
    → ((extensions : List TlsExtension) × (rest : Bytes) × (read_extensions bytes
          ≡ ok (extensions, rest)))
      ⊎ ((e : Error) × (read_extensions bytes ≡ err e))
unfolding read_extensions extensions_of read_vec_u16 read_u16 Reads
read_extensions_total [] = inl ([], [], refl)
read_extensions_total (b ∷ []) = inr (crypto "DTLS structure is truncated", refl)
read_extensions_total (b ∷ c ∷ bytes) = elim (read_exact-Reads (u16_from_be_bytes b c) bytes) [
  | inr (x, e) ↦ inr (x, rw e refl)
  | inl (vector, rest, e, _) ↦
      elim (read_extensions_loop_total (length vector) vector [] (omega arith)) [
        | inl (extensions, f) ↦ inl (extensions, rest, rw e (rw f refl))
        | inr (x, f) ↦ inr (x, rw e (rw f refl))
      ]
]
