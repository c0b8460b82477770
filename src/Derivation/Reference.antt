-- ===== src/Derivation/Reference.antt =====
-- pskc.rs and the definition of PBKDF2 in RFC 8018.
use meshcop_rs.Base.{
  ℕ, zero, suc, ◌+◌, ◌≤◌, ◌≡◌, ◌≢◌, ◌⊎◌, refl, sym, ap, ◌∙◌, true, Bool-cases, inl, inr, [], ◌∷◌,
  ◌++◌, arith, ◌==◌, ◌&&◌, leb, Option, some, ok, ◌>>=◌, length, take, drop, replicate, take_all,
  append-nil,
}
use meshcop_rs.Base.Bytes.{Bytes, byte_at}
use meshcop_rs.Derivation.{
  xor_bytes, write_at, aes_cmac, aes_cmac_prf_128, rounds, block, block_loop,
  pbkdf2_aes_cmac_prf_128, generate_pskc,
}
use Prim.Native.Nat.{bit_xor}

-- The byte `i` of the exclusive or of the outputs number 0 to `k`.
pub xor_at : (ℕ → Bytes) → ℕ → ℕ → ℕ
xor_at u i zero = byte_at (u zero) i
xor_at u i (suc k) = bit_xor (xor_at u i k) (byte_at (u (suc k)) i)

-- The key of the pseudorandom function, which RFC 4615 derives from a password.
abbrev pub IsPrfKey : (Bytes → Bytes → Option Bytes) → Bytes → Bytes → Type 0
IsPrfKey mac password key =
    ((length password ≡ 16) × (key ≡ password))
    ⊎ ((length password ≢ 16) × (mac (replicate 16 0) password ≡ some key))

byte_at-xor_bytes :
    (t u : Bytes) (i : ℕ)
    → length t ≡ length u
    → byte_at (xor_bytes t u) i ≡ bit_xor (byte_at t i) (byte_at u i)
unfolding xor_bytes byte_at
byte_at-xor_bytes [] [] i h = refl
byte_at-xor_bytes [] (src ∷ u) i h = absurd (omega arith)
byte_at-xor_bytes (dst ∷ t) [] i h = absurd (omega arith)
byte_at-xor_bytes (dst ∷ t) (src ∷ u) zero h = refl
byte_at-xor_bytes (dst ∷ t) (src ∷ u) (suc i) h = byte_at-xor_bytes t u i (omega arith)

-- The MAC takes every key of 16 bytes, and has 16 bytes.
abbrev pub IsCmac : (Bytes → Bytes → Option Bytes) → Type 0
IsCmac mac =
    (key message : Bytes)
    → length key ≡ 16
    → (tag : Bytes) × (mac key message ≡ some tag) × (length tag ≡ 16)

length-xor_bytes : (t u : Bytes) → length (xor_bytes t u) ≡ length t
unfolding xor_bytes
length-xor_bytes [] u = refl
length-xor_bytes (dst ∷ t) [] = refl
length-xor_bytes (dst ∷ t) (src ∷ u) = ap suc (length-xor_bytes t u)

module _ (f : Bytes → Bytes) (first : Bytes) where
  -- The iterates, from 0 on, and the exclusive or of those up to one.
  pub iterate : ℕ → Bytes
  iterate zero = f first
  iterate (suc k) = f (iterate k)

  pub xor_up_to : ℕ → Bytes
  xor_up_to zero = iterate zero
  xor_up_to (suc k) = xor_bytes (xor_up_to k) (iterate (suc k))

  length-xor_up_to : (k : ℕ) → length (xor_up_to k) ≡ length (iterate zero)
  unfolding xor_up_to
  length-xor_up_to zero = refl
  length-xor_up_to (suc k) = length-xor_bytes (xor_up_to k) (iterate (suc k)) ∙ length-xor_up_to k

  length-iterate : ((m : Bytes) → length (f m) ≡ 16) → (k : ℕ) → length (iterate k) ≡ 16
  unfolding iterate
  length-iterate l zero = l first
  length-iterate l (suc k) = l (iterate k)

  byte_at-xor_up_to :
      ((m : Bytes) → length (f m) ≡ 16) → (i k : ℕ) → byte_at (xor_up_to k) i ≡ xor_at iterate i k
  unfolding xor_up_to xor_at
  byte_at-xor_up_to l i zero = refl
  byte_at-xor_up_to l i (suc k) =
      let sixteen : length (xor_up_to k) ≡ 16 = length-xor_up_to k ∙ length-iterate l zero in
      let same : length (xor_up_to k) ≡ length (iterate (suc k)) =
        sixteen ∙ sym (length-iterate l (suc k)) in
      byte_at-xor_bytes (xor_up_to k) (iterate (suc k)) i same
      ∙ ap (λ b. bit_xor b (byte_at (iterate (suc k)) i)) (byte_at-xor_up_to l i k)

  module _ (mac : Bytes → Bytes → Option Bytes) (password : Bytes)
      (is : (m : Bytes) → aes_cmac_prf_128 mac password m ≡ ok (f m)) where
    rounds-xor_up_to :
        (n k : ℕ) → rounds mac password n (iterate k) (xor_up_to k) ≡ ok (xor_up_to (k + n))
    unfolding rounds iterate xor_up_to
    rounds-xor_up_to zero k = let e : k ≡ k + 0 = omega arith in ap (λ j. ok (xor_up_to j)) e
    rounds-xor_up_to (suc n) k =
        let e : suc k + n ≡ k + suc n = omega arith in
        rw (is (iterate k)) (rounds-xor_up_to n (suc k) ∙ ap (λ j. ok (xor_up_to j)) e)

    -- The first iterate, and the rounds that follow it.
    pub block-xor_up_to :
        (n : ℕ)
        → (aes_cmac_prf_128 mac password first >>= λ u. rounds mac password n u u)
          ≡ ok (xor_up_to n)
    block-xor_up_to n =
        let e : 0 + n ≡ n = omega arith in
        let from_first : rounds mac password n (f first) (f first) ≡ ok (xor_up_to (0 + n)) =
          let run = rounds-xor_up_to n 0 in unfold iterate xor_up_to in run in
        rw (is first) (from_first ∙ ap (λ j. ok (xor_up_to j)) e)

-- "Thread", the extended PAN ID and the network name.
abbrev pub salt_of : Bytes → Bytes → Bytes
salt_of extended_pan_id network_name =
    (0x54 ∷ 0x68 ∷ 0x72 ∷ 0x65 ∷ 0x61 ∷ 0x64 ∷ []) ++ extended_pan_id ++ network_name

written :
    (t : Bytes) → length t ≡ 16 → take 16 t ++ drop (0 + length (take 16 t)) (replicate 16 0) ≡ t
written t l = let all : take 16 t ≡ t = take_all 16 t (omega arith) in rw (all, l) (append-nil t)

module _ (mac : Bytes → Bytes → Option Bytes) (h : IsCmac mac) where
  -- For one password the pseudorandom function is the MAC under one key.
  prf_key :
      (password : Bytes)
      → (key : Bytes) × IsPrfKey mac password key
        × (length key ≡ 16)
        × ((m : Bytes) → aes_cmac_prf_128 mac password m ≡ aes_cmac mac key m)
  unfolding aes_cmac_prf_128 aes_cmac
  prf_key password = elim (Bool-cases (length password == 16)) [
    | inl fits ↦
        let sixteen : length password ≡ 16 = ground arith in
        (password, inl (sixteen, refl), sixteen, λ m. rw fits refl)
    | inr other ↦
        let (key, k, kl) = h (replicate 16 0) password refl in
        let ne : length password ≢ 16 = ground arith in
        (key, inr (ne, k), kl, λ m. rw (other, k) refl)
  ]

  -- The loop ends at the end of the buffer.
  block_loop_end :
      (fuel : ℕ) (password salt out : Bytes) (iterations counter : ℕ)
      → length out ≡ 16
      → block_loop mac fuel password salt iterations counter 16 out ≡ ok out
  unfolding block_loop
  block_loop_end zero password salt out iterations counter l = rw l refl
  block_loop_end (suc fuel) password salt out iterations counter l = rw l refl

  -- A block of 16 bytes fills a buffer of 16 bytes.
  block_loop_step :
      (fuel : ℕ) (password salt t : Bytes) (iterations : ℕ)
      → length t ≡ 16
      → block mac password salt iterations 1 ≡ ok t
      → block_loop mac (suc fuel) password salt iterations 1 0 (replicate 16 0)
        ≡ block_loop mac fuel password salt iterations 2 16 t
  unfolding block_loop
  block_loop_step fuel password salt t iterations l e =
      let filled : write_at (replicate 16 0) 0 (take 16 t) ≡ t = unfold write_at in written t l in
      rw (e, l, filled) refl

  pub block_loop-one :
      (password salt t : Bytes) (iterations : ℕ)
      → length t ≡ 16
      → block mac password salt iterations 1 ≡ ok t
      → block_loop mac 16 password salt iterations 1 0 (replicate 16 0) ≡ ok t
  block_loop-one password salt t iterations l e =
      block_loop_step 15 password salt t iterations l e
      ∙ block_loop_end 15 password salt t iterations 2 l

  -- With a passphrase of 6 to 255 bytes and a network name of at most 16, and a MAC as documented,
  -- the PSKc is derived, and is what RFC 8018 defines over the MAC under the key of RFC 4615: 16
  -- bytes, each the exclusive or of that byte of 16384 iterates, of which the first is the MAC of the
  -- salt and the number 1 of the block, and the next are each the MAC of the one before.
  pub generate_pskc-xor_at :
      (passphrase network_name extended_pan_id : Bytes)
      → 6 ≤ length passphrase
      → length passphrase ≤ 255
      → length network_name ≤ 16
      → (f : Bytes → Bytes) × (key : Bytes) × (pskc : Bytes) × IsPrfKey mac passphrase key
        × ((m : Bytes) → mac key m ≡ some (f m))
        × (generate_pskc mac passphrase network_name extended_pan_id ≡ ok (record { bytes = pskc }))
        × (length pskc ≡ 16)
        × ((i : ℕ)
            → byte_at pskc i
              ≡ xor_at
                  (iterate f (salt_of extended_pan_id network_name ++ (0 ∷ 0 ∷ 0 ∷ 1 ∷ [])))
                  i
                  16_383)
  unfolding generate_pskc pbkdf2_aes_cmac_prf_128
  generate_pskc-xor_at passphrase network_name extended_pan_id h6 h255 h16 =
      let (key, is_key, kl, prf) = prf_key passphrase in
      let f : Bytes → Bytes = λ m. (h key m kl).0 in
      let f_is : (m : Bytes) → mac key m ≡ some (f m) = λ m. (h key m kl).1 in
      let f_len : (m : Bytes) → length (f m) ≡ 16 = λ m. (h key m kl).2 in
      let is : (m : Bytes) → aes_cmac_prf_128 mac passphrase m ≡ ok (f m) =
        λ m. prf m ∙ unfold aes_cmac in rw (f_is m) refl in
      let salt : Bytes = salt_of extended_pan_id network_name in
      let input : Bytes = salt ++ (0 ∷ 0 ∷ 0 ∷ 1 ∷ []) in
      let made : block mac passphrase salt 16_384 1 ≡ ok (xor_up_to f input 16_383) =
        unfold block in block-xor_up_to f input mac passphrase is 16_383 in
      let sixteen : length (xor_up_to f input 16_383) ≡ 16 =
        length-xor_up_to f input 16_383 ∙ length-iterate f input f_len 0 in
      let enough : (leb 6 (length passphrase) && leb (length passphrase) 255) ≡ true =
        ground arith in
      let short : leb (length network_name) 16 ≡ true = ground arith in
      (
        f,
        key,
        xor_up_to f input 16_383,
        is_key,
        f_is,
        rw
            (
              enough,
              short,
              block_loop-one passphrase salt (xor_up_to f input 16_383) 16_384 sixteen made,
            )
            refl,
        sixteen,
        λ i. byte_at-xor_up_to f input f_len i 16_383,
      )
