-- ===== src/Dtls/Message/Fragments.antt =====
-- The fragments of a message as slices of its payload.
use meshcop_rs.Base.{
  ℕ, zero, suc, ◌+◌, ◌-◌, ◌*◌, ◌≤◌, ◌<◌, ◌≡◌, refl, sym, ap, ◌∙◌, Bool, true, false, ◌||◌, ◌&&◌,
  List, [], ◌∷◌, ◌++◌, arith, ok, ltb, leb, length, take, drop, All, length-take, length-drop,
  take-append-drop, drop-drop, take-length-take,
}
use meshcop_rs.Base.Bytes.{Bytes}
use native.Mathlib.Decide.{dec_lt}
use meshcop_rs.Dtls.Handshake.{HandshakeFragment, max_u24}
use meshcop_rs.Dtls.Message.{
  HandshakeMessage, as_u32, chunk_loop, chunks, fragment_at, fragment_loop, or_empty_fragment,
  fragment,
}

-- `f` is a part of the message `m`, labelled with its place.
pub record IsSlice (m : HandshakeMessage) (f : HandshakeFragment) : Type 0 where
  pub type_eq : f.header.message_type ≡ m.message_type
  pub seq_eq : f.header.message_seq ≡ m.message_seq
  pub len_eq : f.header.len ≡ length m.payload
  pub fragment_eq : f.header.fragment_length ≡ length f.fragment
  pub inside : f.header.fragment_offset + length f.fragment ≤ length m.payload
  pub piece : f.fragment ≡ take (length f.fragment) (drop f.header.fragment_offset m.payload)

-- Whether a fragment of the list holds the byte at place `i`.
unfoldable pub covers : List HandshakeFragment → ℕ → Bool
covers [] i = false
covers (f ∷ fs) i =
    (leb f.header.fragment_offset i && ltb i (f.header.fragment_offset + length f.fragment))
    || covers fs i

pub joined : List HandshakeFragment → Bytes
joined [] = []
joined (f ∷ fs) = f.fragment ++ joined fs

covers_here :
    (f : HandshakeFragment) (fs : List HandshakeFragment) (i : ℕ)
    → f.header.fragment_offset ≤ i
    → i < f.header.fragment_offset + length f.fragment
    → covers (f ∷ fs) i ≡ true
unfolding covers
covers_here f fs i lo hi = ground arith

covers_there :
    (f : HandshakeFragment) (fs : List HandshakeFragment) (i : ℕ)
    → covers fs i ≡ true
    → covers (f ∷ fs) i ≡ true
unfolding covers
covers_there f fs i h = ground arith

-- What splitting the part of the payload from `start` on must give.
pub record Splits (m : HandshakeMessage) (n start : ℕ) (fs : List HandshakeFragment) : Type 0 where
  pub slices : All (IsSlice m) fs
  pub small : All (λ f. length f.fragment ≤ n) fs
  pub whole : joined fs ≡ drop start m.payload
  pub covered : (i : ℕ) → start ≤ i → i < length m.payload → covers fs i ≡ true

module _ (m : HandshakeMessage) (n : ℕ) (pos : 0 < n) (fits : length m.payload ≤ max_u24) where
  fragment_at-IsSlice :
      (start : ℕ) (xs : Bytes)
      → xs ≡ drop start m.payload
      → start < length m.payload
      → IsSlice m (fragment_at m (as_u32 (length m.payload)) (as_u32 start) (take n xs))
  unfolding fragment_at
  fragment_at-IsSlice start xs e h =
      let size : length (take n xs) ≤ length m.payload - start =
        omega (arith, length-take n xs, ap length e, length-drop start m.payload) in
      let place : as_u32 start ≡ start = omega arith in
      record {
        type_eq = refl;
        seq_eq = refl;
        len_eq = omega arith;
        fragment_eq = omega arith;
        inside = omega arith;
        piece = rw (place, ← e) (sym (take-length-take n xs));
      }

  fragment_loop-Splits :
      (fuel idx : ℕ) (rest : Bytes)
      → rest ≡ drop (idx * n) m.payload
      → length rest ≤ fuel
      → Splits m n (idx * n) (fragment_loop m n idx (chunk_loop fuel n rest))
  unfolding fragment_at fragment_loop chunk_loop joined
  fragment_loop-Splits fuel idx [] e h = record {
    slices = tt;
    small = tt;
    whole = e;
    covered = λ i lo hi. absurd (omega (arith, ap length e, length-drop (idx * n) m.payload));
  }
  fragment_loop-Splits zero idx (x ∷ xs) e h = absurd (omega arith)
  fragment_loop-Splits (suc fuel) idx (x ∷ xs) e h =
      let rest : Bytes = x ∷ xs in
      let size : length rest ≡ length m.payload - idx * n =
        omega (arith, ap length e, length-drop (idx * n) m.payload) in
      let after : drop n rest ≡ drop ((idx + 1) * n) m.payload =
        ap (drop n) e ∙ sym (drop-drop ((idx + 1) * n) (idx * n) n m.payload (omega arith)) in
      let ih =
        fragment_loop-Splits fuel (idx + 1) (drop n rest) after
          (omega (arith, length-drop n rest)) in
      record {
        slices = (fragment_at-IsSlice (idx * n) rest e (omega arith), ih.slices);
        small = (omega (arith, length-take n rest), ih.small);
        whole = ap (◌++◌ (take n rest)) (ih.whole ∙ sym after) ∙ take-append-drop n rest ∙ e;
        covered = λ i lo hi. elim (dec_lt i (idx * n + length (take n rest))) [
          | yes near ↦ covers_here _ _ i (omega arith) (omega arith)
          | no far ↦ covers_there _ _ i (ih.covered i (omega (arith, length-take n rest)) hi)
        ];
      }

empty_Splits :
    (m : HandshakeMessage) (n : ℕ) → length m.payload ≡ 0 → Splits m n 0 (or_empty_fragment m [])
unfolding or_empty_fragment fragment_at joined covers
empty_Splits m n e = record {
  slices = (
    record {
      type_eq = refl;
      seq_eq = refl;
      len_eq = omega arith;
      fragment_eq = refl;
      inside = omega arith;
      piece = refl;
    },
    tt,
  );
  small = (omega arith, tt);
  whole = empty m.payload e;
  covered = λ i lo hi. absurd (omega arith);
}
  where
    empty : (xs : Bytes) → length xs ≡ 0 → [] ≡ xs
    empty [] e = refl
    empty (x ∷ xs) e = absurd (omega arith)

or_empty_Splits :
    (m : HandshakeMessage) (n : ℕ) (fs : List HandshakeFragment)
    → Splits m n 0 fs
    → Splits m n 0 (or_empty_fragment m fs)
unfolding or_empty_fragment joined
or_empty_Splits m n [] s = empty_Splits m n (ap length (sym s.whole))
or_empty_Splits m n (f ∷ fs) s = s

-- A message of at most 2 ^ 24 - 1 bytes is split for every nonzero maximum: each fragment has at
-- most `n` bytes and is the slice of the payload that its header names, the fragments joined are
-- the payload, and every byte of it is in one.
pub fragment-Splits :
    (m : HandshakeMessage) (n : ℕ)
    → 0 < n
    → length m.payload ≤ max_u24
    → (fs : List HandshakeFragment) × (fragment m n ≡ ok fs) × Splits m n 0 fs
unfolding fragment chunks
fragment-Splits m n pos fits = (
  or_empty_fragment m (fragment_loop m n 0 (chunk_loop (length m.payload) n m.payload)),
  ground arith,
  or_empty_Splits m n _ (
      rw start at (
        fragment_loop-Splits m n pos fits (length m.payload) 0 m.payload (rw start refl)
          (omega arith))),
)
  where
    start : 0 * n ≡ 0
    start = omega arith
