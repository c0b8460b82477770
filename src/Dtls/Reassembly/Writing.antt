-- ===== src/Dtls/Reassembly/Writing.antt =====
-- Writing a slice of a message into a reassembler that holds other parts of it.
use meshcop_rs.Base.{
  ℕ, zero, suc, ◌+◌, ◌≤◌, ◌<◌, ◌≡◌, refl, sym, ap, ◌∙◌, Bool, true, false, ◌&&◌, ◌||◌, Option, none,
  some, List, [], ◌∷◌, arith, leb, ltb, ◌==◌, Bool-cases, inl, inr, length, get_elem?, set,
  length-set, get_elem?-set_self, get_elem?-set_ne, get_elem?_inside, get_elem?_ext, ok,
}
use meshcop_rs.Base.Bytes.{Bytes}
use meshcop_rs.Dtls.Message.{HandshakeMessage}
use meshcop_rs.Dtls.Reassembly.{HandshakeReassembler, write_byte, write_loop, all_true, complete}
use native.Mathlib.Decide.{ℕ_discrete}

abbrev pub is_true : Option Bool → Bool
is_true none = false
is_true (some b) = b

-- Whether place `i` has been written.
abbrev pub is_filled : HandshakeReassembler → ℕ → Bool
is_filled r i = is_true (get_elem? r.filled i)

-- `r` collects `m`, and what it has written agrees with `m`.
pub record Holds (m : HandshakeMessage) (r : HandshakeReassembler) : Type 0 where
  pub type_eq : r.message_type ≡ some m.message_type
  pub seq_eq : r.message_seq ≡ some m.message_seq
  pub bytes_len : length r.bytes ≡ length m.payload
  pub filled_len : length r.filled ≡ length m.payload
  pub agrees :
      (i : ℕ) → get_elem? r.filled i ≡ some true → get_elem? r.bytes i ≡ get_elem? m.payload i

abbrev after_byte : HandshakeReassembler → ℕ → ℕ → HandshakeReassembler
after_byte r p b = record r { bytes = set r.bytes p b; filled = set r.filled p true }

module _ (m : HandshakeMessage) (r : HandshakeReassembler) (h : Holds m r) (p b : ℕ)
    (there : get_elem? m.payload p ≡ some b) (inside : p < length m.payload) where
  write_byte_lem : write_byte r p b ≡ ok (after_byte r p b)
  unfolding write_byte
  write_byte_lem =
      let (f, at_filled) = get_elem?_inside r.filled p (omega (arith, h.filled_len)) in
      let (old, at_bytes) = get_elem?_inside r.bytes p (omega (arith, h.bytes_len)) in
      elim (Bool-cases f) [
        | inl written ↦
            let same : old ≡ b = cc (h.agrees p (at_filled ∙ ap some written)) in
            ground (arith, at_filled, at_bytes, written, same)
        | inr fresh ↦ ground (arith, at_filled, at_bytes, fresh)
      ]

  after_byte-Holds : Holds m (after_byte r p b)
  after_byte-Holds = record {
    type_eq = h.type_eq;
    seq_eq = h.seq_eq;
    bytes_len = length-set r.bytes p b ∙ h.bytes_len;
    filled_len = length-set r.filled p true ∙ h.filled_len;
    agrees = λ i e. elim (ℕ_discrete p i) [
      | yes here ↦ ground (arith, here, get_elem?-set_self r.bytes p b (omega (arith, h.bytes_len)))
      | no other ↦ cc (
        get_elem?-set_ne r.bytes p i b other,
        h.agrees i (sym (get_elem?-set_ne r.filled p i true other) ∙ e),
      )
    ];
  }

  after_byte-is_filled : (i : ℕ) → is_filled (after_byte r p b) i ≡ (p == i || is_filled r i)
  after_byte-is_filled i = elim (ℕ_discrete p i) [
    | yes here ↦
        ground (arith, here, get_elem?-set_self r.filled p true (omega (arith, h.filled_len)))
    | no other ↦ ground (arith, other, get_elem?-set_ne r.filled p i true other)
  ]

-- Places `p` and on, `n` of them.
abbrev pub within : ℕ → ℕ → ℕ → Bool
within p n i = leb p i && ltb i (p + n)

-- The bytes from place `p` on agree with the payload.
abbrev pub Agrees : HandshakeMessage → ℕ → Bytes → Type 0
Agrees m p xs = (k : ℕ) → k < length xs → get_elem? m.payload (p + k) ≡ get_elem? xs k

pub record Wrote (m : HandshakeMessage) (r r' : HandshakeReassembler) (p n : ℕ) : Type 0 where
  pub holds : Holds m r'
  pub fills : (i : ℕ) → is_filled r' i ≡ (within p n i || is_filled r i)

write_loop-step :
    (r next : HandshakeReassembler) (p x : ℕ) (xs : Bytes)
    → write_byte r p x ≡ ok next
    → write_loop r p (x ∷ xs) ≡ write_loop next (p + 1) xs
unfolding write_loop
write_loop-step r next p x xs e = rw (e, write_loop)

-- Writing bytes that agree with the message succeeds, and fills exactly their places.
pub write_loop-Wrote :
    (m : HandshakeMessage) (r : HandshakeReassembler) (p : ℕ) (xs : Bytes)
    → Holds m r
    → Agrees m p xs
    → p + length xs ≤ length m.payload
    → (r' : HandshakeReassembler) × (write_loop r p xs ≡ (r', ok tt)) × Wrote m r r' p (length xs)
unfolding write_loop
write_loop-Wrote m r p [] h a fits = (r, refl, record { holds = h; fills = λ i. ground arith })
write_loop-Wrote m r p (x ∷ xs) h a fits =
    let zeroth : get_elem? m.payload p ≡ some x =
      ap (get_elem? m.payload) (plus_zero p) ∙ a 0 (omega arith) in
    let (r', e, w) =
      write_loop-Wrote m (after_byte r p x) (p + 1) xs
        (after_byte-Holds m r h p x zeroth (omega arith))
        (λ k lt. ap (get_elem? m.payload) (shift p k) ∙ a (suc k) (omega arith)) (omega arith) in
    (
      r',
      write_loop-step r (after_byte r p x) p x xs (write_byte_lem m r h p x zeroth (omega arith))
          ∙ e,
      record {
        holds = w.holds;
        fills =
            λ i. ground (arith, w.fills i, after_byte-is_filled m r h p x zeroth (omega arith) i);
      },
    )
  where
    plus_zero : (p : ℕ) → p ≡ p + 0
    plus_zero p = omega arith

    shift : (p k : ℕ) → p + 1 + k ≡ p + suc k
    shift p k = omega arith

all_true-full :
    (bs : List Bool)
    → ((i : ℕ) → i < length bs → is_true (get_elem? bs i) ≡ true)
    → all_true bs ≡ true
unfolding all_true
all_true-full [] h = refl
all_true-full (b ∷ bs) h =
    ground (arith, h 0 (omega arith), all_true-full bs (λ i lt. h (suc i) (omega arith)))

all_true-gap :
    (bs : List Bool) (i : ℕ)
    → i < length bs
    → is_true (get_elem? bs i) ≡ false
    → all_true bs ≡ false
unfolding all_true
all_true-gap [] i lt e = absurd (omega arith)
all_true-gap (b ∷ bs) zero lt e = ground arith
all_true-gap (b ∷ bs) (suc i) lt e = ground (arith, all_true-gap bs i (omega arith) e)

is_true-some : (o : Option Bool) → is_true o ≡ true → o ≡ some true
is_true-some none e = cc
is_true-some (some b) e = ap some e

-- With every place written, the message is complete, and it is `m`.
pub complete-full :
    (m : HandshakeMessage) (r : HandshakeReassembler)
    → Holds m r
    → ((i : ℕ) → i < length m.payload → is_filled r i ≡ true)
    → complete r ≡ ok (some m)
unfolding complete
complete-full m r h full = ground (
  arith,
  h.type_eq,
  h.seq_eq,
  all_true-full r.filled (λ i lt. full i (omega (arith, h.filled_len))),
  get_elem?_ext r.bytes m.payload h.bytes_len
      (λ i lt. h.agrees i (is_true-some _ (full i (omega (arith, h.bytes_len))))),
)

-- With a place that is not written, it is not.
pub complete-gap :
    (m : HandshakeMessage) (r : HandshakeReassembler) (i : ℕ)
    → Holds m r
    → i < length m.payload
    → is_filled r i ≡ false
    → complete r ≡ ok none
unfolding complete
complete-gap m r i h lt e = ground (arith, all_true-gap r.filled i (omega (arith, h.filled_len)) e)
