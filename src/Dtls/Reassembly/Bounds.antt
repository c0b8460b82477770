-- ===== src/Dtls/Reassembly/Bounds.antt =====
-- The reassembler on any fragments at all, also from a hostile peer.
use meshcop_rs.Base.{
  ℕ, ◌+◌, ◌≤◌, ◌<◌, ◌≡◌, ◌≢◌, refl, sym, ◌∙◌, true, false, ◌&&◌, not, Option, none, some, List, [],
  ◌∷◌, arith, ltb, ltb→le, ◌==◌, length, set, length-set, get_elem?_inside, length-replicate, ok,
  err, stuck, ◌⊎◌, inl, inr, Bool-cases,
}
use meshcop_rs.Base.Bytes.{Bytes}
use meshcop_rs.Dtls.Error.{Error, crypto, crypto_over_limit}
use meshcop_rs.Dtls.Handshake.{
  HandshakeType, HandshakeHeader, HandshakeFragment, handshake_type_as_u8,
}
use meshcop_rs.Dtls.Reassembly.{
  HandshakeReassembler, Outcome, and_then, default, initialize, mismatch, by_fields,
  initialize_or_validate, write_byte, write_loop, complete, push, feed,
}

-- The two buffers have one length, of at most 65536.
pub record IsValid (r : HandshakeReassembler) : Type 0 where
  pub same_len : length r.filled ≡ length r.bytes
  pub bounded : length r.bytes ≤ 0x1_0000

-- A call that leaves a valid state and did not panic.
record Sound {A : Type 0} (o : Outcome A) : Type 0 where
  pub valid : IsValid o.0
  pub returns : o.1 ≢ stuck

refused : {A : Type 0} (r : HandshakeReassembler) (e : Error) → IsValid r → Sound {A = A} (r, err e)
refused r e v = record { valid = v; returns = λ p. cc }

initialize-Sound :
    (r : HandshakeReassembler) (header : HandshakeHeader) → IsValid r → Sound (initialize r header)
unfolding initialize
initialize-Sound r header v = elim (Bool-cases (ltb 0x1_0000 header.len)) [
  | inl large ↦ rw large (refused r (crypto_over_limit header.len) v)
  | inr fits ↦ rw fits (record {
    valid = record {
      same_len = length-replicate header.len false ∙ sym (length-replicate {A = ℕ} header.len 0);
      bounded = omega (arith, length-replicate {A = ℕ} header.len 0, ltb→le _ _ fits);
    };
    returns = λ e. cc;
  })
]

by_fields-Sound :
    (r : HandshakeReassembler) (header : HandshakeHeader) (t : Option HandshakeType) (q : Option ℕ)
    → IsValid r
    → Sound (by_fields r header t q)
unfolding by_fields mismatch
by_fields-Sound r header none none v = initialize-Sound r header v
by_fields-Sound r header (some t) none v = refused r _ v
by_fields-Sound r header none (some q) v = refused r _ v
by_fields-Sound r header (some t) (some q) v =
    elim (Bool-cases (
      handshake_type_as_u8 t == handshake_type_as_u8 header.message_type
      && (q == header.message_seq && length r.bytes == header.len))) [
        | inl same ↦ rw same (record { valid = v; returns = λ e. cc })
        | inr other ↦ rw other (refused r _ v)
      ]

initialize_or_validate-Sound :
    (r : HandshakeReassembler) (header : HandshakeHeader)
    → IsValid r
    → Sound (initialize_or_validate r header)
unfolding initialize_or_validate
initialize_or_validate-Sound r header v = by_fields-Sound r header r.message_type r.message_seq v

abbrev written : HandshakeReassembler → ℕ → ℕ → HandshakeReassembler
written r p b = record r { bytes = set r.bytes p b; filled = set r.filled p true }

write_byte-cases :
    (r : HandshakeReassembler) (p b : ℕ)
    → IsValid r
    → p < length r.bytes
    → (write_byte r p b ≡ ok (written r p b)) ⊎ ((e : Error) × (write_byte r p b ≡ err e))
unfolding write_byte
write_byte-cases r p b v lt =
    let (f, at_filled) = get_elem?_inside r.filled p (omega (arith, v.same_len)) in
    let (old, at_bytes) = get_elem?_inside r.bytes p lt in
    elim (Bool-cases (not (f && not (old == b)))) [
      | inl fits ↦ inl (ground (arith, at_filled, at_bytes, fits))
      | inr differs ↦ inr (
        crypto "DTLS handshake fragment overlaps with different data",
        ground (arith, at_filled, at_bytes, differs),
      )
    ]

write_loop-Sound :
    (r : HandshakeReassembler) (p : ℕ) (xs : Bytes)
    → IsValid r
    → p + length xs ≤ length r.bytes
    → Sound (write_loop r p xs)
unfolding write_loop
write_loop-Sound r p [] v h = record { valid = v; returns = λ e. cc }
write_loop-Sound r p (x ∷ xs) v h = elim (write_byte-cases r p x v (omega arith)) [
  | inr (e, stops) ↦ rw (stops, write_loop) (refused r e v)
  | inl goes_on ↦
      rw (goes_on, write_loop)
        (write_loop-Sound (written r p x) (p + 1) xs
          (record {
            same_len = length-set r.filled p true ∙ v.same_len ∙ sym (length-set r.bytes p x);
            bounded = omega (arith, length-set r.bytes p x, v.bounded);
          })
          (omega (arith, length-set r.bytes p x)))
]

and_then-Sound :
    {A B : Type 0} (o : Outcome A) (k : HandshakeReassembler → A → Outcome B)
    → Sound o
    → ((r : HandshakeReassembler) (a : A) → IsValid r → Sound (k r a))
    → Sound (and_then o k)
and_then-Sound (r, ok a) k s h = h r a s.valid
and_then-Sound (r, err e) k s h = refused r e s.valid
and_then-Sound (r, stuck) k s h = absurd (s.returns refl)

complete-ne-stuck : (r : HandshakeReassembler) → complete r ≢ stuck
unfolding complete
complete-ne-stuck r = ground arith

push-Sound : (r : HandshakeReassembler) (f : HandshakeFragment) → IsValid r → Sound (push r f)
unfolding push
push-Sound r f v =
    and_then-Sound (initialize_or_validate r f.header) _ (initialize_or_validate-Sound r f.header v)
      (λ r' _ v'.
        elim (Bool-cases (ltb (length r'.bytes) (f.header.fragment_offset + length f.fragment))) [
          | inl over ↦ rw over (refused r' _ v')
          | inr fits ↦ rw fits (
              and_then-Sound (write_loop r' f.header.fragment_offset f.fragment) _
                (write_loop-Sound r' f.header.fragment_offset f.fragment v' (ltb→le _ _ fits))
                (λ r'' _ v''. record { valid = v''; returns = complete-ne-stuck r'' }))
        ])

feed-IsValid :
    (fs : List HandshakeFragment) (r : HandshakeReassembler) → IsValid r → IsValid (feed r fs)
unfolding feed
feed-IsValid [] r v = v
feed-IsValid (f ∷ fs) r v = feed-IsValid fs (push r f).0 (push-Sound r f v).valid

-- After any fragments, consistent or not, the buffers hold at most 65536 bytes, and the next
-- fragment is answered without an index out of bounds.
pub push_bounded :
    (fs : List HandshakeFragment) (f : HandshakeFragment)
    → IsValid (feed default fs)
      × (length (push (feed default fs) f).0.bytes ≤ 0x1_0000)
      × ((push (feed default fs) f).1 ≢ stuck)
push_bounded fs f =
    let v =
      feed-IsValid fs default
        (unfold default in record { same_len = refl; bounded = omega arith }) in
    let s = push-Sound (feed default fs) f v in (v, s.valid.bounded, s.returns)
