-- ===== src/Dtls/Reassembly/AnyOrder.antt =====
-- Slices of one message in any order, repeated or overlapping.
use meshcop_rs.Base.{
  ℕ, zero, suc, ◌≤◌, ◌<◌, ◌≡◌, refl, sym, ap, ◌∙◌, true, false, ◌||◌, none, some, List, [], ◌∷◌,
  arith, length, get_elem?, drop, replicate, All, length-replicate, get_elem?-take, get_elem?-drop,
  ok,
}
use meshcop_rs.Base.Bytes.{Bytes}
use meshcop_rs.Dtls.Handshake.{HandshakeFragment}
use meshcop_rs.Dtls.Message.{HandshakeMessage}
use meshcop_rs.Dtls.Message.Fragments.{IsSlice, covers}
use meshcop_rs.Dtls.Reassembly.{
  HandshakeReassembler, default, initialize_or_validate, complete, push, feed,
}
use meshcop_rs.Dtls.Reassembly.Writing.{
  is_true, is_filled, Holds, Agrees, write_loop-Wrote, complete-full, complete-gap,
}

-- `r` has collected the slices `fs` of `m`: it is fresh and there are none, or it holds exactly
-- the places that they cover.
pub data Collected (m : HandshakeMessage) (fs : List HandshakeFragment) (r : HandshakeReassembler)
    : Type 0 where
  fresh : r ≡ default → fs ≡ [] → Collected m fs r
  some_of :
      Holds m r → ((i : ℕ) → i < length m.payload → is_filled r i ≡ covers fs i) → Collected m fs r

unfilled : (n i : ℕ) → is_true (get_elem? (replicate n false) i) ≡ false
unfilled zero i = refl
unfilled (suc n) zero = refl
unfilled (suc n) (suc i) = unfilled n i

module _ (m : HandshakeMessage) (f : HandshakeFragment) (s : IsSlice m f)
    (small : length m.payload ≤ 0x1_0000) where
  slice-Agrees : Agrees m f.header.fragment_offset f.fragment
  slice-Agrees k lt =
      sym (get_elem?-drop f.header.fragment_offset k m.payload)
      ∙ sym (get_elem?-take (length f.fragment) k (drop f.header.fragment_offset m.payload) lt)
      ∙ ap (λ (xs : Bytes). get_elem? xs k) (sym s.piece)

  abbrev started : HandshakeReassembler
  started = record {
    message_type = some f.header.message_type;
    message_seq = some f.header.message_seq;
    bytes = replicate f.header.len 0;
    filled = replicate f.header.len false;
  }

  started-Holds : Holds m started
  started-Holds = record {
    type_eq = ap some s.type_eq;
    seq_eq = ap some s.seq_eq;
    bytes_len = length-replicate f.header.len 0 ∙ s.len_eq;
    filled_len = length-replicate f.header.len false ∙ s.len_eq;
    agrees = λ i e. cc (unfilled f.header.len i);
  }

  ready :
      (fs : List HandshakeFragment) (r : HandshakeReassembler)
      → Collected m fs r
      → (r' : HandshakeReassembler) × (initialize_or_validate r f.header ≡ (r', ok tt))
        × Holds m r'
        × ((i : ℕ) → i < length m.payload → is_filled r' i ≡ covers fs i)
  unfolding initialize_or_validate default covers
  ready fs r (fresh e none_yet) = (
    started,
    rw e (ground (arith, s.len_eq)),
    started-Holds,
    λ i lt. rw none_yet (unfilled f.header.len i),
  )
  ready fs r (some_of h fills) = (
    r,
    rw (h.type_eq, h.seq_eq) (ground (arith, s.type_eq, s.seq_eq, s.len_eq, h.bytes_len)),
    h,
    fills,
  )

  -- Pushing a slice succeeds, adds its places, and returns what `complete` says.
  push-slice :
      (fs : List HandshakeFragment) (r : HandshakeReassembler)
      → Collected m fs r
      → (r' : HandshakeReassembler) × (push r f ≡ (r', complete r'))
        × Holds m r'
        × ((i : ℕ) → i < length m.payload → is_filled r' i ≡ covers (f ∷ fs) i)
  unfolding push covers
  push-slice fs r c =
      let (r1, e1, h1, fills1) = ready fs r c in
      let (r2, e2, w) =
        write_loop-Wrote m r1 f.header.fragment_offset f.fragment h1 slice-Agrees s.inside in
      (
        r2,
        ground (arith, e1, e2, h1.bytes_len, s.inside),
        w.holds,
        λ i lt. ground (arith, w.fills i, fills1 i lt),
      )

push-Collected :
    (m : HandshakeMessage) (f : HandshakeFragment) (fs : List HandshakeFragment)
    (r : HandshakeReassembler)
    → IsSlice m f
    → length m.payload ≤ 0x1_0000
    → Collected m fs r
    → Collected m (f ∷ fs) (push r f).0
push-Collected m f fs r s small c =
    let (r', e, h, fills) = push-slice m f s small fs r c in rw e (some_of h fills)

-- The fragments seen so far, the latest first.
pub seen : List HandshakeFragment → List HandshakeFragment → List HandshakeFragment
seen done [] = done
seen done (f ∷ fs) = seen (f ∷ done) fs

feed-Collected :
    (m : HandshakeMessage) (done fs : List HandshakeFragment) (r : HandshakeReassembler)
    → length m.payload ≤ 0x1_0000
    → Collected m done r
    → All (IsSlice m) fs
    → Collected m (seen done fs) (feed r fs)
unfolding seen feed
feed-Collected m done [] r small c s = c
feed-Collected m done (f ∷ fs) r small c s =
    feed-Collected m (f ∷ done) fs (push r f).0 small (push-Collected m f done r s.0 small c) s.1

covers-seen :
    (done fs : List HandshakeFragment) (i : ℕ)
    → covers (seen done fs) i ≡ (covers fs i || covers done i)
unfolding covers seen
covers-seen done [] i = refl
covers-seen done (f ∷ fs) i = ground (arith, covers-seen (f ∷ done) fs i)

covers-cons-seen :
    (f : HandshakeFragment) (fs : List HandshakeFragment) (i : ℕ)
    → covers (f ∷ seen [] fs) i ≡ covers (f ∷ fs) i
covers-cons-seen f fs i = unfold covers in ground (arith, covers-seen [] fs i)

module _ (m : HandshakeMessage) (fs : List HandshakeFragment) (f : HandshakeFragment)
    (small : length m.payload ≤ 0x1_0000) (slices : All (IsSlice m) fs) (last : IsSlice m f) where
  collected : Collected m (seen [] fs) (feed default fs)
  collected = feed-Collected m [] fs default small (fresh refl refl) slices

  -- Slices of one message of at most 65536 bytes may arrive in any order, twice or overlapping: the
  -- one that completes the cover yields the message.
  pub push_complete :
      ((i : ℕ) → i < length m.payload → covers (f ∷ fs) i ≡ true)
      → (push (feed default fs) f).1 ≡ ok (some m)
  push_complete full =
      let (r', e, h, fills) = push-slice m f last small (seen [] fs) (feed default fs) collected in
      rw e (complete-full m r' h (λ i lt. fills i lt ∙ covers-cons-seen f fs i ∙ full i lt))

  -- While a byte of it has not arrived, no message is returned, and no error.
  pub push_incomplete :
      (i : ℕ)
      → i < length m.payload
      → covers (f ∷ fs) i ≡ false
      → (push (feed default fs) f).1 ≡ ok none
  push_incomplete i lt gap =
      let (r', e, h, fills) = push-slice m f last small (seen [] fs) (feed default fs) collected in
      rw e (complete-gap m r' i h lt (fills i lt ∙ covers-cons-seen f fs i ∙ gap))
