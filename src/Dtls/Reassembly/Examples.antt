-- ===== src/Dtls/Reassembly/Examples.antt =====
-- Runs of the reassembler, and the theorems at concrete inputs.
use meshcop_rs.Base.{ℕ, ◌≤◌, ◌≡◌, ◌≢◌, refl, some, [], ◌∷◌, arith, length, ok, stuck}
use meshcop_rs.Base.Bytes.{Bytes}
use meshcop_rs.Dtls.Handshake.{HandshakeFragment, finished}
use meshcop_rs.Dtls.Message.{
  HandshakeMessage, fragment, fragment_at, fragment_loop, chunk_loop, chunks, or_empty_fragment,
}
use meshcop_rs.Dtls.Message.Fragments.{IsSlice}
use meshcop_rs.Dtls.Reassembly.{default, push, feed}
use meshcop_rs.Dtls.Reassembly.Bounds.{IsValid, push_bounded}
use meshcop_rs.Dtls.Reassembly.Permuted.{push-fragment}
use mathlib.Core.List.Perm

abbrev four : HandshakeMessage
four = record { message_type = finished; message_seq = 3; payload = 1 ∷ 2 ∷ 3 ∷ 4 ∷ [] }

abbrev part : ℕ → Bytes → HandshakeFragment
part offset bytes = record {
  header = record {
    message_type = finished;
    len = 4;
    message_seq = 3;
    fragment_offset = offset;
    fragment_length = length bytes;
  };
  fragment = bytes;
}

abbrev front : HandshakeFragment
front = part 0 (1 ∷ 2 ∷ 3 ∷ [])

abbrev back : HandshakeFragment
back = part 2 (3 ∷ 4 ∷ [])

front-IsSlice : IsSlice four front
front-IsSlice = record {
  type_eq = refl;
  seq_eq = refl;
  len_eq = refl;
  fragment_eq = refl;
  inside = omega arith;
  piece = refl;
}

back-IsSlice : IsSlice four back
back-IsSlice = record {
  type_eq = refl;
  seq_eq = refl;
  len_eq = refl;
  fragment_eq = refl;
  inside = omega arith;
  piece = refl;
}

push_bounded_example :
    IsValid (feed default (part 1 (9 ∷ []) ∷ []))
    × (length (push (feed default (part 1 (9 ∷ []) ∷ [])) back).0.bytes ≤ 0x1_0000)
    × ((push (feed default (part 1 (9 ∷ []) ∷ [])) back).1 ≢ stuck)
push_bounded_example = push_bounded (part 1 (9 ∷ []) ∷ []) back

halves : fragment four 2 ≡ ok (part 0 (1 ∷ 2 ∷ []) ∷ part 2 (3 ∷ 4 ∷ []) ∷ [])
unfolding fragment fragment_at fragment_loop chunk_loop chunks or_empty_fragment
halves = refl

push-fragment_example :
    (push (feed default (part 2 (3 ∷ 4 ∷ []) ∷ [])) (part 0 (1 ∷ 2 ∷ []))).1 ≡ ok (some four)
push-fragment_example =
    push-fragment four 2 _ (part 2 (3 ∷ 4 ∷ []) ∷ []) (part 0 (1 ∷ 2 ∷ [])) (omega arith)
      (omega arith) halves (Perm.refl _)
