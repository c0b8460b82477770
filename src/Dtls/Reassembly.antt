-- ===== src/Dtls/Reassembly.antt =====
-- crates/meshcop-dtls/src/handshake.rs: `HandshakeReassembler`. A method takes the state and
-- returns the state that it leaves, also when it fails halfway.
pub mod Writing
pub mod AnyOrder
pub mod Bounds
pub mod Permuted
mod Examples
use meshcop_rs.Base.{
  ℕ, ◌+◌, Bool, true, false, ◌&&◌, not, Option, none, some, List, [], ◌∷◌, leb, ltb, ◌==◌,
  if◌then◌else◌, length, get_elem?, set, replicate, Result, ok, err, stuck, ◌>>=◌, ◌>>◌, guard,
  ok_or,
}
use meshcop_rs.Base.Bytes.{Bytes}
use meshcop_rs.Dtls.Error.{Error, crypto, crypto_over_limit}
use meshcop_rs.Dtls.Handshake.{
  HandshakeType, HandshakeHeader, HandshakeFragment, handshake_type_as_u8,
}
use meshcop_rs.Dtls.Message.{HandshakeMessage}

abbrev pub max_handshake_message_len : ℕ
max_handshake_message_len = 0x1_0000

pub record HandshakeReassembler : Type 0 where
  pub message_type : Option HandshakeType
  pub message_seq : Option ℕ
  pub bytes : Bytes
  pub filled : List Bool

-- `HandshakeReassembler::default()`
pub default : HandshakeReassembler
default = record { message_type = none; message_seq = none; bytes = []; filled = [] }

abbrev pub Outcome : Type 0 → Type 0
Outcome A = HandshakeReassembler × Result Error A

-- `?` after a method: an error leaves the state as the method left it.
abbrev pub and_then :
    {A B : Type 0} → Outcome A → (HandshakeReassembler → A → Outcome B) → Outcome B
and_then (r, ok a) k = k r a
and_then (r, err e) k = (r, err e)
and_then (r, stuck) k = (r, stuck)

pub initialize : HandshakeReassembler → HandshakeHeader → Outcome (Unit {0})
initialize r header =
    if ltb max_handshake_message_len header.len then (r, err (crypto_over_limit header.len)) else (
      record {
        message_type = some header.message_type;
        message_seq = some header.message_seq;
        bytes = replicate header.len 0;
        filled = replicate header.len false;
      },
      ok tt,
    )

pub mismatch : HandshakeReassembler → Outcome (Unit {0})
mismatch r = (r, err (crypto "DTLS handshake fragment metadata mismatch"))

-- The three arms of the `match` on the stored type and sequence number.
pub by_fields :
    HandshakeReassembler → HandshakeHeader → Option HandshakeType → Option ℕ → Outcome (Unit {0})
by_fields r header none none = initialize r header
by_fields r header (some message_type) (some message_seq) =
    if handshake_type_as_u8 message_type == handshake_type_as_u8 header.message_type
      && (message_seq == header.message_seq && length r.bytes == header.len)
    then (r, ok tt)
    else mismatch r
by_fields r header (some message_type) none = mismatch r
by_fields r header none (some message_seq) = mismatch r

pub initialize_or_validate : HandshakeReassembler → HandshakeHeader → Outcome (Unit {0})
unfolding by_fields initialize mismatch
initialize_or_validate r header = by_fields r header r.message_type r.message_seq

-- `xs[i]`, which panics out of bounds.
abbrev pub index {ℓ} : {E : Type 0} {A : Type ℓ} → List A → ℕ → Result E A
index xs i = elim (get_elem? xs i) [ none ↦ stuck | some x ↦ ok x ]

-- The body of the loop over the fragment's bytes.
pub write_byte : HandshakeReassembler → ℕ → ℕ → Result Error HandshakeReassembler
write_byte r position byte = do
  filled ← index r.filled position
  old ← index r.bytes position
  guard (not (filled && not (old == byte)))
      (crypto "DTLS handshake fragment overlaps with different data")
  ok (record r { bytes = set r.bytes position byte; filled = set r.filled position true })

pub write_loop : HandshakeReassembler → ℕ → Bytes → Outcome (Unit {0})
write_loop r position [] = (r, ok tt)
write_loop r position (byte ∷ rest) = elim (write_byte r position byte) [
  | ok r' ↦ write_loop r' (position + 1) rest
  | err e ↦ (r, err e)
  | stuck ↦ (r, stuck)
]

pub all_true : List Bool → Bool
all_true [] = true
all_true (b ∷ bs) = b && all_true bs

pub complete : HandshakeReassembler → Result Error (Option HandshakeMessage)
complete r =
    if all_true r.filled
    then (do
      message_type ← ok_or r.message_type (crypto "missing handshake type")
      message_seq ← ok_or r.message_seq (crypto "missing handshake sequence")
      ok (
          some
            (record { message_type = message_type; message_seq = message_seq; payload = r.bytes })))
    else ok none

pub push : HandshakeReassembler → HandshakeFragment → Outcome (Option HandshakeMessage)
push r f = and_then (initialize_or_validate r f.header) λ r' _.
    if ltb (length r'.bytes) (f.header.fragment_offset + length f.fragment)
    then (r', err (crypto "DTLS handshake fragment exceeds message length"))
    else and_then (write_loop r' f.header.fragment_offset f.fragment) λ r'' _. (r'', complete r'')

-- The state after several fragments, whatever each call returned.
pub feed : HandshakeReassembler → List HandshakeFragment → HandshakeReassembler
feed r [] = r
feed r (f ∷ fs) = feed (push r f).0 fs
