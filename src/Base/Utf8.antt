-- ===== src/Base/Utf8.antt =====
-- `core::str::from_utf8` of the standard library: a text is the list of its bytes, and is valid if
-- a walk over it ends between two characters. The state of the walk is the number of bytes that the
-- current character still needs, and the range of the next one.
use Prim.Native.Nat.{ℕ, ◌-◌}
use mathlib.Core.Path.{◌≡◌, refl}
use mathlib.Core.Bool.{Bool, true, false, ◌&&◌}
use mathlib.Core.Option.{Option, none, some}
use mathlib.Core.List.{[], ◌∷◌}
use meshcop_rs.Base.Bytes.{Bytes}
use meshcop_rs.Base.Tests.{ltb, leb, ◌==◌, if◌then◌else◌}

pub record Walk : Type 0 where
  pub missing : ℕ
  pub low : ℕ
  pub high : ℕ

abbrev pub between : Walk
between = record { missing = 0; low = 0x80; high = 0xbf }

abbrev pub expecting : ℕ → ℕ → ℕ → Walk
expecting missing low high = record { missing = missing; low = low; high = high }

-- The first byte of a character.
pub first_byte : ℕ → Option Walk
first_byte b =
    if ltb b 0x80
    then some between
    else if ltb b 0xc2
    then none
    else if ltb b 0xe0
    then some (expecting 1 0x80 0xbf)
    else if b == 0xe0
    then some (expecting 2 0xa0 0xbf)
    else if b == 0xed
    then some (expecting 2 0x80 0x9f)
    else if ltb b 0xf0
    then some (expecting 2 0x80 0xbf)
    else if b == 0xf0
    then some (expecting 3 0x90 0xbf)
    else if ltb b 0xf4
    then some (expecting 3 0x80 0xbf)
    else if b == 0xf4
    then some (expecting 3 0x80 0x8f)
    else none

pub next_byte : Walk → ℕ → Option Walk
unfolding first_byte
next_byte w b =
    if w.missing == 0
    then first_byte b
    else if leb w.low b && leb b w.high
    then some (expecting (w.missing - 1) 0x80 0xbf)
    else none

pub walk_from : Walk → Bytes → Bool
unfolding next_byte
walk_from w [] = w.missing == 0
walk_from w (b ∷ bs) = elim (next_byte w b) [ none ↦ false | some w' ↦ walk_from w' bs ]

unfoldable pub is_utf8 : Bytes → Bool
unfolding walk_from
is_utf8 bytes = walk_from between bytes

-- `from_utf8`, its error left out: every caller drops it.
unfoldable pub from_utf8 : Bytes → Option Bytes
from_utf8 bytes = if is_utf8 bytes then some bytes else none

euro : is_utf8 (0xe2 ∷ 0x82 ∷ 0xac ∷ 0x41 ∷ []) ≡ true
unfolding is_utf8
euro = refl

surrogate : is_utf8 (0xed ∷ 0xa0 ∷ 0x80 ∷ []) ≡ false
unfolding is_utf8
surrogate = refl

truncated : is_utf8 (0xe2 ∷ 0x82 ∷ []) ≡ false
unfolding is_utf8
truncated = refl
