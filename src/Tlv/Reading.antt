-- ===== src/Tlv/Reading.antt =====
-- tlv.rs, `read_u16`, `read_u32` and `read_u64`: values of a fixed width.
use meshcop_rs.Base.{ℕ, Result, ok_or}
use meshcop_rs.Base.Bytes.{Bytes}
use meshcop_rs.Tlv.{TlvError, invalid_length}
use meshcop_rs.Wire

unfoldable pub read_u16 : Bytes → Result TlvError ℕ
read_u16 value = ok_or (Wire.read_u16 value) invalid_length

unfoldable pub read_u32 : Bytes → Result TlvError ℕ
read_u32 value = ok_or (Wire.read_u32 value) invalid_length

unfoldable pub read_u64 : Bytes → Result TlvError ℕ
read_u64 value = ok_or (Wire.read_u64 value) invalid_length
