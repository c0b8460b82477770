-- ===== src/Base/Address.antt =====
-- `Ipv6Addr` of the standard library: an address is a number of 128 bits, its octets are the bytes
-- of that number, the most significant first.
use Prim.Native.Nat.{ℕ, zero, suc, ◌+◌, ◌*◌, ◌/◌, ◌%◌, ◌^◌, ◌<◌}
use mathlib.Core.Path.{◌≡◌, refl, ◌∙◌}
use mathlib.Core.Bool.{Bool, false}
use mathlib.Core.List.{[], ◌∷◌, ◌++◌}
use native.Mathlib.Omega.{arith}
use meshcop_rs.Base.Bytes.{Bytes}
use meshcop_rs.Base.Lists.{length, length-append}
use meshcop_rs.Base.Tests.{◌==◌}

unfoldable pub be_bytes : ℕ → ℕ → Bytes
be_bytes zero v = []
be_bytes (suc n) v = be_bytes n (v / 256) ++ ((v % 256) ∷ [])

pub from_be_bytes : ℕ → Bytes → ℕ
from_be_bytes acc [] = acc
from_be_bytes acc (b ∷ bs) = from_be_bytes (acc * 256 + b) bs

unfoldable pub octets : ℕ → Bytes
octets address = be_bytes 16 address

unfoldable pub from_octets : Bytes → ℕ
from_octets bytes = from_be_bytes 0 bytes

unfoldable pub is_multicast : Bytes → Bool
is_multicast [] = false
is_multicast (b ∷ bs) = b == 0xff

length-be_bytes : (n v : ℕ) → length (be_bytes n v) ≡ n
unfolding be_bytes
length-be_bytes zero v = refl
length-be_bytes (suc n) v =
    omega
      (arith, length-be_bytes n (v / 256), length-append (be_bytes n (v / 256)) ((v % 256) ∷ []))

pub length-octets : (address : ℕ) → length (octets address) ≡ 16
unfolding octets
length-octets address = length-be_bytes 16 address

from_be_bytes-append :
    (acc : ℕ) (xs : Bytes) (b : ℕ)
    → from_be_bytes acc (xs ++ (b ∷ [])) ≡ from_be_bytes acc xs * 256 + b
unfolding from_be_bytes
from_be_bytes-append acc [] b = refl
from_be_bytes-append acc (x ∷ xs) b = from_be_bytes-append (acc * 256 + x) xs b

from_be_bytes-be_bytes : (n v : ℕ) → v < 256 ^ n → from_be_bytes 0 (be_bytes n v) ≡ v
unfolding be_bytes
from_be_bytes-be_bytes zero v h = unfold from_be_bytes in omega arith
from_be_bytes-be_bytes (suc n) v h =
    let rest = from_be_bytes-be_bytes n (v / 256) (omega (arith, h)) in
    from_be_bytes-append 0 (be_bytes n (v / 256)) (v % 256) ∙ omega (arith, rest)

pub from_octets-octets : (address : ℕ) → address < 2 ^ 128 → from_octets (octets address) ≡ address
unfolding octets from_octets
from_octets-octets address h = from_be_bytes-be_bytes 16 address (omega arith)
