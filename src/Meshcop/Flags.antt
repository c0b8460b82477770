-- ===== src/Meshcop/Flags.antt =====
-- crates/meshcop/src/meshcop/flags.rs: which TLVs a set of flags asks for. The numbers of the TLV
-- types are those of meshcop/constants.rs and dataset.rs.
mod Examples
use meshcop_rs.Base.{ℕ, Bool, true, false, not, List, [], ◌∷◌, ◌++◌, ◌==◌, if◌then◌else◌}
use meshcop_rs.Base.Bits.{◌<<<◌}
use Prim.Native.Nat.{bit_and}

pub flag_types : ℕ → List (ℕ × ℕ) → List ℕ
flag_types flags [] = []
flag_types flags ((mask, ty) ∷ mappings) =
    let rest = flag_types flags mappings in
    if not (bit_and flags mask == 0) then ty ∷ rest else rest

-- Active timestamp, channel, channel mask, extended PAN ID, mesh-local prefix, network key, network
-- name, PAN ID, PSKc and security policy.
abbrev pub active_types : List (ℕ × ℕ)
active_types =
    (1 <<< 15, 0x0e)
    ∷ (1 <<< 14, 0x00)
    ∷ (1 <<< 13, 0x35)
    ∷ (1 <<< 12, 0x02)
    ∷ (1 <<< 11, 0x07)
    ∷ (1 <<< 10, 0x05)
    ∷ (1 <<< 9, 0x03)
    ∷ (1 <<< 8, 0x01)
    ∷ (1 <<< 7, 0x04)
    ∷ (1 <<< 6, 0x0c)
    ∷ []

-- Delay timer and pending timestamp.
abbrev pub pending_types : List (ℕ × ℕ)
pending_types = (1 <<< 5, 0x34) ∷ (1 <<< 4, 0x33) ∷ []

pub dataset_tlv_types : ℕ → Bool → List ℕ
unfolding flag_types
dataset_tlv_types flags pending =
    if pending
    then flag_types flags active_types ++ flag_types flags pending_types
    else flag_types flags active_types

pub active_dataset_tlv_types : ℕ → List ℕ
active_dataset_tlv_types flags = dataset_tlv_types flags false

pub pending_dataset_tlv_types : ℕ → List ℕ
pending_dataset_tlv_types flags = dataset_tlv_types flags true

-- Border agent locator, commissioner session ID, the three kinds of steering data, and the UDP
-- ports of joiners, autonomous enrollment and network-managed keys.
abbrev pub commissioner_types : List (ℕ × ℕ)
commissioner_types =
    (1 <<< 15, 9)
    ∷ (1 <<< 14, 11)
    ∷ (1 <<< 13, 8)
    ∷ (1 <<< 12, 61)
    ∷ (1 <<< 11, 62)
    ∷ (1 <<< 10, 18)
    ∷ (1 <<< 9, 65)
    ∷ (1 <<< 8, 66)
    ∷ []

pub commissioner_dataset_tlv_types : ℕ → List ℕ
unfolding flag_types
commissioner_dataset_tlv_types flags = flag_types flags commissioner_types

abbrev pub diag_types : List (ℕ × ℕ)
diag_types =
    (1 <<< 0, 0)
    ∷ (1 <<< 1, 1)
    ∷ (1 <<< 2, 2)
    ∷ (1 <<< 3, 5)
    ∷ (1 <<< 4, 6)
    ∷ (1 <<< 5, 8)
    ∷ (1 <<< 8, 9)
    ∷ (1 <<< 6, 16)
    ∷ (1 <<< 7, 23)
    ∷ (1 <<< 9, 30)
    ∷ (1 <<< 10, 7)
    ∷ (1 <<< 11, 3)
    ∷ (1 <<< 12, 4)
    ∷ (1 <<< 13, 14)
    ∷ (1 <<< 14, 15)
    ∷ (1 <<< 15, 17)
    ∷ (1 <<< 16, 18)
    ∷ []

pub network_diag_tlv_types : ℕ → List ℕ
unfolding flag_types
network_diag_tlv_types flags = flag_types flags diag_types
