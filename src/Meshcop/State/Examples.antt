-- ===== src/Meshcop/State/Examples.antt =====
-- Runs of the State TLV's parser, and the theorem at a concrete input.
use meshcop_rs.Base.{◌≡◌, refl, [], ◌∷◌, err}
use meshcop_rs.Error.{dataset}
use meshcop_rs.Tlv.{TlvSet}
use meshcop_rs.Meshcop.State.{from_wire, state_of_value}

-- A state and a session identifier.
abbrev petition : TlvSet
petition = record {
  entries =
      record { ty = 16; value = 0xff ∷ [] } ∷ record { ty = 11; value = 0x12 ∷ 0x34 ∷ [] } ∷ [];
}

long_state : state_of_value (1 ∷ 2 ∷ []) ≡ err (dataset "State TLV must be 1 byte")
unfolding state_of_value
long_state = refl

unknown_state : from_wire 2 ≡ err (dataset "invalid MeshCoP State TLV value")
unfolding from_wire
unknown_state = refl
