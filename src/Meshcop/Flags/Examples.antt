-- ===== src/Meshcop/Flags/Examples.antt =====
-- Runs of flags.rs.
use meshcop_rs.Base.{◌≡◌, refl, [], ◌∷◌}
use meshcop_rs.Meshcop.Flags.{
  pending_dataset_tlv_types, active_dataset_tlv_types, dataset_tlv_types, network_diag_tlv_types,
}

all_pending : pending_dataset_tlv_types 0x8030 ≡ 0x0e ∷ 0x34 ∷ 0x33 ∷ []
unfolding pending_dataset_tlv_types dataset_tlv_types
all_pending = refl

without_pending : active_dataset_tlv_types 0x8030 ≡ 0x0e ∷ []
unfolding active_dataset_tlv_types dataset_tlv_types
without_pending = refl

diag_order : network_diag_tlv_types 0x1c0 ≡ 9 ∷ 16 ∷ 23 ∷ []
unfolding network_diag_tlv_types
diag_order = refl
