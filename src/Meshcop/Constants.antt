-- ===== src/Meshcop/Constants.antt =====
-- crates/meshcop/src/meshcop/constants.rs, and the operations of types.rs with their paths. A path
-- is the list of its bytes.
use meshcop_rs.Base.{ℕ, [], ◌∷◌}
use meshcop_rs.Base.Bytes.{Bytes}

abbrev pub tlv_pan_id : ℕ
tlv_pan_id = 1

abbrev pub tlv_network_name : ℕ
tlv_network_name = 3

abbrev pub tlv_commissioner_id : ℕ
tlv_commissioner_id = 10

abbrev pub tlv_commissioner_session_id : ℕ
tlv_commissioner_session_id = 11

abbrev pub tlv_get : ℕ
tlv_get = 13

abbrev pub tlv_joiner_dtls_encapsulation : ℕ
tlv_joiner_dtls_encapsulation = 17

abbrev pub tlv_joiner_udp_port : ℕ
tlv_joiner_udp_port = 18

abbrev pub tlv_joiner_iid : ℕ
tlv_joiner_iid = 19

abbrev pub tlv_joiner_router_locator : ℕ
tlv_joiner_router_locator = 20

abbrev pub tlv_joiner_router_kek : ℕ
tlv_joiner_router_kek = 21

abbrev pub tlv_udp_encapsulation : ℕ
tlv_udp_encapsulation = 48

abbrev pub tlv_ipv6_address : ℕ
tlv_ipv6_address = 49

abbrev pub tlv_channel_mask : ℕ
tlv_channel_mask = 53

abbrev pub tlv_count : ℕ
tlv_count = 54

abbrev pub tlv_period : ℕ
tlv_period = 55

abbrev pub tlv_scan_duration : ℕ
tlv_scan_duration = 56

abbrev pub tlv_energy_list : ℕ
tlv_energy_list = 57

abbrev pub tlv_secure_dissemination : ℕ
tlv_secure_dissemination = 58

abbrev pub thread_tlv_timeout : ℕ
thread_tlv_timeout = 11

abbrev pub thread_tlv_ipv6_addresses : ℕ
thread_tlv_ipv6_addresses = 14

abbrev pub thread_tlv_commissioner_session_id : ℕ
thread_tlv_commissioner_session_id = 15

abbrev pub network_diag_tlv_type_list : ℕ
network_diag_tlv_type_list = 18

abbrev pub default_mm_port : ℕ
default_mm_port = 61631

abbrev pub uri_petitioning : Bytes
uri_petitioning = 0x2f ∷ 0x63 ∷ 0x2f ∷ 0x63 ∷ 0x70 ∷ []

abbrev pub uri_keep_alive : Bytes
uri_keep_alive = 0x2f ∷ 0x63 ∷ 0x2f ∷ 0x63 ∷ 0x61 ∷ []

abbrev pub uri_mgmt_commissioner_get : Bytes
uri_mgmt_commissioner_get = 0x2f ∷ 0x63 ∷ 0x2f ∷ 0x63 ∷ 0x67 ∷ []

abbrev pub uri_mgmt_commissioner_set : Bytes
uri_mgmt_commissioner_set = 0x2f ∷ 0x63 ∷ 0x2f ∷ 0x63 ∷ 0x73 ∷ []

abbrev pub uri_mgmt_bbr_get : Bytes
uri_mgmt_bbr_get = 0x2f ∷ 0x63 ∷ 0x2f ∷ 0x62 ∷ 0x67 ∷ []

abbrev pub uri_mgmt_bbr_set : Bytes
uri_mgmt_bbr_set = 0x2f ∷ 0x63 ∷ 0x2f ∷ 0x62 ∷ 0x73 ∷ []

abbrev pub uri_mgmt_active_get : Bytes
uri_mgmt_active_get = 0x2f ∷ 0x63 ∷ 0x2f ∷ 0x61 ∷ 0x67 ∷ []

abbrev pub uri_mgmt_active_set : Bytes
uri_mgmt_active_set = 0x2f ∷ 0x63 ∷ 0x2f ∷ 0x61 ∷ 0x73 ∷ []

abbrev pub uri_mgmt_pending_get : Bytes
uri_mgmt_pending_get = 0x2f ∷ 0x63 ∷ 0x2f ∷ 0x70 ∷ 0x67 ∷ []

abbrev pub uri_mgmt_pending_set : Bytes
uri_mgmt_pending_set = 0x2f ∷ 0x63 ∷ 0x2f ∷ 0x70 ∷ 0x73 ∷ []

abbrev pub uri_mgmt_dataset_changed : Bytes
uri_mgmt_dataset_changed = 0x2f ∷ 0x63 ∷ 0x2f ∷ 0x64 ∷ 0x63 ∷ []

abbrev pub uri_mgmt_announce_begin : Bytes
uri_mgmt_announce_begin = 0x2f ∷ 0x63 ∷ 0x2f ∷ 0x61 ∷ 0x62 ∷ []

abbrev pub uri_mgmt_panid_query : Bytes
uri_mgmt_panid_query = 0x2f ∷ 0x63 ∷ 0x2f ∷ 0x70 ∷ 0x71 ∷ []

abbrev pub uri_mgmt_panid_conflict : Bytes
uri_mgmt_panid_conflict = 0x2f ∷ 0x63 ∷ 0x2f ∷ 0x70 ∷ 0x63 ∷ []

abbrev pub uri_mgmt_ed_scan : Bytes
uri_mgmt_ed_scan = 0x2f ∷ 0x63 ∷ 0x2f ∷ 0x65 ∷ 0x73 ∷ []

abbrev pub uri_mgmt_ed_report : Bytes
uri_mgmt_ed_report = 0x2f ∷ 0x63 ∷ 0x2f ∷ 0x65 ∷ 0x72 ∷ []

abbrev pub uri_mgmt_reenroll : Bytes
uri_mgmt_reenroll = 0x2f ∷ 0x63 ∷ 0x2f ∷ 0x72 ∷ 0x65 ∷ []

abbrev pub uri_mgmt_domain_reset : Bytes
uri_mgmt_domain_reset = 0x2f ∷ 0x63 ∷ 0x2f ∷ 0x72 ∷ 0x74 ∷ []

abbrev pub uri_mgmt_net_migrate : Bytes
uri_mgmt_net_migrate = 0x2f ∷ 0x63 ∷ 0x2f ∷ 0x6e ∷ 0x6d ∷ []

abbrev pub uri_mgmt_sec_pending_set : Bytes
uri_mgmt_sec_pending_set = 0x2f ∷ 0x63 ∷ 0x2f ∷ 0x73 ∷ 0x70 ∷ []

abbrev pub uri_relay_tx : Bytes
uri_relay_tx = 0x2f ∷ 0x63 ∷ 0x2f ∷ 0x74 ∷ 0x78 ∷ []

abbrev pub uri_relay_rx : Bytes
uri_relay_rx = 0x2f ∷ 0x63 ∷ 0x2f ∷ 0x72 ∷ 0x78 ∷ []

abbrev pub uri_udp_tx : Bytes
uri_udp_tx = 0x2f ∷ 0x63 ∷ 0x2f ∷ 0x75 ∷ 0x74 ∷ []

abbrev pub uri_udp_rx : Bytes
uri_udp_rx = 0x2f ∷ 0x63 ∷ 0x2f ∷ 0x75 ∷ 0x72 ∷ []

abbrev pub uri_diag_get_request : Bytes
uri_diag_get_request = 0x2f ∷ 0x64 ∷ 0x2f ∷ 0x64 ∷ 0x67 ∷ []

abbrev pub uri_diag_get_query : Bytes
uri_diag_get_query = 0x2f ∷ 0x64 ∷ 0x2f ∷ 0x64 ∷ 0x71 ∷ []

abbrev pub uri_diag_get_answer : Bytes
uri_diag_get_answer = 0x2f ∷ 0x64 ∷ 0x2f ∷ 0x64 ∷ 0x61 ∷ []

abbrev pub uri_diag_reset : Bytes
uri_diag_reset = 0x2f ∷ 0x64 ∷ 0x2f ∷ 0x64 ∷ 0x72 ∷ []

abbrev pub uri_mlr : Bytes
uri_mlr = 0x2f ∷ 0x6e ∷ 0x2f ∷ 0x6d ∷ 0x72 ∷ []

pub data CommissionerOperation : Type 0 where
  petition keep_alive get_commissioner_dataset set_commissioner_dataset get_active_dataset :
      CommissionerOperation
  set_active_dataset get_pending_dataset set_pending_dataset set_secure_pending_dataset :
      CommissionerOperation
  get_bbr_dataset set_bbr_dataset announce_begin pan_id_query energy_scan : CommissionerOperation
  register_multicast_listener reenroll domain_reset migrate diagnostic_get : CommissionerOperation
  diagnostic_get_unicast diagnostic_reset send_to_joiner : CommissionerOperation

pub operation_uri_path : CommissionerOperation → Bytes
operation_uri_path petition = uri_petitioning
operation_uri_path keep_alive = uri_keep_alive
operation_uri_path get_commissioner_dataset = uri_mgmt_commissioner_get
operation_uri_path set_commissioner_dataset = uri_mgmt_commissioner_set
operation_uri_path get_active_dataset = uri_mgmt_active_get
operation_uri_path set_active_dataset = uri_mgmt_active_set
operation_uri_path get_pending_dataset = uri_mgmt_pending_get
operation_uri_path set_pending_dataset = uri_mgmt_pending_set
operation_uri_path set_secure_pending_dataset = uri_mgmt_sec_pending_set
operation_uri_path get_bbr_dataset = uri_mgmt_bbr_get
operation_uri_path set_bbr_dataset = uri_mgmt_bbr_set
operation_uri_path announce_begin = uri_mgmt_announce_begin
operation_uri_path pan_id_query = uri_mgmt_panid_query
operation_uri_path energy_scan = uri_mgmt_ed_scan
operation_uri_path register_multicast_listener = uri_mlr
operation_uri_path reenroll = uri_mgmt_reenroll
operation_uri_path domain_reset = uri_mgmt_domain_reset
operation_uri_path migrate = uri_mgmt_net_migrate
operation_uri_path diagnostic_get = uri_diag_get_query
operation_uri_path diagnostic_get_unicast = uri_diag_get_request
operation_uri_path diagnostic_reset = uri_diag_reset
operation_uri_path send_to_joiner = uri_relay_tx
