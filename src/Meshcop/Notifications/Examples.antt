-- ===== src/Meshcop/Notifications/Examples.antt =====
-- Runs of builders.rs and parsers.rs, and the theorems at concrete inputs.
use meshcop_rs.Base.{◌≡◌, refl, [], ◌∷◌, arith, Result, ok, err, some}
use meshcop_rs.Base.Address.{octets, be_bytes, is_multicast}
use meshcop_rs.Base.Bytes.{Bytes}
use meshcop_rs.Coap.{CoapMessage, post_code, confirmable}
use meshcop_rs.Coap.Uri.{set_uri_path}
use meshcop_rs.Error.{Error, expected_changed, not_multicast}
use meshcop_rs.Meshcop.Constants.{uri_relay_rx, uri_udp_rx}
use meshcop_rs.Meshcop.Notifications.{
  relay_rx, parse_notification, parse_udp_rx, parse_petition_response,
}
use meshcop_rs.Meshcop.Notifications.Relayed.{
  received_datagram, parse_notification-relay_tx_request, parse_udp_rx-udp_tx_request,
}
use meshcop_rs.Meshcop.Relay.{relay_tx_request, udp_tx_request}
use meshcop_rs.Meshcop.Requests.{multicast_addresses}
use meshcop_rs.Meshcop.State.{parse_state_response}

-- A decoder of diagnostic data that gives the bytes.
abbrev raw_bytes : Bytes → Result Error Bytes
raw_bytes payload = ok payload

abbrev iid : Bytes
iid = 1 ∷ 2 ∷ 3 ∷ 4 ∷ 5 ∷ 6 ∷ 7 ∷ 8 ∷ []

abbrev bare : CoapMessage
bare = record {
  ty = confirmable;
  code = post_code;
  message_id = 7;
  token = [];
  options = [];
  payload = [];
}

-- A request is not taken for the response to a petition.
not_changed : parse_petition_response bare ≡ err (expected_changed 2)
unfolding parse_petition_response parse_state_response
not_changed = refl

unicast : multicast_addresses (1 ∷ []) [] ≡ err (not_multicast 1)
unfolding multicast_addresses octets be_bytes is_multicast
unicast = refl

parse_notification-relay_tx_request_example :
    (m : CoapMessage) × (received : CoapMessage) × (relay_tx_request 1 [] iid 1000 0x4400
        (0x16 ∷ 0xfe ∷ [])
      ≡ ok m)
    × (set_uri_path m uri_relay_rx ≡ (received, ok tt))
    × (parse_notification Bytes raw_bytes received
        ≡ ok (some (relay_rx 1000 0x4400 iid (0x16 ∷ 0xfe ∷ []))))
parse_notification-relay_tx_request_example =
    parse_notification-relay_tx_request 1 [] iid 1000 0x4400 (0x16 ∷ 0xfe ∷ []) Bytes raw_bytes refl
      (omega arith) (omega arith) (omega arith)

parse_udp_rx-udp_tx_request_example :
    (m : CoapMessage) × (received : CoapMessage) × (udp_tx_request 1 [] 0xfd00 61631 (0x40 ∷ [])
      ≡ ok m)
    × (set_uri_path m uri_udp_rx ≡ (received, ok tt))
    × (parse_udp_rx received ≡ ok (some (received_datagram 1 [] 0xfd00 61631 (0x40 ∷ []))))
parse_udp_rx-udp_tx_request_example =
    parse_udp_rx-udp_tx_request 1 [] 0xfd00 61631 (0x40 ∷ []) (omega arith) (omega arith)
      (omega arith)
