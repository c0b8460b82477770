-- ===== src/Meshcop/Relay.antt =====
-- builders.rs: the messages that carry others, to a joiner through its router and to a mesh address
-- through the UDP proxy.
use meshcop_rs.Base.{ℕ, [], ◌++◌, ◌==◌, Option, none, some, Result, ok, ◌>>=◌, ◌>>◌, guard, length}
use meshcop_rs.Base.Address.{octets}
use meshcop_rs.Base.Bytes.{Bytes, u16_to_be_bytes}
use meshcop_rs.Coap.{CoapMessage, non_confirmable}
use meshcop_rs.Coap.Uri.{post_request}
use meshcop_rs.Error.{Error, dataset}
use meshcop_rs.Meshcop.Constants.{
  tlv_joiner_udp_port, tlv_joiner_router_locator, tlv_joiner_iid, tlv_joiner_dtls_encapsulation,
  tlv_joiner_router_kek, tlv_ipv6_address, tlv_udp_encapsulation, default_mm_port, uri_relay_tx,
  uri_udp_tx,
}
use meshcop_rs.Meshcop.State.{append_tlv, append_u16}

unfoldable pub append_kek : Bytes → Option Bytes → Result Error Bytes
append_kek body none = ok body
append_kek body (some kek) = append_tlv body tlv_joiner_router_kek kek

unfoldable pub relay_tx_request_with_kek :
    ℕ → Bytes → Bytes → ℕ → ℕ → Bytes → Option Bytes → Result Error CoapMessage
unfolding append_kek
relay_tx_request_with_kek message_id token joiner_iid joiner_udp_port joiner_router_locator payload
      joiner_router_kek =
    do
      guard (length joiner_iid == 8) (dataset "joiner IID must be 8 bytes")
      body ← append_u16 [] tlv_joiner_udp_port joiner_udp_port
      body ← append_u16 body tlv_joiner_router_locator joiner_router_locator
      body ← append_tlv body tlv_joiner_iid joiner_iid
      body ← append_tlv body tlv_joiner_dtls_encapsulation payload
      body ← append_kek body joiner_router_kek
      post_request non_confirmable message_id token uri_relay_tx body

unfoldable pub relay_tx_request : ℕ → Bytes → Bytes → ℕ → ℕ → Bytes → Result Error CoapMessage
unfolding relay_tx_request_with_kek
relay_tx_request message_id token joiner_iid joiner_udp_port joiner_router_locator payload =
    relay_tx_request_with_kek message_id token joiner_iid joiner_udp_port joiner_router_locator
      payload none

unfoldable pub udp_tx_request : ℕ → Bytes → ℕ → ℕ → Bytes → Result Error CoapMessage
udp_tx_request message_id token destination destination_port inner = do
  payload ← append_tlv [] tlv_ipv6_address (octets destination)
  payload ←
      append_tlv payload tlv_udp_encapsulation
        (u16_to_be_bytes default_mm_port ++ u16_to_be_bytes destination_port ++ inner)
  post_request non_confirmable message_id token uri_udp_tx payload
