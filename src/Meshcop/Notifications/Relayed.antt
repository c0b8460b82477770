-- ===== src/Meshcop/Notifications/Relayed.antt =====
-- builders.rs and parsers.rs together: messages that are relayed or proxied, handed on under the
-- path of the other direction.
use meshcop_rs.Base.{
  ℕ, ◌<◌, ◌^◌, ◌/◌, ◌≡◌, refl, sym, ap, ◌∙◌, true, false, List, [], ◌∷◌, ◌++◌, arith, Result, ok,
  some, length, All, ◌==◌,
}
use meshcop_rs.Base.Address.{octets, length-octets, from_octets-octets}
use meshcop_rs.Base.Bytes.{Bytes, IsU16, u16_to_be_bytes, u16_from_be_bytes, bytes_eq, as_u8}
use meshcop_rs.Base.Utf8.{is_utf8}
use meshcop_rs.Coap.{CoapMessage, non_confirmable, is_empty}
use meshcop_rs.Coap.Uri.{set_uri_path, uri_path, split, into_first, strip_slash}
use meshcop_rs.Coap.Uri.Path.{
  IsSegment, uri_path-set_trimmed, post_request-uri_path, set_uri_path-payload,
}
use meshcop_rs.Dataset.{read_array}
use meshcop_rs.Error.{Error}
use meshcop_rs.Meshcop.Constants.{
  uri_relay_tx, uri_relay_rx, uri_udp_tx, uri_udp_rx, tlv_joiner_udp_port,
  tlv_joiner_router_locator, tlv_joiner_iid, tlv_joiner_dtls_encapsulation, tlv_ipv6_address,
  tlv_udp_encapsulation, default_mm_port,
}
use meshcop_rs.Meshcop.Notifications.{
  UdpRx, relay_rx, relay_payload, parse_notification, required_tlv, udp_rx_payload, udp_rx_of,
  is_path, parse_udp_rx,
}
use meshcop_rs.Meshcop.Notifications.Payload.{
  entry_of, append_tlv-wires, append_u16-wires, append_tlv-first, append_u16-first, read_u16-bytes,
}
use meshcop_rs.Meshcop.Relay.{relay_tx_request, relay_tx_request_with_kek, udp_tx_request}
use meshcop_rs.Tlv.{TlvEntry, last_value, find_ty}
use meshcop_rs.Tlv.RoundTrip.{wires, parse-wires}

-- A message that is handed on keeps its payload and gets the new path.
handed_on :
    (m : CoapMessage) (path : Bytes)
    → is_empty (strip_slash path) ≡ false
    → All IsSegment (split (strip_slash path))
    → (after : CoapMessage) × (set_uri_path m path ≡ (after, ok tt))
      × (uri_path after ≡ ok (some (0x2f ∷ strip_slash path)))
      × (after.payload ≡ m.payload)
handed_on m path filled h =
    let (after, set, read) = uri_path-set_trimmed m path filled h in
    (after, set, read, sym (ap (λ r. r.0.payload) set) ∙ set_uri_path-payload m path)

relay_rx-segments : All IsSegment (split (strip_slash uri_relay_rx))
unfolding split strip_slash into_first is_empty is_utf8
relay_rx-segments = ((refl, refl), ((refl, refl), tt))

relay_tx-segments : All IsSegment (split (strip_slash uri_relay_tx))
unfolding split strip_slash into_first is_empty is_utf8
relay_tx-segments = ((refl, refl), ((refl, refl), tt))

udp_rx-segments : All IsSegment (split (strip_slash uri_udp_rx))
unfolding split strip_slash into_first is_empty is_utf8
udp_rx-segments = ((refl, refl), ((refl, refl), tt))

udp_tx-segments : All IsSegment (split (strip_slash uri_udp_tx))
unfolding split strip_slash into_first is_empty is_utf8
udp_tx-segments = ((refl, refl), ((refl, refl), tt))

module _ (message_id : ℕ) (token iid : Bytes) (port locator : ℕ) (payload : Bytes) where
  relayed : List TlvEntry
  relayed =
      entry_of tlv_joiner_udp_port (u16_to_be_bytes port)
      ∷ entry_of tlv_joiner_router_locator (u16_to_be_bytes locator)
      ∷ entry_of tlv_joiner_iid iid
      ∷ entry_of tlv_joiner_dtls_encapsulation payload
      ∷ []

  relay_tx_request-payload :
      length iid ≡ 8
      → length payload < 0x1_0000
      → (m : CoapMessage) × (relay_tx_request message_id token iid port locator payload ≡ ok m)
        × (m.payload ≡ wires relayed)
  unfolding relay_tx_request relay_tx_request_with_kek relayed
  relay_tx_request-payload eight short =
      let (m, posted, _, carried) =
        post_request-uri_path non_confirmable message_id token uri_relay_tx (wires relayed)
          (unfold strip_slash is_empty in refl) relay_tx-segments in
      let eight' : (length iid == 8) ≡ true = ground arith in
      let p = entry_of tlv_joiner_udp_port (u16_to_be_bytes port) in
      let l = entry_of tlv_joiner_router_locator (u16_to_be_bytes locator) in
      let i = entry_of tlv_joiner_iid iid in
      (
        m,
        rw
            (
              eight',
              append_u16-first tlv_joiner_udp_port port,
              append_u16-wires (p ∷ []) tlv_joiner_router_locator locator,
              append_tlv-wires (p ∷ l ∷ []) tlv_joiner_iid iid (omega arith),
              append_tlv-wires (p ∷ l ∷ i ∷ []) tlv_joiner_dtls_encapsulation payload short,
            )
            posted,
        carried,
      )

  relay_payload-relayed :
      (NetDiagData : Type 0) (decode : Bytes → Result Error NetDiagData)
      → length iid ≡ 8
      → IsU16 port
      → IsU16 locator
      → length payload < 0x1_0000
      → relay_payload NetDiagData decode (wires relayed)
        ≡ ok (some (relay_rx port locator iid payload))
  unfolding relay_payload relayed last_value find_ty required_tlv read_array
  relay_payload-relayed NetDiagData decode eight hp hl short =
      let parsed = parse-wires relayed (omega arith, (omega arith, (omega arith, (short, tt)))) in
      let eight' : (length iid == 8) ≡ true = ground arith in
      rw (parsed, read_u16-bytes port hp, read_u16-bytes locator hl, eight') refl

  -- A joiner's message that the router sends to the commissioner has the TLVs that a message to the
  -- joiner has: a payload of at most 65535 bytes, with an IID of 8 bytes and ports and locators of
  -- 16 bits, is put into a RELAY_TX request, and from the same message under the path of RELAY_RX
  -- the parser reads the port, the locator, the IID and the payload back.
  pub parse_notification-relay_tx_request :
      (NetDiagData : Type 0) (decode : Bytes → Result Error NetDiagData)
      → length iid ≡ 8
      → IsU16 port
      → IsU16 locator
      → length payload < 0x1_0000
      → (m : CoapMessage) × (received : CoapMessage) × (relay_tx_request message_id token iid port
            locator payload
          ≡ ok m)
        × (set_uri_path m uri_relay_rx ≡ (received, ok tt))
        × (parse_notification NetDiagData decode received
            ≡ ok (some (relay_rx port locator iid payload)))
  unfolding parse_notification
  parse_notification-relay_tx_request NetDiagData decode eight hp hl short =
      let (m, sent, carried) = relay_tx_request-payload eight short in
      let (received, set, path, kept) =
        handed_on m uri_relay_rx (unfold strip_slash is_empty in refl) relay_rx-segments in
      let read = relay_payload-relayed NetDiagData decode eight hp hl short in
      (m, received, sent, set, rw (path, kept, carried) (unfold bytes_eq strip_slash in read))

module _ (message_id : ℕ) (token : Bytes) (address port : ℕ) (inner : Bytes) where
  proxied : List TlvEntry
  proxied =
      entry_of tlv_ipv6_address (octets address)
      ∷ entry_of tlv_udp_encapsulation
          (u16_to_be_bytes default_mm_port ++ u16_to_be_bytes port ++ inner)
      ∷ []

  udp_tx_request-payload :
      length inner < 0xfffc
      → (m : CoapMessage) × (udp_tx_request message_id token address port inner ≡ ok m)
        × (m.payload ≡ wires proxied)
  unfolding udp_tx_request proxied
  udp_tx_request-payload short =
      let (m, posted, _, carried) =
        post_request-uri_path non_confirmable message_id token uri_udp_tx (wires proxied)
          (unfold strip_slash is_empty in refl) udp_tx-segments in
      let a = entry_of tlv_ipv6_address (octets address) in
      (
        m,
        rw
            (
              append_tlv-first tlv_ipv6_address (octets address)
                  (omega (arith, length-octets address)),
              append_tlv-wires (a ∷ []) tlv_udp_encapsulation
                  (u16_to_be_bytes default_mm_port ++ u16_to_be_bytes port ++ inner) (omega arith),
            )
            posted,
        carried,
      )

  abbrev pub received_datagram : UdpRx
  received_datagram = record {
    source_address = address;
    source_port = default_mm_port;
    destination_port = port;
    payload = inner;
  }

  udp_rx_payload-proxied :
      address < 2 ^ 128
      → IsU16 port
      → length inner < 0xfffc
      → udp_rx_payload (wires proxied) ≡ ok (some received_datagram)
  unfolding udp_rx_payload proxied last_value find_ty required_tlv udp_rx_of
  udp_rx_payload-proxied ha hp short =
      let long = length-octets address in
      let parsed = parse-wires proxied (omega arith, (omega arith, tt)) in
      let sixteen : (length (octets address) == 16) ≡ true = ground arith in
      let port_is : u16_from_be_bytes (as_u8 (port / 256)) (as_u8 port) ≡ port = omega arith in
      rw (parsed, sixteen, from_octets-octets address ha, port_is) refl

  -- A datagram of less than 65532 bytes for an address and a port of 128 and 16 bits is put into a
  -- UDP_TX request, and from the same message under the path of UDP_RX the parser reads the
  -- address, the port and the datagram back, with the management port in front.
  pub parse_udp_rx-udp_tx_request :
      address < 2 ^ 128
      → IsU16 port
      → length inner < 0xfffc
      → (m : CoapMessage) × (received : CoapMessage) × (udp_tx_request message_id token address port
            inner
          ≡ ok m)
        × (set_uri_path m uri_udp_rx ≡ (received, ok tt))
        × (parse_udp_rx received ≡ ok (some received_datagram))
  unfolding parse_udp_rx
  parse_udp_rx-udp_tx_request ha hp short =
      let (m, out, carried) = udp_tx_request-payload short in
      let (received, set, path, kept) =
        handed_on m uri_udp_rx (unfold strip_slash is_empty in refl) udp_rx-segments in
      let read = udp_rx_payload-proxied ha hp short in
      (
        m,
        received,
        out,
        set,
        rw (path, kept, carried) (unfold is_path bytes_eq strip_slash in read),
      )
