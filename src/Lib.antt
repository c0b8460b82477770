-- ===== src/Lib.antt =====
-- meshcop-rs: a Thread MeshCoP commissioner. This library models the parts of the program that
-- read and write the wire formats and that decide, without I/O, what a datagram means.
--
-- The program's parts, and how they interact. A DTLS datagram holds records (record.rs); a
-- record's sequence number is checked against the anti-replay window (replay.rs) before it is
-- decrypted, and marked after. Handshake records carry fragments of handshake messages
-- (handshake.rs), which are reassembled and hashed into a transcript. Application records carry
-- CoAP messages (coap.rs), whose payloads are TLV streams (tlv.rs). The requests of a commissioner
-- (builders.rs) go out under an identity of their own and are tracked as exchanges (exchange.rs):
-- they are sent again while no answer comes, and a message that comes in completes the exchange that
-- it answers, is recognised as a copy of one that was answered (duplicates.rs), or is parsed as a
-- notification (parsers.rs). Joiners are admitted by a table of keys (joiner.rs) and by the steering
-- data that the network announces (pskc.rs); a dataset (dataset.rs) is a TLV stream with accessors.
--
-- Which file models which part. Paths are from the root of the repository.
--   Base               Rust's slices, integers, bit operations and Result, shared by all files.
--   Tlv                crates/meshcop/src/tlv.rs: TlvSet (parse, encode, push, last_value,
--                      set_last), TlvEntry::encode as encode_entry, parse_one, encode_header.
--   Dtls.Error         crates/meshcop-dtls/src/error.rs.
--   Dtls.Record        crates/meshcop-dtls/src/record.rs: RecordHeader as parse_header,
--                      encode_header and aead_additional_data; DtlsRecord as new_record, encode,
--                      parse_datagram and encode_datagram.
--   Dtls.Replay        crates/meshcop-dtls/src/replay.rs: ReplayWindow, with has_seen and mark_seen.
--   Dtls.Handshake     crates/meshcop-dtls/src/handshake.rs: HandshakeHeader and HandshakeFragment,
--                      with the 24-bit integers of crates/meshcop-dtls/src/util.rs.
--   Dtls.Message       the same file: HandshakeMessage (fragment, encode, transcript_bytes),
--                      HandshakeTranscript, and the two parsers of unfragmented messages.
--   Dtls.Reassembly    the same file: HandshakeReassembler. A method returns the state that it
--                      leaves beside its result, since an error may leave a partial write.
--   Dtls.Protection    crates/meshcop-dtls/src/ccm.rs and record_protection.rs: dtls_ccm_nonce, and
--                      protecting and opening records over a record Ccm of the operations of the
--                      crate ccm, with its documented behaviour as the record IsAead.
--   Dtls.Flight        crates/meshcop-dtls/src/flight.rs: renumber_epoch_zero_flight returns the flight
--                      and the counter; is_client_finished_flight.
--   Dtls.Hello         crates/meshcop-dtls/src/hello.rs: ClientHello, ServerHello and
--                      HelloVerifyRequest, with Cursor in Dtls.Hello.Reading.
--   Error              crates/meshcop/src/error.rs.
--   Coap               crates/meshcop/src/meshcop/coap.rs: CoapMessage (encode, decode, the empty
--                      messages and the tests for them) and the option header.
--   Duplicates         crates/meshcop/src/commissioner/client/driver/duplicates.rs: AnsweredMessages
--                      (reply_to, remember, forget_border_agent), over a clock given as a number.
--   Exchange           crates/meshcop/src/commissioner/client/driver/exchange.rs: Exchanges with its
--                      methods; of the methods of Driver, acknowledge, take_answered,
--                      assign_identity with unused_token, what `start` tracks (tracked) and what
--                      the timers make of an exchange that is sent again (retransmitted). Random
--                      numbers and the time are arguments, and reply channels are left out.
--   Joiner             crates/meshcop/src/commissioner/joiner.rs: StaticJoinerHandler, JoinerFinalizeInfo,
--                      and of JoinerSession the opening of records, over the cipher Ccm.
--   Config             crates/meshcop/src/commissioner/config.rs: the configuration and its builder.
--   Wire               crates/meshcop/src/wire.rs.
--   Coap.Uri           crates/meshcop/src/meshcop/coap.rs: set_uri_path, which returns the message
--                      that it leaves beside its result, uri_path and post_request.
--   Dataset            crates/meshcop/src/dataset.rs: OperationalDataset with its accessors, Channel as
--                      parse_channel and channel_to_value; the parts Time (Timestamp), Policy
--                      (SecurityPolicy and its flags) and ChannelMask.
--   Steering           crates/meshcop/src/crypto/pskc.rs: joiner IDs and the Bloom filter of the
--                      steering data, with SHA-256 as a parameter.
--   Meshcop.Flags      crates/meshcop/src/meshcop/flags.rs.
--   Derivation         crates/meshcop/src/crypto/pskc.rs: generate_pskc and PBKDF2, over AES-CMAC.
--   Meshcop.Constants  crates/meshcop/src/meshcop/constants.rs, CommissionerOperation of types.rs.
--   Meshcop.Requests   crates/meshcop/src/meshcop/builders.rs: the requests of a commissioner.
--   Meshcop.Relay      the same file: relay_tx_request and udp_tx_request.
--   Meshcop.Notifications
--                      crates/meshcop/src/meshcop/parsers.rs: parse_udp_rx, parse_petition_response and
--                      parse_notification, with the decoder of diagnostic data as a parameter.
--   Meshcop.State      crates/meshcop/src/meshcop/types.rs, parsers.rs (parse_state and
--                      parse_state_response) and util.rs (append_tlv and its like).
--
-- How the code is read. An integer is a natural number; where the source truncates (`as u8`,
-- `<<` on a u64) the remainder is written out. A slice is a list. Rust's Result has one more
-- constructor, stuck, which stands for no Rust value: a loop that ran out of its fuel, or an index
-- out of bounds. Error texts are those of the source.
--
-- Fuel. The loops of the parsers take the length of their input as fuel; each round consumes at least
-- two bytes (TLV), thirteen (records), twelve (messages), four (extensions) or one (CoAP options), so
-- it is enough. slice::chunks takes the length of the slice, and each chunk takes a byte. PBKDF2 takes
-- the length of its output; where the MAC gives tags of 16 bytes, as it is documented to, a block fills
-- bytes of it. For a MAC with other tags the model may run out of fuel where the source goes on.
--
-- Not modelled: cryptography (AES-CCM, AES-CMAC and SHA-256 are parameters; EC J-PAKE), asynchronous
-- drivers and transports, the commissioner API, the command line, and, so far, diagnostics and the
-- rest of the session driver.
pub mod Base
pub mod Coap
pub mod Config
pub mod Dataset
pub mod Derivation
pub mod Dtls
pub mod Duplicates
pub mod Error
pub mod Exchange
pub mod Joiner
pub mod Meshcop
pub mod Steering
pub mod Tlv
pub mod Wire
