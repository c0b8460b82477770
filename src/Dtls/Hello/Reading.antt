-- ===== src/Dtls/Hello/Reading.antt =====
-- hello.rs: the cursor, and decoding the bodies. A method of the cursor returns the bytes that it
-- leaves; an offset never overflows a `usize`, which `checked_add` asks for.
use meshcop_rs.Base.{
  ℕ, zero, suc, ◌%◌, List, [], ◌∷◌, ◌++◌, ◌==◌, ltb, if◌then◌else◌, length, take, drop, Result, ok,
  err, stuck, ◌>>=◌, ◌>>◌, guard,
}
use meshcop_rs.Base.Bytes.{Bytes, u16_from_be_bytes}
use meshcop_rs.Dtls.Error.{Error, crypto}
use meshcop_rs.Dtls.Hello.{TlsExtension, ClientHello, HelloVerifyRequest, ServerHello}
use meshcop_rs.Dtls.Record.{dtls_1_2_version}

unfoldable pub read_exact : ℕ → Bytes → Result Error (Bytes × Bytes)
read_exact len bytes =
    if ltb (length bytes) len
    then err (crypto "DTLS structure is truncated")
    else ok (take len bytes, drop len bytes)

unfoldable pub read_u8 : Bytes → Result Error (ℕ × Bytes)
read_u8 [] = err (crypto "DTLS structure is truncated")
read_u8 (b ∷ rest) = ok (b, rest)

unfoldable pub read_u16 : Bytes → Result Error (ℕ × Bytes)
read_u16 (a ∷ b ∷ rest) = ok (u16_from_be_bytes a b, rest)
read_u16 _ = err (crypto "DTLS structure is truncated")

unfoldable pub read_vec_u8 : Bytes → Result Error (Bytes × Bytes)
read_vec_u8 bytes = do (len, rest) ← read_u8 bytes; read_exact len rest

unfoldable pub read_vec_u16 : Bytes → Result Error (Bytes × Bytes)
read_vec_u16 bytes = do (len, rest) ← read_u16 bytes; read_exact len rest

unfoldable pub read_extension : Bytes → Result Error (TlsExtension × Bytes)
read_extension bytes = do
  (extension_type, rest) ← read_u16 bytes
  (body, rest) ← read_vec_u16 rest
  ok (record { extension_type = extension_type; body = body }, rest)

-- The loop of `read_extensions`, on fuel.
unfoldable pub read_extensions_loop :
    ℕ → Bytes → List TlsExtension → Result Error (List TlsExtension)
read_extensions_loop fuel [] extensions = ok extensions
read_extensions_loop zero (b ∷ bytes) extensions = stuck
read_extensions_loop (suc fuel) (b ∷ bytes) extensions = do
  (extension, rest) ← read_extension (b ∷ bytes)
  read_extensions_loop fuel rest (extensions ++ (extension ∷ []))

unfoldable pub extensions_of : Bytes × Bytes → Result Error (List TlsExtension × Bytes)
extensions_of vector = do
  extensions ← read_extensions_loop (length vector.0) vector.0 []
  ok (extensions, vector.1)

unfoldable pub read_extensions : Bytes → Result Error (List TlsExtension × Bytes)
unfolding extensions_of
read_extensions [] = ok ([], [])
read_extensions (b ∷ bytes) = read_vec_u16 (b ∷ bytes) >>= extensions_of

unfoldable pub finish : Bytes → Result Error (Unit {0})
finish [] = ok tt
finish (b ∷ bytes) = err (crypto "trailing bytes after DTLS structure")

-- `chunks_exact(2)` and `from_be_bytes`.
unfoldable pub suites_of : Bytes → List ℕ
suites_of (a ∷ b ∷ rest) = u16_from_be_bytes a b ∷ suites_of rest
suites_of _ = []

unfoldable pub decode_client_hello : Bytes → Result Error ClientHello
decode_client_hello bytes = do
  (version, rest) ← read_u16 bytes
  guard (version == dtls_1_2_version) (crypto "ClientHello version is not DTLS 1.2")
  (random, rest) ← read_exact 32 rest
  (session_id, rest) ← read_vec_u8 rest
  (cookie, rest) ← read_vec_u8 rest
  (cipher_bytes, rest) ← read_vec_u16 rest
  guard (length cipher_bytes % 2 == 0) (crypto "ClientHello cipher-suite vector has odd length")
  (compression_methods, rest) ← read_vec_u8 rest
  (extensions, rest) ← read_extensions rest
  finish rest
  ok (record {
    random = random;
    session_id = session_id;
    cookie = cookie;
    cipher_suites = suites_of cipher_bytes;
    compression_methods = compression_methods;
    extensions = extensions;
  })

unfoldable pub decode_hello_verify_request : Bytes → Result Error HelloVerifyRequest
decode_hello_verify_request bytes = do
  (server_version, rest) ← read_u16 bytes
  (cookie, rest) ← read_vec_u8 rest
  finish rest
  ok (record { server_version = server_version; cookie = cookie })

unfoldable pub decode_server_hello : Bytes → Result Error ServerHello
decode_server_hello bytes = do
  (version, rest) ← read_u16 bytes
  guard (version == dtls_1_2_version) (crypto "ServerHello version is not DTLS 1.2")
  (random, rest) ← read_exact 32 rest
  (session_id, rest) ← read_vec_u8 rest
  (cipher_suite, rest) ← read_u16 rest
  (compression_method, rest) ← read_u8 rest
  (extensions, rest) ← read_extensions rest
  finish rest
  ok (record {
    random = random;
    session_id = session_id;
    cipher_suite = cipher_suite;
    compression_method = compression_method;
    extensions = extensions;
  })
