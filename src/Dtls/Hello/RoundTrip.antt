-- ===== src/Dtls/Hello/RoundTrip.antt =====
-- hello.rs: encoding and then decoding a ClientHello.
use meshcop_rs.Base.{
  ℕ, zero, suc, ◌*◌, ◌%◌, ◌/◌, ◌≤◌, ◌≡◌, refl, sym, ap, ◌∙◌, true, false, List, [], ◌∷◌, ◌++◌,
  append_assoc, append-nil, arith, All, Result, ok, length, take-append_eq, drop-append_eq,
  length-append, ◌==◌, ltb, leb, ◌>>=◌,
}
use meshcop_rs.Base.Bytes.{Bytes, IsU16, as_u8, u16_from_be_bytes, u16_to_be_bytes}
use meshcop_rs.Dtls.Error.{Error}
use meshcop_rs.Dtls.Hello.{
  TlsExtension, ClientHello, validate_u8_len, validate_u16_len, extension_bytes, extensions_loop,
  append_extensions, suites_bytes, encode_client_hello,
}
use meshcop_rs.Dtls.Hello.Reading.{
  read_exact, read_u8, read_u16, read_vec_u8, read_vec_u16, read_extension, read_extensions_loop,
  extensions_of, read_extensions, finish, suites_of, decode_client_hello,
}

read_exact-append :
    (n : ℕ) (xs rest : Bytes) → n ≡ length xs → read_exact n (xs ++ rest) ≡ ok (xs, rest)
unfolding read_exact
read_exact-append n xs rest e =
    let long : ltb (length (xs ++ rest)) n ≡ false = ground (arith, length-append xs rest) in
    rw (long, take-append_eq n xs rest e, drop-append_eq n xs rest e) refl

read_u16-append :
    (v : ℕ) (rest : Bytes) → IsU16 v → read_u16 (u16_to_be_bytes v ++ rest) ≡ ok (v, rest)
unfolding read_u16
read_u16-append v rest h =
    let back : u16_from_be_bytes (as_u8 (v / 256)) (as_u8 v) ≡ v = omega arith in
    ap (λ n. ok (n, rest)) back

read_vec_u8-append :
    (xs rest : Bytes)
    → length xs ≤ 255
    → read_vec_u8 (as_u8 (length xs) ∷ (xs ++ rest)) ≡ ok (xs, rest)
unfolding read_vec_u8 read_u8
read_vec_u8-append xs rest h = read_exact-append (as_u8 (length xs)) xs rest (omega arith)

read_vec_u16-append :
    (n : ℕ) (xs rest : Bytes)
    → n ≡ length xs
    → n ≤ 65535
    → read_vec_u16 (u16_to_be_bytes n ++ (xs ++ rest)) ≡ ok (xs, rest)
unfolding read_vec_u16
read_vec_u16-append n xs rest e h =
    ap (λ (r : Result Error (ℕ × Bytes)). r >>= λ read. read_exact read.0 read.1)
      (read_u16-append n (xs ++ rest) (omega arith))
    ∙ read_exact-append n xs rest e

length-extension_bytes : (extension : TlsExtension) → 4 ≤ length (extension_bytes extension)
unfolding extension_bytes
length-extension_bytes extension = omega arith

-- An extension that has an encoding.
abbrev pub HasWidth : TlsExtension → Type 0
HasWidth extension = IsU16 extension.extension_type × (length extension.body ≤ 65535)

unfoldable pub extensions_bytes : List TlsExtension → Bytes
extensions_bytes [] = []
extensions_bytes (extension ∷ extensions) = extension_bytes extension ++ extensions_bytes extensions

extensions_loop-bytes :
    (extensions : List TlsExtension) (out : Bytes)
    → All HasWidth extensions
    → extensions_loop extensions out ≡ ok (out ++ extensions_bytes extensions)
unfolding extensions_loop extensions_bytes validate_u16_len
extensions_loop-bytes [] out h = ap ok (sym (append-nil out))
extensions_loop-bytes (extension ∷ extensions) out h =
    let fits : leb (length extension.body) 65535 ≡ true = ground (arith, h.0.1) in
    rw fits (
      extensions_loop-bytes extensions (out ++ extension_bytes extension) h.1
      ∙ ap ok (append_assoc out (extension_bytes extension) (extensions_bytes extensions)))

read_extension-append :
    (extension : TlsExtension) (rest : Bytes)
    → HasWidth extension
    → read_extension (extension_bytes extension ++ rest) ≡ ok (extension, rest)
unfolding read_extension extension_bytes
read_extension-append extension rest h =
    rw
      (read_u16-append extension.extension_type
        (u16_to_be_bytes (length extension.body) ++ (extension.body ++ rest)) h.0)
      (rw (read_vec_u16-append (length extension.body) extension.body rest refl h.1) refl)

read_extensions_loop-step :
    (fuel : ℕ) (bytes : Bytes) {extension : TlsExtension} {rest : Bytes}
    (before : List TlsExtension)
    → read_extension bytes ≡ ok (extension, rest)
    → read_extensions_loop (suc fuel) bytes before
      ≡ read_extensions_loop fuel rest (before ++ (extension ∷ []))
unfolding read_extensions_loop
read_extensions_loop-step fuel [] before e = unfold read_extension read_u16 in cc
read_extensions_loop-step fuel (b ∷ bytes) before e = rw e

read_extensions_loop-bytes :
    (extensions : List TlsExtension) (fuel : ℕ) (before : List TlsExtension)
    → All HasWidth extensions
    → length (extensions_bytes extensions) ≤ fuel
    → read_extensions_loop fuel (extensions_bytes extensions) before ≡ ok (before ++ extensions)
unfolding extensions_bytes
read_extensions_loop-bytes [] fuel before h k =
    unfold read_extensions_loop in ap ok (sym (append-nil before))
read_extensions_loop-bytes (extension ∷ extensions) zero before h k =
    unfold extension_bytes in absurd (omega arith)
read_extensions_loop-bytes (extension ∷ extensions) (suc fuel) before h k =
    let shorter : length (extensions_bytes extensions) ≤ fuel = omega (
      arith,
      length-extension_bytes extension,
      length-append (extension_bytes extension) (extensions_bytes extensions),
    ) in
    read_extensions_loop-step fuel _ before
      (read_extension-append extension (extensions_bytes extensions) h.0)
    ∙ read_extensions_loop-bytes extensions fuel (before ++ (extension ∷ [])) h.1 shorter
    ∙ ap ok (append_assoc before (extension ∷ []) extensions)

read_extensions-bytes :
    (extensions : List TlsExtension)
    → All HasWidth extensions
    → length (extensions_bytes extensions) ≤ 65535
    → read_extensions
        (u16_to_be_bytes (length (extensions_bytes extensions)) ++ extensions_bytes extensions)
      ≡ ok (extensions, [])
unfolding read_extensions
read_extensions-bytes extensions h k =
    let bytes : Bytes = extensions_bytes extensions in
    let vector : read_vec_u16 (u16_to_be_bytes (length bytes) ++ bytes) ≡ ok (bytes, []) =
      ap (λ (rest : Bytes). read_vec_u16 (u16_to_be_bytes (length bytes) ++ rest))
        (sym (append-nil bytes))
      ∙ read_vec_u16-append (length bytes) bytes [] refl k in
    let all = read_extensions_loop-bytes extensions (length bytes) [] h (omega arith) in
    ap (λ (r : Result Error (Bytes × Bytes)). r >>= extensions_of) vector
    ∙ (unfold extensions_of in rw all refl)

suites_of-suites_bytes :
    (suites : List ℕ) → All IsU16 suites → suites_of (suites_bytes suites) ≡ suites
unfolding suites_of suites_bytes
suites_of-suites_bytes [] h = refl
suites_of-suites_bytes (suite ∷ suites) h =
    let back : u16_from_be_bytes (as_u8 (suite / 256)) (as_u8 suite) ≡ suite = omega (arith, h.0) in
    rw (back, suites_of-suites_bytes suites h.1) refl

length-suites_bytes : (suites : List ℕ) → length (suites_bytes suites) ≡ length suites * 2
unfolding suites_bytes
length-suites_bytes [] = refl
length-suites_bytes (suite ∷ suites) = omega (arith, length-suites_bytes suites)

-- What a ClientHello keeps to that has an encoding.
pub record IsEncodable (hello : ClientHello) : Type 0 where
  pub random_is : length hello.random ≡ 32
  pub session_fits : length hello.session_id ≤ 255
  pub cookie_fits : length hello.cookie ≤ 255
  pub suites_width : All IsU16 hello.cipher_suites
  pub suites_fit : length hello.cipher_suites * 2 ≤ 65535
  pub methods_fit : length hello.compression_methods ≤ 255
  pub extensions_width : All HasWidth hello.extensions
  pub extensions_fit : length (extensions_bytes hello.extensions) ≤ 65535

module _ (hello : ClientHello) where
  -- The body with such bytes behind the compression methods.
  body_with : Bytes → Bytes
  body_with tail =
      0xfe
      ∷ 0xfd
      ∷ (hello.random
          ++ (as_u8 (length hello.session_id)
              ∷ (hello.session_id
                  ++ (as_u8 (length hello.cookie)
                      ∷ (hello.cookie
                          ++ (u16_to_be_bytes (length hello.cipher_suites * 2)
                              ++ (suites_bytes hello.cipher_suites
                                  ++ (as_u8 (length hello.compression_methods)
                                      ∷ (hello.compression_methods ++ tail)))))))))

  abbrev tail_of : Bytes
  tail_of =
      u16_to_be_bytes (length (extensions_bytes hello.extensions))
      ++ extensions_bytes hello.extensions

  methods_part : Bytes
  methods_part = as_u8 (length hello.compression_methods) ∷ hello.compression_methods

  suites_part : Bytes
  suites_part =
      u16_to_be_bytes (length hello.cipher_suites * 2)
      ++ (suites_bytes hello.cipher_suites ++ methods_part)

  cookie_part : Bytes
  cookie_part = as_u8 (length hello.cookie) ∷ (hello.cookie ++ suites_part)

  session_part : Bytes
  session_part = as_u8 (length hello.session_id) ∷ (hello.session_id ++ cookie_part)

  reassociated :
      (u16_to_be_bytes 0xfefd ++ (hello.random ++ session_part)) ++ tail_of ≡ body_with tail_of
  unfolding methods_part suites_part cookie_part session_part body_with
  reassociated =
      ap (λ (x : Bytes). 0xfe ∷ 0xfd ∷ x)
        (append_assoc hello.random session_part tail_of
          ∙ ap (λ (x : Bytes). hello.random ++ (as_u8 (length hello.session_id) ∷ x))
              (append_assoc hello.session_id cookie_part tail_of
                ∙ ap (λ (x : Bytes). hello.session_id ++ (as_u8 (length hello.cookie) ∷ x))
                    (append_assoc hello.cookie suites_part tail_of
                      ∙ ap
                          (λ (x : Bytes).
                            hello.cookie ++ (u16_to_be_bytes (length hello.cipher_suites * 2) ++ x))
                          (append_assoc (suites_bytes hello.cipher_suites) methods_part tail_of))))

  encode-body_with : IsEncodable hello → encode_client_hello hello ≡ ok (body_with tail_of)
  unfolding encode_client_hello append_extensions validate_u8_len validate_u16_len methods_part
      suites_part cookie_part session_part
  encode-body_with h =
      let session : leb (length hello.session_id) 255 ≡ true = ground (arith, h.session_fits) in
      let cookie : leb (length hello.cookie) 255 ≡ true = ground (arith, h.cookie_fits) in
      let methods : leb (length hello.compression_methods) 255 ≡ true =
        ground (arith, h.methods_fit) in
      let suites : leb (length hello.cipher_suites * 2) 65535 ≡ true =
        ground (arith, h.suites_fit) in
      let extensions : leb (length (extensions_bytes hello.extensions)) 65535 ≡ true =
        ground (arith, h.extensions_fit) in
      let encoded = extensions_loop-bytes hello.extensions [] h.extensions_width in
      rw (session, cookie, methods, suites, encoded, extensions) (ap ok reassociated)

  decode-body_with : IsEncodable hello → decode_client_hello (body_with tail_of) ≡ ok hello
  unfolding decode_client_hello body_with read_u16 finish
  decode-body_with h =
      let even : (length (suites_bytes hello.cipher_suites) % 2 == 0) ≡ true =
        ground (arith, length-suites_bytes hello.cipher_suites) in
      rw
        (
          read_exact-append 32 hello.random _ (sym h.random_is),
          read_vec_u8-append hello.session_id _ h.session_fits,
          read_vec_u8-append hello.cookie _ h.cookie_fits,
          read_vec_u16-append (length hello.cipher_suites * 2) (suites_bytes hello.cipher_suites) _
              (sym (length-suites_bytes hello.cipher_suites)) h.suites_fit,
          even,
          read_vec_u8-append hello.compression_methods tail_of h.methods_fit,
          read_extensions-bytes hello.extensions h.extensions_width h.extensions_fit,
          suites_of-suites_bytes hello.cipher_suites h.suites_width,
        )
        refl

  -- A ClientHello with 32 random bytes, session ID, cookie and compression methods of at most 255
  -- bytes, cipher suites and extensions of at most 65535 bytes and numbers of 16 bits is encoded,
  -- and decoded as it was.
  pub decode_client_hello-encode_client_hello :
      IsEncodable hello
      → (bytes : Bytes) × (encode_client_hello hello ≡ ok bytes)
        × (decode_client_hello bytes ≡ ok hello)
  decode_client_hello-encode_client_hello h =
      (body_with tail_of, encode-body_with h, decode-body_with h)
