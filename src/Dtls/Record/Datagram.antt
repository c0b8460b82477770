-- ===== src/Dtls/Record/Datagram.antt =====
-- Records back to back in one datagram.
use meshcop_rs.Base.{
  ℕ, zero, suc, ◌+◌, ◌≤◌, ◌≡◌, refl, sym, ap, ◌∙◌, List, [], ◌∷◌, ◌++◌, ◌⊎◌, inl, inr, append-nil,
  append_assoc, arith, leb, leb→le, Bool-cases, length, take, drop, All, All-drop, length-append,
  length-take, length-drop, take-append_eq, drop-append_eq, drop-drop, Result-cases,
  take-append-drop, Result, ok, err,
}
use meshcop_rs.Base.Bytes.{Bytes, IsBytes}
use meshcop_rs.Dtls.Error.{Error, crypto}
use meshcop_rs.Dtls.Record.{
  RecordHeader, DtlsRecord, parse_header, encode_header, encode, parse_one, parse_loop,
  parse_datagram, encode_loop, encode_datagram,
}
use meshcop_rs.Dtls.Record.Header.{
  IsHeader, parse_header-encode_header, encode_header-parse_header, parse_header-ne-stuck,
}

-- A record whose header fits the wire and states the length of the payload.
pub record IsRecord (r : DtlsRecord) : Type 0 where
  pub header_fits : IsHeader r.header
  pub len_eq : r.header.len ≡ length r.payload

pub wire : DtlsRecord → Bytes
wire r = encode_header r.header ++ r.payload

pub wires : List DtlsRecord → Bytes
wires [] = []
wires (r ∷ records) = wire r ++ wires records

length-encode_header : (h : RecordHeader) → length (encode_header h) ≡ 13
unfolding encode_header
length-encode_header h = refl

encode-wire : (r : DtlsRecord) → length r.payload ≡ r.header.len → encode r ≡ ok (wire r)
unfolding encode wire
encode-wire r e = ground arith

encode_loop-wires :
    (records : List DtlsRecord) (datagram : Bytes)
    → All IsRecord records
    → encode_loop records datagram ≡ ok (datagram ++ wires records)
unfolding encode_loop wires
encode_loop-wires [] datagram h = ap ok (sym (append-nil datagram))
encode_loop-wires (r ∷ records) datagram h = rw (encode-wire r (sym h.0.len_eq)) (
    encode_loop-wires records (datagram ++ wire r) h.1
    ∙ ap ok (append_assoc datagram (wire r) (wires records)))

parse_one-wire :
    (r : DtlsRecord) (rest : Bytes) → IsRecord r → parse_one (wire r ++ rest) ≡ ok (r, rest)
unfolding parse_one wire
parse_one-wire r rest h =
    let front = encode_header r.header in
    let back = r.payload ++ rest in
    let whole = front ++ back in
    rw (append_assoc front r.payload rest, parse_header-encode_header r.header back h.header_fits)
      (ground (
        arith,
        length-append front back,
        length-append r.payload rest,
        length-encode_header r.header,
        drop-append_eq 13 front back (sym (length-encode_header r.header)),
        drop-drop (13 + r.header.len) 13 r.header.len whole refl,
        take-append_eq r.header.len r.payload rest h.len_eq,
        drop-append_eq r.header.len r.payload rest h.len_eq,
      ))

length-wire : (r : DtlsRecord) → 13 ≤ length (wire r)
unfolding wire
length-wire r =
    omega (arith, length-append (encode_header r.header) r.payload, length-encode_header r.header)

parse_loop-step :
    (fuel : ℕ) (bytes : Bytes) {r : DtlsRecord} {rest : Bytes} (done : List DtlsRecord)
    → parse_one bytes ≡ ok (r, rest)
    → parse_loop (suc fuel) bytes done ≡ parse_loop fuel rest (done ++ (r ∷ []))
unfolding parse_loop
parse_loop-step fuel [] done e = unfold parse_one parse_header in cc
parse_loop-step fuel (b ∷ bs) done e = rw e

parse_loop-wires :
    (records : List DtlsRecord) (fuel : ℕ) (done : List DtlsRecord)
    → All IsRecord records
    → length (wires records) ≤ fuel
    → parse_loop fuel (wires records) done ≡ ok (done ++ records)
unfolding wires
parse_loop-wires [] fuel done h k = unfold parse_loop in ap ok (sym (append-nil done))
parse_loop-wires (r ∷ records) zero done h k =
    absurd (omega (arith, length-wire r, length-append (wire r) (wires records)))
parse_loop-wires (r ∷ records) (suc fuel) done h k =
    parse_loop-step fuel _ done (parse_one-wire r (wires records) h.0)
    ∙ parse_loop-wires records fuel (done ++ (r ∷ [])) h.1
        (omega (arith, length-wire r, length-append (wire r) (wires records)))
    ∙ ap ok (append_assoc done (r ∷ []) records)

-- Well-formed records are encoded into one datagram, and parsing that gives the same records.
pub parse_datagram-encode_datagram :
    (records : List DtlsRecord)
    → All IsRecord records
    → (bytes : Bytes) × (encode_datagram records ≡ ok bytes) × (parse_datagram bytes ≡ ok records)
unfolding encode_datagram parse_datagram
parse_datagram-encode_datagram records h = (
  wires records,
  encode_loop-wires records [] h,
  parse_loop-wires records (length (wires records)) [] h (omega arith),
)

split :
    (bytes : Bytes) (n : ℕ) (front : Bytes)
    → front ≡ take 13 bytes
    → bytes ≡ (front ++ take n (drop 13 bytes)) ++ drop (13 + n) bytes
split bytes n front e = rw (
  e,
  drop-drop (13 + n) 13 n bytes refl,
  append_assoc (take 13 bytes) (take n (drop 13 bytes)) (drop n (drop 13 bytes)),
  take-append-drop n (drop 13 bytes),
  take-append-drop 13 bytes,
)

-- A record at the front of `bytes`, and what follows it; or an error.
pub Parsed : Bytes → Result Error (DtlsRecord × Bytes) → Type 0
Parsed bytes r =
    ((rec : DtlsRecord) × (rest : Bytes) × (r ≡ ok (rec, rest))
      × (length rest + 13 ≤ length bytes)
      × (IsBytes bytes → IsRecord rec × IsBytes rest × (bytes ≡ wire rec ++ rest)))
    ⊎ ((e : Error) × (r ≡ err e))

pub parse_one-Parsed : (bytes : Bytes) → Parsed bytes (parse_one bytes)
unfolding parse_one Parsed wire
parse_one-Parsed bytes = elim (Result-cases (parse_header bytes) (parse_header-ne-stuck bytes)) [
  | inr (e, x) ↦ inr (e, rw x)
  | inl (h, x) ↦ elim (Bool-cases (leb (13 + h.len) (length bytes))) [
    | inr short ↦ inr (crypto "DTLS record payload is truncated", rw (x, short))
    | inl fits ↦ inl (
      record { header = h; payload = take h.len (drop 13 bytes) },
      drop (13 + h.len) bytes,
      rw (x, fits),
      omega (arith, length-drop (13 + h.len) bytes, leb→le _ _ fits),
      λ b.
          let (good, front, _) = encode_header-parse_header bytes h b x in
          (
            record {
              header_fits = good;
              len_eq =
                  omega (
                    arith,
                    length-take h.len (drop 13 bytes),
                    length-drop 13 bytes,
                    leb→le _ _ fits,
                  );
            },
            All-drop _ (13 + h.len) bytes b,
            split bytes h.len (encode_header h) front,
          ),
    )
  ]
]

-- What the loop makes of its input.
pub Loops : Bytes → List DtlsRecord → Result Error (List DtlsRecord) → Type 0
Loops bytes done r =
    ((more : List DtlsRecord) × (r ≡ ok (done ++ more))
      × (IsBytes bytes → All IsRecord more × (bytes ≡ wires more)))
    ⊎ ((e : Error) × (r ≡ err e))

parse_loop-stop :
    (fuel : ℕ) (bytes : Bytes) (done : List DtlsRecord) (e : Error) (b : ℕ) (bs : Bytes)
    → bytes ≡ b ∷ bs
    → parse_one bytes ≡ err e
    → parse_loop (suc fuel) bytes done ≡ err e
unfolding parse_loop
parse_loop-stop fuel [] done e b bs p x = cc
parse_loop-stop fuel (c ∷ cs) done e b bs p x = rw x

parse_loop-Loops :
    (fuel : ℕ) (bytes : Bytes) (done : List DtlsRecord)
    → length bytes ≤ fuel
    → Loops bytes done (parse_loop fuel bytes done)
unfolding Loops Parsed wires
parse_loop-Loops fuel [] done h =
    unfold parse_loop in inl ([], ap ok (sym (append-nil done)), λ _. (tt, refl))
parse_loop-Loops zero (b ∷ bs) done h = absurd (omega arith)
parse_loop-Loops (suc fuel) (b ∷ bs) done h = elim (parse_one-Parsed (b ∷ bs)) [
  | inr (e, x) ↦ inr (e, parse_loop-stop fuel _ done e b bs refl x)
  | inl (r, rest, x, shorter, good) ↦
      elim (parse_loop-Loops fuel rest (done ++ (r ∷ [])) (omega arith)) [
        | inr (e, y) ↦ inr (e, parse_loop-step fuel _ done x ∙ y)
        | inl (more, y, fit) ↦ inl (
          r ∷ more,
          parse_loop-step fuel _ done x ∙ y ∙ ap ok (append_assoc done (r ∷ []) more),
          λ h.
              let (rec, bytes, whole) = good h in
              let (recs, same) = fit bytes in ((rec, recs), whole ∙ ap (◌++◌ (wire r)) same),
        )
      ]
]

-- `parse_datagram` ends on every input, with records or an error.
pub parse_datagram_total :
    (bytes : Bytes)
    → ((records : List DtlsRecord) × (parse_datagram bytes ≡ ok records))
      ⊎ ((e : Error) × (parse_datagram bytes ≡ err e))
unfolding parse_datagram Loops
parse_datagram_total bytes = elim (parse_loop-Loops (length bytes) bytes [] (omega arith)) [
  | inl (more, e, _) ↦ inl (more, e)
  | inr e ↦ inr e
]

-- A datagram has one reading: what was parsed is well formed and encodes to the same bytes.
pub encode_datagram-parse_datagram :
    (bytes : Bytes) (records : List DtlsRecord)
    → IsBytes bytes
    → parse_datagram bytes ≡ ok records
    → All IsRecord records × (encode_datagram records ≡ ok bytes)
unfolding parse_datagram Loops
encode_datagram-parse_datagram bytes records h e =
    elim (parse_loop-Loops (length bytes) bytes [] (omega arith)) [
      | inr (x, y) ↦ ground arith
      | inl (more, x, good) ↦
          let same : records ≡ more = ground arith in
          rw same (
            (good h).0,
            unfold encode_datagram in encode_loop-wires more [] (good h).0 ∙ ap ok (sym (good h).1),
          )
    ]
