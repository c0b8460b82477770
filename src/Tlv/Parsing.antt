-- ===== src/Tlv/Parsing.antt =====
-- `TlvSet::parse` on any input, well formed or not.
use meshcop_rs.Base.{
  ℕ, zero, suc, ◌+◌, ◌*◌, ◌≤◌, ◌<◌, ◌≡◌, refl, ◌∙◌, ap, List, [], ◌∷◌, ◌++◌, ◌⊎◌, inl, inr, arith,
  length, All, All-drop, length-take, length-drop, Result, ok, err, leb, leb→le, ◌==◌, Bool-cases,
  take, drop, append-nil, append_assoc, sym,
}
use meshcop_rs.Base.Bytes.{Bytes, IsBytes}
use meshcop_rs.Tlv.{
  TlvError, TlvEntry, TlvSet, buffer_too_small, extended_length, header_length, parse_one,
  parse_loop, parse, encode,
}
use meshcop_rs.Tlv.RoundTrip.{Fits, parse_loop-step, parse-encode}

header_length-cases :
    (b : ℕ) (after : Bytes)
    → ((len : ℕ) × (body : Bytes) × (header_length b after ≡ ok (len, body))
        × (length body ≤ length after)
        × (IsBytes (b ∷ after) → (len < 0x1_0000) × IsBytes body))
      ⊎ (header_length b after ≡ err buffer_too_small)
unfolding header_length extended_length
header_length-cases b after = elim (Bool-cases (b == 0xff)) [
  | inl long ↦ rw long (extended after)
  | inr short ↦ inl (b, after, rw short, omega arith, λ h. (omega arith, h.1))
]
  where
    extended :
        (after : Bytes)
        → ((len : ℕ) × (body : Bytes) × (extended_length after ≡ ok (len, body))
            × (length body ≤ length after)
            × (IsBytes (b ∷ after) → (len < 0x1_0000) × IsBytes body))
          ⊎ (extended_length after ≡ err buffer_too_small)
    extended [] = inr refl
    extended (high ∷ []) = inr refl
    extended (high ∷ low ∷ body) =
        inl (high * 256 + low, body, refl, omega arith, λ h. (omega arith, h.1.1.1))

-- Either an entry stands at the front, of two bytes at least, or the input is too short for it.
pub Parsed : Bytes → Result TlvError (TlvEntry × Bytes) → Type 0
Parsed bytes r =
    ((entry : TlvEntry) × (rest : Bytes) × (r ≡ ok (entry, rest))
      × (length rest + length entry.value + 2 ≤ length bytes)
      × (IsBytes bytes → Fits entry × IsBytes rest))
    ⊎ (r ≡ err buffer_too_small)

pub parse_one-Parsed : (bytes : Bytes) → Parsed bytes (parse_one bytes)
unfolding parse_one Parsed
parse_one-Parsed [] = inr refl
parse_one-Parsed (ty ∷ []) = inr refl
parse_one-Parsed (ty ∷ b ∷ after) = elim (header_length-cases b after) [
  | inr e ↦ inr (rw e)
  | inl (len, body, e, shorter, bounds) ↦ elim (Bool-cases (leb len (length body))) [
    | inr short ↦ inr (rw (e, short))
    | inl fits ↦ inl (
      record { ty = ty; value = take len body },
      drop len body,
      rw (e, fits),
      omega (arith, length-take len body, length-drop len body, leb→le len (length body) fits),
      λ h. (
        omega (arith, length-take len body, (bounds h.1).0),
        All-drop (λ x. x < 256) len body (bounds h.1).1,
      ),
    )
  ]
]

parse_loop-stop :
    (fuel : ℕ) (bytes : Bytes) (done : List TlvEntry) (b : ℕ) (bs : Bytes)
    → bytes ≡ b ∷ bs
    → parse_one bytes ≡ err buffer_too_small
    → parse_loop (suc fuel) bytes done ≡ err buffer_too_small
unfolding parse_loop
parse_loop-stop fuel [] done b bs e x = cc
parse_loop-stop fuel (c ∷ cs) done b bs e x = rw x

-- What the loop returns on a fuel that covers the input.
pub Loops : Bytes → List TlvEntry → Result TlvError (List TlvEntry) → Type 0
Loops bytes done r =
    ((more : List TlvEntry) × (r ≡ ok (done ++ more)) × (IsBytes bytes → All Fits more))
    ⊎ (r ≡ err buffer_too_small)

parse_loop-Loops :
    (fuel : ℕ) (bytes : Bytes) (done : List TlvEntry)
    → length bytes ≤ fuel
    → Loops bytes done (parse_loop fuel bytes done)
unfolding Loops Parsed
parse_loop-Loops fuel [] done h =
    unfold parse_loop in inl ([], ap ok (sym (append-nil done)), λ _. tt)
parse_loop-Loops zero (b ∷ bs) done h = absurd (omega arith)
parse_loop-Loops (suc fuel) (b ∷ bs) done h = elim (parse_one-Parsed (b ∷ bs)) [
  | inr e ↦ inr (parse_loop-stop fuel _ done b bs refl e)
  | inl (entry, rest, e, shorter, bounds) ↦
      elim (parse_loop-Loops fuel rest (done ++ (entry ∷ [])) (omega arith)) [
        | inr x ↦ inr (parse_loop-step fuel _ done e ∙ x)
        | inl (more, x, fit) ↦ inl (
          entry ∷ more,
          parse_loop-step fuel _ done e ∙ x ∙ ap ok (append_assoc done (entry ∷ []) more),
          λ h. ((bounds h).0, fit (bounds h).1),
        )
      ]
]

-- `parse` ends on every input: with a set, or with the error that the buffer is too small.
pub parse_total :
    (bytes : Bytes)
    → ((set : TlvSet) × (parse bytes ≡ ok set)) ⊎ (parse bytes ≡ err buffer_too_small)
unfolding parse Loops
parse_total bytes = elim (parse_loop-Loops (length bytes) bytes [] (omega arith)) [
  | inl (more, e, _) ↦ inl (record { entries = more }, rw e)
  | inr e ↦ inr (rw e)
]

-- Every set that was parsed from bytes has an encoding, which is parsed to the same set. The
-- encoding may be shorter than the input: a short value may come with a two-byte length.
pub encode-parse :
    (bytes : Bytes) (set : TlvSet)
    → IsBytes bytes
    → parse bytes ≡ ok set
    → (canonical : Bytes) × (encode set ≡ ok canonical) × (parse canonical ≡ ok set)
encode-parse bytes set h e = parse-encode set fits
  where
    fits : All Fits set.entries
    fits =
        unfold parse Loops in
        elim (parse_loop-Loops (length bytes) bytes [] (omega arith)) [
          | inl (more, x, f) ↦ let same : set.entries ≡ more = ground arith in rw same (f h)
          | inr x ↦ ground arith
        ]
