-- ===== src/Dataset/ChannelMask.antt =====
-- dataset.rs, `ChannelMaskEntry`: entries of a page, a length and so many bytes.
use meshcop_rs.Base.{
  ℕ, zero, suc, ◌≤◌, ◌<◌, ◌≡◌, refl, sym, ap, ◌∙◌, ◌⊎◌, inl, inr, Bool-cases, true, List, [], ◌∷◌,
  ◌++◌, append-nil, append_assoc, arith, leb, leb→le, le→leb, length, take, drop, All,
  length-append, length-take, length-drop, take-append, drop-append, take-append-drop, All-drop,
  Result, ok, err, stuck, ◌>>=◌, ◌>>◌, guard, >>=-ok, guard-ok,
}
use meshcop_rs.Base.Bytes.{Bytes, IsBytes, as_u8}
use meshcop_rs.Error.{Error, dataset}

pub record ChannelMaskEntry : Type 0 where
  pub page : ℕ
  pub mask : Bytes

-- One round of the loop of `parse_all`.
pub parse_entry : Bytes → Result Error (ChannelMaskEntry × Bytes)
parse_entry (page ∷ len ∷ value) = do
  guard (leb len (length value)) (dataset "channel mask entry value is truncated")
  ok (record { page = page; mask = take len value }, drop len value)
parse_entry _ = err (dataset "channel mask entry header is truncated")

pub parse_loop : ℕ → Bytes → List ChannelMaskEntry → Result Error (List ChannelMaskEntry)
parse_loop fuel [] out = ok out
parse_loop zero (b ∷ value) out = stuck
parse_loop (suc fuel) (b ∷ value) out = do
  (entry, rest) ← parse_entry (b ∷ value)
  parse_loop fuel rest (out ++ (entry ∷ []))

-- A round takes two bytes at least.
unfoldable pub parse_all : Bytes → Result Error (List ChannelMaskEntry)
unfolding parse_loop parse_entry
parse_all value = parse_loop (length value) value []

pub encode_loop : List ChannelMaskEntry → Bytes → Result Error Bytes
encode_loop [] out = ok out
encode_loop (entry ∷ entries) out = do
  guard (leb (length entry.mask) 255) (dataset "channel mask entry too long")
  encode_loop entries
      (((out ++ (entry.page ∷ [])) ++ (as_u8 (length entry.mask) ∷ [])) ++ entry.mask)

unfoldable pub encode_all : List ChannelMaskEntry → Result Error Bytes
unfolding encode_loop
encode_all entries = encode_loop entries []

pub entry_bytes : ChannelMaskEntry → Bytes
entry_bytes entry = entry.page ∷ length entry.mask ∷ entry.mask

pub entries_bytes : List ChannelMaskEntry → Bytes
entries_bytes [] = []
entries_bytes (entry ∷ entries) = entry_bytes entry ++ entries_bytes entries

abbrev pub HasEncoding : ChannelMaskEntry → Type 0
HasEncoding entry = length entry.mask ≤ 255

encode_loop-bytes :
    (entries : List ChannelMaskEntry) (out : Bytes)
    → All HasEncoding entries
    → encode_loop entries out ≡ ok (out ++ entries_bytes entries)
unfolding encode_loop entries_bytes entry_bytes
encode_loop-bytes [] out h = ap ok (sym (append-nil out))
encode_loop-bytes (entry ∷ entries) out h =
    let test : leb (length entry.mask) 255 ≡ true = le→leb (length entry.mask) 255 h.0 in
    let small : as_u8 (length entry.mask) ≡ length entry.mask = omega arith in
    rw (test, small) (encode_loop-bytes entries _ h.1 ∙ ap ok (simp append_assoc))

parse_entry-bytes :
    (entry : ChannelMaskEntry) (rest : Bytes)
    → parse_entry (entry_bytes entry ++ rest) ≡ ok (entry, rest)
unfolding parse_entry entry_bytes
parse_entry-bytes entry rest =
    let test : leb (length entry.mask) (length (entry.mask ++ rest)) ≡ true =
      ground (arith, length-append entry.mask rest) in
    rw (test, take-append entry.mask rest, drop-append entry.mask rest) refl

parse_loop-step :
    (fuel : ℕ) (value : Bytes) (out : List ChannelMaskEntry) {entry : ChannelMaskEntry}
    {rest : Bytes}
    → parse_entry value ≡ ok (entry, rest)
    → parse_loop (suc fuel) value out ≡ parse_loop fuel rest (out ++ (entry ∷ []))
unfolding parse_loop
parse_loop-step fuel [] out e = unfold parse_entry in cc
parse_loop-step fuel (b ∷ value) out e = rw e refl

parse_loop-bytes :
    (entries : List ChannelMaskEntry) (fuel : ℕ) (out : List ChannelMaskEntry)
    → length (entries_bytes entries) ≤ fuel
    → parse_loop fuel (entries_bytes entries) out ≡ ok (out ++ entries)
unfolding entries_bytes
parse_loop-bytes [] fuel out h = unfold parse_loop in ap ok (sym (append-nil out))
parse_loop-bytes (entry ∷ entries) zero out h = unfold entry_bytes in absurd (omega arith)
parse_loop-bytes (entry ∷ entries) (suc fuel) out h =
    parse_loop-step fuel _ out (parse_entry-bytes entry (entries_bytes entries))
    ∙ parse_loop-bytes entries fuel (out ++ (entry ∷ []))
        (unfold entry_bytes in omega (arith, length-append entry.mask (entries_bytes entries)))
    ∙ ap ok (append_assoc out (entry ∷ []) entries)

-- Entries of masks of at most 255 bytes are encoded, and parsed back in their order.
pub parse_all-encode_all :
    (entries : List ChannelMaskEntry)
    → All HasEncoding entries
    → (value : Bytes) × (encode_all entries ≡ ok value) × (parse_all value ≡ ok entries)
unfolding encode_all parse_all
parse_all-encode_all entries h = (
  entries_bytes entries,
  encode_loop-bytes entries [] h,
  parse_loop-bytes entries (length (entries_bytes entries)) [] (omega arith),
)

-- What a round took stands in front of the rest.
parse_entry-ok :
    (value : Bytes) (entry : ChannelMaskEntry) (rest : Bytes)
    → IsBytes value
    → parse_entry value ≡ ok (entry, rest)
    → (value ≡ entry_bytes entry ++ rest) × HasEncoding entry × IsBytes rest
unfolding parse_entry entry_bytes
parse_entry-ok [] entry rest h e = cc
parse_entry-ok (page ∷ []) entry rest h e = cc
parse_entry-ok (page ∷ len ∷ value) entry rest h e =
    let (fits, same) = guard-ok (leb len (length value)) _ _ e in
    let whole : length (take len value) ≡ len =
      omega (arith, length-take len value, leb→le len (length value) fits) in
    let entry_is : entry ≡ record { page = page; mask = take len value } = cc in
    let rest_is : rest ≡ drop len value = cc in
    rw (entry_is, rest_is, whole)
      (
        ap (λ (xs : Bytes). page ∷ len ∷ xs) (sym (take-append-drop len value)),
        omega arith,
        All-drop (λ b. b < 256) len value h.1.1,
      )

parse_loop-ok :
    (fuel : ℕ) (value : Bytes) (out entries : List ChannelMaskEntry)
    → IsBytes value
    → parse_loop fuel value out ≡ ok entries
    → (more : List ChannelMaskEntry) × (entries ≡ out ++ more)
      × (value ≡ entries_bytes more)
      × All HasEncoding more
unfolding parse_loop entries_bytes
parse_loop-ok fuel [] out entries h e = ([], (cc (append-nil out)), refl, tt)
parse_loop-ok zero (b ∷ value) out entries h e = cc
parse_loop-ok (suc fuel) (b ∷ value) out entries h e =
    let ((entry, rest), one, next) = >>=-ok (parse_entry (b ∷ value)) _ e in
    let (front, short, bytes) = parse_entry-ok (b ∷ value) entry rest h one in
    let (more, all, value_is, fit) =
      parse_loop-ok fuel rest (out ++ (entry ∷ [])) entries bytes next in
    (
      entry ∷ more,
      all ∙ append_assoc out (entry ∷ []) more,
      front ∙ ap (λ (xs : Bytes). entry_bytes entry ++ xs) value_is,
      (short, fit),
    )

-- Entries that were parsed from bytes are encoded to the same bytes: a value has one reading.
pub encode_all-parse_all :
    (value : Bytes) (entries : List ChannelMaskEntry)
    → IsBytes value
    → parse_all value ≡ ok entries
    → encode_all entries ≡ ok value
unfolding encode_all parse_all
encode_all-parse_all value entries h e =
    let (more, all, value_is, fit) = parse_loop-ok (length value) value [] entries h e in
    rw all (encode_loop-bytes more [] fit ∙ ap ok (sym value_is))

parse_entry-shorter :
    (value : Bytes)
    → ((entry : ChannelMaskEntry) × (rest : Bytes) × (parse_entry value ≡ ok (entry, rest))
        × (suc (length rest) ≤ length value))
      ⊎ ((e : Error) × (parse_entry value ≡ err e))
unfolding parse_entry
parse_entry-shorter [] = inr (dataset "channel mask entry header is truncated", refl)
parse_entry-shorter (page ∷ []) = inr (dataset "channel mask entry header is truncated", refl)
parse_entry-shorter (page ∷ len ∷ value) = elim (Bool-cases (leb len (length value))) [
  | inl fits ↦ inl (
    record { page = page; mask = take len value },
    drop len value,
    rw fits refl,
    omega (arith, length-drop len value),
  )
  | inr short ↦ inr (dataset "channel mask entry value is truncated", rw short refl)
]

parse_loop_total :
    (fuel : ℕ) (value : Bytes) (out : List ChannelMaskEntry)
    → length value ≤ fuel
    → ((entries : List ChannelMaskEntry) × (parse_loop fuel value out ≡ ok entries))
      ⊎ ((e : Error) × (parse_loop fuel value out ≡ err e))
unfolding parse_loop
parse_loop_total fuel [] out h = inl (out, refl)
parse_loop_total zero (b ∷ value) out h = absurd (omega arith)
parse_loop_total (suc fuel) (b ∷ value) out h = elim (parse_entry-shorter (b ∷ value)) [
  | inr (e, x) ↦ inr (e, rw x refl)
  | inl (entry, rest, x, less) ↦
      rw x (parse_loop_total fuel rest (out ++ (entry ∷ [])) (omega arith))
]

-- `parse_all` ends on every value, with entries or an error.
pub parse_all_total :
    (value : Bytes)
    → ((entries : List ChannelMaskEntry) × (parse_all value ≡ ok entries))
      ⊎ ((e : Error) × (parse_all value ≡ err e))
unfolding parse_all
parse_all_total value = parse_loop_total (length value) value [] (omega arith)
