-- ===== src/Coap/Uri/Segments.antt =====
-- coap.rs: `set_uri_path` and `uri_path` on one message, for a path given by its segments.
use meshcop_rs.Base.{
  ℕ, ◌≤◌, ◌≡◌, ◌≢◌, ◌⊎◌, refl, sym, ap, ◌∙◌, true, false, Bool-cases, inl, inr, List, [], ◌∷◌, ◌++◌,
  ◌==◌, if◌then◌else◌, drop, length, ok, some, All, arith, append-nil,
}
use meshcop_rs.Base.Bytes.{Bytes}
use meshcop_rs.Base.Utf8.{is_utf8}
use meshcop_rs.Coap.{CoapOption, CoapMessage, is_empty}
use meshcop_rs.Coap.Sorting.{of_number}
use meshcop_rs.Coap.Uri.{
  without_path, strip_slash, into_first, split, with_options, set_uri_path, uri_path,
}
use meshcop_rs.Coap.Uri.Path.{IsSegment, options_of, set_uri_path-options, uri_path-set_trimmed}

-- A text that is not empty and has no slash.
abbrev pub IsName : Bytes → Type 0
IsName segment = (1 ≤ length segment) × (is_utf8 segment ≡ true) × All (λ b. b ≢ 0x2f) segment

-- A slash and a segment, one after the other.
unfoldable pub slashed : List Bytes → Bytes
slashed [] = []
slashed (segment ∷ segments) = (0x2f ∷ segment) ++ slashed segments

-- The options of a path.
pub path_as_options : List Bytes → List CoapOption
path_as_options [] = []
path_as_options (segment ∷ segments) =
    record { number = 11; value = segment } ∷ path_as_options segments

options_of-path_as_options :
    (segments : List Bytes) → options_of segments ≡ path_as_options segments
unfolding options_of path_as_options
options_of-path_as_options [] = refl
options_of-path_as_options (segment ∷ segments) =
    ap (◌∷◌ (record { number = 11; value = segment })) (options_of-path_as_options segments)

split-append :
    (segment text : Bytes) (segments : List Bytes)
    → All (λ b. b ≢ 0x2f) segment
    → split text ≡ [] ∷ segments
    → split (segment ++ text) ≡ segment ∷ segments
unfolding split into_first
split-append [] text segments h e = e
split-append (b ∷ segment) text segments h e =
    let test : (b == 0x2f) ≡ false = ground (arith, h.0) in
    rw (test, split-append segment text segments h.1 e) refl

split-slashed :
    (segment : Bytes) (segments : List Bytes)
    → All IsName (segment ∷ segments)
    → split (segment ++ slashed segments) ≡ segment ∷ segments
unfolding slashed split
split-slashed segment [] h = split-append segment [] [] h.0.2 refl
split-slashed segment (next ∷ segments) h =
    split-append segment (0x2f ∷ (next ++ slashed segments)) (next ∷ segments) h.0.2
      (ap (◌∷◌ []) (split-slashed next segments h.1))

IsName-IsSegment : (segment : Bytes) → IsName segment → IsSegment segment
unfolding is_empty
IsName-IsSegment [] h = absurd (omega arith)
IsName-IsSegment (b ∷ segment) h = (refl, h.1)

All-IsSegment : (segments : List Bytes) → All IsName segments → All IsSegment segments
All-IsSegment [] h = tt
All-IsSegment (segment ∷ segments) h = (IsName-IsSegment segment h.0, All-IsSegment segments h.1)

-- The path with the segments: with the slash in front or without.
abbrev pub IsPath : Bytes → List Bytes → Type 0
IsPath path segments = (path ≡ slashed segments) ⊎ (0x2f ∷ path ≡ slashed segments)

strip_slash-name :
    (segment text : Bytes) → IsName segment → strip_slash (segment ++ text) ≡ segment ++ text
unfolding strip_slash
strip_slash-name [] text h = absurd (omega arith)
strip_slash-name (b ∷ segment) text h =
    let test : (b == 0x2f) ≡ false = ground (arith, h.2.0) in rw test refl

strip_slash-IsPath :
    (path segment : Bytes) (segments : List Bytes)
    → IsName segment
    → IsPath path (segment ∷ segments)
    → strip_slash path ≡ segment ++ slashed segments
unfolding slashed
strip_slash-IsPath path segment segments h (inl e) = rw e (unfold strip_slash in refl)
strip_slash-IsPath path segment segments h (inr e) =
    let path_is : path ≡ segment ++ slashed segments = ap (drop 1) e in
    rw path_is (strip_slash-name segment (slashed segments) h)

of_number-append :
    (n : ℕ) (xs ys : List CoapOption) → of_number n (xs ++ ys) ≡ of_number n xs ++ of_number n ys
unfolding of_number
of_number-append n [] ys = refl
of_number-append n (x ∷ xs) ys =
    let ih = of_number-append n xs ys in
    elim (Bool-cases (x.number == n)) [
      | inl same ↦ rw same (ap (◌∷◌ x) ih)
      | inr other ↦ rw other ih
    ]

keep_path :
    (n : ℕ) (os : List CoapOption)
    → (n == 11) ≡ true
    → of_number n (without_path os) ≡ (if n == 11 then [] else of_number n os)
    → of_number n (without_path os) ≡ []
keep_path n os path ih = ih ∙ rw path refl

keep_other :
    (n : ℕ) (os : List CoapOption)
    → (n == 11) ≡ false
    → of_number n (without_path os) ≡ (if n == 11 then [] else of_number n os)
    → of_number n (without_path os) ≡ of_number n os
keep_other n os other ih = ih ∙ rw other refl

of_number-without_path :
    (n : ℕ) (os : List CoapOption)
    → of_number n (without_path os) ≡ (if n == 11 then [] else of_number n os)
unfolding of_number without_path
of_number-without_path n [] = elim (Bool-cases (n == 11)) [
  | inl path ↦ rw path refl
  | inr other ↦ rw other refl
]
of_number-without_path n (o ∷ os) =
    let ih = of_number-without_path n os in
    elim (Bool-cases (n == 11)) [
      | inl path ↦
          let rest = keep_path n os path ih in
          elim (Bool-cases (o.number == 11)) [
            | inl dropped ↦ rw (path, dropped) rest
            | inr kept ↦
                let differ : (o.number == n) ≡ false = ground arith in rw (path, kept, differ) rest
          ]
      | inr other ↦
          let rest = keep_other n os other ih in
          elim (Bool-cases (o.number == 11)) [
            | inl dropped ↦
                let differ : (o.number == n) ≡ false = ground arith in
                rw (other, dropped, differ) rest
            | inr kept ↦ elim (Bool-cases (o.number == n)) [
              | inl same ↦ rw (other, kept, same) (ap (◌∷◌ o) rest)
              | inr differ ↦ rw (other, kept, differ) rest
            ]
          ]
    ]

of_number-path_as_options :
    (n : ℕ) (segments : List Bytes)
    → of_number n (path_as_options segments) ≡ (if n == 11 then path_as_options segments else [])
unfolding of_number path_as_options
of_number-path_as_options n [] = elim (Bool-cases (n == 11)) [
  | inl path ↦ rw path refl
  | inr other ↦ rw other refl
]
of_number-path_as_options n (segment ∷ segments) =
    let ih = of_number-path_as_options n segments in
    elim (Bool-cases (n == 11)) [
      | inl path ↦
          let same : (11 == n) ≡ true = ground arith in
          rw (path, same) (ap (◌∷◌ (record { number = 11; value = segment })) (ih ∙ rw path refl))
      | inr other ↦
          let differ : (11 == n) ≡ false = ground arith in rw (other, differ) (ih ∙ rw other refl)
    ]

of_number-replaced :
    (n : ℕ) (os : List CoapOption) (segments : List Bytes)
    → of_number n (without_path os ++ path_as_options segments)
      ≡ (if n == 11 then path_as_options segments else of_number n os)
of_number-replaced n os segments =
    let kept = of_number-without_path n os in
    let added = of_number-path_as_options n segments in
    of_number-append n (without_path os) (path_as_options segments) ∙ (elim (Bool-cases (n == 11)) [
      | inl path ↦ rw (kept, added, path) refl
      | inr other ↦ rw (kept, added, other) (append-nil (of_number n os))
    ])

filled_name : (segment text : Bytes) → IsName segment → is_empty (segment ++ text) ≡ false
unfolding is_empty
filled_name [] text h = absurd (omega arith)
filled_name (b ∷ segment) text h = refl

-- A path of segments that are texts, not empty and without a slash, is set on any message, given
-- with a slash in front or without. It is read back with the slash. The message then has as its
-- Uri-Path options, number 11, the segments in their order; its options of every other number and
-- the rest of it are as they were.
pub uri_path-set_uri_path :
    (m : CoapMessage) (path segment : Bytes) (segments : List Bytes)
    → All IsName (segment ∷ segments)
    → IsPath path (segment ∷ segments)
    → (after : CoapMessage) × (set_uri_path m path ≡ (after, ok tt))
      × (uri_path after ≡ ok (some (slashed (segment ∷ segments))))
      × ((n : ℕ)
          → of_number n after.options
            ≡ (if n == 11 then path_as_options (segment ∷ segments) else of_number n m.options))
      × (after ≡ record m { options = after.options })
unfolding with_options
uri_path-set_uri_path m path segment segments names is =
    let text : Bytes = segment ++ slashed segments in
    let trimmed : strip_slash path ≡ text = strip_slash-IsPath path segment segments names.0 is in
    let cut : split (strip_slash path) ≡ segment ∷ segments =
      ap split trimmed ∙ split-slashed segment segments names in
    let filled : is_empty (strip_slash path) ≡ false =
      ap is_empty trimmed ∙ filled_name segment (slashed segments) names.0 in
    let are : All IsSegment (split (strip_slash path)) =
      rw cut (All-IsSegment (segment ∷ segments) names) in
    let (after, set, read) = uri_path-set_trimmed m path filled are in
    let options = without_path m.options ++ path_as_options (segment ∷ segments) in
    let after_is : after ≡ with_options m options =
      ap (λ r. r.0) (sym set ∙ set_uri_path-options m path filled are)
      ∙ ap (λ l. with_options m (without_path m.options ++ options_of l)) cut
      ∙ ap (λ l. with_options m (without_path m.options ++ l))
          (options_of-path_as_options (segment ∷ segments)) in
    (
      after,
      set,
      read ∙ ap (λ t. ok (some (0x2f ∷ t))) trimmed ∙ (unfold slashed in refl),
      λ n.
          ap (λ (a : CoapMessage). of_number n a.options) after_is
          ∙ of_number-replaced n m.options (segment ∷ segments),
      after_is ∙ ap (λ (a : CoapMessage). record m { options = a.options }) (sym after_is),
    )
