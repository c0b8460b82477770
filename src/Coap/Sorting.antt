-- ===== src/Coap/Sorting.antt =====
-- coap.rs, the order in which `encode` writes the options.
use meshcop_rs.Base.{
  ℕ, suc, ◌≤◌, ◌≡◌, refl, ap, ◌∙◌, true, false, Bool-cases, inl, inr, List, [], ◌∷◌, map, arith,
  ◌==◌, leb, if◌then◌else◌, length, All,
}
use meshcop_rs.Base.Bytes.{IsU16}
use meshcop_rs.Coap.{CoapOption, enumerate, key_leb, insert, sort, sorted_options}
use meshcop_rs.Coap.Options.{Ascending, all_fit}

abbrev option_of : ℕ × CoapOption → CoapOption
option_of x = x.1

abbrev pub Numbered : CoapOption → Type 0
Numbered o = IsU16 o.number

pub Ascending-Numbered : (last : ℕ) (os : List CoapOption) → Ascending last os → All Numbered os
unfolding Ascending
Ascending-Numbered last [] h = tt
Ascending-Numbered last (o ∷ os) h = (h.1, Ascending-Numbered o.number os h.2)

-- An option is put where the numbers still ascend.
Ascending-insert :
    (last : ℕ) (x : ℕ × CoapOption) (ys : List (ℕ × CoapOption))
    → last ≤ (option_of x).number
    → IsU16 (option_of x).number
    → Ascending last (map option_of ys)
    → Ascending last (map option_of (insert x ys))
unfolding Ascending insert key_leb
Ascending-insert last x [] h k asc = (h, k, tt)
Ascending-insert last x (y ∷ ys) h k asc = elim (Bool-cases (key_leb x y)) [
  | inl before ↦ rw before (h, k, (ground arith, asc.1, asc.2))
  | inr behind ↦
      rw behind (asc.0, asc.1, Ascending-insert (option_of y).number x ys (ground arith) k asc.2)
]

Ascending-sort :
    (idx : ℕ) (os : List CoapOption)
    → All Numbered os
    → Ascending 0 (map option_of (sort (enumerate idx os)))
unfolding sort enumerate Ascending
Ascending-sort idx [] h = tt
Ascending-sort idx (o ∷ os) h =
    Ascending-insert 0 (idx, o) (sort (enumerate (suc idx) os)) (omega arith) h.0
      (Ascending-sort (suc idx) os h.1)

-- What is written ascends.
pub sorted_options-Ascending :
    (os : List CoapOption) → All Numbered os → Ascending 0 (sorted_options os)
unfolding sorted_options
sorted_options-Ascending os h = Ascending-sort 0 os h

-- The options of one number, in the order of the list.
unfoldable pub of_number : ℕ → List CoapOption → List CoapOption
of_number n [] = []
of_number n (o ∷ os) = let rest = of_number n os in if o.number == n then o ∷ rest else rest

abbrev Above : ℕ → ℕ × CoapOption → Type 0
Above idx x = idx ≤ x.0

Above-insert :
    (idx : ℕ) (x : ℕ × CoapOption) (ys : List (ℕ × CoapOption))
    → idx ≤ x.0
    → All (Above idx) ys
    → All (Above idx) (insert x ys)
unfolding insert
Above-insert idx x [] h k = (h, tt)
Above-insert idx x (y ∷ ys) h k = elim (Bool-cases (key_leb x y)) [
  | inl before ↦ rw before (h, k)
  | inr behind ↦ rw behind (k.0, Above-insert idx x ys h k.1)
]

Above-sort : (i j : ℕ) (os : List CoapOption) → i ≤ j → All (Above i) (sort (enumerate j os))
unfolding sort enumerate
Above-sort i j [] h = tt
Above-sort i j (o ∷ os) h =
    Above-insert i (j, o) (sort (enumerate (suc j) os)) h (Above-sort i (suc j) os (omega arith))

of_number-insert :
    (n idx : ℕ) (o : CoapOption) (ys : List (ℕ × CoapOption))
    → All (Above (suc idx)) ys
    → of_number n (map option_of (insert (idx, o) ys)) ≡ of_number n (o ∷ map option_of ys)
unfolding of_number insert key_leb
of_number-insert n idx o [] h = refl
of_number-insert n idx o (y ∷ ys) h = elim (Bool-cases (key_leb (idx, o) y)) [
  | inl before ↦ rw before
  | inr behind ↦ let ih = of_number-insert n idx o ys h.1 in rw behind (ground (arith, ih))
]

of_number-sort :
    (n idx : ℕ) (os : List CoapOption)
    → of_number n (map option_of (sort (enumerate idx os))) ≡ of_number n os
unfolding of_number sort enumerate
of_number-sort n idx [] = refl
of_number-sort n idx (o ∷ os) =
    of_number-insert n idx o (sort (enumerate (suc idx) os))
      (Above-sort (suc idx) (suc idx) os (omega arith))
    ∙ ap (λ l. if o.number == n then o ∷ l else l) (of_number-sort n (suc idx) os)

-- For each option number, what is written holds the message's options of that number, all of them
-- and in the message's order.
pub of_number-sorted_options :
    (n : ℕ) (os : List CoapOption) → of_number n (sorted_options os) ≡ of_number n os
unfolding sorted_options
of_number-sorted_options n os = of_number-sort n 0 os

insert-first :
    (idx : ℕ) (o : CoapOption) (os : List CoapOption)
    → Ascending o.number os
    → insert (idx, o) (enumerate (suc idx) os) ≡ (idx, o) ∷ enumerate (suc idx) os
unfolding insert enumerate key_leb Ascending
insert-first idx o [] h = refl
insert-first idx o (p ∷ os) h =
    let test : key_leb (idx, o) (suc idx, p) ≡ true = ground arith in rw test

sort-enumerate :
    (idx last : ℕ) (os : List CoapOption)
    → Ascending last os
    → sort (enumerate idx os) ≡ enumerate idx os
unfolding sort enumerate Ascending
sort-enumerate idx last [] h = refl
sort-enumerate idx last (o ∷ os) h =
    ap (insert (idx, o)) (sort-enumerate (suc idx) o.number os h.2) ∙ insert-first idx o os h.2

map-enumerate : (idx : ℕ) (os : List CoapOption) → map option_of (enumerate idx os) ≡ os
unfolding enumerate
map-enumerate idx [] = refl
map-enumerate idx (o ∷ os) = ap (◌∷◌ o) (map-enumerate (suc idx) os)

-- Options that ascend are written as they stand.
pub sorted_options-id : (os : List CoapOption) → Ascending 0 os → sorted_options os ≡ os
unfolding sorted_options
sorted_options-id os h = ap (map option_of) (sort-enumerate 0 0 os h) ∙ map-enumerate 0 os

all_fit-insert :
    (x : ℕ × CoapOption) (ys : List (ℕ × CoapOption))
    → all_fit (map option_of (insert x ys)) ≡ all_fit (option_of x ∷ map option_of ys)
unfolding all_fit insert
all_fit-insert x [] = refl
all_fit-insert x (y ∷ ys) = elim (Bool-cases (key_leb x y)) [
  | inl before ↦ rw before
  | inr behind ↦ rw behind (ground (arith, all_fit-insert x ys))
]

all_fit-sort :
    (idx : ℕ) (os : List CoapOption)
    → all_fit (map option_of (sort (enumerate idx os))) ≡ all_fit os
unfolding all_fit sort enumerate
all_fit-sort idx [] = refl
all_fit-sort idx (o ∷ os) =
    all_fit-insert (idx, o) (sort (enumerate (suc idx) os))
    ∙ ap (λ b. if leb (length o.value) 0xffff then b else false) (all_fit-sort (suc idx) os)

pub all_fit-sorted_options : (os : List CoapOption) → all_fit (sorted_options os) ≡ all_fit os
unfolding sorted_options
all_fit-sorted_options os = all_fit-sort 0 os

-- `sorted` holds the same options in the order of their numbers, and those of one number, whichever
-- it is, in the order that they had: a stable sorting, of which there is only one.
abbrev pub SortsTo : List CoapOption → List CoapOption → Type 0
SortsTo options sorted = Ascending 0 sorted × ((n : ℕ) → of_number n sorted ≡ of_number n options)

pub sorted_options-SortsTo :
    (os : List CoapOption) → All Numbered os → SortsTo os (sorted_options os)
sorted_options-SortsTo os h = (sorted_options-Ascending os h, λ n. of_number-sorted_options n os)
