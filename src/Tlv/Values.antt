-- ===== src/Tlv/Values.antt =====
-- `last_value`, `push` and `set_last`.
use meshcop_rs.Base.{
  ℕ, ◌≡◌, ◌≢◌, refl, Option, none, some, List, [], ◌∷◌, ◌++◌, arith, ◌==◌, ◌+◌, if◌then◌else◌, All,
  All-append, length, Bool-cases, inl, inr, ◌<◌,
}
use meshcop_rs.Base.Bytes.{Bytes}
use meshcop_rs.Tlv.RoundTrip.{Fits}
use meshcop_rs.Tlv.{TlvEntry, TlvSet, push, find_ty, last_value, retain_ne, set_last}
use mathlib.Core.List.{reverse, reverse-cons}
use mathlib.Core.Option

-- The value of the last entry of a type, front to back: a later entry overrides an earlier one.
pub overriding : ℕ → List TlvEntry → Option Bytes → Option Bytes
overriding ty [] found = found
overriding ty (entry ∷ entries) found =
    overriding ty entries (if entry.ty == ty then some entry.value else found)

or_else : Option Bytes → Option Bytes → Option Bytes
or_else none found = found
or_else (some v) found = some v

value_of : ℕ → List TlvEntry → Option Bytes
value_of ty entries = Option.map (λ entry. entry.value) (find_ty ty entries)

value_of-append :
    (ty : ℕ) (xs ys : List TlvEntry)
    → value_of ty (xs ++ ys) ≡ or_else (value_of ty xs) (value_of ty ys)
unfolding value_of find_ty or_else
value_of-append ty [] ys = refl
value_of-append ty (x ∷ xs) ys = ground (arith, value_of-append ty xs ys)

overriding-or_else :
    (ty : ℕ) (entries : List TlvEntry) (found : Option Bytes)
    → overriding ty entries found ≡ or_else (value_of ty (reverse entries)) found
unfolding overriding value_of find_ty or_else
overriding-or_else ty [] found = refl
overriding-or_else ty (x ∷ xs) found = rw (reverse-cons x xs) (
    ground (
      arith,
      value_of-append ty (reverse xs) (x ∷ []),
      overriding-or_else ty xs found,
      overriding-or_else ty xs (some x.value),
    ))

-- `last_value` answers with the entry of the type that stands last.
pub last_value-overriding :
    (set : TlvSet) (ty : ℕ) → last_value set ty ≡ overriding ty set.entries none
unfolding last_value
last_value-overriding set ty =
    unfold value_of or_else in ground (arith, overriding-or_else ty set.entries none)

overriding-append :
    (ty : ℕ) (xs ys : List TlvEntry) (found : Option Bytes)
    → overriding ty (xs ++ ys) found ≡ overriding ty ys (overriding ty xs found)
unfolding overriding
overriding-append ty [] ys found = refl
overriding-append ty (x ∷ xs) ys found = overriding-append ty xs ys _

overriding-retain_ne :
    (ty other : ℕ) (entries : List TlvEntry) (found : Option Bytes)
    → ty ≢ other
    → overriding other (retain_ne ty entries) found ≡ overriding other entries found
unfolding overriding retain_ne
overriding-retain_ne ty other [] found h = refl
overriding-retain_ne ty other (x ∷ xs) found h =
    ground (
      arith,
      overriding-retain_ne ty other xs found,
      overriding-retain_ne ty other xs (some x.value),
    )

overriding-set_last :
    (set : TlvSet) (ty : ℕ) (value : Bytes) (other : ℕ)
    → overriding other (set_last set ty value).entries none
      ≡ (if ty == other then some value else overriding other set.entries none)
unfolding set_last
overriding-set_last set ty value other =
    unfold overriding in
    ground (
      arith,
      overriding-append other (retain_ne ty set.entries) (record { ty = ty; value = value } ∷ [])
          none,
      overriding-retain_ne ty other set.entries none,
    )

-- After `set_last` the type has the new value, and every other type the value that it had.
pub last_value-set_last :
    (set : TlvSet) (ty : ℕ) (value : Bytes) (other : ℕ)
    → last_value (set_last set ty value) other
      ≡ (if ty == other then some value else last_value set other)
last_value-set_last set ty value other = ground (
  arith,
  last_value-overriding (set_last set ty value) other,
  last_value-overriding set other,
  overriding-set_last set ty value other,
)

retain_ne-Fits :
    (ty : ℕ) (entries : List TlvEntry) → All Fits entries → All Fits (retain_ne ty entries)
unfolding retain_ne
retain_ne-Fits ty [] h = tt
retain_ne-Fits ty (entry ∷ entries) h = elim (Bool-cases (entry.ty == ty)) [
  | inl same ↦ rw same (retain_ne-Fits ty entries h.1)
  | inr other ↦ rw other (h.0, retain_ne-Fits ty entries h.1)
]

-- A set keeps its encoding when a short value is set.
pub set_last-Fits :
    (set : TlvSet) (ty : ℕ) (value : Bytes)
    → length value < 0x1_0000
    → All Fits set.entries
    → All Fits (set_last set ty value).entries
unfolding set_last
set_last-Fits set ty value short h =
    All-append Fits (retain_ne ty set.entries) _ (retain_ne-Fits ty set.entries h) (short, tt)

-- How many entries have the type.
pub count : ℕ → List TlvEntry → ℕ
count ty [] = 0
count ty (entry ∷ entries) = (if entry.ty == ty then 1 else 0) + count ty entries

count-append : (ty : ℕ) (xs ys : List TlvEntry) → count ty (xs ++ ys) ≡ count ty xs + count ty ys
unfolding count
count-append ty [] ys = omega arith
count-append ty (x ∷ xs) ys = omega (arith, count-append ty xs ys)

count-retain_ne : (ty : ℕ) (xs : List TlvEntry) → count ty (retain_ne ty xs) ≡ 0
unfolding count retain_ne
count-retain_ne ty [] = refl
count-retain_ne ty (x ∷ xs) = ground (arith, count-retain_ne ty xs)

-- `set_last` leaves exactly one entry of the type.
pub count-set_last :
    (set : TlvSet) (ty : ℕ) (value : Bytes) → count ty (set_last set ty value).entries ≡ 1
unfolding set_last
count-set_last set ty value =
    unfold count in
    ground (
      arith,
      count-append ty (retain_ne ty set.entries) (record { ty = ty; value = value } ∷ []),
      count-retain_ne ty set.entries,
    )

-- After `push` the type of the new entry has its value, and no other type changes.
pub last_value-push :
    (set : TlvSet) (entry : TlvEntry) (other : ℕ)
    → last_value (push set entry) other
      ≡ (if entry.ty == other then some entry.value else last_value set other)
unfolding push
last_value-push set entry other =
    unfold overriding in
    ground (
      arith,
      last_value-overriding (push set entry) other,
      last_value-overriding set other,
      overriding-append other set.entries (entry ∷ []) none,
    )

-- Removing a type and pushing a value of it sets the value.
pub push-retain_ne :
    (set : TlvSet) (ty : ℕ) (value : Bytes)
    → push (record { entries = retain_ne ty set.entries }) (record { ty = ty; value = value })
      ≡ set_last set ty value
unfolding push set_last
push-retain_ne set ty value = refl
