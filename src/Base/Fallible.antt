-- ===== src/Base/Fallible.antt =====
-- Rust's `Result` and the `?` operator. `stuck` is no Rust value: a loop that is modelled on fuel
-- ran out of it, or an index was out of bounds.
use mathlib.Core.Path.{◌≡◌, refl}
use mathlib.Core.Logic.{◌≢◌, ◌⊎◌, inl, inr}
use mathlib.Core.Bool.{Bool, true, false}
use mathlib.Core.Option.{Option, none, some}

pub data Result {ℓ} (E : Type 0) (A : Type ℓ) : Type ℓ where
  ok : A → Result E A
  err : E → Result E A
  stuck : Result E A

infixl 5 ◌>>=◌ ◌>>◌
abbrev pub ◌>>=◌ {ℓ κ} :
    {E : Type 0} {A : Type ℓ} {B : Type κ} → Result E A → (A → Result E B) → Result E B
ok a >>= f = f a
err e >>= f = err e
stuck >>= f = stuck

abbrev pub ◌>>◌ {ℓ} : {E : Type 0} {B : Type ℓ} → Result E (Unit {0}) → Result E B → Result E B
m >> k = m >>= λ _. k

-- An early `return Err(e)` unless the test holds.
abbrev pub guard : {E : Type 0} → Bool → E → Result E (Unit {0})
guard true e = ok tt
guard false e = err e

abbrev pub ok_or {ℓ} : {E : Type 0} {A : Type ℓ} → Option A → E → Result E A
ok_or none e = err e
ok_or (some a) e = ok a

abbrev pub map_err {ℓ} : {E F : Type 0} {A : Type ℓ} → (E → F) → Result E A → Result F A
map_err f (ok a) = ok a
map_err f (err e) = err (f e)
map_err f stuck = stuck

-- A result that is not `stuck` is a value or an error, with the equation kept.
pub Result-cases {ℓ} :
    {E : Type 0} {A : Type ℓ} (result : Result E A)
    → result ≢ stuck
    → ((value : A) × (result ≡ ok value)) ⊎ ((error : E) × (result ≡ err error))
Result-cases stuck returns = absurd (returns refl)
Result-cases (err error) returns = inr (error, refl)
Result-cases (ok value) returns = inl (value, refl)

-- What stood before a success succeeded.
pub >>=-ok {ℓ κ} :
    {E : Type 0} {A : Type ℓ} {B : Type κ} (m : Result E A) (f : A → Result E B) {b : B}
    → (m >>= f) ≡ ok b
    → (a : A) × (m ≡ ok a) × (f a ≡ ok b)
>>=-ok (ok a) f x = (a, refl, x)
>>=-ok (err e) f x = cc
>>=-ok stuck f x = cc

pub guard-ok {κ} :
    {E : Type 0} {B : Type κ} (test : Bool) (e : E) (rest : Result E B) {b : B}
    → (guard test e >> rest) ≡ ok b
    → (test ≡ true) × (rest ≡ ok b)
guard-ok true e rest x = (refl, x)
guard-ok false e rest x = cc

pub ok_or-ok {ℓ} :
    {E : Type 0} {A : Type ℓ} (o : Option A) (e : E) {a : A} → ok_or o e ≡ ok a → o ≡ some a
ok_or-ok none e x = cc
ok_or-ok (some a) e x = cc

-- `Option::map` of a fallible function, and `transpose`.
abbrev pub transpose_map {ℓ κ} :
    {E : Type 0} {A : Type ℓ} {B : Type κ} → (A → Result E B) → Option A → Result E (Option B)
transpose_map f none = ok none
transpose_map f (some a) = f a >>= λ b. ok (some b)
