-- ===== src/Exchange/Search.antt =====
-- exchange.rs: what `position` and `remove` find and leave.
use meshcop_rs.Base.{
  ◌≡◌, refl, sym, ◌∙◌, Bool, true, false, Bool-cases, inl, inr, List, [], ◌∷◌, ◌++◌, Option, none,
  some, All, Option-cases, arith,
}
use meshcop_rs.Exchange.{take_first}

module _ {ℓ} {A : Type ℓ} (test : A → Bool) where
  -- The first element that passes, and the elements around it.
  abbrev pub Splits : List A → A → List A → Type ℓ
  Splits xs y ys =
      (front : List A) × (back : List A) × (xs ≡ front ++ (y ∷ back))
      × (ys ≡ front ++ back)
      × (test y ≡ true)
      × All (λ x. test x ≡ false) front

  pub take_first-Splits :
      (xs : List A) (y : A) (ys : List A) → take_first test xs ≡ some (y, ys) → Splits xs y ys
  unfolding take_first
  take_first-Splits [] y ys e = cc
  take_first-Splits (x ∷ xs) y ys e = elim (Bool-cases (test x)) [
    | inl t ↦
        let found : take_first test (x ∷ xs) ≡ some (x, xs) = rw t refl in
        let same : Path (Option (A × List A)) (some (x, xs)) (some (y, ys)) = sym found ∙ e in
        ([], xs, cc, cc, cc, tt)
    | inr f ↦ elim (Option-cases (take_first test xs)) [
      | inl gone ↦ absurd (ground arith)
      | inr ((z, zs), found) ↦
          let step : take_first test (x ∷ xs) ≡ some (z, x ∷ zs) = rw (f, found) refl in
          let same : Path (Option (A × List A)) (some (z, x ∷ zs)) (some (y, ys)) = sym step ∙ e in
          let (front, back, xs_is, zs_is, passes, before) = take_first-Splits xs z zs found in
          (x ∷ front, back, cc, cc, cc, (f, before))
    ]
  ]

  pub take_first-none : (xs : List A) → take_first test xs ≡ none → All (λ x. test x ≡ false) xs
  unfolding take_first
  take_first-none [] e = tt
  take_first-none (x ∷ xs) e = elim (Bool-cases (test x)) [
    | inl t ↦ absurd (ground arith)
    | inr f ↦ elim (Option-cases (take_first test xs)) [
      | inl gone ↦ (f, take_first-none xs gone)
      | inr (found, is) ↦ absurd (ground arith)
    ]
  ]

  pub take_first-at :
      (front : List A) (y : A) (back : List A)
      → All (λ x. test x ≡ false) front
      → test y ≡ true
      → take_first test (front ++ (y ∷ back)) ≡ some (y, front ++ back)
  unfolding take_first
  take_first-at [] y back h t = rw t refl
  take_first-at (x ∷ front) y back h t = rw (h.0, take_first-at front y back h.1 t) refl
