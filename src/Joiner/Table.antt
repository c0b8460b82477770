-- ===== src/Joiner/Table.antt =====
-- joiner.rs: which PSKd the table gives to a joiner.
use meshcop_rs.Base.{
  ◌≡◌, refl, sym, ap, ◌∙◌, Bool, true, false, Bool-cases, inl, inr, List, [], ◌∷◌, ◌++◌, arith,
  if◌then◌else◌, Option, none, some,
}
use meshcop_rs.Base.Bytes.{Bytes, bytes_eq, bytes_eq_refl, bytes_eq-true}
use meshcop_rs.Joiner.{
  StaticJoinerHandler, without_joiner, enable_joiner_id, disable_joiner_id, enable_all, disable_all,
  find_pskd, or_wildcard, joiner_pskd,
}

kept_or_none :
    (b : Bool) (own rest : Option Bytes)
    → (if b then none else rest) ≡ (if b then none else if b then own else rest)
kept_or_none true own rest = refl
kept_or_none false own rest = refl

module _ (joiner_id other : Bytes) where
  find_pskd-append_one :
      (entries : List (Bytes × Bytes)) (pskd : Bytes)
      → find_pskd other (entries ++ ((joiner_id, pskd) ∷ []))
        ≡ or_wildcard
            (find_pskd other entries)
            (if bytes_eq joiner_id other then some pskd else none)
  unfolding find_pskd or_wildcard
  find_pskd-append_one [] pskd = refl
  find_pskd-append_one (entry ∷ entries) pskd = elim (Bool-cases (bytes_eq entry.0 other)) [
    | inl here ↦ rw here refl
    | inr later ↦ rw later (find_pskd-append_one entries pskd)
  ]

  find_pskd-without_joiner :
      (entries : List (Bytes × Bytes))
      → find_pskd other (without_joiner joiner_id entries)
        ≡ (if bytes_eq joiner_id other then none else find_pskd other entries)
  unfolding find_pskd without_joiner
  find_pskd-without_joiner [] = ground arith
  find_pskd-without_joiner (entry ∷ entries) =
      let rest = find_pskd-without_joiner entries in
      elim (Bool-cases (bytes_eq entry.0 joiner_id)) [
        | inl gone ↦
            let is : bytes_eq entry.0 other ≡ bytes_eq joiner_id other =
              ap (λ (id : Bytes). bytes_eq id other) (bytes_eq-true entry.0 joiner_id gone) in
            rw (gone, rest, is) (kept_or_none (bytes_eq joiner_id other) (some entry.1) _)
        | inr kept ↦ elim (Bool-cases (bytes_eq joiner_id other)) [
          | inr not_here ↦ rw (kept, not_here) (rw rest (rw not_here refl))
          | inl here ↦
              let differs : bytes_eq entry.0 other ≡ false =
                elim (Bool-cases (bytes_eq entry.0 other)) [
                  | inr no_match ↦ no_match
                  | inl both ↦
                      let same : entry.0 ≡ joiner_id =
                        bytes_eq-true entry.0 other both
                        ∙ sym (bytes_eq-true joiner_id other here) in
                      let equal : bytes_eq entry.0 joiner_id ≡ true =
                        ap (λ (id : Bytes). bytes_eq id joiner_id) same ∙ bytes_eq_refl joiner_id in
                      absurd (ground arith)
                ] in
              rw (kept, here, differs) (rw rest (rw here refl))
        ]
      ]

-- An enabled joiner gets its own PSKd, a disabled one that of the wildcard, and every other joiner
-- what it got before; the wildcard serves exactly the joiners without an own PSKd.
pub joiner_pskd-table :
    (h : StaticJoinerHandler) (joiner_id other pskd : Bytes)
    → (joiner_pskd (enable_joiner_id h joiner_id pskd) other
        ≡ (if bytes_eq joiner_id other then some pskd else joiner_pskd h other))
      × (joiner_pskd (disable_joiner_id h joiner_id) other
          ≡ (if bytes_eq joiner_id other then h.wildcard_pskd else joiner_pskd h other))
      × (joiner_pskd (enable_all h pskd) other
          ≡ or_wildcard (joiner_pskd (disable_all h) other) (some pskd))
unfolding joiner_pskd enable_joiner_id disable_joiner_id enable_all disable_all or_wildcard
joiner_pskd-table h joiner_id other pskd =
    let left = find_pskd-without_joiner joiner_id other h.by_joiner_id in
    (
      rw (find_pskd-append_one joiner_id other (without_joiner joiner_id h.by_joiner_id) pskd, left)
          (enabled (bytes_eq joiner_id other) (find_pskd other h.by_joiner_id)),
      rw left (disabled (bytes_eq joiner_id other) (find_pskd other h.by_joiner_id)),
      widened (find_pskd other h.by_joiner_id),
    )
  where
    enabled :
        (b : Bool) (own : Option Bytes)
        → or_wildcard
            (or_wildcard (if b then none else own) (if b then some pskd else none))
            h.wildcard_pskd
          ≡ (if b then some pskd else or_wildcard own h.wildcard_pskd)
    enabled true own = refl
    enabled false none = refl
    enabled false (some p) = refl

    disabled :
        (b : Bool) (own : Option Bytes)
        → or_wildcard (if b then none else own) h.wildcard_pskd
          ≡ (if b then h.wildcard_pskd else or_wildcard own h.wildcard_pskd)
    disabled true own = refl
    disabled false own = refl

    widened :
        (own : Option Bytes)
        → or_wildcard own (some pskd) ≡ or_wildcard (or_wildcard own none) (some pskd)
    widened none = refl
    widened (some p) = refl
