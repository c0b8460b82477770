-- ===== src/Dtls/Flight/Renumbering.antt =====
-- flight.rs: the numbers that a flight gets when it is sent again.
use meshcop_rs.Base.{
  ℕ, ◌+◌, ◌%◌, ◌^◌, ◌<◌, ◌≡◌, refl, ap₂, Bool-cases, inl, inr, List, [], ◌∷◌, map, arith, ◌==◌,
  if◌then◌else◌, length,
}
use meshcop_rs.Dtls.Record.{DtlsRecord}
use meshcop_rs.Dtls.Flight.{
  take_record_sequence, with_sequence, renumber_one, renumber_epoch_zero_flight,
}

-- The records of epoch 0 in their order.
unfoldable pub plaintext_records : List DtlsRecord → List DtlsRecord
plaintext_records [] = []
plaintext_records (r ∷ rs) =
    let rest = plaintext_records rs in if r.header.epoch == 0 then r ∷ rest else rest

-- `count` numbers from `next` on.
pub numbers_from : ℕ → List DtlsRecord → List ℕ
numbers_from next [] = []
numbers_from next (r ∷ rs) = next ∷ numbers_from (next + 1) rs

abbrev pub sequence_of : DtlsRecord → ℕ
sequence_of r = r.header.sequence_number

-- While the counter does not reach 2 ^ 64, the plaintext records of the flight get the numbers from
-- the counter on, each one its own and in their order, and the counter ends behind them.
pub renumber-numbers_from :
    (rs : List DtlsRecord) (next : ℕ)
    → next + length (plaintext_records rs) < 2 ^ 64
    → (map sequence_of (plaintext_records (renumber_epoch_zero_flight rs next).0)
        ≡ numbers_from next (plaintext_records rs))
      × ((renumber_epoch_zero_flight rs next).1 ≡ next + length (plaintext_records rs))
unfolding renumber_epoch_zero_flight renumber_one take_record_sequence plaintext_records
    numbers_from with_sequence
renumber-numbers_from [] next h = (refl, omega arith)
renumber-numbers_from (r ∷ rs) next h = elim (Bool-cases (r.header.epoch == 0)) [
  | inl plain ↦
      let wraps : (next + 1) % 2 ^ 64 ≡ next + 1 = ground arith in
      let ih = renumber-numbers_from rs (next + 1) (ground arith) in
      rw (plain, wraps, plain, ih.0, ih.1) (refl, omega arith)
  | inr secret ↦
      let ih = renumber-numbers_from rs next (ground arith) in
      rw (secret, secret, ih.0, ih.1) (refl, refl)
]

-- The record, but for the number of a plaintext record.
pub masked : DtlsRecord → DtlsRecord
masked r = if r.header.epoch == 0 then with_sequence r 0 else r

masked-renumber_one : (r : DtlsRecord) (next : ℕ) → masked (renumber_one r next).0 ≡ masked r
unfolding masked renumber_one take_record_sequence with_sequence
masked-renumber_one r next = elim (Bool-cases (r.header.epoch == 0)) [
  | inl plain ↦ rw (plain, plain) refl
  | inr secret ↦ rw (secret, secret) refl
]

-- Nothing but the sequence numbers of plaintext records changes: forgetting these, the flight is
-- the same, record for record, and every protected record is as it was.
pub renumber-masked :
    (rs : List DtlsRecord) (next : ℕ)
    → map masked (renumber_epoch_zero_flight rs next).0 ≡ map masked rs
unfolding renumber_epoch_zero_flight
renumber-masked [] next = refl
renumber-masked (r ∷ rs) next =
    ap₂ ◌∷◌ (masked-renumber_one r next) (renumber-masked rs (renumber_one r next).1)
