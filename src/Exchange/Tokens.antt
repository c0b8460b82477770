-- ===== src/Exchange/Tokens.antt =====
-- exchange.rs: the tokens of the exchanges in flight, and drawing another one.
use meshcop_rs.Base.{
  ◌≡◌, ◌≢◌, refl, sym, ap, ◌∙◌, true, false, Bool-cases, inl, inr, List, [], ◌∷◌, ◌++◌, Option,
  some, All, arith, All-append,
}
use meshcop_rs.Base.Bytes.{Bytes, bytes_eq, bytes_eq_refl}
use meshcop_rs.Exchange.{Pending, any_pending, is_in_use, unused_token}

unfoldable pub tokens : List Pending → List Bytes
tokens [] = []
tokens (p ∷ ps) = p.request.token ∷ tokens ps

unfoldable pub IsFresh : Bytes → List Bytes → Type 0
IsFresh token ts = All (λ other. other ≢ token) ts

unfoldable pub HasDistinct : List Bytes → Type 0
HasDistinct [] = Unit {0}
HasDistinct (t ∷ ts) = IsFresh t ts × HasDistinct ts

-- A token that is not in use differs from every token in flight.
is_in_use-IsFresh :
    (token : Bytes) (ps : List Pending) → is_in_use token ps ≡ false → IsFresh token (tokens ps)
unfolding is_in_use any_pending tokens IsFresh
is_in_use-IsFresh token [] h = tt
is_in_use-IsFresh token (p ∷ ps) h = elim (Bool-cases (bytes_eq p.request.token token)) [
  | inl same ↦ absurd (ground arith)
  | inr differs ↦ (
    λ e.
        let equal : bytes_eq p.request.token token ≡ true = rw e (bytes_eq_refl token) in
        absurd (ground arith),
    is_in_use-IsFresh token ps (ground arith),
  )
]

pub unused_token-IsFresh :
    (draws : List Bytes) (ps : List Pending) (token : Bytes) (rest : List Bytes)
    → unused_token draws ps ≡ some (token, rest)
    → IsFresh token (tokens ps)
unfolding unused_token
unused_token-IsFresh [] ps token rest e = cc
unused_token-IsFresh (draw ∷ draws) ps token rest e = elim (Bool-cases (is_in_use draw ps)) [
  | inl used ↦ unused_token-IsFresh draws ps token rest (ground arith)
  | inr free ↦
      let step : unused_token (draw ∷ draws) ps ≡ some (draw, draws) = rw free refl in
      let same : Path (Option (Bytes × List Bytes)) (some (draw, draws)) (some (token, rest)) =
        sym step ∙ e in
      let is : draw ≡ token = cc in rw (sym is) (is_in_use-IsFresh draw ps free)
]

-- The loop ends as soon as the random source gives a token that no exchange uses, with a token that
-- differs from that of every exchange in flight.
pub unused_token_total :
    (before : List Bytes) (draw : Bytes) (after : List Bytes) (ps : List Pending)
    → is_in_use draw ps ≡ false
    → (token : Bytes) × (rest : List Bytes) × (unused_token (before ++ (draw ∷ after)) ps
        ≡ some (token, rest))
      × IsFresh token (tokens ps)
unfolding unused_token
unused_token_total [] draw after ps free =
    (draw, after, rw free refl, is_in_use-IsFresh draw ps free)
unused_token_total (first ∷ before) draw after ps free = elim (Bool-cases (is_in_use first ps)) [
  | inl used ↦
      let (token, rest, e, fresh) = unused_token_total before draw after ps free in
      (token, rest, rw (used, e) refl, fresh)
  | inr unused ↦
      (first, before ++ (draw ∷ after), rw unused refl, is_in_use-IsFresh first ps unused)
]

pub tokens-append : (ps qs : List Pending) → tokens (ps ++ qs) ≡ tokens ps ++ tokens qs
unfolding tokens
tokens-append [] qs = refl
tokens-append (p ∷ ps) qs = ap (◌∷◌ p.request.token) (tokens-append ps qs)

pub HasDistinct-append_one :
    (ts : List Bytes) (t : Bytes) → HasDistinct ts → IsFresh t ts → HasDistinct (ts ++ (t ∷ []))
unfolding HasDistinct IsFresh
HasDistinct-append_one [] t d fresh = (tt, tt)
HasDistinct-append_one (s ∷ ts) t d fresh = (
  All-append (λ other. other ≢ s) ts (t ∷ []) d.0 (λ e. fresh.0 (sym e), tt),
  HasDistinct-append_one ts t d.1 fresh.1,
)

module _ {ℓ} (P : Bytes → Type ℓ) (t : Bytes) (back : List Bytes) where
  All-without : (front : List Bytes) → All P (front ++ (t ∷ back)) → All P (front ++ back)
  All-without [] h = h.1
  All-without (s ∷ front) h = (h.0, All-without front h.1)

  All-middle : (front : List Bytes) → All P (front ++ (t ∷ back)) → P t
  All-middle [] h = h.0
  All-middle (s ∷ front) h = All-middle front h.1

pub HasDistinct-without :
    (front : List Bytes) (t : Bytes) (back : List Bytes)
    → HasDistinct (front ++ (t ∷ back))
    → HasDistinct (front ++ back)
unfolding HasDistinct IsFresh
HasDistinct-without [] t back d = d.1
HasDistinct-without (s ∷ front) t back d =
    (All-without (λ other. other ≢ s) t back front d.0, HasDistinct-without front t back d.1)

pub HasDistinct-front :
    (front : List Bytes) (t : Bytes) (back : List Bytes)
    → HasDistinct (front ++ (t ∷ back))
    → IsFresh t front
unfolding HasDistinct IsFresh
HasDistinct-front [] t back d = tt
HasDistinct-front (s ∷ front) t back d = (
  λ e. All-middle (λ other. other ≢ s) t back front d.0 (sym e),
  HasDistinct-front front t back d.1,
)
