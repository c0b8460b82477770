-- ===== src/Dtls/Reassembly/Permuted.antt =====
-- A message that was split by `HandshakeMessage::fragment` and arrives in any order.
use meshcop_rs.Base.{
  ℕ, ◌≤◌, ◌<◌, ◌≡◌, refl, sym, ◌∙◌, Bool, true, false, ◌||◌, Option, some, List, ◌∷◌, arith, length,
  All, ok, Result,
}
use meshcop_rs.Dtls.Error.{Error}
use meshcop_rs.Dtls.Handshake.{HandshakeFragment}
use meshcop_rs.Dtls.Message.{HandshakeMessage, fragment}
use meshcop_rs.Dtls.Message.Fragments.{IsSlice, covers, fragment-Splits}
use meshcop_rs.Dtls.Reassembly.{default, push, feed}
use meshcop_rs.Dtls.Reassembly.AnyOrder.{push_complete}
use mathlib.Core.List.{Perm, Permᴰ}
use mathlib.Core.Logic.{∥∥₁_elim}
use mathlib.Core.Path.{subst}
use text.Mathlib.TextEquality.{IsScalar-prop}

All-permᴰ {ℓ κ} : {A : Type ℓ} (P : A → Type κ) {xs ys : List A} → Permᴰ xs ys → All P ys → All P xs
All-permᴰ P Permᴰ.nil h = h
All-permᴰ P (Permᴰ.cons e d) h = (subst P (sym e) h.0, All-permᴰ P d h.1)
All-permᴰ P (Permᴰ.swap e1 e2) h = (subst P (sym e1) h.1.0, (subst P (sym e2) h.0, h.1.1))
All-permᴰ P (Permᴰ.trans d1 d2) h = All-permᴰ P d1 (All-permᴰ P d2 h)

or_swap : (a b c : Bool) → (a || (b || c)) ≡ (b || (a || c))
or_swap true b c = ground arith
or_swap false b c = ground arith

covers-permᴰ : {xs ys : List HandshakeFragment} → Permᴰ xs ys → (i : ℕ) → covers xs i ≡ covers ys i
unfolding covers
covers-permᴰ Permᴰ.nil i = refl
covers-permᴰ (Permᴰ.cons e d) i = rw (e, covers-permᴰ d i)
covers-permᴰ (Permᴰ.swap {a' = a} {b' = b} {l = l} e1 e2) i = rw (e1, e2) (or_swap _ _ (covers l i))
covers-permᴰ (Permᴰ.trans d1 d2) i = covers-permᴰ d1 i ∙ covers-permᴰ d2 i

result_set : IsSet (Result Error (Option HandshakeMessage))
result_set = hlevel IsScalar-prop

-- The fragments of a message of at most 65536 bytes, in any order: pushing the last of them yields
-- the message.
pub push-fragment :
    (m : HandshakeMessage) (n : ℕ) (fs gs : List HandshakeFragment) (g : HandshakeFragment)
    → 0 < n
    → length m.payload ≤ 0x1_0000
    → fragment m n ≡ ok fs
    → Perm (g ∷ gs) fs
    → (push (feed default gs) g).1 ≡ ok (some m)
push-fragment m n fs gs g pos small e p =
    let (fs', e', s) = fragment-Splits m n pos (omega arith) in
    let same : fs' ≡ fs = cc in
    ∥∥₁_elim p (result_set _ _) λ d.
      let order : Permᴰ (g ∷ gs) fs' = subst (Permᴰ (g ∷ gs)) (sym same) d in
      let slices : All (IsSlice m) (g ∷ gs) = All-permᴰ (IsSlice m) order s.slices in
      push_complete m gs g small slices.1 slices.0
        (λ i lt. covers-permᴰ order i ∙ s.covered i (omega arith) lt)
