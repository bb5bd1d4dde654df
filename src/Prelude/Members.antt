-- ===== src/Prelude/Members.antt =====
-- Membership in a list, as data.
use mathlib.Core.Path.{◌≡◌, refl, sym, subst}
use mathlib.Core.Logic.{◌≢◌, inl, inr}
use mathlib.Core.Bool.{Bool, false}
use mathlib.Core.List.{List, [], ◌∷◌, ◌++◌, Memᴰ}
use Prim.Native.Nat.{ℕ}
use native.Mathlib.Omega.{arith}
use certael_agent.Prelude.Tests.{same, same_of_eq, eq_of_same, Bool-cases}
use certael_agent.Prelude.Lists.{All, any}

pub any-false {ℓ} :
    {A : Type ℓ} (p : A → Bool) (a : A) (xs : List A) → Memᴰ a xs → any p xs ≡ false → p a ≡ false
unfolding any
any-false p a [] m h = elim m [ ]
any-false p a (x ∷ xs) (Memᴰ.head e) h = ground arith
any-false p a (x ∷ xs) (Memᴰ.tail m) h = any-false p a xs m (ground arith)

pub Mem-append_left {ℓ} :
    {A : Type ℓ} {a : A} {xs : List A} (ys : List A) → Memᴰ a xs → Memᴰ a (xs ++ ys)
Mem-append_left ys (Memᴰ.head e) = Memᴰ.head e
Mem-append_left ys (Memᴰ.tail m) = Memᴰ.tail (Mem-append_left ys m)

pub Mem-append_right {ℓ} :
    {A : Type ℓ} {a : A} (xs : List A) {ys : List A} → Memᴰ a ys → Memᴰ a (xs ++ ys)
Mem-append_right [] m = m
Mem-append_right (x ∷ xs) m = Memᴰ.tail (Mem-append_right xs m)

pub All-Mem {ℓ κ} : {A : Type ℓ} (P : A → Type κ) (a : A) (xs : List A) → Memᴰ a xs → All P xs → P a
All-Mem P a [] m h = elim m [ ]
All-Mem P a (x ∷ xs) (Memᴰ.head e) h = subst P (sym e) h.0
All-Mem P a (x ∷ xs) (Memᴰ.tail m) h = All-Mem P a xs m h.1

pub All-of-Mem {ℓ κ} :
    {A : Type ℓ} (P : A → Type κ) (xs : List A) → ((a : A) → Memᴰ a xs → P a) → All P xs
All-of-Mem P [] h = tt
All-of-Mem P (x ∷ xs) h = (h x (Memᴰ.head refl), All-of-Mem P xs (λ a m. h a (Memᴰ.tail m)))

-- No member is the text `q`.
pub not_any-All :
    (q : List ℕ) (ps : List (List ℕ)) → any (λ p. same p q) ps ≡ false → All (λ p. p ≢ q) ps
unfolding any
not_any-All q [] h = tt
not_any-All q (p ∷ ps) h =
    (λ e. absurd (ground (arith, same_of_eq p q e)), not_any-All q ps (ground arith))

pub All-not_any :
    (q : List ℕ) (ps : List (List ℕ)) → All (λ p. p ≢ q) ps → any (λ p. same p q) ps ≡ false
unfolding any
All-not_any q [] h = refl
All-not_any q (p ∷ ps) h = elim (Bool-cases (same p q)) [
  | inl e ↦ absurd (h.0 (eq_of_same p q e))
  | inr e ↦ ground (arith, All-not_any q ps h.1)
]
