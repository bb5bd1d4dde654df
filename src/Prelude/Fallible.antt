-- ===== src/Prelude/Fallible.antt =====
-- Rust's `Result<A, E>`, with `?` as bind and the early `return Err(..)` of a guard.
use mathlib.Core.Path.{◌≡◌, refl, ap, sym, ◌∙◌}
use mathlib.Core.Logic.{◌⊎◌, inl, inr}
use mathlib.Core.Bool.{Bool, true, false}
use mathlib.Core.Option.{Option, none, some}

pub data Result (E A : Type 0) : Type 0 where
  ok : A → Result E A
  err : E → Result E A

infixl 5 ◌>>=◌ ◌>>◌
abbrev pub ◌>>=◌ : {E A B : Type 0} → Result E A → (A → Result E B) → Result E B
err why >>= next = err why
ok value >>= next = next value

abbrev pub ◌>>◌ : {E B : Type 0} → Result E (Unit {0}) → Result E B → Result E B
check >> rest = check >>= λ _. rest

-- `if bad { return Err(e); }`
abbrev pub refuse_if : {E : Type 0} → Bool → E → Result E (Unit {0})
refuse_if true e = err e
refuse_if false e = ok tt

-- `option.ok_or(e)?`
abbrev pub ok_or : {E A : Type 0} → Option A → E → Result E A
ok_or none e = err e
ok_or (some a) e = ok a

abbrev pub map_err : {E F A : Type 0} → Result E A → (E → F) → Result F A
map_err (ok a) f = ok a
map_err (err e) f = err (f e)

abbrev pub is_ok : {E A : Type 0} → Result E A → Bool
is_ok (ok a) = true
is_ok (err e) = false

abbrev pub is_err : {E A : Type 0} → Result E A → Bool
is_err (ok a) = false
is_err (err e) = true

pub Result-cases :
    {E A : Type 0} (r : Result E A) → ((a : A) × (r ≡ ok a)) ⊎ ((e : E) × (r ≡ err e))
Result-cases (ok a) = inl (a, refl)
Result-cases (err e) = inr (e, refl)

-- Inversion of a chain that succeeded.
pub >>=-eq-ok :
    {E A B : Type 0} (r : Result E A) (next : A → Result E B) {last : B}
    → (r >>= next) ≡ ok last
    → (first : A) × (r ≡ ok first) × (next first ≡ ok last)
>>=-eq-ok (err why) next h = cc
>>=-eq-ok (ok first) next h = (first, refl, h)

pub map_err-eq-ok :
    {E F A : Type 0} (m : Result E A) (f : E → F) {a : A} → map_err m f ≡ ok a → m ≡ ok a
map_err-eq-ok (ok a) f h = cc
map_err-eq-ok (err e) f h = cc

pub refuse_if-eq-ok : {E : Type 0} (b : Bool) (e : E) → refuse_if b e ≡ ok tt → b ≡ false
refuse_if-eq-ok true e h = cc
refuse_if-eq-ok false e h = refl

-- Two checks that passed before a value was returned.
pub checks-eq-ok :
    {E A : Type 0} (m n : Result E (Unit {0})) (a : A) {b : A}
    → (m >> n >> ok a) ≡ ok b
    → (m ≡ ok tt) × (n ≡ ok tt) × (a ≡ b)
checks-eq-ok (ok u) (ok w) a h = (refl, refl, cc)
checks-eq-ok (ok u) (err e) a h = cc
checks-eq-ok (err e) n a h = cc

pub two_checks-eq-ok :
    {E A : Type 0} (a b : Bool) (e f : E) (k : Result E A) {r : A}
    → (refuse_if a e >> refuse_if b f >> k) ≡ ok r
    → (a ≡ false) × (b ≡ false) × (k ≡ ok r)
two_checks-eq-ok true b e f k h = cc
two_checks-eq-ok false true e f k h = cc
two_checks-eq-ok false false e f k h = (refl, refl, h)

pub ok_or-eq-ok :
    {E A B : Type 0} (o : Option A) (e : E) (k : A → Result E B) {r : B}
    → (ok_or o e >>= k) ≡ ok r
    → (a : A) × (o ≡ some a) × (k a ≡ ok r)
ok_or-eq-ok none e k h = cc
ok_or-eq-ok (some a) e k h = (a, refl, h)

pub two_checks_pass :
    {E A : Type 0} (a b : Bool) (e f : E) (k : Result E A)
    → a ≡ false
    → b ≡ false
    → (refuse_if a e >> refuse_if b f >> k) ≡ k
two_checks_pass true b e f k h h' = cc
two_checks_pass false true e f k h h' = cc
two_checks_pass false false e f k h h' = refl

abbrev value_or : {E A : Type 0} → A → Result E A → A
value_or d (ok a) = a
value_or d (err e) = d

pub ok-injective :
    {E A : Type 0} {r r' : Result E A} (a b : A) → r ≡ ok a → r' ≡ ok b → r ≡ r' → a ≡ b
ok-injective a b h k e = ap (value_or a) (sym h ∙ e ∙ k)
