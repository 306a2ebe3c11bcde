-- ===== src/Common/Outcome.antt =====
-- The result of fallible Rust code: a value, an error, or a panic (a slice out of range, a failed
-- `expect`). The `?` operator is `◌>>=◌`.
use mathlib.Core.Path.{◌≡◌, refl, sym, subst}
use mathlib.Core.Bool.{Bool, true, false}
use mathlib.Core.Option.{Option, none, some}
use mathlib.Core.Logic.{◌⊎◌, inl, inr}
use groth16_verifier_program.Common.Tests.{if◌then◌else◌}

pub data Result (E A : Type 0) : Type 0 where
  ok : A → Result E A
  err : E → Result E A
  panic : Result E A

infixl 5 ◌>>=◌ ◌>>◌
abbrev pub ◌>>=◌ : {E V W : Type 0} → Result E V → (V → Result E W) → Result E W
panic >>= rest = panic
err x >>= rest = err x
ok v >>= rest = rest v

abbrev pub ◌>>◌ : {E B : Type 0} → Result E (Unit {0}) → Result E B → Result E B
m >> k = m >>= λ _. k

-- An early `return Err(e)` unless the test holds.
abbrev pub ensure : {E : Type 0} → Bool → E → Result E (Unit {0})
ensure true e = ok tt
ensure false e = err e

-- `Option::ok_or`.
abbrev pub ok_or : {E A : Type 0} → Option A → E → Result E A
ok_or none e = err e
ok_or (some a) e = ok a

-- `Result::map_err`.
abbrev pub map_err : {E F A : Type 0} → (E → F) → Result E A → Result F A
map_err f (ok a) = ok a
map_err f (err e) = err (f e)
map_err f panic = panic

-- Where `?` was passed there was a value, and the rest of the function went on with it.
module _ {E V W : Type 0} where
  pub >>=-eq-ok :
      (first : Result E V) (rest : V → Result E W) {w : W}
      → (first >>= rest) ≡ ok w
      → (v : V) × (first ≡ ok v) × (rest v ≡ ok w)
  >>=-eq-ok panic rest e = cc
  >>=-eq-ok (err x) rest e = cc
  >>=-eq-ok (ok v) rest e = (v, refl, e)

pub >>=_assoc :
    {E U V W : Type 0} (m : Result E U) (f : U → Result E V) (g : V → Result E W)
    → (m >>= λ u. f u >>= g) ≡ ((m >>= f) >>= g)
>>=_assoc (ok u) f g = refl
>>=_assoc (err e) f g = refl
>>=_assoc panic f g = refl

pub map_err-eq-ok :
    {E F A : Type 0} (f : E → F) (m : Result E A) {a : A} → map_err f m ≡ ok a → m ≡ ok a
map_err-eq-ok f (ok a) h = cc
map_err-eq-ok f (err e) h = cc
map_err-eq-ok f panic h = cc

pub ensure-eq-ok : {E : Type 0} (b : Bool) (e : E) → ensure b e ≡ ok tt → b ≡ true
ensure-eq-ok true e h = refl
ensure-eq-ok false e h = cc

-- The call returns, with a value or an error.
abbrev pub Returns : {E A : Type 0} → Result E A → Type 0
Returns (ok a) = Unit
Returns (err e) = Unit
Returns panic = ⊥

pub Result-cases :
    {E A : Type 0} (m : Result E A)
    → ((a : A) × (m ≡ ok a)) ⊎ (((e : E) × (m ≡ err e)) ⊎ (m ≡ panic))
Result-cases (ok a) = inl (a, refl)
Result-cases (err e) = inr (inl (e, refl))
Result-cases panic = inr (inr refl)

-- The call does not panic, and a value that it gives has the property.
abbrev pub Yields : {E A : Type 0} → (A → Type 0) → Result E A → Type 0
Yields P (ok a) = P a
Yields P (err e) = Unit {0}
Yields P panic = ⊥

module _ {E A : Type 0} (P : A → Type 0) where
  pub bind-Yields :
      {B : Type 0} (Q : B → Type 0) (m : Result E A) (rest : A → Result E B)
      → Yields P m
      → ((a : A) → P a → Yields Q (rest a))
      → Yields Q (m >>= rest)
  bind-Yields Q (ok a) rest h k = k a h
  bind-Yields Q (err e) rest h k = tt
  bind-Yields Q panic rest h k = h

  pub Yields-Returns : (m : Result E A) → Yields P m → Returns m
  Yields-Returns (ok a) h = tt
  Yields-Returns (err e) h = tt
  Yields-Returns panic h = h

  pub Yields-eq-ok : (m : Result E A) (a : A) → Yields P m → m ≡ ok a → P a
  Yields-eq-ok m a h e = subst (λ (n : Result E A). Yields P n) e h

  pub eq-Yields : (m n : Result E A) → m ≡ n → Yields P n → Yields P m
  eq-Yields m n e h = subst (λ (t : Result E A). Yields P t) (sym e) h

-- A test that was passed holds.
pub ensure-Yields :
    {E B : Type 0} (Q : B → Type 0) (b : Bool) (e : E) (rest : Result E B)
    → (b ≡ true → Yields Q rest)
    → Yields Q (ensure b e >> rest)
ensure-Yields Q true e rest k = k refl
ensure-Yields Q false e rest k = tt

pub if-Yields :
    {E A : Type 0} (P : A → Type 0) (b : Bool) (m n : Result E A)
    → Yields P m
    → Yields P n
    → Yields P (if b then m else n)
if-Yields P true m n hm hn = hm
if-Yields P false m n hm hn = hn

-- A test at the end of a function.
pub ensure_last : {E : Type 0} (b : Bool) (e : E) → Yields (λ (u : Unit {0}). Unit {0}) (ensure b e)
ensure_last true e = tt
ensure_last false e = tt

pub Returns-of : {E A : Type 0} (m : Result E A) → ¬ (m ≡ panic) → Returns m
Returns-of (ok a) h = tt
Returns-of (err e) h = tt
Returns-of panic h = h refl

-- The same for calls of which only the equation is kept.
module _ {E A : Type 0} where
  pub then-Returns :
      {B : Type 0} (m : Result E A) (rest : A → Result E B)
      → Returns m
      → ((a : A) → m ≡ ok a → Returns (rest a))
      → Returns (m >>= rest)
  then-Returns (ok a) rest h k = k a refl
  then-Returns (err e) rest h k = tt
  then-Returns panic rest h k = h

  pub map_err-Returns :
      {F : Type 0} (f : E → F) (m : Result E A) → Returns m → Returns (map_err f m)
  map_err-Returns f (ok a) h = tt
  map_err-Returns f (err e) h = tt
  map_err-Returns f panic h = h

  pub ensure-Returns :
      (b : Bool) (e : E) (rest : Result E A)
      → (b ≡ true → Returns rest)
      → Returns (ensure b e >> rest)
  ensure-Returns true e rest k = k refl
  ensure-Returns false e rest k = tt

  pub ok_or-Returns : (o : Option A) (e : E) → Returns (ok_or o e)
  ok_or-Returns none e = tt
  ok_or-Returns (some a) e = tt

pub if-Returns :
    {E A : Type 0} (b : Bool) (m n : Result E A)
    → Returns m
    → Returns n
    → Returns (if b then m else n)
if-Returns true m n hm hn = hm
if-Returns false m n hm hn = hn
