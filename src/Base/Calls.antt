-- ===== src/Base/Calls.antt =====
-- How a C call ends. Most functions of the library return 0 or -1 and leave their work in a
-- structure that the caller owns, so both endings carry the state that is left behind. `fault` is
-- undefined behaviour (a division by zero, an access outside an array) and `out_of_fuel` is a loop
-- that the model cut short.
use mathlib.Core.Path.{◌≡◌, refl}
use mathlib.Core.Bool.{Bool, true, false}
use libtorque.Base.Tests.{if◌then◌else◌}

pub data Run (S : Type 0) : Type 0 where
  ok : S → Run S
  err : S → Run S
  fault : Run S
  out_of_fuel : Run S

infixl 5 ◌>>=◌
abbrev pub ◌>>=◌ : {S : Type 0} → Run S → (S → Run S) → Run S
ok s >>= f = f s
err s >>= f = err s
fault >>= f = fault
out_of_fuel >>= f = out_of_fuel

-- `if(c){ return -1; }`
abbrev pub fail_if : {S : Type 0} → Bool → S → Run S
fail_if true s = err s
fail_if false s = ok s

-- A call that computes values for the caller, who gives up with its own state if that fails.
abbrev pub call : {A S : Type 0} → Run A → S → (A → Run S) → Run S
call (ok a) s f = f a
call (err a) s f = err s
call fault s f = fault
call out_of_fuel s f = out_of_fuel

-- Whatever state the call leaves satisfies `P`, with or without success.
abbrev pub Leaves : {S : Type 0} → (S → Type 0) → Run S → Type 0
Leaves P (ok s) = P s
Leaves P (err s) = P s
Leaves P fault = Unit
Leaves P out_of_fuel = Unit

-- The call returns: no undefined behaviour, and enough fuel.
abbrev pub Returns : {S : Type 0} → Run S → Type 0
Returns (ok s) = Unit
Returns (err s) = Unit
Returns fault = ⊥
Returns out_of_fuel = ⊥

module _ {S : Type 0} (P : S → Type 0) where
  pub Leaves-bind :
      (r : Run S) (f : S → Run S)
      → Leaves P r
      → ((s : S) → P s → Leaves P (f s))
      → Leaves P (r >>= f)
  Leaves-bind (ok s) f p k = k s p
  Leaves-bind (err s) f p k = p
  Leaves-bind fault f p k = tt
  Leaves-bind out_of_fuel f p k = tt

  pub Returns-bind :
      (r : Run S) (f : S → Run S)
      → Returns r
      → Leaves P r
      → ((s : S) → P s → Returns (f s))
      → Returns (r >>= f)
  Returns-bind (ok s) f h p k = k s p
  Returns-bind (err s) f h p k = tt
  Returns-bind fault f h p k = h
  Returns-bind out_of_fuel f h p k = h

pub bind_cong :
    {S : Type 0} (r : Run S) (f g : S → Run S) → ((s : S) → f s ≡ g s) → (r >>= f) ≡ (r >>= g)
bind_cong (ok s) f g h = h s
bind_cong (err s) f g h = refl
bind_cong fault f g h = refl
bind_cong out_of_fuel f g h = refl

pub bind_assoc :
    {S : Type 0} (r : Run S) (f g : S → Run S) → ((r >>= f) >>= g) ≡ (r >>= λ s. f s >>= g)
bind_assoc (ok s) f g = refl
bind_assoc (err s) f g = refl
bind_assoc fault f g = refl
bind_assoc out_of_fuel f g = refl

pub bind-ok : {S : Type 0} (r : Run S) → (r >>= λ s. ok s) ≡ r
bind-ok (ok s) = refl
bind-ok (err s) = refl
bind-ok fault = refl
bind-ok out_of_fuel = refl

pub Returns-then :
    {S : Type 0} (r : Run S) (f : S → Run S)
    → Returns r
    → ((s : S) → Returns (f s))
    → Returns (r >>= f)
Returns-then (ok s) f h k = k s
Returns-then (err s) f h k = tt
Returns-then fault f h k = h
Returns-then out_of_fuel f h k = h

pub fail_if-Returns : {S : Type 0} (b : Bool) (s : S) → Returns (fail_if b s)
fail_if-Returns true s = tt
fail_if-Returns false s = tt

pub call-Returns :
    {A S : Type 0} (r : Run A) (s : S) (f : A → Run S)
    → Returns r
    → ((a : A) → Returns (f a))
    → Returns (call r s f)
call-Returns (ok a) s f h k = k a
call-Returns (err a) s f h k = tt
call-Returns fault s f h k = h
call-Returns out_of_fuel s f h k = h

pub call-Leaves :
    {A S : Type 0} (P : S → Type 0) (r : Run A) (s : S) (f : A → Run S)
    → P s
    → ((a : A) → Leaves P (f a))
    → Leaves P (call r s f)
call-Leaves P (ok a) s f p k = k a
call-Leaves P (err a) s f p k = p
call-Leaves P fault s f p k = tt
call-Leaves P out_of_fuel s f p k = tt

pub if-Returns :
    {S : Type 0} (b : Bool) (r s : Run S) → Returns r → Returns s → Returns (if b then r else s)
if-Returns true r s h k = h
if-Returns false r s h k = k

pub if-Leaves :
    {S : Type 0} (P : S → Type 0) (b : Bool) (r s : Run S)
    → Leaves P r
    → Leaves P s
    → Leaves P (if b then r else s)
if-Leaves P true r s h k = h
if-Leaves P false r s h k = k
