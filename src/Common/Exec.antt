-- ===== src/Common/Exec.antt =====
-- A coroutine over a state: it changes the state, and returns or raises. What was written before a
-- raise stays written.
use mathlib.Core.Option.{Option, none, some}
use mathlib.Core.Path.{◌≡◌, refl, ap}

pub data Outcome (A : Type 0) : Type 0 where
  ok : A → Outcome A
  raised : Outcome A

abbrev pub Coroutine : Type 0 → Type 0 → Type 0
Coroutine S A = S → Outcome A × S

module _ {S A : Type 0} where
  abbrev pub pure : A → Coroutine S A
  pure a w = (ok a, w)

  abbrev pub raise : Coroutine S A
  raise w = (raised, w)

  abbrev pub gets : (S → A) → Coroutine S A
  gets f w = (ok (f w), w)

  abbrev pub or_raise : Option A → Coroutine S A
  or_raise none = raise
  or_raise (some a) = pure a

abbrev pub modify : {S : Type 0} → (S → S) → Coroutine S (Unit {0})
modify f w = (ok tt, f w)

module _ {S A B : Type 0} where
  abbrev pub continue : Outcome A → (A → Coroutine S B) → Coroutine S B
  continue (ok a) f w = f a w
  continue raised f w = (raised, w)

  infixl 5 ◌>>=◌
  abbrev pub ◌>>=◌ : Coroutine S A → (A → Coroutine S B) → Coroutine S B
  ◌>>=◌ m f w = let (r, w') = m w in continue r f w'

infixl 5 ◌>>◌
abbrev pub ◌>>◌ : {S A B : Type 0} → Coroutine S A → Coroutine S B → Coroutine S B
m >> k = m >>= λ _. k

abbrev pub skip : {S : Type 0} → Coroutine S (Unit {0})
skip = pure tt

-- `try: m except Exception: handler`
abbrev pub try_else : {S A : Type 0} → Coroutine S A → Coroutine S A → Coroutine S A
try_else m handler w = let (r, w') = m w in elim r [ ok a ↦ (ok a, w') | raised ↦ handler w' ]

module _ {S A B : Type 0} {f g : A → Coroutine S B} (e : (a : A) → f a ≡ g a) where
  continue_ext : (r : Outcome A) (w : S) → continue r f w ≡ continue r g w
  continue_ext (ok a) w = ap (λ h. h w) (e a)
  continue_ext raised w = refl

-- A coroutine followed by two continuations that agree
pub bind_ext :
    {S A B : Type 0} (m : Coroutine S A) {f g : A → Coroutine S B}
    → ((a : A) → f a ≡ g a)
    → (w : S) → (m >>= f) w ≡ (m >>= g) w
bind_ext m e w = continue_ext e (m w).0 (m w).1
