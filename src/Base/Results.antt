-- ===== src/Base/Results.antt =====
-- Rust's `Result` with `?`, and a method on `&mut self`: what it returns, and the state it leaves,
-- which an early return by `?` does not roll back.
use mathlib.Core.Bool.{Bool, true, false}
use mathlib.Core.Option.{Option, none, some}
use mathlib.Core.Path.{◌≡◌, refl, ap}
use mathlib.Core.Logic.{◌⊎◌, inl, inr}

pub data Result (E A : Type 0) : Type 0 where
  ok : A → Result E A
  err : E → Result E A

abbrev pub is_ok : {E A : Type 0} → Result E A → Bool
is_ok (ok _) = true
is_ok (err _) = false

-- `m?` followed by the rest, for a function of no state
infixl 5 ◌>>=◌ ◌>>◌
abbrev pub ◌>>=◌ : {E A B : Type 0} → Result E A → (A → Result E B) → Result E B
ok a >>= f = f a
err e >>= _ = err e

abbrev pub ◌>>◌ : {E B : Type 0} → Result E (Unit {0}) → Result E B → Result E B
m >> rest = m >>= λ _. rest

-- `if !test { return Err(e); }`
abbrev pub require : {E : Type 0} → Bool → E → Result E (Unit {0})
require true _ = ok tt
require false e = err e

-- `if test { return Err(e); }`
abbrev pub reject_if : {E : Type 0} → Bool → E → Result E (Unit {0})
reject_if true e = err e
reject_if false _ = ok tt

abbrev pub ok_or : {E A : Type 0} → Option A → E → Result E A
ok_or none e = err e
ok_or (some a) _ = ok a

-- `r?; Ok(a)`
abbrev pub and_ok : {E A : Type 0} → Result E (Unit {0}) → A → Result E A
and_ok (ok _) a = ok a
and_ok (err e) _ = err e

pub err_not_ok : {E B : Type 0} {r : Result E B} {e : E} {b : B} → r ≡ err e → r ≡ ok b → ⊥
err_not_ok p q = cc

-- What a chain of checks that succeeds has passed.
pub then-ok :
    {E B : Type 0} (m : Result E (Unit {0})) (rest : Result E B) (b : B)
    → m >> rest ≡ ok b
    → (m ≡ ok tt) × (rest ≡ ok b)
then-ok (ok _) rest b h = (refl, h)
then-ok (err e) rest b h = absurd (err_not_ok refl h)

pub bind_result-ok :
    {E A B : Type 0} (m : Result E A) (f : A → Result E B) (b : B)
    → m >>= f ≡ ok b
    → (a : A) × ((m ≡ ok a) × (f a ≡ ok b))
bind_result-ok (ok a) f b h = (a, (refl, h))
bind_result-ok (err e) f b h = absurd (err_not_ok refl h)

pub require-ok : {E : Type 0} (b : Bool) (e : E) → require b e ≡ ok tt → b ≡ true
require-ok true e h = refl
require-ok false e h = absurd (err_not_ok refl h)

pub Result-cases :
    {E A : Type 0} (r : Result E A) → ((a : A) × (r ≡ ok a)) ⊎ ((e : E) × (r ≡ err e))
Result-cases (ok a) = inl (a, refl)
Result-cases (err e) = inr (e, refl)

abbrev pub Handler : Type 0 → Type 0 → Type 0 → Type 0
Handler S E A = S → Result E A × S

module _ {S E A : Type 0} where
  -- A check that reads the state and may return early.
  abbrev pub check : (S → Result E A) → Handler S E A
  check f s = (f s, s)

  abbrev pub return : A → Handler S E A
  return a s = (ok a, s)

  abbrev pub fail : E → Handler S E A
  fail e s = (err e, s)

-- An assignment to fields of `self`.
abbrev pub assign : {S E : Type 0} → (S → S) → Handler S E (Unit {0})
assign f s = (ok tt, f s)

-- `m?` followed by the rest, for handlers
abbrev pub bind : {S E A B : Type 0} → Handler S E A → (A → Handler S E B) → Handler S E B
bind m f s = let (r, s') = m s in elim r [ ok a ↦ f a s' | err e ↦ (err e, s') ]

abbrev pub then_do : {S E B : Type 0} → Handler S E (Unit {0}) → Handler S E B → Handler S E B
then_do m rest = bind m (λ _. rest)

pub bind-ok :
    {S E A B : Type 0} (m : Handler S E A) (f : A → Handler S E B) (s : S) (a : A)
    → (m s).0 ≡ ok a
    → bind m f s ≡ f a (m s).1
bind-ok m f s a h = rw (h, bind)

pub bind-err :
    {S E A B : Type 0} (m : Handler S E A) (f : A → Handler S E B) (s : S) (e : E)
    → (m s).0 ≡ err e
    → bind m f s ≡ (err e, (m s).1)
bind-err m f s e h = rw (h, bind)

pub then_do-ok :
    {S E B : Type 0} (m : Handler S E (Unit {0})) (k : Handler S E B) (s : S) (b : B)
    → (then_do m k s).0 ≡ ok b
    → ((m s).0 ≡ ok tt) × (then_do m k s ≡ k (m s).1)
then_do-ok m k s b h = elim (Result-cases (m s).0) [
  | inl (u, e) ↦ (e, bind-ok m (λ _. k) s u e)
  | inr (e, p) ↦ absurd (err_not_ok (ap (λ q. q.0) (bind-err m (λ _. k) s e p)) h)
]

-- What follows in a handler that succeeds ran on what its first part gave.
pub bind-succeeds :
    {S E A B : Type 0} (m : Handler S E A) (f : A → Handler S E B) (s t : S) (b : B)
    → bind m f s ≡ (ok b, t)
    → (a : A) × (((m s).0 ≡ ok a) × (f a (m s).1 ≡ (ok b, t)))
bind-succeeds m f s t b h = elim (Result-cases (m s).0) [
  | inl (a, p) ↦ (a, (p, cc (h, bind-ok m f s a p)))
  | inr (e, p) ↦ absurd (err_not_ok (ap (λ q. q.0) (bind-err m f s e p)) (ap (λ q. q.0) h))
]

pub pair_eta : {A B : Type 0} (p : A × B) (a : A) (b : B) → p.0 ≡ a → p.1 ≡ b → p ≡ (a, b)
pair_eta p a b h k = cc (h, k)

pub ok_inj :
    {E A : Type 0} {a b : A} → (the_ok : Result E A) → the_ok ≡ ok a → the_ok ≡ ok b → a ≡ b
ok_inj r h k = cc (h, k)
