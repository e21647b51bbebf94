-- ===== src/Base/Exec.antt =====
-- Methods that change an object and may raise: what was written before a raise stays written.
use mathlib.Core.Path.{◌≡◌, refl}
use enterprise_mcp_service_b.Base.Results.{Result, ok, err}

abbrev pub Exec {ℓ} : Type ℓ → Type ℓ → Type ℓ → Type ℓ
Exec S E A = S → Result E A × S

module _ {ℓ} {S E A : Type ℓ} where
  abbrev pub pure : A → Exec S E A
  pure a s = (ok a, s)

  abbrev pub raise : E → Exec S E A
  raise e s = (err e, s)

  abbrev pub lift : Result E A → Exec S E A
  lift r s = (r, s)

  abbrev pub gets : (S → A) → Exec S E A
  gets f s = (ok (f s), s)

module _ {ℓ} {S E A B : Type ℓ} where
  abbrev pub and_then : Result E A → (A → Exec S E B) → Exec S E B
  and_then (ok a) f s = f a s
  and_then (err e) f s = (err e, s)

  infixl 5 ◌>>=◌ ◌>>◌
  abbrev pub ◌>>=◌ : Exec S E A → (A → Exec S E B) → Exec S E B
  ◌>>=◌ m f s = let (r, s') = m s in and_then r f s'

  abbrev pub ◌>>◌ : Exec S E A → Exec S E B → Exec S E B
  m >> n = m >>= λ _. n

-- Rules for `>>=`: what holds of the result and the state whenever a step returns, and what holds of
-- the state in any case.
module _ {S E : Type 0} where
  abbrev pub Ensures : {A : Type 0} → (A → S → Type 0) → Result E A × S → Type 0
  Ensures P (ok a, s) = P a s
  Ensures P (err e, s) = Unit

  pub Ensures-bind :
      {A B : Type 0} (P : A → S → Type 0) (Q : B → S → Type 0) (p : Result E A × S)
      (f : A → Exec S E B)
      → Ensures P p
      → ((a : A) (s : S) → P a s → Ensures Q (f a s))
      → Ensures Q (and_then p.0 f p.1)
  Ensures-bind P Q (ok a, s) f h k = k a s h
  Ensures-bind P Q (err e, s) f h k = tt

  pub Ensures-and_then :
      {A B : Type 0} (P : B → S → Type 0) (r : Result E A) (f : A → Exec S E B) (s : S)
      → ((a : A) → r ≡ ok a → Ensures P (f a s))
      → Ensures P (and_then r f s)
  Ensures-and_then P (ok a) f s k = k a refl
  Ensures-and_then P (err e) f s k = tt

  pub Ensures-weaken :
      {A : Type 0} (P Q : A → S → Type 0) (p : Result E A × S)
      → Ensures P p
      → ((a : A) (s : S) → P a s → Q a s)
      → Ensures Q p
  Ensures-weaken P Q (ok a, s) h k = k a s h
  Ensures-weaken P Q (err e, s) h k = tt

  pub and_then-keeps :
      {A B : Type 0} (P Q : S → Type 0) (p : Result E A × S) (f : A → Exec S E B)
      → P p.1
      → ((s : S) → P s → Q s)
      → ((a : A) (s : S) → P s → Q (f a s).1)
      → Q (and_then p.0 f p.1).1
  and_then-keeps P Q (ok a, s) f h w k = k a s h
  and_then-keeps P Q (err e, s) f h w k = w s h

  -- Whenever the steps return, the whole returns.
  abbrev pub Returns : {A : Type 0} → (A → S → Type 0) → Result E A × S → Type 0
  Returns P (ok a, s) = P a s
  Returns P (err e, s) = ⊥

  pub Returns-bind :
      {A B : Type 0} (P : A → S → Type 0) (Q : B → S → Type 0) (p : Result E A × S)
      (f : A → Exec S E B)
      → Returns P p
      → ((a : A) (s : S) → P a s → Returns Q (f a s))
      → Returns Q (and_then p.0 f p.1)
  Returns-bind P Q (ok a, s) f h k = k a s h
  Returns-bind P Q (err e, s) f h k = absurd h
