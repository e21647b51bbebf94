-- ===== src/Base/Lists.antt =====
-- Lists: comprehensions with a test, membership of a text (a frozenset of names), and membership.
use Prim.Native.Nat.{ℕ, suc}
use Prim.Native.String.{String}
use mathlib.Core.Path.{◌≡◌, refl, ap, sym, subst}
use mathlib.Core.Logic.{◌⊎◌, inl, inr}
use mathlib.Core.Bool.{Bool, true, false, ◌||◌}
use mathlib.Core.List.{List, [], ◌∷◌, ◌++◌, map}
use text.Mathlib.Text.{◌==◌}
use enterprise_mcp_service_b.Base.Tests.{if◌then◌else◌}

-- `name in names`
abbrev pub contains : String → List String → Bool
contains x [] = false
contains x (y ∷ ys) = x == y || contains x ys

-- A set of names, as a list with no name twice.
abbrev pub set_of : List String → List String
set_of [] = []
set_of (x ∷ xs) = let s = set_of xs in if contains x s then s else x ∷ s

module _ {ℓ} {A : Type ℓ} where
  abbrev pub length : List A → ℕ
  length [] = 0
  length (x ∷ xs) = suc (length xs)

  -- `[x for x in xs if p(x)]`
  abbrev pub select : (A → Bool) → List A → List A
  select p [] = []
  select p (x ∷ xs) = if p x then x ∷ select p xs else select p xs

  -- `any(p(x) for x in xs)`
  abbrev pub any : (A → Bool) → List A → Bool
  any p [] = false
  any p (x ∷ xs) = p x || any p xs

module _ {ℓ κ} {A : Type ℓ} where
  abbrev pub All : (A → Type κ) → List A → Type κ
  All P [] = Unit
  All P (x ∷ xs) = P x × All P xs

module _ {A : Type 0} where
  abbrev pub Member : A → List A → Type 0
  Member a [] = ⊥
  Member a (x ∷ xs) = (a ≡ x) ⊎ Member a xs

  pub Member-append_left : (a : A) (xs ys : List A) → Member a xs → Member a (xs ++ ys)
  Member-append_left a [] ys h = absurd h
  Member-append_left a (x ∷ xs) ys (inl e) = inl e
  Member-append_left a (x ∷ xs) ys (inr h) = inr (Member-append_left a xs ys h)

  pub Member-append_right : (a : A) (xs ys : List A) → Member a ys → Member a (xs ++ ys)
  Member-append_right a [] ys h = h
  Member-append_right a (x ∷ xs) ys h = inr (Member-append_right a xs ys h)

  pub Member-select :
      (p : A → Bool) (a : A) (xs : List A) → Member a xs → p a ≡ true → Member a (select p xs)
  Member-select p a [] h e = absurd h
  Member-select p a (x ∷ xs) (inl q) e = rw (← q) (rw e (inl refl))
  Member-select p a (x ∷ xs) (inr h) e = go (p x) (Member-select p a xs h e)
    where
      go :
          (b : Bool)
          → Member a (select p xs)
          → Member a (if b then x ∷ select p xs else select p xs)
      go true m = inr m
      go false m = m

  pub Member-of_select :
      (p : A → Bool) (a : A) (xs : List A) → Member a (select p xs) → Member a xs × (p a ≡ true)
  Member-of_select p a [] h = absurd h
  Member-of_select p a (x ∷ xs) h = go (p x) refl h (Member-of_select p a xs)
    where
      go :
          (b : Bool)
          → p x ≡ b
          → Member a (if b then x ∷ select p xs else select p xs)
          → (Member a (select p xs) → Member a xs × (p a ≡ true))
          → ((a ≡ x) ⊎ Member a xs) × (p a ≡ true)
      go true e (inl q) f = (inl q, rw q e)
      go true e (inr m) f = let r = f m in (inr r.0, r.1)
      go false e m f = let r = f m in (inr r.0, r.1)

  pub All-append {κ} : (P : A → Type κ) (xs ys : List A) → All P xs → All P ys → All P (xs ++ ys)
  All-append P [] ys hx hy = hy
  All-append P (x ∷ xs) ys hx hy = (hx.0, All-append P xs ys hx.1 hy)

  pub All-member {κ} : (P : A → Type κ) (a : A) (xs : List A) → All P xs → Member a xs → P a
  All-member P a [] h m = absurd m
  All-member P a (x ∷ xs) h (inl e) = subst P (sym e) h.0
  All-member P a (x ∷ xs) h (inr m) = All-member P a xs h.1 m

module _ {A B : Type 0} (f : A → B) where
  pub Member-map : (a : A) (xs : List A) → Member a xs → Member (f a) (map f xs)
  Member-map a [] h = h
  Member-map a (x ∷ xs) (inl e) = inl (ap f e)
  Member-map a (x ∷ xs) (inr m) = inr (Member-map a xs m)

  pub Member-of_map :
      (b : B) (xs : List A) → Member b (map f xs) → (a : A) × Member a xs × (b ≡ f a)
  Member-of_map b [] h = absurd h
  Member-of_map b (x ∷ xs) (inl e) = (x, inl refl, e)
  Member-of_map b (x ∷ xs) (inr m) = let r = Member-of_map b xs m in (r.0, inr r.1, r.2)
