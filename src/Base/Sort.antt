-- ===== src/Base/Sort.antt =====
-- `sorted(xs, key=key)` and `ORDER BY key`: insertion sort by a text key.
use mathlib.Core.Path.{◌≡◌}
use mathlib.Core.Logic.{◌⊎◌, inl, inr}
use mathlib.Core.Bool.{Bool}
use mathlib.Core.List.{List, [], ◌∷◌}
use enterprise_mcp_service_b.Base.Tests.{if◌then◌else◌, Bool-cases}
use enterprise_mcp_service_b.Base.Lists.{Member}

module _ {A : Type 0} (le : A → A → Bool) where
  unfoldable pub insert : A → List A → List A
  insert a [] = a ∷ []
  insert a (x ∷ xs) = if le a x then a ∷ x ∷ xs else x ∷ insert a xs

  unfoldable pub sort_by : List A → List A
  unfolding insert
  sort_by [] = []
  sort_by (x ∷ xs) = insert x (sort_by xs)

  Member-insert : (b a : A) (xs : List A) → (b ≡ a) ⊎ Member b xs → Member b (insert a xs)
  unfolding insert
  Member-insert b a [] h = h
  Member-insert b a (x ∷ xs) h = elim (Bool-cases (le a x)) [
    | inl e ↦ rw e h
    | inr e ↦ rw e (split h (Member-insert b a xs))
  ]
    where
      split :
          (b ≡ a) ⊎ ((b ≡ x) ⊎ Member b xs)
          → ((b ≡ a) ⊎ Member b xs → Member b (insert a xs))
          → (b ≡ x) ⊎ Member b (insert a xs)
      split (inl p) f = inr (f (inl p))
      split (inr (inl p)) f = inl p
      split (inr (inr m)) f = inr (f (inr m))

  Member-of_insert : (b a : A) (xs : List A) → Member b (insert a xs) → (b ≡ a) ⊎ Member b xs
  unfolding insert
  Member-of_insert b a [] h = h
  Member-of_insert b a (x ∷ xs) h = elim (Bool-cases (le a x)) [
    | inl e ↦ rw e at h
    | inr e ↦ split (rw e at h) (Member-of_insert b a xs)
  ]
    where
      split :
          (b ≡ x) ⊎ Member b (insert a xs)
          → (Member b (insert a xs) → (b ≡ a) ⊎ Member b xs)
          → (b ≡ a) ⊎ ((b ≡ x) ⊎ Member b xs)
      split (inl p) f = inr (inl p)
      split (inr m) f = tail (f m)
        where
          tail : (b ≡ a) ⊎ Member b xs → (b ≡ a) ⊎ ((b ≡ x) ⊎ Member b xs)
          tail (inl p) = inl p
          tail (inr n) = inr (inr n)

  pub Member-sort_by : (b : A) (xs : List A) → Member b xs → Member b (sort_by xs)
  unfolding sort_by
  Member-sort_by b [] h = h
  Member-sort_by b (x ∷ xs) (inl p) = Member-insert b x (sort_by xs) (inl p)
  Member-sort_by b (x ∷ xs) (inr m) = Member-insert b x (sort_by xs) (inr (Member-sort_by b xs m))

  pub Member-of_sort_by : (b : A) (xs : List A) → Member b (sort_by xs) → Member b xs
  unfolding sort_by
  Member-of_sort_by b [] h = h
  Member-of_sort_by b (x ∷ xs) h =
      split (Member-of_insert b x (sort_by xs) h) (Member-of_sort_by b xs)
    where
      split :
          (b ≡ x) ⊎ Member b (sort_by xs)
          → (Member b (sort_by xs) → Member b xs)
          → (b ≡ x) ⊎ Member b xs
      split (inl p) f = inl p
      split (inr m) f = inr (f m)
