-- ===== src/Base/Mapping.antt =====
-- Python's `dict` with text keys: pairs in order of first insertion, one for each key.
use Prim.Native.String.{String}
use mathlib.Core.Path.{◌≡◌, refl, sym, ap, ◌∙◌, subst}
use mathlib.Core.Logic.{◌⊎◌, inl, inr}
use mathlib.Core.Bool.{true, false}
use mathlib.Core.Option.{Option, none, some}
use mathlib.Core.List.{List, [], ◌∷◌, foldl}
use native.Mathlib.Omega.{arith}
use text.Mathlib.Text.{◌==◌}
use text.Mathlib.TextEquality.{eq_iff}
use enterprise_mcp_service_b.Base.Tests.{if◌then◌else◌, Bool-cases}
use enterprise_mcp_service_b.Base.Lists.{Member}

abbrev pub Dict {ℓ} : Type ℓ → Type ℓ
Dict V = List (String × V)

module _ {ℓ} {V : Type ℓ} where
  -- `d.get(k)`
  unfoldable pub get : Dict V → String → Option V
  get [] k = none
  get ((j, v) ∷ d) k = if j == k then some v else get d k

  -- `d[k] = v`: in place if the key is there, else at the end
  unfoldable pub put : Dict V → String → V → Dict V
  put [] k v = (k, v) ∷ []
  put ((j, w) ∷ d) k v = if j == k then (j, v) ∷ d else (j, w) ∷ put d k v

  -- `d.pop(k, None)`
  unfoldable pub pop : Dict V → String → Dict V
  pop [] k = []
  pop ((j, v) ∷ d) k = let rest = pop d k in if j == k then rest else (j, v) ∷ rest

  -- `d.values()`
  unfoldable pub values : Dict V → List V
  values [] = []
  values ((j, v) ∷ d) = v ∷ values d

  pub get-put :
      (d : Dict V) (k j : String) (v : V) → get (put d k v) j ≡ (if k == j then some v else get d j)
  unfolding get put
  get-put [] k j v = refl
  get-put ((i, w) ∷ d) k j v = ground (arith, eq_iff i k, eq_iff i j, eq_iff k j, get-put d k j v)

  pub get-pop : (d : Dict V) (k j : String) → get (pop d k) j ≡ (if k == j then none else get d j)
  unfolding get pop
  get-pop [] k j = ground arith
  get-pop ((i, w) ∷ d) k j = ground (arith, eq_iff i k, eq_iff i j, eq_iff k j, get-pop d k j)

-- `{key(x): x for x in xs}`: of two items with one key the later stays
unfoldable pub dict_of {ℓ} : {V : Type ℓ} → (V → String) → List V → Dict V
dict_of key = foldl (λ d x. put d (key x) x) []

module _ {V : Type 0} where
  -- Each key stands once, and is the key of its value.
  abbrev pub IsKeyed : (V → String) → Dict V → Type 0
  IsKeyed key [] = Unit
  IsKeyed key ((j, v) ∷ d) = (key v ≡ j) × (get d j ≡ none) × IsKeyed key d

  pub IsKeyed-put :
      (key : V → String) (d : Dict V) (k : String) (v : V)
      → IsKeyed key d
      → key v ≡ k
      → IsKeyed key (put d k v)
  unfolding put get
  IsKeyed-put key [] k v h e = (e, refl, tt)
  IsKeyed-put key ((i, w) ∷ d) k v h e = elim (Bool-cases (i == k)) [
    | inl q ↦ rw q (e ∙ sym ((eq_iff i k).0 q), h.1, h.2)
    | inr q ↦ rw q (
      h.0,
      ground (arith, get-put d k i v, eq_iff i k, eq_iff k i, h.1),
      IsKeyed-put key d k v h.2 e,
    )
  ]

  pub Member-values :
      (key : V → String) (d : Dict V) (v : V)
      → IsKeyed key d
      → get d (key v) ≡ some v
      → Member v (values d)
  unfolding get values
  Member-values key [] v h e = cc
  Member-values key ((i, w) ∷ d) v h e = elim (Bool-cases (i == key v)) [
    | inl q ↦ inl (ground (arith, q, e))
    | inr q ↦ inr (Member-values key d v h.2 (rw q at e))
  ]

  pub get-of_Member :
      (key : V → String) (d : Dict V) (v : V)
      → IsKeyed key d
      → Member v (values d)
      → get d (key v) ≡ some v
  unfolding get values
  get-of_Member key [] v h m = absurd m
  get-of_Member key ((i, w) ∷ d) v h (inl e) = ground (arith, h.0, eq_iff i (key v))
  get-of_Member key ((i, w) ∷ d) v h (inr m) =
      let ih = get-of_Member key d v h.2 m in ground (arith, h.1, ih, eq_iff i (key v))

  -- Each value satisfies `P`.
  abbrev pub Every : (V → Type 0) → Dict V → Type 0
  Every P d = (k : String) (v : V) → get d k ≡ some v → P v

  pub Every-put :
      (P : V → Type 0) (d : Dict V) (k : String) (v : V) → Every P d → P v → Every P (put d k v)
  Every-put P d k v h p j w e = elim (Bool-cases (k == j)) [
    | inl q ↦ subst P (ground (arith, get-put d k j v)) p
    | inr q ↦ h j w (ground (arith, get-put d k j v))
  ]

  pub key-of_get :
      (key : V → String) (d : Dict V) (k : String) (v : V)
      → IsKeyed key d
      → get d k ≡ some v
      → key v ≡ k
  unfolding get
  key-of_get key [] k v h e = cc
  key-of_get key ((i, w) ∷ d) k v h e = elim (Bool-cases (i == k)) [
    | inl q ↦ ground (arith, q, e, h.0, (eq_iff i k).0 q)
    | inr q ↦ key-of_get key d k v h.2 (rw q at e)
  ]

-- Of a key that an item has, `dict_of` holds an item of that key.
module _ {V : Type 0} (key : V → String) (k : String) (P : V → Type 0) where
  lookup-foldl :
      (xs : List V) (d : Dict V)
      → ((v : V) → Member v xs → key v ≡ k → P v)
      → ((v : V) × (get d k ≡ some v) × P v) ⊎ ((v : V) × Member v xs × (key v ≡ k))
      → (v : V) × (get (foldl (λ d x. put d (key x) x) d xs) k ≡ some v) × P v
  lookup-foldl [] d all (inl h) = h
  lookup-foldl [] d all (inr (v, m, e)) = absurd m
  lookup-foldl (x ∷ xs) d all h =
      lookup-foldl xs (put d (key x) x) (λ v m. all v (inr m)) (next h (Bool-cases (key x == k)))
    where
      Next : Type 0
      Next =
          ((v : V) × (get (put d (key x) x) k ≡ some v) × P v)
          ⊎ ((v : V) × Member v xs × (key v ≡ k))

      next :
          ((v : V) × (get d k ≡ some v) × P v) ⊎ ((v : V) × Member v (x ∷ xs) × (key v ≡ k))
          → ((key x == k) ≡ true) ⊎ ((key x == k) ≡ false)
          → Next
      next _ (inl q) =
          inl (x, ground (arith, get-put d (key x) k x, q), all x (inl refl) ((eq_iff _ _).0 q))
      next (inl (v, e, p)) (inr q) = inl (v, ground (arith, get-put d (key x) k x, q, e), p)
      next (inr (v, inl e, f)) (inr q) = absurd (cc (q, (eq_iff (key x) k).1 (ap key (sym e) ∙ f)))
      next (inr (v, inr m, f)) (inr q) = inr (v, m, f)

  pub get-dict_of :
      (xs : List V) (v : V)
      → Member v xs
      → key v ≡ k
      → ((v : V) → Member v xs → key v ≡ k → P v)
      → (w : V) × (get (dict_of key xs) k ≡ some w) × P w
  unfolding dict_of
  get-dict_of xs v m e all = lookup-foldl xs [] all (inr (v, m, e))

module _ {V : Type 0} (key : V → String) where
  foldl-IsKeyed :
      (xs : List V) (d : Dict V) → IsKeyed key d → IsKeyed key (foldl (λ d x. put d (key x) x) d xs)
  foldl-IsKeyed [] d h = h
  foldl-IsKeyed (x ∷ xs) d h =
      foldl-IsKeyed xs (put d (key x) x) (IsKeyed-put key d (key x) x h refl)

  pub dict_of-IsKeyed : (xs : List V) → IsKeyed key (dict_of key xs)
  unfolding dict_of
  dict_of-IsKeyed xs = foldl-IsKeyed xs [] tt
