-- ===== src/Identity/SharedClients.antt =====
-- RI/src/emcp_bus/identity/shared_client_lint.py: agents that share an MCP Client must be registered
-- against one profile.
use enterprise_mcp_service_b.Base.{
  ◌≡◌, refl, sym, ap, ◌∙◌, subst, ◌≢◌, ◌↔◌, ◌⊎◌, inl, inr, String, Bool, true, false, ◌||◌,
  Bool-cases, Option, none, some, List, [], ◌∷◌, map, Result, ok, err, Dict, get, put, get-put,
  ◌==◌, eq_iff, eq_refl, ◌<>◌, ltb, length, select, contains, str_leb, Member, Member-select,
  Member-of_select, Member-map, Member-of_map, All, All-member, if◌then◌else◌, arith,
}
use enterprise_mcp_service_b.Base.Sort.{sort_by, Member-sort_by, Member-of_sort_by}
use enterprise_mcp_service_b.Json.{str, arr, items_of, Runtime}
use enterprise_mcp_service_b.Identity.{ClientRegistration}

-- `defaultdict(set)`: a missing key reads as the empty set.
abbrev pub or_empty : Option (List String) → List String
or_empty none = []
or_empty (some ps) = ps

-- `s.add(name)`
abbrev pub add : String → List String → List String
add name s = if contains name s then s else name ∷ s

-- `profiles_by_client`, after the loop over the registrations
unfoldable pub profiles_by_client :
    List ClientRegistration → Dict (List String) → Dict (List String)
profiles_by_client [] d = d
profiles_by_client (r ∷ rs) d =
    profiles_by_client rs (put d r.client_id (add r.profile (or_empty (get d r.client_id))))

-- The order of `sorted(profiles_by_client.items())`; no two items have one key.
abbrev by_client_id : String × List String → String × List String → Bool
by_client_id a b = str_leb a.0 b.0

abbrev is_shared : String × List String → Bool
is_shared item = ltb 1 (length item.1)

module _ (rt : Runtime) where
  abbrev violation_for : String × List String → String
  violation_for item =
      "client_id "
      <> rt.repr_of (str item.0)
      <> " is registered against more than one profile: "
      <> rt.str_of (arr (items_of (sort_by str_leb item.1)))
      <> " (README.md §18/§35: agents sharing an MCP Client must resolve to the same profile)"

  unfoldable pub find_shared_client_violations : List ClientRegistration → List String
  find_shared_client_violations rs =
      map violation_for (select is_shared (sort_by by_client_id (profiles_by_client rs [])))

  abbrev pub raise_violations : List String → Result (List String) Unit
  raise_violations [] = ok tt
  raise_violations (v ∷ vs) = err (v ∷ vs)

  unfoldable pub assert_no_shared_client_violations :
      List ClientRegistration → Result (List String) Unit
  assert_no_shared_client_violations rs = raise_violations (find_shared_client_violations rs)

-- A registration of the client against the profile
abbrev Registered : String → String → List ClientRegistration → Type 0
Registered client_id profile rs =
    (r : ClientRegistration) × Member r rs × (r.client_id ≡ client_id) × (r.profile ≡ profile)

abbrev IsNameSet : List String → Type 0
IsNameSet [] = Unit
IsNameSet (x ∷ xs) = (contains x xs ≡ false) × IsNameSet xs

contains_name : (x : String) (xs : List String) → contains x (x ∷ xs) ≡ true
contains_name x xs = rw (eq_refl x) refl

contains-add : (x y : String) (s : List String) → contains x (add y s) ≡ ((x == y) || contains x s)
contains-add x y s = elim (Bool-cases (contains y s)) [
  | inl e ↦ ground (arith, e, eq_iff x y)
  | inr e ↦ rw e refl
]

add-IsNameSet : (y : String) (s : List String) → IsNameSet s → IsNameSet (add y s)
add-IsNameSet y s h = elim (Bool-cases (contains y s)) [ inl e ↦ rw e h | inr e ↦ rw e (e, h) ]

two-shared :
    (x y : String) (s : List String)
    → contains x s ≡ true
    → contains y s ≡ true
    → x ≢ y
    → ltb 1 (length s) ≡ true
two-shared x y [] h k n = cc
two-shared x y (z ∷ []) h k n = absurd (n (ground (arith, eq_iff x z, eq_iff y z)))
two-shared x y (z ∷ w ∷ s) h k n = ground arith

Member-of_get :
    (d : Dict (List String)) (k : String) (s : List String) → get d k ≡ some s → Member (k, s) d
unfolding get
Member-of_get [] k s h = cc
Member-of_get ((j, t) ∷ d) k s h = elim (Bool-cases (j == k)) [
  | inl e ↦ inl (ground (arith, e, h, (eq_iff j k).0 e))
  | inr e ↦ inr (Member-of_get d k s (rw e at h))
]

-- The profiles of a client that the dictionary holds
abbrev Holds : Dict (List String) → String → String → Type 0
Holds d client_id profile = contains profile (or_empty (get d client_id)) ≡ true

put-Holds :
    (d : Dict (List String)) (r : ClientRegistration) (c p : String)
    → (Holds d c p) ⊎ ((r.client_id ≡ c) × (r.profile ≡ p))
    → Holds (put d r.client_id (add r.profile (or_empty (get d r.client_id)))) c p
put-Holds d r c p (inr (e, f)) = ground (
  arith,
  get-put d r.client_id c (add r.profile (or_empty (get d r.client_id))),
  eq_iff r.client_id c,
  eq_refl p,
  contains-add p r.profile (or_empty (get d r.client_id)),
)
put-Holds d r c p (inl h) = ground (
  arith,
  get-put d r.client_id c (add r.profile (or_empty (get d r.client_id))),
  eq_iff r.client_id c,
  h,
  contains-add p r.profile (or_empty (get d r.client_id)),
)

Holds-of_Registered :
    (rs : List ClientRegistration) (d : Dict (List String)) (c p : String)
    → (Holds d c p) ⊎ (Registered c p rs)
    → Holds (profiles_by_client rs d) c p
unfolding profiles_by_client
Holds-of_Registered [] d c p (inl h) = h
Holds-of_Registered [] d c p (inr (r, m, f, g)) = absurd m
Holds-of_Registered (r ∷ rs) d c p (inl h) =
    Holds-of_Registered rs _ c p (inl (put-Holds d r c p (inl h)))
Holds-of_Registered (r ∷ rs) d c p (inr (k, inl e, f, g)) = Holds-of_Registered rs _ c p (
    inl (
      put-Holds d r c p (inr (ap (λ x. x.client_id) (sym e) ∙ f, ap (λ x. x.profile) (sym e) ∙ g))))
Holds-of_Registered (r ∷ rs) d c p (inr (k, inr m, f, g)) =
    Holds-of_Registered rs _ c p (inr (k, m, f, g))

-- What an item of the dictionary stands for
abbrev Good : List ClientRegistration → String × List String → Type 0
Good rs item = IsNameSet item.1 × ((p : String) → contains p item.1 ≡ true → Registered item.0 p rs)

All-put :
    (P : String × List String → Type 0) (d : Dict (List String)) (k : String) (s : List String)
    → All P d
    → P (k, s)
    → All P (put d k s)
unfolding put
All-put P [] k s h q = (q, tt)
All-put P ((j, t) ∷ d) k s h q = elim (Bool-cases (j == k)) [
  | inl e ↦ rw e (subst (λ x. P (x, s)) (sym ((eq_iff j k).0 e)) q, h.1)
  | inr e ↦ rw e (h.0, All-put P d k s h.1 q)
]

Good-get :
    (rs : List ClientRegistration) (d : Dict (List String)) (c : String)
    → All (Good rs) d
    → Good rs (c, or_empty (get d c))
Good-get rs d c h = go (get d c) refl
  where
    go : (o : Option (List String)) → get d c ≡ o → Good rs (c, or_empty o)
    go none e = (tt, λ p q. cc)
    go (some s) e = All-member (Good rs) (c, s) d h (Member-of_get d c s e)

Good-add :
    (rs : List ClientRegistration) (r : ClientRegistration) (s : List String)
    → Member r rs
    → Good rs (r.client_id, s)
    → Good rs (r.client_id, add r.profile s)
Good-add rs r s m h = (
  add-IsNameSet r.profile s h.0,
  λ p q. elim (Bool-cases (p == r.profile)) [
    | inl e ↦ (r, m, refl, sym ((eq_iff p r.profile).0 e))
    | inr e ↦ h.1 p (ground (arith, contains-add p r.profile s, q, e))
  ],
)

profiles_by_client-Good :
    (all rs : List ClientRegistration) (d : Dict (List String))
    → ((r : ClientRegistration) → Member r rs → Member r all)
    → All (Good all) d
    → All (Good all) (profiles_by_client rs d)
unfolding profiles_by_client
profiles_by_client-Good all [] d sub h = h
profiles_by_client-Good all (r ∷ rs) d sub h =
    profiles_by_client-Good all rs _ (λ k m. sub k (inr m))
      (All-put (Good all) d r.client_id _ h
        (Good-add all r _ (sub r (inl refl)) (Good-get all d r.client_id h)))

nil-of_no-Member : {A : Type 0} (xs : List A) → ((x : A) → ¬ Member x xs) → xs ≡ []
nil-of_no-Member [] h = refl
nil-of_no-Member (x ∷ xs) h = absurd (h x (inl refl))

no-Member-of_nil : {A : Type 0} (x : A) (xs : List A) → xs ≡ [] → Member x xs → ⊥
no-Member-of_nil x xs e m = subst (Member x) e m

-- All registrations of one client are against one profile.
abbrev pub AgreeOnProfiles : List ClientRegistration → Type 0
AgreeOnProfiles rs =
    (r r' : ClientRegistration)
    → Member r rs
    → Member r' rs
    → r.client_id ≡ r'.client_id
    → r.profile ≡ r'.profile

one_profile :
    (rs : List ClientRegistration) (item : String × List String)
    → AgreeOnProfiles rs
    → Good rs item
    → is_shared item ≡ false
one_profile rs (c, []) h g = refl
one_profile rs (c, x ∷ []) h g = refl
one_profile rs (c, x ∷ y ∷ s) h (distinct, from) =
    let (r, m, e, f) = from x (contains_name x (y ∷ s)) in
    let (r', m', e', f') = from y (ground (arith, eq_refl y)) in
    let same : x ≡ y = sym f ∙ h r r' m m' (e ∙ sym e') ∙ f' in
    let twice : contains x (y ∷ s) ≡ true =
      subst (λ z. contains z (y ∷ s) ≡ true) (sym same) (contains_name y s) in
    absurd (cc (distinct.0, twice))

str_dec : (s t : String) → (s ≡ t) ⊎ (s ≢ t)
str_dec s t = elim (Bool-cases (s == t)) [
  | inl e ↦ inl ((eq_iff s t).0 e)
  | inr e ↦ inr (λ q. cc (e, (eq_iff s t).1 q))
]

module _ (rt : Runtime) (rs : List ClientRegistration) where
  agree-of_none : find_shared_client_violations rt rs ≡ [] → AgreeOnProfiles rs
  unfolding find_shared_client_violations
  agree-of_none none_found r r' m m' e = elim (str_dec r.profile r'.profile) [
    | inl same ↦ same
    | inr differ ↦
        let d = profiles_by_client rs [] in
        let here : Holds d r.client_id r.profile =
          Holds-of_Registered rs [] r.client_id r.profile (inr (r, m, refl, refl)) in
        let there : Holds d r.client_id r'.profile =
          Holds-of_Registered rs [] r.client_id r'.profile (inr (r', m', sym e, refl)) in
        absurd (listed (get d r.client_id) refl here there differ)
  ]
    where
      listed :
          (o : Option (List String))
          → get (profiles_by_client rs []) r.client_id ≡ o
          → contains r.profile (or_empty o) ≡ true
          → contains r'.profile (or_empty o) ≡ true
          → r.profile ≢ r'.profile
          → ⊥
      listed none f h k n = cc
      listed (some s) f h k n = no-Member-of_nil _ _ none_found (
          Member-map (violation_for rt) (r.client_id, s)
            (select is_shared (sort_by by_client_id (profiles_by_client rs [])))
            (Member-select is_shared (r.client_id, s) _
              (Member-sort_by by_client_id _ _
                (Member-of_get (profiles_by_client rs []) r.client_id s f))
              (two-shared r.profile r'.profile s h k n)))

  none-of_agree : AgreeOnProfiles rs → find_shared_client_violations rt rs ≡ []
  unfolding find_shared_client_violations
  none-of_agree h = nil-of_no-Member _ λ v m.
      let items = sort_by by_client_id (profiles_by_client rs []) in
      let (item, found, e) = Member-of_map (violation_for rt) v (select is_shared items) m in
      let (held, shared) = Member-of_select is_shared item items found in
      let good =
        All-member (Good rs) item _ (profiles_by_client-Good rs rs [] (λ r k. k) tt)
          (Member-of_sort_by by_client_id item _ held) in
      cc (shared, one_profile rs item h good)

  -- The lint finds no violation exactly when all registrations of one MCP Client, in whatever order
  -- they stand, are against one profile.
  pub find_shared_client_violations_iff : (find_shared_client_violations rt rs ≡ []) ↔ (
      (r r' : ClientRegistration)
      → Member r rs
      → Member r' rs
      → r.client_id ≡ r'.client_id
      → r.profile ≡ r'.profile)
  find_shared_client_violations_iff = (agree-of_none, none-of_agree)
