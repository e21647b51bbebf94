-- ===== src/Registry/Catalogue.antt =====
-- The registry against its contract: a function from names to manifests.
use mathlib.Core.Path.{fun_ext}
use enterprise_mcp_service_b.Base.{
  String, ◌≡◌, refl, sym, ap, ◌∙◌, subst, Bool-cases, Option, none, some, List, [], ◌∷◌, Result, ok,
  err, Result-cases, inl, inr, ◌==◌, if◌then◌else◌, arith,
}
use enterprise_mcp_service_b.Registry.Models.{
  CapabilityManifest, LifecycleStatus, register, active, with_status,
}
use enterprise_mcp_service_b.Registry.Lifecycle.{not_allowed}
use enterprise_mcp_service_b.Registry.Store.{
  RegistryStore, RegistryError, capability_not_found, invalid_transition, publishing_rejected,
  upsert, fetch, set_lifecycle_status,
}
use enterprise_mcp_service_b.Registry.Store.Rows.{
  IsConsistent, upsert-IsConsistent, fetch-upsert, name-of_fetch, fetch-err,
}
use enterprise_mcp_service_b.Registry.Pipeline.{run_gates, submit, publish}
use enterprise_mcp_service_b.Registry.Pipeline.Steps.{
  submitted, promoted, fetch-submitted, submit_lem, is_publishable, publish_found,
  set_lifecycle_status_lem, set_lifecycle_status_missing,
}

-- The operations of the registry: `upsert` and `set_lifecycle_status` of the store, `submit` and
-- `publish` of the pipeline.
pub data Op : Type 0 where
  upserts submits : CapabilityManifest → Op
  publishes : String → Op
  sets : String → LifecycleStatus → Op

-- What an operation answers: a manifest, nothing, or an exception.
abbrev pub Reply : Type 0
Reply = Result RegistryError (Option CapabilityManifest)

-- The contract's state: what each name reads as.
abbrev pub Catalogue : Type 0
Catalogue = String → Option CapabilityManifest

abbrev pub assign : String → CapabilityManifest → Catalogue → Catalogue
assign name m c other = if name == other then some m else c other

abbrev on_gates : CapabilityManifest → List String → Catalogue → Reply × Catalogue
on_gates m [] c = (ok (some (with_status register m)), assign m.name (with_status register m) c)
on_gates m (r ∷ rs) c = (err (publishing_rejected (r ∷ rs)), c)

abbrev on_publish : String → Option CapabilityManifest → Catalogue → Reply × Catalogue
on_publish name none c = (err (capability_not_found name), c)
on_publish name (some m) c =
    if is_publishable m.lifecycle.status
    then (ok (some (with_status active m)), assign name (with_status active m) c)
    else (err (invalid_transition (not_allowed m.lifecycle.status active)), c)

abbrev on_set : String → LifecycleStatus → Option CapabilityManifest → Catalogue → Reply × Catalogue
on_set name status none c = (err (capability_not_found name), c)
on_set name status (some m) c = (ok none, assign name (with_status status m) c)

-- The contract: a submitted manifest that passes the gates is read back at REGISTER, a publication
-- takes REGISTER or ACTIVE to ACTIVE, and each raises with no effect otherwise.
unfoldable pub promise : Op → Catalogue → Reply × Catalogue
promise (upserts m) c = (ok none, assign m.name m c)
promise (submits m) c = on_gates m (run_gates m) c
promise (publishes name) c = on_publish name (c name) c
promise (sets name status) c = on_set name status (c name) c

abbrev told : {A B : Type 0} → (A → B) → Result RegistryError A → Result RegistryError B
told f (ok a) = ok (f a)
told f (err e) = err e

-- The operation on the store.
unfoldable pub apply : Op → RegistryStore → Reply × RegistryStore
apply (upserts m) s = (ok none, upsert m s)
apply (submits m) s = let (r, s') = submit m s in (told some r, s')
apply (publishes name) s = let (r, s') = publish name s in (told some r, s')
apply (sets name status) s =
    let (r, s') = set_lifecycle_status name status s in (told (λ _. none) r, s')

unfoldable pub apply_all : List Op → RegistryStore → List Reply × RegistryStore
apply_all [] s = ([], s)
apply_all (op ∷ ops) s =
    let (r, s') = apply op s in let (rs, s'') = apply_all ops s' in (r ∷ rs, s'')

unfoldable pub promise_all : List Op → Catalogue → List Reply × Catalogue
promise_all [] c = ([], c)
promise_all (op ∷ ops) c =
    let (r, c') = promise op c in let (rs, c'') = promise_all ops c' in (r ∷ rs, c'')

abbrev known : Result RegistryError CapabilityManifest → Option CapabilityManifest
known (ok m) = some m
known (err e) = none

-- What a store reads as.
unfoldable pub view : RegistryStore → Catalogue
view s name = known (fetch name s)

view-upsert :
    (m : CapabilityManifest) (s : RegistryStore) → view (upsert m s) ≡ assign m.name m (view s)
unfolding view
view-upsert m s = fun_ext (λ name. ground (arith, fetch-upsert m s name))

view-submitted :
    (m : CapabilityManifest) (s : RegistryStore)
    → view (submitted m s) ≡ assign m.name (with_status register m) (view s)
unfolding view
view-submitted m s = fun_ext (λ name. ground (arith, fetch-submitted m s name))

submitted-IsConsistent :
    (m : CapabilityManifest) (s : RegistryStore) → IsConsistent s → IsConsistent (submitted m s)
submitted-IsConsistent m s h =
    upsert-IsConsistent _ _ (upsert-IsConsistent _ _ (upsert-IsConsistent _ s h))

-- An operation keeps the promise at a store.
record Keeps (op : Op) (s : RegistryStore) : Type 0 where
  replies : (apply op s).0 ≡ (promise op (view s)).0
  reads : view (apply op s).1 ≡ (promise op (view s)).1
  stays : IsConsistent (apply op s).1

submits-Keeps : (m : CapabilityManifest) (s : RegistryStore) → IsConsistent s → Keeps (submits m) s
unfolding apply promise
submits-Keeps m s h = go (run_gates m) refl
  where
    go : (reasons : List String) → run_gates m ≡ reasons → Keeps (submits m) s
    go [] e = record {
      replies = rw e (ap (λ p. told some p.0) (promoted m s e));
      reads = rw e (ap (λ p. view p.1) (promoted m s e) ∙ view-submitted m s);
      stays = subst (λ p. IsConsistent p.1) (sym (promoted m s e)) (submitted-IsConsistent m s h);
    }
    go (r ∷ rs) e = elim (submit_lem m s) [
      | inl (q, _, _) ↦ absurd (cc)
      | inr (q, f) ↦ record {
        replies = ap (λ p. told some p.0) f ∙ rw e refl;
        reads = ap (λ p. view p.1) f ∙ rw e refl;
        stays = subst (λ p. IsConsistent p.1) (sym f) h;
      }
    ]

publishes-Keeps : (name : String) (s : RegistryStore) → IsConsistent s → Keeps (publishes name) s
unfolding apply promise view
publishes-Keeps name s h = elim (Result-cases (fetch name s)) [
  | inr (e, f) ↦
      let raised : publish name s ≡ (err (capability_not_found name), s) =
        unfold publish in rw f (rw (fetch-err s name e f)) in
      record {
        replies = ap (λ p. told some p.0) raised ∙ rw f refl;
        reads = ap (λ p. view p.1) raised ∙ rw f refl;
        stays = subst (λ p. IsConsistent p.1) (sym raised) h;
      }
  | inl (m, f) ↦
      let same = name-of_fetch s name m h f in
      let done = publish_found name s m f same in
      elim (Bool-cases (is_publishable m.lifecycle.status)) [
        | inl q ↦ record {
          replies = ap (λ p. told some p.0) done ∙ rw f (rw q refl);
          reads =
              ap (λ p. view p.1) done
              ∙ rw f (rw q (view-upsert (with_status active m) s ∙ rw same refl));
          stays =
              subst (λ p. IsConsistent p.1) (sym done)
                (rw q (upsert-IsConsistent (with_status active m) s h));
        }
        | inr q ↦ record {
          replies = ap (λ p. told some p.0) done ∙ rw f (rw q refl);
          reads = ap (λ p. view p.1) done ∙ rw f (rw q refl);
          stays = subst (λ p. IsConsistent p.1) (sym done) (rw q h);
        }
      ]
]

sets-Keeps :
    (name : String) (status : LifecycleStatus) (s : RegistryStore)
    → IsConsistent s
    → Keeps (sets name status) s
unfolding apply promise view
sets-Keeps name status s h = elim (Result-cases (fetch name s)) [
  | inr (e, f) ↦
      let raised = set_lifecycle_status_missing name status s e f in
      record {
        replies = ap (λ p. told (λ _. none) p.0) raised ∙ rw f (rw (fetch-err s name e f) refl);
        reads = ap (λ p. view p.1) raised ∙ rw f refl;
        stays = subst (λ p. IsConsistent p.1) (sym raised) h;
      }
  | inl (m, f) ↦
      let done = set_lifecycle_status_lem name status s m f in
      record {
        replies = ap (λ p. told (λ _. none) p.0) done ∙ rw f refl;
        reads =
            ap (λ p. view p.1) done
            ∙ rw f (view-upsert (with_status status m) s ∙ rw (name-of_fetch s name m h f) refl);
        stays =
            subst (λ p. IsConsistent p.1) (sym done)
              (upsert-IsConsistent (with_status status m) s h);
      }
]

apply-Keeps : (op : Op) (s : RegistryStore) → IsConsistent s → Keeps op s
apply-Keeps (submits m) s h = submits-Keeps m s h
apply-Keeps (publishes name) s h = publishes-Keeps name s h
apply-Keeps (sets name status) s h = sets-Keeps name status s h
apply-Keeps (upserts m) s h =
    unfold apply promise in
    record { replies = refl; reads = view-upsert m s; stays = upsert-IsConsistent m s h }

-- The registry refines its contract: over any sequence of operations from a consistent store, each
-- answer and each exception is the one that the contract promises, and afterwards every name reads as
-- the contract says.
pub apply_all_refines :
    (ops : List Op) (s : RegistryStore)
    → IsConsistent s
    → ((apply_all ops s).0 ≡ (promise_all ops (view s)).0)
      × (view (apply_all ops s).1 ≡ (promise_all ops (view s)).1)
unfolding apply_all promise_all
apply_all_refines [] s h = (refl, refl)
apply_all_refines (op ∷ ops) s h =
    let k = apply-Keeps op s h in
    let ih = apply_all_refines ops (apply op s).1 k.stays in
    let c = (promise op (view s)).1 in
    (
      ap (λ r. r ∷ (apply_all ops (apply op s).1).0) k.replies
          ∙ ap (λ rs. (promise op (view s)).0 ∷ rs)
              (ih.0 ∙ ap (λ c. (promise_all ops c).0) k.reads),
      ih.1 ∙ ap (λ c. (promise_all ops c).1) k.reads,
    )
