-- ===== src/Registry/Store/Rows.antt =====
-- The store's invariant, and what its reads return.
use enterprise_mcp_service_b.Base.{
  String, ◌≡◌, refl, sym, ap, subst, ◌∙◌, ◌↔◌, true, some, List, ok, err, arith, get, get-put,
  values, IsKeyed, IsKeyed-put, Every, Every-put, Member-values, get-of_Member, Member,
  Member-select, Member-of_select, Member-map, Member-of_map, key-of_get, select, map,
  if◌then◌else◌, ◌==◌,
}
use enterprise_mcp_service_b.Base.Sort.{Member-sort_by, Member-of_sort_by}
use enterprise_mcp_service_b.Registry.Models.{
  CapabilityManifest, LifecycleStatus, active, status_eq,
}
use enterprise_mcp_service_b.Registry.Store.{
  RegistryStore, Row, RegistryError, capability_not_found, row_of, row_manifest, is_active_row,
  by_name, upsert, fetch, list_active,
}

abbrev row_name : Row → String
row_name row = row.manifest_json.name

-- The columns of a row agree with its manifest.
abbrev pub Agrees : Row → Type 0
Agrees row =
    (row.lifecycle_status ≡ row.manifest_json.lifecycle.status)
    × (row.domain ≡ row.manifest_json.domain)

-- Rows stand once under their own names, and their columns agree with their manifests.
pub record IsConsistent (s : RegistryStore) : Type 0 where
  pub keyed : IsKeyed row_name s
  pub agrees : Every Agrees s

pub upsert-IsConsistent :
    (m : CapabilityManifest) (s : RegistryStore) → IsConsistent s → IsConsistent (upsert m s)
unfolding upsert
upsert-IsConsistent m s h = record {
  keyed = IsKeyed-put row_name s m.name (row_of m) h.keyed refl;
  agrees = Every-put Agrees s m.name (row_of m) h.agrees (refl, refl);
}

pub fetch-upsert :
    (m : CapabilityManifest) (s : RegistryStore) (name : String)
    → fetch name (upsert m s) ≡ (if m.name == name then ok m else fetch name s)
unfolding fetch upsert
fetch-upsert m s name = ground (arith, get-put s m.name name (row_of m))

status_eq_sound : (a b : LifecycleStatus) → status_eq a b ≡ true → a ≡ b
status_eq_sound a b h = ground arith

fetch-of_get :
    (s : RegistryStore) (name : String) (row : Row)
    → get s name ≡ some row
    → fetch name s ≡ ok row.manifest_json
unfolding fetch
fetch-of_get s name row h = ground arith

pub row_of_fetch :
    (s : RegistryStore) (name : String) (m : CapabilityManifest)
    → fetch name s ≡ ok m
    → (row : Row) × (get s name ≡ some row) × (row.manifest_json ≡ m)
unfolding fetch
row_of_fetch s name m h = ground arith

active_row :
    (s : RegistryStore) (row : Row)
    → IsConsistent s
    → Member row (values s)
    → is_active_row row ≡ true
    → (fetch (row_name row) s ≡ ok row.manifest_json)
      × (row.manifest_json.lifecycle.status ≡ active)
active_row s row h held on =
    let at = get-of_Member row_name s row h.keyed held in
    (fetch-of_get s _ row at, sym ((h.agrees (row_name row) row at).0) ∙ status_eq_sound _ _ on)

-- What `list_active` returns is exactly the manifests that the store holds under their own names
-- with status ACTIVE.
pub list_active_lem :
    (s : RegistryStore) (m : CapabilityManifest)
    → IsConsistent s
    → Member m (list_active s) ↔ ((fetch m.name s ≡ ok m) × (m.lifecycle.status ≡ active))
unfolding list_active
list_active_lem s m h = (forth, back)
  where
    actives : List Row
    actives = select is_active_row (values s)

    forth : Member m (list_active s) → (fetch m.name s ≡ ok m) × (m.lifecycle.status ≡ active)
    forth mem =
        let (row, found, e) =
          Member-of_map row_manifest m actives
            (Member-of_sort_by by_name m (map row_manifest actives) mem) in
        let (held, on) = Member-of_select is_active_row row (values s) found in
        subst (λ m. (fetch m.name s ≡ ok m) × (m.lifecycle.status ≡ active)) (sym e)
          (active_row s row h held on)

    back : (fetch m.name s ≡ ok m) × (m.lifecycle.status ≡ active) → Member m (list_active s)
    back (f, e) =
        let (row, at, same) = row_of_fetch s m.name m f in
        let named : get s (row_name row) ≡ some row =
          subst (λ n. get s n ≡ some row) (sym (ap (λ c. c.name) same)) at in
        let held = Member-values row_name s row h.keyed named in
        let on : is_active_row row ≡ true = ground (arith, (h.agrees m.name row at).0, same, e) in
        Member-sort_by by_name m (map row_manifest actives) (
          subst (λ c. Member c (map row_manifest actives)) same
            (Member-map row_manifest row actives
              (Member-select is_active_row row (values s) held on)))

-- A manifest is read under its own name only.
pub name-of_fetch :
    (s : RegistryStore) (name : String) (m : CapabilityManifest)
    → IsConsistent s
    → fetch name s ≡ ok m
    → m.name ≡ name
name-of_fetch s name m h f =
    let (row, at, same) = row_of_fetch s name m f in
    ap (λ c. c.name) (sym same) ∙ key-of_get row_name s name row h.keyed at

pub fetch-err :
    (s : RegistryStore) (name : String) (e : RegistryError)
    → fetch name s ≡ err e
    → e ≡ capability_not_found name
unfolding fetch
fetch-err s name e h = ground arith
