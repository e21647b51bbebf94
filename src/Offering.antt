-- ===== src/Offering.antt =====
-- RI/src/emcp_bus/offering_filter/service.py: the offerings for a subject.
pub mod Intersection
use enterprise_mcp_service_b.Base.{
  Bool, true, false, not, String, List, [], ◌∷◌, select, contains, any, if◌then◌else◌,
}
use enterprise_mcp_service_b.Registry.Models.{
  CapabilityManifest, DataClassification, public, internal, confidential, restricted,
}

pub record ConsentContext : Type 0 where
  pub allow_restricted_data : Bool

abbrev pub is_restricted : DataClassification → Bool
is_restricted restricted = true
is_restricted _ = false

unfoldable pub matches_context : CapabilityManifest → ConsentContext → Bool
matches_context m context =
    if context.allow_restricted_data then true else not (any is_restricted m.data_classification)

-- `active` is what the source's `list_active` answers.
unfoldable pub filtered_offerings :
    List CapabilityManifest → List String → ConsentContext → List CapabilityManifest
filtered_offerings active allowed_tools context =
    select (λ m. matches_context m context) (select (λ m. contains m.name allowed_tools) active)
