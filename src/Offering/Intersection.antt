-- ===== src/Offering/Intersection.antt =====
-- The offerings are an intersection.
use enterprise_mcp_service_b.Base.{
  ◌≡◌, true, String, List, ◌↔◌, Member, contains, Member-select, Member-of_select,
}
use enterprise_mcp_service_b.Registry.Models.{CapabilityManifest}
use enterprise_mcp_service_b.Offering.{ConsentContext, matches_context, filtered_offerings}

-- The filtered offerings are exactly the active manifests whose names are entitled and whose data
-- classification the context permits.
pub filtered_offerings_iff :
    (active : List CapabilityManifest) (allowed_tools : List String) (context : ConsentContext)
    (m : CapabilityManifest)
    → Member m (filtered_offerings active allowed_tools context) ↔ (
        Member m active
        × (contains m.name allowed_tools ≡ true)
        × (matches_context m context ≡ true))
unfolding filtered_offerings
filtered_offerings_iff active allowed context m = (
  λ h.
      let (h', fits) = Member-of_select (λ m. matches_context m context) m _ h in
      let (mem, named) = Member-of_select (λ m. contains m.name allowed) m active h' in
      (mem, named, fits),
  λ (mem, named, fits).
      Member-select (λ m. matches_context m context) m _
        (Member-select (λ m. contains m.name allowed) m active mem named) fits,
)
