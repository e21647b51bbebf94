-- ===== src/Risk.antt =====
-- RI/src/emcp_bus/common/models.py: the risk tiers and their order.
use enterprise_mcp_service_b.Base.{ℕ, String, Bool, leb}

pub data RiskTier : Type 0 where
  r0 r1 r2 r3 r4 : RiskTier

-- `_ORDER`
unfoldable pub order : RiskTier → ℕ
order r0 = 0
order r1 = 1
order r2 = 2
order r3 = 3
order r4 = 4

-- `tier.value`
unfoldable pub tier_value : RiskTier → String
tier_value r0 = "R0"
tier_value r1 = "R1"
tier_value r2 = "R2"
tier_value r3 = "R3"
tier_value r4 = "R4"

unfoldable pub risk_tier_at_or_below : RiskTier → RiskTier → Bool
unfolding order
risk_tier_at_or_below tier ceiling = leb (order tier) (order ceiling)
