-- ===== src/Base/Text.antt =====
-- Texts: joins, tests for a part of a text, and the order of texts by code points.
use Prim.Native.Nat.{ℕ, ◌+◌}
use Prim.Native.Char.{code}
use Prim.Native.String.{String, compare}
use mathlib.Core.Bool.{Bool, true, false, ◌||◌, ◌&&◌}
use mathlib.Core.List.{List, [], ◌∷◌, map}
use text.Mathlib.Text.{is_le, ◌==◌}
use enterprise_mcp_service_b.Base.Tests.{leb, if◌then◌else◌}
use enterprise_mcp_service_b.Base.Lists.{any}

-- `a + b`, as in an f-string
infixr 65 ◌<>◌
abbrev pub ◌<>◌ : String → String → String
◌<>◌ = Prim.Native.String.◌++◌

-- `a <= b`: by code points, which is also SQLite's order of the UTF-8 bytes
abbrev pub str_leb : String → String → Bool
str_leb s t = is_le (compare s t)

-- `separator.join(texts)`
unfoldable pub join : String → List String → String
join separator [] = ""
join separator (t ∷ []) = t
join separator (t ∷ u ∷ ts) = t <> separator <> join separator (u ∷ ts)

-- The code points of a text.
abbrev pub codes : String → List ℕ
codes String.[] = []
codes (String.◌∷◌ c s) = code c ∷ codes s

-- `s.lower()` on the code points, for the letters A to Z.
abbrev pub lower : List ℕ → List ℕ
lower = map (λ c. if leb 65 c && leb c 90 then c + 32 else c)

-- `text in whole`, on code points
abbrev pub begins : List ℕ → List ℕ → Bool
begins [] whole = true
begins (c ∷ text) [] = false
begins (c ∷ text) (d ∷ whole) = (leb c d && leb d c) && begins text whole

abbrev pub has_part : List ℕ → List ℕ → Bool
has_part text [] = begins text []
has_part text (d ∷ whole) = begins text (d ∷ whole) || has_part text whole

-- `any(marker in key.lower() for marker in markers)`
unfoldable pub has_marker : List String → String → Bool
has_marker markers key = any (λ marker. has_part (codes marker) (lower (codes key))) markers

-- `whole.endswith(text)`
unfoldable pub ends_with : String → String → Bool
ends_with String.[] text = "" == text
ends_with (String.◌∷◌ c whole) text = String.◌∷◌ c whole == text || ends_with whole text
