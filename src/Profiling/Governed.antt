-- ===== src/Profiling/Governed.antt =====
-- The profiles that the rule-based provider gives pass the guardrails of governance.py.
use text.Mathlib.Text.{starts_with}
use text.Mathlib.TextPositions.{starts_with-append}
use Prim.Native.Nat.{◌*◌, ◌%◌}
use Prim.Native.String.{slice}
use enterprise_mcp_service_b.Base.{
  ℕ, ◌+◌, ◌-◌, ◌≤◌, ◌<◌, String, ◌≡◌, refl, ◌⊎◌, inl, inr, List, ◌∷◌, ok, err, [], true, length,
  if◌then◌else◌, zero, suc, codes, arith, has_marker, ◌<>◌,
}
use enterprise_mcp_service_b.Json.{Runtime}
use enterprise_mcp_service_b.Orchestrator.{ProfileView, Segment}
use enterprise_mcp_service_b.Profiling.{
  pseudonymize_subject, assert_no_raw_pii, not_pseudonymized, engagement_bands, channel_pools, item,
  Calendar, hex_digit, two_hex, rounded, Scores, scores_of, segment, profile_of, view_of,
  resolve_profile, window_of,
}

-- A digit as `hexdigest` writes it: 0 to 9, or a to f.
abbrev pub IsHexDigit : ℕ → Type 0
IsHexDigit c = ((48 ≤ c) × (c ≤ 57)) ⊎ ((97 ≤ c) × (c ≤ 102))

-- A text that starts with six hexadecimal digits
pub data StartsHex : List ℕ → Type 0 where
  six :
      (a b c d e f : ℕ) (rest : List ℕ)
      → IsHexDigit a
      → IsHexDigit b
      → IsHexDigit c
      → IsHexDigit d
      → IsHexDigit e
      → IsHexDigit f
      → StartsHex (a ∷ b ∷ c ∷ d ∷ e ∷ f ∷ rest)

hex_digit_bound : (c : ℕ) → IsHexDigit c → (n : ℕ) × (hex_digit c ≡ ok n) × (n < 16)
hex_digit_bound c (inl (p, q)) = (c - 48, ground arith, omega arith)
hex_digit_bound c (inr (p, q)) = (c - 87, ground arith, omega arith)

two_hex_bound : (c d : ℕ) → IsHexDigit c → IsHexDigit d → (n : ℕ) × (two_hex c d ≡ ok n) × (n ≤ 255)
two_hex_bound c d h k =
    let (m, e, p) = hex_digit_bound c h in
    let (n, f, q) = hex_digit_bound d k in (16 * m + n, rw e (rw f refl), omega arith)

item_ok : {A : Type 0} (xs : List A) (n : ℕ) → n < length xs → (a : A) × (item xs n ≡ ok a)
unfolding item
item_ok [] n h = absurd (omega arith)
item_ok (x ∷ xs) zero h = (x, refl)
item_ok (x ∷ xs) (suc n) h = item_ok xs n (omega arith)

abbrev InRange : Scores → Type 0
InRange s = (s.low_engagement ≤ 255) × (s.digital_preference ≤ 255)

scores-InRange : (cs : List ℕ) → StartsHex cs → (s : Scores) × (scores_of cs ≡ ok s) × InRange s
unfolding scores_of
scores-InRange cs (six a b c d e f rest ha hb hc hd he hf) =
    let (m, p, _) = hex_digit_bound a ha in
    let (n, q, _) = hex_digit_bound b hb in
    let (band, u) = item_ok engagement_bands (m % 3) (omega arith) in
    let (pool, v) = item_ok channel_pools (n % 4) (omega arith) in
    let (low, r, lb) = two_hex_bound c d hc hd in
    let (dig, t, db) = two_hex_bound e f he hf in
    (
      record { band = band; pool = pool; low_engagement = low; digital_preference = dig },
      rw p (rw u (rw q (rw v (rw r (rw t refl))))),
      (lb, db),
    )

segment_ok :
    (cal : Calendar) (id : String) (n : ℕ)
    → n ≤ 255
    → segment cal id (rounded n) ≡ ok (record { id = id; score = cal.hundredths_text (rounded n) })
segment_ok cal id n h = let fits : rounded n ≤ 100 = omega arith in ground (arith, fits)

profile_of_ok :
    (cal : Calendar) (subject_ref : String) (as_of ttl : ℕ) (digest : String) (s : Scores)
    → InRange s
    → (low : Segment) × (digital : Segment) × (profile_of cal subject_ref as_of ttl digest s
        ≡ ok (view_of cal subject_ref as_of ttl digest s low digital))
unfolding profile_of
profile_of_ok cal subject_ref as_of ttl digest s (low, digital) = (
  record { id = "low-engagement"; score = cal.hundredths_text (rounded s.low_engagement) },
  record { id = "digital-preference"; score = cal.hundredths_text (rounded s.digital_preference) },
  rw (segment_ok cal "low-engagement" s.low_engagement low)
      (rw (segment_ok cal "digital-preference" s.digital_preference digital) refl),
)

-- The attributes of a view have no key that looks like personal data, so that the check looks at the
-- subject alone.
checked :
    (cal : Calendar) (subject_ref : String) (as_of ttl : ℕ) (digest : String) (s : Scores)
    (low digital : Segment)
    → assert_no_raw_pii (view_of cal subject_ref as_of ttl digest s low digital)
      ≡ (if starts_with subject_ref "subject:" then ok tt else err (not_pseudonymized subject_ref))
unfolding assert_no_raw_pii has_marker
checked cal subject_ref as_of ttl digest s low digital = refl

-- When digests start with six hexadecimal digits, the provider gives every subject a profile at every
-- time: no index, no digit and no score is out of range. The profile is of that subject, and expires
-- after the provider's time to live; it passes the check for raw personal data exactly when the subject
-- starts with `subject:`, as every pseudonym does.
pub resolve_profile_lem :
    (rt : Runtime) (cal : Calendar) (subject_ref : String) (as_of ttl : ℕ)
    → ((text : String) → StartsHex (codes (rt.sha256 text)))
    → ((view : ProfileView) × (resolve_profile cal rt ttl subject_ref as_of ≡ ok view)
        × (view.subject_ref ≡ subject_ref)
        × (view.expires_at ≡ as_of + ttl)
        × (assert_no_raw_pii view ≡ (
            if starts_with subject_ref "subject:"
            then ok tt
            else err (not_pseudonymized subject_ref))))
      × ((raw : String) → starts_with (pseudonymize_subject rt raw) "subject:" ≡ true)
unfolding resolve_profile pseudonymize_subject
resolve_profile_lem rt cal subject_ref as_of ttl hex =
    let digest = rt.sha256 (subject_ref <> ":" <> window_of cal as_of) in
    let (s, e, good) = scores-InRange (codes digest) (hex _) in
    let (low, digital, f) = profile_of_ok cal subject_ref as_of ttl digest s good in
    (
      (
        view_of cal subject_ref as_of ttl digest s low digital,
        rw e f,
        refl,
        refl,
        checked cal subject_ref as_of ttl digest s low digital,
      ),
      λ raw. starts_with-append "subject:" (slice (rt.sha256 raw) 0 6),
    )
