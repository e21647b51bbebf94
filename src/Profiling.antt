-- ===== src/Profiling.antt =====
-- RI/src/emcp_bus/profile_intelligence/: the rule-based provider of profiles, and the guardrails of
-- governance.py. A score is a count of hundredths, as `round(n / 255, 2)` gives it; the texts of
-- numbers are arguments.
pub mod Governed
use Prim.Native.Nat.{◌*◌, ◌/◌, ◌%◌}
use Prim.Native.String.{slice}
use text.Mathlib.Text.{starts_with}
use enterprise_mcp_service_b.Base.{
  ℕ, zero, suc, ◌+◌, ◌-◌, String, Bool, true, false, not, ◌&&◌, Option, none, some, List, [], ◌∷◌,
  ◌++◌, Result, ok, err, Dict, get, ◌<>◌, ltb, leb, codes, length, contains, has_marker,
  if◌then◌else◌, ◌>>=◌, join,
}
use enterprise_mcp_service_b.Json.{Runtime}
use enterprise_mcp_service_b.Orchestrator.{Segment, ProfileView}

-- `_SENSITIVE_ATTRIBUTE_KEY_MARKERS`
abbrev sensitive_attribute_key_markers : List String
sensitive_attribute_key_markers =
    "email" ∷ "cpf" ∷ "ssn" ∷ "phone" ∷ "name" ∷ "address" ∷ "birthdate" ∷ "document" ∷ []

unfoldable pub pseudonymize_subject : Runtime → String → String
pseudonymize_subject rt raw_identifier = "subject:" <> slice (rt.sha256 raw_identifier) 0 6

pub data LeakageError : Type 0 where
  not_pseudonymized : String → LeakageError
  looks_like_pii : String → LeakageError

-- The loop over the keys of the attributes
unfoldable pub check_keys : List (String × String) → Result LeakageError Unit
check_keys [] = ok tt
check_keys ((key, value) ∷ rest) =
    let others = check_keys rest in
    if has_marker sensitive_attribute_key_markers key then err (looks_like_pii key) else others

unfoldable pub assert_no_raw_pii : ProfileView → Result LeakageError Unit
unfolding check_keys
assert_no_raw_pii view =
    if starts_with view.subject_ref "subject:"
    then check_keys view.attributes
    else err (not_pseudonymized view.subject_ref)

pub record FeatureLineageRecord : Type 0 where
  pub subject_ref : String
  pub profile_version : String
  pub features : List String
  pub purpose : String
  pub time_window : String
  pub resolved_at : ℕ

-- `FeatureLineageLog.record`; the log is the list of its records.
unfoldable pub record_lineage :
    ProfileView
    → List String
    → (purpose time_window : String) → ℕ
    → List FeatureLineageRecord
    → FeatureLineageRecord × List FeatureLineageRecord
record_lineage view features purpose time_window now records =
    let entry : FeatureLineageRecord = record {
      subject_ref = view.subject_ref;
      profile_version = view.profile_version;
      features = features;
      purpose = purpose;
      time_window = time_window;
      resolved_at = now;
    } in
    (entry, records ++ entry ∷ [])

pub record DriftReport : Type 0 where
  pub segment_id : String
  pub baseline_score : String
  pub observed_score : String
  pub drifted : Bool

-- `DriftMonitor.check`; `moved a b` is `abs(a - b) > self._threshold` on floats.
unfoldable pub check_drift :
    (String → String → Bool) → List Segment → Dict String → List DriftReport
check_drift moved [] baseline = []
check_drift moved (segment ∷ segments) baseline =
    let rest = check_drift moved segments baseline in
    elim (get baseline segment.id) [
      | none ↦ rest
      | some baseline_score ↦
          record {
            segment_id = segment.id;
            baseline_score = baseline_score;
            observed_score = segment.score;
            drifted = moved segment.score baseline_score;
          }
          ∷ rest
    ]

-- What the provider takes from the standard library: the ISO year and week of a time, and the texts of
-- a year, of a week in two digits, and of a float of so many hundredths.
pub record Calendar : Type 0 where
  pub isocalendar : ℕ → ℕ × ℕ
  pub year_text : ℕ → String
  pub two_digits : ℕ → String
  pub hundredths_text : ℕ → String

pub data ProviderError : Type 0 where
  value_error index_error : ProviderError
  validation_error : ProviderError

-- `int(digit, 16)`, for a digit that is ASCII
abbrev pub hex_digit : ℕ → Result ProviderError ℕ
hex_digit c =
    if leb 48 c && leb c 57
    then ok (c - 48)
    else if leb 97 c && leb c 102
    then ok (c - 87)
    else if leb 65 c && leb c 70
    then ok (c - 55)
    else err value_error

abbrev pub two_hex : ℕ → ℕ → Result ProviderError ℕ
two_hex c d = do high ← hex_digit c; low ← hex_digit d; ok (16 * high + low)

abbrev pub engagement_bands : List String
engagement_bands = "low" ∷ "medium" ∷ "high" ∷ []

abbrev pub channel_pools : List (List String)
channel_pools =
    ("app" ∷ []) ∷ ("app" ∷ "email" ∷ []) ∷ ("email" ∷ "sms" ∷ []) ∷ ("app" ∷ "sms" ∷ []) ∷ []

-- `xs[n]`
unfoldable pub item : {A : Type 0} → List A → ℕ → Result ProviderError A
item [] n = err index_error
item (x ∷ xs) zero = ok x
item (x ∷ xs) (suc n) = item xs n

-- `round(n / 255, 2)`, in hundredths; no `n / 255` lies half way.
abbrev pub rounded : ℕ → ℕ
rounded n = (200 * n + 255) / 510

-- What the provider takes of a digest.
pub record Scores : Type 0 where
  pub band : String
  pub pool : List String
  pub low_engagement : ℕ
  pub digital_preference : ℕ

-- The four readings of the digest, which `hexdigest` makes 64 digits long; a shorter one than is read
-- raises.
unfoldable pub scores_of : List ℕ → Result ProviderError Scores
scores_of (a ∷ b ∷ c ∷ d ∷ e ∷ f ∷ rest) = do
  m ← hex_digit a
  band ← item engagement_bands (m % length engagement_bands)
  n ← hex_digit b
  pool ← item channel_pools (n % length channel_pools)
  low ← two_hex c d
  digital ← two_hex e f
  ok (record { band = band; pool = pool; low_engagement = low; digital_preference = digital })
scores_of _ = err index_error

module _ (cal : Calendar) where
  -- `Segment(id=…, score=…)`, whose score must lie between 0 and 1
  abbrev pub segment : String → ℕ → Result ProviderError Segment
  segment id score =
      if leb score 100
      then ok (record { id = id; score = cal.hundredths_text score })
      else err validation_error

  abbrev pub window_of : ℕ → String
  window_of as_of =
      let (year, week) = cal.isocalendar as_of in cal.year_text year <> "-W" <> cal.two_digits week

  abbrev reasons_of : Scores → List String
  reasons_of s =
      (if ltb 255 (2 * s.low_engagement) then "LOW_RECENCY" ∷ [] else [])
      ++ (if contains "app" s.pool then "APP_AFFINITY" ∷ [] else [])

  -- The profile of a digest and its scores
  abbrev pub view_of : String → ℕ → ℕ → String → Scores → Segment → Segment → ProfileView
  view_of subject_ref as_of ttl digest s low digital = record {
    subject_ref = subject_ref;
    profile_version = "rule-based-" <> window_of as_of <> "-" <> slice digest 0 8;
    segments = low ∷ digital ∷ [];
    attributes =
        ("relationshipStage", "activation")
        ∷ ("preferredChannels", join "," s.pool)
        ∷ ("engagementBand", s.band)
        ∷ [];
    reason_codes = reasons_of s;
    expires_at = as_of + ttl;
  }

  unfoldable pub profile_of : String → ℕ → ℕ → String → Scores → Result ProviderError ProfileView
  profile_of subject_ref as_of ttl digest s = do
    low ← segment "low-engagement" (rounded s.low_engagement)
    digital ← segment "digital-preference" (rounded s.digital_preference)
    ok (view_of subject_ref as_of ttl digest s low digital)

  -- `RuleBasedProfileProvider.resolve`
  unfoldable pub resolve_profile : Runtime → ℕ → String → ℕ → Result ProviderError ProfileView
  resolve_profile rt ttl subject_ref as_of = do
    let digest = rt.sha256 (subject_ref <> ":" <> window_of as_of)
    s ← scores_of (codes digest)
    profile_of subject_ref as_of ttl digest s
