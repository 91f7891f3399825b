-- ===== src/Retention/Days.antt =====
-- internal/gocli/dismissed_retention.go: the days of the settings, with Go's int as an integer.
use nana.Prelude.{
  ℤ, pos, negsuc, ℕ, ◌≤◌, Option, none, some, ltb, ◌≡◌, ◌⊎◌, inl, inr, refl, arith, Bool-cases,
  if◌then◌else◌,
}

abbrev pub default_days : ℕ
default_days = 30

abbrev pub max_days : ℕ
max_days = 3650

-- normalizeGithubDismissedItemRetentionDays and normalizeGithubDeletedItemRetentionDays: `none` is the
-- error.
unfoldable pub normalize_days : ℤ → Option ℕ
normalize_days (negsuc n) = none
normalize_days (pos n) = if ltb max_days n then none else some n

-- githubRepoSettings, its two fields that are pointers.
pub record Settings : Type 0 where
  pub dismissed_days : Option ℤ
  pub deleted_days : Option ℤ

unfoldable pub resolved_days : Option ℤ → ℕ
resolved_days none = default_days
resolved_days (some (negsuc n)) = default_days
resolved_days (some (pos n)) = if ltb max_days n then max_days else n

abbrev pub dismissed_days_of : Option Settings → Option ℤ
dismissed_days_of none = none
dismissed_days_of (some settings) = Settings.dismissed_days settings

abbrev pub deleted_days_of : Option Settings → Option ℤ
deleted_days_of none = none
deleted_days_of (some settings) = Settings.deleted_days settings

-- The days that a stored setting resolves to are within the bounds that the setter checks, and are
-- stored again as they are; and the setter refuses a value or accepts it as what it resolves to.
pub resolved_days-normalize_days :
    (value : ℤ)
    → (resolved_days (some value) ≤ max_days)
      × (normalize_days (pos (resolved_days (some value))) ≡ some (resolved_days (some value)))
      × ((normalize_days value ≡ none) ⊎ (normalize_days value ≡ some (resolved_days (some value))))
unfolding resolved_days normalize_days
resolved_days-normalize_days (negsuc n) = (omega arith, refl, inl refl)
resolved_days-normalize_days (pos n) = elim (Bool-cases (ltb max_days n)) [
  | inl h ↦ rw h (omega arith, refl, inl refl)
  | inr h ↦ rw h (ground (arith, h), rw h refl, inr refl)
]
