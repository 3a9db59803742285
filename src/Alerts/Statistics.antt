-- ===== src/Alerts/Statistics.antt =====
-- internal/services/alert.go: `GetAlertStatistics`, and what its numbers are.
use vehicle_telematics.Base.{
  ℕ, ◌+◌, String, ◌≡◌, refl, Bool, not, List, [], ◌∷◌, Option, none, some, inl, inr, if◌then◌else◌,
  insert, length, lookup, lookup-insert, str_eq, eq_iff, Option-cases, Bool-cases, arith,
}
use vehicle_telematics.Base.Float.{Float}
use vehicle_telematics.Models.{Alert}
use vehicle_telematics.Alerts.{AlertService, Stores}

-- The numbers of `GetAlertStatistics`.
pub record AlertStatistics : Type 0 where
  pub total : ℕ
  pub resolved : ℕ
  pub unresolved : ℕ
  pub by_severity : List (String × ℕ)
  pub by_type : List (String × ℕ)

-- `m[key]++`
unfoldable pub bump : String → List (String × ℕ) → List (String × ℕ)
bump key m = insert key (elim (lookup key m) [ none ↦ 1 | some n ↦ n + 1 ]) m

unfoldable pub count_alert : Alert → AlertStatistics → AlertStatistics
unfolding bump
count_alert alert stats = record stats {
  resolved = if alert.resolved then stats.resolved + 1 else stats.resolved;
  unresolved = if alert.resolved then stats.unresolved else stats.unresolved + 1;
  by_severity = bump alert.severity stats.by_severity;
  by_type = bump alert.type stats.by_type;
}

-- The loop of `GetAlertStatistics`.
unfoldable pub count_alerts : List Alert → AlertStatistics → AlertStatistics
count_alerts [] stats = stats
count_alerts (alert ∷ alerts) stats = count_alerts alerts (count_alert alert stats)

abbrev pub no_alerts : ℕ → AlertStatistics
no_alerts total = record {
  total = total;
  resolved = 0;
  unresolved = 0;
  by_severity = ("low", 0) ∷ ("medium", 0) ∷ ("high", 0) ∷ ("critical", 0) ∷ [];
  by_type =
      ("fuel_theft", 0)
      ∷ ("maintenance", 0)
      ∷ ("speeding", 0)
      ∷ ("unauthorized", 0)
      ∷ ("low_fuel", 0)
      ∷ [];
}

module _ {F : Float} {D A : Type 0} (s : AlertService F D A) where
  unfoldable pub get_alert_statistics : Stores D A → Option AlertStatistics
  get_alert_statistics w = elim (s.alert_repo.find_all w.alerts) [
    | none ↦ none
    | some alerts ↦ some (count_alerts alerts (no_alerts (length alerts)))
  ]

-- How many alerts pass a test.
abbrev pub tally : (Alert → Bool) → List Alert → ℕ
tally p [] = 0
tally p (alert ∷ alerts) = (if p alert then 1 else 0) + tally p alerts

abbrev pub or_zero : Option ℕ → ℕ
or_zero none = 0
or_zero (some n) = n

bump_lem :
    (key asked : String) (m : List (String × ℕ))
    → or_zero (lookup asked (bump key m))
      ≡ (if str_eq key asked then 1 else 0) + or_zero (lookup asked m)
unfolding bump
bump_lem key asked m =
    let next : ℕ = elim (lookup key m) [ none ↦ 1 | some n ↦ n + 1 ] in
    rw (lookup-insert key asked next m) (elim (Bool-cases (str_eq key asked)) [
      | inr other ↦ rw other (omega arith)
      | inl same ↦ rw same (elim (Option-cases (lookup key m)) [
        | inl new ↦ rw (new, ← (eq_iff key asked).0 same, new) refl
        | inr (n, e) ↦ rw (e, ← (eq_iff key asked).0 same, e) (omega arith)
      ])
    ])

-- The loop adds the tallies of the list to the numbers.
abbrev Adds : List Alert → AlertStatistics → AlertStatistics → Type 0
Adds alerts before after =
    (after.total ≡ before.total)
    × (after.resolved ≡ tally (λ x. x.resolved) alerts + before.resolved)
    × (after.unresolved ≡ tally (λ x. not x.resolved) alerts + before.unresolved)
    × ((severity : String)
        → or_zero (lookup severity after.by_severity)
          ≡ tally (λ x. str_eq x.severity severity) alerts
            + or_zero (lookup severity before.by_severity))
    × ((type : String)
        → or_zero (lookup type after.by_type)
          ≡ tally (λ x. str_eq x.type type) alerts + or_zero (lookup type before.by_type))

count_alerts-Adds :
    (alerts : List Alert) (stats : AlertStatistics) → Adds alerts stats (count_alerts alerts stats)
unfolding count_alerts count_alert
count_alerts-Adds [] stats =
    (refl, omega arith, omega arith, λ severity. omega arith, λ type. omega arith)
count_alerts-Adds (x ∷ alerts) stats =
    let (total, resolved, unresolved, severities, types) =
      count_alerts-Adds alerts (count_alert x stats) in
    (
      total,
      ground (arith, resolved),
      ground (arith, unresolved),
      λ severity.
          omega (arith, severities severity, bump_lem x.severity severity stats.by_severity),
      λ type. omega (arith, types type, bump_lem x.type type stats.by_type),
    )

tally_split :
    (alerts : List Alert)
    → tally (λ x. x.resolved) alerts + tally (λ x. not x.resolved) alerts ≡ length alerts
tally_split [] = refl
tally_split (x ∷ alerts) = ground (arith, tally_split alerts)

-- Every number starts at 0.
no_alerts-zero :
    (total : ℕ) (key : String)
    → (or_zero (lookup key (no_alerts total).by_severity) ≡ 0)
      × (or_zero (lookup key (no_alerts total).by_type) ≡ 0)
unfolding lookup
no_alerts-zero total key = ground arith

module _ {F : Float} {D A : Type 0} (s : AlertService F D A) where
  -- The statistics of all alerts `alerts`: their number is the total, the resolved and the
  -- unresolved ones are counted as such and make up the total, and for each severity and each type,
  -- also one that the service does not list at first, the number of the alerts that have it is
  -- reported.
  pub get_alert_statistics_lem :
      (w : Stores D A) (alerts : List Alert)
      → s.alert_repo.find_all w.alerts ≡ some alerts
      → (stats : AlertStatistics) × (get_alert_statistics s w ≡ some stats)
        × (stats.total ≡ length alerts)
        × (stats.resolved ≡ tally (λ x. x.resolved) alerts)
        × (stats.resolved + stats.unresolved ≡ stats.total)
        × ((severity : String)
            → or_zero (lookup severity stats.by_severity)
              ≡ tally (λ x. str_eq x.severity severity) alerts)
        × ((type : String)
            → or_zero (lookup type stats.by_type) ≡ tally (λ x. str_eq x.type type) alerts)
  unfolding get_alert_statistics
  get_alert_statistics_lem w alerts e =
      let n = length alerts in
      let (total, resolved, unresolved, severities, types) =
        count_alerts-Adds alerts (no_alerts n) in
      (
        count_alerts alerts (no_alerts n),
        rw (e, get_alert_statistics) refl,
        total,
        omega (arith, resolved),
        omega (arith, total, resolved, unresolved, tally_split alerts),
        λ severity. omega (arith, severities severity, (no_alerts-zero n severity).0),
        λ type. omega (arith, types type, (no_alerts-zero n type).1),
      )
