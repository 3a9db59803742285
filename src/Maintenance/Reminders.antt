-- ===== src/Maintenance/Reminders.antt =====
-- internal/services/maintenance.go: `updateReminderStatus` and `calculatePriority`.
use vehicle_telematics.Base.{
  suc, ◌/◌, ◌%◌, String, ◌≡◌, refl, sym, ap, ◌∙◌, inl, inr, Bool, true, false, Option, none, some,
  if◌then◌else◌, str_eq, arith, Bool-cases,
}
use vehicle_telematics.Base.Int.{ℤ, pos, negsuc, sub_ℕ, ltb_ℤ, leb_ℤ, ◌-ℤ◌, wrap64}
use vehicle_telematics.Base.Float.{Float}
use vehicle_telematics.Base.Time.{Time, hour}
use vehicle_telematics.Maintenance.Types.{
  ServiceReminder, priority_low, priority_medium, priority_high, priority_urgent,
}

module _ (F : Float) where
  -- `Duration.Hours()`
  unfoldable pub hours : ℤ → F.Carrier
  hours (pos d) =
      F.add (F.of_int (pos (d / hour))) (F.div (F.of_int (pos (d % hour))) (F.lit hour 0))
  hours (negsuc d) =
      F.add (F.of_int (sub_ℕ 0 (suc d / hour)))
        (F.div (F.of_int (sub_ℕ 0 (suc d % hour))) (F.lit hour 0))

  -- `int(date.Sub(now).Hours() / 24)`, for times less than 292 years apart.
  unfoldable pub days_until : Time → Time → ℤ
  unfolding hours
  days_until date now = F.trunc (F.div (hours (pos date -ℤ pos now)) (F.lit 24 0))

  -- The part of `calculatePriority` that looks at the odometer.
  unfoldable pub odometer_priority : Option ℤ → ℤ → String
  odometer_priority none current_odometer = priority_low
  odometer_priority (some due_odometer) current_odometer =
      let odometer_until = wrap64 (due_odometer -ℤ current_odometer) in
      if leb_ℤ odometer_until (pos 0)
      then priority_urgent
      else if leb_ℤ odometer_until (pos 1000)
      then priority_high
      else if leb_ℤ odometer_until (pos 5000)
      then priority_medium
      else priority_low

  unfoldable pub calculate_priority : Option Time → Option ℤ → ℤ → Time → String
  unfolding days_until odometer_priority
  calculate_priority none due_odometer current_odometer now =
      odometer_priority due_odometer current_odometer
  calculate_priority (some due_date) due_odometer current_odometer now =
      let days = days_until due_date now in
      if ltb_ℤ days (pos 0)
      then priority_urgent
      else if leb_ℤ days (pos 7)
      then priority_high
      else if leb_ℤ days (pos 30)
      then priority_medium
      else odometer_priority due_odometer current_odometer

  -- `if reminder.DueDate != nil`
  unfoldable pub count_days : Time → ServiceReminder → ServiceReminder
  unfolding days_until
  count_days now reminder = elim reminder.due_date [
    | none ↦ reminder
    | some due_date ↦ record reminder {
      days_until_due = some (days_until due_date now);
      is_overdue = ltb_ℤ (days_until due_date now) (pos 0);
    }
  ]

  -- `if reminder.DueOdometer != nil`
  unfoldable pub count_odometer : ServiceReminder → ServiceReminder
  count_odometer reminder = elim reminder.due_odometer [
    | none ↦ reminder
    | some due_odometer ↦
        let odometer_until = wrap64 (due_odometer -ℤ reminder.current_odometer) in
        record reminder {
          odometer_until_due = some odometer_until;
          is_overdue = if reminder.is_overdue then true else leb_ℤ odometer_until (pos 0);
        }
  ]

  unfoldable pub update_reminder_status : Time → ServiceReminder → ServiceReminder
  unfolding count_days count_odometer calculate_priority
  update_reminder_status now reminder = record (count_odometer (count_days now reminder)) {
    priority =
        calculate_priority reminder.due_date reminder.due_odometer reminder.current_odometer now;
  }

  -- A date that lies so many days ahead that it is not over, but at most 30.
  unfoldable pub soon : Option Time → Time → Bool
  soon none now = false
  soon (some date) now =
      if ltb_ℤ (days_until date now) (pos 0) then false else leb_ℤ (days_until date now) (pos 30)

  -- Urgent is what the odometer says when it is due.
  odometer_urgent :
      (due current : ℤ)
      → str_eq (odometer_priority (some due) current) priority_urgent
        ≡ leb_ℤ (wrap64 (due -ℤ current)) (pos 0)
  unfolding odometer_priority
  odometer_urgent due current = elim (Bool-cases (leb_ℤ until (pos 0))) [
    | inl over ↦ rw over
    | inr left ↦ rw left (elim (Bool-cases (leb_ℤ until (pos 1000))) [
      | inl high ↦ rw high
      | inr more ↦
          rw more
            (elim (leb_ℤ until (pos 5000))
              as (λ b.
                str_eq (if b then priority_medium else priority_low) priority_urgent ≡ false) [
                  | true ↦ refl
                  | false ↦ refl
                ])
    ])
  ]
    where
      until : ℤ
      until = wrap64 (due -ℤ current)

  -- The tests of the days, before what the odometer says.
  graded :
      (over week month : Bool) (rest : String) (due : Bool)
      → (week ≡ true → month ≡ true)
      → str_eq rest priority_urgent ≡ due
      → str_eq
          (if over
            then priority_urgent
            else if week
            then priority_high
            else if month
            then priority_medium
            else rest)
          priority_urgent
        ≡ (if if over then false else month then false else if over then true else due)
  graded true week month rest due h e = refl
  graded false true true rest due h e = refl
  graded false true false rest due h e = absurd (let b = h refl in cc)
  graded false false true rest due h e = refl
  graded false false false rest due h e = e

  -- What the statement says, from the two dues.
  urgent_lem :
      (now : Time) (r : ServiceReminder) (date : Option Time) (due : Option ℤ)
      → r.is_overdue ≡ false
      → let r' : ServiceReminder = record r { due_date = date; due_odometer = due } in
        str_eq (calculate_priority date due r.current_odometer now) priority_urgent
        ≡ (if soon date now then false else (count_odometer (count_days now r')).is_overdue)
  unfolding calculate_priority count_odometer count_days soon
  urgent_lem now r none none h = sym h
  urgent_lem now r none (some due) h = rw h (odometer_urgent due r.current_odometer)
  urgent_lem now r (some date) none h =
      graded (ltb_ℤ (days_until date now) (pos 0)) (leb_ℤ (days_until date now) (pos 7))
        (leb_ℤ (days_until date now) (pos 30)) priority_low false (λ e. ground arith) refl
      ∙ ap (λ b. if soon (some date) now then false else b)
          (same (ltb_ℤ (days_until date now) (pos 0)))
    where
      same : (b : Bool) → (if b then true else false) ≡ b
      same true = refl
      same false = refl
  urgent_lem now r (some date) (some due) h =
      graded (ltb_ℤ (days_until date now) (pos 0)) (leb_ℤ (days_until date now) (pos 7))
        (leb_ℤ (days_until date now) (pos 30)) (odometer_priority (some due) r.current_odometer) _
        (λ e. ground arith) (odometer_urgent due r.current_odometer)

  -- A reminder that was not overdue gets the priority urgent exactly if it is overdue afterwards,
  -- except when its date lies at most 30 days ahead: then it is not urgent, also when the odometer
  -- says that it is overdue.
  pub update_reminder_status_lem :
      (now : Time) (reminder : ServiceReminder)
      → reminder.is_overdue ≡ false
      → let after = update_reminder_status now reminder in
        str_eq after.priority priority_urgent
        ≡ (if soon reminder.due_date now then false else after.is_overdue)
  unfolding update_reminder_status
  update_reminder_status_lem now reminder h =
      urgent_lem now reminder reminder.due_date reminder.due_odometer h
