-- ===== src/Shifts.antt =====
-- The shift work at an instant: base/service/shift-work.service.ts.
pub mod Laws
use my_ng_platform.Prelude.{
  ℕ, Bool, true, false, not, ◌&&◌, ◌||◌, Option, none, some, List, [], ◌∷◌, map, ltb, leb, ◌==◌,
  ◌≡◌, refl, Bool-cases, inl, inr, if◌then◌else◌,
}
use my_ng_platform.Clock.{Clock, day_of, second_of, iso_weekday}
use my_ng_platform.Entities.{Schedule, ShiftWorkCalendar, ShiftWork}
use my_ng_platform.Charging.{contains}

-- The rows of a left join: one without a partner stands for none.
abbrev pub joined {ℓ} : {A : Type ℓ} → List A → List (Option A)
joined [] = none ∷ []
joined (x ∷ xs) = some x ∷ map some xs

abbrev pub some_holds {ℓ} : {A : Type ℓ} → (A → Bool) → List A → Bool
some_holds p [] = false
some_holds p (x ∷ xs) = p x || some_holds p xs

-- `schedules.days @> day AND schedules.from <= time AND schedules.to > time`
unfoldable pub in_schedule : Clock → ℕ → Option Schedule → Bool
unfolding contains second_of iso_weekday
in_schedule c t none = false
in_schedule c t (some s) =
    contains (iso_weekday c t) s.days
    && leb s.from_time (second_of c t)
    && ltb (second_of c t) s.to_time

-- The calendar is of that day and time, and excludes as it says.
unfoldable pub in_calendar : Clock → ℕ → Bool → Option ShiftWorkCalendar → Bool
unfolding day_of second_of
in_calendar c t excludes none = false
in_calendar c t excludes (some k) =
    (k.date == day_of c t)
    && leb k.from_time (second_of c t)
    && ltb (second_of c t) k.to_time
    && (if excludes then k.exclude else not k.exclude)

-- The `where`, in which AND binds before OR: the organization unit is tested on the left only.
unfoldable pub is_selected :
    Clock → ℕ → ℕ → ShiftWork → Option Schedule → Option ShiftWorkCalendar → Bool
unfolding in_schedule in_calendar
is_selected c t org w s k =
    ((w.organization_unit == org) && (in_schedule c t s && not (in_calendar c t true k)))
    || in_calendar c t false k

-- One row of the joins is enough.
unfoldable pub is_on_duty : Clock → ℕ → ℕ → ShiftWork → Bool
unfolding is_selected
is_on_duty c t org w =
    some_holds (λ s. some_holds (λ k. is_selected c t org w s k) (joined w.calendars))
      (joined w.schedules)

-- The id of the first shift work that is on duty, 0 if there is none.
unfoldable pub find_by : Clock → ℕ → ℕ → List ShiftWork → ℕ
unfolding is_on_duty
find_by c t org [] = 0
find_by c t org (w ∷ ws) =
    let rest = find_by c t org ws in if is_on_duty c t org w then w.id else rest
