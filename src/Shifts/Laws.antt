-- ===== src/Shifts/Laws.antt =====
-- What a calendar does to a shift work.
use my_ng_platform.Prelude.{
  ℕ, Bool, true, false, ◌||◌, Option, none, some, List, ◌∷◌, ◌==◌, ◌≡◌, refl, List-cases, inl, inr,
}
use my_ng_platform.Clock.{Clock}
use my_ng_platform.Entities.{Schedule, ShiftWorkCalendar, ShiftWork}
use my_ng_platform.Shifts.{in_schedule, in_calendar, is_selected, is_on_duty}

or_true : (x : Bool) → (x || true) ≡ true
or_true true = refl
or_true false = refl

or_mid : (x y : Bool) → ((x || true) || y) ≡ true
or_mid true y = refl
or_mid false y = refl

selected_added :
    (c : Clock) (t org : ℕ) (w : ShiftWork) (s : Option Schedule) (k : ShiftWorkCalendar)
    → in_calendar c t false (some k) ≡ true
    → is_selected c t org w s (some k) ≡ true
unfolding is_selected
selected_added c t org w s k h = rw h (or_true _)

selected_scheduled :
    (c : Clock) (t org : ℕ) (w : ShiftWork) (s : Schedule) (l : ShiftWorkCalendar)
    → (w.organization_unit == org) ≡ true
    → in_schedule c t (some s) ≡ true
    → in_calendar c t true (some l) ≡ false
    → is_selected c t org w (some s) (some l) ≡ true
unfolding is_selected
selected_scheduled c t org w s l u i x = rw (u, i, x) refl

-- A shift work whose first calendar adds the instant is on duty for every organization unit, its
-- own or not.
pub is_on_duty-added :
    (c : Clock) (t org : ℕ) (w : ShiftWork) (k : ShiftWorkCalendar) (ks : List ShiftWorkCalendar)
    → w.calendars ≡ k ∷ ks
    → in_calendar c t false (some k) ≡ true
    → is_on_duty c t org w ≡ true
unfolding is_on_duty
is_on_duty-added c t org w k ks e h = elim (List-cases w.schedules) [
  | inl f ↦ rw (f, e, selected none) refl
  | inr (s, ss, f) ↦ rw (f, e, selected (some s)) refl
]
  where
    selected : (s : Option Schedule) → is_selected c t org w s (some k) ≡ true
    selected s = selected_added c t org w s k h

-- A shift work of the organization unit whose first schedule holds the instant is on duty, if its
-- second calendar does not exclude the instant, whatever its first calendar excludes.
pub is_on_duty-not_excluded :
    (c : Clock) (t org : ℕ) (w : ShiftWork) (s : Schedule) (ss : List Schedule)
    (k l : ShiftWorkCalendar) (ks : List ShiftWorkCalendar)
    → (w.organization_unit == org) ≡ true
    → w.schedules ≡ s ∷ ss
    → in_schedule c t (some s) ≡ true
    → w.calendars ≡ k ∷ l ∷ ks
    → in_calendar c t true (some l) ≡ false
    → is_on_duty c t org w ≡ true
unfolding is_on_duty
is_on_duty-not_excluded c t org w s ss k l ks u e i f x =
    rw (e, f, selected_scheduled c t org w s l u i x) (or_mid _ _)
