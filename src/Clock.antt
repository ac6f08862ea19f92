-- ===== src/Clock.antt =====
-- The server's clock: an instant is in milliseconds since 1970, `zone` is the offset of the
-- server's time zone, and the calendar is that of JavaScript's `Date`.
use my_ng_platform.Prelude.{ℕ, ◌+◌, ◌-◌, ◌*◌, ◌/◌, ◌%◌}

pub record Clock : Type 0 where
  pub now : ℕ
  pub zone : ℕ

abbrev pub day_length : ℕ
day_length = 86_400_000

-- The local day, counted from 1970-01-01, and the second of that day.
unfoldable pub day_of : Clock → ℕ → ℕ
day_of c t = (t + c.zone) / day_length

unfoldable pub second_of : Clock → ℕ → ℕ
second_of c t = (t + c.zone) % day_length / 1000

-- `moment(t).isoWeekday()`: 1 for Monday; day 0 was a Thursday.
unfoldable pub iso_weekday : Clock → ℕ → ℕ
unfolding day_of
iso_weekday c t = (day_of c t + 3) % 7 + 1

-- `new Date(t).getDate()`: the day of the month. Years are counted from March, in eras of 400.
unfoldable pub get_date : Clock → ℕ → ℕ
unfolding day_of
get_date c t =
    let doe = (day_of c t + 719_468) % 146_097 in
    let yoe = (doe - doe / 1460 + doe / 36_524 - doe / 146_096) / 365 in
    let doy = doe - (365 * yoe + yoe / 4 - yoe / 100) in
    let month = (5 * doy + 2) / 153 in doy - (153 * month + 2) / 5 + 1

-- The instant cut to the minute, as `moment().format(AppConstant.SUBMIT_TIME_FORMAT)` has it.
unfoldable pub minute_of : ℕ → ℕ
minute_of t = t / 60_000 * 60_000
