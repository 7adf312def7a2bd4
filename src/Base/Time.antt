-- ===== src/Base/Time.antt =====
-- What the sources use of Go's `time`, in UTC: an instant is its nanoseconds since the zero time,
-- 0001-01-01 00:00:00, so `IsZero` is `== 0` and `Truncate` rounds down to a multiple.
use Prim.Native.Nat.{ℕ, zero, suc, ◌+◌, ◌-◌, ◌*◌, ◌/◌, ◌%◌, min}
use Prim.Native.String.{String, ◌++◌}
use mathlib.Core.Bool.{Bool, true, false, ◌&&◌, ◌||◌, not}
use mathlib.Core.List.{List, [], ◌∷◌}
use koku_metrics_operator.Base.Tests.{ltb, ◌==◌, if◌then◌else◌}
use koku_metrics_operator.Base.Decimal.{itoa, padded, fraction}

abbrev pub Time : Type 0
Time = ℕ

-- The Location of a time.Time, which `==` and the keys of a map compare, and Equal does not. The zone
-- of the operator is UTC in both.
pub data Location : Type 0 where
  utc local : Location

abbrev pub same_location : Location → Location → Bool
same_location utc utc = true
same_location local local = true
same_location utc local = false
same_location local utc = false

-- An instant with its Location.
pub record Stamp : Type 0 where
  pub instant : Time
  pub location : Location

-- t == u
unfoldable pub same_stamp : Stamp → Stamp → Bool
same_stamp t u = t.instant == u.instant && same_location t.location u.location

abbrev pub second : ℕ
second = 1_000_000_000

abbrev pub minute : ℕ
minute = 60 * 1_000_000_000

abbrev pub hour : ℕ
hour = 3600 * 1_000_000_000

abbrev pub day : ℕ
day = 86400 * 1_000_000_000

-- t.IsZero()
abbrev pub is_zero : Time → Bool
is_zero t = t == 0

-- t.Truncate(d)
abbrev pub truncate : Time → ℕ → Time
truncate t d = t - t % d

-- t.Hour()
abbrev pub hour_of : Time → ℕ
hour_of t = t / hour % 24

-- The year of a day, counted from 0001-01-01, and the day of that year: 400 years have 146097
-- days, 100 of them 36524 (the last 100 a day more), 4 of them 1461 and one of them 365.
pub record Civil : Type 0 where
  pub year : ℕ
  pub yday : ℕ

abbrev civil_of : ℕ → Civil
civil_of d =
    let n400 = d / 146097 in
    let d1 = d % 146097 in
    let n100 = min (d1 / 36524) 3 in
    let d2 = d1 - 36524 * n100 in
    let n4 = d2 / 1461 in
    let d3 = d2 % 1461 in
    let n1 = min (d3 / 365) 3 in
    record { year = 1 + 400 * n400 + 100 * n100 + 4 * n4 + n1; yday = d3 - 365 * n1 }

unfoldable pub civil : ℕ → Civil
civil d = civil_of d

unfoldable pub is_leap : ℕ → Bool
is_leap y = y % 4 == 0 && (not (y % 100 == 0) || y % 400 == 0)

abbrev month_lengths : ℕ → List ℕ
month_lengths february = 31 ∷ february ∷ 31 ∷ 30 ∷ 31 ∷ 30 ∷ 31 ∷ 31 ∷ 30 ∷ 31 ∷ 30 ∷ 31 ∷ []

unfoldable pub months : ℕ → List ℕ
unfolding is_leap
months y = month_lengths (if is_leap y then 29 else 28)

-- The month (from 1) that a day of the year lies in, and the day of that month (from 0).
pub record MonthDay : Type 0 where
  pub month : ℕ
  pub mday : ℕ

unfoldable pub month_day : ℕ → ℕ → List ℕ → MonthDay
month_day m d [] = record { month = m; mday = d }
month_day m d (len ∷ rest) = elim (ltb d len) [
  | true ↦ record { month = m; mday = d }
  | false ↦ month_day (suc m) (d - len) rest
]

unfoldable pub year_of : Time → ℕ
unfolding civil
year_of t = (civil (t / day)).year

unfoldable pub month_day_of : Time → MonthDay
unfolding civil months month_day
month_day_of t = let c = civil (t / day) in month_day 1 c.yday (months c.year)

-- t.Day()
unfoldable pub day_of : Time → ℕ
unfolding month_day_of
day_of t = (month_day_of t).mday + 1

-- The days before January 1 of a year.
unfoldable pub days_before_year : ℕ → ℕ
days_before_year y = 365 * (y - 1) + (y - 1) / 4 - (y - 1) / 100 + (y - 1) / 400

unfoldable pub days_before_month : ℕ → List ℕ → ℕ
days_before_month zero lens = 0
days_before_month (suc m) [] = 0
days_before_month (suc m) (len ∷ rest) = len + days_before_month m rest

-- time.Date(year, month, 1, 0, 0, 0, 0, UTC), for a month from 1 to 13.
unfoldable pub first_of_month : ℕ → ℕ → Time
unfolding days_before_year days_before_month months
first_of_month y m =
    if m == 13
    then days_before_year (y + 1) * day
    else (days_before_year y + days_before_month (m - 1) (months y)) * day

-- t.String() in UTC
unfoldable pub time_string : Time → String
unfolding year_of month_day_of itoa padded fraction
time_string t =
    let md = month_day_of t in
    let y = year_of t in
    let year_text = if ltb y 10_000 then padded 4 y else itoa y in
    let rest = t % second in
    let frac = if rest == 0 then "" else "." ++ fraction 9 rest in
    year_text
    ++ ("-"
        ++ (padded 2 md.month
            ++ ("-"
                ++ (padded 2 (md.mday + 1)
                    ++ (" "
                        ++ (padded 2 (hour_of t)
                            ++ (":"
                                ++ (padded 2 (t / minute % 60)
                                    ++ (":"
                                        ++ (padded 2 (t / second % 60)
                                            ++ (frac ++ " +0000 UTC")))))))))))
