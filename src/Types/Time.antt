-- ===== src/Types/Time.antt =====
-- Times: what `StringTime` (pkg/types/marshal.go) writes of one, and the instants that `time.Date`
-- makes in UTC.
use komandgo.Base.{
  ℕ, ◌+◌, ◌-◌, ◌*◌, ◌/◌, ◌%◌, ◌≡◌, refl, Bool, true, ◌∷◌, ◌++◌, Bytes, codes, ltb, ◌==◌, ◌&&◌, ◌||◌,
  not, if◌then◌else◌,
}
use komandgo.Fmt.{format_decimal}

-- An instant, as the seconds since the start of the year 1 in UTC.
abbrev pub Time : Type 0
Time = ℕ

-- What the methods of a `time.Time` give in its location. Months and days count from 1.
pub record Civil : Type 0 where
  pub second : ℕ
  pub minute : ℕ
  pub hour : ℕ
  pub day : ℕ
  pub month : ℕ
  pub year : ℕ
  pub weekday : ℕ
  pub year_day : ℕ
  pub is_dst : Bool

-- `%d` of `a - b`, which may be negative.
unfoldable pub format_difference : ℕ → ℕ → Bytes
unfolding format_decimal
format_difference a b = if ltb a b then b'-' ∷ format_decimal (b - a) else format_decimal (a - b)

-- A number and a blank.
abbrev field : ℕ → Bytes → Bytes
field n s = format_decimal n ++ b' ' ∷ s

-- `StringTime`
unfoldable pub string_time : Civil → Bytes
string_time t = field t.second (
    field t.minute (
      field t.hour (
        field t.day (
          field (t.month - 1) (
            format_difference t.year 1900
            ++ b' '
              ∷ field t.weekday
                  (field (t.year_day - 1) (format_decimal (if t.is_dst then 1 else 0))))))))

is_leap : ℕ → Bool
is_leap y = (y % 4 == 0) && (not (y % 100 == 0) || (y % 400 == 0))

-- The days of a year before its month `m`, counted from 0.
days_before_month : ℕ → ℕ → ℕ
days_before_month y m =
    let leap = if is_leap y then 1 else 0 in
    if ltb m 1
    then 0
    else if ltb m 2
    then 31
    else if ltb m 3
    then 59 + leap
    else if ltb m 4
    then 90 + leap
    else if ltb m 5
    then 120 + leap
    else if ltb m 6
    then 151 + leap
    else if ltb m 7
    then 181 + leap
    else if ltb m 8
    then 212 + leap
    else if ltb m 9
    then 243 + leap
    else if ltb m 10
    then 273 + leap
    else if ltb m 11
    then 304 + leap
    else 334 + leap

days_before_year : ℕ → ℕ
days_before_year y = 365 * (y - 1) + (y - 1) / 4 - (y - 1) / 100 + (y - 1) / 400

-- `time.Date(year, month, day, hour, minute, second, 0, time.UTC)` for a year after the first:
-- a month or a day out of range runs on into the next or the previous ones.
unfoldable pub date : ℕ → ℕ → ℕ → ℕ → ℕ → ℕ → Time
unfolding is_leap days_before_month days_before_year
date year month day hour minute second =
    let months = 12 * year + month - 1 in
    let days =
      days_before_year (months / 12) + days_before_month (months / 12) (months % 12) + day - 1 in
    ((days * 24 + hour) * 60 + minute) * 60 + second

string_runs :
    string_time (record {
      second = 49;
      minute = 6;
      hour = 22;
      day = 19;
      month = 7;
      year = 1997;
      weekday = 6;
      year_day = 200;
      is_dst = true;
    })
    ≡ codes "49 6 22 19 6 97 6 199 1"
unfolding string_time format_decimal format_difference
string_runs = refl

-- The start of 1970 is 719162 days after that of the year 1.
date_epoch : date 1970 1 1 0 0 0 ≡ 719162 * 86400
unfolding date
date_epoch = refl

date_july : date 1997 7 17 19 47 23 ≡ date 1970 1 1 0 0 0 + 869168843
unfolding date
date_july = refl
