-- ===== src/Libc/Time/Laws.antt =====
-- The calendar date and time of day name the second they were made from.
use axiome_os.Prelude.{
  ℕ, zero, suc, ◌+◌, ◌-◌, ◌*◌, ◌/◌, ◌%◌, ◌^◌, ◌≤◌, ◌<◌, ◌≡◌, refl, ◌∙◌, inl, inr, Bool, true, false,
  List, [], ◌∷◌, ltb, leb, if◌then◌else◌, length, get_or, take, arith, Bool-cases, not_lt, lt_at,
  le_at, gt_at, if_either,
}
use axiome_os.Libc.Time.{
  Tm, is_leap, year_days, year_loop, month_days, month_loop, time_to_tm, asctime,
}

-- The days from the year 0 to the first of January, by the rule of the Gregorian calendar.
pub days_before : ℕ → ℕ
days_before y = 365 * y + (y - 1) / 4 + (y - 1) / 400 - (y - 1) / 100

days_before-suc : (y : ℕ) → 0 < y → days_before (suc y) ≡ days_before y + year_days y
unfolding days_before year_days is_leap
days_before-suc y pos = ground arith

year_days_long : (y : ℕ) → (365 ≤ year_days y) × (year_days y ≤ 366)
unfolding year_days
year_days_long y =
    if_either (λ n. (365 ≤ n) × (n ≤ 366)) (is_leap y) 366 365 (λ u. (omega arith, omega arith))
      (λ u. (omega arith, omega arith))

year_loop_lem :
    (n year days : ℕ)
    → 0 < year
    → year + n ≤ 2 ^ 31
    → days < 365 * n
    → (days_before (year_loop n year days).0 + (year_loop n year days).1 ≡ days_before year + days)
      × ((year_loop n year days).1 < year_days (year_loop n year days).0)
      × ((year_loop n year days).0 < year + n)
unfolding year_loop
year_loop_lem zero year days pos low lt = absurd (omega arith)
year_loop_lem (suc n) year days pos low lt = elim (Bool-cases (ltb days (year_days year))) [
  | inl e ↦ rw e (refl, lt_at days (year_days year) e, omega arith)
  | inr e ↦
      let long = year_days_long year in
      let next : (year + 1) % 2 ^ 32 ≡ suc year = omega arith in
      let ih =
        year_loop_lem n (suc year) (days - year_days year) (omega arith) (omega arith)
          (omega (arith, long.0, not_lt days (year_days year) e)) in
      let s = days_before-suc year pos in
      let gt = not_lt days (year_days year) e in
      rw (e, next) (omega (arith, ih.0, s, gt), ih.1, omega (arith, ih.2))
]

pub sum : List ℕ → ℕ
sum [] = 0
sum (x ∷ xs) = x + sum xs

month_loop_lem :
    (ms : List ℕ) (month days : ℕ)
    → days < sum ms
    → (k : ℕ) × (((month_loop ms month days).0 ≡ month + k)
        × (k < length ms)
        × (sum (take k ms) + (month_loop ms month days).1 ≡ days)
        × ((month_loop ms month days).1 < get_or ms k 0))
unfolding month_loop sum
month_loop_lem [] month days lt = absurd (omega arith)
month_loop_lem (m ∷ ms) month days lt = elim (Bool-cases (leb m days)) [
  | inl e ↦
      let le = le_at m days e in
      let (k, (at, room, total, short)) = month_loop_lem ms (suc month) (days - m) (omega arith) in
      rw e (suc k, (omega (arith, at), omega (arith, room), omega (arith, total, le), short))
  | inr e ↦ rw e (0, (omega arith, omega arith, omega arith, gt_at m days e))
]

month_loop_zero :
    (ms : List ℕ) (days : ℕ)
    → days < sum ms
    → ((month_loop ms 0 days).0 < length ms)
      × (sum (take (month_loop ms 0 days).0 ms) + (month_loop ms 0 days).1 ≡ days)
      × ((month_loop ms 0 days).1 < get_or ms (month_loop ms 0 days).0 0)
month_loop_zero ms days lt =
    let (k, (at, room, total, short)) = month_loop_lem ms 0 days lt in
    let e : (month_loop ms 0 days).0 ≡ k = omega (arith, at) in rw e (room, total, short)

if_same : (b : Bool) → (if b then 29 else 28) + 337 ≡ (if b then 366 else 365)
if_same true = refl
if_same false = refl

sum-month_days : (y : ℕ) → sum (month_days (is_leap y)) ≡ year_days y
unfolding sum month_days year_days
sum-month_days y =
    if_either (λ n. 31 + (n + 306) ≡ n + 337) (is_leap y) 29 28 (λ u. refl) (λ u. refl)
    ∙ if_same (is_leap y)

clock :
    (t : ℕ)
    → 3600 * (t % 86400 / 3600) + 60 * (t % 86400 % 3600 / 60) + t % 86400 % 3600 % 60 ≡ t % 86400
clock t = omega arith

months_below : (leap : Bool) (m : ℕ) → m < length (month_days leap) → m < 12
unfolding month_days
months_below leap m h = h

-- For each time from 1970 on and below 2 ^ 55 seconds: the days before the year by the Gregorian rule, the day of the year, the
-- hour, the minute and the second that `time_to_tm` gives add up to the time, counted from the year 1;
-- the days of the months before the month and the day of the month make the day of the year; and the
-- second, minute, hour, month, day of the month and day of the week are in their ranges, the year in
-- that of an `int`.
pub time_to_tm_lem :
    (t : ℕ)
    → t < 2 ^ 55
    → let tm = time_to_tm t in
      (86400 * (days_before tm.year + tm.yday) + 3600 * tm.hour + 60 * tm.min + tm.sec
        ≡ 86400 * days_before 1970 + t)
      × (sum (take tm.mon (month_days (is_leap tm.year))) + tm.mday ≡ tm.yday + 1)
      × (tm.sec < 60)
      × (tm.min < 60)
      × (tm.hour < 24)
      × (tm.mon < 12)
      × (tm.mday ≤ get_or (month_days (is_leap tm.year)) tm.mon 0)
      × (tm.wday < 7)
      × (tm.year < 2 ^ 31)
unfolding time_to_tm
time_to_tm_lem t low =
    let days = t / 86400 in
    let y = year_loop (days / 365 + 1) 1970 days in
    let yl = year_loop_lem (days / 365 + 1) 1970 days (omega arith) (omega arith) (omega arith) in
    let ml =
      month_loop_zero (month_days (is_leap y.0)) y.1 (omega (arith, yl.1, sum-month_days y.0)) in
    (
      omega (arith, yl.0, clock t),
      omega (arith, ml.1),
      omega arith,
      omega arith,
      omega arith,
      months_below (is_leap y.0) _ ml.0,
      omega (arith, ml.2),
      omega arith,
      omega (arith, yl.2),
    )

-- The number that two characters show.
pub number2 : List ℕ → ℕ → ℕ
number2 s i = 10 * (get_or s i 0 - b'0') + (get_or s (i + 1) 0 - b'0')

-- For each date with a year below 10000 and an hour, a minute and a second below 100: the text of
-- `asctime` has 26 characters with its NUL, and the digits at 11, 14, 17, 20 and 22 show the hour, the
-- minute, the second and the two halves of the year.
pub number2-asctime :
    (tm : Tm)
    → tm.hour < 100
    → tm.min < 100
    → tm.sec < 100
    → tm.year < 10000
    → (length (asctime tm) ≡ 26)
      × (number2 (asctime tm) 11 ≡ tm.hour)
      × (number2 (asctime tm) 14 ≡ tm.min)
      × (number2 (asctime tm) 17 ≡ tm.sec)
      × (100 * number2 (asctime tm) 20 + number2 (asctime tm) 22 ≡ tm.year)
unfolding number2 asctime
number2-asctime tm h m s y = (refl, omega arith, omega arith, omega arith, omega arith)
