-- ===== src/Libc/Time.antt =====
-- kernel/userspace/libc/time.c: from seconds to the calendar and to text. Times before 1970 are not
-- modelled.
pub mod Laws
use axiome_os.Prelude.{
  ℕ, zero, suc, ◌+◌, ◌-◌, ◌*◌, ◌/◌, ◌%◌, ◌^◌, Bool, true, false, not, ◌&&◌, ◌||◌, List, [], ◌∷◌,
  ◌++◌, ltb, leb, ◌==◌, if◌then◌else◌, get_or,
}

-- `struct tm`, with the year and not the years since 1900.
pub record Tm : Type 0 where
  pub sec : ℕ
  pub min : ℕ
  pub hour : ℕ
  pub mday : ℕ
  pub mon : ℕ
  pub year : ℕ
  pub wday : ℕ
  pub yday : ℕ

unfoldable pub is_leap : ℕ → Bool
is_leap year = (year % 4 == 0 && not (year % 100 == 0)) || (year % 400 == 0)

unfoldable pub year_days : ℕ → ℕ
unfolding is_leap
year_days year = if is_leap year then 366 else 365

-- The loop over the years, on fuel: the year and the days left. The year is an `int`, here by its
-- bits: from 2 ^ 31 on the source has no defined result.
unfoldable pub year_loop : ℕ → ℕ → ℕ → ℕ × ℕ
year_loop zero year days = (year, days)
year_loop (suc n) year days =
    let rest = year_loop n ((year + 1) % 2 ^ 32) (days - year_days year) in
    if ltb days (year_days year) then (year, days) else rest

unfoldable pub month_days : Bool → List ℕ
month_days leap =
    31 ∷ (if leap then 29 else 28) ∷ 31 ∷ 30 ∷ 31 ∷ 30 ∷ 31 ∷ 31 ∷ 30 ∷ 31 ∷ 30 ∷ 31 ∷ []

-- The loop over the months that are left: the month and the days left.
unfoldable pub month_loop : List ℕ → ℕ → ℕ → ℕ × ℕ
month_loop [] month days = (month, days)
month_loop (m ∷ ms) month days =
    let rest = month_loop ms (suc month) (days - m) in if leb m days then rest else (month, days)

-- The fuel is one more than the number of years of 365 days.
unfoldable pub time_to_tm : ℕ → Tm
time_to_tm t =
    let days = t / 86400 in
    let rem = t % 86400 in
    let y = year_loop (days / 365 + 1) 1970 days in
    let m = month_loop (month_days (is_leap y.0)) 0 y.1 in
    record {
      hour = rem / 3600;
      min = rem % 3600 / 60;
      sec = rem % 3600 % 60;
      wday = (days + 4) % 7;
      year = y.0;
      yday = y.1;
      mon = m.0;
      mday = m.1 + 1;
    }

abbrev name : ℕ → ℕ → ℕ → List ℕ
name a b c = a ∷ b ∷ c ∷ []

pub wday_name : List (List ℕ)
wday_name =
    name b'S' b'u' b'n'
    ∷ name b'M' b'o' b'n'
    ∷ name b'T' b'u' b'e'
    ∷ name b'W' b'e' b'd'
    ∷ name b'T' b'h' b'u'
    ∷ name b'F' b'r' b'i'
    ∷ name b'S' b'a' b't'
    ∷ []

pub mon_name : List (List ℕ)
mon_name =
    name b'J' b'a' b'n'
    ∷ name b'F' b'e' b'b'
    ∷ name b'M' b'a' b'r'
    ∷ name b'A' b'p' b'r'
    ∷ name b'M' b'a' b'y'
    ∷ name b'J' b'u' b'n'
    ∷ name b'J' b'u' b'l'
    ∷ name b'A' b'u' b'g'
    ∷ name b'S' b'e' b'p'
    ∷ name b'O' b'c' b't'
    ∷ name b'N' b'o' b'v'
    ∷ name b'D' b'e' b'c'
    ∷ []

-- `'0' + d`, as a character.
abbrev pub digit : ℕ → ℕ
digit d = (b'0' + d) % 256

-- The buffer.
pub asctime : Tm → List ℕ
asctime tm =
    let wd = get_or wday_name (tm.wday % 7) [] in
    let mn = get_or mon_name (tm.mon % 12) [] in
    get_or wd 0 0
    ∷ get_or wd 1 0
    ∷ get_or wd 2 0
    ∷ b' '
    ∷ get_or mn 0 0
    ∷ get_or mn 1 0
    ∷ get_or mn 2 0
    ∷ b' '
    ∷ (if leb 10 tm.mday then digit (tm.mday / 10) else b' ')
    ∷ digit (tm.mday % 10)
    ∷ b' '
    ∷ digit (tm.hour / 10)
    ∷ digit (tm.hour % 10)
    ∷ b':'
    ∷ digit (tm.min / 10)
    ∷ digit (tm.min % 10)
    ∷ b':'
    ∷ digit (tm.sec / 10)
    ∷ digit (tm.sec % 10)
    ∷ b' '
    ∷ digit (tm.year / 1000)
    ∷ digit (tm.year / 100 % 10)
    ∷ digit (tm.year / 10 % 10)
    ∷ digit (tm.year % 10)
    ∷ b'\n'
    ∷ 0
    ∷ []
