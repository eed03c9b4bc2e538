-- ===== src/Base/Numbers.antt =====
-- JavaScript numbers where a check has to tell them apart, and dates.
use Prim.Native.Nat.{ℕ}
use mathlib.Core.Bool.{Bool, false, ◌&&◌}
use mathlib.Core.Option.{Option, none, some}
use understandproof.Base.Tests.{leb, if◌then◌else◌}

-- A number: a natural number, or any other (negative, fractional, infinite, NaN). The checks that
-- read such a number refuse all the others alike.
pub data Number : Type 0 where
  nat : ℕ → Number
  other : Number

-- `Number.MAX_SAFE_INTEGER`
abbrev pub max_safe_integer : ℕ
max_safe_integer = 9_007_199_254_740_991

-- `z.number().int().min(lo).max(hi)`
abbrev pub is_int_between : ℕ → ℕ → Number → Bool
is_int_between lo hi (nat n) = leb lo n && leb n hi
is_int_between lo hi other = false

abbrev pub nat_value : Number → ℕ
nat_value (nat n) = n
nat_value other = 0

-- A `Date`: its time in milliseconds since 1970, or the invalid date. A time past the largest that
-- a date can hold gives the invalid date.
abbrev pub Date : Type 0
Date = Option ℕ

abbrev pub max_time : ℕ
max_time = 8_640_000_000_000_000

abbrev pub new_date : ℕ → Date
new_date time = if leb time max_time then some time else none
