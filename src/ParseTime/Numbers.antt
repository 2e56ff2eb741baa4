-- ===== src/ParseTime/Numbers.antt =====
-- parse-time-string.c: numbers, dates and times. gmtime_r is an argument.
use notmuch.Prelude.{
  ℕ, ◌+◌, ◌-◌, ◌*◌, ◌^◌, min, Bool, not, ◌&&◌, ◌||◌, Option, none, some, List, [], ◌∷◌, ltb, ◌==◌,
  if◌then◌else◌, length,
}
use notmuch.Prelude.Bytes.{Bytes, first_char, isdigit}
use notmuch.Prelude.Int.{ℤ, pos, negsuc, ◌+ℤ◌, ◌==ℤ◌}
use notmuch.TagUtil.{tail}
use notmuch.ParseTime.State.{
  Field, tm_abs_sec, tm_abs_min, tm_abs_hour, tm_abs_mday, tm_abs_mon, tm_abs_year, tm_wday,
  tm_abs_isdst, tm_tz, abs_fields, State, err, Action, Done, ◌>>◌, pure, raise, lib, format,
  date_format, time_format, invalid_date, invalid_time, is_field_set, unset, is_sign, is_valid_time,
  is_valid_year, is_valid_mon, is_valid_mday, set_field, set_postponed_number, set_abs_time,
  set_abs_date, set_user_tz,
}

-- struct tm
pub record Tm : Type 0 where
  pub sec : ℤ
  pub min : ℤ
  pub hour : ℤ
  pub mday : ℤ
  pub mon : ℤ
  pub year : ℤ
  pub wday : ℤ
  pub isdst : ℤ

unfoldable pub tm_get_field : Tm → Field → ℤ
unfolding ◌+ℤ◌
tm_get_field tm f =
    if f == tm_abs_sec
    then tm.sec
    else if f == tm_abs_min
    then tm.min
    else if f == tm_abs_hour
    then tm.hour
    else if f == tm_abs_mday
    then tm.mday
    else if f == tm_abs_mon
    then tm.mon +ℤ pos 1
    else if f == tm_abs_year
    then pos 1900 +ℤ tm.year
    else if f == tm_wday
    then tm.wday
    else if f == tm_abs_isdst
    then tm.isdst
    else pos 0

-- The loop of set_timestamp.
unfoldable pub set_fields_from : Tm → List Field → Action Done
unfolding set_field tm_get_field
set_fields_from tm [] = pure tt
set_fields_from tm (f ∷ fs) = set_field f (tm_get_field tm f) >> set_fields_from tm fs

abbrev pub time_mod : ℕ
time_mod = 2 ^ 64

-- The conversion of an unsigned long to time_t.
abbrev pub to_time : ℕ → ℤ
to_time v = if ltb v (2 ^ 63) then pos v else negsuc (time_mod - v - 1)

abbrev pub int_max : ℕ
int_max = 2147483647

abbrev pub ulong_max : ℕ
ulong_max = 18446744073709551615

-- strtoul at a digit, base 10: the digits' value, at most ULONG_MAX, and what is behind them.
unfoldable pub strtoul_from : ℕ → Bytes → ℕ × Bytes
strtoul_from v [] = (v, [])
strtoul_from v (c ∷ s) =
    let next = strtoul_from (min ulong_max (v * 10 + (c - b'0'))) s in
    if isdigit c then next else (v, c ∷ s)

-- The value, the rest, and the number of bytes between.
unfoldable pub strtoul_len : Bytes → ℕ × Bytes × ℕ
unfolding strtoul_from
strtoul_len s = let (v, rest) = strtoul_from 0 s in (v, rest, length s - length rest)

abbrev pub is_time_sep : ℕ → Bool
is_time_sep c = c == b':'

abbrev pub is_date_sep : ℕ → Bool
is_date_sep c = c == b'/' || (c == b'-' || c == b'.')

abbrev pub is_sep : ℕ → Bool
is_sep c = is_time_sep c || is_date_sep c

unfoldable pub expand_year : ℕ → ℕ → ℤ
expand_year year n =
    if n == 2
    then pos ((if ltb year 70 then 2000 else 1900) + year)
    else if n == 4
    then pos year
    else unset

-- Three numbers with the number of digits of each.
pub record Triplet : Type 0 where
  pub v1 : ℕ
  pub v2 : ℕ
  pub v3 : ℕ
  pub n1 : ℕ
  pub n2 : ℕ
  pub n3 : ℕ

abbrev pub one_or_two : ℕ → Bool
one_or_two n = n == 1 || n == 2

abbrev pub year_digits : ℕ → Bool
year_digits n = n == 0 || (n == 2 || n == 4)

-- The switch of parse_date: year, month and day, or a format error.
unfoldable pub date_parts : ℕ → Triplet → Option (ℤ × ℤ × ℤ)
unfolding expand_year
date_parts sep t =
    if sep == b'/'
    then (if not (one_or_two t.n1)
        then none
        else if one_or_two t.n2 && year_digits t.n3
        then some (expand_year t.v3 t.n3, pos t.v1, pos t.v2)
        else if t.n2 == 4 && t.n3 == 0
        then some (pos t.v2, pos t.v1, unset)
        else none)
    else if sep == b'-'
    then (if t.n1 == 4 && (t.n2 == 2 && (t.n3 == 0 || t.n3 == 2))
        then some (pos t.v1, pos t.v2, (if t.n3 == 0 then unset else pos t.v3))
        else if t.n1 == 2 && (t.n2 == 2 && year_digits t.n3)
        then some (expand_year t.v3 t.n3, pos t.v2, pos t.v1)
        else if t.n1 == 2 && (t.n2 == 4 && t.n3 == 0)
        then some (pos t.v2, pos t.v1, unset)
        else none)
    else if sep == b'.'
    then (if not (one_or_two t.n1) || (not (one_or_two t.n2) || not (year_digits t.n3))
        then none
        else some (expand_year t.v3 t.n3, pos t.v2, pos t.v1))
    else some (unset, unset, unset)

abbrev pub set_or : (ℤ → Bool) → ℤ → Bool
set_or valid v = v ==ℤ unset || valid v

unfoldable pub parse_date : ℕ → Triplet → Action Done
unfolding date_parts set_abs_date
parse_date sep t = elim (date_parts sep t) [
  | none ↦ raise date_format
  | some (year, mon, mday) ↦
      if set_or is_valid_year year && (set_or is_valid_mon mon && set_or is_valid_mday mday)
      then set_abs_date year mon mday
      else raise invalid_date
]

-- A time zone, if hour and minute have been set.
abbrev pub is_zone : State → Triplet → Bool
is_zone s t =
    is_field_set s tm_abs_hour
    && (is_field_set s tm_abs_min && (t.n1 == 2 && (t.n2 == 2 && (t.n3 == 0 && is_sign s.delim))))

unfoldable pub parse_time : Triplet → Action Done
unfolding set_user_tz set_abs_time
parse_time t s =
    let sec = if t.n3 == 0 then pos 0 else pos t.v3 in
    if not (one_or_two t.n1) || (not (t.n2 == 2) || not (t.n3 == 0 || t.n3 == 2))
    then (err time_format, s)
    else if is_zone s t
    then set_user_tz s.delim (pos t.v1) (pos t.v2) s
    else if is_valid_time (pos t.v1) (pos t.v2) sec
    then set_abs_time (pos t.v1) (pos t.v2) (if t.n3 == 0 then unset else pos t.v3) s
    else (err invalid_time, s)

-- The number of a group behind its separator, if there is one.
abbrev pub third : ℕ → Bytes → ℕ × Bytes × ℕ
third sep p =
    if first_char p == sep && isdigit (first_char (tail p)) then strtoul_len (tail p) else (0, p, 0)

-- What parse_number reads: is it one number; the separator; the numbers; the length of the first of
-- them and of all.
abbrev pub Reading : Type 0
Reading = Bool × ℕ × Triplet × ℕ × ℕ

unfoldable pub read_numbers : Bytes → Reading
unfolding strtoul_len
read_numbers s =
    let (v1, p1, n1) = strtoul_len s in
    let sep = first_char p1 in
    let (v2, p2, n2) = strtoul_len (tail p1) in
    let (v3, p3, n3) = third sep p2 in
    (
      not (is_sep sep) || not (isdigit (first_char (tail p1))),
      sep,
      record { v1 = v1; v2 = v2; v3 = v3; n1 = n1; n2 = n2; n3 = n3 },
      length s - length p1,
      length s - length p3,
    )

module _ (gmtime : ℤ → Option Tm) where
  unfoldable pub set_timestamp : ℤ → Action Done
  unfolding set_fields_from
  set_timestamp t = elim (gmtime t) [
    | none ↦ raise lib
    | some tm ↦ do set_fields_from tm abs_fields; set_field tm_tz (pos 0)
  ]

  unfoldable pub parse_single_number : ℕ → ℕ → Action Done
  unfolding set_timestamp set_postponed_number
  parse_single_number v n s =
      if s.delim == b'@'
      then set_timestamp (to_time v) s
      else if ltb int_max v
      then (err format, s)
      else set_postponed_number (pos v) (pos n) s

  unfoldable pub act_on : Reading → Action ℕ
  unfolding parse_single_number parse_time parse_date
  act_on (single, sep, t, l, m) =
      if single
      then parse_single_number t.v1 t.n1 >> pure l
      else if is_time_sep sep
      then parse_time t >> pure m
      else parse_date sep t >> pure m

  unfoldable pub parse_number : Bytes → Action ℕ
  unfolding act_on read_numbers
  parse_number s = act_on (read_numbers s)
