-- ===== src/ParseTime/RoundTrip.antt =====
-- parse-time-string.c: the parser reads back a printed date.
use notmuch.Prelude.{
  ℕ, ◌+◌, ◌-◌, ◌*◌, ◌/◌, ◌%◌, ◌<◌, min, Bool, true, false, not, ◌||◌, ◌&&◌, Option, some, [], ◌∷◌,
  ◌==◌, if◌then◌else◌, ◌≡◌, refl, ap, ◌∙◌, arith, length, drop,
}
use notmuch.Prelude.Bytes.{Bytes, first_char, isdigit, isalpha}
use notmuch.Prelude.Int.{ℤ, pos, ◌==ℤ◌}
use notmuch.TagUtil.{tail}
use notmuch.ParseTime.State.{
  Field, Action, Done, raise, invalid_date, general, unset, set_unless_unset, is_field_set,
  is_postponed, is_valid_year, is_valid_mon, is_valid_mday, tm_abs_mday, tm_abs_mon, tm_abs_year,
  is_valid_date, State, Result, ok, err, set_abs_date, set_abs_date_by, set_field, pure, ◌>>◌,
  parse_postponed_number,
}
use notmuch.ParseTime.Numbers.{
  Tm, Triplet, Reading, strtoul_from, strtoul_len, read_numbers, third, is_sep, act_on,
  parse_number, parse_date, date_parts, set_or, ulong_max,
}
use notmuch.ParseTime.Keywords.{parse_keyword}
use notmuch.ParseTime.Input.{parse_delim, parse_token, parse_tokens, parse_input, initial}
use notmuch.ParseTime.Clean.{written, set_field-free, postponed-free}

abbrev digit : ℕ → ℕ
digit a = b'0' + a

abbrev two : ℕ → Bytes → Bytes
two n s = digit (n / 10) ∷ digit (n % 10) ∷ s

-- YYYY-MM-DD
abbrev pub iso_date : ℕ → ℕ → ℕ → Bytes
iso_date y m d = two (y / 100) (two (y % 100) (b'-' ∷ two m (b'-' ∷ two d [])))

is_digit : (a : ℕ) → a < 10 → isdigit (digit a) ≡ true
is_digit a h = ground arith

strtoul-digit :
    (v a : ℕ) (s : Bytes)
    → a < 10
    → v < 1000
    → strtoul_from v (digit a ∷ s) ≡ strtoul_from (v * 10 + a) s
unfolding strtoul_from
strtoul-digit v a s h k =
    let e : (b'0' + a - b'0') ≡ a = omega arith in
    let m : min ulong_max (v * 10 + a) ≡ v * 10 + a = omega arith in
    rw (is_digit a h) (rw e (rw m refl))

strtoul-two :
    (v n : ℕ) (s : Bytes)
    → n < 100
    → v < 100
    → strtoul_from v (two n s) ≡ strtoul_from (v * 100 + n) s
strtoul-two v n s h k =
    strtoul-digit v (n / 10) _ (omega arith) (omega arith)
    ∙ strtoul-digit (v * 10 + n / 10) (n % 10) s (omega arith) (omega arith)
    ∙ ap (λ x. strtoul_from x s) (omega arith)

strtoul-four :
    (y : ℕ) (s : Bytes)
    → y < 10000
    → strtoul_from 0 (two (y / 100) (two (y % 100) s)) ≡ strtoul_from y s
strtoul-four y s h =
    strtoul-two 0 (y / 100) _ (omega arith) (omega arith)
    ∙ strtoul-two (0 * 100 + y / 100) (y % 100) s (omega arith) (omega arith)
    ∙ ap (λ x. strtoul_from x s) (omega arith)

strtoul-pair : (m : ℕ) (s : Bytes) → m < 100 → strtoul_from 0 (two m s) ≡ strtoul_from m s
strtoul-pair m s h = strtoul-two 0 m s h (omega arith) ∙ ap (λ x. strtoul_from x s) (omega arith)

len_of :
    (s : Bytes) (v : ℕ) (rest : Bytes)
    → strtoul_from 0 s ≡ (v, rest)
    → strtoul_len s ≡ (v, rest, length s - length rest)
unfolding strtoul_len
len_of s v rest e = ap (λ r. (r.0, r.1, length s - length r.1)) e

year_len :
    (y : ℕ) (s : Bytes)
    → y < 10000
    → strtoul_len (two (y / 100) (two (y % 100) (b'-' ∷ s))) ≡ (y, b'-' ∷ s, 4)
unfolding strtoul_from
year_len y s h =
    len_of _ y (b'-' ∷ s) (strtoul-four y (b'-' ∷ s) h) ∙ ap (λ n. (y, b'-' ∷ s, n)) (omega arith)

month_len : (m : ℕ) (s : Bytes) → m < 100 → strtoul_len (two m (b'-' ∷ s)) ≡ (m, b'-' ∷ s, 2)
unfolding strtoul_from
month_len m s h =
    len_of _ m (b'-' ∷ s) (strtoul-pair m (b'-' ∷ s) h) ∙ ap (λ n. (m, b'-' ∷ s, n)) (omega arith)

day_len : (d : ℕ) → d < 100 → strtoul_len (two d []) ≡ (d, [], 2)
unfolding strtoul_from
day_len d h = len_of _ d [] (strtoul-pair d [] h)

abbrev triplet : ℕ → ℕ → ℕ → Triplet
triplet y m d = record { v1 = y; v2 = m; v3 = d; n1 = 4; n2 = 2; n3 = 2 }

-- read_numbers, by what strtoul_len gives it, and by the tests for digits.
abbrev reading : Bytes → ℕ × Bytes × ℕ → ℕ × Bytes × ℕ → ℕ × Bytes × ℕ → Bool → Reading
reading s (v1, p1, n1) (v2, p2, n2) r3 more =
    let (v3, p3, n3) = r3 in
    (
      not (is_sep (first_char p1)) || not more,
      first_char p1,
      record { v1 = v1; v2 = v2; v3 = v3; n1 = n1; n2 = n2; n3 = n3 },
      length s - length p1,
      length s - length p3,
    )

read-iso :
    (y m d : ℕ)
    → y < 10000
    → m < 100
    → d < 100
    → read_numbers (iso_date y m d) ≡ (false, b'-', triplet y m d, 4, 10)
unfolding read_numbers
read-iso y m d hy hm hd =
    let s = iso_date y m d in
    let a = is_digit (m / 10) (omega arith) in
    let b = is_digit (d / 10) (omega arith) in
    ap
      (λ r1.
        reading s r1 (strtoul_len (tail r1.1)) (third (first_char r1.1) (strtoul_len (tail r1.1)).1)
          (isdigit (first_char (tail r1.1))))
      (year_len y (two m (b'-' ∷ two d [])) hy)
    ∙ ap
        (λ r2.
          reading s (y, b'-' ∷ two m (b'-' ∷ two d []), 4) r2 (third b'-' r2.1)
            (isdigit (digit (m / 10))))
        (month_len m (two d []) hm)
    ∙ ap
        (λ r3.
          reading s (y, b'-' ∷ two m (b'-' ∷ two d []), 4) (m, b'-' ∷ two d [], 2)
            (if isdigit (digit (d / 10)) then r3 else (0, b'-' ∷ two d [], 0))
            (isdigit (digit (m / 10))))
        (day_len d hd)
    ∙ ap
        (λ t.
          reading s (y, b'-' ∷ two m (b'-' ∷ two d []), 4) (m, b'-' ∷ two d [], 2)
            (if t then (d, [], 2) else (0, b'-' ∷ two d [], 0)) (isdigit (digit (m / 10))))
        b
    ∙ ap
        (λ t. reading s (y, b'-' ∷ two m (b'-' ∷ two d []), 4) (m, b'-' ∷ two d [], 2) (d, [], 2) t)
        a

-- The state in which year, month and day of the month have been set, in this order.
abbrev pub dated : ℕ → ℕ → ℕ → State
dated y m d =
    written tm_abs_mday (pos d) (written tm_abs_mon (pos m) (written tm_abs_year (pos y) initial))

pos_set : (n : ℕ) → pos n ==ℤ unset ≡ false
pos_set n = ground arith

date_ok :
    (y m d : ℕ)
    → is_valid_date (pos y) (pos m) (pos d) ≡ true
    → (set_or is_valid_year (pos y)
        && (set_or is_valid_mon (pos m) && set_or is_valid_mday (pos d)))
      ≡ true
date_ok y m d h = ground arith

set_one :
    (f : Field) (n : ℕ) (s : State)
    → is_postponed s ≡ false
    → is_field_set s f ≡ false
    → set_unless_unset set_field f (pos n) s ≡ (ok tt, written f (pos n) s)
set_one f n s h e = rw (pos_set n) (set_field-free f (pos n) s h e)

then_ok :
    {B : Type 0} (m : Action Done) (n : Action B) (s t : State)
    → m s ≡ (ok tt, t)
    → (m >> n) s ≡ n t
then_ok {B} m n s t e =
    ap (λ r. elim r.0 as (λ _. Result B × State) [ ok a ↦ n r.1 | err x ↦ (err x, r.1) ]) e

date-set : (y m d : ℕ) → set_abs_date (pos y) (pos m) (pos d) initial ≡ (ok tt, dated y m d)
unfolding set_abs_date set_abs_date_by
date-set y m d =
    then_ok (set tm_abs_year (pos y)) (set tm_abs_mon (pos m) >> set tm_abs_mday (pos d)) initial _
      (set_one tm_abs_year y initial refl refl)
    ∙ then_ok (set tm_abs_mon (pos m)) (set tm_abs_mday (pos d))
        (written tm_abs_year (pos y) initial) _ (set_one tm_abs_mon m _ refl refl)
    ∙ set_one tm_abs_mday d (written tm_abs_mon (pos m) (written tm_abs_year (pos y) initial)) refl
        refl
  where
    set : Field → ℤ → Action Done
    set = set_unless_unset set_field

act-date :
    (gmtime : ℤ → Option Tm) (y m d : ℕ)
    → is_valid_date (pos y) (pos m) (pos d) ≡ true
    → act_on gmtime (false, b'-', triplet y m d, 4, 10) initial ≡ (ok 10, dated y m d)
unfolding act_on parse_date date_parts
act-date gmtime y m d h =
    then_ok (parse_date b'-' (triplet y m d)) (pure 10) initial (dated y m d) (
      ap (λ b. (if b then set_abs_date (pos y) (pos m) (pos d) else raise invalid_date) initial)
        (date_ok y m d h)
      ∙ date-set y m d)

first_digit :
    (y : ℕ)
    → y < 10000
    → isalpha (digit (y / 100 / 10)) ≡ false × isdigit (digit (y / 100 / 10)) ≡ true
first_digit y h = (ground arith, ground arith)

token-date :
    (gmtime : ℤ → Option Tm) (y m d : ℕ)
    → y < 10000
    → is_valid_date (pos y) (pos m) (pos d) ≡ true
    → parse_token gmtime (iso_date y m d) initial ≡ (ok 10, dated y m d)
unfolding parse_token parse_number
token-date gmtime y m d l h =
    let s = iso_date y m d in
    ap
      (λ b.
        (if b
            then parse_keyword s
            else if isdigit (first_char s)
            then parse_number gmtime s
            else parse_delim s)
          initial)
      (first_digit y l).0
    ∙ ap (λ b. (if b then parse_number gmtime s else parse_delim s) initial) (first_digit y l).1
    ∙ ap (λ r. act_on gmtime r initial) (read-iso y m d l (ground arith) (ground arith))
    ∙ act-date gmtime y m d h

-- The rest of the loop of parse_input, from the outcome of the first token.
abbrev after_token : (ℤ → Option Tm) → Bytes → Result ℕ × State → Option (Result ℕ × State)
after_token gmtime s r = elim r.0 as (λ _. Option (Result ℕ × State)) [
  | err e ↦ some (err e, r.1)
  | ok n ↦
      if n == 0
      then some (err general, r.1)
      else parse_tokens gmtime (length s) (drop n s) (0 + n) r.1
]

-- A date from 1970-01-01 on, with a month up to 12 and a day up to 31, that is printed with four,
-- two and two digits and dashes between, is parsed to its end, and sets the year, the month and the
-- day of the month to the numbers that were printed, and nothing else.
pub parse_input-iso_date :
    (gmtime : ℤ → Option Tm) (y m d : ℕ)
    → y < 10000
    → is_valid_date (pos y) (pos m) (pos d) ≡ true
    → parse_input gmtime (iso_date y m d) initial ≡ some (ok 10, dated y m d)
unfolding parse_input parse_tokens
parse_input-iso_date gmtime y m d l h =
    ap (after_token gmtime (iso_date y m d)) (token-date gmtime y m d l h)
    ∙ ap some (
        then_ok parse_postponed_number (pure 10) (dated y m d) (dated y m d)
          (postponed-free (dated y m d) refl))
