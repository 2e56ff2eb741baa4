-- ===== src/ParseTime/Output.antt =====
-- parse-time-string.c: phase 2, from the fields that were parsed to a time. The functions of time.h
-- are the record Clock.
use notmuch.Prelude.{
  Bool, true, false, not, ◌&&◌, ◌||◌, Option, none, some, List, [], ◌∷◌, ◌==◌, if◌then◌else◌,
}
use notmuch.Prelude.Int.{ℤ, pos, negsuc, ◌+ℤ◌, ◌-ℤ◌, ◌*ℤ◌, ltb_ℤ, ◌==ℤ◌, neg_ℤ}
use notmuch.ParseTime.State.{
  Field, tm_abs_sec, tm_abs_min, tm_abs_hour, tm_abs_mday, tm_abs_mon, tm_abs_year, tm_wday,
  tm_ampm, tm_tz, tm_rel_sec, tm_rel_min, tm_rel_hour, tm_rel_day, tm_rel_mon, tm_rel_year,
  tm_rel_week, abs_fields, abs_to_rel_field, get_field_epoch_value, FieldSet, field_set, field_now,
  State, Result, ok, err, Action, Done, lib, time_format, invalid_time, is_field_set, mark, store,
  get_field, unset_field, is_valid_12hour, set_field, add_to_field,
}
use notmuch.ParseTime.Numbers.{Tm, tm_get_field}

-- The functions of time.h. `none` is the value (time_t) -1 or a NULL pointer.
pub record Clock : Type 0 where
  pub time : Option ℤ
  pub gmtime : ℤ → Option Tm
  pub localtime : ℤ → Option Tm
  pub mktime : Tm → Option ℤ
  pub timegm : Tm → Option ℤ

pub data Round : Type 0 where
  round_down no_round round_up round_up_inclusive : Round

abbrev pub is_no_round : Round → Bool
is_no_round no_round = true
is_no_round _ = false

-- round >= PARSE_TIME_ROUND_UP
abbrev pub is_round_up : Round → Bool
is_round_up round_up = true
is_round_up round_up_inclusive = true
is_round_up _ = false

abbrev pub is_inclusive : Round → Bool
is_inclusive round_up_inclusive = true
is_inclusive _ = false

abbrev pub or_lib : {A : Type 0} → Option A → Result A
or_lib none = err lib
or_lib (some a) = ok a

abbrev pub and_then : {A B : Type 0} → Result A → (A → Result B) → Result B
and_then (ok a) f = f a
and_then (err e) f = err e

unfoldable pub initialize_now : Clock → Option ℤ → State → Result Tm
unfolding ◌+ℤ◌ ◌*ℤ◌
initialize_now c ref s =
    and_then (elim ref [ none ↦ or_lib c.time | some t ↦ ok t ])
      (λ t.
        if is_field_set s tm_tz
        then or_lib (c.gmtime (t +ℤ get_field s tm_tz *ℤ pos 60))
        else or_lib (c.localtime t))

unfoldable pub normalize_tm : Clock → Tm → Result Tm
normalize_tm c tm = and_then (or_lib (c.mktime tm)) (λ t. or_lib (c.localtime t))

abbrev is_now : FieldSet → Bool
is_now field_now = true
is_now _ = false

-- Fields flagged as "now" become the reference time's.
unfoldable pub fill_now : Tm → List Field → State → State
unfolding tm_get_field
fill_now now [] s = s
fill_now now (f ∷ fs) s =
    fill_now now fs
      (if is_now (s.set f) then store f (tm_get_field now f) (mark field_set f s) else s)

abbrev pub rel_days : ℤ → ℤ → ℤ
rel_days today wday = if ltb_ℤ wday today then today -ℤ wday else today +ℤ pos 7 -ℤ wday

-- A day of the week with no day of the month is the last such day before the reference time.
unfoldable pub relative_wday : Tm → State → State
unfolding tm_get_field add_to_field ◌+ℤ◌ ◌-ℤ◌
relative_wday now s =
    if is_field_set s tm_wday && not (is_field_set s tm_abs_mday)
    then unset_field tm_wday
        (add_to_field tm_rel_day (rel_days (tm_get_field now tm_wday) (get_field s tm_wday)) s).1
    else s

-- hdiff
unfoldable pub ampm_shift : ℤ → ℤ → ℤ
ampm_shift ampm hour =
    if ampm ==ℤ pos 0
    then (if hour ==ℤ pos 12 then negsuc 11 else pos 0)
    else if hour ==ℤ pos 12
    then pos 0
    else pos 12

unfoldable pub fixup_ampm : Action Done
unfolding ampm_shift add_to_field
fixup_ampm s =
    let hour = get_field s tm_abs_hour in
    if not (is_field_set s tm_ampm)
    then (ok tt, s)
    else if not (is_field_set s tm_abs_hour)
    then (err time_format, s)
    else if not (is_valid_12hour hour)
    then (err invalid_time, s)
    else (ok tt, (add_to_field tm_rel_hour (neg_ℤ (ampm_shift (get_field s tm_ampm) hour)) s).1)

-- The variables of the rounding loop.
pub record Rounding : Type 0 where
  pub state : State
  pub round : Round
  pub week_round : Round

-- What rounding up does to the most accurate field that is specified.
unfoldable pub round_up_field : Round → Field → State → State
unfolding add_to_field
round_up_field round f s =
    let s' = (add_to_field (abs_to_rel_field f) (negsuc 0) s).1 in
    if is_round_up round && not (f == tm_abs_sec)
    then (if is_inclusive round then (add_to_field tm_rel_sec (pos 1) s').1 else s')
    else s

-- The first half of the loop's body.
unfoldable pub round_field : Field → Rounding → Rounding
unfolding round_up_field set_field
round_field f r =
    if is_no_round r.round
    then r
    else if is_field_set r.state f || is_field_set r.state (abs_to_rel_field f)
    then record r { state = round_up_field r.round f r.state; round = no_round }
    else if f == tm_abs_mday && is_field_set r.state tm_rel_week
    then record r { round = no_round; week_round = r.round }
    else record r { state = (set_field f (get_field_epoch_value f) r.state).1 }

-- The second half: a field that is still unset is the reference time's.
unfoldable pub fill_field : Tm → Field → State → State
unfolding set_field tm_get_field
fill_field now f s = if is_field_set s f then s else (set_field f (tm_get_field now f) s).1

abbrev pub round_step : Tm → Field → Rounding → Rounding
round_step now f r = let r' = round_field f r in record r' { state = fill_field now f r'.state }

unfoldable pub round_loop : Tm → List Field → Rounding → Rounding
unfolding round_field fill_field
round_loop now [] r = r
round_loop now (f ∷ fs) r = round_loop now fs (round_step now f r)

-- set_field on each field, whose failure is not looked at.
unfoldable pub set_to_now : Tm → List Field → State → State
unfolding set_field tm_get_field
set_to_now now [] s = s
set_to_now now (f ∷ fs) s = set_to_now now fs (set_field f (tm_get_field now f) s).1

abbrev pub week_fields : List Field
week_fields = tm_abs_sec ∷ tm_abs_min ∷ tm_abs_hour ∷ tm_abs_mday ∷ []

abbrev pub set_week_fields : Tm → Rounding → State
set_week_fields now r =
    if is_no_round r.week_round then r.state else set_to_now now week_fields r.state

unfoldable pub combine : State → Tm
unfolding ◌-ℤ◌ ◌*ℤ◌
combine s = record {
  sec = get_field s tm_abs_sec -ℤ get_field s tm_rel_sec;
  min = get_field s tm_abs_min -ℤ get_field s tm_rel_min;
  hour = get_field s tm_abs_hour -ℤ get_field s tm_rel_hour;
  mday = get_field s tm_abs_mday -ℤ get_field s tm_rel_day -ℤ pos 7 *ℤ get_field s tm_rel_week;
  mon = get_field s tm_abs_mon -ℤ get_field s tm_rel_mon -ℤ pos 1;
  year = get_field s tm_abs_year -ℤ get_field s tm_rel_year -ℤ pos 1900;
  wday = pos 0;
  isdst = negsuc 0;
}

-- Week rounding of a normalised time.
unfoldable pub round_week : Round → Tm → Tm
unfolding ◌+ℤ◌ ◌-ℤ◌
round_week round tm = record tm {
  sec = if is_inclusive round then negsuc 0 else pos 0;
  min = pos 0;
  hour = pos 0;
  isdst = negsuc 0;
  mday = if is_round_up round then tm.mday +ℤ (pos 7 -ℤ tm.wday) else tm.mday -ℤ tm.wday;
}

unfoldable pub to_clock : Clock → State → Tm → Result ℤ
unfolding ◌-ℤ◌
to_clock c s tm =
    if is_field_set s tm_tz
    then or_lib (c.timegm (record tm { min = tm.min -ℤ get_field s tm_tz }))
    else or_lib (c.mktime tm)

-- The state before the rounding loop.
unfoldable pub prepare : Tm → Action Done
unfolding fill_now relative_wday fixup_ampm
prepare now s = fixup_ampm (relative_wday now (fill_now now abs_fields s))

-- From the rounding loop on.
unfoldable pub finish_output : Clock → Tm → Round → State → Result ℤ
unfolding round_loop set_to_now combine normalize_tm round_week to_clock
finish_output c now round s =
    let r =
      round_loop now abs_fields (record { state = s; round = round; week_round = no_round }) in
    let s' = set_week_fields now r in
    if is_no_round r.week_round
    then to_clock c s' (combine s')
    else and_then (normalize_tm c (combine s')) (λ tm. to_clock c s' (round_week r.week_round tm))

unfoldable pub create_output : Clock → Option ℤ → Round → State → Result ℤ
unfolding initialize_now prepare finish_output
create_output c ref round s =
    and_then (initialize_now c ref s)
      (λ now. and_then (prepare now s).0 (λ _. finish_output c now round (prepare now s).1))
