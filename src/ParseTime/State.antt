-- ===== src/ParseTime/State.antt =====
-- parse-time-string.c: the fields, the parsing state, postponed numbers and the setters. An int is an
-- integer that does not overflow.
use notmuch.Prelude.{
  ℕ, zero, suc, ◌+◌, Bool, true, false, not, ◌&&◌, ◌||◌, List, [], ◌∷◌, ltb, ◌==◌, if◌then◌else◌,
}
use notmuch.Prelude.Int.{ℤ, pos, negsuc, ◌+ℤ◌, ◌*ℤ◌, leb_ℤ, ◌==ℤ◌, between_ℤ, quot_ℤ, rem_ℤ, neg_ℤ}

-- enum field. The code computes with the order of the enum.
abbrev pub Field : Type 0
Field = ℕ

abbrev pub tm_abs_sec : Field
tm_abs_sec = 0

abbrev pub tm_abs_min : Field
tm_abs_min = 1

abbrev pub tm_abs_hour : Field
tm_abs_hour = 2

abbrev pub tm_abs_mday : Field
tm_abs_mday = 3

abbrev pub tm_abs_mon : Field
tm_abs_mon = 4

abbrev pub tm_abs_year : Field
tm_abs_year = 5

abbrev pub tm_wday : Field
tm_wday = 6

abbrev pub tm_abs_isdst : Field
tm_abs_isdst = 7

abbrev pub tm_ampm : Field
tm_ampm = 8

abbrev pub tm_tz : Field
tm_tz = 9

abbrev pub tm_rel_sec : Field
tm_rel_sec = 10

abbrev pub tm_rel_min : Field
tm_rel_min = 11

abbrev pub tm_rel_hour : Field
tm_rel_hour = 12

abbrev pub tm_rel_day : Field
tm_rel_day = 13

abbrev pub tm_rel_mon : Field
tm_rel_mon = 14

abbrev pub tm_rel_year : Field
tm_rel_year = 15

abbrev pub tm_rel_week : Field
tm_rel_week = 16

abbrev pub tm_none : Field
tm_none = 17

abbrev pub next_abs_field : Field → Field
next_abs_field f = if ltb f tm_abs_year then f + 1 else tm_none

abbrev pub abs_to_rel_field : Field → Field
abs_to_rel_field f = f + 10

-- The loop `for (f = TM_ABS_SEC; f != TM_NONE; f = next_abs_field (f))`: its fields.
abbrev pub fields_from : ℕ → Field → List Field
fields_from zero f = []
fields_from (suc fuel) f =
    let rest = fields_from fuel (next_abs_field f) in if f == tm_none then [] else f ∷ rest

abbrev pub abs_fields : List Field
abs_fields = fields_from 7 tm_abs_sec

abbrev pub get_field_epoch_value : Field → ℤ
get_field_epoch_value f =
    if f == tm_abs_mday || f == tm_abs_mon
    then pos 1
    else if f == tm_abs_year
    then pos 1970
    else pos 0

-- enum field_set
pub data FieldSet : Type 0 where
  field_unset field_set field_now : FieldSet

pub record State : Type 0 where
  pub tm : Field → ℤ
  pub set : Field → FieldSet
  pub last_field : Field
  pub delim : ℕ
  pub postponed_length : ℤ
  pub postponed_value : ℤ
  pub postponed_delim : ℕ

-- The internal errors -PARSE_TIME_ERR_…, `general` for PARSE_TIME_ERR.
pub data Error : Type 0 where
  general lib already_set format date_format time_format invalid_date invalid_time keyword : Error

pub data Result (A : Type 0) : Type 0 where
  ok : A → Result A
  err : Error → Result A

-- A function on the state: what it has written stays written after an error.
abbrev pub Action : Type 0 → Type 0
Action A = State → Result A × State

abbrev pub Done : Type 0
Done = Unit {0}

infixl 5 ◌>>=◌ ◌>>◌
abbrev pub ◌>>=◌ : {A B : Type 0} → Action A → (A → Action B) → Action B
◌>>=◌ m f s = elim (m s).0 [ ok a ↦ f a (m s).1 | err e ↦ (err e, (m s).1) ]

abbrev pub ◌>>◌ : {A B : Type 0} → Action A → Action B → Action B
m >> k = m >>= λ _. k

abbrev pub pure : {A : Type 0} → A → Action A
pure a s = (ok a, s)

abbrev pub raise : {A : Type 0} → Error → Action A
raise e s = (err e, s)

abbrev pub modify : (State → State) → Action Done
modify f s = (ok tt, f s)

-- Go on if the test of the state holds.
abbrev pub check : (State → Bool) → Error → Action Done
check test e s = if test s then (ok tt, s) else (err e, s)

abbrev pub field_eq : Field → Field → Bool
field_eq f g = f == g

abbrev pub is_unset : FieldSet → Bool
is_unset field_unset = true
is_unset _ = false

abbrev pub is_field_set : State → Field → Bool
is_field_set s f = not (is_unset (s.set f))

abbrev pub mark : FieldSet → Field → State → State
mark b f s = record s { set = λ g. if f == g then b else s.set g }

abbrev pub store : Field → ℤ → State → State
store f v s = record s { tm = λ g. if f == g then v else s.tm g }

abbrev pub get_field : State → Field → ℤ
get_field s f = s.tm f

abbrev pub unset_field : Field → State → State
unset_field f s = store f (pos 0) (mark field_unset f s)

abbrev pub set_delim : ℕ → State → State
set_delim c s = record s { delim = c }

abbrev pub unset_delim : State → State
unset_delim s = record s { delim = 0 }

abbrev pub get_postponed_length : State → ℤ
get_postponed_length s = s.postponed_length

abbrev pub clear_postponed : State → State
clear_postponed s = record s {
  postponed_length = pos 0;
  postponed_value = pos 0;
  postponed_delim = 0;
}

abbrev pub is_postponed : State → Bool
is_postponed s = not (s.postponed_length ==ℤ pos 0)

-- consume_postponed_number; what it hands back is read from the state before.
abbrev pub consume_postponed_number : State → State
consume_postponed_number s = if is_postponed s then clear_postponed s else s

-- set_field, and its kin, by the call of parse_postponed_number inside it.
module _ (parse_postponed : Action Done) where
  unfoldable pub set_field_by : Field → ℤ → Action Done
  set_field_by f v = do
    check (λ s. not (is_field_set s f)) already_set
    modify (mark field_set f)
    parse_postponed
    modify (λ s. record (store f v (unset_delim s)) { last_field = f })

  unfoldable pub add_to_field_by : Field → ℤ → Action Done
  add_to_field_by f v = do
    modify (mark field_set f)
    parse_postponed
    modify (λ s. record (store f (s.tm f +ℤ v) (unset_delim s)) { last_field = f })

  unfoldable pub set_postponed_number_by : ℤ → ℤ → Action Done
  set_postponed_number_by v n s =
      (do
        parse_postponed
        modify (λ t. record t {
          postponed_length = n;
          postponed_value = v;
          postponed_delim = s.delim;
        }))
        s

-- UNSET
abbrev pub unset : ℤ
unset = negsuc 0

module _ (set_field : Field → ℤ → Action Done) where
  abbrev pub set_unless_unset : Field → ℤ → Action Done
  set_unless_unset f v = if v ==ℤ unset then pure tt else set_field f v

  unfoldable pub set_abs_time_by : ℤ → ℤ → ℤ → Action Done
  set_abs_time_by hour min sec = do
    set_unless_unset tm_abs_hour hour
    set_unless_unset tm_abs_min min
    set_unless_unset tm_abs_sec sec

  unfoldable pub set_abs_date_by : ℤ → ℤ → ℤ → Action Done
  set_abs_date_by year mon mday = do
    set_unless_unset tm_abs_year year
    set_unless_unset tm_abs_mon mon
    set_unless_unset tm_abs_mday mday

abbrev pub is_valid_12hour : ℤ → Bool
is_valid_12hour h = between_ℤ 1 12 h

abbrev pub is_valid_time : ℤ → ℤ → ℤ → Bool
is_valid_time h m s =
    if h ==ℤ pos 24 && (m ==ℤ pos 0 && s ==ℤ pos 0)
    then true
    else between_ℤ 0 23 h && (between_ℤ 0 59 m && between_ℤ 0 59 s)

abbrev pub is_valid_mday : ℤ → Bool
is_valid_mday mday = between_ℤ 1 31 mday

abbrev pub is_valid_mon : ℤ → Bool
is_valid_mon mon = between_ℤ 1 12 mon

abbrev pub is_valid_year : ℤ → Bool
is_valid_year year = leb_ℤ (pos 1970) year

abbrev pub is_valid_date : ℤ → ℤ → ℤ → Bool
is_valid_date year mon mday = is_valid_year year && (is_valid_mon mon && is_valid_mday mday)

abbrev pub is_sign : ℕ → Bool
is_sign c = c == b'+' || c == b'-'

abbrev pub is_valid_tz : ℤ → ℤ → Bool
is_valid_tz hour min = between_ℤ 0 14 hour && (between_ℤ 0 59 min && rem_ℤ min 15 ==ℤ pos 0)

unfoldable pub set_user_tz_by : (Field → ℤ → Action Done) → ℕ → ℤ → ℤ → Action Done
set_user_tz_by set_field sign hour min =
    let tz = hour *ℤ pos 60 +ℤ min in
    if is_valid_tz hour min
    then set_field tm_tz (if sign == b'-' then neg_ℤ tz else tz)
    else raise invalid_time

-- set_field where no number is postponed: parse_postponed_number returns 0.
abbrev pub set_field_free : Field → ℤ → Action Done
set_field_free = set_field_by (pure tt)

-- A postponed number of `n` digits behind the delimiter `d` that no token has consumed.
unfoldable pub parse_lone_number : ℤ → ℤ → ℕ → Field → Action Done
unfolding set_abs_time_by set_abs_date_by set_user_tz_by
parse_lone_number v n d last_field =
    if n ==ℤ pos 1 || n ==ℤ pos 2
    then (if last_field == tm_abs_mon
        then (if is_valid_mday v then set_field_free tm_abs_mday v else raise invalid_date)
        else if n ==ℤ pos 2 && is_sign d
        then set_user_tz_by set_field_free d v (pos 0)
        else raise format)
    else if n ==ℤ pos 4
    then (if is_valid_year v
        then set_field_free tm_abs_year v
        else if is_sign d
        then set_user_tz_by set_field_free d (quot_ℤ v 100) (rem_ℤ v 100)
        else raise format)
    else if n ==ℤ pos 6
    then (let hour = quot_ℤ v 10000 in
        let min = rem_ℤ (quot_ℤ v 100) 100 in
        let sec = rem_ℤ v 100 in
        if is_valid_time hour min sec
        then set_abs_time_by set_field_free hour min sec
        else raise invalid_time)
    else if n ==ℤ pos 8
    then (let year = quot_ℤ v 10000 in
        let mon = rem_ℤ (quot_ℤ v 100) 100 in
        let mday = rem_ℤ v 100 in
        if is_valid_date year mon mday
        then set_abs_date_by set_field_free year mon mday
        else raise invalid_date)
    else raise format

unfoldable pub parse_postponed_number : Action Done
unfolding parse_lone_number
parse_postponed_number s =
    if is_postponed s
    then parse_lone_number s.postponed_value s.postponed_length s.postponed_delim s.last_field
        (clear_postponed s)
    else (ok tt, s)

-- The setters of the program.
unfoldable pub set_field : Field → ℤ → Action Done
unfolding set_field_by parse_postponed_number
set_field = set_field_by parse_postponed_number

unfoldable pub add_to_field : Field → ℤ → Action Done
unfolding add_to_field_by parse_postponed_number
add_to_field = add_to_field_by parse_postponed_number

unfoldable pub set_postponed_number : ℤ → ℤ → Action Done
unfolding set_postponed_number_by parse_postponed_number
set_postponed_number = set_postponed_number_by parse_postponed_number

unfoldable pub set_abs_time : ℤ → ℤ → ℤ → Action Done
unfolding set_abs_time_by
set_abs_time = set_abs_time_by set_field

unfoldable pub set_abs_date : ℤ → ℤ → ℤ → Action Done
unfolding set_abs_date_by
set_abs_date = set_abs_date_by set_field

unfoldable pub set_user_tz : ℕ → ℤ → ℤ → Action Done
unfolding set_user_tz_by
set_user_tz = set_user_tz_by set_field

unfoldable pub set_fields_to_now : List Field → Action Done
unfolding set_field
set_fields_to_now [] = pure tt
set_fields_to_now (f ∷ fs) = do set_field f (pos 0); modify (mark field_now f); set_fields_to_now fs
