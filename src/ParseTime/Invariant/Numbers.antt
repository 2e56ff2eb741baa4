-- ===== src/ParseTime/Invariant/Numbers.antt =====
-- parse-time-string.c: numbers, delimiters and the whole input keep every field in range.
use notmuch.Prelude.{
  ℕ, zero, suc, Option, none, some, Bool, true, false, ◌&&◌, List, [], ◌∷◌, ◌==◌, ltb,
  if◌then◌else◌, ◌≡◌, refl, subst, arith, Bool-cases, inl, inr, length, drop, ◌+◌,
}
use notmuch.Prelude.Bytes.{Bytes, first_char, isdigit, isalpha, isalnum}
use notmuch.Prelude.Int.{ℤ, pos, ◌+ℤ◌, between_ℤ}
use notmuch.ParseTime.Invariant.{
  in_range, IsValidBut, Good, Good-bind, Keeps, Keeps-if, Keeps-pure, Keeps-then, Keeps-raise,
  unset_or_in, set_abs_time-Good, set_abs_date-Good, set_user_tz-Good,
}
use notmuch.ParseTime.Invariant.Setters.{set_field-Good, set_postponed-Good, postponed-Good}
use notmuch.ParseTime.Invariant.Tokens.{parse_keyword-Good}
use notmuch.ParseTime.State.{
  Field, field_set, tm_abs_sec, tm_abs_min, tm_abs_mday, tm_abs_hour, tm_abs_mon, tm_abs_year,
  tm_tz, abs_fields, Action, Done, State, ◌>>◌, pure, raise, set_delim, ok, err, Result, set_field,
  set_abs_date, set_abs_time, set_user_tz, format, invalid_date, date_format, invalid_time,
  time_format, lib, general, is_valid_time, is_valid_mon, is_valid_mday, is_valid_year, unset,
  set_postponed_number, parse_postponed_number,
}
use notmuch.ParseTime.Numbers.{
  Tm, act_on, Reading, read_numbers, tm_get_field, set_fields_from, to_time, Triplet, date_parts,
  parse_date, set_or, is_zone, parse_time, set_timestamp, parse_single_number, int_max,
  parse_number, is_time_sep,
}
use notmuch.ParseTime.Input.{parse_delim, parse_token, parse_tokens, parse_input, initial}

-- What gmtime_r documents of its fields.
abbrev pub in_tm : Tm → Bool
in_tm tm =
    between_ℤ 0 60 tm.sec
    && (between_ℤ 0 59 tm.min
        && (between_ℤ 0 23 tm.hour && (between_ℤ 1 31 tm.mday && between_ℤ 0 11 tm.mon)))

abbrev pub Documented : (ℤ → Option Tm) → Type 0
Documented gmtime = (t : ℤ) (tm : Tm) → gmtime t ≡ some tm → in_tm tm ≡ true

tm_in :
    (tm : Tm)
    → in_tm tm ≡ true
    → (f : Field) → ltb f 6 ≡ true
    → in_range f (tm_get_field tm f) ≡ true
unfolding in_range tm_get_field ◌+ℤ◌
tm_in tm h f l = ground arith

below_six : List Field → Bool
below_six [] = true
below_six (f ∷ fs) = ltb f 6 && below_six fs

fields-Good :
    (tm : Tm)
    → in_tm tm ≡ true
    → (fs : List Field) → below_six fs ≡ true
    → Keeps none (set_fields_from tm fs)
unfolding set_fields_from below_six
fields-Good tm h [] l = Keeps-pure tt
fields-Good tm h (f ∷ fs) l =
    Keeps-then (set_field-Good f (tm_get_field tm f) (tm_in tm h f (ground arith)))
      (fields-Good tm h fs (ground arith))

utc_in : in_range tm_tz (pos 0) ≡ true
unfolding in_range
utc_in = refl

module _ (gmtime : ℤ → Option Tm) (documented : Documented gmtime) where
  timestamp-Good : (t : ℤ) → Keeps none (set_timestamp gmtime t)
  unfolding set_timestamp below_six
  timestamp-Good t = go (gmtime t) (documented t)
    where
      go :
          (r : Option Tm)
          → ((tm : Tm) → r ≡ some tm → in_tm tm ≡ true)
          → Keeps none (elim r as (λ _. Action Done) [
            | none ↦ raise lib
            | some tm ↦ set_fields_from tm abs_fields >> set_field tm_tz (pos 0)
          ])
      go none h = Keeps-raise
      go (some tm) h =
          Keeps-then (fields-Good tm (h tm refl) abs_fields refl)
            (set_field-Good tm_tz (pos 0) utc_in)

  single-Good : (v n : ℕ) → Keeps none (parse_single_number gmtime v n)
  unfolding parse_single_number
  single-Good v n = record { keep = λ s h. go s h (s.delim == b'@') (ltb int_max v) }
    where
      go :
          (s : State)
          → IsValidBut none s
          → (at over : Bool)
          → Good none (
              if at
              then set_timestamp gmtime (to_time v) s
              else if over
              then (err format, s)
              else set_postponed_number (pos v) (pos n) s)
      go s h true over = (timestamp-Good (to_time v)).keep s h
      go s h false true = tt
      go s h false false = (set_postponed-Good (pos v) (pos n)).keep s h

  set_or_in :
      (year mon mday : ℤ)
      → (set_or is_valid_year year && (set_or is_valid_mon mon && set_or is_valid_mday mday)) ≡ true
      → unset_or_in tm_abs_year year ≡ true
        × unset_or_in tm_abs_mon mon ≡ true
        × unset_or_in tm_abs_mday mday ≡ true
  unfolding in_range
  set_or_in year mon mday e = (ground arith, ground arith, ground arith)

  date-Good : (sep : ℕ) (t : Triplet) → Keeps none (parse_date sep t)
  unfolding parse_date set_abs_date
  date-Good sep t = go (date_parts sep t)
    where
      go :
          (r : Option (ℤ × ℤ × ℤ))
          → Keeps none (elim r as (λ _. Action Done) [
            | none ↦ raise date_format
            | some (year, mon, mday) ↦
                if set_or is_valid_year year
                  && (set_or is_valid_mon mon && set_or is_valid_mday mday)
                then set_abs_date year mon mday
                else raise invalid_date
          ])
      go none = Keeps-raise
      go (some (year, mon, mday)) =
          Keeps-if _
            (λ e.
              let (a, b, c) = set_or_in year mon mday e in
              set_abs_date-Good set_field-Good year mon mday a b c)
            (λ _. Keeps-raise)

  time_set_in :
      (t : Triplet)
      → is_valid_time (pos t.v1) (pos t.v2) (if t.n3 == 0 then pos 0 else pos t.v3) ≡ true
      → unset_or_in tm_abs_hour (pos t.v1) ≡ true
        × unset_or_in tm_abs_min (pos t.v2) ≡ true
        × unset_or_in tm_abs_sec (if t.n3 == 0 then unset else pos t.v3) ≡ true
  unfolding in_range
  time_set_in t e = (ground arith, ground arith, ground arith)

  time-Good : (t : Triplet) → Keeps none (parse_time t)
  unfolding parse_time set_user_tz set_abs_time
  time-Good t = record {
    keep = λ s h.
        go s h _ (is_zone s t)
          (is_valid_time (pos t.v1) (pos t.v2) (if t.n3 == 0 then pos 0 else pos t.v3))
          (time_set_in t);
  }
    where
      sec : ℤ
      sec = if t.n3 == 0 then unset else pos t.v3

      go :
          (s : State)
          → IsValidBut none s
          → (bad zone valid : Bool)
          → (valid ≡ true
              → unset_or_in tm_abs_hour (pos t.v1) ≡ true
                × unset_or_in tm_abs_min (pos t.v2) ≡ true
                × unset_or_in tm_abs_sec sec ≡ true)
          → Good none (
              if bad
              then (err time_format, s)
              else if zone
              then set_user_tz s.delim (pos t.v1) (pos t.v2) s
              else if valid
              then set_abs_time (pos t.v1) (pos t.v2) sec s
              else (err invalid_time, s))
      go s h true _ _ _ = tt
      go s h false true _ _ =
          (set_user_tz-Good set_field-Good s.delim (pos t.v1) (pos t.v2)).keep s h
      go s h false false true k =
          let (a, b, c) = k refl in
          (set_abs_time-Good set_field-Good (pos t.v1) (pos t.v2) sec a b c).keep s h
      go s h false false false k = tt

  act-Good : (r : Reading) → Keeps none (act_on gmtime r)
  unfolding act_on
  act-Good (single, sep, t, l, m) =
      Keeps-if single (λ _. Keeps-then (single-Good t.v1 t.n1) (Keeps-pure l))
        (λ _.
          Keeps-if (is_time_sep sep) (λ _. Keeps-then (time-Good t) (Keeps-pure m))
            (λ _. Keeps-then (date-Good sep t) (Keeps-pure m)))

  number-Good : (s : Bytes) → Keeps none (parse_number gmtime s)
  unfolding parse_number
  number-Good s = act-Good (read_numbers s)

  delim-Good : (s : Bytes) → Keeps none (parse_delim s)
  unfolding parse_delim
  delim-Good [] = Keeps-pure 0
  delim-Good (c ∷ s) =
      Keeps-if (isalnum c) (λ _. Keeps-pure 0)
        (λ _. record {
          keep = λ t h.
              Good-bind none none (parse_delim s) (λ n. pure (n + 1)) (set_delim c t)
                ((delim-Good s).keep (set_delim c t) h) (λ _ u k. k);
        })

  token-Good : (p : Bytes) → Keeps none (parse_token gmtime p)
  unfolding parse_token
  token-Good p =
      Keeps-if (isalpha (first_char p)) (λ _. parse_keyword-Good p)
        (λ _. Keeps-if (isdigit (first_char p)) (λ _. number-Good p) (λ _. delim-Good p))

  -- The outcome of the loop, which is good if it has ended.
  abbrev GoodEnd : {A : Type 0} → Option (Result A × State) → Type 0
  GoodEnd none = Unit {0}
  GoodEnd (some r) = Good none r

  tokens-Good :
      (fuel : ℕ) (p : Bytes) (done : ℕ) (s : State)
      → IsValidBut none s
      → GoodEnd (parse_tokens gmtime fuel p done s)
  unfolding parse_tokens
  tokens-Good zero p done s h = tt
  tokens-Good (suc fuel) [] done s h =
      Good-bind none none parse_postponed_number (λ _. pure done) s ((postponed-Good none).keep s h)
        (λ _ t k. k)
  tokens-Good (suc fuel) (c ∷ p) done s h =
      go (parse_token gmtime (c ∷ p) s) ((token-Good (c ∷ p)).keep s h)
        (λ n. tokens-Good fuel (drop n (c ∷ p)) (done + n))
    where
      go :
          (r : Result ℕ × State)
          → Good none r
          → ((n : ℕ) (t : State)
              → IsValidBut none t
              → GoodEnd (parse_tokens gmtime fuel (drop n (c ∷ p)) (done + n) t))
          → GoodEnd (elim r.0 as (λ _. Option (Result ℕ × State)) [
            | err e ↦ some (err e, r.1)
            | ok n ↦
                if n == 0
                then some (err general, r.1)
                else parse_tokens gmtime fuel (drop n (c ∷ p)) (done + n) r.1
          ])
      go (err e, t) k ih = tt
      go (ok n, t) k ih = elim (Bool-cases (n == 0)) [
        | inl e ↦ rw (GoodEnd, e) tt
        | inr e ↦ rw (GoodEnd, e) (ih n t k)
      ]

-- Where the parser succeeds and gmtime_r fills its struct as documented, each field that the parser
-- has set to a number is in the range of that field: seconds 0 to 60, minutes 0 to 59, hours 0 to
-- 24, days of the month 1 to 31, months 1 to 12, weekdays 0 to 6, am/pm 0 or 1, and a time zone
-- less than 15 hours from UTC.
pub parse_input-in_range :
    (gmtime : ℤ → Option Tm) (s : Bytes) (n : ℕ) (st : State) (f : Field)
    → Documented gmtime
    → parse_input gmtime s initial ≡ some (ok n, st)
    → st.set f ≡ field_set
    → in_range f (st.tm f) ≡ true
unfolding parse_input
parse_input-in_range gmtime s n st f d e set =
    let h : IsValidBut none st =
      subst (GoodEnd gmtime d) e (tokens-Good gmtime d (suc (length s)) s 0 initial (λ _. refl)) in
    rw set at (h f)
