-- ===== src/Tests/Dates.antt =====
-- parse-time-string.c at concrete inputs.
use notmuch.Prelude.{
  ℕ, true, false, Option, none, some, List, [], ◌∷◌, map, ◌≡◌, refl, subst, arith, Bool-cases, inl,
  inr, if◌then◌else◌,
}
use notmuch.Prelude.Bytes.{Bytes, codes}
use notmuch.Prelude.Int.{ℤ, pos, ◌==ℤ◌}
use notmuch.ParseTime.State.{
  Result, ok, err, abs_fields, tm_abs_mday, tm_abs_mon, tm_rel_week, State, already_set, keyword,
}
use notmuch.ParseTime.Keywords.{match_keyword}
use notmuch.ParseTime.Numbers.{Tm, strtoul_len}
use notmuch.ParseTime.Input.{parse_input, initial}
use notmuch.ParseTime.Output.{round_up, round_loop}
use notmuch.ParseTime.Clean.{written}
use notmuch.ParseTime.Invariant.{in_range}
use notmuch.ParseTime.Invariant.Numbers.{Documented, in_tm, parse_input-in_range}
use notmuch.ParseTime.Length.{ends_with, parse_input-total}
use notmuch.ParseTime.Matching.{matched, match_keyword-matched}
use notmuch.ParseTime.Rounding.Loop.{rounding, due, below, round_loop-due}
use notmuch.ParseTime.RoundTrip.{iso_date, dated, parse_input-iso_date}

abbrev no_gmtime : ℤ → Option Tm
no_gmtime t = none

abbrev fields_of : Bytes → Option (Result ℕ × List ℤ)
unfolding parse_input
fields_of s = elim (parse_input no_gmtime s initial) [
  | none ↦ none
  | some (r, st) ↦ some (r, map st.tm abs_fields)
]

christmas :
    fields_of (codes "25 Dec 2012 5:30")
    ≡ some (ok 16, pos 0 ∷ pos 30 ∷ pos 5 ∷ pos 25 ∷ pos 12 ∷ pos 2012 ∷ [])
unfolding parse_input strtoul_len
christmas = refl

abbrev result_of : Bytes → Option (Result ℕ)
unfolding parse_input
result_of s = elim (parse_input no_gmtime s initial) [ none ↦ none | some (r, st) ↦ some r ]

pm : result_of (codes "5 p.m.") ≡ some (err keyword)
unfolding parse_input strtoul_len
pm = refl

twice : result_of (codes "2012-01-02 2013-01-02") ≡ some (err already_set)
unfolding parse_input strtoul_len
twice = refl

-- A gmtime_r that knows one time, 2012-12-25 05:30:00 UTC.
abbrev xmas_tm : Tm
xmas_tm = record {
  sec = pos 0;
  min = pos 30;
  hour = pos 5;
  mday = pos 25;
  mon = pos 11;
  year = pos 112;
  wday = pos 2;
  isdst = pos 0;
}

abbrev xmas_gmtime : ℤ → Option Tm
xmas_gmtime t = if t ==ℤ pos 1356413400 then some xmas_tm else none

xmas-Documented : Documented xmas_gmtime
xmas-Documented t tm e = elim (Bool-cases (t ==ℤ pos 1356413400)) [
  | inl k ↦ let same : xmas_tm ≡ tm = cc (rw k at e) in subst (λ u. in_tm u ≡ true) same refl
  | inr k ↦ let no = rw k at e in ground arith
]

parse_input-in_range_example : in_range tm_abs_mday ((dated 2012 12 25).tm tm_abs_mday) ≡ true
parse_input-in_range_example =
    parse_input-in_range xmas_gmtime (iso_date 2012 12 25) 10 (dated 2012 12 25) tm_abs_mday
      xmas-Documented (parse_input-iso_date xmas_gmtime 2012 12 25 (omega arith) refl) refl

parse_input-total_example : ends_with 9 (parse_input xmas_gmtime (codes "5 p.m. 25") initial) ≡ true
parse_input-total_example = parse_input-total xmas_gmtime (codes "5 p.m. 25") initial

parse_input-iso_date_example :
    parse_input xmas_gmtime (iso_date 2012 12 25) initial ≡ some (ok 10, dated 2012 12 25)
parse_input-iso_date_example = parse_input-iso_date xmas_gmtime 2012 12 25 (omega arith) refl

match_keyword-matched_example :
    match_keyword (codes "Decem 24") (codes "dec|ember") false
    ≡ matched false (codes "Decem 24") (codes "dec|ember")
match_keyword-matched_example = match_keyword-matched (codes "Decem 24") (codes "dec|ember") false

-- Only the month is set.
abbrev december : State
december = written tm_abs_mon (pos 12) initial

round_loop-due_example :
    (round_loop xmas_tm abs_fields (rounding december round_up)).state.tm tm_abs_mday
    ≡ due xmas_tm december (below december abs_fields tm_abs_mday) tm_abs_mday
round_loop-due_example = round_loop-due xmas_tm round_up december tm_abs_mday refl refl

-- A week ago.
abbrev week_ago : State
week_ago = written tm_rel_week (pos 1) initial
