-- ===== src/ParseTime/Keywords.antt =====
-- parse-time-string.c: the keywords, how they are matched, and what each sets.
use Prim.Native.String.{String}
use notmuch.Prelude.{
  ℕ, ◌+◌, Bool, true, false, not, ◌&&◌, ◌||◌, Option, none, some, List, [], ◌∷◌, ◌==◌,
  if◌then◌else◌,
}
use notmuch.Prelude.Bytes.{Bytes, codes, first_char, isalpha, tolower}
use notmuch.Prelude.Int.{ℤ, pos, negsuc, ◌*ℤ◌, ◌==ℤ◌}
use notmuch.StringUtil.{strcase_equal}
use notmuch.TagUtil.{tail}
use notmuch.ParseTime.State.{
  Field, tm_abs_sec, tm_abs_min, tm_abs_hour, tm_abs_mday, tm_abs_mon, tm_abs_year, tm_wday,
  tm_ampm, tm_tz, tm_rel_sec, tm_rel_min, tm_rel_hour, tm_rel_day, tm_rel_mon, tm_rel_year,
  tm_rel_week, tm_none, err, Action, Done, ◌>>◌, pure, raise, keyword, date_format, invalid_date,
  invalid_time, is_postponed, clear_postponed, consume_postponed_number, is_valid_mday,
  is_valid_12hour, set_field, add_to_field, set_postponed_number, set_abs_time, set_fields_to_now,
}

-- The setter callbacks, `null` where there is none.
pub data Setter : Type 0 where
  null set_rel set_number set_month set_ampm set_timeofday set_today set_now set_ordinal ignore :
      Setter

pub record Keyword : Type 0 where
  pub name : Bytes
  pub field : Field
  pub value : ℤ
  pub set : Setter

abbrev one_digit_or_two : ℤ → Bool
one_digit_or_two n = n ==ℤ pos 1 || n ==ℤ pos 2

unfoldable pub kw_set_rel : Keyword → Action Done
unfolding add_to_field
kw_set_rel kw s =
    let multiplier = if is_postponed s then s.postponed_value else pos 1 in
    add_to_field kw.field (multiplier *ℤ kw.value) (consume_postponed_number s)

unfoldable pub kw_set_number : Keyword → Action Done
unfolding set_postponed_number
kw_set_number kw = set_postponed_number kw.value (negsuc 0)

unfoldable pub kw_set_month : Keyword → Action Done
unfolding set_field
kw_set_month kw s =
    if one_digit_or_two s.postponed_length
    then (if is_valid_mday s.postponed_value
        then (do set_field tm_abs_mday s.postponed_value; set_field kw.field kw.value)
            (clear_postponed s)
        else (err invalid_date, clear_postponed s))
    else set_field kw.field kw.value s

unfoldable pub kw_set_ampm : Keyword → Action Done
unfolding set_field set_abs_time
kw_set_ampm kw s =
    if one_digit_or_two s.postponed_length
    then (if is_valid_12hour s.postponed_value
        then (do set_abs_time s.postponed_value (pos 0) (pos 0); set_field kw.field kw.value)
            (clear_postponed s)
        else (err invalid_time, clear_postponed s))
    else set_field kw.field kw.value s

unfoldable pub kw_set_timeofday : Keyword → Action Done
unfolding set_abs_time
kw_set_timeofday kw = set_abs_time kw.value (pos 0) (pos 0)

unfoldable pub kw_set_today : Keyword → Action Done
unfolding set_fields_to_now
kw_set_today kw = set_fields_to_now (tm_abs_year ∷ tm_abs_mon ∷ tm_abs_mday ∷ [])

unfoldable pub kw_set_now : Keyword → Action Done
unfolding set_fields_to_now
kw_set_now kw = set_fields_to_now (tm_abs_hour ∷ tm_abs_min ∷ tm_abs_sec ∷ [])

abbrev is_any : ℤ → ℕ → ℕ → ℕ → Bool
is_any v a b c = v ==ℤ pos a || (v ==ℤ pos b || v ==ℤ pos c)

-- Whether the ordinal's suffix goes with the number.
unfoldable pub is_ordinal : Bytes → ℤ → Bool
unfolding strcase_equal
is_ordinal name v =
    if strcase_equal name (codes "st") && not (is_any v 1 21 31)
    then false
    else if strcase_equal name (codes "nd") && not (is_any v 2 22 22)
    then false
    else if strcase_equal name (codes "rd") && not (is_any v 3 23 23)
    then false
    else not (strcase_equal name (codes "th") && not (is_valid_mday v))

unfoldable pub kw_set_ordinal : Keyword → Action Done
unfolding set_field is_ordinal
kw_set_ordinal kw s =
    if not (is_postponed s)
    then (err date_format, s)
    else if not (one_digit_or_two s.postponed_length)
    then (err date_format, clear_postponed s)
    else if is_ordinal kw.name s.postponed_value
    then set_field tm_abs_mday s.postponed_value (clear_postponed s)
    else (err invalid_date, clear_postponed s)

unfoldable pub set_keyword : Setter → Keyword → Action Done
unfolding kw_set_rel kw_set_number kw_set_month kw_set_ampm kw_set_timeofday kw_set_today kw_set_now
    kw_set_ordinal set_field
set_keyword null kw = set_field kw.field kw.value
set_keyword set_rel kw = kw_set_rel kw
set_keyword set_number kw = kw_set_number kw
set_keyword set_month kw = kw_set_month kw
set_keyword set_ampm kw = kw_set_ampm kw
set_keyword set_timeofday kw = kw_set_timeofday kw
set_keyword set_today kw = kw_set_today kw
set_keyword set_now kw = kw_set_now kw
set_keyword set_ordinal kw = kw_set_ordinal kw
set_keyword ignore kw = pure tt

abbrev entry : String → Field → ℤ → Setter → Keyword
entry name field value set = record { name = codes name; field = field; value = value; set = set }

unfoldable pub keywords : List Keyword
keywords =
    entry "sun|day" tm_wday (pos 0) null
    ∷ entry "mon|day" tm_wday (pos 1) null
    ∷ entry "tue|sday" tm_wday (pos 2) null
    ∷ entry "wed|nesday" tm_wday (pos 3) null
    ∷ entry "thu|rsday" tm_wday (pos 4) null
    ∷ entry "fri|day" tm_wday (pos 5) null
    ∷ entry "sat|urday" tm_wday (pos 6) null
    ∷ entry "jan|uary" tm_abs_mon (pos 1) set_month
    ∷ entry "feb|ruary" tm_abs_mon (pos 2) set_month
    ∷ entry "mar|ch" tm_abs_mon (pos 3) set_month
    ∷ entry "apr|il" tm_abs_mon (pos 4) set_month
    ∷ entry "may" tm_abs_mon (pos 5) set_month
    ∷ entry "jun|e" tm_abs_mon (pos 6) set_month
    ∷ entry "jul|y" tm_abs_mon (pos 7) set_month
    ∷ entry "aug|ust" tm_abs_mon (pos 8) set_month
    ∷ entry "sep|tember" tm_abs_mon (pos 9) set_month
    ∷ entry "oct|ober" tm_abs_mon (pos 10) set_month
    ∷ entry "nov|ember" tm_abs_mon (pos 11) set_month
    ∷ entry "dec|ember" tm_abs_mon (pos 12) set_month
    ∷ entry "y|ears" tm_rel_year (pos 1) set_rel
    ∷ entry "mo|nths" tm_rel_mon (pos 1) set_rel
    ∷ entry "*M" tm_rel_mon (pos 1) set_rel
    ∷ entry "w|eeks" tm_rel_week (pos 1) set_rel
    ∷ entry "d|ays" tm_rel_day (pos 1) set_rel
    ∷ entry "h|ours" tm_rel_hour (pos 1) set_rel
    ∷ entry "hr|s" tm_rel_hour (pos 1) set_rel
    ∷ entry "mi|nutes" tm_rel_min (pos 1) set_rel
    ∷ entry "mins" tm_rel_min (pos 1) set_rel
    ∷ entry "*m" tm_rel_min (pos 1) set_rel
    ∷ entry "s|econds" tm_rel_sec (pos 1) set_rel
    ∷ entry "secs" tm_rel_sec (pos 1) set_rel
    ∷ entry "one" tm_none (pos 1) set_number
    ∷ entry "two" tm_none (pos 2) set_number
    ∷ entry "three" tm_none (pos 3) set_number
    ∷ entry "four" tm_none (pos 4) set_number
    ∷ entry "five" tm_none (pos 5) set_number
    ∷ entry "six" tm_none (pos 6) set_number
    ∷ entry "seven" tm_none (pos 7) set_number
    ∷ entry "eight" tm_none (pos 8) set_number
    ∷ entry "nine" tm_none (pos 9) set_number
    ∷ entry "ten" tm_none (pos 10) set_number
    ∷ entry "dozen" tm_none (pos 12) set_number
    ∷ entry "hundred" tm_none (pos 100) set_number
    ∷ entry "this" tm_none (pos 0) set_number
    ∷ entry "last" tm_none (pos 1) set_number
    ∷ entry "yesterday" tm_rel_day (pos 1) set_rel
    ∷ entry "today" tm_none (pos 0) set_today
    ∷ entry "now" tm_none (pos 0) set_now
    ∷ entry "noon" tm_none (pos 12) set_timeofday
    ∷ entry "midnight" tm_none (pos 0) set_timeofday
    ∷ entry "am" tm_ampm (pos 0) set_ampm
    ∷ entry "a.m." tm_ampm (pos 0) set_ampm
    ∷ entry "pm" tm_ampm (pos 1) set_ampm
    ∷ entry "p.m." tm_ampm (pos 1) set_ampm
    ∷ entry "st" tm_none (pos 0) set_ordinal
    ∷ entry "nd" tm_none (pos 0) set_ordinal
    ∷ entry "rd" tm_none (pos 0) set_ordinal
    ∷ entry "th" tm_none (pos 0) set_ordinal
    ∷ entry "ago" tm_none (pos 0) ignore
    ∷ entry "pst" tm_tz (negsuc 479) null
    ∷ entry "mst" tm_tz (negsuc 419) null
    ∷ entry "cst" tm_tz (negsuc 359) null
    ∷ entry "est" tm_tz (negsuc 299) null
    ∷ entry "ast" tm_tz (negsuc 239) null
    ∷ entry "nst" tm_tz (negsuc 209) null
    ∷ entry "gmt" tm_tz (pos 0) null
    ∷ entry "utc" tm_tz (pos 0) null
    ∷ entry "wet" tm_tz (pos 0) null
    ∷ entry "cet" tm_tz (pos 60) null
    ∷ entry "eet" tm_tz (pos 120) null
    ∷ entry "fet" tm_tz (pos 180) null
    ∷ entry "wat" tm_tz (pos 60) null
    ∷ entry "cat" tm_tz (pos 120) null
    ∷ entry "eat" tm_tz (pos 180) null
    ∷ []

-- The end of the loop of match_keyword, with `n` bytes matched.
abbrev match_end : Bytes → Bytes → Bool → ℕ → ℕ
match_end s [] prefix_matched n = if isalpha (first_char s) then 0 else n
match_end s (k ∷ kw) prefix_matched n =
    if isalpha (first_char s) then 0 else if not prefix_matched then 0 else n

abbrev pub same_char : Bool → ℕ → ℕ → Bool
same_char match_case c k = if match_case then c == k else tolower c == tolower k

-- The loop of match_keyword, one byte of the keyword a step.
unfoldable pub match_from : Bool → Bytes → Bytes → Bool → ℕ → ℕ
match_from match_case s [] prefix_matched n = match_end s [] prefix_matched n
match_from match_case s (k ∷ kw) prefix_matched n =
    let bar = match_from match_case s kw true n in
    let next = match_from match_case (tail s) kw prefix_matched (n + 1) in
    if k == b'|'
    then bar
    else if not (isalpha (first_char s))
    then match_end s (k ∷ kw) prefix_matched n
    else if same_char match_case (first_char s) k
    then next
    else 0

unfoldable pub match_keyword : Bytes → Bytes → Bool → ℕ
unfolding match_from
match_keyword str kw match_case = match_from match_case str kw false 0

-- A keyword that begins with "*" is matched with its case.
unfoldable pub match_entry : Bytes → Keyword → ℕ
unfolding match_keyword
match_entry s kw =
    if first_char kw.name == b'*'
    then match_keyword s (tail kw.name) true
    else match_keyword s kw.name false

unfoldable pub find_keyword : Bytes → List Keyword → Option (Keyword × ℕ)
unfolding match_entry
find_keyword s [] = none
find_keyword s (kw ∷ kws) =
    let rest = find_keyword s kws in
    let n = match_entry s kw in if n == 0 then rest else some (kw, n)

unfoldable pub parse_keyword : Bytes → Action ℕ
unfolding find_keyword set_keyword keywords
parse_keyword s = elim (find_keyword s keywords) [
  | none ↦ raise keyword
  | some (kw, n) ↦ set_keyword kw.set kw >> pure n
]
