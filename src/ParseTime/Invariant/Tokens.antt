-- ===== src/ParseTime/Invariant/Tokens.antt =====
-- parse-time-string.c: keywords, numbers and delimiters keep every field in range.
use notmuch.Prelude.{
  ℕ, Option, none, some, Bool, true, ◌&&◌, ◌||◌, List, [], ◌∷◌, ◌==◌, leb, ◌≡◌, refl, arith,
  Bool-cases, inl, inr,
}
use notmuch.Prelude.Int.{ℤ, pos, negsuc, ◌==ℤ◌}
use notmuch.ParseTime.Invariant.{
  in_range, IsValidBut, Good, Keeps, Keeps-pure, Keeps-then, Keeps-raise, unset_or_in,
  set_abs_time-Good,
}
use notmuch.ParseTime.Invariant.Setters.{
  set_field-Good, add_to_field-Good, set_postponed-Good, to_now-Good, mday_in,
}
use notmuch.ParseTime.State.{
  Field, tm_abs_sec, tm_abs_min, tm_abs_mday, tm_abs_hour, tm_abs_mon, tm_abs_year, Action, Done,
  State, is_postponed, clear_postponed, consume_postponed_number, ◌>>◌, set_field, set_abs_time,
  pure, raise, keyword, is_valid_mday, is_valid_12hour,
}
use notmuch.StringUtil.{strcase_equal}
use notmuch.Prelude.Bytes.{codes}
use notmuch.ParseTime.Keywords.{
  Keyword, Setter, null, set_rel, set_number, set_month, set_ampm, set_timeofday, set_today,
  set_now, set_ordinal, ignore, kw_set_rel, kw_set_number, kw_set_month, kw_set_ampm,
  kw_set_timeofday, kw_set_today, kw_set_now, kw_set_ordinal, is_ordinal, set_keyword, keywords,
  match_entry, find_keyword, parse_keyword,
}

-- A keyword's field and value go with its setter.
unfoldable fits_setter : Setter → Keyword → Bool
unfolding in_range strcase_equal
fits_setter null kw = in_range kw.field kw.value
fits_setter set_month kw = in_range kw.field kw.value
fits_setter set_ampm kw = in_range kw.field kw.value
fits_setter set_rel kw = leb 10 kw.field
fits_setter set_timeofday kw = unset_or_in tm_abs_hour kw.value
fits_setter set_ordinal kw =
    strcase_equal kw.name (codes "st")
    || (strcase_equal kw.name (codes "nd")
        || (strcase_equal kw.name (codes "rd") || strcase_equal kw.name (codes "th")))
fits_setter _ kw = true

abbrev fits : Keyword → Bool
fits kw = fits_setter kw.set kw

unfoldable all_fit : List Keyword → Bool
unfolding fits_setter
all_fit [] = true
all_fit (kw ∷ kws) = fits kw && all_fit kws

keywords-fit : all_fit keywords ≡ true
unfolding all_fit keywords
keywords-fit = refl

find-fits :
    (s : List ℕ) (kws : List Keyword) (kw : Keyword) (n : ℕ)
    → all_fit kws ≡ true
    → find_keyword s kws ≡ some (kw, n)
    → fits kw ≡ true
unfolding find_keyword all_fit
find-fits s [] kw n h e = ground arith
find-fits s (k ∷ kws) kw n h e = elim (Bool-cases (match_entry s k == 0)) [
  | inl z ↦ find-fits s kws kw n (ground arith) (rw z at e)
  | inr z ↦ let same = rw z at e in let fit : fits k ≡ true = ground arith in cc
]

rel_in : (f : Field) → leb 10 f ≡ true → (w : ℤ) → in_range f w ≡ true
unfolding in_range
rel_in f h w = ground arith

consume-valid : (s : State) → IsValidBut none s → IsValidBut none (consume_postponed_number s)
consume-valid s h = elim (Bool-cases (is_postponed s)) [ inl e ↦ rw e h | inr e ↦ rw e h ]

rel-Good : (kw : Keyword) → leb 10 kw.field ≡ true → Keeps none (kw_set_rel kw)
unfolding kw_set_rel
rel-Good kw r = record {
  keep = λ s h.
      (add_to_field-Good kw.field _ (rel_in kw.field r)).keep (consume_postponed_number s)
        (consume-valid s h);
}

hour_in : (v : ℤ) → is_valid_12hour v ≡ true → unset_or_in tm_abs_hour v ≡ true
unfolding in_range
hour_in v e = ground arith

zero_in : unset_or_in tm_abs_min (pos 0) ≡ true × unset_or_in tm_abs_sec (pos 0) ≡ true
unfolding in_range
zero_in = (refl, refl)

then_field :
    {m : Action Done} (kw : Keyword)
    → in_range kw.field kw.value ≡ true
    → Keeps none m
    → Keeps none (m >> set_field kw.field kw.value)
then_field kw r h = Keeps-then h (set_field-Good kw.field kw.value r)

month-Good : (kw : Keyword) → in_range kw.field kw.value ≡ true → Keeps none (kw_set_month kw)
unfolding kw_set_month
month-Good kw r = record {
  keep = λ s h. elim (Bool-cases (s.postponed_length ==ℤ pos 1 || s.postponed_length ==ℤ pos 2)) [
    | inl e ↦ elim (Bool-cases (is_valid_mday s.postponed_value)) [
      | inl k ↦
          rw (Good, e)
            (rw (Good, k)
              ((then_field kw r
                  (set_field-Good tm_abs_mday s.postponed_value (mday_in s.postponed_value k))).keep
                (clear_postponed s) h))
      | inr k ↦ rw (Good, e) (rw (Good, k) tt)
    ]
    | inr e ↦ rw (Good, e) ((set_field-Good kw.field kw.value r).keep s h)
  ];
}

ampm-Good : (kw : Keyword) → in_range kw.field kw.value ≡ true → Keeps none (kw_set_ampm kw)
unfolding kw_set_ampm set_abs_time
ampm-Good kw r = record {
  keep = λ s h. elim (Bool-cases (s.postponed_length ==ℤ pos 1 || s.postponed_length ==ℤ pos 2)) [
    | inl e ↦ elim (Bool-cases (is_valid_12hour s.postponed_value)) [
      | inl k ↦
          rw (Good, e)
            (rw (Good, k)
              ((then_field kw r (
                  set_abs_time-Good set_field-Good s.postponed_value (pos 0) (pos 0)
                    (hour_in s.postponed_value k) zero_in.0 zero_in.1)).keep
                (clear_postponed s) h))
      | inr k ↦ rw (Good, e) (rw (Good, k) tt)
    ]
    | inr e ↦ rw (Good, e) ((set_field-Good kw.field kw.value r).keep s h)
  ];
}

timeofday-Good :
    (kw : Keyword) → unset_or_in tm_abs_hour kw.value ≡ true → Keeps none (kw_set_timeofday kw)
unfolding kw_set_timeofday set_abs_time
timeofday-Good kw r =
    set_abs_time-Good set_field-Good kw.value (pos 0) (pos 0) r zero_in.0 zero_in.1

ordinal_in :
    (kw : Keyword) (v : ℤ)
    → fits_setter set_ordinal kw ≡ true
    → is_ordinal kw.name v ≡ true
    → in_range tm_abs_mday v ≡ true
unfolding in_range is_ordinal fits_setter
ordinal_in kw v h e = ground arith

ordinal-Good : (kw : Keyword) → fits_setter set_ordinal kw ≡ true → Keeps none (kw_set_ordinal kw)
unfolding kw_set_ordinal
ordinal-Good kw r = record {
  keep = λ s h. elim (Bool-cases (is_postponed s)) [
    | inl p ↦ elim (Bool-cases (s.postponed_length ==ℤ pos 1 || s.postponed_length ==ℤ pos 2)) [
      | inl e ↦ elim (Bool-cases (is_ordinal kw.name s.postponed_value)) [
        | inl k ↦
            rw (Good, p)
              (rw (Good, e)
                (rw (Good, k)
                  ((set_field-Good tm_abs_mday s.postponed_value
                      (ordinal_in kw s.postponed_value r k)).keep
                    (clear_postponed s) h)))
        | inr k ↦ rw (Good, p) (rw (Good, e) (rw (Good, k) tt))
      ]
      | inr e ↦ rw (Good, p) (rw (Good, e) tt)
    ]
    | inr p ↦ rw (Good, p) tt
  ];
}

keyword-Good :
    (set : Setter) (kw : Keyword) → fits_setter set kw ≡ true → Keeps none (set_keyword set kw)
unfolding set_keyword fits_setter kw_set_today kw_set_now kw_set_number
keyword-Good null kw r = set_field-Good kw.field kw.value r
keyword-Good set_rel kw r = rel-Good kw r
keyword-Good set_number kw r = set_postponed-Good kw.value (negsuc 0)
keyword-Good set_month kw r = month-Good kw r
keyword-Good set_ampm kw r = ampm-Good kw r
keyword-Good set_timeofday kw r = timeofday-Good kw r
keyword-Good set_today kw r = to_now-Good (tm_abs_year ∷ tm_abs_mon ∷ tm_abs_mday ∷ [])
keyword-Good set_now kw r = to_now-Good (tm_abs_hour ∷ tm_abs_min ∷ tm_abs_sec ∷ [])
keyword-Good set_ordinal kw r = ordinal-Good kw r
keyword-Good ignore kw r = record { keep = λ s h. h }

pub parse_keyword-Good : (s : List ℕ) → Keeps none (parse_keyword s)
unfolding parse_keyword
parse_keyword-Good s = go (find_keyword s keywords) (λ kw n. find-fits s keywords kw n keywords-fit)
  where
    go :
        (found : Option (Keyword × ℕ))
        → ((kw : Keyword) (n : ℕ) → found ≡ some (kw, n) → fits kw ≡ true)
        → Keeps none (elim found as (λ _. Action ℕ) [
          | none ↦ raise keyword
          | some (kw, n) ↦ set_keyword kw.set kw >> pure n
        ])
    go none h = Keeps-raise
    go (some (kw, n)) h = Keeps-then (keyword-Good kw.set kw (h kw n refl)) (Keeps-pure n)
