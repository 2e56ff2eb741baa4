-- ===== src/ParseTime/Invariant/Setters.antt =====
-- parse-time-string.c: the setters and the postponed number keep every field in range.
use notmuch.Prelude.{
  ℕ, Option, none, some, Bool, true, false, ◌&&◌, ◌||◌, List, [], ◌∷◌, ◌==◌, if◌then◌else◌, ◌≡◌,
  refl, arith, Bool-cases, inl, inr,
}
use notmuch.Prelude.Int.{ℤ, pos, ◌+ℤ◌, ◌==ℤ◌, quot_ℤ, rem_ℤ}
use notmuch.ParseTime.Invariant.{
  in_range, IsValidBut, Good, Good-bind, Keeps, Keeps-if, Keeps-raise, mark-valid, store-valid,
  set_field_free-Good, set_field_by-Good, SetsGood, unset_or_in, set_abs_time-Good,
  set_abs_date-Good, set_user_tz-Good,
}
use notmuch.ParseTime.State.{
  Field, tm_abs_sec, tm_abs_min, tm_abs_hour, tm_abs_mday, tm_abs_mon, tm_abs_year, field_set,
  field_now, State, ok, Action, Done, mark, store, modify, unset_delim, clear_postponed,
  is_postponed, is_sign, set_field_free, parse_lone_number, parse_postponed_number, set_field,
  add_to_field, add_to_field_by, set_postponed_number, set_postponed_number_by, set_fields_to_now,
  is_valid_time, is_valid_date, is_valid_mday, is_valid_year, ◌>>◌,
}

pub mday_in : (v : ℤ) → is_valid_mday v ≡ true → in_range tm_abs_mday v ≡ true
unfolding in_range
mday_in v e = e

pub year_in : (v : ℤ) → in_range tm_abs_year v ≡ true
unfolding in_range
year_in v = refl

pub date_in :
    (year mon mday : ℤ)
    → is_valid_date year mon mday ≡ true
    → unset_or_in tm_abs_mon mon ≡ true × unset_or_in tm_abs_mday mday ≡ true
unfolding in_range
date_in year mon mday e = (ground arith, ground arith)

pub time_in :
    (hour min sec : ℤ)
    → is_valid_time hour min sec ≡ true
    → unset_or_in tm_abs_hour hour ≡ true
      × unset_or_in tm_abs_min min ≡ true
      × unset_or_in tm_abs_sec sec ≡ true
unfolding in_range
time_in hour min sec e = (ground arith, ground arith, ground arith)

year_or_unset : (v : ℤ) → unset_or_in tm_abs_year v ≡ true
unfolding in_range
year_or_unset v = ground arith

lone-Good : (x : Option Field) (v n : ℤ) (d : ℕ) (l : Field) → Keeps x (parse_lone_number v n d l)
unfolding parse_lone_number
lone-Good x v n d l =
    Keeps-if (n ==ℤ pos 1 || n ==ℤ pos 2)
      (λ _.
        Keeps-if (l == tm_abs_mon)
          (λ _.
            Keeps-if (is_valid_mday v) (λ k. free tm_abs_mday v (mday_in v k)) (λ _. Keeps-raise))
          (λ _.
            Keeps-if (n ==ℤ pos 2 && is_sign d) (λ _. set_user_tz-Good free d v (pos 0))
              (λ _. Keeps-raise)))
      (λ _.
        Keeps-if (n ==ℤ pos 4)
          (λ _.
            Keeps-if (is_valid_year v) (λ k. free tm_abs_year v (year_in v))
              (λ _.
                Keeps-if (is_sign d) (λ _. set_user_tz-Good free d (quot_ℤ v 100) (rem_ℤ v 100))
                  (λ _. Keeps-raise)))
          (λ _.
            Keeps-if (n ==ℤ pos 6)
              (λ _.
                Keeps-if (is_valid_time hour min sec)
                  (λ k.
                    let (a, b, c) = time_in hour min sec k in
                    set_abs_time-Good free hour min sec a b c)
                  (λ _. Keeps-raise))
              (λ _.
                Keeps-if (n ==ℤ pos 8)
                  (λ _.
                    Keeps-if (is_valid_date hour min sec)
                      (λ k.
                        let (a, b) = date_in hour min sec k in
                        set_abs_date-Good free hour min sec (year_or_unset hour) a b)
                      (λ _. Keeps-raise))
                  (λ _. Keeps-raise))))
  where
    free : SetsGood x set_field_free
    free = set_field_free-Good x

    hour : ℤ
    hour = quot_ℤ v 10000

    min : ℤ
    min = rem_ℤ (quot_ℤ v 100) 100

    sec : ℤ
    sec = rem_ℤ v 100

pub postponed-Good : (x : Option Field) → Keeps x parse_postponed_number
unfolding parse_postponed_number
postponed-Good x = record { keep = λ s h. go s h (is_postponed s) }
  where
    lone : State → Action Done
    lone s = parse_lone_number s.postponed_value s.postponed_length s.postponed_delim s.last_field

    go :
        (s : State)
        → IsValidBut x s
        → (b : Bool) → Good x (if b then lone s (clear_postponed s) else (ok tt, s))
    go s h true =
        (lone-Good x s.postponed_value s.postponed_length s.postponed_delim s.last_field).keep
          (clear_postponed s) h
    go s h false = h

pub set_field-Good : SetsGood none set_field
unfolding set_field
set_field-Good f v r = record {
  keep = λ s h.
      set_field_by-Good none parse_postponed_number f v s (postponed-Good (some f))
        (λ t. store-valid f v t r) h;
}

pub add_to_field-Good :
    (f : Field) (v : ℤ) → ((w : ℤ) → in_range f w ≡ true) → Keeps none (add_to_field f v)
unfolding add_to_field add_to_field_by
add_to_field-Good f v r = record {
  keep = λ s h.
      Good-bind (some f) none parse_postponed_number
        (λ _. modify (λ s. record (store f (s.tm f +ℤ v) (unset_delim s)) { last_field = f }))
        (mark field_set f s)
        ((postponed-Good (some f)).keep (mark field_set f s) (mark-valid f field_set s h))
        (λ _ t k. store-valid f (t.tm f +ℤ v) t (r _) k);
}

pub set_postponed-Good : (v n : ℤ) → Keeps none (set_postponed_number v n)
unfolding set_postponed_number set_postponed_number_by
set_postponed-Good v n = record {
  keep = λ s h.
      Good-bind none none parse_postponed_number
        (λ _.
          modify (λ t. record t {
            postponed_length = n;
            postponed_value = v;
            postponed_delim = s.delim;
          }))
        s ((postponed-Good none).keep s h) (λ _ t k. k);
}

exempt-store :
    (f : Field) (v : ℤ) (t : State) → IsValidBut (some f) t → IsValidBut (some f) (store f v t)
exempt-store f v t h g = elim (Bool-cases (f == g)) [
  | inl e ↦ rw e refl
  | inr e ↦ let k = rw e at (h g) in rw e k
]

exempt-now : (f : Field) (t : State) → IsValidBut (some f) t → IsValidBut none (mark field_now f t)
exempt-now f t h g = elim (Bool-cases (f == g)) [
  | inl e ↦ rw e refl
  | inr e ↦ let k = rw e at (h g) in rw e k
]

-- A field that is set to now has no value of its own.
pub to_now-Good : (fs : List Field) → Keeps none (set_fields_to_now fs)
unfolding set_fields_to_now set_field
to_now-Good [] = record { keep = λ s h. h }
to_now-Good (f ∷ fs) = record {
  keep = λ s h.
      Good-bind (some f) none (set_field f (pos 0))
        (λ _. modify (mark field_now f) >> set_fields_to_now fs) s
        (set_field_by-Good (some f) parse_postponed_number f (pos 0) s (postponed-Good (some f))
          (exempt-store f (pos 0)) h)
        (λ _ t k. (to_now-Good fs).keep (mark field_now f t) (exempt-now f t k));
}
