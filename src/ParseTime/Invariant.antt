-- ===== src/ParseTime/Invariant.antt =====
-- parse-time-string.c: which values the parser gives to the fields.
pub mod Setters
pub mod Numbers
pub mod Tokens
use notmuch.Prelude.{
  ℕ, Option, none, some, ==_iff, ◌<◌, ◌≤◌, Bool, true, false, not, ◌&&◌, ◌||◌, ltb, leb, ◌==◌,
  if◌then◌else◌, ◌≡◌, refl, ap, sym, ◌∙◌, arith, Bool-cases, inl, inr,
}
use notmuch.Prelude.Int.{ℤ, pos, negsuc, ◌+ℤ◌, ◌*ℤ◌, leb_ℤ, ◌==ℤ◌, between_ℤ, rem_ℤ, neg_ℤ}
use notmuch.ParseTime.State.{
  Field, tm_abs_sec, tm_abs_min, tm_abs_hour, tm_abs_mday, tm_abs_mon, tm_abs_year, tm_wday,
  tm_ampm, tm_tz, tm_none, FieldSet, Error, already_set, raise, field_unset, field_set, field_now,
  State, Result, ok, err, Action, Done, is_field_set, mark, store, modify, pure, unset_delim,
  clear_postponed, consume_postponed_number, is_postponed, check, set_field_by, set_field_free,
  set_abs_time_by, set_abs_date_by, set_user_tz_by, set_unless_unset, parse_lone_number,
  parse_postponed_number, set_field, add_to_field, add_to_field_by, set_postponed_number,
  set_postponed_number_by, is_valid_time, is_valid_tz, is_valid_mday, is_valid_mon, is_valid_year,
  unset, ◌>>=◌, ◌>>◌,
}

-- The documented values of a field; a relative field and the year may be any number.
unfoldable pub in_range : Field → ℤ → Bool
in_range f v =
    if f == tm_abs_sec
    then between_ℤ 0 60 v
    else if f == tm_abs_min
    then between_ℤ 0 59 v
    else if f == tm_abs_hour
    then between_ℤ 0 24 v
    else if f == tm_abs_mday
    then between_ℤ 1 31 v
    else if f == tm_abs_mon
    then between_ℤ 1 12 v
    else if f == tm_wday
    then between_ℤ 0 6 v
    else if f == tm_ampm
    then between_ℤ 0 1 v
    else if f == tm_tz
    then leb_ℤ (negsuc 884) v && leb_ℤ v (pos 885)
    else true

abbrev pub is_set : FieldSet → Bool
is_set field_set = true
is_set _ = false

-- The field that is being set, if there is one.
abbrev pub exempt : Option Field → Field → Bool
exempt none g = false
exempt (some f) g = f == g

abbrev pub valid_at : Option Field → (Field → FieldSet) → (Field → ℤ) → Field → Bool
valid_at x set tm g = exempt x g || (not (is_set (set g)) || in_range g (tm g))

-- Every field that the parser has set is in range, but for the one that is being set.
abbrev pub IsValidBut : Option Field → State → Type 0
IsValidBut x s = (g : Field) → valid_at x s.set s.tm g ≡ true

-- The outcome of an action is an error, or a valid state.
abbrev pub Good : {A : Type 0} → Option Field → Result A × State → Type 0
Good x (ok a, s) = IsValidBut x s
Good x (err e, s) = Unit {0}

pub Good-bind :
    {A B : Type 0} (x y : Option Field) (m : Action A) (f : A → Action B) (s : State)
    → Good x (m s)
    → ((a : A) (t : State) → IsValidBut x t → Good y (f a t))
    → Good y ((m >>= f) s)
Good-bind {A} {B} x y m f s h k = go (m s) h
  where
    go :
        (r : Result A × State)
        → Good x r
        → Good y (elim r.0 as (λ _. Result B × State) [ ok a ↦ f a r.1 | err e ↦ (err e, r.1) ])
    go (ok a, t) h = k a t h
    go (err e, t) h = tt

pub mark-valid :
    (f : Field) (b : FieldSet) (s : State) → IsValidBut none s → IsValidBut (some f) (mark b f s)
mark-valid f b s h g = ground (arith, h g)

pub store-valid :
    (f : Field) (v : ℤ) (s : State)
    → in_range f v ≡ true
    → IsValidBut (some f) s
    → IsValidBut none (store f v s)
store-valid f v s r h g = elim (Bool-cases (f == g)) [
  | inl e ↦ rw e (rw (← (==_iff f g).0 e) (rw r (ground arith)))
  | inr e ↦ let k = rw e at (h g) in rw e k
]

put-valid :
    (x : Option Field) (f : Field) (v : ℤ) (s : State)
    → in_range f v ≡ true
    → IsValidBut x s
    → IsValidBut x (store f v (mark field_set f s))
put-valid x f v s r h g = elim (Bool-cases (f == g)) [
  | inl e ↦ rw e (rw (← (==_iff f g).0 e) (rw r (ground arith)))
  | inr e ↦ rw e (h g)
]

pub Good-check :
    {A : Type 0} (x : Option Field) (test : State → Bool) (e : Error) (m : Action A) (s : State)
    → (test s ≡ true → Good x (m s))
    → Good x ((check test e >> m) s)
Good-check {A} x test e m s h = go (test s) h
  where
    go :
        (b : Bool)
        → (b ≡ true → Good x (m s))
        → Good x (((λ _. if b then (ok tt, s) else (err e, s)) >> m) s)
    go true h = h refl
    go false h = tt

-- An action that keeps a state valid.
pub record Keeps {A : Type 0} (x : Option Field) (m : Action A) : Type 0 where
  pub keep : (s : State) → IsValidBut x s → Good x (m s)

pub Keeps-if :
    {A : Type 0} {x : Option Field} {m n : Action A} (b : Bool)
    → (b ≡ true → Keeps x m)
    → (b ≡ false → Keeps x n)
    → Keeps x (if b then m else n)
Keeps-if true h k = h refl
Keeps-if false h k = k refl

pub Keeps-raise : {A : Type 0} {x : Option Field} {e : Error} → Keeps {A = A} x (raise e)
Keeps-raise = record { keep = λ s h. tt }

pub Keeps-pure : {A : Type 0} {x : Option Field} (a : A) → Keeps x (pure a)
Keeps-pure a = record { keep = λ s h. h }

pub Keeps-then :
    {A B : Type 0} {x : Option Field} {m : Action A} {n : Action B}
    → Keeps x m
    → Keeps x n
    → Keeps x (m >> n)
Keeps-then {m = m} {n} h k = record {
  keep = λ s v. Good-bind _ _ m (λ _. n) s (h.keep s v) (λ _ t w. k.keep t w);
}

-- A setter keeps a state valid, where it is given a value in range.
abbrev pub SetsGood : Option Field → (Field → ℤ → Action Done) → Type 0
SetsGood x set = (f : Field) (v : ℤ) → in_range f v ≡ true → Keeps x (set f v)

-- What set_field does behind its guard.
abbrev put_field : Action Done → Field → ℤ → Action Done
put_field parse_postponed f v = do
  modify (mark field_set f)
  parse_postponed
  modify (λ s. record (store f v (unset_delim s)) { last_field = f })

pub set_field_free-Good : (x : Option Field) → SetsGood x set_field_free
unfolding set_field_by
set_field_free-Good x f v r = record {
  keep = λ s h.
      Good-check x (λ t. not (is_field_set t f)) already_set (put_field (pure tt) f v) s
        (λ _. put-valid x f v s r h);
}

-- The field that is set is exempt until its value is in range.
pub set_field_by-Good :
    (x : Option Field) (m : Action Done) (f : Field) (v : ℤ) (s : State)
    → Keeps (some f) m
    → ((t : State) → IsValidBut (some f) t → IsValidBut x (store f v t))
    → IsValidBut none s
    → Good x (set_field_by m f v s)
unfolding set_field_by
set_field_by-Good x m f v s good stored h =
    Good-check x (λ t. not (is_field_set t f)) already_set (put_field m f v) s
      (λ _.
        Good-bind (some f) x m
          (λ _. modify (λ s. record (store f v (unset_delim s)) { last_field = f }))
          (mark field_set f s) (good.keep (mark field_set f s) (mark-valid f field_set s h))
          (λ _. stored))

abbrev pub unset_or_in : Field → ℤ → Bool
unset_or_in f v = v ==ℤ unset || in_range f v

tz_in_range :
    (sign : ℕ) (hour min : ℤ)
    → is_valid_tz hour min ≡ true
    → in_range tm_tz (if sign == b'-' then neg_ℤ (hour *ℤ pos 60 +ℤ min) else hour *ℤ pos 60 +ℤ min)
      ≡ true
unfolding in_range ◌+ℤ◌ ◌*ℤ◌
tz_in_range sign (pos h) (pos m) e = ground arith
tz_in_range sign (pos h) (negsuc m) e = ground arith
tz_in_range sign (negsuc h) m e = ground arith

module _ {x : Option Field} {set : Field → ℤ → Action Done} (good : SetsGood x set) where
  set_unless-Good :
      (f : Field) (v : ℤ) → unset_or_in f v ≡ true → Keeps x (set_unless_unset set f v)
  set_unless-Good f v r =
      Keeps-if (v ==ℤ unset) (λ _. record { keep = λ s h. h }) (λ e. good f v (rw e at r))

  pub set_abs_time-Good :
      (hour min sec : ℤ)
      → unset_or_in tm_abs_hour hour ≡ true
      → unset_or_in tm_abs_min min ≡ true
      → unset_or_in tm_abs_sec sec ≡ true
      → Keeps x (set_abs_time_by set hour min sec)
  unfolding set_abs_time_by
  set_abs_time-Good hour min sec a b c =
      Keeps-then (set_unless-Good tm_abs_hour hour a)
        (Keeps-then (set_unless-Good tm_abs_min min b) (set_unless-Good tm_abs_sec sec c))

  pub set_abs_date-Good :
      (year mon mday : ℤ)
      → unset_or_in tm_abs_year year ≡ true
      → unset_or_in tm_abs_mon mon ≡ true
      → unset_or_in tm_abs_mday mday ≡ true
      → Keeps x (set_abs_date_by set year mon mday)
  unfolding set_abs_date_by
  set_abs_date-Good year mon mday a b c =
      Keeps-then (set_unless-Good tm_abs_year year a)
        (Keeps-then (set_unless-Good tm_abs_mon mon b) (set_unless-Good tm_abs_mday mday c))

  pub set_user_tz-Good : (sign : ℕ) (hour min : ℤ) → Keeps x (set_user_tz_by set sign hour min)
  unfolding set_user_tz_by
  set_user_tz-Good sign hour min =
      Keeps-if (is_valid_tz hour min) (λ e. good tm_tz _ (tz_in_range sign hour min e))
        (λ _. Keeps-raise)
