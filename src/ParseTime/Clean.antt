-- ===== src/ParseTime/Clean.antt =====
-- parse-time-string.c: the setters where no number is postponed.
use notmuch.Prelude.{Bool, true, false, not, if◌then◌else◌, ◌≡◌, refl, ap, ◌∙◌}
use notmuch.Prelude.Int.{ℤ, ◌+ℤ◌}
use notmuch.ParseTime.State.{
  Field, field_set, State, Result, ok, err, already_set, Done, is_field_set, mark, store,
  unset_delim, modify, ◌>>=◌, ◌>>◌, parse_postponed_number, set_field, add_to_field, set_field_by,
  add_to_field_by, is_postponed,
}

abbrev pub IsFree : State → Type 0
IsFree s = is_postponed s ≡ false

-- The state behind a setter.
abbrev pub written : Field → ℤ → State → State
written f v s = record (store f v (unset_delim (mark field_set f s))) { last_field = f }

pub postponed-free : (s : State) → IsFree s → parse_postponed_number s ≡ (ok tt, s)
unfolding parse_postponed_number
postponed-free s h = rw h refl

abbrev put : Field → ℤ → State → State
put f v s = record (store f v (unset_delim s)) { last_field = f }

-- What the setters do with the outcome of the postponed number, and of the guard.
abbrev after_postponed : Field → (State → ℤ) → Result Done × State → Result Done × State
after_postponed f v r = elim r.0 as (λ _. Result Done × State) [
  | ok a ↦ (ok tt, put f (v r.1) r.1)
  | err e ↦ (err e, r.1)
]

abbrev guarded : Bool → Field → ℤ → State → Result Done × State
guarded b f v s =
    ((λ _. if not b then (ok tt, s) else (err already_set, s)) >>= λ _.
    modify (mark field_set f) >> (parse_postponed_number >> modify (put f v)))
      s

pub set_field-set :
    (f : Field) (v : ℤ) (s : State)
    → is_field_set s f ≡ true
    → set_field f v s ≡ (err already_set, s)
unfolding set_field set_field_by
set_field-set f v s h = ap (λ b. guarded b f v s) h

pub set_field-free :
    (f : Field) (v : ℤ) (s : State)
    → IsFree s
    → is_field_set s f ≡ false
    → set_field f v s ≡ (ok tt, written f v s)
unfolding set_field set_field_by
set_field-free f v s h e =
    ap (λ b. guarded b f v s) e
    ∙ ap (after_postponed f (λ _. v)) (postponed-free (mark field_set f s) h)

pub add_to_field-free :
    (f : Field) (v : ℤ) (s : State)
    → IsFree s
    → add_to_field f v s ≡ (ok tt, written f (s.tm f +ℤ v) s)
unfolding add_to_field add_to_field_by
add_to_field-free f v s h =
    ap (after_postponed f (λ t. t.tm f +ℤ v)) (postponed-free (mark field_set f s) h)
