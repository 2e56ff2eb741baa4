-- ===== src/ParseTime/Rounding/Week.antt =====
-- parse-time-string.c: the fields that create_output sets to now for rounding by weeks.
use notmuch.Prelude.{
  Bool, true, false, ◌&&◌, List, [], ◌∷◌, ◌≡◌, refl, ap, ◌∙◌, arith, Bool-cases, inl, inr,
}
use notmuch.ParseTime.State.{Field, abs_fields, State, is_field_set, is_postponed}
use notmuch.ParseTime.Numbers.{Tm, tm_get_field}
use notmuch.ParseTime.Clean.{IsFree, set_field-set}
use notmuch.ParseTime.Output.{
  Round, no_round, round_down, round_up, round_up_inclusive, is_no_round, round_loop, set_to_now,
  week_fields, set_week_fields,
}
use notmuch.ParseTime.Rounding.{loop_now-flag}
use notmuch.ParseTime.Rounding.Loop.{loop-flag, rounding, is_abs, abs_mem}

all_abs : List Field → Bool
all_abs [] = true
all_abs (f ∷ fs) = is_abs f && all_abs fs

to_now-same :
    (now : Tm) (fs : List Field) (s : State)
    → ((g : Field) → is_abs g ≡ true → is_field_set s g ≡ true)
    → all_abs fs ≡ true
    → set_to_now now fs s ≡ s
unfolding set_to_now all_abs
to_now-same now [] s h a = refl
to_now-same now (f ∷ fs) s h a =
    ap (λ r. set_to_now now fs r.1) (set_field-set f (tm_get_field now f) s (h f (ground arith)))
    ∙ to_now-same now fs s h (ground arith)

loop-all_set :
    (now : Tm) (rd : Round) (s : State) (g : Field)
    → IsFree s
    → is_abs g ≡ true
    → is_field_set (round_loop now abs_fields (rounding s rd)).state g ≡ true
loop-all_set now no_round s g h l =
    loop_now-flag now no_round abs_fields s g h ∙ rw (abs_mem g l) refl
loop-all_set now round_down s g h l =
    loop-flag now round_down refl abs_fields s g (ground arith) h ∙ rw (abs_mem g l) refl
loop-all_set now round_up s g h l =
    loop-flag now round_up refl abs_fields s g (ground arith) h ∙ rw (abs_mem g l) refl
loop-all_set now round_up_inclusive s g h l =
    loop-flag now round_up_inclusive refl abs_fields s g (ground arith) h ∙ rw (abs_mem g l) refl

-- The rounding loop, with no number postponed, leaves every absolute field set, so the calls of
-- set_field behind it, which are to set the fields below the week to the reference time, change
-- nothing.
pub set_week_fields-same :
    (now : Tm) (rd : Round) (s : State)
    → is_postponed s ≡ false
    → set_week_fields now (round_loop now abs_fields (rounding s rd))
      ≡ (round_loop now abs_fields (rounding s rd)).state
unfolding all_abs
set_week_fields-same now rd s h =
    elim (Bool-cases (is_no_round (round_loop now abs_fields (rounding s rd)).week_round)) [
      | inl e ↦ rw e refl
      | inr e ↦ rw e (to_now-same now week_fields _ (λ g. loop-all_set now rd s g h) refl)
    ]
