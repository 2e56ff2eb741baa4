-- ===== src/ParseTime/Rounding/Loop.antt =====
-- parse-time-string.c: the rounding loop as a rule for each absolute field.
use notmuch.Prelude.{
  ◌+◌, Bool, true, false, not, ◌&&◌, ◌||◌, List, [], ◌∷◌, ltb, ◌==◌, if◌then◌else◌, ◌≡◌, refl, ap,
  ◌∙◌, subst, arith, ==_iff, ==_refl, Bool-cases, inl, inr,
}
use notmuch.Prelude.Int.{ℤ}
use notmuch.ParseTime.State.{
  Field, tm_abs_mday, tm_rel_week, abs_fields, abs_to_rel_field, get_field_epoch_value, State,
  is_field_set, is_postponed,
}
use notmuch.ParseTime.Numbers.{Tm, tm_get_field}
use notmuch.ParseTime.Clean.{IsFree, written, set_field-free}
use notmuch.ParseTime.Output.{
  Round, no_round, round_down, round_up, round_up_inclusive, is_no_round, Rounding, round_up_field,
  round_field, fill_field, round_loop,
}
use notmuch.ParseTime.Rounding.{
  Same, Same-refl, Same-round_up, mem, all_above, ascending, filled, loop_now-value, loop_now-flag,
  fill-lem,
}

-- A field is specified, itself or by its relative field.
abbrev pub specified : State → Field → Bool
specified s f = is_field_set s f || is_field_set s (abs_to_rel_field f)

abbrev pub week_stops : State → Field → Bool
week_stops s f = f == tm_abs_mday && is_field_set s tm_rel_week

-- No field from the list's first to `g` is specified: `g` is below the accuracy of the input.
abbrev pub below : State → List Field → Field → Bool
below s [] g = false
below s (f ∷ fs) g = not (specified s f || week_stops s f) && (f == g || below s fs g)

-- The value that a field of the list is due.
abbrev pub due : Tm → State → Bool → Field → ℤ
due now s epoch g =
    if is_field_set s g
    then s.tm g
    else if epoch
    then get_field_epoch_value g
    else tm_get_field now g

abbrev target : Tm → State → List Field → Field → ℤ
target now s fs g = if mem g fs then due now s (below s fs g) g else s.tm g

below-written :
    (f : Field) (v : ℤ) (s : State) (fs : List Field) (g : Field)
    → all_above f fs ≡ true
    → below (written f v s) fs g ≡ below s fs g
below-written f v s [] g h = refl
below-written f v s (k ∷ fs) g h =
    let a : (f == k) ≡ false = ground arith in
    let b : (f == k + 10) ≡ false = ground arith in
    let c : (f == tm_rel_week) ≡ false = ground arith in
    let d = below-written f v s fs g (ground arith) in rw (a, b, c, d) refl

pick_lem :
    (m b : Bool) (x y : ℤ)
    → (if m && not b then x else y) ≡ (if m then (if b then y else (if false then x else x)) else y)
pick_lem true true x y = refl
pick_lem true false x y = refl
pick_lem false b x y = refl

swap_lem : (b : Bool) (x y : ℤ) → (if not b then x else y) ≡ (if b then y else x)
swap_lem true x y = refl
swap_lem false x y = refl

true_lem : (b : Bool) → (b || true) ≡ true
true_lem true = refl
true_lem false = refl

either_lem : (m : Bool) (x : ℤ) → (if m then x else x) ≡ x
either_lem true x = refl
either_lem false x = refl

-- The list's first field got its epoch value: what that means for the fields of the list.
module _ (now : Tm) (f : Field) (fs : List Field) (s : State) (e : specified s f ≡ false)
    (k : week_stops s f ≡ false) where
  went_on_same : target now (written f (get_field_epoch_value f) s) fs f ≡ target now s (f ∷ fs) f
  went_on_same =
      let u : is_field_set s f ≡ false = ground arith in
      let v : is_field_set s (f + 10) ≡ false = ground arith in
      rw (==_refl f) (rw u (rw (v, k) (either_lem (mem f fs) (get_field_epoch_value f))))

  went_on_other :
      (g : Field)
      → all_above f fs ≡ true
      → f == g ≡ false
      → target now (written f (get_field_epoch_value f) s) fs g ≡ target now s (f ∷ fs) g
  went_on_other g a n =
      rw (below-written f (get_field_epoch_value f) s fs g a) (rw n (rw (e, k) refl))

  went_on :
      (g : Field)
      → all_above f fs ≡ true
      → target now (written f (get_field_epoch_value f) s) fs g ≡ target now s (f ∷ fs) g
  went_on g a = elim (Bool-cases (f == g)) [
    | inl n ↦
        subst
          (λ h. target now (written f (get_field_epoch_value f) s) fs h ≡ target now s (f ∷ fs) h)
          ((==_iff f g).0 n) went_on_same
    | inr n ↦ went_on_other g a n
  ]

module _ (now : Tm) (rd : Round) (on : is_no_round rd ≡ false) where
  abbrev begin : State → Rounding
  begin s = record { state = s; round = rd; week_round = no_round }

  abbrev loop : List Field → State → State
  loop fs s = (round_loop now fs (begin s)).state

  step-stop :
      (f : Field) (s : State)
      → specified s f ≡ true
      → round_field f (begin s)
        ≡ record { state = round_up_field rd f s; round = no_round; week_round = no_round }
  unfolding round_field
  step-stop f s h = rw (on, h) refl

  step-week :
      (f : Field) (s : State)
      → specified s f ≡ false
      → week_stops s f ≡ true
      → round_field f (begin s) ≡ record { state = s; round = no_round; week_round = rd }
  unfolding round_field
  step-week f s h k = rw (on, h, k) refl

  step-go :
      (f : Field) (s : State)
      → IsFree s
      → specified s f ≡ false
      → week_stops s f ≡ false
      → round_field f (begin s) ≡ begin (written f (get_field_epoch_value f) s)
  unfolding round_field
  step-go f s h k l =
      let e : is_field_set s f ≡ false = ground arith in
      let m = ap (λ r. begin r.1) (set_field-free f (get_field_epoch_value f) s h e) in
      rw (on, k, l) m

  filled_already :
      (f : Field) (v : ℤ) (s : State) → IsFree s → fill_field now f (written f v s) ≡ written f v s
  filled_already f v s h = fill-lem now f (written f v s) h ∙ rw (==_refl f) refl

  after : List Field → Field → Rounding → State
  after fs f r = (round_loop now fs (record r { state = fill_field now f r.state })).state

  -- Where rounding stops at the first field of the list.
  stopped-value :
      (f : Field) (fs : List Field) (s t : State) (g : Field)
      → Same s t
      → below s (f ∷ fs) g ≡ false
      → ltb g 10 ≡ true
      → filled (tm_get_field now) (f ∷ fs) t g ≡ target now s (f ∷ fs) g
  stopped-value f fs s t g same b l =
      rw (same.value g l)
        (rw (same.flag g l) (rw b (pick_lem (mem g (f ∷ fs)) (is_field_set s g) _ (s.tm g))))

  loop-value :
      (fs : List Field) (s : State) (g : Field)
      → ascending fs ≡ true
      → ltb g 10 ≡ true
      → IsFree s
      → (loop fs s).tm g ≡ target now s fs g
  unfolding round_loop after
  loop-value [] s g a l h = refl
  loop-value (f ∷ fs) s g a l h = elim (Bool-cases (specified s f)) [
    | inl e ↦
        let t = round_up_field rd f s in
        let same = Same-round_up rd f s h in
        ap (λ r. (after fs f r).tm g) (step-stop f s e)
        ∙ loop_now-value now no_round (f ∷ fs) t g same.free
        ∙ stopped-value f fs s t g same (rw e refl) l
    | inr e ↦ elim (Bool-cases (week_stops s f)) [
      | inl k ↦
          ap (λ r. (after fs f r).tm g) (step-week f s e k)
          ∙ loop_now-value now rd (f ∷ fs) s g h
          ∙ stopped-value f fs s s g (Same-refl s h) (rw (e, k) refl) l
      | inr k ↦
          let t = written f (get_field_epoch_value f) s in
          ap (λ r. (after fs f r).tm g) (step-go f s h e k)
          ∙ ap (λ u. (loop fs u).tm g) (filled_already f (get_field_epoch_value f) s h)
          ∙ loop-value fs t g (ground arith) l h
          ∙ went_on now f fs s e k g (ground arith)
    ]
  ]

  written-flag :
      (f : Field) (v : ℤ) (s : State) (fs : List Field) (g : Field)
      → (mem g fs || is_field_set (written f v s) g) ≡ (mem g (f ∷ fs) || is_field_set s g)
  written-flag f v s fs g = elim (Bool-cases (f == g)) [
    | inl e ↦ rw e (true_lem (mem g fs))
    | inr e ↦ rw e refl
  ]

  pub loop-flag :
      (fs : List Field) (s : State) (g : Field)
      → ltb g 10 ≡ true
      → IsFree s
      → is_field_set (loop fs s) g ≡ (mem g fs || is_field_set s g)
  unfolding round_loop after
  loop-flag [] s g l h = refl
  loop-flag (f ∷ fs) s g l h = elim (Bool-cases (specified s f)) [
    | inl e ↦
        let t = round_up_field rd f s in
        let same = Same-round_up rd f s h in
        ap (λ r. is_field_set (after fs f r) g) (step-stop f s e)
        ∙ loop_now-flag now no_round (f ∷ fs) t g same.free
        ∙ ap (λ b. mem g (f ∷ fs) || b) (same.flag g l)
    | inr e ↦ elim (Bool-cases (week_stops s f)) [
      | inl k ↦
          ap (λ r. is_field_set (after fs f r) g) (step-week f s e k)
          ∙ loop_now-flag now rd (f ∷ fs) s g h
      | inr k ↦
          let t = written f (get_field_epoch_value f) s in
          ap (λ r. is_field_set (after fs f r) g) (step-go f s h e k)
          ∙ ap (λ u. is_field_set (loop fs u) g) (filled_already f (get_field_epoch_value f) s h)
          ∙ loop-flag fs t g l h
          ∙ written-flag f (get_field_epoch_value f) s fs g
    ]
  ]

-- Absolute fields are those up to the year.
abbrev pub is_abs : Field → Bool
is_abs g = ltb g 6

pub abs_mem : (g : Field) → is_abs g ≡ true → mem g abs_fields ≡ true
abs_mem g l = ground arith

-- The variables as create_output starts the loop.
abbrev pub rounding : State → Round → Rounding
rounding s rd = record { state = s; round = rd; week_round = no_round }

on_lem :
    (now : Tm) (rd : Round) (on : is_no_round rd ≡ false) (s : State) (g : Field)
    → IsFree s
    → is_abs g ≡ true
    → (loop now rd on abs_fields s).tm g ≡ due now s (below s abs_fields g) g
on_lem now rd on s g h l =
    loop-value now rd on abs_fields s g refl (ground arith) h ∙ rw (abs_mem g l) refl

-- After the rounding loop, with no number postponed, an absolute field that was set keeps its
-- value. An unset one has its epoch value if there is rounding, no absolute field up to it was
-- specified by itself or by its relative field, and none from the seconds up to it is the day of
-- the month with a relative week set; otherwise it has the value of the reference time.
pub round_loop-due :
    (now : Tm) (rd : Round) (s : State) (g : Field)
    → is_postponed s ≡ false
    → is_abs g ≡ true
    → (round_loop now abs_fields (rounding s rd)).state.tm g
      ≡ due now s (not (is_no_round rd) && below s abs_fields g) g
round_loop-due now no_round s g h l =
    loop_now-value now no_round abs_fields s g h
    ∙ rw (abs_mem g l) (swap_lem (is_field_set s g) _ (s.tm g))
round_loop-due now round_down s g h l = on_lem now round_down refl s g h l
round_loop-due now round_up s g h l = on_lem now round_up refl s g h l
round_loop-due now round_up_inclusive s g h l = on_lem now round_up_inclusive refl s g h l
