-- ===== src/ParseTime/Rounding.antt =====
-- parse-time-string.c: what the rounding loop of create_output leaves in the fields.
pub mod Loop
pub mod Week
use notmuch.Prelude.{
  ℕ, ◌+◌, Bool, true, false, not, ◌&&◌, ◌||◌, List, [], ◌∷◌, ltb, leb, ◌==◌, if◌then◌else◌, ◌≡◌,
  refl, sym, ap, ◌∙◌, subst, arith, ==_iff, ==_refl, Bool-cases, inl, inr,
}
use notmuch.Prelude.Int.{ℤ, pos, negsuc, ◌+ℤ◌}
use notmuch.ParseTime.State.{
  Field, tm_abs_sec, tm_abs_mday, tm_rel_sec, tm_rel_week, abs_fields, abs_to_rel_field,
  get_field_epoch_value, State, is_field_set, set_field, add_to_field,
}
use notmuch.ParseTime.Numbers.{Tm, tm_get_field}
use notmuch.ParseTime.Clean.{IsFree, written, set_field-set, set_field-free, add_to_field-free}
use notmuch.ParseTime.Output.{
  Round, no_round, is_no_round, is_round_up, is_inclusive, Rounding, round_up_field, round_field,
  fill_field, round_step, round_loop,
}

-- Two states with the same absolute fields, and with no number postponed.
record Same (s t : State) : Type 0 where
  free : IsFree t
  value : (h : Field) → ltb h 10 ≡ true → t.tm h ≡ s.tm h
  flag : (h : Field) → ltb h 10 ≡ true → is_field_set t h ≡ is_field_set s h

Same-refl : (s : State) → IsFree s → Same s s
Same-refl s h = record { free = h; value = λ h _. refl; flag = λ h _. refl }

Same-trans : (s t u : State) → Same s t → Same t u → Same s u
Same-trans s t u a b = record {
  free = b.free;
  value = λ h l. b.value h l ∙ a.value h l;
  flag = λ h l. b.flag h l ∙ a.flag h l;
}

Same-written : (f : Field) (v : ℤ) (s : State) → IsFree s → leb 10 f ≡ true → Same s (written f v s)
Same-written f v s h l = record {
  free = h;
  value = λ g k. let e : (f == g) ≡ false = ground arith in rw e refl;
  flag = λ g k. let e : (f == g) ≡ false = ground arith in rw e refl;
}

Same-add :
    (f : Field) (v : ℤ) (s : State) → IsFree s → leb 10 f ≡ true → Same s (add_to_field f v s).1
Same-add f v s h l = rw (add_to_field-free f v s h) (Same-written f _ s h l)

Same-round_up : (rd : Round) (f : Field) (s : State) → IsFree s → Same s (round_up_field rd f s)
unfolding round_up_field
Same-round_up rd f s h = elim (Bool-cases (is_round_up rd && not (f == tm_abs_sec))) [
  | inl a ↦ elim (Bool-cases (is_inclusive rd)) [
    | inl b ↦ rw (a, b) (Same-trans s _ _ first (Same-add tm_rel_sec (pos 1) _ first.free refl))
    | inr b ↦ rw (a, b) first
  ]
  | inr a ↦ rw a (Same-refl s h)
]
  where
    first : Same s (add_to_field (abs_to_rel_field f) (negsuc 0) s).1
    first = Same-add (f + 10) (negsuc 0) s h (ground arith)

abbrev mem : Field → List Field → Bool
mem g [] = false
mem g (f ∷ fs) = f == g || mem g fs

abbrev all_above : Field → List Field → Bool
all_above f [] = true
all_above f (g ∷ fs) = ltb f g && ltb g 10 && all_above f fs

abbrev ascending : List Field → Bool
ascending [] = true
ascending (f ∷ fs) = ltb f 10 && all_above f fs && ascending fs

-- Where a field is unset, it becomes v.
abbrev put_unset : Field → ℤ → State → State
put_unset f v s = if is_field_set s f then s else written f v s

fill-lem :
    (now : Tm) (f : Field) (s : State)
    → IsFree s
    → fill_field now f s ≡ put_unset f (tm_get_field now f) s
unfolding fill_field
fill-lem now f s h = elim (Bool-cases (is_field_set s f)) [
  | inl e ↦ rw e refl
  | inr e ↦ rw e (ap (λ r. r.1) (set_field-free f (tm_get_field now f) s h e))
]

-- put_unset, field by field.
put-value_same :
    (f : Field) (v : ℤ) (s : State)
    → (put_unset f v s).tm f ≡ (if not (is_field_set s f) then v else s.tm f)
put-value_same f v s = elim (Bool-cases (is_field_set s f)) [
  | inl e ↦ rw e refl
  | inr e ↦ rw e (rw (==_refl f) refl)
]

put-value_other :
    (f : Field) (v : ℤ) (s : State) (g : Field) → f == g ≡ false → (put_unset f v s).tm g ≡ s.tm g
put-value_other f v s g h = elim (Bool-cases (is_field_set s f)) [
  | inl e ↦ rw e refl
  | inr e ↦ rw e (rw h refl)
]

-- The values that F gives to the unset fields of a list.
abbrev filled : (Field → ℤ) → List Field → State → Field → ℤ
filled F fs s g = if mem g fs && not (is_field_set s g) then F g else s.tm g

put-value :
    (F : Field → ℤ) (f : Field) (s : State) (g : Field)
    → (put_unset f (F f) s).tm g ≡ (if f == g && not (is_field_set s g) then F g else s.tm g)
put-value F f s g = elim (Bool-cases (f == g)) [
  | inl e ↦ rw e (
      subst (λ h. (put_unset f (F f) s).tm h ≡ (if not (is_field_set s h) then F h else s.tm h))
        ((==_iff f g).0 e) (put-value_same f (F f) s))
  | inr e ↦ rw e (put-value_other f (F f) s g e)
]

put-flag :
    (f : Field) (v : ℤ) (s : State) (g : Field)
    → is_field_set (put_unset f v s) g ≡ (f == g || is_field_set s g)
put-flag f v s g = elim (Bool-cases (f == g)) [
  | inl e ↦ rw e (
      subst (λ h. is_field_set (put_unset f v s) h ≡ true) ((==_iff f g).0 e)
        (elim (Bool-cases (is_field_set s f)) [
          | inl k ↦ rw k k
          | inr k ↦ rw k (rw (==_refl f) refl)
        ]))
  | inr e ↦ elim (Bool-cases (is_field_set s f)) [ inl k ↦ rw (k, e) refl | inr k ↦ rw (k, e) refl ]
]

put-IsFree : (f : Field) (v : ℤ) (s : State) → IsFree s → IsFree (put_unset f v s)
put-IsFree f v s h = elim (Bool-cases (is_field_set s f)) [ inl e ↦ rw e h | inr e ↦ rw e h ]

fill_once_lem :
    (a m b : Bool) (x y : ℤ)
    → (if m && not (a || b) then x else (if a && not b then x else y))
      ≡ (if (a || m) && not b then x else y)
fill_once_lem true true true x y = refl
fill_once_lem true true false x y = refl
fill_once_lem true false true x y = refl
fill_once_lem true false false x y = refl
fill_once_lem false m b x y = refl

-- The loop where rounding has ended.
module _ (now : Tm) (w : Round) where
  abbrev loop_now : List Field → State → State
  loop_now fs s = (round_loop now fs (record { state = s; round = no_round; week_round = w })).state

  value_step :
      (f : Field) (fs : List Field) (s : State) (g : Field)
      → filled (tm_get_field now) fs (put_unset f (tm_get_field now f) s) g
        ≡ filled (tm_get_field now) (f ∷ fs) s g
  value_step f fs s g = rw (put-flag f (tm_get_field now f) s g) (
      rw (put-value (tm_get_field now) f s g)
        (fill_once_lem (f == g) (mem g fs) (is_field_set s g) _ (s.tm g)))

  flag_step :
      (f : Field) (fs : List Field) (s : State) (g : Field)
      → (mem g fs || is_field_set (put_unset f (tm_get_field now f) s) g)
        ≡ (mem g (f ∷ fs) || is_field_set s g)
  flag_step f fs s g = rw (put-flag f (tm_get_field now f) s g) (ground arith)

  loop_now-value :
      (fs : List Field) (s : State) (g : Field)
      → IsFree s
      → (loop_now fs s).tm g ≡ filled (tm_get_field now) fs s g
  unfolding round_loop round_field
  loop_now-value [] s g h = refl
  loop_now-value (f ∷ fs) s g h =
      ap (λ u. (loop_now fs u).tm g) (fill-lem now f s h)
      ∙ loop_now-value fs (put_unset f (tm_get_field now f) s) g (put-IsFree f _ s h)
      ∙ value_step f fs s g

  pub loop_now-flag :
      (fs : List Field) (s : State) (g : Field)
      → IsFree s
      → is_field_set (loop_now fs s) g ≡ (mem g fs || is_field_set s g)
  unfolding round_loop round_field
  loop_now-flag [] s g h = refl
  loop_now-flag (f ∷ fs) s g h =
      ap (λ u. is_field_set (loop_now fs u) g) (fill-lem now f s h)
      ∙ loop_now-flag fs (put_unset f (tm_get_field now f) s) g (put-IsFree f _ s h)
      ∙ flag_step f fs s g
