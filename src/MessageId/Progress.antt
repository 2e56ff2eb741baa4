-- ===== src/MessageId/Progress.antt =====
-- lib/database.cc: parse_references ends, and reads the ids of a header that is written well.
use notmuch.Prelude.{
  ℕ, zero, suc, ◌+◌, ◌<◌, ◌≤◌, Bool, true, false, not, ◌&&◌, ◌||◌, Option, none, some, List, [],
  ◌∷◌, ◌==◌, if◌then◌else◌, ◌≡◌, refl, length, arith, Bool-cases, inl, inr,
}
use notmuch.Prelude.Bytes.{Bytes, first_char, str_equal}
use notmuch.TagUtil.{tail}
use notmuch.MessageId.{
  skip_from, skip_space_and_comments, skip_to_angle, split_angle, parse_message_id, references_from,
  last_of, parse_references,
}

skip_from-shrinks : (n : ℕ) (s : Bytes) → length (skip_from n s) ≤ length s
unfolding skip_from
skip_from-shrinks zero [] = omega arith
skip_from-shrinks zero (c ∷ s) = ground (arith, skip_from-shrinks 0 s, skip_from-shrinks 1 s)
skip_from-shrinks (suc n) [] = omega arith
skip_from-shrinks (suc n) (c ∷ []) = omega arith
skip_from-shrinks (suc n) (c ∷ d ∷ s) = ground (
  arith,
  skip_from-shrinks (suc (suc n)) (d ∷ s),
  skip_from-shrinks n (d ∷ s),
  skip_from-shrinks (suc n) s,
  skip_from-shrinks (suc n) (d ∷ s),
)

to_angle-shrinks : (s : Bytes) → length (skip_to_angle s) ≤ length s
unfolding skip_to_angle
to_angle-shrinks [] = omega arith
to_angle-shrinks (c ∷ s) = ground (arith, to_angle-shrinks s)

split-shrinks : (s : Bytes) → length (split_angle s).1 ≤ length s
unfolding split_angle
split-shrinks [] = omega arith
split-shrinks (c ∷ s) = ground (arith, split-shrinks s)

tail-shrinks : (s : Bytes) → length (tail s) ≤ length s
tail-shrinks [] = omega arith
tail-shrinks (c ∷ s) = omega arith

-- The text from the first angle on is empty if it does not begin with one.
no_angle : (s : Bytes) → first_char (skip_to_angle s) == b'<' ≡ false → length (skip_to_angle s) ≡ 0
unfolding skip_to_angle
no_angle [] h = refl
no_angle (c ∷ s) h = ground (arith, no_angle s)

angle_cons : (s : Bytes) → first_char s == b'<' ≡ true → length (tail s) + 1 ≡ length s
angle_cons [] h = ground arith
angle_cons (c ∷ s) h = omega arith

-- What is behind an id is shorter than the text.
parse_message_id-shrinks : (c : ℕ) (s : Bytes) → length (parse_message_id (c ∷ s)).1 ≤ length s
unfolding parse_message_id skip_space_and_comments
parse_message_id-shrinks c s =
    let t = skip_to_angle (skip_from 0 (c ∷ s)) in
    let a = to_angle-shrinks (skip_from 0 (c ∷ s)) in
    let b = skip_from-shrinks 0 (c ∷ s) in
    elim (Bool-cases (first_char t == b'<')) [
      | inl e ↦
          let k = angle_cons t e in
          let m = skip_from-shrinks 0 (tail t) in
          let o = split-shrinks (skip_from 0 (tail t)) in
          let q = tail-shrinks (split_angle (skip_from 0 (tail t))).1 in rw e (omega arith)
      | inr e ↦ let k = no_angle (skip_from 0 (c ∷ s)) e in rw e (omega arith)
    ]

abbrev pub mem_id : Bytes → List Bytes → Bool
mem_id m [] = false
mem_id m (r ∷ rs) = str_equal r m || mem_id m rs

-- The loop has ended, and no reference is the message itself.
abbrev no_self : Bytes → Option (List Bytes) → Bool
no_self m none = false
no_self m (some rs) = not (mem_id m rs)

abbrev pub keep_id : Bytes → Option Bytes → Option (List Bytes) → Option (List Bytes)
keep_id m ref rest = elim ref [
  | none ↦ rest
  | some r ↦ elim rest [ none ↦ none | some rs ↦ if str_equal r m then some rs else some (r ∷ rs) ]
]

keep-no_self :
    (m : Bytes) (ref : Option Bytes) (rest : Option (List Bytes))
    → no_self m rest ≡ true
    → no_self m (keep_id m ref rest) ≡ true
keep-no_self m none rest h = h
keep-no_self m (some r) none h = h
keep-no_self m (some r) (some rs) h = elim (Bool-cases (str_equal r m)) [
  | inl e ↦ rw e h
  | inr e ↦ rw e (rw e h)
]

references_from-no_self :
    (fuel : ℕ) (m refs : Bytes)
    → length refs < fuel
    → no_self m (references_from fuel m refs) ≡ true
unfolding references_from
references_from-no_self zero m refs l = ground arith
references_from-no_self (suc fuel) m [] l = refl
references_from-no_self (suc fuel) m (c ∷ refs) l =
    let k = parse_message_id-shrinks c refs in
    keep-no_self m (parse_message_id (c ∷ refs)).0 _
      (references_from-no_self fuel m (parse_message_id (c ∷ refs)).1 (omega arith))

abbrev pub other : Bytes → Option Bytes → Bool
other m none = true
other m (some p) = not (str_equal p m)

-- The outcome of parse_references has no reference to the message itself, and its parent is not
-- the message.
abbrev pub no_self_or_parent : Bytes → Option (List Bytes × Option Bytes) → Bool
no_self_or_parent m none = false
no_self_or_parent m (some (rs, p)) = not (mem_id m rs) && other m p

last-other : (m : Bytes) (rs : List Bytes) → not (mem_id m rs) ≡ true → other m (last_of rs) ≡ true
last-other m [] h = refl
last-other m (r ∷ []) h = ground arith
last-other m (r ∷ s ∷ rs) h = last-other m (s ∷ rs) (ground arith)

last-no_self :
    (m : Bytes) (rs : List Bytes)
    → not (mem_id m rs) ≡ true
    → no_self_or_parent m (some (rs, last_of rs)) ≡ true
last-no_self m rs h = rw (h, last-other m rs h) refl

-- parse_references ends on every text, without running out of fuel, and neither the references that
-- it collects nor the parent that it returns is the message itself.
pub parse_references-no_self :
    (m refs : Bytes) → no_self_or_parent m (parse_references m refs) ≡ true
unfolding parse_references
parse_references-no_self m refs =
    go (references_from (suc (length refs)) m refs)
      (references_from-no_self (suc (length refs)) m refs (omega arith))
  where
    go :
        (r : Option (List Bytes))
        → no_self m r ≡ true
        → no_self_or_parent m (elim r as (λ _. Option (List Bytes × Option Bytes)) [
          | none ↦ none
          | some rs ↦ some (rs, last_of rs)
        ])
          ≡ true
    go none h = h
    go (some rs) h = last-no_self m rs h
