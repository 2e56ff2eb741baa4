-- ===== src/MessageId/Header.antt =====
-- lib/database.cc: the ids of a References header are read back.
use notmuch.Prelude.{
  ℕ, zero, suc, ◌<◌, Bool, true, false, not, ◌&&◌, Option, none, some, List, [], ◌∷◌, ◌++◌, ◌==◌,
  if◌then◌else◌, ◌≡◌, refl, ap, ◌∙◌, length, length-append, arith, Bool-cases, inl, inr,
}
use notmuch.Prelude.Bytes.{Bytes, first_char, isspace, str_equal}
use notmuch.TagUtil.{tail}
use notmuch.MessageId.Progress.{keep_id}
use notmuch.MessageId.{
  skip_from, skip_space_and_comments, skip_to_angle, split_angle, is_blank, collapse, id_of,
  parse_message_id, references_from, last_of, parse_references,
}

abbrev pub all_space : Bytes → Bool
all_space [] = true
all_space (c ∷ s) = isspace c && all_space s

abbrev pub plain : Bytes → Bool
plain [] = true
plain (c ∷ s) = not (isspace c) && (not (c == b'>') && plain s)

-- Two bytes at least, none of them white space or '>', and no comment at the start.
abbrev pub is_id : Bytes → Bool
is_id [] = false
is_id (c ∷ []) = false
is_id (c ∷ d ∷ s) = not (c == b'(') && plain (c ∷ d ∷ s)

-- Ids in angles, with white space in front.
abbrev pub header : List (Bytes × Bytes) → Bytes
header [] = []
header ((w, r) ∷ items) = w ++ (b'<' ∷ r ++ (b'>' ∷ header items))

abbrev pub well_written : List (Bytes × Bytes) → Bool
well_written [] = true
well_written ((w, r) ∷ items) = all_space w && (is_id r && well_written items)

-- The ids but for the message's own.
abbrev pub others : Bytes → List (Bytes × Bytes) → List Bytes
others m [] = []
others m ((w, r) ∷ items) = if str_equal r m then others m items else r ∷ others m items

skip-space : (w s : Bytes) → all_space w ≡ true → skip_from 0 (w ++ (b'<' ∷ s)) ≡ b'<' ∷ s
unfolding skip_from
skip-space [] s h = refl
skip-space (c ∷ w) s h =
    let e : isspace c ≡ true = ground arith in
    let k : all_space w ≡ true = ground arith in rw e (skip-space w s k)

split-plain : (r s : Bytes) → plain r ≡ true → split_angle (r ++ (b'>' ∷ s)) ≡ (r, b'>' ∷ s)
unfolding split_angle
split-plain [] s h = refl
split-plain (c ∷ r) s h =
    let e : c == b'>' ≡ false = ground arith in
    let k : plain r ≡ true = ground arith in rw (e, split-plain r s k) refl

collapse-plain : (r : Bytes) → plain r ≡ true → collapse r ≡ r
unfolding collapse
collapse-plain [] h = refl
collapse-plain (c ∷ []) h = let e : is_blank c ≡ false = ground arith in rw e refl
collapse-plain (c ∷ d ∷ r) h =
    let e : is_blank c ≡ false = ground arith in
    let k : plain (d ∷ r) ≡ true = ground arith in rw e (ap (λ x. c ∷ x) (collapse-plain (d ∷ r) k))

is_id-plain : (r : Bytes) → is_id r ≡ true → plain r ≡ true
is_id-plain [] h = refl
is_id-plain (c ∷ []) h = ground arith
is_id-plain (c ∷ d ∷ s) h = ground arith

skip-id : (r s : Bytes) → is_id r ≡ true → skip_from 0 (r ++ s) ≡ r ++ s
unfolding skip_from
skip-id [] s h = ground arith
skip-id (c ∷ []) s h = ground arith
skip-id (c ∷ d ∷ r) s h =
    let e : isspace c ≡ false = ground arith in
    let k : c == b'(' ≡ false = ground arith in rw e (rw k refl)

id_of-id : (r s : Bytes) → is_id r ≡ true → id_of (r, s) ≡ some r
id_of-id [] s h = ground arith
id_of-id (c ∷ []) s h = ground arith
id_of-id (c ∷ d ∷ r) s h = ap some (collapse-plain (c ∷ d ∷ r) (is_id-plain (c ∷ d ∷ r) h))

abbrev parts : Bytes → Option Bytes × Bytes
parts s =
    let r = split_angle (skip_from 0 (tail s)) in
    if first_char s == b'<' then (id_of r, tail r.1) else (none, s)

parse-item :
    (w r s : Bytes)
    → all_space w ≡ true
    → is_id r ≡ true
    → parse_message_id (w ++ (b'<' ∷ r ++ (b'>' ∷ s))) ≡ (some r, s)
unfolding parse_message_id skip_space_and_comments skip_to_angle
parse-item w r s h k =
    ap (λ x. parts (skip_to_angle x)) (skip-space w (r ++ (b'>' ∷ s)) h)
    ∙ ap (λ x. (id_of (split_angle x), tail (split_angle x).1)) (skip-id r (b'>' ∷ s) k)
    ∙ ap (λ x. (id_of x, tail x.1)) (split-plain r s (is_id-plain r k))
    ∙ ap (λ x. (x, s)) (id_of-id r (b'>' ∷ s) k)

-- One step of the loop, at a text that is not empty.
step :
    (fuel : ℕ) (m t : Bytes)
    → 0 < length t
    → references_from (suc fuel) m t
      ≡ keep_id m (parse_message_id t).0 (references_from fuel m (parse_message_id t).1)
unfolding references_from
step fuel m [] l = ground arith
step fuel m (c ∷ t) l = refl

others-lem :
    (fuel : ℕ) (m : Bytes) (items : List (Bytes × Bytes))
    → well_written items ≡ true
    → length (header items) < fuel
    → references_from fuel m (header items) ≡ some (others m items)
unfolding references_from
others-lem zero m items h l = ground arith
others-lem (suc fuel) m [] h l = refl
others-lem (suc fuel) m ((w, r) ∷ items) h l =
    let n = length-append w (b'<' ∷ r ++ (b'>' ∷ header items)) in
    let k = length-append r (b'>' ∷ header items) in
    let a : all_space w ≡ true = ground arith in
    let b : is_id r ≡ true = ground arith in
    step fuel m (header ((w, r) ∷ items)) (omega arith)
    ∙ ap (λ x. keep_id m x.0 (references_from fuel m x.1)) (parse-item w r (header items) a b)
    ∙ ap (keep_id m (some r)) (others-lem fuel m items (ground arith) (omega arith))
    ∙ kept m r (others m items)
  where
    kept :
        (m r : Bytes) (rs : List Bytes)
        → keep_id m (some r) (some rs) ≡ some (if str_equal r m then rs else r ∷ rs)
    kept m r rs = elim (Bool-cases (str_equal r m)) [ inl e ↦ rw e refl | inr e ↦ rw e refl ]

-- A header with ids in angles and white space in front of each, where each id has two bytes or
-- more, none of them white space or '>', and does not begin with '(', gives the ids of the header
-- in their order, without the message's own, and the last of them as the parent.
pub parse_references-header :
    (m : Bytes) (items : List (Bytes × Bytes))
    → well_written items ≡ true
    → parse_references m (header items) ≡ some (others m items, last_of (others m items))
unfolding parse_references
parse_references-header m items h =
    ap
      (λ r. elim r as (λ _. Option (List Bytes × Option Bytes)) [
        | none ↦ none
        | some rs ↦ some (rs, last_of rs)
      ])
      (others-lem (suc (length (header items))) m items h (omega arith))
