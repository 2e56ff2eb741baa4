-- ===== src/MessageId.antt =====
-- lib/database.cc: the message ids of a header's text.
pub mod Progress
pub mod Header
use notmuch.Prelude.{
  ℕ, zero, suc, ◌+◌, Bool, true, false, not, ◌&&◌, ◌||◌, Option, none, some, List, [], ◌∷◌, ◌==◌,
  if◌then◌else◌, length,
}
use notmuch.Prelude.Bytes.{Bytes, first_char, isspace, str_equal}
use notmuch.TagUtil.{tail}

-- The loops of skip_space_and_comments, as one: n is the nesting, 0 outside of comments. A
-- backslash in a comment takes the next byte with it.
unfoldable pub skip_from : ℕ → Bytes → Bytes
skip_from zero [] = []
skip_from zero (c ∷ s) =
    let blank = skip_from zero s in
    let comment = skip_from 1 s in if isspace c then blank else if c == b'(' then comment else c ∷ s
skip_from (suc n) [] = []
skip_from (suc n) (c ∷ []) = []
skip_from (suc n) (c ∷ d ∷ s) =
    let open' = skip_from (suc (suc n)) (d ∷ s) in
    let close = skip_from n (d ∷ s) in
    let escaped = skip_from (suc n) s in
    let other = skip_from (suc n) (d ∷ s) in
    if c == b'(' then open' else if c == b')' then close else if c == b'\\' then escaped else other

unfoldable pub skip_space_and_comments : Bytes → Bytes
unfolding skip_from
skip_space_and_comments s = skip_from 0 s

-- The text from the first '<' on.
unfoldable pub skip_to_angle : Bytes → Bytes
skip_to_angle [] = []
skip_to_angle (c ∷ s) = let rest = skip_to_angle s in if c == b'<' then c ∷ s else rest

-- What stands before the first '>', and the text from there on.
unfoldable pub split_angle : Bytes → Bytes × Bytes
split_angle [] = ([], [])
split_angle (c ∷ s) = let (a, b) = split_angle s in if c == b'>' then ([], c ∷ s) else (c ∷ a, b)

abbrev pub is_blank : ℕ → Bool
is_blank c = c == b' ' || c == b'\t'

-- The collapse of white space. The byte that moves into a blank's place is not looked at.
unfoldable pub collapse : Bytes → Bytes
collapse [] = []
collapse (c ∷ []) = if is_blank c then [] else c ∷ []
collapse (c ∷ d ∷ s) =
    let moved = collapse s in
    let rest = collapse (d ∷ s) in if is_blank c then d ∷ moved else c ∷ rest

-- A message id of one byte in angles is none: `end` has been moved back to its start.
abbrev pub id_of : Bytes × Bytes → Option Bytes
id_of ([], rest) = none
id_of (c ∷ [], []) = some (collapse (c ∷ []))
id_of (c ∷ [], r ∷ rest) = none
id_of (c ∷ d ∷ s, rest) = some (collapse (c ∷ d ∷ s))

-- The id, and the text behind it.
unfoldable pub parse_message_id : Bytes → Option Bytes × Bytes
unfolding skip_space_and_comments skip_to_angle split_angle collapse
parse_message_id message_id =
    let s = skip_to_angle (skip_space_and_comments message_id) in
    let r = split_angle (skip_space_and_comments (tail s)) in
    if first_char s == b'<' then (id_of r, tail r.1) else (none, s)

-- The loop of parse_references: the references, in the order of their insertion.
unfoldable pub references_from : ℕ → Bytes → Bytes → Option (List Bytes)
unfolding parse_message_id
references_from zero message_id refs = none
references_from (suc fuel) message_id [] = some []
references_from (suc fuel) message_id (c ∷ refs) =
    let (ref, next) = parse_message_id (c ∷ refs) in
    let rest = references_from fuel message_id next in
    elim ref [
      | none ↦ rest
      | some r ↦ elim rest [
        | none ↦ none
        | some rs ↦ if str_equal r message_id then some rs else some (r ∷ rs)
      ]
    ]

abbrev pub last_of : List Bytes → Option Bytes
last_of [] = none
last_of (r ∷ []) = some r
last_of (r ∷ s ∷ rs) = last_of (s ∷ rs)

-- The table's keys, and the parent.
unfoldable pub parse_references : Bytes → Bytes → Option (List Bytes × Option Bytes)
unfolding references_from
parse_references message_id refs = elim (references_from (suc (length refs)) message_id refs) [
  | none ↦ none
  | some rs ↦ some (rs, last_of rs)
]
