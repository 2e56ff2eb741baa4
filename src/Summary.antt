-- ===== src/Summary.antt =====
-- lib/thread.cc: the summary of a thread from its messages. The address parser of GMime and
-- strcasestr are parameters.
pub mod Core
pub mod Bounds
pub mod Dates
pub mod Authors
pub mod Replies
use notmuch.Prelude.{
  ℕ, zero, suc, ◌+◌, Bool, true, false, not, ◌&&◌, ◌||◌, Option, none, some, List, [], ◌∷◌, ◌++◌,
  ltb, ◌==◌, if◌then◌else◌, length, map,
}
use notmuch.Prelude.Bytes.{Bytes, codes, str_equal, first_char, tolower}
use notmuch.Prelude.Int.{ℤ, pos, ltb_ℤ}
use notmuch.Message.{mem_tag}
use notmuch.StringUtil.{span_delim}

-- What the summary reads of a message: `author` is the name, or else the address, of the first
-- address of From.
pub record Mail : Type 0 where
  pub message_id : Bytes
  pub in_reply_to : Bytes
  pub from : Bytes
  pub author : Option Bytes
  pub subject : Option Bytes
  pub tags : List Bytes
  pub date : ℤ

pub data Exclude : Type 0 where
  exclude_flag exclude_true exclude_false exclude_all : Exclude

pub data Sort : Type 0 where
  oldest_first newest_first other_order : Sort

pub record Thread : Type 0 where
  pub subject : Option Bytes
  pub authors_array : List Bytes
  pub matched_authors_array : List Bytes
  pub tags : List Bytes
  pub message_list : List Mail
  pub total_messages : ℕ
  pub matched_messages : ℕ
  pub oldest : ℤ
  pub newest : ℤ

abbrev pub empty_thread : Thread
empty_thread = record {
  subject = none;
  authors_array = [];
  matched_authors_array = [];
  tags = [];
  message_list = [];
  total_messages = 0;
  matched_messages = 0;
  oldest = pos 0;
  newest = pos 0;
}

-- A key that is there stays where it is.
abbrev pub insert_new : List Bytes → Bytes → List Bytes
insert_new xs x = if mem_tag xs x then xs else xs ++ (x ∷ [])

unfoldable pub add_author : Thread → Option Bytes → Thread
add_author t none = t
add_author t (some a) = record t { authors_array = insert_new t.authors_array a }

unfoldable pub add_matched_author : Thread → Option Bytes → Thread
add_matched_author t none = t
add_matched_author t (some a) = record t {
  matched_authors_array = insert_new t.matched_authors_array a;
}

abbrev pub skip_blanks : Bytes → Bytes
skip_blanks [] = []
skip_blanks (c ∷ s) = let rest = skip_blanks s in if c == b' ' then rest else c ∷ s

abbrev pub dotted : ℕ → ℕ
dotted c = if c == b' ' then b'.' else c

-- The name turned round at its comma, when that with dots for blanks stands in the address.
abbrev pub turned : (Bytes → Bytes → Bool) → Bytes → Bytes → Bytes × Bytes → Bytes
turned strcasestr author from (lname, []) = author
turned strcasestr author from (lname, comma ∷ []) = author
turned strcasestr author from (lname, comma ∷ c ∷ s) =
    let clean = skip_blanks (c ∷ s) ++ (b' ' ∷ lname) in
    if strcasestr from (map dotted clean) then clean else author

unfoldable pub cleanup_author : (Bytes → Bytes → Bool) → Option Bytes → Bytes → Option Bytes
unfolding span_delim
cleanup_author strcasestr none from = none
cleanup_author strcasestr (some author) from =
    some (turned strcasestr author from (span_delim (b',' ∷ []) author))

-- The rest of the authors, with what stands before each of them.
unfoldable pub append_others : List Bytes → Bool → Bytes → List Bytes → Bytes
append_others matched first s [] = s
append_others matched first s (a ∷ others) =
    let skipped = append_others matched first s others in
    let next =
      append_others matched false (s ++ ((if first then codes "| " else codes ", ") ++ a)) others in
    if mem_tag matched a then skipped else next

abbrev pub append_matched : Option Bytes → List Bytes → Option Bytes
append_matched s [] = s
append_matched none (a ∷ more) = append_matched (some a) more
append_matched (some s) (a ∷ more) = append_matched (some (s ++ (codes ", " ++ a))) more

-- NULL as the argument of %s, as the C library prints it.
abbrev pub printed : Option Bytes → Bytes
printed none = codes "(null)"
printed (some s) = s

unfoldable pub unmatched : List Bytes → List Bytes → List Bytes
unmatched matched [] = []
unmatched matched (a ∷ more) =
    let rest = unmatched matched more in if mem_tag matched a then rest else a ∷ rest

abbrev pub is_nil : {A : Type 0} → List A → Bool
is_nil [] = true
is_nil (x ∷ xs) = false

-- _resolve_thread_authors_string: thread->authors
unfoldable pub resolve_authors : Thread → Option Bytes
unfolding append_others unmatched
resolve_authors t =
    let matched = append_matched none t.matched_authors_array in
    if is_nil (unmatched t.matched_authors_array t.authors_array)
    then matched
    else some (append_others t.matched_authors_array true (printed matched) t.authors_array)

-- Whether a tag is one of the terms, without their first byte.
abbrev pub excluded_by : List Bytes → Bytes → Bool
excluded_by [] tag = false
excluded_by ([] ∷ terms) tag = excluded_by terms tag
excluded_by ((k ∷ term) ∷ terms) tag = str_equal tag term || excluded_by terms tag

abbrev pub any_excluded : List Bytes → List Bytes → Bool
any_excluded terms [] = false
any_excluded terms (tag ∷ tags) = excluded_by terms tag || any_excluded terms tags

unfoldable pub message_excluded : List Bytes → Exclude → Mail → Bool
message_excluded terms exclude_false m = false
message_excluded terms exclude_flag m = any_excluded terms m.tags
message_excluded terms exclude_true m = any_excluded terms m.tags
message_excluded terms exclude_all m = any_excluded terms m.tags

abbrev pub omits : Exclude → Bool
omits exclude_all = true
omits exclude_flag = false
omits exclude_true = false
omits exclude_false = false

abbrev pub insert_all : List Bytes → List Bytes → List Bytes
insert_all xs [] = xs
insert_all xs (t ∷ ts) = insert_all (insert_new xs t) ts

abbrev pub or_empty : Option Bytes → Bytes
or_empty none = []
or_empty (some s) = s

abbrev pub first_subject : Option Bytes → Option Bytes → Option Bytes
first_subject (some s) subject = some s
first_subject none subject = some (or_empty subject)

-- _thread_add_message for a message that is not left out
unfoldable pub add_message : (Bytes → Bytes → Bool) → Thread → Mail → Thread
unfolding add_author cleanup_author
add_message strcasestr t m =
    let t' = add_author t (cleanup_author strcasestr m.author m.from) in
    record t' {
      message_list = t.message_list ++ (m ∷ []);
      total_messages = t.total_messages + 1;
      subject = first_subject t.subject m.subject;
      tags = insert_all t.tags m.tags;
    }

-- strncasecmp with one of the four prefixes for replies
abbrev pub reply_prefix : Bytes → Bool
reply_prefix (a ∷ b ∷ c ∷ d ∷ s) =
    let p = tolower a ∷ tolower b ∷ c ∷ d ∷ [] in
    str_equal p (codes "re: ")
    || str_equal p (codes "aw: ")
    || str_equal p (codes "vs: ")
    || str_equal p (codes "sv: ")
reply_prefix s = false

abbrev pub drop_four : Bytes → Bytes
drop_four (a ∷ b ∷ c ∷ d ∷ s) = s
drop_four s = s

abbrev pub clean_subject : Bytes → Bytes
clean_subject s = if reply_prefix s then drop_four s else s

unfoldable pub set_subject : Thread → Option Bytes → Thread
set_subject t none = t
set_subject t (some s) =
    if is_nil (clean_subject s) then t else record t { subject = some (clean_subject s) }

abbrev pub is_oldest_first : Sort → Bool
is_oldest_first oldest_first = true
is_oldest_first newest_first = false
is_oldest_first other_order = false

unfoldable pub note_oldest : Sort → Mail → Thread → Thread
unfolding set_subject
note_oldest sort m t =
    let t' = record t { oldest = m.date } in
    if ltb_ℤ m.date t.oldest || t.matched_messages == 0
    then (if is_oldest_first sort then set_subject t' m.subject else t')
    else t

unfoldable pub note_newest : Sort → Mail → Thread → Thread
unfolding set_subject
note_newest sort m t =
    let t' = record t { newest = m.date } in
    if ltb_ℤ t.newest m.date || t.matched_messages == 0
    then (if not (is_oldest_first sort) || is_nil (or_empty t.subject)
        then set_subject t' m.subject
        else t')
    else t

unfoldable pub add_matched_message : (Bytes → Bytes → Bool) → Sort → Bool → Thread → Mail → Thread
unfolding note_oldest note_newest add_matched_author cleanup_author
add_matched_message strcasestr sort excluded t m =
    let t' = note_newest sort m (note_oldest sort m t) in
    let counted =
      if excluded then t' else record t' { matched_messages = t'.matched_messages + 1 } in
    add_matched_author counted (cleanup_author strcasestr m.author m.from)

-- The body of the loop of _notmuch_thread_create. A message that is left out and yet in the match
-- set reads a pointer that was never set, here `none`.
unfoldable pub add_one :
    (Bytes → Bytes → Bool)
    → List Bytes
    → Exclude
    → Sort
    → (Bytes → Bool)
    → Thread
    → Mail
    → Option Thread
unfolding message_excluded add_message add_matched_message
add_one strcasestr terms omit sort matches t m =
    let excluded = message_excluded terms omit m in
    let added = add_message strcasestr t m in
    let matched = add_matched_message strcasestr sort excluded added m in
    if excluded && omits omit
    then (if matches m.message_id then none else some t)
    else if matches m.message_id
    then some matched
    else some added

unfoldable pub add_messages :
    (Bytes → Bytes → Bool)
    → List Bytes
    → Exclude
    → Sort
    → (Bytes → Bool)
    → Thread
    → List Mail
    → Option Thread
unfolding add_one
add_messages strcasestr terms omit sort matches t [] = some t
add_messages strcasestr terms omit sort matches t (m ∷ ms) =
    elim (add_one strcasestr terms omit sort matches t m) [
      | none ↦ none
      | some t' ↦ add_messages strcasestr terms omit sort matches t' ms
    ]
