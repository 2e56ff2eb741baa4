-- ===== src/TagCommand.antt =====
-- notmuch-tag.c: the query that finds the messages to change, and the change of those messages. The
-- search is an argument. `interrupted i` is the flag of the signal handler at its i-th reading.
pub mod Query
pub mod Wanted
pub mod Messages
use notmuch.Prelude.{
  ℕ, zero, suc, ◌+◌, Bool, true, false, not, ◌&&◌, ◌||◌, Option, none, some, List, [], ◌∷◌, ◌++◌,
  ◌==◌, if◌then◌else◌, length,
}
use notmuch.Prelude.Bytes.{Bytes, codes, str_equal}
use notmuch.HexEscape.{OutBuffer}
use notmuch.BooleanTerm.{make_boolean_term}
use notmuch.Message.{
  Document, Status, success, read_only_database, tag_too_long, unbalanced_freeze_thaw, other_error,
  Message,
}
use notmuch.TagUtil
use notmuch.TagUtil.{
  TagOperation, TagOpList, TagFlags, TagParseStatus, TagLine, count, parse_tag_line,
  tag_op_list_create,
}
use notmuch.TagUtil.Apply.{tag_op_list_apply}

-- talloc_strdup and its kin: the string, where its bytes are granted.
abbrev pub new_string : (ℕ → Bool) → Bytes → Option Bytes
new_string alloc s = if alloc (length s + 1) then some s else none

abbrev pub not_text : Bool → Bytes
not_text remove = if remove then [] else codes "not "

-- The loop over the operations, with the text so far.
unfoldable pub add_terms :
    (ℕ → Bool) → List TagOperation → Bytes → OutBuffer → Option Bytes → Option Bytes
add_terms alloc [] join buf none = none
add_terms alloc [] join buf (some q) = new_string alloc (q ++ codes ")")
add_terms alloc (op ∷ ops) join buf none = none
add_terms alloc (op ∷ ops) join buf (some q) =
    let (made, buf') = make_boolean_term alloc (some (codes "tag")) op.tag buf in
    let next =
      add_terms alloc ops (codes " or ") buf'
        (new_string alloc (q ++ (join ++ (not_text op.remove ++ buf'.text)))) in
    if made then next else none

abbrev no_buffer : OutBuffer
no_buffer = record { allocated = false; out_size = 0; text = [] }

abbrev pub start_text : Bytes → Bytes
start_text query =
    if str_equal query (codes "*") then codes "(" else codes "( " ++ (query ++ codes " ) and (")

unfoldable pub _optimize_tag_query : (ℕ → Bool) → Bytes → TagOpList → Option Bytes
unfolding add_terms
_optimize_tag_query alloc query list =
    if count list == 0
    then new_string alloc query
    else add_terms alloc list.ops [] no_buffer (new_string alloc (start_text query))

abbrev pub is_success : Status → Bool
is_success success = true
is_success _ = false

abbrev pub query_flags : TagFlags → TagFlags
query_flags flags = if flags.remove_all then flags else record flags { pre_optimized = true }

abbrev pub query_text : (ℕ → Bool) → Bytes → TagOpList → TagFlags → Option Bytes
query_text alloc query list flags =
    if flags.remove_all then some query else _optimize_tag_query alloc query list

module _ {X : Document} where
  -- The loop over the messages: the status, whether it was interrupted, and the messages.
  unfoldable pub tag_messages :
      (Message X → Status × Message X)
      → TagOpList
      → TagFlags
      → (ℕ → Bool)
      → ℕ
      → List (Message X)
      → Status × Bool × List (Message X)
  tag_messages to_maildir list flags interrupted i [] = (success, interrupted i, [])
  tag_messages to_maildir list flags interrupted i (m ∷ ms) =
      let (st, m') = tag_op_list_apply to_maildir list flags m in
      let (st', stopped, ms') = tag_messages to_maildir list flags interrupted (suc i) ms in
      if interrupted i
      then (success, true, m ∷ ms)
      else if is_success st
      then (st', stopped, m' ∷ ms')
      else (st, interrupted (suc i), m' ∷ ms)

  -- Whether tag_query returns 0, and the messages that were found.
  unfoldable pub tag_query :
      (ℕ → Bool)
      → (Bytes → Status × List (Message X))
      → (Message X → Status × Message X)
      → (ℕ → Bool)
      → Bytes
      → TagOpList
      → TagFlags
      → Bool × List (Message X)
  tag_query alloc search to_maildir interrupted query list flags =
      elim (query_text alloc query list flags) [
        | none ↦ (false, [])
        | some q ↦
            let (st, ms) = search q in
            let (st', stopped, ms') =
              tag_messages to_maildir list (query_flags flags) interrupted 0 ms in
            if is_success st then (is_success st' && not stopped, ms') else (false, [])
      ]

abbrev pub batch_flags : TagFlags
batch_flags = record {
  maildir_sync = false;
  remove_all = false;
  pre_optimized = false;
  be_generous = false;
}

abbrev pub query_of : Option Bytes → Bytes
query_of none = []
query_of (some q) = q

-- What a line of a batch asks for: nothing, with or without a warning, the end, or a call.
pub data Step : Type 0 where
  nothing problem fatal : Step
  call : Bytes → TagOpList → Step

unfoldable pub line_step : TagLine → Step
line_step r = elim r.status [
  | TagParseStatus.success ↦ call (query_of r.query) r.list
  | TagParseStatus.skipped ↦ nothing
  | TagParseStatus.invalid ↦ problem
  | _ ↦ fatal
]

-- The loop of tag_file, whose calls of tag_query are steps on a state `S`: whether it returns 0,
-- and the state. `warn` remembers lines that could not be parsed.
module _ {S : Type 0} (alloc : ℕ → Bool) (run_query : Bytes → TagOpList → S → Bool × S)
    (interrupted : ℕ → Bool) where
  unfoldable pub tag_lines : List Bytes → ℕ → Bool → TagOpList → S → Bool × S
  tag_lines [] i warn list s = (not warn, s)
  tag_lines (line ∷ lines) i warn list s =
      let r = parse_tag_line alloc batch_flags line list in
      let skip = tag_lines lines (suc i) warn r.list s in
      let warned = tag_lines lines (suc i) true r.list s in
      if interrupted i then (not warn, s) else elim (line_step r) [
        | nothing ↦ skip
        | problem ↦ warned
        | fatal ↦ (false, s)
        | call q list' ↦
            let (done, s') = run_query q list' s in
            let next = tag_lines lines (suc i) warn list' s' in if done then next else (false, s')
      ]

  unfoldable pub tag_file : List Bytes → S → Bool × S
  tag_file lines s = elim (tag_op_list_create alloc) [
    | none ↦ (false, s)
    | some list ↦ tag_lines lines 0 false list s
  ]
