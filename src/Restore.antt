-- ===== src/Restore.antt =====
-- notmuch-restore.c: the lines of a dump, read back and applied. The input is its text; the
-- database is its documents by message id, and the ids at which finding a message fails.
pub mod Lines
pub mod Run
pub mod Format
use notmuch.Prelude.{
  ℕ, zero, suc, ◌+◌, Bool, true, false, not, ◌&&◌, ◌||◌, Option, none, some, List, [], ◌∷◌, ◌++◌,
  ◌==◌, if◌then◌else◌, length,
}
use notmuch.Prelude.Bytes.{Bytes, codes, contains, str_equal, first_char}
use notmuch.StringUtil.{strtok_len, span_delim, chomp_newline}
use notmuch.BooleanTerm.{TermResult, parsed, einval, enomem, parse_boolean_term}
use notmuch.Message.{
  Document, Status, success, read_only_database, tag_too_long, unbalanced_freeze_thaw, other_error,
  Message,
}
use notmuch.TagUtil
use notmuch.TagUtil.{
  TagOpList, TagFlags, TagParseStatus, TagLine, count, tag_op_list_append, tag_op_list_reset,
  tag_op_list_create, parse_tag_line, tail,
}
use notmuch.TagUtil.Apply.{tag_op_list_apply}
use notmuch.Dump.{DumpFormat, auto, batch_tag, sup, is_sup}

-- The regular expression `^([^ ]+) \(([^)]*)\)$`, from its second group on.
unfoldable pub match_tags : Bytes → Bytes → Option (Bytes × Bytes)
match_tags id s =
    let (tags, rest) = span_delim (codes ")") s in
    if str_equal rest (codes ")") then some (id, tags) else none

unfoldable pub match_open : Bytes → Bytes → Option (Bytes × Bytes)
match_open id [] = none
match_open id (c ∷ s) = if c == b'(' then match_tags id s else none

-- A match of the whole expression: its two groups.
unfoldable pub match_sup : Bytes → Option (Bytes × Bytes)
unfolding match_tags match_open
match_sup line =
    let (id, rest) = span_delim (codes " ") line in
    if length id == 0 || length rest == 0 then none else match_open id (tail rest)

-- What a line asks for: nothing, the end of the loop with a negative or a positive `ret`, or the
-- list's operations on the message of an id.
pub data Action : Type 0 where
  skip failed fatal : Action
  tag_id : Bytes → Action

-- The tags of a sup line, from `tok + tok_len` on; `none` where the fuel is used up.
unfoldable pub sup_tags : (ℕ → Bool) → ℕ → Bytes → TagOpList → Option (Bool × TagOpList)
sup_tags alloc zero s list = none
sup_tags alloc (suc fuel) s list = elim (strtok_len s (codes " ")) [
  | none ↦ some (true, list)
  | some (tok, rest) ↦
      let (done, list') = tag_op_list_append alloc list tok false in
      let next = sup_tags alloc fuel (tail rest) list' in if done then next else some (false, list')
]

abbrev sup_action : Bytes → TagOpList → Option (Bool × TagOpList) → Action × TagOpList
sup_action id list none = (failed, list)
sup_action id list (some (true, list')) = (tag_id id, list')
sup_action id list (some (false, list')) = (failed, list')

unfoldable pub parse_sup_line : (ℕ → Bool) → Bytes → TagOpList → Action × TagOpList
parse_sup_line alloc line list =
    let line' = chomp_newline line in
    let list' = tag_op_list_reset list in
    if first_char line' == 0 then (skip, list') else elim (match_sup line') [
      | none ↦ (skip, list')
      | some (id, tags) ↦ sup_action id list' (sup_tags alloc (suc (length tags)) tags list')
    ]

abbrev pub generous : TagFlags
generous = record {
  maildir_sync = false;
  remove_all = false;
  pre_optimized = false;
  be_generous = true;
}

abbrev pub query_of : Option Bytes → Bytes
query_of none = []
query_of (some q) = q

abbrev pub term_action : TermResult → Action
term_action (parsed prefix term) = if str_equal (codes "id") prefix then tag_id term else skip
term_action einval = skip
term_action enomem = fatal

-- What is done with the outcome of parse_tag_line.
unfoldable pub batch_action : (ℕ → Bool) → TagLine → Action × TagOpList
batch_action alloc r = elim r.status [
  | TagParseStatus.success ↦ (term_action (parse_boolean_term alloc (query_of r.query)), r.list)
  | TagParseStatus.invalid ↦ (skip, r.list)
  | TagParseStatus.skipped ↦ (skip, r.list)
  | _ ↦ (failed, r.list)
]

-- A line of the batch format, up to the call of tag_message.
unfoldable pub parse_batch_line : (ℕ → Bool) → Bytes → TagOpList → Action × TagOpList
parse_batch_line alloc line list = batch_action alloc (parse_tag_line alloc generous line list)

unfoldable pub parse_line : (ℕ → Bool) → DumpFormat → Bytes → TagOpList → Action × TagOpList
parse_line alloc format line list =
    if is_sup format then parse_sup_line alloc line list else parse_batch_line alloc line list

-- Any parenthesis in the first line makes it a sup dump.
unfoldable pub detect_format : DumpFormat → Bytes → DumpFormat
detect_format auto line = if contains line b'(' then sup else batch_tag
detect_format format line = format

-- strspn (line, " \t\n") == line_len
unfoldable pub all_blank : Bytes → Bool
all_blank [] = true
all_blank (c ∷ s) = contains (codes " \t\n") c && all_blank s

-- The lines before the first one that is read: comments, and lines of blanks alone.
abbrev pub is_skipped : Bytes → Bool
is_skipped line = first_char line == b'#' || all_blank line

unfoldable pub skip_lines : List Bytes → List Bytes
skip_lines [] = []
skip_lines (line ∷ lines) =
    let rest = skip_lines lines in if is_skipped line then rest else line ∷ lines

-- The lines that gz_getline reads until the end of the input, each with its newline, where memory
-- is granted and the stream has no error.
unfoldable pub split_lines : Bytes → List Bytes
split_lines [] = []
split_lines (c ∷ s) = elim (split_lines s) [
  | [] ↦ (c ∷ []) ∷ []
  | line ∷ lines ↦ if c == 10 then (c ∷ []) ∷ line ∷ lines else (c ∷ line) ∷ lines
]

-- The integer that a status is.
abbrev pub status_code : Status → ℕ
status_code success = 0
status_code read_only_database = 2
status_code tag_too_long = 8
status_code unbalanced_freeze_thaw = 9
status_code (other_error n) = n

abbrev pub util_eof : ℕ
util_eof = 2

module _ (X : Document) where
  open X use {Doc}

  pub record Database : Type 0 where
    pub docs : Bytes → Option Doc
    pub fails : Bytes → Bool
    pub closed : Bool

module _ {X : Document} where
  open X use {Doc}

  abbrev pub open_message : Database X → Doc → Message X
  open_message db d = record {
    doc = d;
    stored = d;
    modified = false;
    frozen = 0;
    read_only = db.closed;
  }

  abbrev pub update : Database X → Bytes → Doc → Database X
  update db id d = record db { docs = λ j. if str_equal id j then some d else db.docs j }

  -- The return value, and the database.
  unfoldable pub tag_message :
      (Message X → Status × Message X) → TagFlags → Bytes → TagOpList → Database X → ℕ × Database X
  tag_message to_maildir flags id list db = if db.fails id then (1, db) else elim (db.docs id) [
    | none ↦ (0, db)
    | some d ↦
        let (st, m) = tag_op_list_apply to_maildir list flags (open_message db d) in
        if flags.remove_all || not (count list == 0)
        then (status_code st, update db id m.stored)
        else (0, db)
  ]

  -- The second loop: whether the command succeeds, and the database. It ends at the end of the
  -- input or by a `break`; behind it a `ret` of 2 counts as the end of the input.
  unfoldable pub restore_lines :
      (ℕ → Bool)
      → (Message X → Status × Message X)
      → TagFlags
      → DumpFormat
      → List Bytes
      → TagOpList
      → Database X
      → Bool × Database X
  restore_lines alloc to_maildir flags format [] list db = (true, db)
  restore_lines alloc to_maildir flags format (line ∷ lines) list db =
      let (action, list') = parse_line alloc format line list in
      let next = restore_lines alloc to_maildir flags format lines list' in
      elim action [
        | skip ↦ next db
        | failed ↦ (false, db)
        | fatal ↦ (false, db)
        | tag_id id ↦
            let (ret, db') = tag_message to_maildir flags id list' db in
            if ret == 0 then next db' else (ret == util_eof, db')
      ]

  abbrev restore_from :
      (ℕ → Bool)
      → (Message X → Status × Message X)
      → TagFlags
      → DumpFormat
      → List Bytes
      → Database X
      → TagOpList
      → Bool × Database X
  restore_from alloc to_maildir flags format [] db list = (true, db)
  restore_from alloc to_maildir flags format (line ∷ lines) db list =
      restore_lines alloc to_maildir flags (detect_format format line) (line ∷ lines) list db

  -- notmuch restore on an input, with its format option and the flags of its options.
  unfoldable pub restore :
      (ℕ → Bool)
      → (Message X → Status × Message X)
      → TagFlags
      → DumpFormat
      → Bytes
      → Database X
      → Bool × Database X
  restore alloc to_maildir flags format input db = elim (tag_op_list_create alloc) [
    | none ↦ (false, db)
    | some list ↦
        restore_from alloc to_maildir flags format (skip_lines (split_lines input)) db list
  ]
