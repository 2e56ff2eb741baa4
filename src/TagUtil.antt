-- ===== src/TagUtil.antt =====
-- tag-util.c: lists of tag operations, and their parsing from a batch line or a command line.
-- The application to a message is TagUtil/Apply.
pub mod Apply
pub mod OpList
pub mod Lines
pub mod RoundTrip
pub mod Documented
use notmuch.Prelude.{
  ℕ, zero, suc, ◌+◌, ◌*◌, Bool, true, false, not, ◌&&◌, ◌||◌, Option, none, some, List, [], ◌∷◌,
  ◌++◌, ◌==◌, if◌then◌else◌, length,
}
use notmuch.Prelude.Bytes.{Bytes, codes, str_equal, first_char, c_string}
use notmuch.HexEscape.{HexStatus, hex_decode_internal}
use notmuch.HexEscape
use notmuch.StringUtil.{strtok_len, chomp_newline, query_string_from_args}

pub record TagOperation : Type 0 where
  pub tag : Bytes
  pub remove : Bool

-- `ops` holds the first `count` entries of the array, which has room for `size`. After a refused
-- reallocation the array is gone (`lost`).
pub record TagOpList : Type 0 where
  pub ops : List TagOperation
  pub size : ℕ
  pub lost : Bool

abbrev pub count : TagOpList → ℕ
count l = length l.ops

-- The bits of tag_op_flag_t.
pub record TagFlags : Type 0 where
  pub maildir_sync : Bool
  pub remove_all : Bool
  pub pre_optimized : Bool
  pub be_generous : Bool

-- TAG_PARSE_…; `no_fuel` marks a loop that has not ended within the model's fuel.
pub data TagParseStatus : Type 0 where
  success out_of_memory invalid skipped no_fuel : TagParseStatus

unfoldable pub tag_op_list_create : (ℕ → Bool) → Option TagOpList
tag_op_list_create alloc =
    if alloc 1 && alloc 10 then some (record { ops = []; size = 10; lost = false }) else none

-- true is the return value 0. `alloc` is asked for the new number of entries.
unfoldable pub tag_op_list_append : (ℕ → Bool) → TagOpList → Bytes → Bool → Bool × TagOpList
tag_op_list_append alloc list tag remove =
    let full = count list == list.size in
    let size = if full then list.size * 2 else list.size in
    if full && not (alloc size) then (false, record list { size = size; lost = true }) else (
      true,
      record list { ops = list.ops ++ record { tag = tag; remove = remove } ∷ []; size = size },
    )

unfoldable pub tag_op_list_reset : TagOpList → TagOpList
tag_op_list_reset list = record list { ops = [] }

abbrev pub minus : ℕ
minus = b'-'

-- Whether illegal_tag returns a message.
unfoldable pub illegal_tag : Bytes → Bool → Bool
illegal_tag tag remove =
    if first_char tag == 0 && not remove then true else first_char tag == minus && not remove

-- The blanks and tabs at the start of a line.
unfoldable pub skip_blank : Bytes → Bytes
skip_blank [] = []
skip_blank (c ∷ s) = let rest = skip_blank s in if c == b' ' || c == 9 then rest else c ∷ s

-- The outcome of parse_tag_line: its status, `*query_string` where it is set, and the list.
pub record TagLine : Type 0 where
  pub status : TagParseStatus
  pub query : Option Bytes
  pub list : TagOpList

abbrev pub stop : TagParseStatus → TagOpList → TagLine
stop st list = record { status = st; query = none; list = list }

-- The tag that decoding in place leaves: the C string of the decoded token.
abbrev pub token_op : Bytes → Bytes
token_op tok = c_string (hex_decode_internal tok).1

abbrev blank : Bytes
blank = b' ' ∷ []

abbrev dashes : Bytes
dashes = codes "--"

-- A token after its first byte: refused, not decodable, or appended.
unfoldable pub take_tag :
    (ℕ → Bool) → TagFlags → Bytes → Bool → TagOpList → TagParseStatus × TagOpList
take_tag alloc flags tag remove list =
    if not flags.be_generous && illegal_tag tag remove
    then (invalid, list)
    else elim (hex_decode_internal tag).0 [
      | HexStatus.success ↦
          let (done, list') = tag_op_list_append alloc list (token_op tag) remove in
          if done then (success, list') else (out_of_memory, list')
      | _ ↦ (invalid, list)
    ]

abbrev pub tail : Bytes → Bytes
tail [] = []
tail (c ∷ s) = s

-- What the loop does with one token, given how it goes on at a later place.
unfoldable pub step_token :
    (ℕ → Bool) → TagFlags → (Bytes → TagOpList → TagLine) → Bytes → Bytes → TagOpList → TagLine
step_token alloc flags next tok rest list =
    let (st, list') = take_tag alloc flags (tail tok) (first_char tok == minus) list in
    if str_equal tok dashes
    then elim (strtok_len rest blank) [
      | none ↦ stop invalid list
      | some (tok', rest') ↦ record { status = success; query = some (tok' ++ rest'); list = list }
    ]
    else if not (first_char tok == minus) && not (first_char tok == b'+')
    then record { status = success; query = some (tok ++ rest); list = list }
    else if first_char rest == 0
    then stop invalid list
    else elim st [ success ↦ next (tail rest) list' | other ↦ stop other list' ]

-- The loop over the tokens from `tok + tok_len` on. The query is the string from its first token.
unfoldable pub parse_tags : (ℕ → Bool) → TagFlags → ℕ → Bytes → TagOpList → TagLine
parse_tags alloc flags zero s list = stop no_fuel list
parse_tags alloc flags (suc fuel) s list = elim (strtok_len s blank) [
  | none ↦ stop invalid list
  | some (tok, rest) ↦ step_token alloc flags (parse_tags alloc flags fuel) tok rest list
]

unfoldable pub parse_tag_line : (ℕ → Bool) → TagFlags → Bytes → TagOpList → TagLine
parse_tag_line alloc flags line list =
    let line' = chomp_newline line in
    let tok = skip_blank line' in
    if not (alloc (length line' + 1))
    then stop out_of_memory list
    else if first_char tok == 0 || first_char tok == b'#'
    then stop skipped list
    else parse_tags alloc flags (suc (length tok)) tok (tag_op_list_reset list)

-- The loop over the arguments of the command line: the arguments from index i on, and whether
-- no illegal tag was met. What tag_op_list_append returns is not looked at.
unfoldable pub parse_args : (ℕ → Bool) → List Bytes → TagOpList → Bool × List Bytes × TagOpList
unfolding illegal_tag tag_op_list_append
parse_args alloc [] list = (true, [], list)
parse_args alloc (arg ∷ args) list =
    let remove = first_char arg == minus in
    let (done, list') = tag_op_list_append alloc list (tail arg) remove in
    let rest = parse_args alloc args list' in
    if str_equal arg dashes
    then (true, args, list)
    else if not (first_char arg == b'+') && not remove
    then (true, arg ∷ args, list)
    else if illegal_tag (tail arg) remove
    then (false, arg ∷ args, list)
    else rest

unfoldable pub parse_tag_command_line : (ℕ → Bool) → List Bytes → TagOpList → TagLine
unfolding parse_args query_string_from_args
parse_tag_command_line alloc args list =
    let (legal, rest, list') = parse_args alloc args list in
    if not legal then stop invalid list' else elim (query_string_from_args alloc rest) [
      | none ↦ stop out_of_memory list'
      | some q ↦ record { status = success; query = some q; list = list' }
    ]
