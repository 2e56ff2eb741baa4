-- ===== src/Maildir.antt =====
-- lib/message.cc: the flags in the names of maildir files and the tags that go with them. Renaming a
-- file and the names of a message in the database are arguments.
pub mod Flags
pub mod Tags
pub mod Sync
pub mod Tagged
use notmuch.Prelude.{
  ℕ, zero, suc, ◌+◌, Bool, true, false, not, ◌&&◌, ◌||◌, Option, none, some, List, [], ◌∷◌, ◌++◌,
  ltb, ◌==◌, if◌then◌else◌,
}
use notmuch.Prelude.Bytes.{Bytes, codes, str_equal}
use notmuch.Message.{
  mem_tag, Document, Status, success, Message, tags, add_tag, remove_tag, freeze, thaw, sync,
}
use notmuch.TagUtil.Apply.{◌>>=◌}

-- struct maildir_flag_tag
pub record MaildirFlagTag : Type 0 where
  pub flag : ℕ
  pub tag : Bytes
  pub inverse : Bool

abbrev pub flag2tag : List MaildirFlagTag
flag2tag =
    record { flag = b'D'; tag = codes "draft"; inverse = false }
    ∷ record { flag = b'F'; tag = codes "flagged"; inverse = false }
    ∷ record { flag = b'P'; tag = codes "passed"; inverse = false }
    ∷ record { flag = b'R'; tag = codes "replied"; inverse = false }
    ∷ record { flag = b'S'; tag = codes "unread"; inverse = true }
    ∷ []

abbrev pub strchr : Bytes → ℕ → Bool
strchr [] c = false
strchr (x ∷ s) c = x == c || strchr s c

-- What stands before the last slash, backwards, and what stands behind it.
abbrev pub last_slash : Bytes → Bytes → Option (Bytes × Bytes)
last_slash before [] = none
last_slash before (c ∷ s) = elim (last_slash (c ∷ before) s) [
  | some r ↦ some r
  | none ↦ if c == b'/' then some (before, s) else none
]

pub data Directory : Type 0 where
  cur new : Directory

abbrev directory_of : ℕ → ℕ → ℕ → Option Directory
directory_of a b c =
    if a == b'c' && (b == b'u' && c == b'r')
    then some cur
    else if a == b'n' && (b == b'e' && c == b'w')
    then some new
    else none

-- A file in a directory cur or new: what stands before the slash in front of that, backwards, the
-- directory, and the name.
abbrev maildir_of : Bytes × Bytes → Option (Bytes × Directory × Bytes)
maildir_of (c ∷ b ∷ a ∷ slash ∷ before, name) = elim (directory_of a b c) [
  | none ↦ none
  | some d ↦ if slash == b'/' then some (before, d, name) else none
]
maildir_of r = none

unfoldable pub _filename_is_in_maildir : Bytes → Option (Bytes × Directory × Bytes)
_filename_is_in_maildir filename = elim (last_slash [] filename) [
  | none ↦ none
  | some r ↦ maildir_of r
]

abbrev pub is_in_new : Bytes → Bool
unfolding _filename_is_in_maildir
is_in_new filename = elim (_filename_is_in_maildir filename) [
  | none ↦ false
  | some (b, d, n) ↦ elim d [ cur ↦ false | new ↦ true ]
]

abbrev onto : Bytes → Bytes → Bytes
onto [] s = s
onto (c ∷ before) s = onto before (c ∷ s)

unfoldable pub move_to_cur : Bytes → Bytes
unfolding _filename_is_in_maildir
move_to_cur filename = elim (_filename_is_in_maildir filename) [
  | none ↦ filename
  | some (before, d, name) ↦ elim d [ cur ↦ filename | new ↦ onto before (codes "/cur/" ++ name) ]
]

abbrev has_info : Bytes → Bool
has_info (a ∷ b ∷ c ∷ s) = a == b':' && (b == b'2' && c == b',')
has_info s = false

-- The name up to the first ":2,", and the flags behind it.
unfoldable pub split_info : Bytes → Bytes × Option Bytes
split_info [] = ([], none)
split_info (c ∷ s) =
    let (a, flags) = split_info s in
    if has_info (c ∷ s) then ([], some (behind s)) else (c ∷ a, flags)
  where
    behind : Bytes → Bytes
    behind (b ∷ c ∷ s) = s
    behind s = s

-- flag_map
abbrev pub FlagMap : Type 0
FlagMap = ℕ → Bool

abbrev pub put_flag : ℕ → Bool → FlagMap → FlagMap
put_flag flag b map = λ c. if flag == c then b else map c

-- The flags of a name: `none` if they repeat, are out of order or not ASCII.
unfoldable pub read_flags : ℕ → FlagMap → Bytes → Option FlagMap
read_flags last map [] = some map
read_flags last map (flag ∷ flags) =
    let rest = read_flags flag (put_flag flag true map) flags in
    if ltb flag last then none else if ltb 127 flag then none else if map flag then none else rest

-- The loops over the flags to set and to clear, with flags_changed.
unfoldable pub change_flags : Bool → Bytes → FlagMap × Bool → FlagMap × Bool
change_flags b [] r = r
change_flags b (flag ∷ flags) (map, changed) = change_flags b flags (
    if (if b then map flag else not (map flag))
    then (map, changed)
    else (put_flag flag b map, true))

unfoldable pub flags_from : ℕ → ℕ → FlagMap → Bytes
flags_from zero i map = []
flags_from (suc n) i map = let rest = flags_from n (i + 1) map in if map i then i ∷ rest else rest

abbrev pub no_flags : FlagMap
no_flags c = false

abbrev pub old_flags : Option Bytes → Option FlagMap
unfolding read_flags
old_flags none = some no_flags
old_flags (some flags) = read_flags 0 no_flags flags

abbrev is_none : Option Bytes → Bool
is_none none = true
is_none (some s) = false

abbrev pub new_flags : FlagMap → Bytes → Bytes → FlagMap × Bool
unfolding change_flags
new_flags map to_set to_clear = change_flags false to_clear (change_flags true to_set (map, false))

unfoldable pub _new_maildir_filename : Bytes → Bytes → Bytes → Option Bytes
unfolding split_info read_flags change_flags flags_from move_to_cur
_new_maildir_filename filename to_set to_clear =
    let (base, info) = split_info filename in
    elim (old_flags info) [
      | none ↦ none
      | some map ↦
          let (map', changed) = new_flags map to_set to_clear in
          if is_in_new filename && (is_none info && not changed)
          then some filename
          else some (move_to_cur (base ++ (codes ":2," ++ flags_from 128 0 map')))
    ]

-- The flags that a tag of the message sets or clears.
unfoldable pub tag_flags : Bool → Bytes → List MaildirFlagTag → Bytes
tag_flags inverse tag [] = []
tag_flags inverse tag (r ∷ rs) =
    let rest = tag_flags inverse tag rs in
    if str_equal tag r.tag && same inverse r.inverse then r.flag ∷ rest else rest
  where
    same : Bool → Bool → Bool
    same true b = b
    same false b = not b

unfoldable pub all_tag_flags : Bool → List Bytes → Bytes
unfolding tag_flags
all_tag_flags inverse [] = []
all_tag_flags inverse (tag ∷ tags) = tag_flags inverse tag flag2tag ++ all_tag_flags inverse tags

-- The second loop of _get_maildir_flag_actions.
unfoldable pub absent_flags : List MaildirFlagTag → Bytes × Bytes → Bytes × Bytes
absent_flags [] r = r
absent_flags (r ∷ rs) (to_set, to_clear) = absent_flags rs (
    if r.inverse
    then (if strchr to_clear r.flag
        then (to_set, to_clear)
        else (to_set ++ (r.flag ∷ []), to_clear))
    else if strchr to_set r.flag
    then (to_set, to_clear)
    else (to_set, to_clear ++ (r.flag ∷ [])))

-- The flags to set and those to clear.
unfoldable pub _get_maildir_flag_actions : List Bytes → Bytes × Bytes
unfolding all_tag_flags absent_flags
_get_maildir_flag_actions tags =
    absent_flags flag2tag (all_tag_flags false tags, all_tag_flags true tags)

-- Whether the flags say that the message has the row's tag.
abbrev pub wants : Bytes → MaildirFlagTag → Bool
wants flags r = if r.inverse then not (strchr flags r.flag) else strchr flags r.flag
