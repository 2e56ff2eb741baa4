-- ===== src/Maildir/Sync.antt =====
-- lib/message.cc: notmuch_message_maildir_flags_to_tags and notmuch_message_tags_to_maildir_flags.
use notmuch.Prelude.{
  Bool, true, false, not, ◌&&◌, Option, none, some, List, [], ◌∷◌, ◌++◌, ◌==◌, if◌then◌else◌,
}
use notmuch.Prelude.Bytes.{Bytes, str_equal}
use notmuch.Message.{
  Document, Status, success, other_error, Message, tags, add_tag, remove_tag, freeze, thaw, sync,
}
use notmuch.TagUtil.Apply.{◌>>=◌}
use notmuch.Maildir.{
  MaildirFlagTag, flag2tag, wants, is_in_new, split_info, _filename_is_in_maildir,
  _get_maildir_flag_actions, _new_maildir_filename,
}

-- The flags of one name, if it is in a maildir and has any or is in the directory new.
unfoldable pub name_flags : Bytes → Option Bytes
unfolding _filename_is_in_maildir split_info
name_flags filename = elim (_filename_is_in_maildir filename) [
  | none ↦ none
  | some d ↦ elim (split_info filename).1 [
    | some flags ↦ some flags
    | none ↦ if is_in_new filename then some [] else none
  ]
]

-- combined_flags, and seen_maildir_info.
unfoldable pub combine_flags : List Bytes → Bytes × Bool
unfolding name_flags
combine_flags [] = ([], false)
combine_flags (filename ∷ filenames) =
    let (combined, seen) = combine_flags filenames in
    elim (name_flags filename) [ none ↦ (combined, seen) | some flags ↦ (flags ++ combined, true) ]

abbrev is_success : Status → Bool
is_success success = true
is_success _ = false

-- NOTMUCH_STATUS_DUPLICATE_MESSAGE_ID
abbrev is_duplicate : Status → Bool
is_duplicate (other_error n) = n == 6
is_duplicate _ = false

module _ {X : Document} where
  unfoldable pub apply_table : Bytes → List MaildirFlagTag → Message X → Status × Message X
  unfolding add_tag remove_tag
  apply_table flags [] m = (success, m)
  apply_table flags (r ∷ rs) m =
      (if wants flags r then add_tag m r.tag else remove_tag m r.tag) >>= apply_table flags rs

  unfoldable pub notmuch_message_maildir_flags_to_tags : List Bytes → Message X → Status × Message X
  unfolding combine_flags apply_table freeze thaw
  notmuch_message_maildir_flags_to_tags filenames m =
      let (flags, seen) = combine_flags filenames in
      let run = (do m ← freeze m; m ← apply_table flags flag2tag m; thaw m) in
      if seen then run else (success, m)

  -- rename of the file system (true for success), and the names of the message in the database.
  module _ (rename : Bytes → Bytes → Bool)
      (remove_filename add_filename : Bytes → Message X → Status × Message X) where
    -- The body of the loop where the file has got its new name.
    unfoldable pub renamed : Bytes → Bytes → Status × Message X → Status × Message X
    unfolding sync
    renamed filename filename_new (status, m) =
        let r = remove_filename filename m in
        let a = add_filename filename_new r.1 in
        if is_success status && (not (is_success r.0) && not (is_duplicate r.0))
        then r
        else if is_success status && not (is_success a.0)
        then a
        else (status, sync a.1)

    unfoldable pub sync_name : Bytes × Bytes → Bytes → Status × Message X → Status × Message X
    unfolding _filename_is_in_maildir _new_maildir_filename renamed
    sync_name (to_set, to_clear) filename r = elim (_filename_is_in_maildir filename) [
      | none ↦ r
      | some d ↦ elim (_new_maildir_filename filename to_set to_clear) [
        | none ↦ r
        | some filename_new ↦
            if str_equal filename filename_new
            then r
            else if rename filename filename_new
            then renamed filename filename_new r
            else r
      ]
    ]

    unfoldable pub sync_names : Bytes × Bytes → List Bytes → Status × Message X → Status × Message X
    unfolding sync_name
    sync_names actions [] r = r
    sync_names actions (filename ∷ filenames) r =
        sync_names actions filenames (sync_name actions filename r)

    unfoldable pub notmuch_message_tags_to_maildir_flags :
        List Bytes → Message X → Status × Message X
    unfolding sync_names _get_maildir_flag_actions
    notmuch_message_tags_to_maildir_flags filenames m =
        sync_names (_get_maildir_flag_actions (tags m)) filenames (success, m)
