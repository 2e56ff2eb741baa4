-- ===== src/Maildir/Tagged.antt =====
-- lib/message.cc: the tags that notmuch_message_maildir_flags_to_tags leaves.
use notmuch.Prelude.{◌-◌, Bool, true, ◌&&◌, List, [], ◌∷◌, leb, if◌then◌else◌, ◌≡◌, length}
use notmuch.Prelude.Bytes.{Bytes, str_equal}
use notmuch.Message.{
  mem_tag, tag_max, Document, Status, success, read_only_database, unbalanced_freeze_thaw, Message,
  tags, sync_unless_frozen,
}
use notmuch.Message.Stored.{KeepsStored}
use notmuch.Maildir.{MaildirFlagTag, wants}

-- Whether a tag is there at the end, by the rows of the table: it is as the flags want it if a row
-- has it, and as it was before if none has.
abbrev pub says : Bytes → List MaildirFlagTag → Bytes → Bool → Bool
says flags [] u before = before
says flags (r ∷ rs) u before = says flags rs u (if str_equal r.tag u then wants flags r else before)

abbrev short : List MaildirFlagTag → Bool
short [] = true
short (r ∷ rs) = leb (length r.tag) tag_max && short rs

module _ {X : Document} where
  open X use {tag_list}

  -- A call on a frozen message that has made a tag as it is wanted.
  record Made (m : Message X) (t : Bytes) (want : Bool) (r : Status × Message X) : Type 0 where
    done : r.0 ≡ success
    keeps : KeepsStored m r.1
    tagged :
        (u : Bytes) → mem_tag (tags r.1) u ≡ (if str_equal t u then want else mem_tag (tags m) u)

  record Tabled (flags : Bytes) (rs : List MaildirFlagTag) (m : Message X) (r : Status × Message X)
      : Type 0 where
    done : r.0 ≡ success
    keeps : KeepsStored m r.1
    tagged : (u : Bytes) → mem_tag (tags r.1) u ≡ says flags rs u (mem_tag (tags m) u)

  thaw_outcome : Message X → Bool → Bool → Status × Message X
  thaw_outcome m closed frozen =
      if closed
      then (read_only_database, m)
      else if frozen
      then (success, sync_unless_frozen (record m { frozen = m.frozen - 1 }))
      else (unbalanced_freeze_thaw, m)
