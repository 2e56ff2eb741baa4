-- ===== src/TagUtil/Apply.antt =====
-- tag-util.c: makes_changes and tag_op_list_apply, over the messages of Message.
-- notmuch_message_tags_to_maildir_flags is an argument, `to_maildir`.
pub mod Effect
pub mod Outcome
pub mod Total
use mathlib.Core.List.{reverse}
use notmuch.Prelude.{
  Bool, true, false, not, ◌&&◌, ◌||◌, Option, none, some, List, [], ◌∷◌, if◌then◌else◌,
}
use notmuch.Prelude.Bytes.{Bytes, str_equal}
use notmuch.Message.{
  mem_tag, Document, Status, success, Message, tags, freeze, thaw, add_tag, remove_tag,
  remove_all_tags,
}
use notmuch.TagUtil.{TagOperation, TagOpList, TagFlags}

-- The backward scan for the last operation on a tag, given the operations from the last one on:
-- whether that operation removes.
unfoldable pub find_op : Bytes → List TagOperation → Option Bool
find_op tag [] = none
find_op tag (op ∷ ops) =
    let rest = find_op tag ops in if str_equal tag op.tag then some op.remove else rest

-- `last_op == -1` for an existing tag.
unfoldable pub deletes : Bool → List TagOperation → Bytes → Bool
unfolding find_op
deletes remove_all ops tag = elim (find_op tag (reverse ops)) [ none ↦ remove_all | some r ↦ r ]

-- The first loop: is an existing tag deleted?
unfoldable pub any_deleted : Bool → List TagOperation → List Bytes → Bool
unfolding deletes
any_deleted remove_all ops [] = false
any_deleted remove_all ops (t ∷ ts) = deletes remove_all ops t || any_deleted remove_all ops ts

-- The second loop: is a tag added that is not there?
unfoldable pub any_added : List TagOperation → List Bytes → Bool
any_added [] ts = false
any_added (op ∷ ops) ts =
    let rest = any_added ops ts in
    if op.remove then rest else if mem_tag ts op.tag then rest else true

unfoldable pub makes_changes : List Bytes → TagOpList → TagFlags → Bool
unfolding any_deleted any_added
makes_changes ts list flags =
    if any_deleted flags.remove_all list.ops ts then true else any_added list.ops ts

module _ {X : Document} where
  -- Go on where the call before succeeded.
  infixl 5 ◌>>=◌
  abbrev pub ◌>>=◌ : Status × Message X → (Message X → Status × Message X) → Status × Message X
  r >>= f = elim r.0 [ success ↦ f r.1 | other ↦ (other, r.1) ]

  unfoldable pub apply_op : TagOperation → Message X → Status × Message X
  apply_op op m = if op.remove then remove_tag m op.tag else add_tag m op.tag

  unfoldable pub apply_ops : List TagOperation → Message X → Status × Message X
  unfolding apply_op
  apply_ops [] m = (success, m)
  apply_ops (op ∷ ops) m = apply_op op m >>= apply_ops ops

  unfoldable pub remove_all_if : Bool → Message X → Status × Message X
  remove_all_if flag m = if flag then remove_all_tags m else (success, m)

  -- tag_op_list_apply behind its early return.
  unfoldable pub write_ops :
      (Message X → Status × Message X) → TagOpList → TagFlags → Message X → Status × Message X
  unfolding apply_ops remove_all_if
  write_ops to_maildir list flags m = do
    m ← freeze m
    m ← remove_all_if flags.remove_all m
    m ← apply_ops list.ops m
    m ← thaw m
    if flags.maildir_sync then to_maildir m else (success, m)

  unfoldable pub tag_op_list_apply :
      (Message X → Status × Message X) → TagOpList → TagFlags → Message X → Status × Message X
  unfolding makes_changes write_ops
  tag_op_list_apply to_maildir list flags m =
      if not flags.pre_optimized && not (makes_changes (tags m) list flags)
      then (success, m)
      else write_ops to_maildir list flags m
