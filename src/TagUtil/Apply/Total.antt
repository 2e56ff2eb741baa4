-- ===== src/TagUtil/Apply/Total.antt =====
-- tag-util.c: when tag_op_list_apply succeeds.
use notmuch.Prelude.{
  ◌+◌, ◌<◌, ◌≤◌, length, Bool, true, false, not, ◌&&◌, List, [], ◌∷◌, ◌≡◌, refl, ◌∙◌, arith, inl,
  inr, Bool-cases, All,
}
use notmuch.Message.{Document, Status, success, tag_max, Message, tags, thaw}
use notmuch.Message.Stored.{
  add_tag-success, remove_tag-success, remove_all_tags-frozen, freeze_writable, thaw_success,
}
use notmuch.TagUtil.{TagOperation, TagOpList, TagFlags}
use notmuch.TagUtil.Apply.{
  makes_changes, apply_op, apply_ops, remove_all_if, write_ops, tag_op_list_apply,
}
use notmuch.TagUtil.Apply.Outcome.{
  apply_op-Applied, apply_ops-Applied, remove_all_if-Applied, >>=_success,
}

-- No operation names a tag that is too long.
abbrev pub AllShort : List TagOperation → Type 0
AllShort = All (λ (op : TagOperation). length op.tag ≤ tag_max)

module _ {X : Document} where
  apply_op-success :
      (op : TagOperation) (m : Message X)
      → m.read_only ≡ false
      → length op.tag ≤ tag_max
      → (apply_op op m).0 ≡ success
  unfolding apply_op
  apply_op-success op m r l = elim (Bool-cases op.remove) [
    | inl e ↦ rw e (remove_tag-success m op.tag r l)
    | inr e ↦ rw e (add_tag-success m op.tag r l)
  ]

  apply_ops-success :
      (ops : List TagOperation) (m : Message X)
      → m.read_only ≡ false
      → 0 < m.frozen
      → AllShort ops
      → (apply_ops ops m).0 ≡ success
  unfolding apply_ops
  apply_ops-success [] m r h a = refl
  apply_ops-success (op ∷ ops) m r h a =
      let k = (apply_op-Applied op m h).keeps in
      rw (>>=_success (apply_op op m) (apply_ops ops) (apply_op-success op m r a.0))
        (apply_ops-success ops (apply_op op m).1 (k.read_only ∙ r) (omega (arith, k.frozen)) a.1)

  remove_all_if-success :
      (flag : Bool) (m : Message X)
      → 0 < m.frozen
      → m.read_only ≡ false
      → (remove_all_if flag m).0 ≡ success
  unfolding remove_all_if
  remove_all_if-success true m h w = (remove_all_tags-frozen m h w).1
  remove_all_if-success false m h w = refl

  module _ (to_maildir : Message X → Status × Message X) (list : TagOpList) (flags : TagFlags)
      (m : Message X) where
    write_ops-success :
        flags.maildir_sync ≡ false
        → m.read_only ≡ false
        → AllShort list.ops
        → (write_ops to_maildir list flags m).0 ≡ success
    unfolding write_ops
    write_ops-success s w a =
        let n = record m { frozen = m.frozen + 1 } in
        let r1 = remove_all_if {X = X} flags.remove_all n in
        let k1 = (remove_all_if-Applied flags.remove_all n (omega arith) w).keeps in
        let f1 : 0 < r1.1.frozen = omega (arith, k1.frozen) in
        let r2 = apply_ops list.ops r1.1 in
        let k2 = (apply_ops-Applied list.ops r1.1 f1).keeps in
        rw (freeze_writable m w) (
          rw (>>=_success r1 _ (remove_all_if-success flags.remove_all n (omega arith) w)) (
            rw (>>=_success r2 _ (apply_ops-success list.ops r1.1 (k1.read_only ∙ w) f1 a)) (
              rw
                (>>=_success (thaw r2.1) _
                  (thaw_success r2.1 (omega (arith, k2.frozen)) (k2.read_only ∙ k1.read_only ∙ w)))
                (simp s))))

    -- On a writable database, without maildir synchronisation, operations on tags of legal
    -- length succeed, whatever the state of the message.
    pub tag_op_list_apply-success :
        flags.maildir_sync ≡ false
        → m.read_only ≡ false
        → AllShort list.ops
        → (tag_op_list_apply to_maildir list flags m).0 ≡ success
    unfolding tag_op_list_apply
    tag_op_list_apply-success s w a =
        elim (Bool-cases (not flags.pre_optimized && not (makes_changes (tags m) list flags))) [
          | inl e ↦ rw e refl
          | inr e ↦ rw e (write_ops-success s w a)
        ]
