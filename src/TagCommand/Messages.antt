-- ===== src/TagCommand/Messages.antt =====
-- notmuch-tag.c: what a call of tag_query leaves of the messages that it finds.
use notmuch.Prelude.{
  ℕ, suc, Bool, true, false, List, [], ◌∷◌, ◌++◌, ◌==◌, if◌then◌else◌, ◌≡◌, refl, inl, inr, All,
}
use notmuch.Prelude.Bytes.{Bytes}
use notmuch.Message.{mem_tag, Document, Status, success, Message}
use notmuch.TagUtil.{TagOperation, TagOpList, TagFlags, count}
use notmuch.TagUtil.Apply.{tag_op_list_apply}
use notmuch.TagUtil.Apply.Effect.{effect}
use notmuch.TagUtil.Apply.Outcome.{Settled, IsFresh, tag_op_list_apply-Settled}
use notmuch.TagUtil.Apply.Total.{AllShort, tag_op_list_apply-success}
use notmuch.BooleanTerm.RoundTrip.{Grants}
use notmuch.TagCommand.{tag_messages, tag_query, start_text}
use notmuch.TagCommand.Query.{terms_text, _optimize_tag_query-text}

module _ {X : Document} where
  open X use {tag_list}

  -- The database holds of a message what the operations make of its tags, and it is not frozen.
  pub record IsTagged (ops : List TagOperation) (ra : Bool) (m m' : Message X) : Type 0 where
    pub each :
        (u : Bytes)
        → mem_tag (tag_list m'.stored) u
          ≡ effect ops u (if ra then false else mem_tag (tag_list m.stored) u)
    pub thawed : m'.frozen ≡ 0

  abbrev pub AllTagged : List TagOperation → Bool → List (Message X) → List (Message X) → Type 0
  AllTagged ops ra [] [] = Unit
  AllTagged ops ra (m ∷ ms) (m' ∷ ms') = IsTagged ops ra m m' × AllTagged ops ra ms ms'
  AllTagged ops ra [] (m' ∷ ms') = ⊥
  AllTagged ops ra (m ∷ ms) [] = ⊥

  -- As a search of a writable database finds it.
  pub record IsFound (m : Message X) : Type 0 where
    pub fresh : IsFresh m
    pub writable : m.read_only ≡ false

  Settled-IsTagged :
      (ops : List TagOperation) (ra : Bool) (m : Message X) (r : Status × Message X)
      → Settled ops ra m r
      → r.0 ≡ success
      → IsTagged ops ra m r.1
  Settled-IsTagged ops ra m r (inl (s, t, f)) e = record { each = t; thawed = f }
  Settled-IsTagged ops ra m r (inr (s, t)) e = absurd (s e)

  module _ (to_maildir : Message X → Status × Message X) (list : TagOpList) (flags : TagFlags)
      (interrupted : ℕ → Bool) where
    tag_messages-AllTagged :
        (i : ℕ) (ms : List (Message X))
        → flags.maildir_sync ≡ false
        → AllShort list.ops
        → ((j : ℕ) → interrupted j ≡ false)
        → All IsFound ms
        → let r = tag_messages to_maildir list flags interrupted i ms in
          (r.0 ≡ success) × (r.1 ≡ false) × AllTagged list.ops flags.remove_all ms r.2
    unfolding tag_messages
    tag_messages-AllTagged i [] s a n h = (refl, n i, tt)
    tag_messages-AllTagged i (m ∷ ms) s a n h =
        let ok = tag_op_list_apply-success to_maildir list flags m s h.0.writable a in
        let t =
          Settled-IsTagged list.ops flags.remove_all m (tag_op_list_apply to_maildir list flags m)
            (tag_op_list_apply-Settled to_maildir list flags m s h.0.fresh) ok in
        let (e, f, g) = tag_messages-AllTagged (suc i) ms s a n h.1 in
        rw (n i) (rw ok (e, f, (t, g)))

  -- Where memory is granted, nothing interrupts, the messages found are writable, maildir
  -- synchronisation is off, and there is an operation and no tag is too long: tag_query without
  -- removal of all tags returns 0, and of every message that the search finds with the optimised
  -- query, the database holds the tags that the operations in their order leave.
  pub tag_query-AllTagged :
      (to_maildir : Message X → Status × Message X) (list : TagOpList) (flags : TagFlags)
      (interrupted : ℕ → Bool) (alloc : ℕ → Bool) (search : Bytes → Status × List (Message X))
      (query : Bytes) (ms : List (Message X))
      → Grants alloc
      → (count list == 0) ≡ false
      → flags.remove_all ≡ false
      → flags.maildir_sync ≡ false
      → AllShort list.ops
      → ((j : ℕ) → interrupted j ≡ false)
      → search (start_text query ++ terms_text true list.ops) ≡ (success, ms)
      → All IsFound ms
      → let r = tag_query alloc search to_maildir interrupted query list flags in
        (r.0 ≡ true) × AllTagged list.ops false ms r.1
  unfolding tag_query
  tag_query-AllTagged to_maildir list flags interrupted alloc search query ms g c ra s a n e h =
      let (k, f, t) =
        tag_messages-AllTagged to_maildir list
          (record flags { remove_all = false; pre_optimized = true }) interrupted 0 ms s a n h in
      rw ra
        (rw (tag_query, _optimize_tag_query-text alloc g query list c) (rw e (rw (k, f) (refl, t))))
