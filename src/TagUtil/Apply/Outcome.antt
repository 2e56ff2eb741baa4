-- ===== src/TagUtil/Apply/Outcome.antt =====
-- tag-util.c: tag_op_list_apply as a whole, on what the database holds afterwards.
use notmuch.Prelude.{
  ◌+◌, ◌<◌, Bool, true, false, not, ◌&&◌, List, [], ◌∷◌, if◌then◌else◌, ◌≡◌, ◌≢◌, ◌⊎◌, refl, sym,
  ◌∙◌, ap, subst, arith, inl, inr, Bool-cases,
}
use notmuch.Prelude.Bytes.{Bytes, str_equal}
use notmuch.Message.{
  mem_tag, Document, Status, success, read_only_database, tag_too_long, unbalanced_freeze_thaw,
  other_error, Message, tags, thaw,
}
use notmuch.Message.Stored.{
  KeepsStored, KeepsStored-refl, KeepsStored-trans, add_tag-KeepsStored, remove_tag-KeepsStored,
  tags-add_tag, tags-remove_tag, remove_all_tags-frozen, thaw_last, freeze_writable, freeze_refused,
}
use notmuch.TagUtil.{TagOperation, TagOpList, TagFlags}
use notmuch.TagUtil.Apply.{
  makes_changes, ◌>>=◌, apply_op, apply_ops, remove_all_if, write_ops, tag_op_list_apply,
}
use notmuch.TagUtil.Apply.Effect.{effect, makes_changes_sound}

module _ {X : Document} where
  open X use {tag_list}

  -- A call on a frozen message: the database stays, and on success each tag goes through `P`.
  pub record Applied (P : Bytes → Bool → Bool) (m : Message X) (r : Status × Message X)
      : Type 0 where
    pub keeps : KeepsStored m r.1
    pub each : r.0 ≡ success → (u : Bytes) → mem_tag (tags r.1) u ≡ P u (mem_tag (tags m) u)

  refused :
      (P : Bytes → Bool → Bool) (m n : Message X) (st : Status)
      → st ≢ success
      → KeepsStored m n
      → Applied P m (st, n)
  refused P m n st e k = record { keeps = k; each = λ s. absurd (e s) }

  Applied-bind :
      (P Q : Bytes → Bool → Bool) (m : Message X) (r : Status × Message X)
      (f : Message X → Status × Message X)
      → Applied P m r
      → ((n : Message X) → KeepsStored m n → Applied Q n (f n))
      → Applied (λ u b. Q u (P u b)) m (r >>= f)
  Applied-bind P Q m (success, n) f a g = record {
    keeps = KeepsStored-trans a.keeps (g n a.keeps).keeps;
    each = λ s u. (g n a.keeps).each s u ∙ ap (Q u) (a.each refl u);
  }
  Applied-bind P Q m (read_only_database, n) f a g =
      refused _ m n read_only_database (λ x. cc x) a.keeps
  Applied-bind P Q m (tag_too_long, n) f a g = refused _ m n tag_too_long (λ x. cc x) a.keeps
  Applied-bind P Q m (unbalanced_freeze_thaw, n) f a g =
      refused _ m n unbalanced_freeze_thaw (λ x. cc x) a.keeps
  Applied-bind P Q m (other_error k, n) f a g = refused _ m n (other_error k) (λ x. cc x) a.keeps

  pub apply_op-Applied :
      (op : TagOperation) (m : Message X)
      → 0 < m.frozen
      → Applied (λ u b. if str_equal op.tag u then not op.remove else b) m (apply_op op m)
  unfolding apply_op
  apply_op-Applied op m h = elim (Bool-cases op.remove) [
    | inl e ↦ rw e (record {
      keeps = remove_tag-KeepsStored m op.tag h;
      each = λ s u. tags-remove_tag m op.tag h u s;
    })
    | inr e ↦ rw e (record {
      keeps = add_tag-KeepsStored m op.tag h;
      each = λ s u. tags-add_tag m op.tag h u s;
    })
  ]

  pub apply_ops-Applied :
      (ops : List TagOperation) (m : Message X)
      → 0 < m.frozen
      → Applied (effect ops) m (apply_ops ops m)
  unfolding apply_ops
  apply_ops-Applied [] m h = record { keeps = KeepsStored-refl m; each = λ s u. refl }
  apply_ops-Applied (op ∷ ops) m h =
      Applied-bind _ (effect ops) m (apply_op op m) (apply_ops ops) (apply_op-Applied op m h)
        (λ n k. apply_ops-Applied ops n (omega (arith, k.frozen)))

  pub remove_all_if-Applied :
      (flag : Bool) (m : Message X)
      → 0 < m.frozen
      → m.read_only ≡ false
      → Applied (λ u b. if flag then false else b) m (remove_all_if flag m)
  unfolding remove_all_if
  remove_all_if-Applied true m h w =
      let (k, s, t) = remove_all_tags-frozen m h w in record { keeps = k; each = λ _. t }
  remove_all_if-Applied false m h w = record { keeps = KeepsStored-refl m; each = λ s u. refl }

  -- The calls between freeze and thaw.
  changes-Applied :
      (ra : Bool) (ops : List TagOperation) (m : Message X)
      → m.read_only ≡ false
      → 0 < m.frozen
      → Applied
          (λ u b. effect ops u (if ra then false else b))
          m
          (remove_all_if ra m >>= apply_ops ops)
  changes-Applied ra ops m w h =
      Applied-bind _ (effect ops) m (remove_all_if ra m) (apply_ops ops)
        (remove_all_if-Applied ra m h w) (λ n k. apply_ops-Applied ops n (omega (arith, k.frozen)))

  >>=_assoc :
      (r : Status × Message X) (f g : Message X → Status × Message X)
      → (r >>= f) >>= g ≡ r >>= (λ m. f m >>= g)
  >>=_assoc (success, m) f g = refl
  >>=_assoc (read_only_database, m) f g = refl
  >>=_assoc (tag_too_long, m) f g = refl
  >>=_assoc (unbalanced_freeze_thaw, m) f g = refl
  >>=_assoc (other_error k, m) f g = refl

  pub >>=_success :
      (r : Status × Message X) (f : Message X → Status × Message X)
      → r.0 ≡ success
      → r >>= f ≡ f r.1
  >>=_success r f e = rw e

  -- The same by cases of the status, for the parts of the proof.
  record Ended (ops : List TagOperation) (remove_all : Bool) (m : Message X)
      (r : Status × Message X) : Type 0 where
    tagged :
        r.0 ≡ success
        → (u : Bytes)
        → mem_tag (tag_list r.1.stored) u
          ≡ effect ops u (if remove_all then false else mem_tag (tag_list m.stored) u)
    thawed : r.0 ≡ success → r.1.frozen ≡ 0
    unchanged : r.0 ≢ success → r.1.stored ≡ m.stored

  -- What a caller finds after tag_op_list_apply: success, and then the database holds, of each
  -- tag, what the operations make of it, and nothing is left frozen; or an error, and then the
  -- database is as it was.
  abbrev pub Settled : List TagOperation → Bool → Message X → Status × Message X → Type 0
  Settled ops remove_all m r =
      ((r.0 ≡ success)
        × ((u : Bytes)
            → mem_tag (tag_list r.1.stored) u
              ≡ effect ops u (if remove_all then false else mem_tag (tag_list m.stored) u))
        × (r.1.frozen ≡ 0))
      ⊎ ((r.0 ≢ success) × (r.1.stored ≡ m.stored))

  Ended-Settled :
      (ops : List TagOperation) (ra : Bool) (m : Message X) (r : Status × Message X)
      → Ended ops ra m r
      → Settled ops ra m r
  Ended-Settled ops ra m (success, n) e = inl (refl, e.tagged refl, e.thawed refl)
  Ended-Settled ops ra m (read_only_database, n) e = inr (λ x. cc x, e.unchanged (λ x. cc x))
  Ended-Settled ops ra m (tag_too_long, n) e = inr (λ x. cc x, e.unchanged (λ x. cc x))
  Ended-Settled ops ra m (unbalanced_freeze_thaw, n) e = inr (λ x. cc x, e.unchanged (λ x. cc x))
  Ended-Settled ops ra m (other_error k, n) e = inr (λ x. cc x, e.unchanged (λ x. cc x))

  -- A message as the library hands it out: not frozen, and as the database holds it.
  pub record IsFresh (m : Message X) : Type 0 where
    pub clean : m.doc ≡ m.stored
    pub unfrozen : m.frozen ≡ 0

  thaw-Ended :
      (ops : List TagOperation) (ra : Bool) (m n : Message X) (r : Status × Message X)
      → IsFresh m
      → n.stored ≡ m.stored
      → n.doc ≡ m.doc
      → n.frozen ≡ 1
      → n.read_only ≡ false
      → Applied (λ u b. effect ops u (if ra then false else b)) n r
      → Ended ops ra m (r >>= (λ o. thaw o >>= (λ o. (success, o))))
  thaw-Ended ops ra m n (success, o) h es ed ef er a =
      let (t, f, _, st) =
        thaw_last o (a.keeps.frozen ∙ ef) (a.keeps.read_only ∙ er)
          (a.keeps.synced (λ _. ed ∙ h.clean ∙ sym es)) in
      rw (>>=_success (thaw o) (λ o. (success, o)) t) (record {
        tagged = λ _ u.
            ap (λ d. mem_tag (tag_list d) u) st
            ∙ a.each refl u
            ∙ ap (λ d. effect ops u (if ra then false else mem_tag (tag_list d) u)) (ed ∙ h.clean);
        thawed = λ _. f;
        unchanged = λ e. absurd (e refl);
      })
  thaw-Ended ops ra m n (read_only_database, o) h es ed ef er a = record {
    tagged = λ e. cc e;
    thawed = λ e. cc e;
    unchanged = λ _. a.keeps.stored ∙ es;
  }
  thaw-Ended ops ra m n (tag_too_long, o) h es ed ef er a = record {
    tagged = λ e. cc e;
    thawed = λ e. cc e;
    unchanged = λ _. a.keeps.stored ∙ es;
  }
  thaw-Ended ops ra m n (unbalanced_freeze_thaw, o) h es ed ef er a = record {
    tagged = λ e. cc e;
    thawed = λ e. cc e;
    unchanged = λ _. a.keeps.stored ∙ es;
  }
  thaw-Ended ops ra m n (other_error k, o) h es ed ef er a = record {
    tagged = λ e. cc e;
    thawed = λ e. cc e;
    unchanged = λ _. a.keeps.stored ∙ es;
  }

  module _ (to_maildir : Message X → Status × Message X) (list : TagOpList) (flags : TagFlags)
      (m : Message X) where
    write_ops-Ended :
        flags.maildir_sync ≡ false
        → IsFresh m
        → Ended list.ops flags.remove_all m (write_ops to_maildir list flags m)
    unfolding write_ops
    write_ops-Ended s h = elim (Bool-cases m.read_only) [
      | inl e ↦
          rw (freeze_refused m e)
            (record { tagged = λ x. cc x; thawed = λ x. cc x; unchanged = λ _. refl })
      | inr e ↦
          let n = record m { frozen = m.frozen + 1 } in
          rw (freeze_writable m e) (
            simp s (
              subst (Ended list.ops flags.remove_all m)
                (>>=_assoc (remove_all_if flags.remove_all n) (apply_ops list.ops)
                  (λ o. thaw o >>= (λ o. (success, o))))
                (thaw-Ended list.ops flags.remove_all m n _ h refl refl (omega (arith, h.unfrozen))
                  e (changes-Applied flags.remove_all list.ops n e (omega arith)))))
    ]

    skip-Ended :
        IsFresh m
        → makes_changes (tags m) list flags ≡ false
        → Ended list.ops flags.remove_all m (success, m)
    skip-Ended h e = record {
      tagged = λ _ u.
          ap (λ d. mem_tag (tag_list d) u) (sym h.clean)
          ∙ sym (makes_changes_sound (tags m) list flags u e)
          ∙ ap (λ d. effect list.ops u (if flags.remove_all then false else mem_tag (tag_list d) u))
              h.clean;
      thawed = λ _. h.unfrozen;
      unchanged = λ _. refl;
    }

    -- On a message that is not frozen and is as the database holds it, and without maildir
    -- synchronisation: if tag_op_list_apply succeeds, whether or not it was allowed to skip the
    -- database, each tag is there afterwards exactly if the operations in their order, after the
    -- removal of all tags where the flags ask for it, leave it there. If it fails, the tags in
    -- the database are those from before, also when some operations had succeeded.
    pub tag_op_list_apply-Settled :
        flags.maildir_sync ≡ false
        → IsFresh m
        → Settled list.ops flags.remove_all m (tag_op_list_apply to_maildir list flags m)
    unfolding tag_op_list_apply
    tag_op_list_apply-Settled s h =
        Ended-Settled list.ops flags.remove_all m (tag_op_list_apply to_maildir list flags m)
          (elim (Bool-cases (not flags.pre_optimized && not (makes_changes (tags m) list flags))) [
            | inl e ↦ rw e (skip-Ended h (ground arith))
            | inr e ↦ rw e (write_ops-Ended s h)
          ])
