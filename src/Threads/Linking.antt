-- ===== src/Threads/Linking.antt =====
-- Linking a new message, with ghost messages: what becomes of it, its parents and all threads.
use notmuch.Prelude.{
  ◌+◌, ◌<◌, ◌^◌, Bool, true, false, Option, none, some, List, [], inl, ◌≡◌, ◌∙◌, refl, subst, sym,
  ap, arith, if◌then◌else◌, length, All,
}
use mathlib.Core.Option.{none-ne-some}
use notmuch.Prelude.Bytes.{Bytes}
use notmuch.Threads.{
  Xapian, Notmuch, Entry, Outcome, ok, bind, thread, replyto, generate_thread_id, add_term,
}
use notmuch.Threads.Link.{
  thread_id_of, link_parents, add_replyto, link_message_to_parents, link_message_to_children,
  initial_thread, last_resort, link_message, old_thread,
}
use notmuch.Threads.Entries.{
  SameEntry, SameEntry-refl, SameEntry-trans, add_term-SameEntry, link_parents-SameEntry,
  Returns-Whenever,
}
use notmuch.Threads.State.{Returns, Returns-bind, Returns-map, HasThread, WellFormed, step_kept}
use notmuch.Threads.Ghosts.{thread_id_of_lem}
use notmuch.Threads.Fresh.{
  length-thread_id, generate-get, generate-WellFormed, generate-last_doc_id, generate-ghosts,
  generate-HasId,
}
use notmuch.Threads.Linked.{
  Carries, add_term-Carries, add_term-first, Linked, Member, Linked-trans, Member-All, nothing_done,
}
use notmuch.Threads.Parents.{link_parents-Linked}

module _ {X : Xapian} where
  open X use {get-set_metadata}

  -- A ghost that becomes a message brings its thread, a blank message none.
  abbrev pub Arrives : Bool → Entry X → Option Bytes → Type 0
  Arrives true m o = (t : Bytes) × (o ≡ some t) × HasThread X m.doc t
  Arrives false m o = (o ≡ none) × Carries X m none

  initial_thread_lem :
      (message_id : Bytes) (is_ghost : Bool) (m : Entry X) (o : Option Bytes) (n : Notmuch X)
      → n.ghosts ≡ true
      → Arrives is_ghost m o
      → (initial_thread message_id is_ghost m n ≡ ok (m, o) n) × Carries X m o
  unfolding initial_thread
  initial_thread_lem message_id true m o n g (t, e, h) = (
    ap
          (λ b.
            if b
            then (if true
                then bind (thread_id_of m n) (λ t n'. ok (m, some t) n')
                else ok (m, none) n)
            else old_thread message_id m n)
          g
        ∙ ap (λ r. bind r (λ t n'. ok (m, some t) n')) (thread_id_of_lem n t m h)
        ∙ ap (λ x. ok (m, x) n) (sym e),
    subst (Carries X m) (sym e) h,
  )
  initial_thread_lem message_id false m o n g (e, h) = (
    ap (λ b. if b then ok (m, none) n else old_thread message_id m n) g
        ∙ ap (λ x. ok (m, x) n) (sym e),
    subst (Carries X m) (sym e) h,
  )

  add_replyto-Carries :
      (last_ref in_reply_to : Option Bytes) (m : Entry X) (o : Option Bytes)
      → Carries X m o
      → Carries X (add_replyto last_ref in_reply_to m) o
  unfolding add_replyto
  add_replyto-Carries (some r) i m o c = add_term-Carries X replyto r m o refl c
  add_replyto-Carries none (some r) m o c = add_term-Carries X replyto r m o refl c
  add_replyto-Carries none none m o c = c

  last_resort-none :
      (m : Entry X) (n : Notmuch X)
      → last_resort m none n
        ≡ (let fresh = generate_thread_id n in ok ((add_term thread fresh.0 m).1, fresh.0) fresh.1)
  unfolding last_resort
  last_resort-none m n = refl

  last_resort-some :
      (m : Entry X) (w : Bytes) (n : Notmuch X) → last_resort m (some w) n ≡ ok (m, w) n
  unfolding last_resort
  last_resort-some m w n = refl

  fresh-Linked :
      (m : Entry X) (n : Notmuch X)
      → WellFormed n
      → Carries X m none
      → Linked [] none n
          ((add_term thread (generate_thread_id n).0 m).1, some (generate_thread_id n).0)
          (generate_thread_id n).1
  fresh-Linked m n wf c = record {
    label = λ x. x;
    relabelled = step_kept n (generate_thread_id n).1 (λ i d f. generate-get n i ∙ f);
    form = generate-WellFormed n wf;
    used = omega (arith, generate-last_doc_id n);
    new_ids = λ i key h. inl (generate-HasId n i key h);
    same_ghosts = generate-ghosts n;
    leaves = record {
      grown = omega (arith, generate-last_doc_id n);
      absent = λ i le no. generate-get n i ∙ no;
    };
    carries = add_term-first X (generate_thread_id n).0 m (omega (arith, length-thread_id n)) c;
    winner = λ w e. absurd (none-ne-some w e);
  }

  add_replyto-SameEntry :
      (last_ref in_reply_to : Option Bytes) (m : Entry X)
      → SameEntry m (add_replyto last_ref in_reply_to m)
  unfolding add_replyto
  add_replyto-SameEntry (some r) i m = add_term-SameEntry replyto r m refl
  add_replyto-SameEntry none (some r) m = add_term-SameEntry replyto r m refl
  add_replyto-SameEntry none none m = SameEntry-refl m

  last_resort-Linked :
      (m : Entry X) (o : Option Bytes) (n : Notmuch X)
      → WellFormed n
      → Carries X m o
      → Returns (λ r n'. Linked [] o n (r.0, some r.1) n' × SameEntry m r.0) (last_resort m o n)
  last_resort-Linked m none n wf c =
      subst (Returns _) (sym (last_resort-none m n))
        (fresh-Linked m n wf c, add_term-SameEntry thread (generate_thread_id n).0 m refl)
  last_resort-Linked m (some w) n wf c =
      subst (Returns _) (sym (last_resort-some m w n))
        (nothing_done m (some w) n wf c, SameEntry-refl m)

  abbrev rest_of_children : Bytes → Entry X × Option Bytes → Notmuch X → Outcome X (Entry X × Bytes)
  rest_of_children message_id r1 n1 =
      bind (if n1.ghosts then ok r1 n1 else link_message_to_children message_id r1.0 r1.1 n1)
        (λ r2 n2. last_resort r2.0 r2.1 n2)

  abbrev rest_of_link :
      Bytes
      → List Bytes
      → Option Bytes
      → Option Bytes
      → Entry X
      → Option Bytes
      → Notmuch X
      → Outcome X (Entry X × Bytes)
  rest_of_link message_id parents last_ref in_reply_to m o n =
      bind (link_message_to_parents parents last_ref in_reply_to m o n)
        (rest_of_children message_id)

  children_skipped :
      (message_id : Bytes) (r : Entry X × Option Bytes) (n : Notmuch X)
      → n.ghosts ≡ true
      → rest_of_children message_id r n ≡ last_resort r.0 r.1 n
  children_skipped message_id r n g =
      ap
        (λ b.
          bind (if b then ok r n else link_message_to_children message_id r.0 r.1 n)
            (λ r2 n2. last_resort r2.0 r2.1 n2))
        g

  -- In a database with ghost messages, in which every message is in one thread and no two documents
  -- share an id, linking a message that has no thread yet, or the one of its ghost, succeeds while
  -- identifiers last, and the database stays such. It relabels threads, so that messages that shared one still do; every message whose id is among the parents' is then
  -- in the message's thread, which is the one it had as a ghost, if it was one; there is exactly one
  -- document of each such id, and ids that the database did not have are those of parents. The message keeps
  -- its document and its ids.
  pub link_message-Linked :
      (message_id : Bytes) (parents : List Bytes) (last_ref in_reply_to : Option Bytes)
      (is_ghost : Bool) (m : Entry X) (o : Option Bytes) (n : Notmuch X)
      → WellFormed n
      → n.ghosts ≡ true
      → n.last_doc_id + length parents < 2 ^ 32
      → Arrives is_ghost m o
      → Returns
          (λ r n'.
            Linked parents o n (r.0, some r.1) n'
            × All (Member (some r.1) n') parents
            × SameEntry m r.0)
          (link_message message_id parents last_ref in_reply_to is_ghost m n)
  unfolding link_message link_message_to_parents
  link_message-Linked message_id parents last_ref in_reply_to is_ghost m o n wf g lt a =
      let (e, c) = initial_thread_lem message_id is_ghost m o n g a in
      let m' = add_replyto last_ref in_reply_to m in
      subst (Returns _)
        (sym (
          ap
            (λ r.
              bind r (λ r0 n0. rest_of_link message_id parents last_ref in_reply_to r0.0 r0.1 n0))
            e))
        (Returns-bind _ _ (link_parents parents m' o n) _
          (Returns-Whenever _ _ (link_parents parents m' o n)
            (link_parents-Linked parents m' o n wf g lt
              (add_replyto-Carries last_ref in_reply_to m o c))
            (link_parents-SameEntry parents m' o n))
          (λ r1 n1 b.
            let same : n1.ghosts ≡ true = b.0.0.same_ghosts ∙ g in
            subst (Returns _) (sym (children_skipped message_id r1 n1 same)) (
              Returns-map _ _ (last_resort r1.0 r1.1 n1)
                (λ r2 n2 d. (
                  Linked-trans parents [] parents o n n1 n2 r1 (r2.0, some r2.1) (omega arith)
                      (λ key x. x) (λ key x. elim x [ ]) b.0.0 d.0,
                  Member-All [] r1.1 n1 n2 (r2.0, some r2.1) parents d.0 b.0.1,
                  SameEntry-trans m m' r2.0 (add_replyto-SameEntry last_ref in_reply_to m)
                      (SameEntry-trans m' r1.0 r2.0 b.1 d.1),
                ))
                (last_resort-Linked r1.0 r1.1 n1 b.0.0.form b.0.0.carries))))
