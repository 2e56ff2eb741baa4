-- ===== src/Threads/Link.antt =====
-- lib/database.cc: linking a message to its parents and its children, and merging threads.
use notmuch.Prelude.{ℕ, Bool, true, false, Option, none, some, List, [], ◌∷◌, ◌++◌, if◌then◌else◌}
use notmuch.Prelude.Bytes.{Bytes, codes, str_equal}
use notmuch.Threads.{
  Xapian, Notmuch, Entry, Outcome, ok, internal_error, bind, thread, reference, replyto, add_term,
  remove_term, sync, get_thread_id, message_create, id_key, find_message, generate_thread_id,
  create_for_message_id, initialize_ghost,
}

abbrev pub is_empty : Bytes → Bool
is_empty [] = true
is_empty (c ∷ s) = false

unfoldable pub metadata_thread_id_key : (Bytes → Bytes) → Bytes → Bytes
unfolding id_key
metadata_thread_id_key sha1 message_id = codes "thread_id_" ++ id_key sha1 message_id

module _ {X : Xapian} where
  open X use {Doc, Db, sha1, postings, get_metadata, set_metadata}

  abbrev pub thread_id_of : Entry X → Notmuch X → Outcome X Bytes
  thread_id_of m n = elim (get_thread_id m) [ none ↦ internal_error | some t ↦ ok t n ]

  -- _resolve_message_id_to_thread_id_old
  unfoldable pub resolve_old : Notmuch X → Bytes → Outcome X Bytes
  unfolding find_message generate_thread_id metadata_thread_id_key
  resolve_old n message_id = bind (find_message n message_id) (λ r n'. elim r [
    | some m ↦ thread_id_of m n'
    | none ↦
        let key = metadata_thread_id_key sha1 message_id in
        let stored = get_metadata n'.db key in
        let fresh = generate_thread_id n' in
        if is_empty stored
        then ok fresh.0 (record fresh.1 { db = set_metadata key fresh.0 fresh.1.db })
        else ok stored n'
  ])

  -- _notmuch_message_sync happens when the ghost could be made. A term that is too long is a
  -- status that COERCE_STATUS does not let through.
  unfoldable pub make_ghost : Entry X → Notmuch X → Outcome X Bytes
  unfolding generate_thread_id initialize_ghost sync
  make_ghost m n =
      let fresh = generate_thread_id n in
      let ghost = initialize_ghost m fresh.0 in
      if ghost.0 then ok fresh.0 (sync ghost.1 fresh.1) else internal_error

  unfoldable pub resolve_new : Notmuch X → Bytes → Outcome X Bytes
  unfolding create_for_message_id make_ghost
  resolve_new n message_id =
      bind (create_for_message_id n message_id)
        (λ r n'. if r.0 then thread_id_of r.1 n' else make_ghost r.1 n')

  unfoldable pub resolve_message_id_to_thread_id : Notmuch X → Bytes → Outcome X Bytes
  unfolding resolve_new resolve_old
  resolve_message_id_to_thread_id n message_id =
      if n.ghosts then resolve_new n message_id else resolve_old n message_id

  -- The body of the loop of _merge_threads: the document with the winner's term for the loser's.
  unfoldable pub rethread : Bytes → Bytes → Entry X → Entry X
  unfolding add_term remove_term
  rethread winner loser m = (add_term thread winner (remove_term thread loser m)).1

  -- A document that is not there is a private status, which COERCE_STATUS does not let through.
  unfoldable pub merge_loop : Bytes → Bytes → List ℕ → Notmuch X → Outcome X Unit
  unfolding message_create rethread sync
  merge_loop winner loser [] n = ok tt n
  merge_loop winner loser (i ∷ ids) n = elim (message_create n i) [
    | none ↦ internal_error
    | some m ↦ merge_loop winner loser ids (sync (rethread winner loser m) n)
  ]

  unfoldable pub merge_threads : Bytes → Bytes → Notmuch X → Outcome X Unit
  unfolding merge_loop
  merge_threads winner loser n = merge_loop winner loser (postings n.db thread loser) n

  -- The thread id so far, if any, meets the one of a relative.
  unfoldable pub join_thread :
      Entry X → Option Bytes → Bytes → Notmuch X → Outcome X (Entry X × Option Bytes)
  unfolding add_term merge_threads
  join_thread m none t n = ok ((add_term thread t m).1, some t) n
  join_thread m (some w) t n =
      if str_equal w t
      then ok (m, some w) n
      else bind (merge_threads w t n) (λ _ n'. ok (m, some w) n')

  -- The loop over the keys of the table of parents.
  unfoldable pub link_parents :
      List Bytes → Entry X → Option Bytes → Notmuch X → Outcome X (Entry X × Option Bytes)
  unfolding resolve_message_id_to_thread_id join_thread add_term
  link_parents [] m thread_id n = ok (m, thread_id) n
  link_parents (p ∷ ps) m thread_id n = bind (resolve_message_id_to_thread_id n p) (λ t n'.
      bind (join_thread (add_term reference p m).1 thread_id t n')
        (λ r n''. link_parents ps r.0 r.1 n''))

  -- The parents' ids are what parse_references leaves in the table; the last one of References,
  -- or else the last one of In-Reply-To, is the message replied to.
  unfoldable pub add_replyto : Option Bytes → Option Bytes → Entry X → Entry X
  unfolding add_term
  add_replyto (some r) irt m = (add_term replyto r m).1
  add_replyto none (some r) m = (add_term replyto r m).1
  add_replyto none none m = m

  unfoldable pub link_message_to_parents :
      List Bytes
      → Option Bytes
      → Option Bytes
      → Entry X
      → Option Bytes
      → Notmuch X
      → Outcome X (Entry X × Option Bytes)
  unfolding link_parents add_replyto
  link_message_to_parents parents last_ref in_reply_to m thread_id n =
      link_parents parents (add_replyto last_ref in_reply_to m) thread_id n

  unfoldable pub link_children :
      Bytes → List ℕ → Entry X → Option Bytes → Notmuch X → Outcome X (Entry X × Option Bytes)
  unfolding message_create remove_term sync join_thread
  link_children message_id [] m thread_id n = ok (m, thread_id) n
  link_children message_id (i ∷ ids) m thread_id n = elim (message_create n i) [
    | none ↦ internal_error
    | some child ↦ bind (thread_id_of child n) (λ t n'.
        let dropped = sync (remove_term reference message_id child) n' in
        let n'' = elim thread_id as (λ _. Notmuch X) [
          | none ↦ n'
          | some w ↦ if str_equal w t then n' else dropped
        ] in
        bind (join_thread m thread_id t n'') (λ r n'''. link_children message_id ids r.0 r.1 n'''))
  ]

  unfoldable pub link_message_to_children :
      Bytes → Entry X → Option Bytes → Notmuch X → Outcome X (Entry X × Option Bytes)
  unfolding link_children
  link_message_to_children message_id m thread_id n =
      link_children message_id (postings n.db reference message_id) m thread_id n

  -- The stored thread id of a message that is only known from references, which is cleared.
  unfoldable pub consume_metadata_thread_id : Bytes → Notmuch X → Option Bytes × Notmuch X
  unfolding metadata_thread_id_key
  consume_metadata_thread_id message_id n =
      let key = metadata_thread_id_key sha1 message_id in
      let stored = get_metadata n.db key in
      if is_empty stored
      then (none, n)
      else (some stored, record n { db = set_metadata key [] n.db })

  -- What is known of the thread before the relatives are looked at, without ghost messages.
  unfoldable pub old_thread : Bytes → Entry X → Notmuch X → Outcome X (Entry X × Option Bytes)
  unfolding consume_metadata_thread_id add_term
  old_thread message_id m n =
      let stored = consume_metadata_thread_id message_id n in
      elim stored.0 [
        | none ↦ ok (m, none) stored.1
        | some t ↦ ok ((add_term thread t m).1, some t) stored.1
      ]

  unfoldable pub initial_thread :
      Bytes → Bool → Entry X → Notmuch X → Outcome X (Entry X × Option Bytes)
  unfolding old_thread
  initial_thread message_id is_ghost m n =
      let ghost = bind (thread_id_of m n) (λ t n'. ok (m, some t) n') in
      if n.ghosts then (if is_ghost then ghost else ok (m, none) n) else old_thread message_id m n

  unfoldable pub last_resort : Entry X → Option Bytes → Notmuch X → Outcome X (Entry X × Bytes)
  unfolding generate_thread_id add_term
  last_resort m (some t) n = ok (m, t) n
  last_resort m none n =
      let fresh = generate_thread_id n in ok ((add_term thread fresh.0 m).1, fresh.0) fresh.1

  -- _notmuch_database_link_message: the message and its thread.
  unfoldable pub link_message :
      Bytes
      → List Bytes
      → Option Bytes
      → Option Bytes
      → Bool
      → Entry X
      → Notmuch X
      → Outcome X (Entry X × Bytes)
  unfolding initial_thread link_message_to_parents link_message_to_children last_resort
  link_message message_id parents last_ref in_reply_to is_ghost m n =
      bind (initial_thread message_id is_ghost m n) (λ r0 n0.
        bind (link_message_to_parents parents last_ref in_reply_to r0.0 r0.1 n0) (λ r1 n1.
          let children = link_message_to_children message_id r1.0 r1.1 n1 in
          bind (if n1.ghosts then ok r1 n1 else children) (λ r2 n2. last_resort r2.0 r2.1 n2)))
