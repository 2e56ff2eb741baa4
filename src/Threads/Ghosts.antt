-- ===== src/Threads/Ghosts.antt =====
-- Resolving a message id to a thread: the document of the id, or a new ghost message for it.
use notmuch.Prelude.{
  ℕ, ◌+◌, ◌<◌, ◌≤◌, ◌^◌, Bool, none, some, ◌≡◌, ◌≢◌, ◌∙◌, inl, inr, refl, subst, sym, ap, arith,
  if◌then◌else◌, Option-cases, ◌⊎◌, true,
}
use notmuch.Prelude.Bytes.{Bytes, str_equal_iff}
use notmuch.Message.{mem_tag}
use notmuch.Threads.{
  Xapian, Notmuch, Entry, Outcome, ok, internal_error, thread, id_term, first_of, sync,
  message_create, id_key, find_message, create_for_message_id,
}
use notmuch.Threads.Link.{thread_id_of, make_ghost, resolve_new}
use notmuch.Threads.State.{
  Leaves, Leaves-refl, Returns, HasThread, InThread, HasId, WellFormed, Step, step_refl, step_kept,
  first_of_only, first_of-mem, first_of-none, WellFormed-le,
}
use notmuch.Threads.Written.{
  sync-ids, stamped-HasId, stamped-InThread, get-sync_other, sync-last_doc_id, sync-ghosts,
  sync-WellFormed,
}
use notmuch.Threads.Fresh.{
  blank_message, ghost_message, initialize_ghost_lem, next_doc, drawn, generate_doc_id_lem,
  length-thread_id, generate-get, generate-last_doc_id, generate-ghosts, generate-WellFormed,
  drawn-WellFormed, ghost-HasThread, ghost-HasId, ghost-ids, generate-HasId, next-HasId,
}

module _ {X : Xapian} where
  open X use {
    Doc, values, blank, sha1, left_modified, doc_add, values-doc_add, values-blank, get_document,
    get-set_metadata, postings, postings-sound, postings-complete,
  }

  -- What resolving a message id gives: a thread that the document of the id is in, no other
  -- document touched, and at most one identifier used.
  pub record Resolved (message_id t : Bytes) (n n' : Notmuch X) : Type 0 where
    pub same : Step (λ x. x) n n'
    pub form : WellFormed n'
    pub used : n'.last_doc_id ≤ n.last_doc_id + 1
    pub new_ids :
        (i : ℕ) (key : Bytes) → HasId n' i key → HasId n i key ⊎ (id_key sha1 message_id ≡ key)
    pub same_ghosts : n'.ghosts ≡ n.ghosts
    pub leaves : Leaves n n'
    pub doc_id : ℕ
    pub identified : HasId n' doc_id (id_key sha1 message_id)
    pub threaded : InThread n' doc_id t

  -- The thread of a message that is there.
  pub thread_id_of_lem :
      (n : Notmuch X) (t : Bytes) (m : Entry X) → HasThread X m.doc t → thread_id_of m n ≡ ok t n
  thread_id_of_lem n t m h = rw (thread_id_of, first_of_only t (values m.doc thread) h.1) refl

  resolve_found_lem :
      (message_id : Bytes) (n : Notmuch X) (i : ℕ) (d : Doc)
      → first_of (postings n.db id_term (id_key sha1 message_id)) ≡ some i
      → get_document n.db i ≡ some d
      → resolve_new n message_id
        ≡ thread_id_of (record { doc_id = i; doc = d; modified = left_modified }) n
  unfolding resolve_new create_for_message_id find_message
  resolve_found_lem message_id n i d e f =
      rw (resolve_new, create_for_message_id, find_message, message_create, e, f) refl

  resolve-found :
      (message_id : Bytes) (n : Notmuch X) (i : ℕ)
      → WellFormed n
      → first_of (postings n.db id_term (id_key sha1 message_id)) ≡ some i
      → Returns (λ t n'. Resolved message_id t n n') (resolve_new n message_id)
  resolve-found message_id n i wf e =
      let (d, f, k) = postings-sound n.db id_term (id_key sha1 message_id) i (first_of-mem _ i e) in
      let (t, ht) = wf.threaded i d f (id_term, id_key sha1 message_id, refl, k) in
      let m : Entry X = record { doc_id = i; doc = d; modified = left_modified } in
      let there : Resolved message_id t n n = record {
        same = step_refl n;
        form = wf;
        used = omega arith;
        new_ids = λ i key h. inl h;
        same_ghosts = refl;
        leaves = Leaves-refl n;
        doc_id = i;
        identified = record { doc = d; found = f; has = k };
        threaded = record { doc = d; found = f; has = ht };
      } in
      subst (Returns _) (sym (resolve_found_lem message_id n i d e f ∙ thread_id_of_lem n t m ht))
        there

  resolve_missing_lem :
      (message_id : Bytes) (n : Notmuch X)
      → n.last_doc_id + 1 < 2 ^ 32
      → first_of (postings n.db id_term (id_key sha1 message_id)) ≡ none
      → resolve_new n message_id
        ≡ make_ghost (blank_message X message_id (n.last_doc_id + 1)) (next_doc n)
  unfolding resolve_new create_for_message_id find_message
  resolve_missing_lem message_id n lt e =
      rw (resolve_new, create_for_message_id, find_message, e, generate_doc_id_lem n lt) refl

  make_ghost_lem :
      (message_id : Bytes) (n : Notmuch X)
      → make_ghost (blank_message X message_id (n.last_doc_id + 1)) (next_doc n)
        ≡ ok
            (drawn n).0
            (sync (ghost_message X message_id (n.last_doc_id + 1) (drawn n).0) (drawn n).1)
  unfolding make_ghost
  make_ghost_lem message_id n =
      ap
        (λ (g : Bool × Entry X).
          let made : Outcome X Bytes = ok (drawn n).0 (sync g.1 (drawn n).1) in
          if g.0 then made else internal_error)
        (initialize_ghost_lem message_id (drawn n).0 (n.last_doc_id + 1)
          (length-thread_id (next_doc n)))

  resolve-missing :
      (message_id : Bytes) (n : Notmuch X)
      → WellFormed n
      → n.last_doc_id + 1 < 2 ^ 32
      → first_of (postings n.db id_term (id_key sha1 message_id)) ≡ none
      → Returns (λ t n'. Resolved message_id t n n') (resolve_new n message_id)
  resolve-missing message_id n wf lt e =
      subst (Returns _) (sym (resolve_missing_lem message_id n lt e ∙ make_ghost_lem message_id n))
        made
    where
      t : Bytes
      t = (drawn n).0

      g : Entry X
      g = ghost_message X message_id (n.last_doc_id + 1) t

      n' : Notmuch X
      n' = sync g (drawn n).1

      -- The id is not in the database yet.
      vacant : (j : ℕ) → HasId n j (id_key sha1 message_id) → ⊥
      vacant j h =
          first_of-none (postings n.db id_term (id_key sha1 message_id)) j e
            (postings-complete n.db id_term (id_key sha1 message_id) j h.doc h.found h.has)

      key_of :
          (key : Bytes) → mem_tag (values g.doc id_term) key ≡ true → id_key sha1 message_id ≡ key
      key_of key k = (str_equal_iff _ key).0 (sym (ghost-ids X message_id t key) ∙ k)

      before : (j : ℕ) (key : Bytes) → HasId (drawn n).1 j key → HasId n j key
      before j key h = next-HasId n j key (generate-HasId (next_doc n) j key h)

      own :
          (j : ℕ) (key : Bytes)
          → mem_tag (values g.doc id_term) key ≡ true
          → HasId (drawn n).1 j key
          → n.last_doc_id + 1 ≡ j
      own j key k h = absurd (vacant j (subst (HasId n j) (sym (key_of key k)) (before j key h)))

      kept : (i : ℕ) (d : Doc) → get_document n.db i ≡ some d → get_document n'.db i ≡ some d
      kept i d f =
          let ne : n.last_doc_id + 1 ≢ i =
            λ same. absurd (omega (arith, WellFormed-le n i d wf f)) in
          get-sync_other g (drawn n).1 i refl ne ∙ generate-get (next_doc n) i ∙ f

      formed : WellFormed (drawn n).1
      formed = generate-WellFormed (next_doc n) (drawn-WellFormed n wf)

      made : Resolved message_id t n n'
      made = record {
        same = step_kept n n' kept;
        form =
            sync-WellFormed g (drawn n).1 t refl
              (ghost-HasThread X message_id t (length-thread_id (next_doc n)))
              (omega (arith, generate-last_doc_id (next_doc n))) own formed;
        new_ids = λ i key h. elim (sync-ids g (drawn n).1 i key refl h) [
          | inl (_, k) ↦ inr (key_of key k)
          | inr k ↦ inl (before i key k)
        ];
        used = omega (arith, sync-last_doc_id g (drawn n).1, generate-last_doc_id (next_doc n));
        same_ghosts = sync-ghosts g (drawn n).1 ∙ generate-ghosts (next_doc n);
        leaves = record {
          grown = omega (arith, sync-last_doc_id g (drawn n).1, generate-last_doc_id (next_doc n));
          absent = λ i le no.
              get-sync_other g (drawn n).1 i refl (λ same. absurd (omega (arith, same)))
              ∙ generate-get (next_doc n) i
              ∙ no;
        };
        doc_id = n.last_doc_id + 1;
        identified =
            stamped-HasId g (drawn n).1 (id_key sha1 message_id) refl (ghost-HasId X message_id t);
        threaded =
            stamped-InThread g (drawn n).1 t refl
              (ghost-HasThread X message_id t (length-thread_id (next_doc n)));
      }

  pub resolve_new-Resolved :
      (message_id : Bytes) (n : Notmuch X)
      → WellFormed n
      → n.last_doc_id + 1 < 2 ^ 32
      → Returns (λ t n'. Resolved message_id t n n') (resolve_new n message_id)
  resolve_new-Resolved message_id n wf lt =
      elim (Option-cases (first_of (postings n.db id_term (id_key sha1 message_id)))) [
        | inl e ↦ resolve-missing message_id n wf lt e
        | inr (i, e) ↦ resolve-found message_id n i wf e
      ]
