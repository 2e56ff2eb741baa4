-- ===== src/Threads/Add/Blank.antt =====
-- Adding a message that is not in the database: the blank message, and what is linked of it.
use notmuch.Prelude.{ℕ, or_false, ◌+◌, ◌<◌, ◌^◌, ◌≡◌, ◌∙◌, true, false, ◌||◌, none, some, refl, ap}
use notmuch.Prelude.Bytes.{Bytes, codes, str_equal}
use notmuch.Message.{mem_tag}
use notmuch.Threads.{
  Xapian, Notmuch, Entry, ok, bind, thread, type_term, id_term, id_key, first_of, add_term, sync,
  create_for_message_id, find_message,
}
use notmuch.Threads.Link.{link_message}
use notmuch.Threads.State.{first_of_only}
use notmuch.Threads.Fresh.{blank_message, next_doc, generate_doc_id_lem}
use notmuch.Threads.Linked.{add_term-Carries}
use notmuch.Threads.Entries.{SameEntry, SameEntry-trans, add_term-SameEntry}
use notmuch.Threads.Linking.{Arrives}
use notmuch.Threads.Add.{References, become_mail, get_message_id, link_and_index, add_document}

module _ (X : Xapian) where
  open X use {values, sha1, blank, values-doc_add, values-blank}

  -- The blank message has its id and no other.
  pub blank-ids :
      (message_id u : Bytes) (i : ℕ)
      → mem_tag (values (blank_message X message_id i).doc id_term) u
        ≡ str_equal (id_key sha1 message_id) u
  blank-ids message_id u i =
      let key = id_key sha1 message_id in
      let none_yet : mem_tag (values blank id_term) u ≡ false = rw (values-blank id_term) refl in
      values-doc_add id_term id_term key u blank
      ∙ ap (λ b. str_equal key u || b) none_yet
      ∙ or_false (str_equal key u)

module _ {X : Xapian} where
  open X use {
    Doc, values, postings, postings-complete, sha1, blank, doc_add, get_document, values-doc_add,
    values-blank,
  }

  -- A step that adds terms other than those of ids and threads, as indexing does.
  pub record Indexes (f : Entry X → Entry X) : Type 0 where
    pub same : (m : Entry X) → SameEntry m (f m)
    pub threads :
        (m : Entry X) (u : Bytes)
        → mem_tag (values (f m).doc thread) u ≡ mem_tag (values m.doc thread) u

  pub create_missing :
      (message_id : Bytes) (n : Notmuch X)
      → n.last_doc_id + 1 < 2 ^ 32
      → first_of (postings n.db id_term (id_key sha1 message_id)) ≡ none
      → create_for_message_id n message_id
        ≡ ok (false, blank_message X message_id (n.last_doc_id + 1)) (next_doc n)
  unfolding create_for_message_id find_message
  create_missing message_id n lt e =
      rw (create_for_message_id, find_message, e, generate_doc_id_lem n lt) refl

  pub add_missing :
      (add_filename index : Entry X → Entry X) (refs : References) (n : Notmuch X)
      → n.last_doc_id + 1 < 2 ^ 32
      → first_of (postings n.db id_term (id_key sha1 refs.message_id)) ≡ none
      → add_document add_filename index refs n
        ≡ link_and_index index refs false
            (add_filename (blank_message X refs.message_id (n.last_doc_id + 1)))
            (next_doc n)
  unfolding add_document
  add_missing add_filename index refs n lt e =
      rw (add_document, create_missing refs.message_id n lt e) refl

  -- The blank message with its file name, as a mail.
  abbrev pub new_mail : (Entry X → Entry X) → Bytes → ℕ → Entry X
  new_mail add_filename message_id i =
      (add_term type_term (codes "mail") (add_filename (blank_message X message_id i))).1

  pub own_id :
      (add_filename : Entry X → Entry X) (message_id : Bytes) (i : ℕ)
      → Indexes add_filename
      → get_message_id (add_filename (blank_message X message_id i)) ≡ some (id_key sha1 message_id)
  own_id add_filename message_id i h =
      let m = blank_message X message_id i in
      first_of_only (id_key sha1 message_id) (values (add_filename m).doc id_term)
        (λ u. (h.same m).ids u ∙ blank-ids X message_id u i)

  pub link_new :
      (add_filename index : Entry X → Entry X) (refs : References) (i : ℕ) (n : Notmuch X)
      → Indexes add_filename
      → link_and_index index refs false (add_filename (blank_message X refs.message_id i)) n
        ≡ bind
            (link_message
              (id_key sha1 refs.message_id)
              refs.parents
              refs.last_ref
              refs.in_reply_to
              false
              (new_mail add_filename refs.message_id i)
              n)
            (λ r n'. ok (some r.1) (sync (index r.0) n'))
  unfolding link_and_index become_mail
  link_new add_filename index refs i n h =
      rw (link_and_index, become_mail, own_id add_filename refs.message_id i h) refl

  pub new_mail-Arrives :
      (add_filename : Entry X → Entry X) (message_id : Bytes) (i : ℕ)
      → Indexes add_filename
      → Arrives false (new_mail add_filename message_id i) none
  new_mail-Arrives add_filename message_id i h =
      let m = blank_message X message_id i in
      (
        refl,
        add_term-Carries X type_term (codes "mail") (add_filename m) none refl (λ u.
            h.threads m u
            ∙ values-doc_add id_term thread (id_key sha1 message_id) u blank
            ∙ no_values u),
      )
    where
      no_values : (u : Bytes) → mem_tag (values blank thread) u ≡ false
      no_values u = rw (values-blank thread) refl

  pub new_mail-modified :
      (add_filename : Entry X → Entry X) (message_id : Bytes) (i : ℕ)
      → (new_mail add_filename message_id i).modified ≡ true
  unfolding add_term
  new_mail-modified add_filename message_id i = refl

  pub new_mail-SameEntry :
      (add_filename : Entry X → Entry X) (message_id : Bytes) (i : ℕ)
      → Indexes add_filename
      → SameEntry (blank_message X message_id i) (new_mail add_filename message_id i)
  new_mail-SameEntry add_filename message_id i h =
      let m = blank_message X message_id i in
      SameEntry-trans m (add_filename m) (new_mail add_filename message_id i) (h.same m)
        (add_term-SameEntry type_term (codes "mail") (add_filename m) refl)
