-- ===== src/Threads/Fresh.antt =====
-- The identifiers and thread ids that are given out, and the ghost message made with them.
use notmuch.Prelude.{
  or_false, ℕ, zero, suc, ◌+◌, ◌<◌, ◌^◌, ◌%◌, ◌/◌, true, false, ◌&&◌, ◌||◌, ◌≡◌, ◌∙◌, refl, sym, ap,
  arith, length, le→ltb, length-append,
}
use notmuch.Prelude.Bytes.{Bytes, codes, str_equal}
use notmuch.Message.{mem_tag}
use notmuch.Threads.{
  Xapian, Notmuch, Entry, ok, thread, type_term, id_term, hex_digits, id_key, generate_doc_id,
  generate_thread_id, Prefix, same_prefix, initialize_ghost, add_term,
}
use notmuch.Threads.State.{HasThread, HasId, WellFormed, str_equal_refl}

length-hex_digits : (k x : ℕ) → length (hex_digits k x) ≡ k
unfolding hex_digits
length-hex_digits zero x = refl
length-hex_digits (suc k) x =
    length-append (hex_digits k (x / 16)) _
    ∙ ap (λ j. j + 1) (length-hex_digits k (x / 16))
    ∙ omega arith

module _ (X : Xapian) where
  open X use {Doc, values, blank, sha1, left_modified, doc_add, values-doc_add, values-blank}

  -- The message that stands for an id that is not in the database, and the ghost made of it.
  abbrev pub blank_message : Bytes → ℕ → Entry X
  blank_message message_id i = record {
    doc_id = i;
    doc = doc_add id_term (id_key sha1 message_id) blank;
    modified = left_modified;
  }

  abbrev pub ghost_message : Bytes → ℕ → Bytes → Entry X
  ghost_message message_id i t = record {
    doc_id = i;
    doc =
        doc_add thread t
          (doc_add type_term (codes "ghost") (doc_add id_term (id_key sha1 message_id) blank));
    modified = true;
  }

  abbrev ghost_doc : Bytes → Bytes → Doc
  ghost_doc message_id t = (ghost_message message_id 0 t).doc

  ghost-values :
      (q : Prefix) (message_id t u : Bytes)
      → mem_tag (values (ghost_doc message_id t) q) u ≡ (
          same_prefix thread q && str_equal t u
          || (same_prefix type_term q && str_equal (codes "ghost") u
              || same_prefix id_term q && str_equal (id_key sha1 message_id) u))
  ghost-values q message_id t u =
      let key = id_key sha1 message_id in
      let a =
        values-doc_add thread q t u
          (doc_add type_term (codes "ghost") (doc_add id_term key blank)) in
      let b = values-doc_add type_term q (codes "ghost") u (doc_add id_term key blank) in
      let c = values-doc_add id_term q key u blank in
      let d : mem_tag (values blank q) u ≡ false = rw (values-blank q) refl in
      a
      ∙ ap (λ z. same_prefix thread q && str_equal t u || z)
          (b
            ∙ ap (λ z. same_prefix type_term q && str_equal (codes "ghost") u || z)
                (c ∙ ap (λ z. same_prefix id_term q && str_equal key u || z) d ∙ or_false _))

  pub ghost-HasThread :
      (message_id t : Bytes) → length t ≡ 16 → HasThread X (ghost_doc message_id t) t
  ghost-HasThread message_id t h =
      (omega arith, λ u. ghost-values thread message_id t u ∙ or_false (str_equal t u))

  pub ghost-HasId :
      (message_id t : Bytes)
      → mem_tag (values (ghost_doc message_id t) id_term) (id_key sha1 message_id) ≡ true
  ghost-HasId message_id t =
      ghost-values id_term message_id t (id_key sha1 message_id)
      ∙ str_equal_refl (id_key sha1 message_id)

  -- A ghost has no other id.
  pub ghost-ids :
      (message_id t u : Bytes)
      → mem_tag (values (ghost_doc message_id t) id_term) u ≡ str_equal (id_key sha1 message_id) u
  ghost-ids message_id t u = ghost-values id_term message_id t u

module _ {X : Xapian} where
  open X use {
    Doc, values, blank, sha1, left_modified, doc_add, values-doc_add, values-blank, get_document,
    get-set_metadata, postings, postings-sound,
  }

  pub initialize_ghost_lem :
      (message_id t : Bytes) (i : ℕ)
      → length t ≡ 16
      → initialize_ghost (blank_message X message_id i) t ≡ (true, ghost_message X message_id i t)
  unfolding initialize_ghost add_term
  initialize_ghost_lem message_id t i h =
      rw (initialize_ghost, add_term, le→ltb (1 + length t) 245 (omega arith)) refl

  abbrev pub next_doc : Notmuch X → Notmuch X
  next_doc n = record n { last_doc_id = n.last_doc_id + 1 }

  -- The state with the ghost's identifier and thread given out.
  abbrev pub drawn : Notmuch X → Bytes × Notmuch X
  drawn n = generate_thread_id (next_doc n)

  pub generate_doc_id_lem :
      (n : Notmuch X)
      → n.last_doc_id + 1 < 2 ^ 32
      → generate_doc_id n ≡ ok (n.last_doc_id + 1) (next_doc n)
  unfolding generate_doc_id
  generate_doc_id_lem n lt =
      let e : (n.last_doc_id + 1) % 2 ^ 32 ≡ n.last_doc_id + 1 = omega arith in
      rw (generate_doc_id, e) (ground arith)

  pub length-thread_id : (n : Notmuch X) → length (generate_thread_id n).0 ≡ 16
  unfolding generate_thread_id
  length-thread_id n = length-hex_digits 16 ((n.last_thread_id + 1) % 2 ^ 64)

  pub generate-get :
      (n : Notmuch X) (i : ℕ) → get_document (generate_thread_id n).1.db i ≡ get_document n.db i
  unfolding generate_thread_id
  generate-get n i = get-set_metadata _ _ n.db i

  pub generate-last_doc_id : (n : Notmuch X) → (generate_thread_id n).1.last_doc_id ≡ n.last_doc_id
  unfolding generate_thread_id
  generate-last_doc_id n = refl

  pub generate-ghosts : (n : Notmuch X) → (generate_thread_id n).1.ghosts ≡ n.ghosts
  unfolding generate_thread_id
  generate-ghosts n = refl

  pub generate-HasId :
      (n : Notmuch X) (i : ℕ) (key : Bytes) → HasId (generate_thread_id n).1 i key → HasId n i key
  generate-HasId n i key h = record {
    doc = h.doc;
    found = sym (generate-get n i) ∙ h.found;
    has = h.has;
  }

  pub generate-WellFormed : (n : Notmuch X) → WellFormed n → WellFormed (generate_thread_id n).1
  generate-WellFormed n wf = record {
    threaded = λ i d f k. wf.threaded i d (sym (generate-get n i) ∙ f) k;
    free = λ i l. generate-get n i ∙ wf.free i (omega (arith, generate-last_doc_id n));
    unique = λ i j k a b. wf.unique i j k (generate-HasId n i k a) (generate-HasId n j k b);
  }

  pub next-HasId : (n : Notmuch X) (i : ℕ) (key : Bytes) → HasId (next_doc n) i key → HasId n i key
  next-HasId n i key h = record { doc = h.doc; found = h.found; has = h.has }

  pub drawn-WellFormed : (n : Notmuch X) → WellFormed n → WellFormed (next_doc n)
  drawn-WellFormed n wf = record {
    threaded = wf.threaded;
    free = λ i l. wf.free i (omega arith);
    unique = λ i j k a b. wf.unique i j k (next-HasId n i k a) (next-HasId n j k b);
  }
