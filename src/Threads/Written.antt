-- ===== src/Threads/Written.antt =====
-- lib/message.cc: the database after _notmuch_message_sync has written a message.
use notmuch.Prelude.{
  ℕ, true, some, ◌==◌, ◌≡◌, ◌≢◌, ◌≤◌, ◌∙◌, sym, inl, inr, refl, subst, ap, arith, ◌⊎◌, ==_iff,
  if◌then◌else◌, Bool-cases,
}
use notmuch.Prelude.Bytes.{Bytes}
use mathlib.Core.Option.{some-injective}
use notmuch.Message.{mem_tag}
use notmuch.Database.{next_revision}
use notmuch.Threads.{Prefix, Xapian, Notmuch, Entry, thread, id_term, sync, stamped}
use notmuch.Threads.State.{HasId, HasThread, InThread, WellFormed}

module _ {X : Xapian} where
  open X use {Doc, values, get_document, get-replace, values-set_last_mod}

  -- The revision in a document changes none of its terms.
  pub values-stamped :
      (m : Entry X) (n : Notmuch X) (p : Prefix) → values (stamped m n) p ≡ values m.doc p
  values-stamped m n p = elim (Bool-cases n.last_mod) [
    | inl e ↦ rw e (values-set_last_mod (next_revision n.revision) m.doc p)
    | inr e ↦ rw e refl
  ]

  pub stamped-mem :
      (m : Entry X) (n : Notmuch X) (p : Prefix) (u : Bytes)
      → mem_tag (values (stamped m n) p) u ≡ mem_tag (values m.doc p) u
  stamped-mem m n p u = ap (λ xs. mem_tag xs u) (values-stamped m n p)

  pub stamped-HasThread :
      (m : Entry X) (n : Notmuch X) (t : Bytes) → HasThread X m.doc t → HasThread X (stamped m n) t
  stamped-HasThread m n t h = (h.0, λ u. stamped-mem m n thread u ∙ h.1 u)

  -- The database after a changed message is written.
  pub get-sync :
      (m : Entry X) (n : Notmuch X) (j : ℕ)
      → m.modified ≡ true
      → get_document (sync m n).db j
        ≡ (if m.doc_id == j then some (stamped m n) else get_document n.db j)
  unfolding sync
  get-sync m n j h = rw h (get-replace m.doc_id j (stamped m n) n.db)

  pub get-sync_same :
      (m : Entry X) (n : Notmuch X)
      → m.modified ≡ true
      → get_document (sync m n).db m.doc_id ≡ some (stamped m n)
  get-sync_same m n h = ground (arith, get-sync m n m.doc_id h)

  pub get-sync_other :
      (m : Entry X) (n : Notmuch X) (j : ℕ)
      → m.modified ≡ true
      → m.doc_id ≢ j
      → get_document (sync m n).db j ≡ get_document n.db j
  get-sync_other m n j h ne = ground (arith, get-sync m n j h)

  -- The document that is written has the ids of the message.
  pub stamped-HasId :
      (m : Entry X) (n : Notmuch X) (key : Bytes)
      → m.modified ≡ true
      → mem_tag (values m.doc id_term) key ≡ true
      → HasId (sync m n) m.doc_id key
  stamped-HasId m n key h k = record {
    doc = stamped m n;
    found = get-sync_same m n h;
    has = stamped-mem m n id_term key ∙ k;
  }

  pub stamped-InThread :
      (m : Entry X) (n : Notmuch X) (t : Bytes)
      → m.modified ≡ true
      → HasThread X m.doc t
      → InThread (sync m n) m.doc_id t
  stamped-InThread m n t h k = record {
    doc = stamped m n;
    found = get-sync_same m n h;
    has = stamped-HasThread m n t k;
  }

  -- A document that has an id after a message is written is that of the message, or had it before.
  pub sync-ids :
      (m : Entry X) (n : Notmuch X) (i : ℕ) (key : Bytes)
      → m.modified ≡ true
      → HasId (sync m n) i key
      → ((m.doc_id ≡ i) × (mem_tag (values m.doc id_term) key ≡ true)) ⊎ HasId n i key
  sync-ids m n i key h k = elim (Bool-cases (m.doc_id == i)) [
    | inl eq ↦
        let e : some (stamped m n) ≡ some k.doc = ground (arith, get-sync m n i h, k.found) in
        let same : stamped m n ≡ k.doc = some-injective _ _ e in
        inl (
          (==_iff m.doc_id i).0 eq,
          sym (stamped-mem m n id_term key) ∙ ap (λ x. mem_tag (values x id_term) key) same ∙ k.has,
        )
    | inr ne ↦
        inr (record { doc = k.doc; found = ground (arith, get-sync m n i h, k.found); has = k.has })
  ]

  -- A message none of whose ids another document has.
  abbrev pub OwnIds : Entry X → Notmuch X → Type 0
  OwnIds m n =
      (j : ℕ) (key : Bytes)
      → mem_tag (values m.doc id_term) key ≡ true
      → HasId n j key
      → m.doc_id ≡ j

  pub sync_unique :
      (m : Entry X) (n : Notmuch X)
      → m.modified ≡ true
      → OwnIds m n
      → WellFormed n
      → (i j : ℕ) (key : Bytes) → HasId (sync m n) i key
      → HasId (sync m n) j key
      → i ≡ j
  sync_unique m n h own w i j key a b = elim (sync-ids m n i key h a) [
    | inl (e, k) ↦ elim (sync-ids m n j key h b) [
      | inl (e', k') ↦ sym e ∙ e'
      | inr b' ↦ sym e ∙ own j key k b'
    ]
    | inr a' ↦ elim (sync-ids m n j key h b) [
      | inl (e', k') ↦ sym (own i key k' a') ∙ e'
      | inr b' ↦ w.unique i j key a' b'
    ]
  ]

  pub sync-last_doc_id : (m : Entry X) (n : Notmuch X) → (sync m n).last_doc_id ≡ n.last_doc_id
  unfolding sync
  sync-last_doc_id m n = ground arith

  pub sync-ghosts : (m : Entry X) (n : Notmuch X) → (sync m n).ghosts ≡ n.ghosts
  unfolding sync
  sync-ghosts m n = ground arith

  -- Writing a message that is in a thread keeps the form of the database.
  pub sync-WellFormed :
      (m : Entry X) (n : Notmuch X) (t : Bytes)
      → m.modified ≡ true
      → HasThread X m.doc t
      → m.doc_id ≤ n.last_doc_id
      → OwnIds m n
      → WellFormed n
      → WellFormed (sync m n)
  sync-WellFormed m n t h ht le own w = record {
    threaded = λ i d e k. elim (Bool-cases (m.doc_id == i)) [
      | inl eq ↦
          let e' : some (stamped m n) ≡ some d = ground (arith, get-sync m n i h) in
          let same : stamped m n ≡ d = some-injective _ _ e' in
          (t, subst (λ x. HasThread X x t) same (stamped-HasThread m n t ht))
      | inr ne ↦ w.threaded i d (ground (arith, get-sync m n i h)) k
    ];
    free = λ i lt. ground (arith, get-sync m n i h, w.free i, sync-last_doc_id m n);
    unique = sync_unique m n h own w;
  }
