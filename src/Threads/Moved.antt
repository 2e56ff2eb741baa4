-- ===== src/Threads/Moved.antt =====
-- One turn of the loop of _merge_threads, and what a merge may do to a database.
use notmuch.Prelude.{
  true, none, ℕ, ◌<◌, some, ◌==◌, ◌≡◌, ◌≢◌, ◌∙◌, ◌⊎◌, inl, inr, refl, subst, sym, ap, arith, length,
  Bool-cases, ==_iff, ◌≤◌,
}
use notmuch.Prelude.Bytes.{Bytes}
use mathlib.Core.Option.{none-ne-some}
use notmuch.Message.{mem_tag}
use notmuch.Threads.{Xapian, Notmuch, Entry, id_term, sync}
use notmuch.Threads.Link.{rethread}
use notmuch.Threads.State.{
  HasThread, InThread, HasId, WellFormed, document_unique, InThread-HasThread, HasThread-unique,
  WellFormed-le,
}
use notmuch.Threads.Written.{
  get-sync_other, sync-last_doc_id, sync-ids, stamped-HasId, stamped-InThread, sync-ghosts,
  sync-WellFormed,
}
use notmuch.Threads.Rethread.{rethread-modified, rethread-doc_id, rethread-HasThread, rethread-ids}

module _ {X : Xapian} where
  open X use {Doc, left_modified, values, get_document, postings, postings-complete, postings-sound}

  -- What merging `l` into `w` may do: a document stays in its thread, or goes from `l` to `w`.
  pub record Merged (w l : Bytes) (n n' : Notmuch X) : Type 0 where
    pub threads :
        (i : ℕ) (t : Bytes) → InThread n i t → InThread n' i t ⊎ ((t ≡ l) × InThread n' i w)
    pub ids : (i : ℕ) (key : Bytes) → HasId n i key → HasId n' i key
    pub same_ids : (i : ℕ) (key : Bytes) → HasId n' i key → HasId n i key
    pub form : WellFormed n → WellFormed n'
    pub absent : (i : ℕ) → get_document n.db i ≡ none → get_document n'.db i ≡ none
    pub same_last : n'.last_doc_id ≡ n.last_doc_id
    pub same_ghosts : n'.ghosts ≡ n.ghosts

  pub Merged-refl : (w l : Bytes) (n : Notmuch X) → Merged w l n n
  Merged-refl w l n = record {
    threads = λ i t h. inl h;
    ids = λ i k h. h;
    same_ids = λ i k h. h;
    form = λ h. h;
    absent = λ i h. h;
    same_last = refl;
    same_ghosts = refl;
  }

  pub Merged-trans :
      (w l : Bytes) (n n' n'' : Notmuch X) → Merged w l n n' → Merged w l n' n'' → Merged w l n n''
  Merged-trans w l n n' n'' a b = record {
    threads = λ i t h. elim (a.threads i t h) [
      | inl k ↦ b.threads i t k
      | inr (e, k) ↦ elim (b.threads i w k) [ inl k' ↦ inr (e, k') | inr (e', k') ↦ inr (e, k') ]
    ];
    ids = λ i k h. b.ids i k (a.ids i k h);
    same_ids = λ i k h. a.same_ids i k (b.same_ids i k h);
    form = λ h. b.form (a.form h);
    absent = λ i h. b.absent i (a.absent i h);
    same_last = b.same_last ∙ a.same_last;
    same_ghosts = b.same_ghosts ∙ a.same_ghosts;
  }

  -- One turn of the loop, at a document that is in one of the two threads.
  abbrev pub moved : Bytes → Bytes → Entry X → Notmuch X → Notmuch X
  moved w l m n = sync (rethread w l m) n

  pub moved-InThread :
      (w l t : Bytes) (m : Entry X) (n : Notmuch X)
      → length w < 245
      → length l < 245
      → (t ≡ l) ⊎ (t ≡ w)
      → HasThread X m.doc t
      → InThread (moved w l m n) m.doc_id w
  moved-InThread w l t m n hw hl tw ht =
      subst (λ i. InThread (moved w l m n) i w) (rethread-doc_id w l m)
        (stamped-InThread (rethread w l m) n w (rethread-modified w l m hw)
          (rethread-HasThread w l t m hw hl tw ht))

  moved-get :
      (w l : Bytes) (m : Entry X) (n : Notmuch X) (j : ℕ)
      → length w < 245
      → m.doc_id ≢ j
      → get_document (moved w l m n).db j ≡ get_document n.db j
  moved-get w l m n j hw ne =
      get-sync_other (rethread w l m) n j (rethread-modified w l m hw)
        (λ e. ne (sym (rethread-doc_id w l m) ∙ e))

  moved-threads :
      (w l t : Bytes) (m : Entry X) (n : Notmuch X)
      → length w < 245
      → length l < 245
      → (t ≡ l) ⊎ (t ≡ w)
      → get_document n.db m.doc_id ≡ some m.doc
      → HasThread X m.doc t
      → (i : ℕ) (t' : Bytes) → InThread n i t'
      → InThread (moved w l m n) i t' ⊎ ((t' ≡ l) × InThread (moved w l m n) i w)
  moved-threads w l t m n hw hl tw e ht i t' h = elim (Bool-cases (m.doc_id == i)) [
    | inl eq ↦
        let same : m.doc_id ≡ i = (==_iff m.doc_id i).0 eq in
        let there =
          subst (λ j. InThread (moved w l m n) j w) same (moved-InThread w l t m n hw hl tw ht) in
        let ht' = InThread-HasThread n i t' m.doc h (ap (get_document n.db) (sym same) ∙ e) in
        let tt' : t' ≡ t = HasThread-unique X m.doc t' t ht' ht in
        elim tw [
          | inl tl ↦ inr (tt' ∙ tl, there)
          | inr tw' ↦ inl (subst (λ x. InThread (moved w l m n) i x) (sym (tt' ∙ tw')) there)
        ]
    | inr ne ↦ inl (record {
      doc = h.doc;
      found =
          moved-get w l m n i hw (λ x. absurd (ground (arith, (==_iff m.doc_id i).1 x))) ∙ h.found;
      has = h.has;
    })
  ]

  moved-ids :
      (w l : Bytes) (m : Entry X) (n : Notmuch X)
      → length w < 245
      → length l < 245
      → get_document n.db m.doc_id ≡ some m.doc
      → (i : ℕ) (key : Bytes) → HasId n i key
      → HasId (moved w l m n) i key
  moved-ids w l m n hw hl e i key h = elim (Bool-cases (m.doc_id == i)) [
    | inl eq ↦
        let same : m.doc_id ≡ i = (==_iff m.doc_id i).0 eq in
        let d : h.doc ≡ m.doc =
          document_unique n i h.doc m.doc h.found (ap (get_document n.db) (sym same) ∙ e) in
        subst (λ j. HasId (moved w l m n) j key) (rethread-doc_id w l m ∙ same)
          (stamped-HasId (rethread w l m) n key (rethread-modified w l m hw) (
            rethread-ids w l key m hw hl
            ∙ ap (λ x. mem_tag (values x id_term) key) (sym d)
            ∙ h.has))
    | inr ne ↦ record {
      doc = h.doc;
      found =
          moved-get w l m n i hw (λ x. absurd (ground (arith, (==_iff m.doc_id i).1 x))) ∙ h.found;
      has = h.has;
    }
  ]

  -- The ids of the document as it is in the database.
  moved-HasId :
      (w l : Bytes) (m : Entry X) (n : Notmuch X) (i : ℕ) (key : Bytes)
      → length w < 245
      → length l < 245
      → get_document n.db m.doc_id ≡ some m.doc
      → (rethread w l m).doc_id ≡ i
      → mem_tag (values (rethread w l m).doc id_term) key ≡ true
      → HasId n i key
  moved-HasId w l m n i key hw hl e same k = record {
    doc = m.doc;
    found = ap (get_document n.db) (sym same ∙ rethread-doc_id w l m) ∙ e;
    has = sym (rethread-ids w l key m hw hl) ∙ k;
  }

  moved-same_ids :
      (w l : Bytes) (m : Entry X) (n : Notmuch X)
      → length w < 245
      → length l < 245
      → get_document n.db m.doc_id ≡ some m.doc
      → (i : ℕ) (key : Bytes) → HasId (moved w l m n) i key
      → HasId n i key
  moved-same_ids w l m n hw hl e i key h =
      elim (sync-ids (rethread w l m) n i key (rethread-modified w l m hw) h) [
        | inl (same, k) ↦ moved-HasId w l m n i key hw hl e same k
        | inr k ↦ k
      ]

  pub moved-Merged :
      (w l t : Bytes) (m : Entry X) (n : Notmuch X)
      → length w < 245
      → length l < 245
      → (t ≡ l) ⊎ (t ≡ w)
      → get_document n.db m.doc_id ≡ some m.doc
      → HasThread X m.doc t
      → Merged w l n (moved w l m n)
  moved-Merged w l t m n hw hl tw e ht = record {
    threads = moved-threads w l t m n hw hl tw e ht;
    ids = moved-ids w l m n hw hl e;
    same_ids = moved-same_ids w l m n hw hl e;
    form = λ wf.
        sync-WellFormed (rethread w l m) n w (rethread-modified w l m hw)
          (rethread-HasThread w l t m hw hl tw ht)
          (subst (λ i. i ≤ n.last_doc_id) (sym (rethread-doc_id w l m))
            (WellFormed-le n m.doc_id m.doc wf e))
          (λ j key k h.
            wf.unique (rethread w l m).doc_id j key
              (moved-HasId w l m n (rethread w l m).doc_id key hw hl e refl k) h)
          wf;
    absent = λ i no.
        moved-get w l m n i hw
          (λ same. none-ne-some m.doc (sym no ∙ ap (get_document n.db) (sym same) ∙ e))
        ∙ no;
    same_last = sync-last_doc_id (rethread w l m) n;
    same_ghosts = sync-ghosts (rethread w l m) n;
  }
