-- ===== src/Threads/Rethread.antt =====
-- One document of a merge: it leaves the loser's thread for the winner's and keeps its ids.
use notmuch.Prelude.{
  ◌+◌, ◌<◌, true, false, ◌&&◌, ◌||◌, ◌≡◌, ◌⊎◌, inl, inr, refl, subst, sym, arith, if◌then◌else◌,
  length, Bool-cases, Option-cases, le→ltb,
}
use notmuch.Prelude.Bytes.{Bytes, str_equal, str_equal_iff}
use notmuch.Message.{mem_tag}
use notmuch.Threads.{Xapian, Entry, thread, id_term, add_term, remove_term, same_prefix, Prefix}
use notmuch.Threads.Link.{rethread}
use notmuch.Threads.State.{HasThread}

module _ (X : Xapian) where
  open X use {Doc, values}

  -- Removing a thread term leaves the terms of the other prefixes and of the other threads.
  absent-values :
      (q : Prefix) (v u : Bytes) (d : Doc)
      → mem_tag (values d thread) v ≡ false
      → mem_tag (values d q) u
        ≡ (if same_prefix thread q && str_equal v u then false else mem_tag (values d q) u)
  absent-values Prefix.thread v u d h = elim (Bool-cases (str_equal v u)) [
    | inl e ↦ rw e (subst (λ x. mem_tag (values d thread) x ≡ false) ((str_equal_iff v u).0 e) h)
    | inr e ↦ ground arith
  ]
  absent-values Prefix.type_term v u d h = refl
  absent-values Prefix.reference v u d h = refl
  absent-values Prefix.replyto v u d h = refl
  absent-values Prefix.id_term v u d h = refl

module _ {X : Xapian} where
  open X use {
    Doc, values, get_document, doc_add, doc_remove, values-doc_add, values-doc_remove,
    remove_absent, postings, postings-complete, postings-sound,
  }

  remove_term-values :
      (q : Prefix) (v u : Bytes) (m : Entry X)
      → length v < 245
      → mem_tag (values (remove_term thread v m).doc q) u
        ≡ (if same_prefix thread q && str_equal v u then false else mem_tag (values m.doc q) u)
  unfolding remove_term
  remove_term-values q v u m h = elim (Option-cases (doc_remove thread v m.doc)) [
    | inl e ↦
        rw (le→ltb (1 + length v) 245 (omega arith), e)
          (absent-values X q v u m.doc (remove_absent thread v m.doc e))
    | inr (d, e) ↦
        rw (le→ltb (1 + length v) 245 (omega arith), e) (values-doc_remove thread q v u m.doc d e)
  ]

  pub rethread-modified :
      (w l : Bytes) (m : Entry X) → length w < 245 → (rethread w l m).modified ≡ true
  unfolding rethread add_term
  rethread-modified w l m h = rw (rethread, add_term, le→ltb (1 + length w) 245 (omega arith)) refl

  remove_term-doc_id : (l : Bytes) (m : Entry X) → (remove_term thread l m).doc_id ≡ m.doc_id
  unfolding remove_term
  remove_term-doc_id l m = elim (Option-cases (doc_remove thread l m.doc)) [
    | inl e ↦ rw e (ground arith)
    | inr (d, e) ↦ rw e (ground arith)
  ]

  pub rethread-doc_id : (w l : Bytes) (m : Entry X) → (rethread w l m).doc_id ≡ m.doc_id
  unfolding rethread add_term
  rethread-doc_id w l m = ground (arith, remove_term-doc_id l m)

  pub rethread-values :
      (w l : Bytes) (q : Prefix) (u : Bytes) (m : Entry X)
      → length w < 245
      → length l < 245
      → mem_tag (values (rethread w l m).doc q) u ≡ (
          same_prefix thread q && str_equal w u
          || (if same_prefix thread q && str_equal l u then false else mem_tag (values m.doc q) u))
  unfolding rethread add_term
  rethread-values w l q u m h k =
      rw
        (
          rethread,
          add_term,
          le→ltb (1 + length w) 245 (omega arith),
          sym (remove_term-values q l u m k),
        )
        (values-doc_add thread q w u (remove_term thread l m).doc)

  -- A document of either thread is in the winner's, and keeps its ids.
  pub rethread-HasThread :
      (w l t : Bytes) (m : Entry X)
      → length w < 245
      → length l < 245
      → (t ≡ l) ⊎ (t ≡ w)
      → HasThread X m.doc t
      → HasThread X (rethread w l m).doc w
  rethread-HasThread w l t m h k (inl e) ht = (
    h,
    λ u.
        let a = rethread-values w l thread u m h k in
        let b = ht.1 u in
        let c = subst (λ x. mem_tag (values m.doc thread) u ≡ str_equal x u) e b in
        ground (arith, a, c),
  )
  rethread-HasThread w l t m h k (inr e) ht = (
    h,
    λ u.
        let a = rethread-values w l thread u m h k in
        let b = ht.1 u in
        let c = subst (λ x. mem_tag (values m.doc thread) u ≡ str_equal x u) e b in
        ground (arith, a, c, str_equal_iff l u, str_equal_iff w u),
  )

  pub rethread-ids :
      (w l key : Bytes) (m : Entry X)
      → length w < 245
      → length l < 245
      → mem_tag (values (rethread w l m).doc id_term) key ≡ mem_tag (values m.doc id_term) key
  rethread-ids w l key m h k = rethread-values w l id_term key m h k
