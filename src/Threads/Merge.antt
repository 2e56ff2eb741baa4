-- ===== src/Threads/Merge.antt =====
-- Merging two threads: the loser's documents are in the winner's thread, all others where they were.
use notmuch.Prelude.{
  ℕ, ◌<◌, true, some, List, [], ◌∷◌, ◌==◌, ◌≡◌, ◌∙◌, ◌⊎◌, inl, inr, refl, subst, sym, ap, arith,
  if◌then◌else◌, length, Bool-cases, ==_iff, ==_refl,
}
use notmuch.Prelude.Bytes.{Bytes, str_equal, str_equal_iff}
use notmuch.Message.{mem_tag}
use notmuch.Threads.{Xapian, Notmuch, Entry, thread, mem_id, message_create}
use notmuch.Threads.Link.{merge_loop, merge_threads}
use notmuch.Threads.State.{
  Leaves, Returns, Returns-map, HasThread, InThread, HasId, WellFormed, Step, str_equal_refl,
}
use notmuch.Threads.Moved.{Merged, Merged-refl, Merged-trans, moved, moved-InThread, moved-Merged}

-- The relabelling of a merge.
abbrev pub merge_label : Bytes → Bytes → Bytes → Bytes
merge_label w l t = if str_equal l t then w else t

module _ {X : Xapian} where
  open X use {Doc, left_modified, values, get_document, postings, postings-complete, postings-sound}

  one_of :
      (w l : Bytes) (i : ℕ) (n : Notmuch X)
      → InThread n i l ⊎ InThread n i w
      → (t : Bytes) × ((t ≡ l) ⊎ (t ≡ w)) × InThread n i t
  one_of w l i n (inl h) = (l, inl refl, h)
  one_of w l i n (inr h) = (w, inr refl, h)

  stays :
      (w l : Bytes) (n n' : Notmuch X) (i : ℕ) → Merged w l n n' → InThread n i w → InThread n' i w
  stays w l n n' i a h = elim (a.threads i w h) [ inl k ↦ k | inr (_, k) ↦ k ]

  merge_loop_step :
      (w l : Bytes) (i : ℕ) (ids : List ℕ) (d : Doc) (n : Notmuch X)
      → get_document n.db i ≡ some d
      → merge_loop w l (i ∷ ids) n
        ≡ merge_loop w l ids
            (moved w l (record { doc_id = i; doc = d; modified = left_modified }) n)
  unfolding merge_loop message_create
  merge_loop_step w l i ids d n e = rw (merge_loop, message_create, e) refl

  merge_loop-Merged :
      (w l : Bytes) (ids : List ℕ) (n : Notmuch X)
      → length w < 245
      → length l < 245
      → ((i : ℕ) → mem_id ids i ≡ true → InThread n i l ⊎ InThread n i w)
      → Returns
          (λ _ n'. Merged w l n n' × ((i : ℕ) → mem_id ids i ≡ true → InThread n' i w))
          (merge_loop w l ids n)
  unfolding merge_loop
  merge_loop-Merged w l [] n hw hl h = (Merged-refl w l n, λ i e. absurd (ground arith))
  merge_loop-Merged w l (i ∷ ids) n hw hl h =
      let (t, tw, it) = one_of w l i n (h i (ground (arith, ==_refl i))) in
      let m : Entry X = record { doc_id = i; doc = it.doc; modified = left_modified } in
      let a = moved-Merged w l t m n hw hl tw it.found it.has in
      let b = moved-InThread w l t m n hw hl tw it.has in
      let n1 = moved w l m n in
      let rest = merge_loop-Merged w l ids n1 hw hl (λ j e. elim (h j (ground arith)) [
        | inl k ↦ elim (a.threads j l k) [ inl k' ↦ inl k' | inr (_, k') ↦ inr k' ]
        | inr k ↦ elim (a.threads j w k) [ inl k' ↦ inr k' | inr (_, k') ↦ inr k' ]
      ]) in
      let both =
        Returns-map _
          (λ _ n'. Merged w l n n' × ((j : ℕ) → mem_id (i ∷ ids) j ≡ true → InThread n' j w))
          (merge_loop w l ids n1)
          (λ _ n' r. (
            Merged-trans w l n n1 n' a r.0,
            λ j e. elim (Bool-cases (i == j)) [
              | inl eq ↦
                  let there : InThread n1 j w =
                    subst (λ x. InThread n1 x w) ((==_iff i j).0 eq) b in
                  stays w l n1 n' j r.0 there
              | inr ne ↦ r.1 j (ground arith)
            ],
          ))
          rest in
      subst (Returns _) (sym (merge_loop_step w l i ids it.doc n it.found)) both

  merged-Step :
      (w l : Bytes) (n n' : Notmuch X)
      → Merged w l n n'
      → ((i : ℕ) → mem_id (postings n.db thread l) i ≡ true → InThread n' i w)
      → Step (merge_label w l) n n'
  merged-Step w l n n' a h = record {
    threads = λ i t k. elim (Bool-cases (str_equal l t)) [
      | inl e ↦
          let same : t ≡ l = sym ((str_equal_iff l t).0 e) in
          let listed : mem_tag (values k.doc thread) l ≡ true =
            k.has.1 l ∙ ap (λ x. str_equal x l) same ∙ str_equal_refl l in
          rw e (h i (postings-complete n.db thread l i k.doc k.found listed))
      | inr e ↦ elim (a.threads i t k) [
        | inl k' ↦ rw e k'
        | inr (same, k') ↦ absurd (ground (arith, str_equal_iff l t))
      ]
    ];
    ids = a.ids;
  }

  -- In a database in which every message is in one thread and no two documents share an id, merging
  -- the thread `l` into `w`, where both names fit in a term, succeeds: the documents of `l` are then
  -- in `w`, and those of each other thread in that thread. The database stays such, every document
  -- has the ids that it had, and no identifier is given out or filled.
  pub merge_threads-Step :
      (w l : Bytes) (n : Notmuch X)
      → WellFormed n
      → length w < 245
      → length l < 245
      → Returns
          (λ _ n'.
            Step (merge_label w l) n n'
            × WellFormed n'
            × (n'.last_doc_id ≡ n.last_doc_id)
            × (n'.ghosts ≡ n.ghosts)
            × Leaves n n'
            × ((i : ℕ) (key : Bytes) → HasId n' i key → HasId n i key))
          (merge_threads w l n)
  unfolding merge_threads
  merge_threads-Step w l n wf hw hl =
      Returns-map _ _ (merge_threads w l n)
        (λ _ n' r. (
          merged-Step w l n n' r.0 r.1,
          r.0.form wf,
          r.0.same_last,
          r.0.same_ghosts,
          record { grown = omega (arith, r.0.same_last); absent = λ i le no. r.0.absent i no },
          r.0.same_ids,
        ))
        (merge_loop-Merged w l (postings n.db thread l) n hw hl (λ i e. inl (listed i e)))
    where
      listed : (i : ℕ) → mem_id (postings n.db thread l) i ≡ true → InThread n i l
      listed i e =
          let (d, f, k) = postings-sound n.db thread l i e in
          let (t, ht) = wf.threaded i d f (thread, l, refl, k) in
          let same : t ≡ l = (str_equal_iff t l).0 (sym (ht.1 l) ∙ k) in
          record { doc = d; found = f; has = subst (λ x. HasThread X d x) same ht }
