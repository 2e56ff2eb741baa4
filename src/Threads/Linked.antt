-- ===== src/Threads/Linked.antt =====
-- What a part of linking a message does, and what a message carries meanwhile.
use notmuch.Prelude.{
  or_false, ℕ, ◌+◌, ◌<◌, ◌≤◌, false, ◌&&◌, ◌||◌, Option, none, some, List, [], ◌∷◌, ◌≡◌, ◌∙◌, ◌⊎◌,
  inl, inr, refl, subst, ap, arith, length, All, Bool-cases, ltb, le→ltb,
}
use notmuch.Prelude.Bytes.{Bytes, str_equal}
use notmuch.Message.{mem_tag}
use notmuch.Threads.{
  Xapian, Notmuch, Entry, thread, id_key, add_term, Prefix, same_prefix, find_prefix,
}
use notmuch.Threads.State.{
  Leaves, Leaves-refl, Leaves-trans, HasThread, InThread, HasId, WellFormed, Step, step_refl,
  step_trans,
}

-- The id is that of one of the messages.
abbrev pub OneOf : (Bytes → Bytes) → List Bytes → Bytes → Type 0
OneOf sha1 [] key = ⊥
OneOf sha1 (p ∷ ps) key = (id_key sha1 p ≡ key) ⊎ OneOf sha1 ps key

module _ (X : Xapian) where
  open X use {Doc, values, values-doc_add}

  -- The thread terms of a message in the making are those of the thread found so far.
  abbrev pub Carries : Entry X → Option Bytes → Type 0
  Carries m none = (u : Bytes) → mem_tag (values m.doc thread) u ≡ false
  Carries m (some w) = HasThread X m.doc w

  -- A term with another prefix changes no thread.
  abbrev OtherPrefix : Prefix → Type 0
  OtherPrefix p = same_prefix p thread ≡ false

  pub add_term-thread :
      (p : Prefix) (v u : Bytes) (m : Entry X)
      → OtherPrefix p
      → mem_tag (values (add_term p v m).1.doc thread) u ≡ mem_tag (values m.doc thread) u
  unfolding add_term
  add_term-thread p v u m h = elim (Bool-cases (ltb 245 (length (find_prefix p) + length v))) [
    | inl e ↦ rw (add_term, e) refl
    | inr e ↦
        rw (add_term, e)
          (values-doc_add p thread v u m.doc
            ∙ ap (λ b. b && str_equal v u || mem_tag (values m.doc thread) u) h)
  ]

  pub add_term-Carries :
      (p : Prefix) (v : Bytes) (m : Entry X) (o : Option Bytes)
      → OtherPrefix p
      → Carries m o
      → Carries (add_term p v m).1 o
  add_term-Carries p v m none h c = λ u. add_term-thread p v u m h ∙ c u
  add_term-Carries p v m (some w) h c = (c.0, λ u. add_term-thread p v u m h ∙ c.1 u)

  -- The first thread found.
  pub add_term-first :
      (t : Bytes) (m : Entry X)
      → length t < 245
      → Carries m none
      → Carries (add_term thread t m).1 (some t)
  unfolding add_term
  add_term-first t m lt c = (
    lt,
    λ u.
        rw (add_term, le→ltb (1 + length t) 245 (omega arith))
          (values-doc_add thread thread t u m.doc
            ∙ ap (λ b. str_equal t u || b) (c u)
            ∙ or_false (str_equal t u)),
  )

module _ {X : Xapian} where
  open X use {sha1}

  -- What a part of linking does: it relabels threads, the one found before stays, and it uses at
  -- most an identifier for each of the message ids `ps`, and adds no other ids.
  pub record Linked (ps : List Bytes) (o : Option Bytes) (n : Notmuch X)
      (r : Entry X × Option Bytes) (n' : Notmuch X) : Type 0 where
    pub label : Bytes → Bytes
    pub relabelled : Step label n n'
    pub form : WellFormed n'
    pub used : n'.last_doc_id ≤ n.last_doc_id + length ps
    pub new_ids : (i : ℕ) (key : Bytes) → HasId n' i key → HasId n i key ⊎ OneOf sha1 ps key
    pub same_ghosts : n'.ghosts ≡ n.ghosts
    pub leaves : Leaves n n'
    pub carries : Carries X r.0 r.1
    pub winner : (w : Bytes) → o ≡ some w → (r.1 ≡ some w) × (label w ≡ w)

  -- There is a document of the message id, it is in the thread, and no other has that id.
  pub record Member (o : Option Bytes) (n : Notmuch X) (message_id : Bytes) : Type 0 where
    pub doc_id : ℕ
    pub thread_id : Bytes
    pub found_thread : o ≡ some thread_id
    pub identified : HasId n doc_id (id_key sha1 message_id)
    pub threaded : InThread n doc_id thread_id
    pub only : (i : ℕ) → HasId n i (id_key sha1 message_id) → i ≡ doc_id

  pub Linked-trans :
      (k k' j : List Bytes) (o : Option Bytes) (n n' n'' : Notmuch X)
      (r r' : Entry X × Option Bytes)
      → length j ≡ length k + length k'
      → ((key : Bytes) → OneOf sha1 k key → OneOf sha1 j key)
      → ((key : Bytes) → OneOf sha1 k' key → OneOf sha1 j key)
      → Linked k o n r n'
      → Linked k' r.1 n' r' n''
      → Linked j o n r' n''
  Linked-trans k k' j o n n' n'' r r' e sub sub' a b = record {
    label = λ t. b.label (a.label t);
    relabelled = step_trans a.label b.label n n' n'' a.relabelled b.relabelled;
    form = b.form;
    used = omega (arith, a.used, b.used);
    new_ids = λ i key h. elim (b.new_ids i key h) [
      | inl h' ↦ elim (a.new_ids i key h') [ inl h'' ↦ inl h'' | inr x ↦ inr (sub key x) ]
      | inr x ↦ inr (sub' key x)
    ];
    same_ghosts = b.same_ghosts ∙ a.same_ghosts;
    leaves = Leaves-trans n n' n'' a.leaves b.leaves;
    carries = b.carries;
    winner = λ w e.
        let (e', f) = a.winner w e in let (e'', g) = b.winner w e' in (e'', ap b.label f ∙ g);
  }

  pub Member-stays :
      (k : List Bytes) (o : Option Bytes) (n n' : Notmuch X) (r : Entry X × Option Bytes)
      (p : Bytes)
      → Linked k o n r n'
      → Member o n p
      → Member r.1 n' p
  Member-stays k o n n' r p a h =
      let (e, f) = a.winner h.thread_id h.found_thread in
      record {
        doc_id = h.doc_id;
        thread_id = h.thread_id;
        found_thread = e;
        identified = a.relabelled.ids h.doc_id (id_key sha1 p) h.identified;
        only = λ i d.
            a.form.unique i h.doc_id (id_key sha1 p) d
              (a.relabelled.ids h.doc_id (id_key sha1 p) h.identified);
        threaded =
            subst (λ t. InThread n' h.doc_id t) f
              (a.relabelled.threads h.doc_id h.thread_id h.threaded);
      }

  pub nothing_done :
      (m : Entry X) (o : Option Bytes) (n : Notmuch X)
      → WellFormed n
      → Carries X m o
      → Linked [] o n (m, o) n
  nothing_done m o n wf c = record {
    label = λ x. x;
    relabelled = step_refl n;
    form = wf;
    used = omega arith;
    new_ids = λ i key h. inl h;
    same_ghosts = refl;
    leaves = Leaves-refl n;
    carries = c;
    winner = λ w e. (e, refl);
  }

  pub Member-All :
      (k : List Bytes) (o : Option Bytes) (n n' : Notmuch X) (r : Entry X × Option Bytes)
      (ps : List Bytes)
      → Linked k o n r n'
      → All (Member o n) ps
      → All (Member r.1 n') ps
  Member-All k o n n' r [] a h = h
  Member-All k o n n' r (p ∷ ps) a h =
      (Member-stays k o n n' r p a h.0, Member-All k o n n' r ps a h.1)
