-- ===== src/Threads/Entries.antt =====
-- What linking does to the message itself: it keeps its document and its ids.
use notmuch.Prelude.{
  ◌≡◌, ◌∙◌, Bool, true, false, ◌&&◌, ◌||◌, Option, none, some, List, [], ◌∷◌, ltb, ◌+◌, length,
  refl, ap, sym, subst, if◌then◌else◌, Bool-cases, inl, inr,
}
use notmuch.Prelude.Bytes.{Bytes, str_equal}
use notmuch.Message.{mem_tag}
use notmuch.Threads.{
  Xapian, Notmuch, Entry, Outcome, ok, failed, internal_error, bind, Prefix, find_prefix,
  same_prefix, thread, reference, id_term, add_term,
}
use notmuch.Threads.Link.{resolve_message_id_to_thread_id, merge_threads, join_thread, link_parents}
use notmuch.Threads.State.{Returns}
use notmuch.Threads.Parents.{join_same, join_other}

-- A property of what a computation returns, when it returns.
abbrev pub Whenever : {X : Xapian} {A : Type 0} → (A → Type 0) → Outcome X A → Type 0
Whenever P (ok a n) = P a
Whenever P (failed e n) = Unit
Whenever P internal_error = Unit

pub Whenever-bind :
    {X : Xapian} {A B : Type 0} (P : A → Type 0) (Q : B → Type 0) (o : Outcome X A)
    (f : A → Notmuch X → Outcome X B)
    → Whenever P o
    → ((a : A) (n : Notmuch X) → P a → Whenever Q (f a n))
    → Whenever Q (bind o f)
Whenever-bind P Q (ok a n) f h k = k a n h
Whenever-bind P Q (failed e n) f h k = tt
Whenever-bind P Q internal_error f h k = tt

pub Whenever-map :
    {X : Xapian} {A : Type 0} (P Q : A → Type 0) (o : Outcome X A)
    → ((a : A) → P a → Q a)
    → Whenever P o
    → Whenever Q o
Whenever-map P Q (ok a n) f h = f a h
Whenever-map P Q (failed e n) f h = tt
Whenever-map P Q internal_error f h = tt

-- A computation that returns has what holds whenever it returns.
pub Returns-Whenever :
    {X : Xapian} {A : Type 0} (P : A → Notmuch X → Type 0) (Q : A → Type 0) (o : Outcome X A)
    → Returns P o
    → Whenever Q o
    → Returns (λ a n. P a n × Q a) o
Returns-Whenever P Q (ok a n) h k = (h, k)
Returns-Whenever P Q (failed e n) h k = h
Returns-Whenever P Q internal_error h k = h

always : {X : Xapian} {A : Type 0} (o : Outcome X A) → Whenever (λ _. Unit) o
always (ok a n) = tt
always (failed e n) = tt
always internal_error = tt

module _ {X : Xapian} where
  open X use {values, values-doc_add, doc_add}

  pub record SameEntry (m m' : Entry X) : Type 0 where
    pub doc_id : m'.doc_id ≡ m.doc_id
    pub ids : (u : Bytes) → mem_tag (values m'.doc id_term) u ≡ mem_tag (values m.doc id_term) u
    pub modified : m.modified ≡ true → m'.modified ≡ true

  pub SameEntry-refl : (m : Entry X) → SameEntry m m
  SameEntry-refl m = record { doc_id = refl; ids = λ u. refl; modified = λ h. h }

  pub SameEntry-trans : (m m' m'' : Entry X) → SameEntry m m' → SameEntry m' m'' → SameEntry m m''
  SameEntry-trans m m' m'' a b = record {
    doc_id = b.doc_id ∙ a.doc_id;
    ids = λ u. b.ids u ∙ a.ids u;
    modified = λ h. b.modified (a.modified h);
  }

  abbrev added : Prefix → Bytes → Entry X → Entry X
  added p v m = record m { doc = doc_add p v m.doc; modified = true }

  either :
      (b : Bool) (m m' : Entry X)
      → SameEntry m m'
      → SameEntry m (let r : Bool × Entry X = if b then (false, m) else (true, m') in r.1)
  either true m m' h = SameEntry-refl m
  either false m m' h = h

  pub add_term-SameEntry :
      (p : Prefix) (v : Bytes) (m : Entry X)
      → same_prefix p id_term ≡ false
      → SameEntry m (add_term p v m).1
  unfolding add_term
  add_term-SameEntry p v m h =
      either (ltb 245 (length (find_prefix p) + length v)) m (added p v m) (record {
        doc_id = refl;
        ids = λ u.
            values-doc_add p id_term v u m.doc
            ∙ ap (λ b. b && str_equal v u || mem_tag (values m.doc id_term) u) h;
        modified = λ _. refl;
      })

  join_thread-SameEntry :
      (m : Entry X) (o : Option Bytes) (t : Bytes) (n : Notmuch X)
      → Whenever (λ r. SameEntry m r.0) (join_thread m o t n)
  unfolding join_thread
  join_thread-SameEntry m none t n = add_term-SameEntry thread t m refl
  join_thread-SameEntry m (some w) t n = elim (Bool-cases (str_equal w t)) [
    | inl e ↦ subst (Whenever _) (sym (join_same m w t n e)) (SameEntry-refl m)
    | inr e ↦ subst (Whenever _) (sym (join_other m w t n e)) (
        Whenever-bind _ _ (merge_threads w t n) (λ _ n'. ok (m, some w) n')
          (always (merge_threads w t n)) (λ _ n' _. SameEntry-refl m))
  ]

  pub link_parents-SameEntry :
      (ps : List Bytes) (m : Entry X) (o : Option Bytes) (n : Notmuch X)
      → Whenever (λ r. SameEntry m r.0) (link_parents ps m o n)
  unfolding link_parents
  link_parents-SameEntry [] m o n = SameEntry-refl m
  link_parents-SameEntry (p ∷ ps) m o n =
      let m' = (add_term reference p m).1 in
      Whenever-bind (λ _. Unit) (λ r. SameEntry m r.0) (resolve_message_id_to_thread_id n p)
        (λ t n'. bind (join_thread m' o t n') (λ r n''. link_parents ps r.0 r.1 n''))
        (always (resolve_message_id_to_thread_id n p))
        (λ t n' _.
          Whenever-bind (λ r. SameEntry m' r.0) (λ r. SameEntry m r.0) (join_thread m' o t n')
            (λ r n''. link_parents ps r.0 r.1 n'') (join_thread-SameEntry m' o t n')
            (λ r n'' a.
              Whenever-map (λ r'. SameEntry r.0 r'.0) (λ r'. SameEntry m r'.0)
                (link_parents ps r.0 r.1 n'')
                (λ r' b.
                  SameEntry-trans m m' r'.0 (add_term-SameEntry reference p m refl)
                    (SameEntry-trans m' r.0 r'.0 a b))
                (link_parents-SameEntry ps r.0 r.1 n'')))
