-- ===== src/Threads/State.antt =====
-- What the threads of a database are, and the steps between two of its states.
use notmuch.Prelude.{
  ◌||◌, ℕ, ◌<◌, true, none, some, List, [], ◌∷◌, ◌≡◌, ◌≤◌, ◌∙◌, sym, refl, subst, arith, length,
}
use notmuch.Prelude.Bytes.{Bytes, str_equal, str_equal_iff}
use mathlib.Core.Option.{some-injective}
use notmuch.Message.{mem_tag}
use notmuch.Threads.{
  Prefix, same_prefix, Xapian, Notmuch, Outcome, ok, failed, internal_error, bind, thread, id_term,
  first_of, mem_id,
}

-- A computation that returns, with a property of what it returns.
abbrev pub Returns : {X : Xapian} {A : Type 0} → (A → Notmuch X → Type 0) → Outcome X A → Type 0
Returns P (ok a n) = P a n
Returns P (failed e n) = ⊥
Returns P internal_error = ⊥

pub Returns-bind :
    {X : Xapian} {A B : Type 0} (P : A → Notmuch X → Type 0) (Q : B → Notmuch X → Type 0)
    (o : Outcome X A) (f : A → Notmuch X → Outcome X B)
    → Returns P o
    → ((a : A) (n : Notmuch X) → P a n → Returns Q (f a n))
    → Returns Q (bind o f)
Returns-bind P Q (ok a n) f h k = k a n h
Returns-bind P Q (failed e n) f h k = elim h [ ]
Returns-bind P Q internal_error f h k = elim h [ ]

pub Returns-map :
    {X : Xapian} {A : Type 0} (P Q : A → Notmuch X → Type 0) (o : Outcome X A)
    → ((a : A) (n : Notmuch X) → P a n → Q a n)
    → Returns P o
    → Returns Q o
Returns-map P Q (ok a n) f h = f a n h
Returns-map P Q (failed e n) f h = h
Returns-map P Q internal_error f h = h

pub str_equal_refl : (a : Bytes) → str_equal a a ≡ true
str_equal_refl a = (str_equal_iff a a).1 refl

-- A list with the elements of a singleton starts with its element.
pub first_of_only :
    (t : Bytes) (xs : List Bytes)
    → ((u : Bytes) → mem_tag xs u ≡ str_equal t u)
    → first_of xs ≡ some t
first_of_only t [] h = absurd (ground (arith, h t, str_equal_refl t))
first_of_only t (x ∷ xs) h = ground (arith, h x, str_equal_refl x, str_equal_iff t x)

pub first_of-mem : (xs : List ℕ) (i : ℕ) → first_of xs ≡ some i → mem_id xs i ≡ true
first_of-mem [] i h = ground arith
first_of-mem (x ∷ xs) i h = ground arith

pub first_of-none : (xs : List ℕ) (i : ℕ) → first_of xs ≡ none → mem_id xs i ≡ true → ⊥
first_of-none [] i e h = ground arith
first_of-none (x ∷ xs) i e h = ground arith

module _ (X : Xapian) where
  open X use {Doc, values}

  -- The document has this thread term and no other, and the term can be stored.
  abbrev pub HasThread : Doc → Bytes → Type 0
  HasThread d t = (length t < 245) × ((u : Bytes) → mem_tag (values d thread) u ≡ str_equal t u)

  -- A document of a message or a ghost, and not of a directory, has an id or a thread.
  abbrev pub OfMessage : Doc → Type 0
  OfMessage d =
      (p : Prefix) × (v : Bytes) × ((same_prefix p id_term || same_prefix p thread) ≡ true)
      × (mem_tag (values d p) v ≡ true)

  pub HasThread-unique : (d : Doc) (t t' : Bytes) → HasThread d t → HasThread d t' → t ≡ t'
  HasThread-unique d t t' h h' = (str_equal_iff t t').0 (sym (h.1 t') ∙ h'.1 t' ∙ str_equal_refl t')

module _ {X : Xapian} where
  open X use {Doc, values, get_document, get-replace, values-set_last_mod}

  -- Document `i` of the database is in thread `t`.
  pub record InThread (n : Notmuch X) (i : ℕ) (t : Bytes) : Type 0 where
    pub doc : Doc
    pub found : get_document n.db i ≡ some doc
    pub has : HasThread X doc t

  -- Document `i` has the id term of `key`.
  pub record HasId (n : Notmuch X) (i : ℕ) (key : Bytes) : Type 0 where
    pub doc : Doc
    pub found : get_document n.db i ≡ some doc
    pub has : mem_tag (values doc id_term) key ≡ true

  -- Every document of a message is in one thread, the identifiers after the last one are free, and
  -- no two documents have the same id.
  pub record WellFormed (n : Notmuch X) : Type 0 where
    pub threaded :
        (i : ℕ) (d : Doc)
        → get_document n.db i ≡ some d
        → OfMessage X d
        → (t : Bytes) × HasThread X d t
    pub free : (i : ℕ) → n.last_doc_id < i → get_document n.db i ≡ none
    pub unique : (i j : ℕ) (key : Bytes) → HasId n i key → HasId n j key → i ≡ j

  -- Every document stays, with its ids; the threads are relabelled by `f`, so that documents that
  -- shared a thread share one afterwards.
  pub record Step (f : Bytes → Bytes) (n n' : Notmuch X) : Type 0 where
    pub threads : (i : ℕ) (t : Bytes) → InThread n i t → InThread n' i (f t)
    pub ids : (i : ℕ) (key : Bytes) → HasId n i key → HasId n' i key

  -- Identifiers that were given out and hold no document still hold none.
  pub record Leaves (n n' : Notmuch X) : Type 0 where
    pub grown : n.last_doc_id ≤ n'.last_doc_id
    pub absent :
        (i : ℕ) → i ≤ n.last_doc_id → get_document n.db i ≡ none → get_document n'.db i ≡ none

  pub Leaves-refl : (n : Notmuch X) → Leaves n n
  Leaves-refl n = record { grown = omega arith; absent = λ i l h. h }

  pub Leaves-trans : (n n' n'' : Notmuch X) → Leaves n n' → Leaves n' n'' → Leaves n n''
  Leaves-trans n n' n'' a b = record {
    grown = omega (arith, a.grown, b.grown);
    absent = λ i l h. b.absent i (omega (arith, a.grown)) (a.absent i l h);
  }

  pub step_refl : (n : Notmuch X) → Step (λ t. t) n n
  step_refl n = record { threads = λ i t h. h; ids = λ i k h. h }

  -- No document that was there has changed.
  pub step_kept :
      (n n' : Notmuch X)
      → ((i : ℕ) (d : Doc) → get_document n.db i ≡ some d → get_document n'.db i ≡ some d)
      → Step (λ t. t) n n'
  step_kept n n' h = record {
    threads = λ i t k. record { doc = k.doc; found = h i k.doc k.found; has = k.has };
    ids = λ i key k. record { doc = k.doc; found = h i k.doc k.found; has = k.has };
  }

  pub step_trans :
      (f g : Bytes → Bytes) (n n' n'' : Notmuch X)
      → Step f n n'
      → Step g n' n''
      → Step (λ t. g (f t)) n n''
  step_trans f g n n' n'' a b = record {
    threads = λ i t h. b.threads i (f t) (a.threads i t h);
    ids = λ i k h. b.ids i k (a.ids i k h);
  }

  pub document_unique :
      (n : Notmuch X) (i : ℕ) (d d' : Doc)
      → get_document n.db i ≡ some d
      → get_document n.db i ≡ some d'
      → d ≡ d'
  document_unique n i d d' e e' = some-injective _ _ (sym e ∙ e')

  pub InThread-HasThread :
      (n : Notmuch X) (i : ℕ) (t : Bytes) (d : Doc)
      → InThread n i t
      → get_document n.db i ≡ some d
      → HasThread X d t
  InThread-HasThread n i t d h e =
      subst (λ x. HasThread X x t) (document_unique n i h.doc d h.found e) h.has

  -- A document of the database has an identifier that was given out.
  pub WellFormed-le :
      (n : Notmuch X) (i : ℕ) (d : Doc)
      → WellFormed n
      → get_document n.db i ≡ some d
      → i ≤ n.last_doc_id
  WellFormed-le n i d w e = ground (arith, w.free i)
