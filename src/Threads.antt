-- ===== src/Threads.antt =====
-- lib/database.cc and lib/message.cc: the threads of messages, and how a new message is linked
-- into them. The Xapian database and the SHA-1 sum are parameters.
pub mod Link
pub mod State
pub mod Written
pub mod Rethread
pub mod Moved
pub mod Merge
pub mod Fresh
pub mod Ghosts
pub mod Linked
pub mod Parents
pub mod Entries
pub mod Linking
pub mod Add
use notmuch.Prelude.{
  ℕ, zero, suc, ◌+◌, ◌*◌, ◌/◌, ◌%◌, ◌^◌, Bool, true, false, not, ◌&&◌, ◌||◌, Option, none, some,
  List, [], ◌∷◌, ◌++◌, ltb, ◌==◌, if◌then◌else◌, length, ◌≡◌,
}
use notmuch.Prelude.Bytes.{Bytes, codes, str_equal}
use notmuch.Database.{next_revision}
use notmuch.HexEscape.{hex_digit}
use notmuch.Message.{mem_tag}

-- The prefix names that linking uses, and _find_prefix on them.
pub data Prefix : Type 0 where
  type_term reference replyto thread id_term : Prefix

abbrev pub find_prefix : Prefix → Bytes
find_prefix type_term = codes "T"
find_prefix reference = codes "XREFERENCE"
find_prefix replyto = codes "XREPLYTO"
find_prefix thread = codes "G"
find_prefix id_term = codes "Q"

abbrev pub same_prefix : Prefix → Prefix → Bool
same_prefix p q = str_equal (find_prefix p) (find_prefix q)

abbrev pub mem_id : List ℕ → ℕ → Bool
mem_id [] i = false
mem_id (x ∷ xs) i = x == i || mem_id xs i

-- A Xapian::WritableDatabase and its documents. `values d p` are the terms of `d` with the prefix
-- `p`, without it, in their order; `postings b p v` are the documents with the term `p` `v`.
-- Removing a term that is not there throws InvalidArgumentError and reading a document that is not
-- there throws DocNotFoundError, here `none`. `set_last_mod` sets the value
-- NOTMUCH_VALUE_LAST_MOD. `left_modified` is what talloc leaves in a new
-- message's flag, and `sha1` the sum of a string.
pub record Xapian : Type 1 where
  pub Doc : Type 0
  pub Db : Type 0
  pub left_modified : Bool
  pub sha1 : Bytes → Bytes
  pub blank : Doc
  pub values : Doc → Prefix → List Bytes
  pub doc_add : Prefix → Bytes → Doc → Doc
  pub doc_remove : Prefix → Bytes → Doc → Option Doc
  pub get_document : Db → ℕ → Option Doc
  pub replace_document : ℕ → Doc → Db → Db
  pub postings : Db → Prefix → Bytes → List ℕ
  pub get_metadata : Db → Bytes → Bytes
  pub set_metadata : Bytes → Bytes → Db → Db
  pub set_last_mod : ℕ → Doc → Doc
  pub values-set_last_mod :
      (r : ℕ) (d : Doc) (p : Prefix) → values (set_last_mod r d) p ≡ values d p
  pub values-blank : (p : Prefix) → values blank p ≡ []
  pub values-doc_add :
      (p q : Prefix) (v u : Bytes) (d : Doc)
      → mem_tag (values (doc_add p v d) q) u
        ≡ (same_prefix p q && str_equal v u || mem_tag (values d q) u)
  pub values-doc_remove :
      (p q : Prefix) (v u : Bytes) (d d' : Doc)
      → doc_remove p v d ≡ some d'
      → mem_tag (values d' q) u
        ≡ (if same_prefix p q && str_equal v u then false else mem_tag (values d q) u)
  pub remove_absent :
      (p : Prefix) (v : Bytes) (d : Doc) → doc_remove p v d ≡ none → mem_tag (values d p) v ≡ false
  pub get-replace :
      (i j : ℕ) (d : Doc) (b : Db)
      → get_document (replace_document i d b) j ≡ (if i == j then some d else get_document b j)
  pub postings-sound :
      (b : Db) (p : Prefix) (v : Bytes) (i : ℕ)
      → mem_id (postings b p v) i ≡ true
      → (d : Doc) × (get_document b i ≡ some d) × (mem_tag (values d p) v ≡ true)
  pub postings-complete :
      (b : Db) (p : Prefix) (v : Bytes) (i : ℕ) (d : Doc)
      → get_document b i ≡ some d
      → mem_tag (values d p) v ≡ true
      → mem_id (postings b p v) i ≡ true
  pub get-set_metadata :
      (k v : Bytes) (b : Db) (i : ℕ) → get_document (set_metadata k v b) i ≡ get_document b i

-- NOTMUCH_TERM_MAX and NOTMUCH_MESSAGE_ID_MAX
abbrev pub term_max : ℕ
term_max = 245

abbrev pub message_id_max : ℕ
message_id_max = 189

module _ (X : Xapian) where
  open X use {Doc, Db}

  -- `ghosts` is NOTMUCH_FEATURE_GHOSTS and `last_mod` NOTMUCH_FEATURE_LAST_MOD. `revision` is the
  -- one before the atomic section in which messages are added.
  pub record Notmuch : Type 0 where
    pub db : Db
    pub last_doc_id : ℕ
    pub last_thread_id : ℕ
    pub ghosts : Bool
    pub last_mod : Bool
    pub revision : ℕ

  pub record Entry : Type 0 where
    pub doc_id : ℕ
    pub doc : Doc
    pub modified : Bool

-- An error status with the state it leaves, or INTERNAL_ERROR, which does not return.
pub data Failure : Type 0 where
  out_of_memory : Failure

pub data Outcome (X : Xapian) (A : Type 0) : Type 0 where
  ok : A → Notmuch X → Outcome X A
  failed : Failure → Notmuch X → Outcome X A
  internal_error : Outcome X A

abbrev pub bind :
    {X : Xapian} {A B : Type 0} → Outcome X A → (A → Notmuch X → Outcome X B) → Outcome X B
bind (ok a n) f = f a n
bind (failed e n) f = failed e n
bind internal_error f = internal_error

abbrev pub first_of : {A : Type 0} → List A → Option A
first_of [] = none
first_of (x ∷ xs) = some x

-- Sixteen hexadecimal digits of a 64-bit number, as PRIx64 with a width of 016 prints it.
unfoldable pub hex_digits : ℕ → ℕ → Bytes
unfolding hex_digit
hex_digits zero x = []
hex_digits (suc k) x = hex_digits k (x / 16) ++ hex_digit (x % 16) ∷ []

-- The id under which a message is stored, with the sum of a string for `sha1`: a long one is
-- replaced by its sum.
unfoldable pub id_key : (Bytes → Bytes) → Bytes → Bytes
id_key sha1 message_id =
    if ltb message_id_max (length message_id)
    then codes "notmuch-sha1-" ++ sha1 message_id
    else message_id

module _ {X : Xapian} where
  open X use {
    Doc, Db, left_modified, sha1, blank, values, doc_add, doc_remove, get_document,
    replace_document, postings, get_metadata, set_metadata, set_last_mod,
  }

  -- _notmuch_message_add_term: whether the term fits, and the message with it.
  unfoldable pub add_term : Prefix → Bytes → Entry X → Bool × Entry X
  add_term p v m =
      if ltb term_max (length (find_prefix p) + length v)
      then (false, m)
      else (true, record m { doc = doc_add p v m.doc; modified = true })

  unfoldable pub remove_term : Prefix → Bytes → Entry X → Entry X
  remove_term p v m =
      if ltb term_max (length (find_prefix p) + length v)
      then m
      else elim (doc_remove p v m.doc) [ none ↦ m | some d ↦ record m { doc = d; modified = true } ]

  -- The document with the revision of its change. _notmuch_database_new_revision leaves the
  -- revision of the database as it is inside an atomic section.
  abbrev pub stamped : Entry X → Notmuch X → Doc
  stamped m n = if n.last_mod then set_last_mod (next_revision n.revision) m.doc else m.doc

  -- _notmuch_message_sync on a database that is open for writing, in an atomic section. No caller
  -- here reads the message's flag afterwards, which is then cleared.
  unfoldable pub sync : Entry X → Notmuch X → Notmuch X
  sync m n =
      if m.modified then record n { db = replace_document m.doc_id (stamped m n) n.db } else n

  abbrev pub get_thread_id : Entry X → Option Bytes
  get_thread_id m = first_of (values m.doc thread)

  unfoldable pub message_create : Notmuch X → ℕ → Option (Entry X)
  message_create n i = elim (get_document n.db i) [
    | none ↦ none
    | some d ↦ some (record { doc_id = i; doc = d; modified = left_modified })
  ]

  unfoldable pub find_message : Notmuch X → Bytes → Outcome X (Option (Entry X))
  unfolding message_create id_key
  find_message n message_id = elim (first_of (postings n.db id_term (id_key sha1 message_id))) [
    | none ↦ ok none n
    | some i ↦ elim (message_create n i) [ none ↦ failed out_of_memory n | some m ↦ ok (some m) n ]
  ]

  -- The identifiers of Xapian have 32 bits.
  unfoldable pub generate_doc_id : Notmuch X → Outcome X ℕ
  generate_doc_id n =
      let i = (n.last_doc_id + 1) % 2 ^ 32 in
      if i == 0 then internal_error else ok i (record n { last_doc_id = i })

  unfoldable pub generate_thread_id : Notmuch X → Bytes × Notmuch X
  unfolding hex_digits
  generate_thread_id n =
      let t = (n.last_thread_id + 1) % 2 ^ 64 in
      let name = hex_digits 16 t in
      (name, record n { db = set_metadata (codes "last_thread_id") name n.db; last_thread_id = t })

  -- _notmuch_message_create_for_message_id: whether the message was there, and the message.
  unfoldable pub create_for_message_id : Notmuch X → Bytes → Outcome X (Bool × Entry X)
  unfolding find_message generate_doc_id id_key
  create_for_message_id n message_id = bind (find_message n message_id) (λ r n'. elim r [
    | some m ↦ ok (true, m) n'
    | none ↦ bind (generate_doc_id n') (λ i n''.
        ok
          (
            false,
            record {
              doc_id = i;
              doc = doc_add id_term (id_key sha1 message_id) blank;
              modified = left_modified;
            },
          )
          n'')
  ])

  unfoldable pub initialize_ghost : Entry X → Bytes → Bool × Entry X
  unfolding add_term
  initialize_ghost m thread_id =
      let typed = add_term type_term (codes "ghost") m in
      let threaded = add_term thread thread_id typed.1 in if typed.0 then threaded else typed
