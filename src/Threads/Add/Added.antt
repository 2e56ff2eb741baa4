-- ===== src/Threads/Add/Added.antt =====
-- Adding a message that is not in the database: it is stored in its thread, with its parents.
use notmuch.Prelude.{◌≡◌, some, All}
use notmuch.Prelude.Bytes.{Bytes}
use notmuch.Threads.{Xapian, Notmuch}
use notmuch.Threads.State.{WellFormed, Step}
use notmuch.Threads.Linked.{Linked, Member}
use notmuch.Threads.Add.{References}

module _ {X : Xapian} where
  open X use {
    Doc, values, postings, postings-complete, sha1, blank, doc_add, get_document, values-doc_add,
    values-blank,
  }

  -- The message is stored in thread `t`, its parents are in that thread, and messages that shared
  -- a thread still do.
  pub record Added (refs : References) (n : Notmuch X) (t : Bytes) (n' : Notmuch X) : Type 0 where
    pub label : Bytes → Bytes
    pub relabelled : Step label n n'
    pub form : WellFormed n'
    pub same_ghosts : n'.ghosts ≡ n.ghosts
    pub stored : Member (some t) n' refs.message_id
    pub parents : All (Member (some t) n') refs.parents
