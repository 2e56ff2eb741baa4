-- ===== src/Threads/Add.antt =====
-- lib/database.cc: the part of notmuch_database_add_message that changes documents.
pub mod Blank
pub mod Added
use notmuch.Prelude.{Bool, true, false, not, Option, none, some, List, [], ◌∷◌, if◌then◌else◌}
use notmuch.Prelude.Bytes.{Bytes, codes, str_equal}
use notmuch.Threads.{
  Xapian, Notmuch, Entry, Outcome, ok, failed, internal_error, bind, first_of, id_term, type_term,
  add_term, remove_term, sync, create_for_message_id,
}
use notmuch.Threads.Link.{link_message}

-- The ids that the headers of a file give.
pub record References : Type 0 where
  pub message_id : Bytes
  pub parents : List Bytes
  pub last_ref : Option Bytes
  pub in_reply_to : Option Bytes

module _ {X : Xapian} where
  open X use {values}

  -- notmuch_message_get_flag for NOTMUCH_MESSAGE_FLAG_GHOST; `none` is an internal error.
  unfoldable pub ghost_flag : Entry X → Option Bool
  ghost_flag m = elim (first_of (values m.doc type_term)) [
    | none ↦ none
    | some t ↦
        if str_equal t (codes "mail")
        then some false
        else if str_equal t (codes "ghost")
        then some true
        else none
  ]

  -- The type terms of a message that was blank or a ghost.
  unfoldable pub become_mail : Bool → Entry X → Entry X
  unfolding add_term remove_term
  become_mail is_ghost m =
      let mail = (add_term type_term (codes "mail") m).1 in
      if is_ghost then remove_term type_term (codes "ghost") mail else mail

  -- notmuch_message_get_message_id: the id under which the message is stored, which is a sum for a
  -- long one. Without one there is an internal error.
  abbrev pub get_message_id : Entry X → Option Bytes
  get_message_id m = first_of (values m.doc id_term)

  -- What is done for a message that was blank or a ghost. `index` adds the terms and values of the
  -- headers and the text.
  unfoldable pub link_and_index :
      (Entry X → Entry X) → References → Bool → Entry X → Notmuch X → Outcome X (Option Bytes)
  unfolding become_mail link_message sync
  link_and_index index refs is_ghost m n = elim (get_message_id m) [
    | none ↦ internal_error
    | some message_id ↦
        bind
          (link_message message_id refs.parents refs.last_ref refs.in_reply_to is_ghost
            (become_mail is_ghost m) n)
          (λ r n'. ok (some r.1) (sync (index r.0) n'))
  ]

  -- From the message id on; the thread, or `none` for NOTMUCH_STATUS_DUPLICATE_MESSAGE_ID.
  -- `add_filename` adds the terms of the file's name.
  unfoldable pub add_document :
      (Entry X → Entry X) → (Entry X → Entry X) → References → Notmuch X → Outcome X (Option Bytes)
  unfolding create_for_message_id ghost_flag link_and_index sync
  add_document add_filename index refs n = bind (create_for_message_id n refs.message_id) (λ r n'.
      let m = add_filename r.1 in
      if not r.0 then link_and_index index refs false m n' else elim (ghost_flag m) [
        | none ↦ internal_error
        | some true ↦ link_and_index index refs true m n'
        | some false ↦ ok none (sync m n')
      ])
