-- ===== src/Message.antt =====
-- lib/message.cc: the tags of a message, its freeze count, and when the document is written to the
-- database. The Xapian document is a parameter, by what its documentation says of terms.
pub mod Stored
use notmuch.Prelude.{
  ℕ, ◌+◌, ◌-◌, Bool, true, false, not, ◌&&◌, ◌||◌, Option, none, some, List, [], ◌∷◌, ltb, ◌==◌,
  if◌then◌else◌, length, ◌≡◌,
}
use notmuch.Prelude.Bytes.{Bytes, str_equal}

-- Whether a tag stands in a list of tags.
abbrev pub mem_tag : List Bytes → Bytes → Bool
mem_tag [] t = false
mem_tag (x ∷ xs) t = str_equal x t || mem_tag xs t

-- The tag terms of a Xapian::Document. Removing a term that is not there throws
-- InvalidArgumentError, here `none`.
pub record Document : Type 1 where
  pub Doc : Type 0
  pub tag_list : Doc → List Bytes
  pub add_term : Bytes → Doc → Doc
  pub remove_term : Bytes → Doc → Option Doc
  pub tags-add_term :
      (t u : Bytes) (d : Doc)
      → mem_tag (tag_list (add_term t d)) u ≡ (str_equal t u || mem_tag (tag_list d) u)
  pub tags-remove_term :
      (t u : Bytes) (d d' : Doc)
      → remove_term t d ≡ some d'
      → mem_tag (tag_list d') u ≡ (if str_equal t u then false else mem_tag (tag_list d) u)
  pub remove_absent :
      (t : Bytes) (d : Doc) → remove_term t d ≡ none → mem_tag (tag_list d) t ≡ false

pub data Status : Type 0 where
  success read_only_database tag_too_long unbalanced_freeze_thaw : Status
  other_error : ℕ → Status

abbrev pub tag_max : ℕ
tag_max = 200

module _ (X : Document) where
  open X use {Doc, tag_list, add_term, remove_term}

  -- `stored` is the document as the database holds it.
  pub record Message : Type 0 where
    pub doc : Doc
    pub stored : Doc
    pub modified : Bool
    pub frozen : ℕ
    pub read_only : Bool

module _ {X : Document} where
  open X use {Doc, tag_list, add_term, remove_term}

  abbrev pub tags : Message X → List Bytes
  tags m = tag_list m.doc

  -- _notmuch_message_sync
  unfoldable pub sync : Message X → Message X
  sync m =
      if m.read_only
      then m
      else if not m.modified
      then m
      else record m { stored = m.doc; modified = false }

  abbrev pub sync_unless_frozen : Message X → Message X
  sync_unless_frozen m = if m.frozen == 0 then sync m else m

  -- _notmuch_message_add_term for the prefix "tag": the term fits in a Xapian key, as the tag has
  -- at most tag_max bytes.
  unfoldable pub add_tag_term : Message X → Bytes → Message X
  add_tag_term m tag = record m { doc = add_term tag m.doc; modified = true }

  unfoldable pub remove_tag_term : Message X → Bytes → Message X
  remove_tag_term m tag = elim (remove_term tag m.doc) [
    | none ↦ m
    | some d ↦ record m { doc = d; modified = true }
  ]

  unfoldable pub add_tag : Message X → Bytes → Status × Message X
  unfolding add_tag_term sync
  add_tag m tag =
      if m.read_only
      then (read_only_database, m)
      else if ltb tag_max (length tag)
      then (tag_too_long, m)
      else (success, sync_unless_frozen (add_tag_term m tag))

  unfoldable pub remove_tag : Message X → Bytes → Status × Message X
  unfolding remove_tag_term sync
  remove_tag m tag =
      if m.read_only
      then (read_only_database, m)
      else if ltb tag_max (length tag)
      then (tag_too_long, m)
      else (success, sync_unless_frozen (remove_tag_term m tag))

  -- The loop of notmuch_message_remove_all_tags, over the list as it was at its start.
  unfoldable pub remove_terms : List Bytes → Message X → Message X
  unfolding remove_tag_term
  remove_terms [] m = m
  remove_terms (t ∷ ts) m = remove_terms ts (remove_tag_term m t)

  unfoldable pub remove_all_tags : Message X → Status × Message X
  unfolding remove_terms sync
  remove_all_tags m =
      if m.read_only
      then (read_only_database, m)
      else (success, sync_unless_frozen (remove_terms (tags m) m))

  unfoldable pub freeze : Message X → Status × Message X
  freeze m =
      if m.read_only then (read_only_database, m) else (success, record m { frozen = m.frozen + 1 })

  unfoldable pub thaw : Message X → Status × Message X
  unfolding sync
  thaw m =
      if m.read_only
      then (read_only_database, m)
      else if ltb 0 m.frozen
      then (let m' = record m { frozen = m.frozen - 1 } in (success, sync_unless_frozen m'))
      else (unbalanced_freeze_thaw, m)
