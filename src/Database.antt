-- ===== src/Database.antt =====
-- lib/database.cc: atomic sections and the revision numbers of changes.
pub mod Sections
pub mod Features
pub mod Paths
use notmuch.Prelude.{
  ℕ, zero, suc, ◌+◌, ◌-◌, ◌%◌, ◌^◌, Bool, true, false, not, ◌&&◌, ◌||◌, ltb, ◌==◌, if◌then◌else◌,
}

pub data Status : Type 0 where
  success upgrade_required xapian_exception unbalanced_atomic read_only_database : Status

-- What the handle of a database keeps of its sections; `needs_upgrade` is
-- notmuch_database_needs_upgrade.
pub record Handle : Type 0 where
  pub read_only : Bool
  pub needs_upgrade : Bool
  pub atomic_nesting : ℕ
  pub atomic_dirty : Bool
  pub revision : ℕ

-- The revision is an unsigned long.
abbrev pub next_revision : ℕ → ℕ
next_revision r = (r + 1) % 2 ^ 64

unfoldable pub ensure_writable : Handle → Status
ensure_writable h = if h.read_only then read_only_database else success

-- _notmuch_database_new_revision: the number for the next change.
unfoldable pub new_revision : Handle → ℕ × Handle
new_revision h =
    let new = next_revision h.revision in
    if not (h.atomic_nesting == 0)
    then (new, record h { atomic_dirty = true })
    else (new, record h { revision = new })

-- `begun` is whether Xapian begins a transaction without an exception.
unfoldable pub begin_atomic : Bool → Handle → Status × Handle
begin_atomic begun h =
    let nested = record h { atomic_nesting = h.atomic_nesting + 1 } in
    if h.read_only || ltb 0 h.atomic_nesting
    then (success, nested)
    else if h.needs_upgrade
    then (upgrade_required, h)
    else if begun
    then (success, nested)
    else (xapian_exception, h)

abbrev pub commit_revision : Handle → Handle
commit_revision h =
    if h.atomic_dirty
    then record h { revision = next_revision h.revision; atomic_dirty = false }
    else h

abbrev pub leave : Handle → Handle
leave h = record h { atomic_nesting = h.atomic_nesting - 1 }

-- `committed` is whether Xapian commits the transaction without an exception.
unfoldable pub end_atomic : Bool → Handle → Status × Handle
end_atomic committed h =
    if h.atomic_nesting == 0
    then (unbalanced_atomic, h)
    else if h.read_only || ltb 1 h.atomic_nesting
    then (success, leave h)
    else if committed
    then (success, leave (commit_revision h))
    else (xapian_exception, h)
