-- ===== src/Summary/Replies.antt =====
-- lib/thread.cc: which message of a thread stands below which.
pub mod Reach
use notmuch.Prelude.{
  ℕ, zero, suc, ◌+◌, ◌<◌, ◌≤◌, ◌≡◌, ◌∙◌, ◌⊎◌, Option-cases, subst, Bool, true, false, not, ◌&&◌,
  ◌||◌, Option, none, some, List, [], ◌∷◌, ◌++◌, if◌then◌else◌, refl, sym, ap, arith, Bool-cases,
  inl, inr,
}
use mathlib.Core.Option.{none-ne-some, some-injective}
use notmuch.Prelude.Bytes.{Bytes, str_equal, str_equal_iff}
use notmuch.Summary.{Mail, is_nil}

-- The message of an id, as the table of the thread has it: the last one that was put in.
unfoldable pub lookup : List Mail → Bytes → Option Mail
lookup [] message_id = none
lookup (m ∷ ms) message_id =
    let rest = lookup ms message_id in
    elim rest [
      | some p ↦ some p
      | none ↦ if str_equal m.message_id message_id then some m else none
    ]

-- The parent of a message, when it is in the thread.
unfoldable pub parent_of : List Mail → Mail → Option Mail
unfolding lookup
parent_of ms m = if is_nil m.in_reply_to then none else lookup ms m.in_reply_to

-- The messages at the top, and the replies with their parents.
pub record Forest : Type 0 where
  pub toplevel : List Mail
  pub replies : List (Mail × Mail)

-- The loop of _resolve_thread_relationships.
unfoldable pub place : List Mail → Forest → List Mail → Forest
unfolding parent_of
place table f [] = f
place table f (m ∷ ms) = elim (parent_of table m) [
  | none ↦ place table (record f { toplevel = f.toplevel ++ (m ∷ []) }) ms
  | some p ↦ place table (record f { replies = f.replies ++ ((p, m) ∷ []) }) ms
]

unfoldable pub resolve_thread_relationships : List Mail → Forest
unfolding place
resolve_thread_relationships ms = place ms (record { toplevel = []; replies = [] }) ms
