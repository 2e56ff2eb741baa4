-- ===== src/Summary/Dates.antt =====
-- The counts and the dates of a thread's summary.
use notmuch.Prelude.{◌≡◌, ◌⊎◌, Bool, false, not, ◌&&◌, List, [], ◌∷◌, if◌then◌else◌, length, All}
use notmuch.Prelude.Bytes.{Bytes}
use notmuch.Prelude.Int.{ℤ, ◌≤ℤ◌}
use notmuch.Summary.{Mail, Exclude, Thread, message_excluded, omits}
use notmuch.Summary.Core.{Core}
use notmuch.Summary.Bounds.{Bounds, OneDate}

-- The messages that were read, and what the summary says of them.
pub record Sums (ds md : List ℤ) (ms : List Mail) (t : Thread) : Type 0 where
  pub total : t.total_messages ≡ length ms
  pub messages : t.message_list ≡ ms
  pub matched : t.matched_messages ≡ length ds
  pub dates : All (λ d. (t.oldest ≤ℤ d) × (d ≤ℤ t.newest)) ds
  pub taken : (md ≡ []) ⊎ (OneDate md t.oldest × OneDate md t.newest)

abbrev CoreSums : List ℤ → List ℤ → List Mail → Core → Type 0
CoreSums ds md ms c = (c.3 ≡ length ms) × (c.4 ≡ ms) × Bounds ds md c

-- One message: it is left out, or it is in the list, and its date counts if it matches.
abbrev kept : List Bytes → Exclude → Mail → List Mail
kept terms omit m = if message_excluded terms omit m && omits omit then [] else m ∷ []

abbrev dated : List Bytes → Exclude → (Bytes → Bool) → Mail → List ℤ
dated terms omit matches m =
    if matches m.message_id && not (message_excluded terms omit m) then m.date ∷ [] else []

abbrev pub Readable : List Bytes → Exclude → (Bytes → Bool) → Mail → Type 0
Readable terms omit matches m =
    (message_excluded terms omit m && omits omit && matches m.message_id) ≡ false
