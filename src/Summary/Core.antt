-- ===== src/Summary/Core.antt =====
-- What the steps of a thread's summary do to its counts, dates and messages.
use notmuch.Prelude.{
  ℕ, ◌+◌, ◌≡◌, ◌∙◌, Bool, true, false, not, ◌||◌, Option, none, some, List, [], ◌∷◌, ◌++◌, ◌==◌,
  if◌then◌else◌, refl, ap,
}
use notmuch.Prelude.Bytes.{Bytes}
use notmuch.Prelude.Int.{ℤ, ltb_ℤ}
use notmuch.Summary.{
  Mail, Sort, Thread, add_author, add_matched_author, cleanup_author, add_message, set_subject,
  note_oldest, note_newest, add_matched_message, clean_subject, is_nil, is_oldest_first, or_empty,
}

-- The part of a summary that is counts, dates and messages.
abbrev pub Core : Type 0
Core = ℕ × ℤ × ℤ × ℕ × List Mail

abbrev pub core : Thread → Core
core t = (t.matched_messages, t.oldest, t.newest, t.total_messages, t.message_list)

core_if :
    (b : Bool) (t u : Thread) (k : Core) → core t ≡ k → core u ≡ k → core (if b then t else u) ≡ k
core_if true t u k h g = h
core_if false t u k h g = g

set_subject-core : (t : Thread) (s : Option Bytes) → core (set_subject t s) ≡ core t
unfolding set_subject
set_subject-core t none = refl
set_subject-core t (some s) =
    core_if (is_nil (clean_subject s)) t (record t { subject = some (clean_subject s) }) (core t)
      refl refl

add_author-core : (t : Thread) (a : Option Bytes) → core (add_author t a) ≡ core t
unfolding add_author
add_author-core t none = refl
add_author-core t (some a) = refl

add_matched_author-core : (t : Thread) (a : Option Bytes) → core (add_matched_author t a) ≡ core t
unfolding add_matched_author
add_matched_author-core t none = refl
add_matched_author-core t (some a) = refl

abbrev pub with_oldest : ℤ → Core → Core
with_oldest d c = (c.0, (if ltb_ℤ d c.1 || c.0 == 0 then d else c.1), c.2, c.3, c.4)

abbrev pub with_newest : ℤ → Core → Core
with_newest d c = (c.0, c.1, (if ltb_ℤ c.2 d || c.0 == 0 then d else c.2), c.3, c.4)

pick_oldest :
    (b : Bool) (x t : Thread) (d : ℤ)
    → core x ≡ (t.matched_messages, d, t.newest, t.total_messages, t.message_list)
    → core (if b then x else t) ≡ (
      t.matched_messages,
      (if b then d else t.oldest),
      t.newest,
      t.total_messages,
      t.message_list,
    )
pick_oldest true x t d h = h
pick_oldest false x t d h = refl

pick_newest :
    (b : Bool) (x t : Thread) (d : ℤ)
    → core x ≡ (t.matched_messages, t.oldest, d, t.total_messages, t.message_list)
    → core (if b then x else t) ≡ (
      t.matched_messages,
      t.oldest,
      (if b then d else t.newest),
      t.total_messages,
      t.message_list,
    )
pick_newest true x t d h = h
pick_newest false x t d h = refl

note_oldest-core :
    (sort : Sort) (m : Mail) (t : Thread)
    → core (note_oldest sort m t) ≡ with_oldest m.date (core t)
unfolding note_oldest
note_oldest-core sort m t =
    let t' = record t { oldest = m.date } in
    pick_oldest (ltb_ℤ m.date t.oldest || t.matched_messages == 0)
      (if is_oldest_first sort then set_subject t' m.subject else t') t m.date
      (core_if (is_oldest_first sort) (set_subject t' m.subject) t' (core t')
        (set_subject-core t' m.subject) refl)

note_newest-core :
    (sort : Sort) (m : Mail) (t : Thread)
    → core (note_newest sort m t) ≡ with_newest m.date (core t)
unfolding note_newest
note_newest-core sort m t =
    let t' = record t { newest = m.date } in
    let b = not (is_oldest_first sort) || is_nil (or_empty t.subject) in
    pick_newest (ltb_ℤ t.newest m.date || t.matched_messages == 0)
      (if b then set_subject t' m.subject else t') t m.date
      (core_if b (set_subject t' m.subject) t' (core t') (set_subject-core t' m.subject) refl)

-- One message more that is counted, or not.
abbrev pub count_one : Bool → Core → Core
count_one excluded c = (if excluded then c.0 else c.0 + 1, c.1, c.2, c.3, c.4)

count_core :
    (b : Bool) (t : Thread)
    → core (if b then t else record t { matched_messages = t.matched_messages + 1 })
      ≡ count_one b (core t)
count_core true t = refl
count_core false t = refl

pub add_matched_message-core :
    (strcasestr : Bytes → Bytes → Bool) (sort : Sort) (excluded : Bool) (t : Thread) (m : Mail)
    → core (add_matched_message strcasestr sort excluded t m)
      ≡ count_one excluded (with_newest m.date (with_oldest m.date (core t)))
unfolding add_matched_message
add_matched_message-core strcasestr sort excluded t m =
    let t1 = note_oldest sort m t in
    let t2 = note_newest sort m t1 in
    add_matched_author-core
      (if excluded then t2 else record t2 { matched_messages = t2.matched_messages + 1 })
      (cleanup_author strcasestr m.author m.from)
    ∙ count_core excluded t2
    ∙ ap (count_one excluded)
        (note_newest-core sort m t1 ∙ ap (with_newest m.date) (note_oldest-core sort m t))

abbrev pub listed : Mail → Core → Core
listed m c = (c.0, c.1, c.2, c.3 + 1, c.4 ++ (m ∷ []))

pub add_message-core :
    (strcasestr : Bytes → Bytes → Bool) (t : Thread) (m : Mail)
    → core (add_message strcasestr t m) ≡ listed m (core t)
unfolding add_message
add_message-core strcasestr t m =
    ap (λ (c : Core). (c.0, c.1, c.2, t.total_messages + 1, t.message_list ++ (m ∷ [])))
      (add_author-core t (cleanup_author strcasestr m.author m.from))
