-- ===== src/Summary/Replies/Reach.antt =====
-- Every message of a thread without circles of replies is reached from the top.
use notmuch.Prelude.{
  ℕ, zero, suc, ◌+◌, ◌<◌, ◌≡◌, ◌∙◌, ◌⊎◌, Option-cases, subst, Option, none, some, List, [], ◌∷◌,
  ◌++◌, if◌then◌else◌, refl, sym, ap, arith, Bool-cases, inl, inr,
}
use mathlib.Core.Option.{none-ne-some, some-injective}
use notmuch.Prelude.Bytes.{Bytes, str_equal}
use notmuch.Summary.{Mail, is_nil}
use notmuch.Summary.Replies.{lookup, parent_of, Forest, place, resolve_thread_relationships}

abbrev pub In : {A : Type 0} → A → List A → Type 0
In x [] = ⊥
In x (y ∷ ys) = (x ≡ y) ⊎ In x ys

-- A message that is reached from the top by replies.
pub data Shown (f : Forest) : Mail → Type 0 where
  at_top : (m : Mail) → In m f.toplevel → Shown f m
  as_reply : (p m : Mail) → Shown f p → In (p, m) f.replies → Shown f m

In-left : {A : Type 0} (x : A) (xs ys : List A) → In x xs → In x (xs ++ ys)
In-left x [] ys h = absurd h
In-left x (y ∷ xs) ys (inl e) = inl e
In-left x (y ∷ xs) ys (inr h) = inr (In-left x xs ys h)

In-last : {A : Type 0} (x : A) (xs : List A) → In x (xs ++ (x ∷ []))
In-last x [] = inl refl
In-last x (y ∷ xs) = inr (In-last x xs)

-- What stands in a forest stays there.
record Grows (f g : Forest) : Type 0 where
  pub tops : (m : Mail) → In m f.toplevel → In m g.toplevel
  pub below : (r : Mail × Mail) → In r f.replies → In r g.replies

abbrev with_top : Forest → Mail → Forest
with_top f m = record f { toplevel = f.toplevel ++ (m ∷ []) }

abbrev with_reply : Forest → Mail → Mail → Forest
with_reply f p m = record f { replies = f.replies ++ ((p, m) ∷ []) }

place_none : (table : List Mail) (f : Forest) → place table f [] ≡ f
unfolding place
place_none table f = refl

place_top :
    (table : List Mail) (f : Forest) (m : Mail) (ms : List Mail)
    → parent_of table m ≡ none
    → place table f (m ∷ ms) ≡ place table (with_top f m) ms
unfolding place
place_top table f m ms e = rw (place, e) refl

place_reply :
    (table : List Mail) (f : Forest) (m p : Mail) (ms : List Mail)
    → parent_of table m ≡ some p
    → place table f (m ∷ ms) ≡ place table (with_reply f p m) ms
unfolding place
place_reply table f m p ms e = rw (place, e) refl

place-Grows : (table : List Mail) (f : Forest) (ms : List Mail) → Grows f (place table f ms)
place-Grows table f [] =
    subst (Grows f) (sym (place_none table f)) (record { tops = λ x h. h; below = λ x h. h })
place-Grows table f (m ∷ ms) = elim (Option-cases (parent_of table m)) [
  | inl e ↦
      let ih = place-Grows table (with_top f m) ms in
      subst (Grows f) (sym (place_top table f m ms e))
        (record { tops = λ x h. ih.tops x (In-left x f.toplevel (m ∷ []) h); below = ih.below })
  | inr (p, e) ↦
      let ih = place-Grows table (with_reply f p m) ms in
      subst (Grows f) (sym (place_reply table f m p ms e))
        (record { tops = ih.tops; below = λ x h. ih.below x (In-left x f.replies ((p, m) ∷ []) h) })
]

-- A property of the result at every state, for the messages after the first.
place-rest :
    (table : List Mail) (P : Forest → Type 0) (f : Forest) (m : Mail) (ms : List Mail)
    → ((g : Forest) → P (place table g ms))
    → P (place table f (m ∷ ms))
place-rest table P f m ms h = elim (Option-cases (parent_of table m)) [
  | inl e ↦ subst P (sym (place_top table f m ms e)) (h (with_top f m))
  | inr (p, e) ↦ subst P (sym (place_reply table f m p ms e)) (h (with_reply f p m))
]

place-top :
    (table : List Mail) (f : Forest) (ms : List Mail) (m : Mail)
    → In m ms
    → parent_of table m ≡ none
    → In m (place table f ms).toplevel
place-top table f [] m h e = absurd h
place-top table f (x ∷ ms) m (inl same) e =
    let e' = ap (parent_of table) (sym same) ∙ e in
    subst (λ g. In m g.toplevel) (sym (place_top table f x ms e'))
      ((place-Grows table (with_top f x) ms).tops m
        (subst (λ y. In m (f.toplevel ++ (y ∷ []))) same (In-last m f.toplevel)))
place-top table f (x ∷ ms) m (inr h) e =
    place-rest table (λ g. In m g.toplevel) f x ms (λ g. place-top table g ms m h e)

place-reply :
    (table : List Mail) (f : Forest) (ms : List Mail) (m p : Mail)
    → In m ms
    → parent_of table m ≡ some p
    → In (p, m) (place table f ms).replies
place-reply table f [] m p h e = absurd h
place-reply table f (x ∷ ms) m p (inl same) e =
    let e' = ap (parent_of table) (sym same) ∙ e in
    subst (λ (g : Forest). In (p, m) g.replies) (sym (place_reply table f x p ms e'))
      ((place-Grows table (with_reply f p x) ms).below (p, m)
        (subst (λ y. In (p, m) (f.replies ++ ((p, y) ∷ []))) same (In-last (p, m) f.replies)))
place-reply table f (x ∷ ms) m p (inr h) e =
    place-rest table (λ g. In (p, m) g.replies) f x ms (λ g. place-reply table g ms m p h e)

lookup-In :
    (ms : List Mail) (message_id : Bytes) (p : Mail) → lookup ms message_id ≡ some p → In p ms
unfolding lookup
lookup-In [] message_id p e = absurd (none-ne-some p e)
lookup-In (m ∷ ms) message_id p e = elim (Option-cases (lookup ms message_id)) [
  | inl n ↦
      let e' = ap (or_this m message_id) (sym n) ∙ e in
      elim (Bool-cases (str_equal m.message_id message_id)) [
        | inl t ↦ inl (some-injective p m (sym e' ∙ ap (λ b. if b then some m else none) t))
        | inr f ↦ absurd (none-ne-some p (sym (ap (λ b. if b then some m else none) f) ∙ e'))
      ]
  | inr (q, s) ↦
      let e' = ap (or_this m message_id) (sym s) ∙ e in inr (lookup-In ms message_id p (s ∙ e'))
]
  where
    or_this : Mail → Bytes → Option Mail → Option Mail
    or_this m message_id none = if str_equal m.message_id message_id then some m else none
    or_this m message_id (some p) = some p

parent_of-In : (ms : List Mail) (m p : Mail) → parent_of ms m ≡ some p → In p ms
unfolding parent_of
parent_of-In ms m p e = elim (Bool-cases (is_nil m.in_reply_to)) [
  | inl t ↦
      absurd (none-ne-some p (sym (ap (λ b. if b then none else lookup ms m.in_reply_to) t) ∙ e))
  | inr f ↦
      lookup-In ms m.in_reply_to p
        (sym (ap (λ b. if b then none else lookup ms m.in_reply_to) f) ∙ e)
]

shown_below :
    (ms : List Mail) (rank : Mail → ℕ)
    → ((m p : Mail) → In m ms → parent_of ms m ≡ some p → rank p < rank m)
    → (k : ℕ) (m : Mail) → rank m < k
    → In m ms
    → Shown (resolve_thread_relationships ms) m
unfolding resolve_thread_relationships
shown_below ms rank h zero m lt i = absurd (omega arith)
shown_below ms rank h (suc k) m lt i = elim (Option-cases (parent_of ms m)) [
  | inl e ↦ at_top m (place-top ms _ ms m i e)
  | inr (p, e) ↦
      as_reply p m (shown_below ms rank h k p (omega (arith, h m p i e)) (parent_of-In ms m p e))
        (place-reply ms _ ms m p i e)
]

-- When no chain of replies returns to where it began, so that messages have ranks that grow from
-- parent to reply, every message of a thread is reached from a message at the top by replies.
pub resolve_thread_relationships-Shown :
    (ms : List Mail) (rank : Mail → ℕ)
    → ((m p : Mail) → In m ms → parent_of ms m ≡ some p → rank p < rank m)
    → (m : Mail) → In m ms
    → Shown (resolve_thread_relationships ms) m
resolve_thread_relationships-Shown ms rank h m i =
    shown_below ms rank h (rank m + 1) m (omega arith) i
