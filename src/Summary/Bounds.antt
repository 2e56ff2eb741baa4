-- ===== src/Summary/Bounds.antt =====
-- lib/thread.cc: the oldest and the newest date of a thread's summary, as bounds of dates.
use notmuch.Prelude.{
  ◌≡◌, ◌⊎◌, inl, inr, ◌||◌, ◌==◌, Bool, true, false, not, ◌&&◌, List, [], ◌∷◌, ◌++◌, if◌then◌else◌,
  length, length-append, append-nil, All-append, All, refl, sym, subst, arith,
}
use notmuch.Prelude.Bytes.{Bytes}
use notmuch.Prelude.Int.{ℤ, ◌≤ℤ◌, ltb_ℤ}
use notmuch.Summary.{Mail, Exclude, message_excluded, omits}
use notmuch.Summary.Core.{Core, with_oldest, with_newest, count_one}

-- The dates of the messages that match and are not excluded.
abbrev pub counted_dates : List Bytes → Exclude → (Bytes → Bool) → List Mail → List ℤ
counted_dates terms omit matches [] = []
counted_dates terms omit matches (m ∷ ms) =
    let rest = counted_dates terms omit matches ms in
    if matches m.message_id && not (message_excluded terms omit m) then m.date ∷ rest else rest

-- The messages that are not left out.
abbrev pub shown : List Bytes → Exclude → List Mail → List Mail
shown terms omit [] = []
shown terms omit (m ∷ ms) =
    let rest = shown terms omit ms in
    if message_excluded terms omit m && omits omit then rest else m ∷ rest

-- The dates of all messages that match, excluded or not.
abbrev pub matched_dates : (Bytes → Bool) → List Mail → List ℤ
matched_dates matches [] = []
matched_dates matches (m ∷ ms) =
    let rest = matched_dates matches ms in if matches m.message_id then m.date ∷ rest else rest

abbrev pub OneDate : List ℤ → ℤ → Type 0
OneDate [] x = ⊥
OneDate (d ∷ ds) x = (d ≡ x) ⊎ OneDate ds x

-- The dates `ds` are within the bounds, there are as many as the count says, and the bounds are
-- taken from the dates `md`.
abbrev pub Within : List ℤ → ℤ → ℤ → Type 0
Within ds lo hi = All (λ d. (lo ≤ℤ d) × (d ≤ℤ hi)) ds

abbrev pub Taken : List ℤ → Core → Type 0
Taken md c = ((c.0 ≡ 0) × (md ≡ [])) ⊎ (OneDate md c.1 × OneDate md c.2)

abbrev pub Bounds : List ℤ → List ℤ → Core → Type 0
Bounds ds md c = (c.0 ≡ length ds) × Within ds c.1 c.2 × Taken md c

pub bounds_widen :
    (ds : List ℤ) (lo hi lo' hi' : ℤ) → lo' ≤ℤ lo → hi ≤ℤ hi' → Within ds lo hi → Within ds lo' hi'
bounds_widen [] lo hi lo' hi' a b h = tt
bounds_widen (d ∷ ds) lo hi lo' hi' a b h =
    ((omega (arith, a, h.0.0), omega (arith, b, h.0.1)), bounds_widen ds lo hi lo' hi' a b h.1)

-- The bounds after a message that matches.
abbrev pub lower : ℤ → Core → ℤ
lower d c = if ltb_ℤ d c.1 || c.0 == 0 then d else c.1

abbrev pub upper : ℤ → Core → ℤ
upper d c = if ltb_ℤ c.2 d || c.0 == 0 then d else c.2

pub lower-le : (d : ℤ) (c : Core) → lower d c ≤ℤ d
lower-le d c = ground arith

pub le-upper : (d : ℤ) (c : Core) → d ≤ℤ upper d c
le-upper d c = ground arith

pub matched-Within :
    (d : ℤ) (ds : List ℤ) (c : Core)
    → c.0 ≡ length ds
    → Within ds c.1 c.2
    → Within ds (lower d c) (upper d c)
matched-Within d [] c n h = tt
matched-Within d (e ∷ ds) c n h =
    let lo : lower d c ≤ℤ c.1 = ground (arith, n) in
    let hi : c.2 ≤ℤ upper d c = ground (arith, n) in
    bounds_widen (e ∷ ds) c.1 c.2 (lower d c) (upper d c) lo hi h

pub OneDate-last : (md : List ℤ) (d : ℤ) → OneDate (md ++ d ∷ []) d
OneDate-last [] d = inl refl
OneDate-last (e ∷ md) d = inr (OneDate-last md d)

pub OneDate-append : (md : List ℤ) (d x : ℤ) → OneDate md x → OneDate (md ++ d ∷ []) x
OneDate-append [] d x h = elim h [ ]
OneDate-append (e ∷ md) d x (inl h) = inl h
OneDate-append (e ∷ md) d x (inr h) = inr (OneDate-append md d x h)

pub pick_date :
    (b : Bool) (md : List ℤ) (d x : ℤ)
    → (b ≡ false → OneDate md x)
    → OneDate (md ++ d ∷ []) (if b then d else x)
pick_date true md d x h = OneDate-last md d
pick_date false md d x h = OneDate-append md d x (h refl)

-- The first message that matches sets both bounds, and each later one keeps or replaces them.
pub matched-OneDate :
    (d : ℤ) (md : List ℤ) (c : Core)
    → Taken md c
    → OneDate (md ++ d ∷ []) (lower d c) × OneDate (md ++ d ∷ []) (upper d c)
matched-OneDate d md c (inl (z, e)) = (
  pick_date (ltb_ℤ d c.1 || c.0 == 0) md d c.1 (λ f. absurd (ground (arith, f, z))),
  pick_date (ltb_ℤ c.2 d || c.0 == 0) md d c.2 (λ f. absurd (ground (arith, f, z))),
)
matched-OneDate d md c (inr (lo, hi)) = (
  pick_date (ltb_ℤ d c.1 || c.0 == 0) md d c.1 (λ f. lo),
  pick_date (ltb_ℤ c.2 d || c.0 == 0) md d c.2 (λ f. hi),
)

pub count-Bounds :
    (excluded : Bool) (d : ℤ) (ds md : List ℤ) (c : Core)
    → Bounds ds md c
    → Bounds
        (ds ++ (if excluded then [] else d ∷ []))
        (md ++ d ∷ [])
        (count_one excluded (with_newest d (with_oldest d c)))
count-Bounds true d ds md c h =
    subst (λ xs. Bounds xs (md ++ d ∷ []) (with_newest d (with_oldest d c))) (sym (append-nil ds))
      (h.0, matched-Within d ds c h.0 h.1, inr (matched-OneDate d md c h.2))
count-Bounds false d ds md c h = (
  omega (arith, h.0, length-append ds (d ∷ [])),
  All-append _ ds (d ∷ []) (matched-Within d ds c h.0 h.1) ((lower-le d c, le-upper d c), tt),
  inr (matched-OneDate d md c h.2),
)
