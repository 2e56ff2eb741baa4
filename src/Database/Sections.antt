-- ===== src/Database/Sections.antt =====
-- Programs of changes and nested atomic sections, on lib/database.cc.
use notmuch.Prelude.{
  All-append, or_false, ℕ, ◌+◌, ◌-◌, ◌<◌, inl, inr, ==_ne, lt→ltb, ◌≡◌, ◌∙◌, Bool, true, false,
  ◌||◌, List, [], ◌∷◌, ◌++◌, if◌then◌else◌, refl, sym, subst, arith, Bool-cases, ap, All,
}
use notmuch.Database.{
  Status, success, Handle, next_revision, new_revision, begin_atomic, end_atomic, leave,
}

-- What a client does: changes, and sections that it begins and ends.
pub data Program : Type 0 where
  done : Program
  change : Program → Program
  section : Program → Program → Program

-- The statuses of all calls, the numbers of all changes, and the handle after them. No call throws.
unfoldable pub run : Program → Handle → (List Status × List ℕ) × Handle
unfolding new_revision begin_atomic end_atomic
run done h = (([], []), h)
run (change p) h =
    let (n, h') = new_revision h in let ((st, ns), h'') = run p h' in ((st, n ∷ ns), h'')
run (section inner p) h =
    let (s, h1) = begin_atomic true h in
    let ((st, ns), h2) = run inner h1 in
    let (s', h3) = end_atomic true h2 in
    let ((st', ns'), h4) = run p h3 in ((s ∷ st ++ s' ∷ st', ns ++ ns'), h4)

-- Whether anything changes.
abbrev pub changes : Program → Bool
changes done = false
changes (change p) = true
changes (section inner p) = changes inner || changes p

abbrev pub IsOpen : Handle → Type 0
IsOpen h = (h.read_only ≡ false) × (h.needs_upgrade ≡ false)

abbrev nested : Handle → Handle
nested h = record h { atomic_nesting = h.atomic_nesting + 1 }

begin_nested : (h : Handle) → 0 < h.atomic_nesting → begin_atomic true h ≡ (success, nested h)
unfolding begin_atomic
begin_nested h lt = elim (Bool-cases h.read_only) [
  | inl e ↦ rw (begin_atomic, e) refl
  | inr e ↦ rw (begin_atomic, e, lt→ltb 0 h.atomic_nesting lt) refl
]

end_nested : (h : Handle) → 1 < h.atomic_nesting → end_atomic true h ≡ (success, leave h)
unfolding end_atomic
end_nested h lt = elim (Bool-cases h.read_only) [
  | inl e ↦ rw (end_atomic, ==_ne h.atomic_nesting 0 (λ z. omega arith), e) refl
  | inr e ↦
      rw (end_atomic, ==_ne h.atomic_nesting 0 (λ z. omega arith), e, lt→ltb 1 h.atomic_nesting lt)
        refl
]

-- Every call succeeded, all changes got the number `n`, and the handle is `h`.
abbrev pub Went : ℕ → Handle → (List Status × List ℕ) × Handle → Type 0
Went n h r = All (λ s. s ≡ success) r.0.0 × All (λ k. k ≡ n) r.0.1 × (r.1 ≡ h)

abbrev pub mark : Bool → Handle → Handle
mark b h = record h { atomic_dirty = h.atomic_dirty || b }

or_true : (b : Bool) → (b || true) ≡ true
or_true b = ground arith

or_assoc : (a b c : Bool) → ((a || b) || c) ≡ (a || (b || c))
or_assoc a b c = ground arith

new_revision_inside :
    (h : Handle) → 0 < h.atomic_nesting → new_revision h ≡ (next_revision h.revision, mark true h)
unfolding new_revision
new_revision_inside h lt =
    rw (new_revision, ==_ne h.atomic_nesting 0 (λ z. omega arith), or_true h.atomic_dirty) refl

end_inside :
    (h : Handle) (b : Bool)
    → 0 < h.atomic_nesting
    → end_atomic true (mark b (nested h)) ≡ (success, mark b h)
end_inside h b lt =
    let same : h.atomic_nesting + 1 - 1 ≡ h.atomic_nesting = omega arith in
    end_nested (mark b (nested h)) (omega arith)
    ∙ ap (λ n. (success, record h { atomic_nesting = n; atomic_dirty = h.atomic_dirty || b })) same

-- Inside a section no number is committed, and all changes get the next one.
pub run-inside :
    (p : Program) (h : Handle)
    → 0 < h.atomic_nesting
    → Went (next_revision h.revision) (mark (changes p) h) (run p h)
unfolding run
run-inside done h lt =
    (tt, tt, ap (λ b. record h { atomic_dirty = b }) (sym (or_false h.atomic_dirty)))
run-inside (change p) h lt =
    let e = new_revision_inside h lt in
    let ih : Went (next_revision h.revision) (mark (changes p) (mark true h))
        (run p (mark true h)) =
      run-inside p (mark true h) lt in
    let r =
      subst (λ x. Went (next_revision h.revision) (mark (changes p) (mark true h)) (run p x))
        (sym (ap (λ x. x.1) e)) ih in
    (
      r.0,
      (ap (λ x. x.0) e, r.1),
      r.2 ∙ ap (λ b. record h { atomic_dirty = b }) (or_assoc h.atomic_dirty true (changes p)),
    )
run-inside (section inner p) h lt =
    let e = begin_nested h lt in
    let n = next_revision h.revision in
    let h' = mark (changes inner) h in
    let r1 =
      subst (λ x. Went n (mark (changes inner) (nested h)) (run inner x)) (sym (ap (λ x. x.1) e))
        (run-inside inner (nested h) (omega arith)) in
    let x = ap (end_atomic true) r1.2 ∙ end_inside h (changes inner) lt in
    let r2 =
      subst (λ y. Went n (mark (changes p) h') (run p y)) (sym (ap (λ y. y.1) x))
        (run-inside p h' lt) in
    (
      (ap (λ y. y.0) e, All-append _ _ _ r1.0 (ap (λ y. y.0) x, r2.0)),
      All-append _ _ _ r1.1 r2.1,
      r2.2
          ∙ ap (λ b. record h { atomic_dirty = b })
              (or_assoc h.atomic_dirty (changes inner) (changes p)),
    )

-- A handle outside of sections, open for writing.
abbrev pub idle : ℕ → Handle
idle r = record {
  read_only = false;
  needs_upgrade = false;
  atomic_nesting = 0;
  atomic_dirty = false;
  revision = r;
}

-- The revision after a program: one step for each change outside of sections, and one for each
-- outermost section with changes in it.
abbrev pub committed : Program → ℕ → ℕ
committed done r = r
committed (change p) r = committed p (next_revision r)
committed (section inner p) r = committed p (if changes inner then next_revision r else r)

end_outermost :
    (r : ℕ) (b : Bool)
    → end_atomic true (mark b (nested (idle r)))
      ≡ (success, idle (if b then next_revision r else r))
unfolding end_atomic
end_outermost r true = refl
end_outermost r false = refl

-- From a handle outside of sections that is open for writing, needs no upgrade and has no pending
-- change, where the database grants every begin and commit, every call of a program of changes and
-- sections succeeds and
-- the handle is outside of sections again, with the revision that the program's outermost changes
-- and sections give.
pub run-idle :
    (p : Program) (r : ℕ)
    → All (λ s. s ≡ success) (run p (idle r)).0.0 × ((run p (idle r)).1 ≡ idle (committed p r))
unfolding run
run-idle done r = (tt, refl)
run-idle (change p) r = run-idle p (next_revision r)
run-idle (section inner p) r =
    let r1 = run-inside inner (nested (idle r)) (omega arith) in
    let x = ap (end_atomic true) r1.2 ∙ end_outermost r (changes inner) in
    let next = if changes inner then next_revision r else r in
    let r2 : All (λ s. s ≡ success) (run p (end_atomic true (run inner (nested (idle r))).1).1).0.0
        × ((run p (end_atomic true (run inner (nested (idle r))).1).1).1
            ≡ idle (committed p next)) =
      subst (λ y. All (λ s. s ≡ success) (run p y).0.0 × ((run p y).1 ≡ idle (committed p next)))
        (sym (ap (λ y. y.1) x)) (run-idle p next) in
    ((refl, All-append _ _ _ r1.0 (ap (λ y. y.0) x, r2.0)), r2.1)
