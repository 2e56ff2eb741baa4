-- ===== src/StringUtil/Tokens.antt =====
-- util/string-util.c: strtok_len. query-string.c: query_string_from_args.
use notmuch.Prelude.{
  ℕ, ◌+◌, Bool, true, false, Option, none, some, List, [], ◌∷◌, ◌++◌, ◌==◌, if◌then◌else◌, length,
  append_assoc, append-nil, ◌≡◌, ◌≢◌, refl, sym, ap, subst, ◌∙◌, inl, inr, Bool-cases, All, ==_suc,
}
use notmuch.Prelude.Bytes.{Bytes, contains, first_char}
use notmuch.StringUtil.{skip_delim, span_delim, strtok_len, append_args, query_string_from_args}

-- Every byte of `s` stands in `delim`, or none does.
abbrev pub AllIn : Bytes → Bytes → Type 0
AllIn delim = All (λ c. contains delim c ≡ true)

abbrev pub NoneIn : Bytes → Bytes → Type 0
NoneIn delim = All (λ c. contains delim c ≡ false)

-- A string that is empty or starts with a delimiter.
abbrev pub Ends : Bytes → Bytes → Type 0
Ends delim [] = Unit
Ends delim (c ∷ s) = contains delim c ≡ true

abbrev Starts : Bytes → Bytes → Type 0
Starts delim [] = Unit
Starts delim (c ∷ s) = contains delim c ≡ false

skip_delim_lem :
    (delim s : Bytes)
    → (skipped : Bytes) × (s ≡ skipped ++ skip_delim delim s)
      × AllIn delim skipped
      × Starts delim (skip_delim delim s)
unfolding skip_delim
skip_delim_lem delim [] = ([], refl, tt, tt)
skip_delim_lem delim (c ∷ s) = elim (Bool-cases (contains delim c)) [
  | inl e ↦ let (sk, p, a, st) = skip_delim_lem delim s in rw e (c ∷ sk, ap (◌∷◌ c) p, (e, a), st)
  | inr n ↦ rw n ([], refl, tt, n)
]

span_delim_lem :
    (delim s : Bytes)
    → (s ≡ (span_delim delim s).0 ++ (span_delim delim s).1)
      × NoneIn delim (span_delim delim s).0
      × Ends delim (span_delim delim s).1
unfolding span_delim
span_delim_lem delim [] = (refl, tt, tt)
span_delim_lem delim (c ∷ s) = elim (Bool-cases (contains delim c)) [
  | inl e ↦ rw e (refl, tt, e)
  | inr n ↦ let (p, a, st) = span_delim_lem delim s in rw n (ap (◌∷◌ c) p, (n, a), st)
]

-- What the answer of strtok_len says of the string.
abbrev pub IsToken : Bytes → Bytes → Option (Bytes × Bytes) → Type 0
IsToken s delim none = AllIn delim s
IsToken s delim (some (tok, rest)) =
    (skipped : Bytes) × (s ≡ skipped ++ (tok ++ rest))
    × AllIn delim skipped
    × (tok ≢ [])
    × NoneIn delim tok
    × Ends delim rest

strtok_len-none :
    (s delim skipped rest : Bytes)
    → s ≡ skipped ++ rest
    → AllIn delim skipped
    → Starts delim rest
    → Ends delim rest
    → AllIn delim s
strtok_len-none s delim skipped [] e a st en = rw (e, append-nil) a
strtok_len-none s delim skipped (c ∷ r) e a st en = absurd (cc (st, en))

-- strtok_len gives NULL exactly when the string holds delimiters alone; otherwise the string is
-- some delimiters, then a token that is not empty and holds none, then the end or a delimiter.
pub strtok_len-IsToken : (s delim : Bytes) → IsToken s delim (strtok_len s delim)
unfolding strtok_len
strtok_len-IsToken s delim =
    let (skipped, e, a, st) = skip_delim_lem delim s in
    go skipped e a st (span_delim delim (skip_delim delim s))
      (span_delim_lem delim (skip_delim delim s))
  where
    go :
        (skipped : Bytes)
        → s ≡ skipped ++ skip_delim delim s
        → AllIn delim skipped
        → Starts delim (skip_delim delim s)
        → (p : Bytes × Bytes)
        → (skip_delim delim s ≡ p.0 ++ p.1) × NoneIn delim p.0 × Ends delim p.1
        → IsToken s delim (if length p.0 == 0 then none else some (p.0, p.1))
    go skipped e a st ([], rest) (q, n, en) =
        strtok_len-none s delim skipped (skip_delim delim s) e a st (rw q en)
    go skipped e a st (c ∷ tok, rest) (q, n, en) =
        rw ==_suc (skipped, e ∙ ap (◌++◌ skipped) q, a, (λ x. cc x), n, en)

-- The arguments with one blank between any two.
abbrev pub unwords : List Bytes → Bytes
unwords [] = []
unwords (arg ∷ []) = arg
unwords (arg ∷ b ∷ args) = arg ++ (b' ' ∷ unwords (b ∷ args))

-- `none` comes only of a refused allocation.
abbrev pub IsAnswer : (ℕ → Bool) → Bytes → Option Bytes → Type 0
IsAnswer alloc q none = (n : ℕ) × (alloc n ≡ false)
IsAnswer alloc q (some r) = r ≡ q

unwords_grow :
    (arg b : Bytes) (args : List Bytes)
    → unwords (((arg ++ b' ' ∷ []) ++ b) ∷ args) ≡ arg ++ (b' ' ∷ unwords (b ∷ args))
unwords_grow arg b [] = append_assoc arg (b' ' ∷ []) b
unwords_grow arg b (c ∷ args) = simp append_assoc

append_args-IsAnswer :
    (alloc : ℕ → Bool) (arg : Bytes) (args : List Bytes)
    → IsAnswer alloc (unwords (arg ∷ args)) (append_args alloc arg args)
unfolding append_args
append_args-IsAnswer alloc arg [] = refl
append_args-IsAnswer alloc arg (b ∷ args) = elim (Bool-cases (alloc (length arg + 2))) [
  | inr e ↦ rw e (length arg + 2, e)
  | inl e ↦ rw e (elim (Bool-cases (alloc (length arg + 1 + length b + 1))) [
    | inr f ↦ rw f (length arg + 1 + length b + 1, f)
    | inl f ↦ rw f (
        subst (λ q. IsAnswer alloc q (append_args alloc ((arg ++ b' ' ∷ []) ++ b) args))
          (unwords_grow arg b args) (append_args-IsAnswer alloc ((arg ++ b' ' ∷ []) ++ b) args))
  ])
]

-- query_string_from_args gives the arguments joined by single blanks, and NULL only where the
-- allocator refused a request.
pub query_string_from_args-IsAnswer :
    (alloc : ℕ → Bool) (args : List Bytes)
    → IsAnswer alloc (unwords args) (query_string_from_args alloc args)
unfolding query_string_from_args
query_string_from_args-IsAnswer alloc [] = elim (Bool-cases (alloc 1)) [
  | inl e ↦ rw e refl
  | inr e ↦ rw e (1, e)
]
query_string_from_args-IsAnswer alloc (arg ∷ args) = elim (Bool-cases (alloc 1)) [
  | inr e ↦ rw e (1, e)
  | inl e ↦ rw e (elim (Bool-cases (alloc (length arg + 1))) [
    | inl f ↦ rw f (append_args-IsAnswer alloc arg args)
    | inr f ↦ rw f (length arg + 1, f)
  ])
]

-- A token with a delimiter behind it is found as it is.
pub strtok_len_token :
    (delim tok rest : Bytes) (c : ℕ)
    → tok ≢ []
    → NoneIn delim tok
    → contains delim c ≡ true
    → strtok_len (tok ++ c ∷ rest) delim ≡ some (tok, c ∷ rest)
unfolding strtok_len
strtok_len_token delim [] rest c n a d = absurd (n refl)
strtok_len_token delim (t ∷ tok) rest c n a d =
    rw
      (
        skip_delim_none delim (t ∷ (tok ++ c ∷ rest)) a.0,
        span_delim_token delim (t ∷ tok) rest c a d,
      )
      (rw ==_suc)
  where
    skip_delim_none : (delim s : Bytes) → Starts delim s → skip_delim delim s ≡ s
    skip_delim_none delim [] h = refl
    skip_delim_none delim (x ∷ s) h = rw h

    span_delim_token :
        (delim tok rest : Bytes) (c : ℕ)
        → NoneIn delim tok
        → contains delim c ≡ true
        → span_delim delim (tok ++ c ∷ rest) ≡ (tok, c ∷ rest)
    span_delim_token delim [] rest c a d = rw d
    span_delim_token delim (x ∷ tok) rest c a d =
        rw a.0 (rw (span_delim_token delim tok rest c a.1 d))

-- After one delimiter, a string that starts with none is found from its first byte on.
pub strtok_len_query :
    (delim q : Bytes) (c : ℕ)
    → q ≢ []
    → contains delim (first_char q) ≡ false
    → contains delim c ≡ true
    → (tok rest : Bytes) × (strtok_len (c ∷ q) delim ≡ some (tok, rest)) × (tok ++ rest ≡ q)
unfolding strtok_len skip_delim span_delim
strtok_len_query delim [] c n f d = absurd (n refl)
strtok_len_query delim (x ∷ q) c n f d =
    let (e, _, _) = span_delim_lem delim q in
    (
      x ∷ (span_delim delim q).0,
      (span_delim delim q).1,
      rw d (rw f (rw f (rw ==_suc))),
      ap (◌∷◌ x) (sym e),
    )
