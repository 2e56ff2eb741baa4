-- ===== src/ParseTime/Matching.antt =====
-- parse-time-string.c: an independent description of match_keyword.
use notmuch.Prelude.{
  ℕ, suc, Bool, true, false, not, ◌&&◌, ◌||◌, [], ◌∷◌, ◌==◌, leb, if◌then◌else◌, ◌≡◌, refl, arith,
  Bool-cases, inl, inr, length, ◌+◌,
}
use notmuch.Prelude.Bytes.{Bytes, isalpha}
use notmuch.ParseTime.Keywords.{match_from, match_keyword, same_char}

-- The keyword's text, without its bars.
abbrev pub text : Bytes → Bytes
text [] = []
text (k ∷ kw) = if k == b'|' then text kw else k ∷ text kw

-- What stands before its first bar.
abbrev pub stem : Bytes → Bytes
stem [] = []
stem (k ∷ kw) = if k == b'|' then [] else k ∷ stem kw

-- The letters at the front of the input.
abbrev pub word : Bytes → Bytes
word [] = []
word (c ∷ s) = if isalpha c then c ∷ word s else []

-- Whether a word begins a text.
abbrev pub begins : Bool → Bytes → Bytes → Bool
begins match_case [] text = true
begins match_case (c ∷ w) [] = false
begins match_case (c ∷ w) (k ∷ text) = same_char match_case c k && begins match_case w text

abbrev pub matched : Bool → Bytes → Bytes → ℕ
matched match_case s kw =
    if begins match_case (word s) (text kw) && leb (length (stem kw)) (length (word s))
    then length (word s)
    else 0

abbrev pub letters_only : Bytes → Bool
letters_only [] = true
letters_only (c ∷ s) = isalpha c && letters_only s

-- Whether the letters match, the bar having been passed or not.
abbrev accepts : Bool → Bytes → Bytes → Bool → Bool
accepts c s kw b = begins c (word s) (text kw) && (b || leb (length (stem kw)) (length (word s)))

passed_lem : (b : Bool) (n : ℕ) → b || leb 0 n ≡ true
passed_lem b n = ground arith

letter_lem :
    (g b : Bool) (m l n r : ℕ)
    → r ≡ (if g && (b || leb m l) then n + 1 + l else 0)
    → r ≡ (if g && (b || leb (suc m) (suc l)) then n + suc l else 0)
letter_lem g b m l n r h = ground arith

stop_lem :
    (b : Bool) (m n : ℕ) → (if not b then 0 else n) ≡ (if b || leb (suc m) 0 then n + 0 else 0)
stop_lem b m n = ground arith

match_from-matched :
    (c : Bool) (s kw : Bytes) (b : Bool) (n : ℕ)
    → match_from c s kw b n ≡ (if accepts c s kw b then n + length (word s) else 0)
unfolding match_from
match_from-matched c [] [] b n = ground arith
match_from-matched c (x ∷ s) [] b n = ground arith
match_from-matched c [] (k ∷ kw) b n = ground (arith, match_from-matched c [] kw true n)
match_from-matched c (x ∷ s) (k ∷ kw) b n = elim (Bool-cases (k == b'|')) [
  | inl e ↦
      rw e (rw (passed_lem b (length (word (x ∷ s)))) (match_from-matched c (x ∷ s) kw true n))
  | inr e ↦ elim (Bool-cases (isalpha x)) [
    | inl a ↦ elim (Bool-cases (same_char c x k)) [
      | inl m ↦ rw e (rw a (rw m (letter_lem _ b _ _ n _ (match_from-matched c s kw b (n + 1)))))
      | inr m ↦ rw e (rw a (rw m refl))
    ]
    | inr a ↦ rw e (rw a (stop_lem b _ n))
  ]
]

-- match_keyword compares the letters at the front of the input with the text of the keyword: its
-- result is their number if they begin that text and are at least as many as the characters before
-- the keyword's first bar, and 0 otherwise.
pub match_keyword-matched : (s kw : Bytes) (c : Bool) → match_keyword s kw c ≡ matched c s kw
unfolding match_keyword
match_keyword-matched s kw c = rw (match_from-matched c s kw false 0) (ground arith)

letter_of_same : (c : Bool) (x k : ℕ) → isalpha x ≡ true → same_char c x k ≡ true → isalpha k ≡ true
letter_of_same c x k h e = ground arith

short_of : (c : Bool) (s kw : Bytes) → letters_only (stem kw) ≡ false → accepts c s kw false ≡ false
short_of c s [] h = ground arith
short_of c [] (k ∷ kw) h = ground arith
short_of c (x ∷ s) (k ∷ kw) h = ground (arith, letter_of_same c x k, short_of c s kw)

-- A keyword with a character that is not a letter before its first bar, like "a.m.", matches no
-- input.
pub nonletter-unmatched :
    (s kw : Bytes) (c : Bool) → letters_only (stem kw) ≡ false → match_keyword s kw c ≡ 0
nonletter-unmatched s kw c h = rw (match_keyword-matched s kw c) (rw (short_of c s kw h) refl)
