-- ===== src/Sprinter/Sexp/Strings.antt =====
-- sprinter-sexp.c: a reader of Emacs strings gets back what was printed.
use notmuch.Prelude.{
  ℕ, zero, suc, ◌+◌, ◌-◌, ◌*◌, ◌<◌, length, length-append, Bool, false, ◌&&◌, Option, none, some,
  [], ◌∷◌, ◌++◌, append_assoc, ◌==◌, if◌then◌else◌, ◌≡◌, refl, ap, arith, All,
}
use notmuch.Prelude.Bytes.{Bytes, between, first_char}
use notmuch.TagUtil.{tail}
use notmuch.Sprinter.Sexp.{sexp_char, sexp_chars}

abbrev quote : ℕ
quote = b'"'

abbrev octal : ℕ → Bool
octal = between b'0' b'7'

-- One byte of a string: an escape is three octal digits, `n`, or the byte itself.
abbrev read_sexp_char : Bytes → Option (ℕ × Bytes)
read_sexp_char [] = none
read_sexp_char (c ∷ s) = if c == 92 then read_escape s else if c == quote then none else some (c, s)
  where
    read_escape : Bytes → Option (ℕ × Bytes)
    read_escape (x ∷ y ∷ z ∷ s) =
        if octal x && (octal y && octal z)
        then some ((x - b'0') * 64 + (y - b'0') * 8 + (z - b'0'), s)
        else if x == b'n'
        then some (10, y ∷ z ∷ s)
        else some (x, y ∷ z ∷ s)
    read_escape (x ∷ s) = if x == b'n' then some (10, s) else some (x, s)
    read_escape [] = none

abbrev push : ℕ → Option (Bytes × Bytes) → Option (Bytes × Bytes)
push c none = none
push c (some (t, rest)) = some (c ∷ t, rest)

-- The content of a string up to its closing quote, and what follows that. `none` also where
-- the fuel is used up.
abbrev pub read_sexp_string : ℕ → Bytes → Option (Bytes × Bytes)
read_sexp_string zero s = none
read_sexp_string (suc fuel) s =
    if first_char s == quote
    then some ([], tail s)
    else elim (read_sexp_char s) [ none ↦ none | some p ↦ push p.0 (read_sexp_string fuel p.1) ]

read_sexp_char-sexp_char :
    (c : ℕ) (s : Bytes) → c < 256 → 0 < length s → read_sexp_char (sexp_char c ++ s) ≡ some (c, s)
unfolding sexp_char
read_sexp_char-sexp_char c [] h n = absurd (omega arith)
read_sexp_char-sexp_char c (x ∷ []) h n = ground arith
read_sexp_char-sexp_char c (x ∷ y ∷ s) h n = ground arith

first_char-sexp_char : (c : ℕ) (s : Bytes) → (first_char (sexp_char c ++ s) == quote) ≡ false
unfolding sexp_char
first_char-sexp_char c s = ground arith

-- A reader with as many steps as the string has bytes, and one for the quote, reads what
-- sexp_string_len puts between the quotes as the string, whatever stands behind it.
pub read_sexp_string-sexp_chars :
    (val rest : Bytes)
    → All (λ c. c < 256) val
    → read_sexp_string (suc (length val)) (sexp_chars val ++ quote ∷ rest) ≡ some (val, rest)
unfolding sexp_chars
read_sexp_string-sexp_chars [] rest h = refl
read_sexp_string-sexp_chars (c ∷ val) rest h =
    rw (append_assoc (sexp_char c) (sexp_chars val) (quote ∷ rest)) (
      rw (first_char-sexp_char c (sexp_chars val ++ quote ∷ rest)) (
        rw
          (read_sexp_char-sexp_char c (sexp_chars val ++ quote ∷ rest) h.0
            (omega (arith, length-append (sexp_chars val) (quote ∷ rest))))
          (ap (push c) (read_sexp_string-sexp_chars val rest h.1))))
