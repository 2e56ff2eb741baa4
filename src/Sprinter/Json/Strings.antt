-- ===== src/Sprinter/Json/Strings.antt =====
-- sprinter-json.c: a reader of JSON strings gets back what was printed.
use notmuch.Prelude.{
  ℕ, zero, suc, length, ◌+◌, ◌*◌, ◌/◌, ◌%◌, ◌<◌, false, ◌&&◌, ◌||◌, Option, none, some, [], ◌∷◌,
  ◌++◌, append_assoc, ltb, ◌==◌, if◌then◌else◌, ◌≡◌, refl, ap, arith, All,
}
use notmuch.Prelude.Bytes.{Bytes, isxdigit, first_char}
use notmuch.HexEscape.{hex_value}
use notmuch.HexEscape.RoundTrip.{hex_digit-isxdigit, hex_value-hex_digit}
use notmuch.TagUtil.{tail}
use notmuch.Sprinter.Json.{escape_of, json_char, json_chars}

abbrev quote : ℕ
quote = b'"'

-- The byte that an escape of one letter stands for.
abbrev letter : ℕ → Option ℕ
letter c =
    if c == quote || c == 92
    then some c
    else if c == b'b'
    then some 8
    else if c == b'f'
    then some 12
    else if c == b'n'
    then some 10
    else if c == b't'
    then some 9
    else none

abbrev push : ℕ → Option (Bytes × Bytes) → Option (Bytes × Bytes)
push c none = none
push c (some (t, rest)) = some (c ∷ t, rest)

-- What the reader does at a byte and the bytes behind it: the byte that is read, and how many of
-- those behind it belong to it.
abbrev read_char : Bytes → Option (ℕ × Bytes)
read_char [] = none
read_char (c ∷ s) =
    if c == 92 then read_escape s else if ltb c 32 || c == quote then none else some (c, s)
  where
    number : Bytes → Option (ℕ × Bytes)
    number (z ∷ y ∷ a ∷ b ∷ s) =
        if (z == b'0' && y == b'0') && (isxdigit a && isxdigit b)
        then some (hex_value a * 16 + hex_value b, s)
        else none
    number _ = none

    read_escape : Bytes → Option (ℕ × Bytes)
    read_escape [] = none
    read_escape (c ∷ s) =
        if c == b'u' then number s else elim (letter c) [ none ↦ none | some d ↦ some (d, s) ]

-- The content of a JSON string up to its closing quote, and what follows that: no control byte
-- stands alone, and a backslash starts an escape. Of the escapes by number those of one byte
-- are read. `none` also where the fuel is used up.
abbrev pub read_string : ℕ → Bytes → Option (Bytes × Bytes)
read_string zero s = none
read_string (suc fuel) s =
    if first_char s == quote
    then some ([], tail s)
    else elim (read_char s) [ none ↦ none | some p ↦ push p.0 (read_string fuel p.1) ]

read_char-json_char : (c : ℕ) (s : Bytes) → c < 256 → read_char (json_char c ++ s) ≡ some (c, s)
unfolding json_char escape_of
read_char-json_char c s h = ground (
  arith,
  hex_digit-isxdigit (c / 16) (omega arith),
  hex_digit-isxdigit (c % 16) (omega arith),
  hex_value-hex_digit (c / 16) (omega arith),
  hex_value-hex_digit (c % 16) (omega arith),
)

first_char-json_char : (c : ℕ) (s : Bytes) → (first_char (json_char c ++ s) == quote) ≡ false
unfolding json_char escape_of
first_char-json_char c s = ground arith

-- A reader with as many steps as the string has bytes, and one for the quote, reads what
-- json_string_len puts between the quotes as the string, whatever stands behind it.
pub read_string-json_chars :
    (val rest : Bytes)
    → All (λ c. c < 256) val
    → read_string (suc (length val)) (json_chars val ++ quote ∷ rest) ≡ some (val, rest)
unfolding json_chars
read_string-json_chars [] rest h = refl
read_string-json_chars (c ∷ val) rest h =
    rw (append_assoc (json_char c) (json_chars val) (quote ∷ rest)) (
      rw (first_char-json_char c (json_chars val ++ quote ∷ rest)) (
        rw (read_char-json_char c (json_chars val ++ quote ∷ rest) h.0)
          (ap (push c) (read_string-json_chars val rest h.1))))
