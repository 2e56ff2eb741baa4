-- ===== src/Sprinter/Sexp.antt =====
-- sprinter-sexp.c: the S-expression printer. The stream is what was written to it.
pub mod Layout
pub mod Strings
use notmuch.Prelude.{
  ℕ, ◌+◌, ◌/◌, ◌%◌, Bool, true, false, not, ◌&&◌, Option, none, some, List, [], ◌∷◌, ◌++◌, ltb,
  ◌==◌, ◌||◌, if◌then◌else◌,
}
use notmuch.Prelude.Bytes.{Bytes, codes, between, isdigit}
use notmuch.Sprinter.{Printer}

-- The frames of struct sexp_state are their field `first`, the innermost first.
pub record SprinterSexp : Type 0 where
  pub stream : Bytes
  pub state : List Bool
  pub insert_separator : Bool

abbrev pub write : Bytes → SprinterSexp → SprinterSexp
write t s = record s { stream = s.stream ++ t }

abbrev pub space : SprinterSexp → SprinterSexp
space s =
    if s.insert_separator
    then record (write (codes "\n") s) { insert_separator = false }
    else write (codes " ") s

abbrev pub sexp_begin_value : SprinterSexp → SprinterSexp
sexp_begin_value s = elim s.state [
  | [] ↦ s
  | first ∷ fs ↦ if first then record s { state = false ∷ fs } else space s
]

abbrev pub sexp_begin_aggregate : SprinterSexp → SprinterSexp
sexp_begin_aggregate s =
    let s' = write (codes "(") (sexp_begin_value s) in record s' { state = true ∷ s'.state }

abbrev newline_at_top : SprinterSexp → SprinterSexp
newline_at_top s = elim s.state [ [] ↦ write (codes "\n") s | f ∷ fs ↦ s ]

abbrev pub sexp_end : SprinterSexp → Option SprinterSexp
sexp_end s = elim s.state [
  | [] ↦ none
  | f ∷ fs ↦ some (newline_at_top (record (write (codes ")") s) { state = fs }))
]

-- One byte of a string; the table has `"`, `\` and the newline, and "%03o" is three octal digits.
unfoldable pub sexp_char : ℕ → Bytes
sexp_char ch =
    if ch == b'"' || ch == 92
    then 92 ∷ ch ∷ []
    else if ch == 10
    then 92 ∷ b'n' ∷ []
    else if ltb ch 32
    then 92 ∷ (b'0' + ch / 64) ∷ (b'0' + ch / 8 % 8) ∷ (b'0' + ch % 8) ∷ []
    else ch ∷ []

unfoldable pub sexp_chars : Bytes → Bytes
unfolding sexp_char
sexp_chars [] = []
sexp_chars (ch ∷ val) = sexp_char ch ++ sexp_chars val

abbrev pub sexp_quoted : Bytes → Bytes
sexp_quoted val = b'"' ∷ (sexp_chars val ++ b'"' ∷ [])

abbrev pub sexp_string_len : Bytes → SprinterSexp → SprinterSexp
sexp_string_len val s = write (sexp_quoted val) (sexp_begin_value s)

abbrev pub sexp_string : Option Bytes → SprinterSexp → SprinterSexp
sexp_string none s = sexp_string_len [] s
sexp_string (some val) s = sexp_string_len val s

abbrev pub is_symbol_char : ℕ → Bool
is_symbol_char ch =
    (isdigit ch || (between b'A' b'Z' ch || between b'a' b'z' ch)) || (ch == b'-' || ch == b'_')

abbrev pub is_symbol : Bytes → Bool
is_symbol [] = true
is_symbol (ch ∷ val) = is_symbol_char ch && is_symbol val

-- `none` is the internal error that an illegal character raises.
abbrev pub sexp_keyword : Bytes → SprinterSexp → Option SprinterSexp
sexp_keyword val s = if is_symbol val then some (write (b':' ∷ val) s) else none

abbrev pub sexp_integer : Bytes → SprinterSexp → SprinterSexp
sexp_integer n s = write n (sexp_begin_value s)

abbrev pub sexp_boolean : Bool → SprinterSexp → SprinterSexp
sexp_boolean b s = write (if b then codes "t" else codes "nil") (sexp_begin_value s)

abbrev pub sexp_null : SprinterSexp → SprinterSexp
sexp_null s = write (codes "nil") (sexp_begin_value s)

abbrev pub sexp_map_key : Bytes → SprinterSexp → Option SprinterSexp
sexp_map_key key s = sexp_keyword key (sexp_begin_value s)

abbrev pub sexp_separator : SprinterSexp → SprinterSexp
sexp_separator s = record s { insert_separator = true }

abbrev pub sprinter_sexp : Printer
sprinter_sexp = record {
  State = SprinterSexp;
  begin_map = sexp_begin_aggregate;
  begin_list = sexp_begin_aggregate;
  end = sexp_end;
  string = sexp_string;
  integer = sexp_integer;
  boolean = sexp_boolean;
  null = sexp_null;
  map_key = sexp_map_key;
  separator = sexp_separator;
}

abbrev pub sprinter_sexp_create : SprinterSexp
sprinter_sexp_create = record { stream = []; state = []; insert_separator = false }
