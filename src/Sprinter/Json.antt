-- ===== src/Sprinter/Json.antt =====
-- sprinter-json.c: the JSON printer. The stream is what was written to it.
pub mod Layout
pub mod Strings
use notmuch.Prelude.{
  ℕ, ◌/◌, ◌%◌, Bool, true, false, Option, none, some, List, [], ◌∷◌, ◌++◌, ltb, ◌==◌, ◌||◌,
  if◌then◌else◌,
}
use notmuch.Prelude.Bytes.{Bytes, codes}
use notmuch.HexEscape.{hex_digit}
use notmuch.Sprinter.{Printer}

-- struct json_state; the frames of the parents are the rest of the list.
pub record JsonState : Type 0 where
  pub first : Bool
  pub close : ℕ

pub record SprinterJson : Type 0 where
  pub stream : Bytes
  pub state : List JsonState
  pub insert_separator : Bool

abbrev pub put : Bytes → SprinterJson → SprinterJson
put t s = record s { stream = s.stream ++ t }

-- Behind another value: the comma, and what follows it.
abbrev pub comma : SprinterJson → SprinterJson
comma s =
    if s.insert_separator
    then record (put (codes ",\n") s) { insert_separator = false }
    else put (codes ", ") s

abbrev pub json_begin_value : SprinterJson → SprinterJson
json_begin_value s = elim s.state [
  | [] ↦ s
  | f ∷ fs ↦ if f.first then record s { state = record f { first = false } ∷ fs } else comma s
]

abbrev pub json_begin_aggregate : ℕ → ℕ → SprinterJson → SprinterJson
json_begin_aggregate open_char close_char s =
    let s' = put (open_char ∷ []) (json_begin_value s) in
    record s' { state = record { first = true; close = close_char } ∷ s'.state }

abbrev pub json_begin_map : SprinterJson → SprinterJson
json_begin_map = json_begin_aggregate b'{' b'}'

abbrev pub json_begin_list : SprinterJson → SprinterJson
json_begin_list = json_begin_aggregate b'[' b']'

abbrev pub newline_at_top : SprinterJson → SprinterJson
newline_at_top s = elim s.state [ [] ↦ put (codes "\n") s | f ∷ fs ↦ s ]

abbrev pub json_end : SprinterJson → Option SprinterJson
json_end s = elim s.state [
  | [] ↦ none
  | f ∷ fs ↦ some (newline_at_top (record (put (f.close ∷ []) s) { state = fs }))
]

abbrev backslash : ℕ
backslash = 92

-- The table `escapes`.
unfoldable pub escape_of : ℕ → Option ℕ
escape_of ch =
    if ch == b'"' || ch == backslash
    then some ch
    else if ch == 8
    then some b'b'
    else if ch == 12
    then some b'f'
    else if ch == 10
    then some b'n'
    else if ch == 9
    then some b't'
    else none

-- One byte of a string. "%04x" of a byte below 32 starts with two zeros.
unfoldable pub json_char : ℕ → Bytes
unfolding escape_of hex_digit
json_char ch = elim (escape_of ch) [
  | some e ↦ backslash ∷ e ∷ []
  | none ↦
      if ltb ch 32
      then backslash ∷ b'u' ∷ b'0' ∷ b'0' ∷ hex_digit (ch / 16) ∷ hex_digit (ch % 16) ∷ []
      else ch ∷ []
]

unfoldable pub json_chars : Bytes → Bytes
unfolding json_char
json_chars [] = []
json_chars (ch ∷ val) = json_char ch ++ json_chars val

abbrev pub quoted : Bytes → Bytes
quoted val = b'"' ∷ (json_chars val ++ b'"' ∷ [])

abbrev pub json_string_len : Bytes → SprinterJson → SprinterJson
json_string_len val s = put (quoted val) (json_begin_value s)

abbrev pub json_string : Option Bytes → SprinterJson → SprinterJson
json_string none s = json_string_len [] s
json_string (some val) s = json_string_len val s

abbrev pub json_integer : Bytes → SprinterJson → SprinterJson
json_integer n s = put n (json_begin_value s)

abbrev pub json_boolean : Bool → SprinterJson → SprinterJson
json_boolean b s = put (if b then codes "true" else codes "false") (json_begin_value s)

abbrev pub json_null : SprinterJson → SprinterJson
json_null s = put (codes "null") (json_begin_value s)

abbrev pub json_map_key : Bytes → SprinterJson → Option SprinterJson
json_map_key key s =
    let s' = put (codes ": ") (json_string (some key) s) in
    elim s'.state [
      | [] ↦ none
      | f ∷ fs ↦ some (record s' { state = record f { first = true } ∷ fs })
    ]

abbrev pub json_separator : SprinterJson → SprinterJson
json_separator s = record s { insert_separator = true }

abbrev pub sprinter_json : Printer
sprinter_json = record {
  State = SprinterJson;
  begin_map = json_begin_map;
  begin_list = json_begin_list;
  end = json_end;
  string = json_string;
  integer = json_integer;
  boolean = json_boolean;
  null = json_null;
  map_key = json_map_key;
  separator = json_separator;
}

abbrev pub sprinter_json_create : SprinterJson
sprinter_json_create = record { stream = []; state = []; insert_separator = false }
