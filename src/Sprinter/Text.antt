-- ===== src/Sprinter/Text.antt =====
-- sprinter-text.c: the text printers. Lists, maps, keys and null print nothing.
use notmuch.Prelude.{ℕ, Bool, Option, none, some, [], ◌∷◌, ◌++◌, if◌then◌else◌}
use notmuch.Prelude.Bytes.{Bytes, codes}
use notmuch.Sprinter.{Printer}

-- struct sprinter_text; what has been written to the stream, and the byte of its separator.
pub record SprinterText : Type 0 where
  pub stream : Bytes
  pub current_prefix : Option Bytes
  pub separator : ℕ

abbrev write : Bytes → SprinterText → SprinterText
write text s = record s { stream = s.stream ++ text }

abbrev pub text_string_len : Bytes → SprinterText → SprinterText
text_string_len val s = elim s.current_prefix [
  | none ↦ write val s
  | some prefix ↦ write val (write (prefix ++ (b':' ∷ [])) s)
]

abbrev pub text_string : Option Bytes → SprinterText → SprinterText
text_string none s = text_string_len [] s
text_string (some val) s = text_string_len val s

abbrev pub text_integer : Bytes → SprinterText → SprinterText
text_integer n s = write n s

abbrev pub text_boolean : Bool → SprinterText → SprinterText
text_boolean val s = write (if val then codes "true" else codes "false") s

abbrev pub text_separator : SprinterText → SprinterText
text_separator s = write (s.separator ∷ []) s

abbrev pub text_set_prefix : Option Bytes → SprinterText → SprinterText
text_set_prefix prefix s = record s { current_prefix = prefix }

-- text_begin_map, text_begin_list and text_null
abbrev pub text_nothing : SprinterText → SprinterText
text_nothing s = s

abbrev pub text_end : SprinterText → Option SprinterText
text_end s = some s

abbrev pub text_map_key : Bytes → SprinterText → Option SprinterText
text_map_key key s = some s

abbrev pub sprinter_text : Printer
sprinter_text = record {
  State = SprinterText;
  begin_map = text_nothing;
  begin_list = text_nothing;
  end = text_end;
  string = text_string;
  integer = text_integer;
  boolean = text_boolean;
  null = text_nothing;
  map_key = text_map_key;
  separator = text_separator;
}

abbrev pub sprinter_text_create : SprinterText
sprinter_text_create = record { stream = []; current_prefix = none; separator = b'\n' }

abbrev pub sprinter_text0_create : SprinterText
sprinter_text0_create = record sprinter_text_create { separator = 0 }
