-- ===== src/Database/Features.antt =====
-- lib/database.cc and lib/database-private.h: the features of a database as text and back.
pub mod RoundTrip
use notmuch.Prelude.{
  ℕ, zero, suc, ◌+◌, Bool, true, false, not, ◌&&◌, ◌||◌, Option, none, some, List, [], ◌∷◌, ◌++◌,
  ltb, ◌==◌, if◌then◌else◌, length, set, get_or,
}
use notmuch.Prelude.Bytes.{Bytes, codes, contains, str_equal}
use notmuch.StringUtil.{strtok_len, span_delim}

-- The bit mask, from the lowest bit.
abbrev pub Features : Type 0
Features = List Bool

abbrev pub no_features : Features
no_features = false ∷ false ∷ false ∷ false ∷ false ∷ false ∷ false ∷ []

abbrev pub features_v1 : Features
features_v1 = true ∷ true ∷ false ∷ false ∷ false ∷ false ∷ false ∷ []

abbrev pub features_v2 : Features
features_v2 = true ∷ true ∷ false ∷ true ∷ false ∷ false ∷ false ∷ []

-- A row of feature_names: the bit, the name, and the modes in which the feature is needed.
abbrev pub Row : Type 0
Row = ℕ × Bytes × Bytes

abbrev pub feature_names : List Row
feature_names =
    (0, codes "multiple paths per message", codes "rw")
    ∷ (1, codes "relative directory paths", codes "rw")
    ∷ (2, codes "from/subject/message-ID in database", codes "w")
    ∷ (3, codes "exact folder:/path: search", codes "rw")
    ∷ (4, codes "mail documents for missing messages", codes "w")
    ∷ (5, codes "indexed MIME types", codes "w")
    ∷ (6, codes "modification tracking", codes "w")
    ∷ []

abbrev pub newline : Bytes
newline = 10 ∷ []

-- The loop over feature_names.
unfoldable pub find_feature : List Row → Bytes → Option ℕ
find_feature [] name = none
find_feature ((i, n, flags) ∷ rows) name =
    let rest = find_feature rows name in if str_equal n name then some i else rest

abbrev pub with_flags : Bytes → Bytes → Option (Bytes × Bytes)
with_flags name [] = none
with_flags name (t ∷ flags) = some (name, t ∷ flags)

-- The name and the flags of a line, at its first tab.
unfoldable pub split_tab : Bytes → Option (Bytes × Bytes)
unfolding span_delim
split_tab line = let (name, flags) = span_delim (9 ∷ []) line in with_flags name flags

abbrev pub append_name : Option Bytes → Bytes → Option Bytes
append_name none name = some name
append_name (some []) name = some name
append_name (some (c ∷ s)) name = some ((c ∷ s) ++ (codes ", " ++ name))

-- One line of the text: the features so far and those that are needed but not known.
unfoldable pub parse_line : ℕ → Bytes → Features × Option Bytes → Features × Option Bytes
unfolding find_feature split_tab
parse_line mode line (res, incompat) = elim (split_tab line) [
  | none ↦ (res, incompat)
  | some (name, flags) ↦ elim (find_feature feature_names name) [
    | some i ↦ (set res i true, incompat)
    | none ↦ if contains flags mode then (res, append_name incompat name) else (res, incompat)
  ]
]

-- The loop over the lines; `none` when the fuel does not suffice.
unfoldable pub parse_lines :
    ℕ → ℕ → Bytes → Features × Option Bytes → Option (Features × Option Bytes)
unfolding parse_line strtok_len
parse_lines zero mode s acc = none
parse_lines (suc fuel) mode s acc = elim (strtok_len s newline) [
  | none ↦ some acc
  | some (line, rest) ↦ parse_lines fuel mode rest (parse_line mode line acc)
]

-- The features, and the names for *incompat_out.
unfoldable pub parse_features : Bytes → ℕ → ℕ → Option (Features × Option Bytes)
unfolding parse_lines
parse_features features version mode =
    let parsed = parse_lines (length features + 1) mode features (no_features, none) in
    if version == 0
    then some (no_features, none)
    else if version == 1
    then some (features_v1, none)
    else if version == 2
    then some (features_v2, none)
    else parsed

unfoldable pub print_rows : List Row → Features → Bytes
print_rows [] features = []
print_rows ((i, name, flags) ∷ rows) features =
    let rest = print_rows rows features in
    if get_or features i false then name ++ (9 ∷ (flags ++ (10 ∷ rest))) else rest

unfoldable pub print_features : Features → Bytes
unfolding print_rows
print_features features = print_rows feature_names features
