-- ===== src/Database/Paths.antt =====
-- lib/database.cc: paths of files and directories.
pub mod Split
use mathlib.Core.List.{reverse}
use notmuch.Prelude.{
  ℕ, ◌+◌, Bool, true, false, not, ◌&&◌, Option, none, some, List, [], ◌∷◌, ◌++◌, ltb, ◌==◌,
  if◌then◌else◌, length,
}
use notmuch.Prelude.Bytes.{Bytes, codes, first_char}

abbrev pub slash_char : ℕ
slash_char = b'/'

-- A pointer into a path: the bytes before it, the nearest first, and the text from it on.
abbrev pub Pointer : Type 0
Pointer = Bytes × Bytes

-- while (slash != path && *slash == '/') --slash;
unfoldable pub skip_trailing : Bytes → Bytes → Pointer
skip_trailing [] s = ([], s)
skip_trailing (b ∷ bs) s =
    let back = skip_trailing bs (b ∷ s) in if first_char s == slash_char then back else (b ∷ bs, s)

-- The loop that finds a slash, and the last basename that it sets.
unfoldable pub find_slash : Bytes → Bytes → Option Bytes → Pointer × Option Bytes
find_slash [] s base = (([], s), base)
find_slash (b ∷ bs) s base =
    let back = find_slash bs (b ∷ s) (some s) in
    if not (first_char s == slash_char) then back else ((b ∷ bs, s), base)

-- while (slash != path && *(slash - 1) == '/') --slash;
unfoldable pub skip_multiple : Bytes → Bytes → Pointer
skip_multiple [] s = ([], s)
skip_multiple (b ∷ bs) s =
    let back = skip_multiple bs (b ∷ s) in if b == slash_char then back else (b ∷ bs, s)

abbrev pub split_at : Bytes → Pointer → Option Bytes → Option Bytes × Option Bytes
split_at path ([], s) base = (some [], some path)
split_at path (b ∷ bs, s) base = (some (reverse (b ∷ bs)), base)

-- The directory and the basename; `none` is NULL.
unfoldable pub split_path : Option Bytes → Option Bytes × Option Bytes
unfolding skip_trailing find_slash skip_multiple
split_path none = (none, none)
split_path (some path) = elim (reverse path) [
  | [] ↦ (none, none)
  | c ∷ before ↦
      let p = skip_trailing before (c ∷ []) in
      let (q, base) = find_slash p.0 p.1 none in split_at path (skip_multiple q.0 q.1) base
]

-- strncmp (s, prefix, strlen (prefix)) == 0, and the rest of s.
abbrev pub after_prefix : Bytes → Bytes → Option Bytes
after_prefix [] s = some s
after_prefix (p ∷ ps) [] = none
after_prefix (p ∷ ps) (c ∷ s) = let rest = after_prefix ps s in if p == c then rest else none

abbrev pub skip_slashes : Bytes → Bytes
skip_slashes [] = []
skip_slashes (c ∷ s) = let rest = skip_slashes s in if c == slash_char then rest else c ∷ s

-- while (*relative == '/' && *(relative+1) == '/') relative++;
abbrev pub skip_double : Bytes → Bytes
skip_double [] = []
skip_double (c ∷ s) =
    let rest = skip_double s in
    if c == slash_char && first_char s == slash_char then rest else c ∷ s

unfoldable pub relative_path : Bytes → Bytes → Bytes
relative_path db_path path =
    let relative = skip_double path in
    if first_char path == slash_char
    then elim (after_prefix db_path relative) [ none ↦ relative | some rest ↦ skip_slashes rest ]
    else path

-- The directory's name as a term; a path that is too long gives its sum.
unfoldable pub get_directory_db_path : (Bytes → Bytes) → Bytes → Bytes
get_directory_db_path sha1 path =
    if ltb 245 (length (codes "XDIRECTORY") + length path) then sha1 path else path
