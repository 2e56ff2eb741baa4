-- ===== src/StringUtil.antt =====
-- util/string-util.c: tokens, sanitizing, comparison and hashing of C strings. The boolean terms
-- of that file are BooleanTerm. Also notmuch-client.h: chomp_newline; query-string.c.
pub mod Tokens
pub mod Sanitize
pub mod Compare
use Prim.Native.Nat.{Ordering, compare}
use notmuch.Prelude.{
  ℕ, ◌+◌, ◌*◌, ◌%◌, ◌^◌, ◌-◌, Bool, true, false, not, ◌||◌, Option, none, some, List, [], ◌∷◌, ◌++◌,
  ltb, ◌==◌, if◌then◌else◌, length, map,
}
use notmuch.Prelude.Bytes.{Bytes, contains, tolower}

-- strspn: the string after its first bytes that stand in `delim`.
unfoldable pub skip_delim : Bytes → Bytes → Bytes
skip_delim delim [] = []
skip_delim delim (c ∷ s) = let rest = skip_delim delim s in if contains delim c then rest else c ∷ s

-- strcspn: the first bytes that do not stand in `delim`, and the string after them.
unfoldable pub span_delim : Bytes → Bytes → Bytes × Bytes
span_delim delim [] = ([], [])
span_delim delim (c ∷ s) =
    let (tok, rest) = span_delim delim s in
    if contains delim c then ([], c ∷ s) else (c ∷ tok, rest)

-- `some` token and the string at `tok + tok_len`; `none` for NULL.
unfoldable pub strtok_len : Bytes → Bytes → Option (Bytes × Bytes)
unfolding skip_delim span_delim
strtok_len s delim =
    let (tok, rest) = span_delim delim (skip_delim delim s) in
    if length tok == 0 then none else some (tok, rest)

unfoldable pub sanitize_char : ℕ → ℕ
sanitize_char c = if c == 9 || c == 10 then b' ' else if ltb c 32 then b'?' else c

-- `none` is NULL, as the argument and as the result.
unfoldable pub sanitize_string : (ℕ → Bool) → Option Bytes → Option Bytes
unfolding sanitize_char
sanitize_string alloc none = none
sanitize_string alloc (some str) =
    if alloc (length str + 1) then some (map sanitize_char str) else none

-- strcmp: the sign of its result.
unfoldable pub strcmp : Bytes → Bytes → Ordering
strcmp [] [] = Ordering.eq
strcmp [] (y ∷ b) = Ordering.lt
strcmp (x ∷ a) [] = Ordering.gt
strcmp (x ∷ a) (y ∷ b) =
    let rest = strcmp a b in
    elim (compare x y) [
      | Ordering.lt ↦ Ordering.lt
      | Ordering.gt ↦ Ordering.gt
      | Ordering.eq ↦ rest
    ]

unfoldable pub strcmp_null : Option Bytes → Option Bytes → Ordering
unfolding strcmp
strcmp_null (some s1) (some s2) = strcmp s1 s2
strcmp_null none none = Ordering.eq
strcmp_null (some s1) none = Ordering.gt
strcmp_null none (some s2) = Ordering.lt

-- strcasecmp (a, b) == 0
unfoldable pub strcase_equal : Bytes → Bytes → Bool
strcase_equal [] [] = true
strcase_equal [] (y ∷ b) = false
strcase_equal (x ∷ a) [] = false
strcase_equal (x ∷ a) (y ∷ b) =
    let rest = strcase_equal a b in if tolower x == tolower y then rest else false

abbrev uint_mod : ℕ
uint_mod = 2 ^ 32

-- `tolower (*s)` as it is added to an unsigned int, where `char` is signed: a byte from 128 on
-- stands for a negative number, which tolower leaves alone.
unfoldable pub hash_char : ℕ → ℕ
hash_char c = if ltb c 128 then tolower c else uint_mod + c - 256

unfoldable pub hash_from : ℕ → Bytes → ℕ
unfolding hash_char
hash_from hash [] = hash
hash_from hash (c ∷ s) = hash_from (((hash * 2 ^ 5) % uint_mod + hash + hash_char c) % uint_mod) s

-- A NULL pointer hashes as the empty string.
unfoldable pub strcase_hash : Option Bytes → ℕ
unfolding hash_from
strcase_hash none = 5381
strcase_hash (some s) = hash_from 5381 s

-- The empty string makes chomp_newline read the byte before it; here that byte is no newline.
unfoldable pub chomp_newline : Bytes → Bytes
chomp_newline [] = []
chomp_newline (c ∷ []) = if c == 10 then [] else c ∷ []
chomp_newline (c ∷ d ∷ s) = c ∷ chomp_newline (d ∷ s)

-- The loop of query_string_from_args, from the second argument on.
unfoldable pub append_args : (ℕ → Bool) → Bytes → List Bytes → Option Bytes
append_args alloc query [] = some query
append_args alloc query (arg ∷ args) =
    let rest = append_args alloc ((query ++ b' ' ∷ []) ++ arg) args in
    if not (alloc (length query + 2))
    then none
    else if not (alloc (length query + 1 + length arg + 1))
    then none
    else rest

unfoldable pub query_string_from_args : (ℕ → Bool) → List Bytes → Option Bytes
unfolding append_args
query_string_from_args alloc [] = if alloc 1 then some [] else none
query_string_from_args alloc (arg ∷ args) =
    if not (alloc 1)
    then none
    else if not (alloc (length arg + 1))
    then none
    else append_args alloc arg args
