-- ===== src/BooleanTerm.antt =====
-- util/string-util.c: make_boolean_term and parse_boolean_term, the queries `prefix:term`.
pub mod Bounds
pub mod RoundTrip
use notmuch.Prelude.{
  ℕ, ◌+◌, ◌*◌, Bool, true, false, not, ◌&&◌, ◌||◌, Option, none, some, List, [], ◌∷◌, ◌++◌, ltb,
  leb, ◌==◌, if◌then◌else◌, length,
}
use notmuch.Prelude.Bytes.{Bytes, isspace, first_char}
use notmuch.HexEscape.{OutBuffer}

-- The NUL of the source's test is one of the bytes up to the blank.
unfoldable pub is_unquoted_terminator : ℕ → Bool
is_unquoted_terminator c = c == 0 || leb c b' ' || c == b')'

unfoldable pub is_quoted_char : ℕ → Bool
unfolding is_unquoted_terminator
is_quoted_char c = is_unquoted_terminator c || c == b'"' || c == b'(' || ltb 127 c

unfoldable pub any_quoted : Bytes → Bool
any_quoted [] = false
any_quoted (c ∷ s) = is_quoted_char c || any_quoted s

-- The local `need_quoting` after its loop.
unfoldable pub need_quoting : Bytes → Bool
need_quoting [] = true
need_quoting (c ∷ s) = any_quoted (c ∷ s)

unfoldable pub quoted_needed : ℕ → Bytes → ℕ
quoted_needed needed [] = needed
quoted_needed needed (c ∷ s) = quoted_needed (needed + (if c == b'"' then 2 else 1)) s

-- The copy that doubles the double quotes.
unfoldable pub double_quotes : Bytes → Bytes
double_quotes [] = []
double_quotes (c ∷ s) = let rest = c ∷ double_quotes s in if c == b'"' then b'"' ∷ rest else rest

abbrev prefix_needed : Option Bytes → ℕ
prefix_needed none = 0
prefix_needed (some p) = length p + 1

abbrev prefix_text : Option Bytes → Bytes
prefix_text none = []
prefix_text (some p) = p ++ b':' ∷ []

unfoldable pub term_needed : Option Bytes → Bytes → ℕ
term_needed prefix term =
    (if need_quoting term then quoted_needed 3 term else length term + 1) + prefix_needed prefix

-- The text that is written once the buffer is there.
unfoldable pub term_text : Option Bytes → Bytes → Bytes
term_text prefix term =
    prefix_text prefix
    ++ (if need_quoting term then b'"' ∷ (double_quotes term ++ b'"' ∷ []) else term)

-- true is the return value 0, false is -1 with errno ENOMEM. The buffer's `out_size` is `*len`.
unfoldable pub make_boolean_term : (ℕ → Bool) → Option Bytes → Bytes → OutBuffer → Bool × OutBuffer
make_boolean_term alloc prefix term buf =
    let needed = term_needed prefix term in
    let grown = not buf.allocated || ltb buf.out_size needed in
    let granted = not grown || alloc (2 * needed) in
    let size = if grown then 2 * needed else buf.out_size in
    if granted
    then (true, record { allocated = true; out_size = size; text = term_text prefix term })
    else (false, record buf { allocated = false; out_size = size })

unfoldable pub skip_space : Bytes → Bytes
skip_space [] = []
skip_space (c ∷ s) = let rest = skip_space s in if isspace c then rest else c ∷ s

-- strchr (str, ':'): what stands before the first colon, and what stands behind it.
unfoldable pub split_colon : Bytes → Option (Bytes × Bytes)
split_colon [] = none
split_colon (c ∷ s) =
    let rest = split_colon s in
    if c == b':' then some ([], s) else elim rest [ none ↦ none | some (p, r) ↦ some (c ∷ p, r) ]

-- The loop that finds the closing quote and un-doubles the doubled ones: whether it was closed,
-- what was written to the term, and what is left, from the byte after the closing quote.
unfoldable pub unquote : Bytes → Bool × Bytes × Bytes
unquote [] = (false, [], [])
unquote (c ∷ []) = if c == b'"' then (true, [], []) else (false, c ∷ [], [])
unquote (c ∷ d ∷ s) =
    let (closed, text, rest) = unquote s in
    let (closed', text', rest') = unquote (d ∷ s) in
    if c == b'"'
    then (if d == b'"' then (closed, b'"' ∷ text, rest) else (true, [], d ∷ s))
    else (closed', c ∷ text', rest')

-- The bytes before the first terminator, and the rest.
unfoldable pub span_unquoted : Bytes → Bytes × Bytes
unfolding is_unquoted_terminator
span_unquoted [] = ([], [])
span_unquoted (c ∷ s) =
    let (word, rest) = span_unquoted s in
    if is_unquoted_terminator c then ([], c ∷ s) else (c ∷ word, rest)

-- The outcomes: 0 with the prefix and the term, or -1 with errno.
pub data TermResult : Type 0 where
  parsed : Bytes → Bytes → TermResult
  einval enomem : TermResult

-- What follows the prefix, at the byte behind the colon.
unfoldable pub parse_term : (ℕ → Bool) → Bytes → Bytes → TermResult
parse_term alloc prefix (b ∷ pos) =
    let (closed, text, rest) = unquote pos in
    let (word, tail) = span_unquoted (b ∷ pos) in
    if b == b'"'
    then (if not (alloc (length (b ∷ pos)))
        then enomem
        else if not closed || not (first_char (skip_space rest) == 0)
        then einval
        else parsed prefix text)
    else if not (first_char (skip_space tail) == 0)
    then einval
    else if not (alloc (length word + 1))
    then enomem
    else parsed prefix word
parse_term alloc prefix [] = if alloc 1 then parsed prefix [] else enomem

unfoldable pub parse_boolean_term : (ℕ → Bool) → Bytes → TermResult
unfolding parse_term
parse_boolean_term alloc str = elim (split_colon (skip_space str)) [
  | none ↦ einval
  | some (prefix, pos) ↦
      if length prefix == 0
      then einval
      else if not (alloc (length prefix + 1))
      then enomem
      else parse_term alloc prefix pos
]
