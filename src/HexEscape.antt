-- ===== src/HexEscape.antt =====
-- util/hex-escape.c: byte strings as path-safe text and back.
-- `hex_decode_inplace` on its memory is HexEscape/Inplace.
pub mod RoundTrip
pub mod Inplace
pub mod Buffers
use notmuch.Prelude.{
  ℕ, zero, suc, ◌+◌, ◌-◌, ◌*◌, ◌/◌, ◌%◌, Option, none, some, get_or, set, Bool, true, false, not,
  ◌&&◌, List, [], ◌∷◌, ◌++◌, ltb, ◌==◌, if◌then◌else◌, length,
}
use notmuch.Prelude.Bytes.{Bytes, codes, contains, isxdigit, isdigit, between}

pub data HexStatus : Type 0 where
  success syntax_error out_of_memory : HexStatus

abbrev output_charset : Bytes
output_charset = codes "ABCDEFGHIJKLMNOPQRSTUVWXYZabcdefghijklmnopqrstuvwxyz0123456789+-_@=.,"

abbrev pub escape_char : ℕ
escape_char = b'%'

unfoldable pub is_output : ℕ → Bool
is_output c = contains output_charset c

-- A `char **out` with its `size_t *out_size`: whether the pointer is set, the size that the
-- caller keeps, and the text that the buffer holds up to its NUL.
pub record OutBuffer : Type 0 where
  pub allocated : Bool
  pub out_size : ℕ
  pub text : Bytes

-- The answer of maybe_realloc, with the buffer. `alloc n` says whether the allocator grants n bytes.
unfoldable pub maybe_realloc : (ℕ → Bool) → ℕ → OutBuffer → Bool × OutBuffer
maybe_realloc alloc needed out =
    if ltb out.out_size needed
    then (if alloc needed
        then (true, record out { allocated = true; out_size = needed })
        else (false, record out { allocated = false }))
    else (true, out)

-- One lower-case digit of "%02x".
unfoldable pub hex_digit : ℕ → ℕ
hex_digit d = if ltb d 10 then b'0' + d else b'a' + (d - 10)

-- What the writing loop puts out for one byte.
unfoldable pub encode_byte : ℕ → Bytes
unfolding hex_digit
encode_byte c =
    if is_output c then c ∷ [] else escape_char ∷ hex_digit (c / 16) ∷ hex_digit (c % 16) ∷ []

-- The writing loop of hex_encode.
unfoldable pub encode : Bytes → Bytes
encode [] = []
encode (c ∷ s) = encode_byte c ++ encode s

-- The loop that counts the bytes of the result, the NUL included.
unfoldable pub encode_needed : ℕ → Bytes → ℕ
encode_needed needed [] = needed
encode_needed needed (c ∷ s) = encode_needed (needed + (if is_output c then 1 else 3)) s

-- A caller that passes no buffer has a size of 0.
abbrev reset_size : OutBuffer → OutBuffer
reset_size out = if out.allocated then out else record out { out_size = 0 }

unfoldable pub hex_encode : (ℕ → Bool) → Bytes → OutBuffer → HexStatus × OutBuffer
unfolding maybe_realloc
hex_encode alloc s out =
    let (granted, out') = maybe_realloc alloc (encode_needed 1 s) (reset_size out) in
    if granted then (success, record out' { text = encode s }) else (out_of_memory, out')

-- The value of a hexadecimal digit, as strtoul reads it.
unfoldable pub hex_value : ℕ → ℕ
hex_value c = if isdigit c then c - b'0' else if between b'A' b'F' c then c - 55 else c - 87

abbrev pub emit : ℕ → HexStatus × Bytes → HexStatus × Bytes
emit c (st, out) = (st, c ∷ out)

-- hex_decode_internal: the status, and what was written before it returned. The second clause
-- is an end of string within two bytes of the current one.
unfoldable pub hex_decode_internal : Bytes → HexStatus × Bytes
unfolding hex_value
hex_decode_internal [] = (success, [])
hex_decode_internal (c ∷ a ∷ b ∷ s) =
    let plain = emit c (hex_decode_internal (a ∷ b ∷ s)) in
    let escaped = emit (hex_value a * 16 + hex_value b) (hex_decode_internal s) in
    if c == escape_char
    then (if isxdigit a && isxdigit b then escaped else (syntax_error, []))
    else plain
hex_decode_internal (c ∷ s) =
    let plain = emit c (hex_decode_internal s) in
    if c == escape_char then (syntax_error, []) else plain

-- The loop of hex_decode that counts the bytes of the result. It steps by single bytes: an
-- escape counts -1, and its two digits count as plain bytes.
unfoldable pub decode_needed : ℕ → Bytes → ℕ
decode_needed needed [] = needed
decode_needed needed (c ∷ a ∷ b ∷ s) =
    decode_needed
      (if c == escape_char && (isxdigit a && isxdigit b) then needed - 1 else needed + 1)
      (a ∷ b ∷ s)
decode_needed needed (c ∷ s) = decode_needed (needed + 1) s

-- hex_decode, unlike hex_encode, takes the size as it is: with no buffer and a large size it writes
-- through a null pointer, here `none`.
unfoldable pub hex_decode : (ℕ → Bool) → Bytes → OutBuffer → Option (HexStatus × OutBuffer)
unfolding maybe_realloc
hex_decode alloc s out =
    let (granted, out') = maybe_realloc alloc (decode_needed 1 s) out in
    let (st, written) = hex_decode_internal s in
    if not granted
    then some (out_of_memory, out')
    else if out'.allocated
    then some (st, record out' { text = written })
    else none

-- hex_decode_inplace: the same loop with `in` and `out` as positions in one memory. `none` is a
-- loop that has not ended within the fuel.
unfoldable pub hex_decode_inplace : ℕ → Bytes → ℕ → ℕ → Option (HexStatus × Bytes)
unfolding hex_value
hex_decode_inplace zero m i o = none
hex_decode_inplace (suc fuel) m i o =
    let c = get_or m i 0 in
    let a = get_or m (i + 1) 0 in
    let b = get_or m (i + 2) 0 in
    let escaped =
      hex_decode_inplace fuel (set m o (hex_value a * 16 + hex_value b)) (i + 3) (o + 1) in
    let plain = hex_decode_inplace fuel (set m o c) (i + 1) (o + 1) in
    if c == 0
    then some (success, set m o 0)
    else if c == escape_char
    then (if isxdigit a && isxdigit b then escaped else some (syntax_error, m))
    else plain
