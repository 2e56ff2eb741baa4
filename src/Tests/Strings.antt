-- ===== src/Tests/Strings.antt =====
-- util/hex-escape.c, util/string-util.c and query-string.c at concrete inputs.
use notmuch.Prelude.{
  inr, ℕ, suc, ◌+◌, ◌≤◌, Bool, true, false, none, some, List, [], ◌∷◌, ◌++◌, ◌≡◌, ◌⊎◌, ◌*◌, refl,
  arith, length,
}
use notmuch.Prelude.Bytes.{Bytes, codes, IsCString}
use notmuch.HexEscape.{
  encode_byte, success, syntax_error, OutBuffer, encode, hex_encode, hex_decode,
  hex_decode_internal, hex_decode_inplace, is_output,
}
use notmuch.HexEscape.Buffers.{Decoded, hex_decode-hex_encode}
use notmuch.HexEscape.Inplace.{hex_decode_inplace_lem}
use notmuch.BooleanTerm.{
  parsed, einval, term_text, parse_boolean_term, make_boolean_term, unquote, need_quoting,
  any_quoted, is_quoted_char, double_quotes, split_colon, skip_space, span_unquoted,
}
use notmuch.BooleanTerm.RoundTrip.{parse-make_boolean_term}
use notmuch.BooleanTerm.Bounds.{make_boolean_term_outcome}
use notmuch.StringUtil.{query_string_from_args}

abbrev all_granted : ℕ → Bool
all_granted n = true

abbrev no_buffer : OutBuffer
no_buffer = record { allocated = false; out_size = 0; text = [] }

abbrev odd_tag : Bytes
odd_tag = codes "a b%("

odd_tag-IsCString : IsCString odd_tag
odd_tag-IsCString = omega arith

encode-odd_tag : encode odd_tag ≡ codes "a%20b%25%28"
unfolding encode encode_byte is_output
encode-odd_tag = refl

decode_odd_tag : hex_decode_internal (codes "a%20b%25%28") ≡ (success, odd_tag)
unfolding hex_decode_internal
decode_odd_tag = refl

decode_short : (hex_decode_internal (codes "ab%4")).0 ≡ syntax_error
unfolding hex_decode_internal
decode_short = refl

decode_in_place :
    hex_decode_inplace 6 (codes "a%41b" ++ 0 ∷ 7 ∷ []) 0 0
    ≡ some (success, b'a' ∷ b'A' ∷ b'b' ∷ 0 ∷ b'b' ∷ 0 ∷ 7 ∷ [])
unfolding hex_decode_inplace
decode_in_place = refl

hex_decode-hex_encode_example :
    ((hex_encode all_granted odd_tag no_buffer).0 ≡ success)
    × Decoded odd_tag
        (hex_decode all_granted (hex_encode all_granted odd_tag no_buffer).1.text no_buffer)
hex_decode-hex_encode_example =
    hex_decode-hex_encode all_granted odd_tag no_buffer no_buffer odd_tag-IsCString (inr refl) refl
      refl

hex_decode_inplace_lem_example :
    (junk : Bytes) × (hex_decode_inplace (suc (length odd_tag)) (odd_tag ++ 0 ∷ 7 ∷ []) 0 0
      ≡ some ((hex_decode_internal odd_tag).0, (hex_decode_internal odd_tag).1 ++ (junk ++ 7 ∷ [])))
    × (length ((hex_decode_internal odd_tag).1 ++ (junk ++ 7 ∷ []))
        ≡ length (odd_tag ++ 0 ∷ 7 ∷ []))
    × (((j : Bytes) × (junk ≡ 0 ∷ j)) ⊎ ((hex_decode_internal odd_tag).0 ≡ syntax_error))
hex_decode_inplace_lem_example = hex_decode_inplace_lem odd_tag (7 ∷ []) odd_tag-IsCString

-- A term that is quoted, with a quote inside.
abbrev quoted_term : Bytes
quoted_term = codes "a\"b c"

quoted : term_text (some (codes "id")) quoted_term ≡ codes "id:\"a\"\"b c\""
unfolding term_text need_quoting any_quoted is_quoted_char double_quotes
quoted = refl

unquoted : parse_boolean_term all_granted (codes " id:a@b ") ≡ parsed (codes "id") (codes "a@b")
unfolding parse_boolean_term split_colon skip_space span_unquoted unquote
unquoted = refl

trailing : parse_boolean_term all_granted (codes "id:\"a\" b") ≡ einval
unfolding parse_boolean_term split_colon skip_space span_unquoted unquote
trailing = refl

parse-make_boolean_term_example :
    parse_boolean_term all_granted (term_text (some (codes "id")) quoted_term ++ codes " \n")
    ≡ parsed (codes "id") quoted_term
parse-make_boolean_term_example =
    parse-make_boolean_term all_granted (codes "id") quoted_term (codes " \n") (λ n. refl)
      (record { nonempty = λ e. cc e; no_colon = omega arith; no_space = refl }) (refl, (refl, tt))

make_boolean_term_outcome_example :
    (((make_boolean_term all_granted none quoted_term no_buffer).0 ≡ true)
      × ((make_boolean_term all_granted none quoted_term no_buffer).1.allocated ≡ true)
      × ((make_boolean_term all_granted none quoted_term no_buffer).1.text
          ≡ term_text none quoted_term)
      × (length (term_text none quoted_term) + 1
          ≤ (make_boolean_term all_granted none quoted_term no_buffer).1.out_size))
    ⊎ (((make_boolean_term all_granted none quoted_term no_buffer).0 ≡ false)
        × ((make_boolean_term all_granted none quoted_term no_buffer).1.allocated ≡ false)
        × (all_granted (2 * (length (term_text none quoted_term) + 1)) ≡ false))
make_boolean_term_outcome_example = make_boolean_term_outcome all_granted none quoted_term no_buffer

abbrev words : List Bytes
words = codes "tag:inbox" ∷ codes "and" ∷ codes "date:today" ∷ []

query_of_words : query_string_from_args all_granted words ≡ some (codes "tag:inbox and date:today")
unfolding query_string_from_args
query_of_words = refl
