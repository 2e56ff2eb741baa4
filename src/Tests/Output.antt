-- ===== src/Tests/Output.antt =====
-- sprinter-json.c and sprinter-sexp.c at a concrete tree.
use notmuch.Prelude.{◌<◌, false, some, [], ◌∷◌, ◌++◌, ◌≡◌, refl, arith, suc, length, All}
use notmuch.Prelude.Bytes.{Bytes, codes}
use notmuch.HexEscape.{hex_digit}
use notmuch.Sprinter.{
  Value, null_value, string_value, list_value, map_value, no_items, item, no_fields, field,
  show_value,
}
use notmuch.Sprinter.Json.{sprinter_json, sprinter_json_create, json_char, json_chars, escape_of}
use notmuch.Sprinter.Json.Layout.{value_text, ending, show_value-value_text}
use notmuch.Sprinter.Json.Strings.{read_string, read_string-json_chars}
use notmuch.Sprinter.Sexp.{sprinter_sexp, sprinter_sexp_create, sexp_char, sexp_chars}
use notmuch.Sprinter.Sexp.Layout.{sexp_text, sexp_ending, show_value-sexp_text}
use notmuch.Sprinter.Text.{text_string, text_separator, text_set_prefix, sprinter_text0_create}
use notmuch.Sprinter.Sexp.Strings.{read_sexp_string, read_sexp_string-sexp_chars}

abbrev message : Value
message = map_value (
    field (codes "id") (string_value (codes "a\"b")) (
      field (codes "tags")
        (list_value (item (string_value (codes "inbox")) (item null_value no_items))) no_fields))

message_json : value_text message ≡ codes "{\"id\": \"a\\\"b\", \"tags\": [\"inbox\", null]}"
unfolding json_chars json_char escape_of
message_json = refl

message_sexp : sexp_text message ≡ codes "(:id \"a\\\"b\" :tags (\"inbox\" nil))"
unfolding sexp_chars sexp_char
message_sexp = refl

show_value-value_text_example :
    show_value sprinter_json message sprinter_json_create
    ≡ some (record {
      stream = value_text message ++ ending message;
      state = [];
      insert_separator = false;
    })
show_value-value_text_example = show_value-value_text message

show_value-sexp_text_example :
    show_value sprinter_sexp message sprinter_sexp_create
    ≡ some (record {
      stream = sexp_text message ++ sexp_ending message;
      state = [];
      insert_separator = false;
    })
show_value-sexp_text_example = show_value-sexp_text message (refl, tt, (refl, (tt, (tt, tt)), tt))

abbrev odd : Bytes
odd = b'"' ∷ 1 ∷ 10 ∷ b'x' ∷ []

odd-bytes : All (λ c. c < 256) odd
odd-bytes = (omega arith, (omega arith, (omega arith, (omega arith, tt))))

odd_json : json_chars odd ≡ codes "\\\"\\u0001\\nx"
unfolding json_chars json_char escape_of hex_digit
odd_json = refl

read_string-json_chars_example :
    read_string (suc (length odd)) (json_chars odd ++ b'"' ∷ codes ", 1") ≡ some (odd, codes ", 1")
read_string-json_chars_example = read_string-json_chars odd (codes ", 1") odd-bytes

read_sexp_string-sexp_chars_example :
    read_sexp_string (suc (length odd)) (sexp_chars odd ++ b'"' ∷ codes " 1")
    ≡ some (odd, codes " 1")
read_sexp_string-sexp_chars_example = read_sexp_string-sexp_chars odd (codes " 1") odd-bytes

prefixed :
    (text_separator (
      text_string
        (some (codes "a"))
        (text_set_prefix (some (codes "tag")) sprinter_text0_create))).stream
    ≡ codes "tag:a" ++ (0 ∷ [])
prefixed = refl
