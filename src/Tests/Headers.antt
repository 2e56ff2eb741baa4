-- ===== src/Tests/Headers.antt =====
-- The ids of headers and the reply filter at concrete inputs.
use notmuch.Prelude.{true, false, none, some, List, [], ◌∷◌, ◌++◌, ◌≡◌, refl}
use notmuch.Prelude.Bytes.{Bytes, codes}
use notmuch.MessageId.{parse_message_id, parse_references, last_of}
use notmuch.MessageId.Progress.{no_self_or_parent, parse_references-no_self}
use notmuch.MessageId.Header.{header, others, parse_references-header}
use notmuch.ReplyFilter.{g_mime_filter_reply_new, filter_filter, filter_pieces}
use notmuch.ReplyFilter.RoundTrip.{join, without_cr, filter_pieces-filter_pieces}

-- An id of one byte is lost; of two blanks within an id one stays.
one_byte : parse_message_id (codes "<a> <bc>") ≡ (none, codes " <bc>")
unfolding parse_message_id
one_byte = refl

two_blanks : parse_message_id (codes "<a  b>") ≡ (some (codes "a b"), [])
unfolding parse_message_id
two_blanks = refl

comment :
    parse_message_id (codes "(see \\) (x)) <id@host> y") ≡ (some (codes "id@host"), codes " y")
unfolding parse_message_id
comment = refl

abbrev items : List (Bytes × Bytes)
items = (codes "", codes "a@x") ∷ (codes " ", codes "b@x") ∷ (codes "\n ", codes "c@x") ∷ []

parse_references-header_example :
    parse_references (codes "c@x") (header items)
    ≡ some (others (codes "c@x") items, last_of (others (codes "c@x") items))
parse_references-header_example = parse_references-header (codes "c@x") items refl

parse_references-no_self_example :
    no_self_or_parent (codes "b@x") (parse_references (codes "b@x") (codes "<b@x> <c@x")) ≡ true
parse_references-no_self_example = parse_references-no_self (codes "b@x") (codes "<b@x> <c@x")

-- A newline at the start of a line is not taken for the end of one, so the next marker stays.
empty_line : (filter_filter (codes "\n> x") (g_mime_filter_reply_new false)).0 ≡ codes "\n> x"
unfolding filter_filter
empty_line = refl

abbrev letter : List Bytes
letter = codes "one\r" ∷ codes "\ntwo" ∷ []

abbrev marked : List Bytes
marked = codes ">" ∷ codes " one\n> tw" ∷ []

marked-letter :
    join marked ++ codes "o\n" ≡ filter_pieces letter (codes "\n") (g_mime_filter_reply_new true)
unfolding filter_pieces
marked-letter = refl

filter_pieces-filter_pieces_example :
    filter_pieces marked (codes "o\n") (g_mime_filter_reply_new false)
    ≡ without_cr (join letter ++ codes "\n")
filter_pieces-filter_pieces_example =
    filter_pieces-filter_pieces letter marked (codes "\n") (codes "o\n") marked-letter
