-- ===== src/Tests/Dumps.antt =====
-- notmuch-dump.c and notmuch-restore.c at a concrete message.
use notmuch.Prelude.{
  none, some, if◌then◌else◌, ℕ, Bool, true, false, [], ◌∷◌, map, ◌≡◌, refl, arith,
}
use notmuch.Prelude.Bytes.{contains, Bytes, codes, str_equal}
use notmuch.HexEscape.{encode, encode_byte, is_output}
use notmuch.BooleanTerm.{term_text, need_quoting, any_quoted, is_quoted_char, double_quotes}
use notmuch.Restore.Run.{IsKnown, IsRestored, last_tags, restore_lines-IsRestored}
use notmuch.Restore.Format.{open_paren, detect_format-line_text}
use notmuch.Tests.Tags.{lists, no_maildir}
use notmuch.TagUtil.{TagFlags, TagOpList}
use notmuch.Dump.{auto, batch_tag, sup, Entry, database_dump_file}
use notmuch.Dump.Text.{dump_text, line_text, database_dump_file-dump_text}
use notmuch.Restore.{detect_format, Database, restore_lines, tag_id, parse_batch_line}
use notmuch.Restore.Lines.{add, IsDumpable, parse_batch_line-line_text}

abbrev grants : ℕ → Bool
grants n = true

abbrev letter : Entry
letter = record { id = codes "a\"b"; tags = codes "to do" ∷ codes "inbox" ∷ [] }

letter_line : line_text batch_tag letter ≡ codes "+to%20do +inbox -- id:\"a\"\"b\"\n"
unfolding encode encode_byte is_output term_text need_quoting any_quoted is_quoted_char
    double_quotes
letter_line = refl

letter_sup : line_text sup letter ≡ codes "a\"b (to do inbox)\n"
letter_sup = refl

database_dump_file-dump_text_example :
    database_dump_file grants batch_tag (letter ∷ letter ∷ [])
    ≡ (true, dump_text batch_tag (letter ∷ letter ∷ []))
database_dump_file-dump_text_example =
    database_dump_file-dump_text grants (λ n. refl) batch_tag (letter ∷ letter ∷ [])

abbrev empty : TagOpList
empty = record { ops = []; size = 10; lost = false }

letter-IsDumpable : IsDumpable letter
letter-IsDumpable = record {
  id_text = omega arith;
  one_line = refl;
  tags_are_text = (omega arith, (omega arith, tt));
}

parse_batch_line-line_text_example :
    ((parse_batch_line grants (line_text batch_tag letter) empty).0 ≡ tag_id letter.id)
    × ((parse_batch_line grants (line_text batch_tag letter) empty).1.ops ≡ map add letter.tags)
parse_batch_line-line_text_example =
    parse_batch_line-line_text grants letter empty (λ n. refl) letter-IsDumpable

abbrev database : Database lists
database = record {
  docs = λ id. if str_equal letter.id id then some (codes "old" ∷ []) else none;
  fails = λ id. false;
  closed = false;
}

abbrev replacing : TagFlags
replacing = record {
  maildir_sync = false;
  remove_all = true;
  pre_optimized = false;
  be_generous = false;
}

letter-IsKnown : IsKnown database letter
letter-IsKnown = record {
  dumpable = letter-IsDumpable;
  short = (omega arith, (omega arith, tt));
  present = λ e. cc e;
}

restore_lines-IsRestored_example :
    let r =
      restore_lines grants no_maildir replacing batch_tag
        (map (line_text batch_tag) (letter ∷ []))
        empty
        database in
    (r.0 ≡ true)
    × ((j : Bytes) → IsRestored lists (last_tags j (letter ∷ [])) (database.docs j) (r.1.docs j))
restore_lines-IsRestored_example =
    restore_lines-IsRestored no_maildir replacing refl refl grants (letter ∷ []) empty database
      (λ n. refl) (record { writable = refl; finds = λ id. refl }) (letter-IsKnown, tt)

-- A batch line that is taken for one of a sup dump.
abbrev parenthesis : Entry
parenthesis = record { id = codes "a(b"; tags = codes "inbox" ∷ [] }

parenthesis_taken_for_sup : (if contains parenthesis.id open_paren then sup else batch_tag) ≡ sup
parenthesis_taken_for_sup = refl

detect_format-line_text_example :
    detect_format auto (line_text batch_tag parenthesis)
    ≡ (if contains parenthesis.id open_paren then sup else batch_tag)
detect_format-line_text_example = detect_format-line_text parenthesis (omega arith, tt)
