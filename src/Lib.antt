-- ===== src/Lib.antt =====
-- The command-line program of notmuch around the tags of messages: how tag operations are written
-- and parsed (tag-util.c), applied to a message and its database document (tag-util.c,
-- lib/message.cc), and how a dump of all tags is written and read back (notmuch-dump.c,
-- notmuch-restore.c), with the string and escaping routines below them (util/hex-escape.c,
-- util/string-util.c, query-string.c). Beside these, the option parser of all commands
-- (command-line-arguments.c), the printers of structured output (sprinter-json.c, sprinter-sexp.c,
-- sprinter-text.c), the parser of dates in searches (parse-time-string/parse-time-string.c), the
-- parser of message ids in headers and the linking of messages into threads, atomic sections,
-- features and paths (lib/database.cc), the summary of a thread (lib/thread.cc), and the filter that marks the lines of a reply
-- (gmime-filter-reply.c).
--
-- Files and the code they are about:
--   Prelude        bytes, lists, Boolean tests and natural numbers; C strings
--   HexEscape      util/hex-escape.c: is_output, maybe_realloc, hex_encode, hex_decode_internal,
--                  hex_decode, hex_decode_inplace
--   StringUtil     util/string-util.c: strtok_len, sanitize_string, strcmp_null, strcase_equal,
--                  strcase_hash; query-string.c; chomp_newline of notmuch-client.h
--   BooleanTerm    util/string-util.c: make_boolean_term, parse_boolean_term
--   Message        lib/message.cc: tags of a message, freeze, thaw, sync
--   Maildir        lib/message.cc: the flags of file names in maildirs; Maildir/Sync has
--                  notmuch_message_maildir_flags_to_tags and notmuch_message_tags_to_maildir_flags
--   TagUtil        tag-util.c: the operation list and the two parsers; TagUtil/Apply has
--                  makes_changes and tag_op_list_apply
--   Dump           notmuch-dump.c: database_dump_file
--   Restore        notmuch-restore.c: the lines of both formats, the loop, tag_message
--   TagCommand     notmuch-tag.c: the optimised query, tag_query, tag_file
--   Options        command-line-arguments.c: parse_arguments, parse_option, parse_position_arg
--   Sprinter       sprinter.h; Sprinter/Json, Sprinter/Sexp and Sprinter/Text are sprinter-json.c,
--                  sprinter-sexp.c and sprinter-text.c
--   ParseTime      parse-time-string/parse-time-string.c: State is the fields and their setters,
--                  Keywords the table and its matching, Numbers the dates and times, Input the loop
--                  over the tokens, Output create_output; parse_time_string joins them
--   MessageId      lib/database.cc: skip_space_and_comments, _parse_message_id, parse_references
--   Threads        lib/database.cc and lib/message.cc: message documents, ghost messages and thread
--                  ids; Threads/Link has _resolve_message_id_to_thread_id, _merge_threads and
--                  _notmuch_database_link_message, Threads/Add what notmuch_database_add_message
--                  does to documents
--   Summary        lib/thread.cc: authors, subject, counts and dates of a thread; Summary/Replies has
--                  the tree of replies
--   Database       lib/database.cc: atomic sections and revisions; Database/Features has
--                  _parse_features and _print_features, Database/Paths the functions on paths
--   ReplyFilter    gmime-filter-reply.c: the filter that marks replies
--   Tests          concrete inputs
--
-- A C string is the list of its bytes, without the final NUL; where the bytes behind it matter
-- (hex_decode_inplace) the memory is a list of bytes with positions. An allocation is asked of a
-- function from the size to whether it is granted. hash arithmetic is modulo 2^32; sizes are
-- natural numbers, as no buffer comes near the word size. Loops that are not structural run on fuel:
-- parse_tag_line gives its loop one more than the length of the line, sup_tags the same for the
-- tags, and parse_tokens and references_from one more than the length of the input. The date parser
-- computes with integers that do not overflow; time, gmtime_r, localtime_r, mktime and timegm are
-- arguments. The Xapian document and the Xapian database are records of operations with the laws
-- their documentation states; document ids have 32 bits and thread ids 64.
-- Messages are added inside an atomic section, so that all their documents get the revision behind
-- that of the database, which stays as it is until the section ends; dates of messages are signed;
-- rename, the names of a message in the database, the search for messages, strtol and the times of
-- an interrupt are arguments, and so is notmuch_message_tags_to_maildir_flags to tag_op_list_apply.
--
-- Not modelled: messages on standard error, the opening of files and of the database, the options of
-- the commands, and the parts of the program that stand on GMime, GLib and Xapian alone.
pub mod Prelude
pub mod HexEscape
pub mod StringUtil
pub mod BooleanTerm
pub mod Message
pub mod Maildir
pub mod TagUtil
pub mod TagCommand
pub mod Dump
pub mod Restore
pub mod Options
pub mod Sprinter
pub mod ParseTime
pub mod MessageId
pub mod Threads
pub mod Summary
pub mod Database
pub mod ReplyFilter
pub mod Tests
