-- ===== src/Dump.antt =====
-- notmuch-dump.c: database_dump_file, the text that it writes for each message. The query and its
-- result are an argument, the list of messages; the compressed stream is its text.
pub mod Text
use notmuch.Prelude.{
  ℕ, Bool, true, false, not, ◌&&◌, Option, none, some, List, [], ◌∷◌, ◌++◌, if◌then◌else◌,
}
use notmuch.Prelude.Bytes.{Bytes, codes, contains}
use notmuch.HexEscape.{HexStatus, OutBuffer, hex_encode}
use notmuch.BooleanTerm.{make_boolean_term}

-- DUMP_FORMAT_…; `auto` is for restoring only.
pub data DumpFormat : Type 0 where
  auto batch_tag sup : DumpFormat

-- What the dump reads of a message: its id, and its tags in the library's order.
pub record Entry : Type 0 where
  pub id : Bytes
  pub tags : List Bytes

-- The text written so far, and the one buffer that the loop keeps.
pub record DumpState : Type 0 where
  pub output : Bytes
  pub buffer : OutBuffer

abbrev pub put : Bytes → DumpState → DumpState
put s st = record st { output = st.output ++ s }

abbrev pub is_sup : DumpFormat → Bool
is_sup sup = true
is_sup _ = false

-- One tag of the inner loop. `false` is the return of EXIT_FAILURE.
unfoldable pub dump_tag : (ℕ → Bool) → DumpFormat → Bytes → DumpState → Bool × DumpState
dump_tag alloc format tag st =
    let (status, buf) = hex_encode alloc tag st.buffer in
    if is_sup format then (true, put tag st) else elim status [
      | HexStatus.success ↦ (true, put (b'+' ∷ buf.text) (record st { buffer = buf }))
      | _ ↦ (false, record st { buffer = buf })
    ]

unfoldable pub dump_tags :
    (ℕ → Bool) → DumpFormat → Bool → List Bytes → DumpState → Bool × DumpState
dump_tags alloc format first [] st = (true, st)
dump_tags alloc format first (tag ∷ tags) st =
    let (done, st') = dump_tag alloc format tag (if first then st else put (codes " ") st) in
    let rest = dump_tags alloc format false tags st' in if done then rest else (false, st')

-- What follows the tags of a message.
unfoldable pub dump_end : (ℕ → Bool) → DumpFormat → Bytes → DumpState → Bool × DumpState
dump_end alloc format id st =
    let (made, buf) = make_boolean_term alloc (some (codes "id")) id st.buffer in
    if is_sup format
    then (true, put (codes ")\n") st)
    else if made
    then (true, put (codes " -- " ++ (buf.text ++ codes "\n")) (record st { buffer = buf }))
    else (false, record st { buffer = buf })

unfoldable pub dump_message : (ℕ → Bool) → DumpFormat → Entry → DumpState → Bool × DumpState
dump_message alloc format m st =
    let start = if is_sup format then put (m.id ++ codes " (") st else st in
    let (done, st') = dump_tags alloc format true m.tags start in
    if not (is_sup format) && contains m.id 10
    then (true, st)
    else if done
    then dump_end alloc format m.id st'
    else (false, st')

unfoldable pub dump_messages : (ℕ → Bool) → DumpFormat → List Entry → DumpState → Bool × DumpState
dump_messages alloc format [] st = (true, st)
dump_messages alloc format (m ∷ ms) st =
    let (done, st') = dump_message alloc format m st in
    let rest = dump_messages alloc format ms st' in if done then rest else (false, st')

abbrev pub no_buffer : OutBuffer
no_buffer = record { allocated = false; out_size = 0; text = [] }

-- Whether the dump succeeds, and its text.
unfoldable pub database_dump_file : (ℕ → Bool) → DumpFormat → List Entry → Bool × Bytes
database_dump_file alloc format ms =
    let (done, st) = dump_messages alloc format ms (record { output = []; buffer = no_buffer }) in
    (done, st.output)
