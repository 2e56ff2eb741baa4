-- ===== src/Dump/Text.antt =====
-- notmuch-dump.c: the dump's text, with no buffer and no state.
use notmuch.Prelude.{
  ℕ, ◌+◌, ◌*◌, length, Bool, true, false, not, ◌&&◌, Option, some, List, [], ◌∷◌, ◌++◌,
  append_assoc, append-nil, if◌then◌else◌, ◌≡◌, refl, sym, ap, ◌∙◌, inl, inr, Bool-cases,
}
use notmuch.Prelude.Bytes.{Bytes, codes, contains}
use notmuch.HexEscape.{HexStatus, OutBuffer, hex_encode, encode}
use notmuch.HexEscape.Buffers.{hex_encode_outcome}
use notmuch.BooleanTerm.{make_boolean_term, term_text}
use notmuch.BooleanTerm.Bounds.{make_boolean_term_outcome}
use notmuch.BooleanTerm.RoundTrip.{Grants}
use notmuch.Dump.{
  DumpFormat, Entry, DumpState, put, is_sup, dump_tag, dump_tags, dump_end, dump_message,
  dump_messages, no_buffer, database_dump_file,
}

-- One tag in a format.
abbrev pub tag_text : DumpFormat → Bytes → Bytes
tag_text format tag = if is_sup format then tag else b'+' ∷ encode tag

-- The tags with blanks between them.
abbrev pub tags_text : DumpFormat → Bool → List Bytes → Bytes
tags_text format first [] = []
tags_text format first (t ∷ ts) =
    (if first then [] else codes " ") ++ (tag_text format t ++ tags_text format false ts)

-- The line of a message in a format.
abbrev pub line_text : DumpFormat → Entry → Bytes
line_text format m =
    if is_sup format
    then (m.id ++ codes " (") ++ (tags_text format true m.tags ++ codes ")\n")
    else tags_text format true m.tags
      ++ (codes " -- " ++ (term_text (some (codes "id")) m.id ++ codes "\n"))

-- A message whose id holds a newline has no line in the batch format.
abbrev pub dump_text : DumpFormat → List Entry → Bytes
dump_text format [] = []
dump_text format (m ∷ ms) =
    (if not (is_sup format) && contains m.id 10 then [] else line_text format m)
    ++ dump_text format ms

-- The outcome of a part of the dump: success, with `text` appended to the output.
abbrev Wrote : Bytes → DumpState → Bool × DumpState → Type 0
Wrote text st r = (r.0 ≡ true) × (r.1.output ≡ st.output ++ text)

module _ (alloc : ℕ → Bool) (granted : Grants alloc) (format : DumpFormat) where
  hex_encode_granted :
      (s : Bytes) (out : OutBuffer)
      → ((hex_encode alloc s out).0 ≡ HexStatus.success)
        × ((hex_encode alloc s out).1.text ≡ encode s)
  hex_encode_granted s out = elim (hex_encode_outcome alloc s out) [
    | inl (a, b, _, _) ↦ (a, b)
    | inr (_, refused, _) ↦ cc (granted (length (encode s) + 1), refused)
  ]

  make_term_granted :
      (p : Option Bytes) (s : Bytes) (out : OutBuffer)
      → ((make_boolean_term alloc p s out).0 ≡ true)
        × ((make_boolean_term alloc p s out).1.text ≡ term_text p s)
  make_term_granted p s out = elim (make_boolean_term_outcome alloc p s out) [
    | inl (a, _, b, _) ↦ (a, b)
    | inr (_, _, refused) ↦ cc (granted (2 * (length (term_text p s) + 1)), refused)
  ]

  dump_tag-Wrote :
      (tag : Bytes) (st : DumpState) → Wrote (tag_text format tag) st (dump_tag alloc format tag st)
  unfolding dump_tag
  dump_tag-Wrote tag st =
      let (a, b) = hex_encode_granted tag st.buffer in
      elim (Bool-cases (is_sup format)) [
        | inl e ↦ rw e (refl, refl)
        | inr e ↦ rw e (rw a (refl, ap (λ t. st.output ++ b'+' ∷ t) b))
      ]

  dump_tags-Wrote :
      (first : Bool) (tags : List Bytes) (st : DumpState)
      → Wrote (tags_text format first tags) st (dump_tags alloc format first tags st)
  unfolding dump_tags
  dump_tags-Wrote first [] st = (refl, sym (append-nil st.output))
  dump_tags-Wrote true (t ∷ ts) st =
      let (a, b) = dump_tag-Wrote t st in
      let (c, d) = dump_tags-Wrote false ts (dump_tag alloc format t st).1 in
      rw a (c, d ∙ rw b (append_assoc st.output (tag_text format t) (tags_text format false ts)))
  dump_tags-Wrote false (t ∷ ts) st =
      let (a, b) = dump_tag-Wrote t (put (codes " ") st) in
      let (c, d) = dump_tags-Wrote false ts (dump_tag alloc format t (put (codes " ") st)).1 in
      rw a (c, d ∙ rw b (simp append_assoc))

  abbrev end_text : Bytes → Bytes
  end_text id =
      if is_sup format
      then codes ")\n"
      else codes " -- " ++ (term_text (some (codes "id")) id ++ codes "\n")

  dump_end-Wrote :
      (id : Bytes) (st : DumpState) → Wrote (end_text id) st (dump_end alloc format id st)
  unfolding dump_end
  dump_end-Wrote id st =
      let (a, b) = make_term_granted (some (codes "id")) id st.buffer in
      elim (Bool-cases (is_sup format)) [
        | inl e ↦ rw e (refl, refl)
        | inr e ↦ rw e (rw a (refl, ap (λ t. st.output ++ (codes " -- " ++ (t ++ codes "\n"))) b))
      ]

  Wrote-end :
      (id text : Bytes) (st : DumpState) (r : Bool × DumpState)
      → Wrote text st r
      → Wrote (text ++ end_text id) st (if r.0 then dump_end alloc format id r.1 else (false, r.1))
  Wrote-end id text st (true, st') (a, b) =
      let (c, d) = dump_end-Wrote id st' in
      (c, d ∙ rw b (append_assoc st.output text (end_text id)))
  Wrote-end id text st (false, st') (a, b) = cc a

  dump_message-Wrote :
      (m : Entry) (st : DumpState)
      → Wrote
          (if not (is_sup format) && contains m.id 10 then [] else line_text format m)
          st
          (dump_message alloc format m st)
  unfolding dump_message
  dump_message-Wrote m st = elim (Bool-cases (is_sup format)) [
    | inl e ↦
        let st' = put (m.id ++ codes " (") st in
        let w =
          Wrote-end m.id (tags_text format true m.tags) st' (dump_tags alloc format true m.tags st')
            (dump_tags-Wrote true m.tags st') in
        let (a, b) = rw e at w in rw e (a, b ∙ append_assoc st.output (m.id ++ codes " (") _)
    | inr e ↦
        let w =
          Wrote-end m.id (tags_text format true m.tags) st (dump_tags alloc format true m.tags st)
            (dump_tags-Wrote true m.tags st) in
        let (a, b) = rw e at w in
        rw e (elim (Bool-cases (contains m.id 10)) [
          | inl n ↦ rw n (refl, sym (append-nil st.output))
          | inr n ↦ rw n (a, b)
        ])
  ]

  dump_messages-Wrote :
      (ms : List Entry) (st : DumpState)
      → Wrote (dump_text format ms) st (dump_messages alloc format ms st)
  unfolding dump_messages
  dump_messages-Wrote [] st = (refl, sym (append-nil st.output))
  dump_messages-Wrote (m ∷ ms) st =
      let (a, b) = dump_message-Wrote m st in
      let (c, d) = dump_messages-Wrote ms (dump_message alloc format m st).1 in
      rw a (c, d ∙ rw b (append_assoc st.output _ (dump_text format ms)))

  -- Where every allocation is granted, a dump succeeds and is the lines of the messages in their
  -- order, without those that the batch format leaves out. No text of one message depends on
  -- what the shared buffer held after another.
  pub database_dump_file-dump_text :
      (ms : List Entry) → database_dump_file alloc format ms ≡ (true, dump_text format ms)
  unfolding database_dump_file
  database_dump_file-dump_text ms =
      let (a, b) = dump_messages-Wrote ms (record { output = []; buffer = no_buffer }) in rw (a, b)
