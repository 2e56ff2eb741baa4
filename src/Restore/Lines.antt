-- ===== src/Restore/Lines.antt =====
-- notmuch-restore.c: a line that notmuch dump wrote is read back as the message's id and tags.
use notmuch.Prelude.{
  ℕ, Bool, true, false, some, List, [], ◌∷◌, ◌++◌, map, append_assoc, append-nil, ◌≡◌, ◌≢◌, refl,
  sym, ap, ◌∙◌, arith, All,
}
use notmuch.Prelude.Bytes.{Bytes, codes, contains, first_char, IsCString}
use notmuch.BooleanTerm.{parse_boolean_term, term_text}
use notmuch.BooleanTerm.RoundTrip.{Grants, IsPrefix, parse-make_boolean_term}
use notmuch.TagUtil.{TagOperation, TagOpList, TagParseStatus, TagLine, parse_tag_line}
use notmuch.TagUtil.RoundTrip.{
  render_op, render_ops, IsRenderable, IsIndent, parse_tag_line-render_ops,
}
use notmuch.Dump.{batch_tag, Entry}
use notmuch.Dump.Text.{tags_text, line_text}
use notmuch.Restore.{tag_id, batch_action, query_of, parse_batch_line, generous, term_action}

-- The operation that adds a tag.
abbrev pub add : Bytes → TagOperation
add t = record { tag = t; remove = false }

-- A message as the library stores it, with an id that a line can hold.
pub record IsDumpable (m : Entry) : Type 0 where
  pub id_text : IsCString m.id
  pub one_line : contains m.id 10 ≡ false
  pub tags_are_text : All IsCString m.tags

abbrev id_term : Bytes → Bytes
id_term id = term_text (some (codes "id")) id

tags_text-render_ops :
    (ts : List Bytes) (r : Bytes)
    → tags_text batch_tag false ts ++ (codes " -- " ++ r)
      ≡ b' ' ∷ render_ops (map add ts) (codes "--" ++ b' ' ∷ r)
tags_text-render_ops [] r = refl
tags_text-render_ops (t ∷ ts) r = ap (◌∷◌ b' ') (
    append_assoc (render_op (add t)) (tags_text batch_tag false ts) (codes " -- " ++ r)
    ∙ ap (◌++◌ (render_op (add t))) (tags_text-render_ops ts r))

abbrev lead : List Bytes → Bytes
lead [] = codes " "
lead (t ∷ ts) = []

first_tags-render_ops :
    (ts : List Bytes) (r : Bytes)
    → tags_text batch_tag true ts ++ (codes " -- " ++ r)
      ≡ lead ts ++ render_ops (map add ts) (codes "--" ++ b' ' ∷ r)
first_tags-render_ops [] r = refl
first_tags-render_ops (t ∷ ts) r =
    append_assoc (render_op (add t)) (tags_text batch_tag false ts) (codes " -- " ++ r)
    ∙ ap (◌++◌ (render_op (add t))) (tags_text-render_ops ts r)

lead-IsIndent : (ts : List Bytes) → IsIndent (lead ts)
lead-IsIndent [] = (refl, tt)
lead-IsIndent (t ∷ ts) = tt

adds-IsRenderable : (ts : List Bytes) → All IsCString ts → All (IsRenderable generous) (map add ts)
adds-IsRenderable [] h = tt
adds-IsRenderable (t ∷ ts) h =
    (record { text = h.0; no_marker = refl; legal = λ e. cc e }, adds-IsRenderable ts h.1)

render_ops-append :
    (ops : List TagOperation) (s t : Bytes) → render_ops ops s ++ t ≡ render_ops ops (s ++ t)
render_ops-append [] s t = refl
render_ops-append (op ∷ ops) s t =
    append_assoc (render_op op) (b' ' ∷ render_ops ops s) t
    ∙ ap (λ r. render_op op ++ b' ' ∷ r) (render_ops-append ops s t)

line_text-render_ops :
    (m : Entry)
    → line_text batch_tag m
      ≡ (lead m.tags ++ render_ops (map add m.tags) (codes "--" ++ b' ' ∷ id_term m.id)) ++ 10 ∷ []
line_text-render_ops m =
    first_tags-render_ops m.tags (id_term m.id ++ codes "\n")
    ∙ ap (◌++◌ (lead m.tags))
        (sym (render_ops-append (map add m.tags) (codes "--" ++ b' ' ∷ id_term m.id) (codes "\n")))
    ∙ sym (append_assoc (lead m.tags) _ (codes "\n"))

id-IsPrefix : IsPrefix (codes "id")
id-IsPrefix = record {
  nonempty = λ e. cc e;
  no_colon = (omega arith, (omega arith, tt));
  no_space = refl;
}

id_term_starts : (id : Bytes) → (id_term id ≢ []) × (first_char (id_term id) ≡ b'i')
unfolding term_text
id_term_starts id = (λ e. cc e, refl)

batch_action_success :
    (alloc : ℕ → Bool) (r : TagLine) (q : Bytes)
    → r.status ≡ TagParseStatus.success
    → r.query ≡ some q
    → batch_action alloc r ≡ (term_action (parse_boolean_term alloc q), r.list)
unfolding batch_action
batch_action_success alloc r q s e =
    rw s (ap (λ o. (term_action (parse_boolean_term alloc (query_of o)), r.list)) e)

-- Where every allocation is granted, and the id and the tags are text and the id has no newline: a
-- line that notmuch dump wrote in the batch format is read as the message's id, with one
-- operation for each of its tags, which adds the tag, in the order of the tags.
pub parse_batch_line-line_text :
    (alloc : ℕ → Bool) (m : Entry) (list : TagOpList)
    → Grants alloc
    → IsDumpable m
    → ((parse_batch_line alloc (line_text batch_tag m) list).0 ≡ tag_id m.id)
      × ((parse_batch_line alloc (line_text batch_tag m) list).1.ops ≡ map add m.tags)
unfolding parse_batch_line
parse_batch_line-line_text alloc m list g h =
    let q = id_term m.id in
    let (st, qu, ops) =
      parse_tag_line-render_ops alloc generous g (lead m.tags) q (map add m.tags) list
        (lead-IsIndent m.tags) (adds-IsRenderable m.tags h.tags_are_text) (id_term_starts m.id).0
        (rw (id_term_starts m.id).1 refl) in
    let line : Bytes =
      (lead m.tags ++ render_ops (map add m.tags) (codes "--" ++ b' ' ∷ q)) ++ 10 ∷ [] in
    let e = batch_action_success alloc (parse_tag_line alloc generous line list) q st qu in
    let p = ap term_action (
      ap (parse_boolean_term alloc) (sym (append-nil q))
      ∙ parse-make_boolean_term alloc (codes "id") m.id [] g id-IsPrefix tt) in
    rw (line_text-render_ops m) (rw e (p, ops))
