-- ===== src/TagCommand/Query.antt =====
-- notmuch-tag.c: the text of the optimised query.
use notmuch.Prelude.{
  ℕ, ◌+◌, ◌*◌, Bool, true, false, some, List, [], ◌∷◌, ◌++◌, append_assoc, ◌==◌, if◌then◌else◌,
  length, ◌≡◌, ap, ◌∙◌, inl, inr,
}
use notmuch.Prelude.Bytes.{Bytes, codes}
use notmuch.HexEscape.{OutBuffer}
use notmuch.BooleanTerm.{make_boolean_term, term_text}
use notmuch.BooleanTerm.Bounds.{make_boolean_term_outcome}
use notmuch.BooleanTerm.RoundTrip.{Grants}
use notmuch.TagUtil.{TagOperation, TagOpList, count}
use notmuch.TagCommand.{new_string, not_text, start_text, add_terms, _optimize_tag_query}

abbrev pub terms_text : Bool → List TagOperation → Bytes
terms_text first [] = codes ")"
terms_text first (op ∷ ops) =
    (if first then [] else codes " or ")
    ++ (not_text op.remove ++ (term_text (some (codes "tag")) op.tag ++ terms_text false ops))

module _ (alloc : ℕ → Bool) (granted : Grants alloc) where
  make_term :
      (s : Bytes) (buf : OutBuffer)
      → ((make_boolean_term alloc (some (codes "tag")) s buf).0 ≡ true)
        × ((make_boolean_term alloc (some (codes "tag")) s buf).1.text
            ≡ term_text (some (codes "tag")) s)
  make_term s buf = elim (make_boolean_term_outcome alloc (some (codes "tag")) s buf) [
    | inl (a, _, b, _) ↦ (a, b)
    | inr (_, _, refused) ↦
        cc (granted (2 * (length (term_text (some (codes "tag")) s) + 1)), refused)
  ]

  new_string_granted : (s : Bytes) → new_string alloc s ≡ some s
  new_string_granted s = rw (granted (length s + 1))

  abbrev join_of : Bool → Bytes
  join_of first = if first then [] else codes " or "

  add_terms-terms_text :
      (ops : List TagOperation) (first : Bool) (buf : OutBuffer) (q : Bytes)
      → add_terms alloc ops (join_of first) buf (some q) ≡ some (q ++ terms_text first ops)
  unfolding add_terms
  add_terms-terms_text [] first buf q = new_string_granted (q ++ codes ")")
  add_terms-terms_text (op ∷ ops) first buf q =
      let (a, b) = make_term op.tag buf in
      let buf' = (make_boolean_term alloc (some (codes "tag")) op.tag buf).1 in
      let t : Bytes =
        join_of first ++ (not_text op.remove ++ term_text (some (codes "tag")) op.tag) in
      rw a (
        ap
          (λ x.
            add_terms alloc ops (codes " or ") buf'
              (new_string alloc (q ++ (join_of first ++ (not_text op.remove ++ x)))))
          b
        ∙ ap (add_terms alloc ops (codes " or ") buf') (new_string_granted (q ++ t))
        ∙ add_terms-terms_text ops false buf' (q ++ t)
        ∙ ap some (simp append_assoc))

  pub _optimize_tag_query-text :
      (query : Bytes) (list : TagOpList)
      → (count list == 0) ≡ false
      → _optimize_tag_query alloc query list ≡ some (start_text query ++ terms_text true list.ops)
  unfolding _optimize_tag_query
  _optimize_tag_query-text query list h = rw h (
      ap (add_terms alloc list.ops [] _) (new_string_granted (start_text query))
      ∙ add_terms-terms_text list.ops true _ (start_text query))
