-- ===== src/Summary/Authors.antt =====
-- The authors of a thread as text.
use notmuch.Prelude.{
  ◌≡◌, ◌∙◌, Bool, true, false, Option, none, some, List, [], ◌∷◌, ◌++◌, append-nil, append_assoc,
  if◌then◌else◌, refl, sym, ap, Bool-cases, inl, inr,
}
use notmuch.Prelude.Bytes.{Bytes, codes}
use notmuch.Message.{mem_tag}
use notmuch.Summary.{
  Thread, append_matched, append_others, unmatched, is_nil, printed, resolve_authors,
}

-- Authors, each after a separator, the first after `first`.
abbrev pub separated : Bytes → List Bytes → Bytes
separated first [] = []
separated first (a ∷ more) = first ++ (a ++ separated (codes ", ") more)

append_matched_lem :
    (s : Bytes) (xs : List Bytes)
    → append_matched (some s) xs ≡ some (s ++ separated (codes ", ") xs)
append_matched_lem s [] = ap some (sym (append-nil s))
append_matched_lem s (a ∷ more) =
    append_matched_lem (s ++ (codes ", " ++ a)) more
    ∙ ap some (append_assoc s (codes ", " ++ a) (separated (codes ", ") more))

abbrev separator : Bool → Bytes
separator first = if first then codes "| " else codes ", "

append_others_lem :
    (matched : List Bytes) (first : Bool) (s : Bytes) (xs : List Bytes)
    → append_others matched first s xs ≡ s ++ separated (separator first) (unmatched matched xs)
unfolding append_others unmatched
append_others_lem matched first s [] = sym (append-nil s)
append_others_lem matched first s (a ∷ more) = elim (Bool-cases (mem_tag matched a)) [
  | inl e ↦ rw e (append_others_lem matched first s more)
  | inr e ↦ rw e (
      append_others_lem matched false (s ++ (separator first ++ a)) more
      ∙ append_assoc s (separator first ++ a) (separated (codes ", ") (unmatched matched more))
      ∙ ap (λ t. s ++ t)
          (append_assoc (separator first) a (separated (codes ", ") (unmatched matched more))))
]

no_others :
    (s : Bytes) (xs : List Bytes)
    → (if is_nil xs then some s else some (s ++ separated (codes "| ") xs))
      ≡ some (s ++ separated (codes "| ") xs)
no_others s [] = ap some (sym (append-nil s))
no_others s (a ∷ more) = refl

-- When some matched message has an author, the text of the authors lists the authors of matched
-- messages, with commas between them, and then, after a bar, those of the other messages that are
-- not among them, with commas.
pub resolve_authors-separated :
    (t : Thread) (a : Bytes) (more : List Bytes)
    → t.matched_authors_array ≡ a ∷ more
    → resolve_authors t
      ≡ some (
          (a ++ separated (codes ", ") more)
          ++ separated (codes "| ") (unmatched t.matched_authors_array t.authors_array))
unfolding resolve_authors
resolve_authors-separated t a more h =
    let ma = t.matched_authors_array in
    let others = unmatched ma t.authors_array in
    let s = a ++ separated (codes ", ") more in
    ap
      (λ (o : Option Bytes).
        if is_nil others then o else some (append_others ma true (printed o) t.authors_array))
      (ap (append_matched none) h ∙ append_matched_lem a more)
    ∙ ap (λ x. if is_nil others then some s else some x)
        (append_others_lem ma true s t.authors_array)
    ∙ no_others s others
