-- ===== src/Restore/Format.antt =====
-- notmuch-restore.c: the format that is detected for a dump, by its first line.
use notmuch.Prelude.{
  ℕ, Bool, true, false, ◌||◌, some, List, [], ◌∷◌, ◌++◌, ◌==◌, ==_iff, if◌then◌else◌, ◌≡◌, ◌⊎◌,
  refl, ap, ap₂, ◌∙◌, arith, inl, inr, Bool-cases, All,
}
use notmuch.Prelude.Bytes.{Bytes, codes, contains, IsCString}
use notmuch.HexEscape.{encode, is_output, escape_char}
use notmuch.HexEscape.Buffers.{encode-IsSafe}
use notmuch.BooleanTerm.{term_text, double_quotes, need_quoting}
use notmuch.Dump.{auto, batch_tag, sup, Entry}
use notmuch.Dump.Text.{tags_text, line_text}
use notmuch.Restore.{detect_format}

abbrev pub open_paren : ℕ
open_paren = b'('

contains-append :
    (s t : Bytes) → contains (s ++ t) open_paren ≡ (contains s open_paren || contains t open_paren)
contains-append [] t = refl
contains-append (c ∷ s) t = ground (arith, contains-append s t)

paren-not_output : is_output open_paren ≡ false
unfolding is_output
paren-not_output = refl

safe_not_paren : (c : ℕ) → (is_output c ≡ true) ⊎ (c ≡ escape_char) → (c == open_paren) ≡ false
safe_not_paren c (inl h) = elim (Bool-cases (c == open_paren)) [
  | inl e ↦ absurd (cc (h, paren-not_output, ap is_output ((==_iff c open_paren).0 e)))
  | inr n ↦ n
]
safe_not_paren c (inr h) = ground arith

safe_no_paren :
    (s : Bytes)
    → All (λ c. (is_output c ≡ true) ⊎ (c ≡ escape_char)) s
    → contains s open_paren ≡ false
safe_no_paren [] h = refl
safe_no_paren (c ∷ s) h = ground (arith, safe_not_paren c h.0, safe_no_paren s h.1)

contains-double_quotes : (s : Bytes) → contains (double_quotes s) open_paren ≡ contains s open_paren
unfolding double_quotes
contains-double_quotes [] = refl
contains-double_quotes (c ∷ s) = ground (arith, contains-double_quotes s)

contains-term_text :
    (id : Bytes) → contains (term_text (some (codes "id")) id) open_paren ≡ contains id open_paren
unfolding term_text
contains-term_text id = elim (Bool-cases (need_quoting id)) [
  | inl e ↦
      rw e
        (contains-append (double_quotes id) (b'"' ∷ []) ∙ ground (arith, contains-double_quotes id))
  | inr e ↦ rw e refl
]

tags_no_paren :
    (first : Bool) (ts : List Bytes)
    → All IsCString ts
    → contains (tags_text batch_tag first ts) open_paren ≡ false
tags_no_paren first [] h = refl
tags_no_paren true (t ∷ ts) h =
    contains-append (encode t) (tags_text batch_tag false ts)
    ∙ ground (arith, safe_no_paren (encode t) (encode-IsSafe t h.0), tags_no_paren false ts h.1)
tags_no_paren false (t ∷ ts) h =
    contains-append (encode t) (tags_text batch_tag false ts)
    ∙ ground (arith, safe_no_paren (encode t) (encode-IsSafe t h.0), tags_no_paren false ts h.1)

-- Of a dump in the batch format whose first line is that of `m`, the format is detected as the batch
-- format if the id of `m` has no "(", and as the sup format if it has one.
pub detect_format-line_text :
    (m : Entry)
    → All IsCString m.tags
    → detect_format auto (line_text batch_tag m)
      ≡ (if contains m.id open_paren then sup else batch_tag)
unfolding detect_format
detect_format-line_text m h =
    ap (λ b. if b then sup else batch_tag)
      (contains-append (tags_text batch_tag true m.tags) _
        ∙ ap₂ ◌||◌ (tags_no_paren true m.tags h) (
            contains-append (term_text (some (codes "id")) m.id) (codes "\n")
            ∙ ground (arith, contains-term_text m.id)))
