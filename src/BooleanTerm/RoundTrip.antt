-- ===== src/BooleanTerm/RoundTrip.antt =====
-- util/string-util.c: parse_boolean_term reads back what make_boolean_term wrote.
use notmuch.Prelude.{
  ℕ, Bool, true, false, some, [], ◌∷◌, ◌++◌, ◌==◌, append_assoc, ◌≡◌, ◌≢◌, refl, ap, ◌∙◌, arith,
  inl, inr, Bool-cases, All, ==_iff, ==_ne,
}
use notmuch.Prelude.Bytes.{Bytes, isspace, first_char}
use notmuch.BooleanTerm.{
  is_unquoted_terminator, is_quoted_char, any_quoted, need_quoting, double_quotes, term_text,
  skip_space, split_colon, unquote, span_unquoted, parsed, parse_term, parse_boolean_term,
}

-- Blanks may follow a term.
abbrev IsBlank : Bytes → Type 0
IsBlank = All (λ c. isspace c ≡ true)

skip_space-IsBlank : (s : Bytes) → IsBlank s → skip_space s ≡ []
unfolding skip_space
skip_space-IsBlank [] h = refl
skip_space-IsBlank (c ∷ s) h = rw h.0 (skip_space-IsBlank s h.1)

abbrev push : ℕ → Bool × Bytes × Bytes → Bool × Bytes × Bytes
push c (closed, text, rest) = (closed, c ∷ text, rest)

unquote_plain : (c : ℕ) (s : Bytes) → c ≢ b'"' → unquote (c ∷ s) ≡ push c (unquote s)
unfolding unquote
unquote_plain c [] h = ground arith
unquote_plain c (d ∷ s) h = ground arith

unquote_doubled : (s : Bytes) → unquote (b'"' ∷ b'"' ∷ s) ≡ push b'"' (unquote s)
unfolding unquote
unquote_doubled s = refl

unquote_closed : (rest : Bytes) → first_char rest ≢ b'"' → unquote (b'"' ∷ rest) ≡ (true, [], rest)
unfolding unquote
unquote_closed [] h = refl
unquote_closed (d ∷ rest) h = ground arith

unquote-double_quotes :
    (s rest : Bytes)
    → first_char rest ≢ b'"'
    → unquote (double_quotes s ++ b'"' ∷ rest) ≡ (true, s, rest)
unfolding double_quotes
unquote-double_quotes [] rest h = unquote_closed rest h
unquote-double_quotes (c ∷ s) rest h = elim (Bool-cases (c == b'"')) [
  | inl e ↦ rw e (
      rw ((==_iff c b'"').0 e) (
        unquote_doubled (double_quotes s ++ b'"' ∷ rest)
        ∙ ap (push b'"') (unquote-double_quotes s rest h)))
  | inr n ↦ rw n (
      unquote_plain c _ (λ e. cc (n, (==_iff c b'"').1 e))
      ∙ ap (push c) (unquote-double_quotes s rest h))
]

isspace-is_unquoted_terminator : (c : ℕ) → isspace c ≡ true → is_unquoted_terminator c ≡ true
unfolding is_unquoted_terminator
isspace-is_unquoted_terminator c h = ground arith

span_unquoted-blank : (s : Bytes) → IsBlank s → span_unquoted s ≡ ([], s)
unfolding span_unquoted
span_unquoted-blank [] h = refl
span_unquoted-blank (c ∷ s) h = rw (isspace-is_unquoted_terminator c h.0)

any_quoted-cons :
    (c : ℕ) (s : Bytes)
    → any_quoted (c ∷ s) ≡ false
    → (is_unquoted_terminator c ≡ false) × (c ≢ b'"') × (any_quoted s ≡ false)
unfolding any_quoted is_quoted_char
any_quoted-cons c s h = ground arith

span_unquoted-plain :
    (s rest : Bytes) → any_quoted s ≡ false → IsBlank rest → span_unquoted (s ++ rest) ≡ (s, rest)
unfolding span_unquoted
span_unquoted-plain [] rest h b = span_unquoted-blank rest b
span_unquoted-plain (c ∷ s) rest h b =
    let (t, q, h') = any_quoted-cons c s h in
    rw t (ap (λ (p : Bytes × Bytes). (c ∷ p.0, p.1)) (span_unquoted-plain s rest h' b))

-- A prefix that the term's syntax can carry.
pub record IsPrefix (p : Bytes) : Type 0 where
  pub nonempty : p ≢ []
  pub no_colon : All (λ c. c ≢ b':') p
  pub no_space : isspace (first_char p) ≡ false

split_colon-IsPrefix :
    (p s : Bytes) → All (λ c. c ≢ b':') p → split_colon ((p ++ b':' ∷ []) ++ s) ≡ some (p, s)
unfolding split_colon
split_colon-IsPrefix [] s h = refl
split_colon-IsPrefix (c ∷ p) s h = ground (arith, split_colon-IsPrefix p s h.1)

pub skip_space_none : (s : Bytes) → isspace (first_char s) ≡ false → skip_space s ≡ s
unfolding skip_space
skip_space_none [] h = refl
skip_space_none (c ∷ s) h = rw h

IsBlank-first : (s : Bytes) → IsBlank s → first_char s ≢ b'"'
IsBlank-first [] b e = omega arith
IsBlank-first (c ∷ s) b e = ground arith

-- The allocator grants every request.
abbrev pub Grants : (ℕ → Bool) → Type 0
Grants alloc = (n : ℕ) → alloc n ≡ true

parse_term-quoted :
    (alloc : ℕ → Bool) (p s rest : Bytes)
    → Grants alloc
    → IsBlank rest
    → parse_term alloc p (b'"' ∷ (double_quotes s ++ b'"' ∷ rest)) ≡ parsed p s
unfolding parse_term
parse_term-quoted alloc p s rest g b =
    rw (g, unquote-double_quotes s rest (IsBlank-first rest b))
      (rw (skip_space-IsBlank rest b) refl)

parse_term-plain :
    (alloc : ℕ → Bool) (p s rest : Bytes)
    → Grants alloc
    → need_quoting s ≡ false
    → IsBlank rest
    → parse_term alloc p (s ++ rest) ≡ parsed p s
unfolding parse_term need_quoting
parse_term-plain alloc p [] rest g h b = absurd (cc h)
parse_term-plain alloc p (c ∷ s) rest g h b =
    let (t, q, h') = any_quoted-cons c s h in
    rw (==_ne c b'"' q)
      (rw (span_unquoted-plain (c ∷ s) rest h b) (rw (skip_space-IsBlank rest b) (rw g)))

parse_prefix :
    (alloc : ℕ → Bool) (p s : Bytes)
    → Grants alloc
    → IsPrefix p
    → parse_boolean_term alloc ((p ++ b':' ∷ []) ++ s) ≡ parse_term alloc p s
unfolding parse_boolean_term
parse_prefix alloc [] s g h = absurd (h.nonempty refl)
parse_prefix alloc (c ∷ p) s g h =
    let str : Bytes = ((c ∷ p) ++ b':' ∷ []) ++ s in
    let e : split_colon (skip_space str) ≡ some (c ∷ p, s) =
      ap split_colon (skip_space_none str h.no_space) ∙ split_colon-IsPrefix (c ∷ p) s h.no_colon in
    rw (e, parse_boolean_term) (rw g (ground arith))

-- Where every allocation is granted, for every prefix that the syntax can carry and every term,
-- with blanks behind it, parse_boolean_term reads the text of make_boolean_term back as that prefix and that term.
pub parse-make_boolean_term :
    (alloc : ℕ → Bool) (p s rest : Bytes)
    → Grants alloc
    → IsPrefix p
    → IsBlank rest
    → parse_boolean_term alloc (term_text (some p) s ++ rest) ≡ parsed p s
unfolding term_text
parse-make_boolean_term alloc p s rest g h b = elim (Bool-cases (need_quoting s)) [
  | inl quoted ↦ rw quoted (
      ap (parse_boolean_term alloc) (simp append_assoc)
      ∙ parse_prefix alloc p (b'"' ∷ (double_quotes s ++ b'"' ∷ rest)) g h
      ∙ parse_term-quoted alloc p s rest g b)
  | inr plain ↦ rw plain (
      ap (parse_boolean_term alloc) (append_assoc (p ++ b':' ∷ []) s rest)
      ∙ parse_prefix alloc p (s ++ rest) g h
      ∙ parse_term-plain alloc p s rest g plain b)
]
