-- ===== src/BooleanTerm/Bounds.antt =====
-- util/string-util.c: the buffers of the boolean terms.
use notmuch.Prelude.{
  ℕ, ◌+◌, ◌*◌, ◌≤◌, Bool, true, false, Option, none, some, [], ◌∷◌, ◌++◌, if◌then◌else◌, length,
  length-append, ◌≡◌, ◌⊎◌, arith, Bool-cases,
}
use notmuch.Prelude.Bytes.{Bytes}
use notmuch.HexEscape.{OutBuffer}
use notmuch.BooleanTerm.{
  quoted_needed, double_quotes, term_needed, term_text, make_boolean_term, unquote,
}

quoted_needed_lem : (n : ℕ) (s : Bytes) → quoted_needed n s ≡ n + length (double_quotes s)
unfolding quoted_needed double_quotes
quoted_needed_lem n [] = omega arith
quoted_needed_lem n (c ∷ s) =
    ground (arith, quoted_needed_lem (n + 2) s, quoted_needed_lem (n + 1) s)

term_needed_lem :
    (prefix : Option Bytes) (term : Bytes)
    → term_needed prefix term ≡ length (term_text prefix term) + 1
unfolding term_needed term_text
term_needed_lem none term =
    ground (arith, quoted_needed_lem 3 term, length-append (double_quotes term) (b'"' ∷ []))
term_needed_lem (some p) term = ground (
  arith,
  quoted_needed_lem 3 term,
  length-append (double_quotes term) (b'"' ∷ []),
  length-append (p ++ b':' ∷ []) (b'"' ∷ (double_quotes term ++ b'"' ∷ [])),
  length-append (p ++ b':' ∷ []) term,
  length-append p (b':' ∷ []),
)

-- Each pass of the quoted loop writes at most what it reads, so that the term and its NUL fit in
-- the array, which has the size of the text from the opening quote on.
pub unquote_fits : (s : Bytes) → length (unquote s).1 + (if (unquote s).0 then 1 else 0) ≤ length s
unfolding unquote
unquote_fits [] = omega arith
unquote_fits (c ∷ []) = ground arith
unquote_fits (c ∷ d ∷ s) = ground (arith, unquote_fits s, unquote_fits (d ∷ s))

-- make_boolean_term returns 0 with the caller's buffer set, `*len` covering the term's text and
-- its NUL; or -1 with the buffer NULL, after the allocator has refused twice the bytes that the
-- text and its NUL take.
pub make_boolean_term_outcome :
    (alloc : ℕ → Bool) (prefix : Option Bytes) (term : Bytes) (buf : OutBuffer)
    → let r = make_boolean_term alloc prefix term buf in
      ((r.0 ≡ true)
        × (r.1.allocated ≡ true)
        × (r.1.text ≡ term_text prefix term)
        × (length (term_text prefix term) + 1 ≤ r.1.out_size))
      ⊎ ((r.0 ≡ false)
          × (r.1.allocated ≡ false)
          × (alloc (2 * (length (term_text prefix term) + 1)) ≡ false))
unfolding make_boolean_term
make_boolean_term_outcome alloc prefix term buf = ground (
  arith,
  term_needed_lem prefix term,
  Bool-cases (alloc (2 * (length (term_text prefix term) + 1))),
)
