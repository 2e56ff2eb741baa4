-- ===== src/TagUtil/RoundTrip.antt =====
-- tag-util.c: parse_tag_line on lines with encoded tags and the end marker, `+tag -tag -- query`.
use notmuch.Prelude.{
  ℕ, zero, suc, ◌<◌, ◌≤◌, length, length-append, Bool, true, false, not, ◌&&◌, ◌||◌, some, List, [],
  ◌∷◌, ◌++◌, append_assoc, append-nil, ◌≡◌, ◌≢◌, ◌⊎◌, refl, sym, ◌∙◌, ap, arith, inl, inr,
  Bool-cases, ◌==◌, ==_iff, All,
}
use notmuch.Prelude.Bytes.{
  Bytes, str_equal, first_char, contains, IsCString, c_string, c_string-IsCString,
}
use notmuch.HexEscape.{HexStatus, encode, escape_char, is_output}
use notmuch.HexEscape.Buffers.{encode-IsSafe, IsCString-lt}
use notmuch.HexEscape.RoundTrip.{decode-encode}
use notmuch.StringUtil.{strtok_len, chomp_newline}
use notmuch.StringUtil.Tokens.{NoneIn, strtok_len_token, strtok_len_query}
use notmuch.TagUtil.{
  TagOperation, TagOpList, TagFlags, success, TagLine, illegal_tag, take_tag, step_token,
  parse_tags, token_op, blank, dashes, skip_blank, parse_tag_line, tag_op_list_reset,
}
use notmuch.TagUtil.OpList.{append_granted}

abbrev pub sign : Bool → ℕ
sign true = b'-'
sign false = b'+'

-- An operation as a token of a batch line.
abbrev pub render_op : TagOperation → Bytes
render_op op = sign op.remove ∷ encode op.tag

-- The operations, each with a blank behind it, and then the rest of the line.
abbrev pub render_ops : List TagOperation → Bytes → Bytes
render_ops [] rest = rest
render_ops (op ∷ ops) rest = render_op op ++ b' ' ∷ render_ops ops rest

-- An operation that the line can carry: its token is not the end marker, and its tag is legal
-- unless the parser is generous.
pub record IsRenderable (flags : TagFlags) (op : TagOperation) : Type 0 where
  pub text : IsCString op.tag
  pub no_marker : str_equal (render_op op) dashes ≡ false
  pub legal : flags.be_generous ≡ false → illegal_tag (encode op.tag) op.remove ≡ false

blank-not_output : is_output b' ' ≡ false
unfolding is_output
blank-not_output = refl

no_blank_char : (c : ℕ) → (is_output c ≡ true) ⊎ (c ≡ escape_char) → contains blank c ≡ false
no_blank_char c (inl h) = elim (Bool-cases (b' ' == c)) [
  | inl e ↦ absurd (cc (h, blank-not_output, ap is_output ((==_iff b' ' c).0 e)))
  | inr n ↦ rw n
]
no_blank_char c (inr h) = ground arith

no_blank : (s : Bytes) → All (λ c. (is_output c ≡ true) ⊎ (c ≡ escape_char)) s → NoneIn blank s
no_blank [] h = tt
no_blank (c ∷ s) h = (no_blank_char c h.0, no_blank s h.1)

pub chomp_newline-append : (s : Bytes) → chomp_newline (s ++ 10 ∷ []) ≡ s
unfolding chomp_newline
chomp_newline-append [] = refl
chomp_newline-append (c ∷ []) = refl
chomp_newline-append (c ∷ d ∷ s) = ap (◌∷◌ c) (chomp_newline-append (d ∷ s))

-- The blanks and tabs that may lead a line.
abbrev pub IsIndent : Bytes → Type 0
IsIndent = All (λ c. (c == b' ' || c == 9) ≡ true)

pub skip_blank-append :
    (lead s : Bytes)
    → IsIndent lead
    → (first_char s == b' ' || first_char s == 9) ≡ false
    → skip_blank (lead ++ s) ≡ s
unfolding skip_blank
skip_blank-append [] [] h f = refl
skip_blank-append [] (c ∷ s) h f = rw f
skip_blank-append (c ∷ lead) s h f = rw h.0 (skip_blank-append lead s h.1 f)

abbrev Starts : Bytes → Type 0
Starts s =
    ((first_char s == b' ' || first_char s == 9) ≡ false)
    × ((first_char s == 0 || first_char s == b'#') ≡ false)

sign-Starts : (remove : Bool) (s : Bytes) → Starts (sign remove ∷ s)
sign-Starts true s = (refl, refl)
sign-Starts false s = (refl, refl)

render_ops-Starts : (ops : List TagOperation) (q : Bytes) → Starts (render_ops ops (dashes ++ q))
render_ops-Starts [] q = (refl, refl)
render_ops-Starts (op ∷ ops) q =
    sign-Starts op.remove (encode op.tag ++ b' ' ∷ render_ops ops (dashes ++ q))

length-render_ops : (ops : List TagOperation) (s : Bytes) → length ops ≤ length (render_ops ops s)
length-render_ops [] s = omega arith
length-render_ops (op ∷ ops) s =
    omega (arith, length-render_ops ops s, length-append (encode op.tag) (b' ' ∷ render_ops ops s))

module _ (alloc : ℕ → Bool) (flags : TagFlags) (granted : (n : ℕ) → alloc n ≡ true) where
  passes :
      (op : TagOperation)
      → IsRenderable flags op
      → (not flags.be_generous && illegal_tag (encode op.tag) op.remove) ≡ false
  passes op h = elim (Bool-cases flags.be_generous) [
    | inl e ↦ rw e
    | inr e ↦ rw (h.legal e) (ground arith)
  ]

  token_op-encode : (op : TagOperation) → IsRenderable flags op → token_op (encode op.tag) ≡ op.tag
  token_op-encode op h =
      ap (λ (r : HexStatus × Bytes). c_string r.1)
        (decode-encode op.tag (IsCString-lt op.tag h.text))
      ∙ c_string-IsCString op.tag h.text

  take_tag-encode :
      (op : TagOperation) (list : TagOpList)
      → IsRenderable flags op
      → ((take_tag alloc flags (encode op.tag) op.remove list).0 ≡ success)
        × ((take_tag alloc flags (encode op.tag) op.remove list).1.ops ≡ list.ops ++ op ∷ [])
  unfolding take_tag
  take_tag-encode op list h =
      let (a, b) = append_granted alloc list op.tag op.remove granted in
      rw (passes op h) (
        rw (decode-encode op.tag (IsCString-lt op.tag h.text))
          (rw (token_op-encode op h) (rw a (refl, b))))

  pub step_token-op :
      (next : Bytes → TagOpList → TagLine) (code : Bytes) (remove : Bool) (more : Bytes)
      (list : TagOpList)
      → str_equal (sign remove ∷ code) dashes ≡ false
      → (take_tag alloc flags code remove list).0 ≡ success
      → step_token alloc flags next (sign remove ∷ code) (b' ' ∷ more) list
        ≡ next more (take_tag alloc flags code remove list).1
  unfolding step_token
  step_token-op next code true more list h s = rw (h, s)
  step_token-op next code false more list h s = rw s

  step_token-dashes :
      (next : Bytes → TagOpList → TagLine) (q : Bytes) (list : TagOpList)
      → q ≢ []
      → contains blank (first_char q) ≡ false
      → step_token alloc flags next dashes (b' ' ∷ q) list
        ≡ record { status = success; query = some q; list = list }
  unfolding step_token
  step_token-dashes next q list n f =
      let (tok, rest, e, j) = strtok_len_query blank q b' ' n f refl in rw e (rw j)

  pub parse_tags_token :
      (fuel : ℕ) (s tok rest : Bytes) (list : TagOpList)
      → strtok_len s blank ≡ some (tok, rest)
      → parse_tags alloc flags (suc fuel) s list
        ≡ step_token alloc flags (parse_tags alloc flags fuel) tok rest list
  unfolding parse_tags
  parse_tags_token fuel s tok rest list e = rw (e, parse_tags)

  sign_no_blank : (remove : Bool) → contains blank (sign remove) ≡ false
  sign_no_blank true = refl
  sign_no_blank false = refl

  -- The loop reads the operations of such a line, and then the query behind the end marker.
  pub parse_tags-render_ops :
      (ops : List TagOperation) (q : Bytes) (fuel : ℕ) (list : TagOpList)
      → All (IsRenderable flags) ops
      → q ≢ []
      → contains blank (first_char q) ≡ false
      → length ops < fuel
      → let r = parse_tags alloc flags fuel (render_ops ops (dashes ++ b' ' ∷ q)) list in
        (r.status ≡ success) × (r.query ≡ some q) × (r.list.ops ≡ list.ops ++ ops)
  parse_tags-render_ops ops q zero list a n f l = absurd (omega arith)
  parse_tags-render_ops [] q (suc fuel) list a n f l =
      rw
        (parse_tags_token fuel _ dashes (b' ' ∷ q) list
            (strtok_len_token blank dashes q b' ' (λ x. cc x) (refl, (refl, tt)) refl)
          ∙ step_token-dashes (parse_tags alloc flags fuel) q list n f)
        (refl, refl, sym (append-nil list.ops))
  parse_tags-render_ops (op ∷ ops) q (suc fuel) list a n f l =
      let more : Bytes = render_ops ops (dashes ++ b' ' ∷ q) in
      let (t, o) = take_tag-encode op list a.0 in
      let (st, qu, op') =
        parse_tags-render_ops ops q fuel (take_tag alloc flags (encode op.tag) op.remove list).1 a.1
          n f (omega arith) in
      rw
        (parse_tags_token fuel _ (render_op op) (b' ' ∷ more) list (
            strtok_len_token blank (render_op op) more b' ' (λ x. cc x)
              (sign_no_blank op.remove, no_blank (encode op.tag) (encode-IsSafe op.tag a.0.text))
              refl)
          ∙ step_token-op (parse_tags alloc flags fuel) (encode op.tag) op.remove more list
              a.0.no_marker t)
        (st, qu, op' ∙ rw o (append_assoc list.ops (op ∷ []) ops))

  -- Where every allocation is granted, parse_tag_line reads a line as a dump writes it, which
  -- blanks may lead and a newline ends, as its operations in their order and its query. What the
  -- list held before is gone.
  pub parse_tag_line-render_ops :
      (lead q : Bytes) (ops : List TagOperation) (list : TagOpList)
      → IsIndent lead
      → All (IsRenderable flags) ops
      → q ≢ []
      → contains blank (first_char q) ≡ false
      → let r =
          parse_tag_line alloc flags
            ((lead ++ render_ops ops (dashes ++ b' ' ∷ q)) ++ 10 ∷ [])
            list in
        (r.status ≡ success) × (r.query ≡ some q) × (r.list.ops ≡ ops)
  unfolding parse_tag_line tag_op_list_reset
  parse_tag_line-render_ops lead q ops list ld a n f =
      let line : Bytes = render_ops ops (dashes ++ b' ' ∷ q) in
      let (nb, ne) = render_ops-Starts ops (b' ' ∷ q) in
      rw (chomp_newline-append (lead ++ line)) (
        rw (skip_blank-append lead line ld nb) (
          rw granted (
            rw ne (
              parse_tags-render_ops ops q (suc (length line)) (tag_op_list_reset list) a n f
                (omega (arith, length-render_ops ops (dashes ++ b' ' ∷ q)))))))
