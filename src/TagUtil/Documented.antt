-- ===== src/TagUtil/Documented.antt =====
-- tag-util.c: parse_tag_line on the lines in the form that tag-util.h documents, with any spacing,
-- any of the characters of a tag encoded, and with or without the end marker.
pub mod Form
use notmuch.Prelude.{
  ℕ, zero, suc, ◌+◌, ◌-◌, ◌*◌, ◌%◌, ◌<◌, ◌≤◌, length, length-append, Bool, true, false, not, ◌&&◌,
  ◌||◌, some, List, [], ◌∷◌, ◌++◌, append_assoc, append-nil, ◌≡◌, ◌≢◌, ◌⊎◌, refl, sym, ◌∙◌, ap,
  subst, arith, inl, inr, Bool-cases, ◌==◌, ==_iff, leb, if◌then◌else◌, All,
}
use notmuch.Prelude.Bytes.{Bytes, str_equal, first_char, contains, isxdigit, c_string}
use notmuch.HexEscape.{HexStatus, hex_decode_internal, hex_value, emit}
use notmuch.HexEscape.RoundTrip.{decode_plain, decode_escaped}
use notmuch.StringUtil.{strtok_len}
use notmuch.StringUtil.Tokens.{NoneIn, strtok_len_token, strtok_len_query}
use notmuch.TagUtil.{
  TagOperation, TagOpList, TagFlags, success, TagLine, illegal_tag, take_tag, step_token,
  parse_tags, token_op, blank, dashes, parse_tag_line, tag_op_list_reset,
}
use notmuch.TagUtil.OpList.{append_granted}
use notmuch.TagUtil.RoundTrip.{
  sign, step_token-op, parse_tags_token, chomp_newline-append, skip_blank-append, IsIndent,
}
use notmuch.TagUtil.Documented.Form.{
  Coded, IsCoded, IsQuery, IsToken, Marker, Token, blanks, c_string-tag_of, char_of, coded_text,
  decode-coded, digit, end_marker, hex_value-digit, marked, no_blank-coded, op_of, ops_of,
  sign-no_blank, tag_of, token_text, tokens_text,
}

strtok_len-blanks : (n : ℕ) (s : Bytes) → strtok_len (blanks n s) blank ≡ strtok_len s blank
unfolding strtok_len
strtok_len-blanks zero s = refl
strtok_len-blanks (suc n) s = strtok_len-blanks n s

-- Search terms behind blanks are found from their first byte on.
find_query :
    (n : ℕ) (q : Bytes)
    → q ≢ []
    → contains blank (first_char q) ≡ false
    → (tok rest : Bytes) × (strtok_len (blanks n q) blank ≡ some (tok, rest)) × (tok ++ rest ≡ q)
find_query n q ne f =
    let (tok, rest, e, j) = strtok_len_query blank q b' ' ne f refl in
    (tok, rest, strtok_len-blanks n q ∙ sym (strtok_len-blanks 1 q) ∙ e, j)

first_char-append :
    (tok rest q : Bytes) → tok ++ rest ≡ q → (tok ≡ []) ⊎ (first_char tok ≡ first_char q)
first_char-append [] rest q h = inl refl
first_char-append (c ∷ tok) rest q h = inr (ap first_char h)

length-blanks : (n : ℕ) (s : Bytes) → length s ≤ length (blanks n s)
length-blanks zero s = omega arith
length-blanks (suc n) s = omega (arith, length-blanks n s)

length-tokens_text : (ts : List Token) (s : Bytes) → length ts ≤ length (tokens_text ts s)
length-tokens_text [] s = omega arith
length-tokens_text (t ∷ ts) s = omega (
  arith,
  length-tokens_text ts s,
  length-blanks t.gap (tokens_text ts s),
  length-append (coded_text t.tag) (b' ' ∷ blanks t.gap (tokens_text ts s)),
)

module _ (alloc : ℕ → Bool) (flags : TagFlags) (granted : (n : ℕ) → alloc n ≡ true) where
  passes :
      (t : Token)
      → IsToken flags t
      → (not flags.be_generous && illegal_tag (coded_text t.tag) t.remove) ≡ false
  passes t h = elim (Bool-cases flags.be_generous) [
    | inl e ↦ rw e
    | inr e ↦ rw (h.legal e) (ground arith)
  ]

  token_op-coded : (t : Token) → IsToken flags t → token_op (coded_text t.tag) ≡ tag_of t.tag
  token_op-coded t h =
      ap (λ (r : HexStatus × Bytes). c_string r.1) (decode-coded t.tag h.coded)
      ∙ c_string-tag_of t.tag h.coded

  take_tag-coded :
      (t : Token) (list : TagOpList)
      → IsToken flags t
      → ((take_tag alloc flags (coded_text t.tag) t.remove list).0 ≡ success)
        × ((take_tag alloc flags (coded_text t.tag) t.remove list).1.ops ≡ list.ops ++ op_of t ∷ [])
  unfolding take_tag
  take_tag-coded t list h =
      let (a, b) = append_granted alloc list (tag_of t.tag) t.remove granted in
      rw (passes t h) (rw (decode-coded t.tag h.coded) (rw (token_op-coded t h) (rw a (refl, b))))

  -- The search terms end the loop.
  step_plain :
      (next : Bytes → TagOpList → TagLine) (tok rest : Bytes) (list : TagOpList)
      → contains (b'+' ∷ b'-' ∷ []) (first_char tok) ≡ false
      → step_token alloc flags next tok rest list
        ≡ record { status = success; query = some (tok ++ rest); list = list }
  unfolding step_token
  step_plain next [] rest list h = refl
  step_plain next (c ∷ tok) rest list h =
      let a : (c == b'-') ≡ false = ground (arith, h) in
      let b : (c == b'+') ≡ false = ground (arith, h) in rw (a, b) refl

  step_dashes :
      (next : Bytes → TagOpList → TagLine) (n : ℕ) (q tok rest : Bytes) (list : TagOpList)
      → strtok_len (blanks (suc n) q) blank ≡ some (tok, rest)
      → tok ++ rest ≡ q
      → step_token alloc flags next dashes (blanks (suc n) q) list
        ≡ record { status = success; query = some q; list = list }
  unfolding step_token
  step_dashes next n q tok rest list e j = rw e (rw j)

  abbrev Reads : TagOpList → List TagOperation → Bytes → TagLine → Type 0
  Reads list ops q r = (r.status ≡ success) × (r.query ≡ some q) × (r.list.ops ≡ list.ops ++ ops)

  query-Reads :
      (mk : Marker) (n : ℕ) (q : Bytes) (fuel : ℕ) (list : TagOpList)
      → IsQuery mk q
      → Reads list [] q (parse_tags alloc flags (suc fuel) (blanks n (marked mk q)) list)
  query-Reads Marker.no_marker n q fuel list (ne, f) =
      let (tok, rest, e, j) = find_query n q ne (ground (arith, f)) in
      let first : contains (b'+' ∷ b'-' ∷ []) (first_char tok) ≡ false =
        elim (first_char-append tok rest q j) [
          | inl empty ↦
              subst (λ x. contains (b'+' ∷ b'-' ∷ []) (first_char x) ≡ false) (sym empty) refl
          | inr same ↦
              subst (λ x. contains (b'+' ∷ b'-' ∷ []) x ≡ false) (sym same) (ground (arith, f))
        ] in
      subst (Reads list [] q)
        (sym (
          parse_tags_token alloc flags granted fuel (blanks n q) tok rest list e
          ∙ step_plain (parse_tags alloc flags fuel) tok rest list first))
        (refl, ap some j, sym (append-nil list.ops))
  query-Reads (end_marker k) n q fuel list (ne, f) =
      let (tok, rest, e, j) = find_query (suc k) q ne f in
      subst (Reads list [] q)
        (sym (
          parse_tags_token alloc flags granted fuel (blanks n (dashes ++ b' ' ∷ blanks k q)) dashes
            (b' ' ∷ blanks k q) list
            (strtok_len-blanks n (dashes ++ b' ' ∷ blanks k q)
              ∙ strtok_len_token blank dashes (blanks k q) b' ' (λ x. cc x) (refl, (refl, tt)) refl)
          ∙ step_dashes (parse_tags alloc flags fuel) k q tok rest list e j))
        (refl, refl, sym (append-nil list.ops))

  tokens-Reads :
      (ts : List Token) (mk : Marker) (n : ℕ) (q : Bytes) (fuel : ℕ) (list : TagOpList)
      → All (IsToken flags) ts
      → IsQuery mk q
      → length ts < fuel
      → Reads list
          (ops_of ts)
          q
          (parse_tags alloc flags fuel (blanks n (tokens_text ts (marked mk q))) list)
  tokens-Reads ts mk n q zero list a k l = absurd (omega (arith, l))
  tokens-Reads [] mk n q (suc fuel) list a k l = query-Reads mk n q fuel list k
  tokens-Reads (t ∷ ts) mk n q (suc fuel) list a k l =
      let more : Bytes = blanks t.gap (tokens_text ts (marked mk q)) in
      let (done, o) = take_tag-coded t list a.0 in
      let list' = (take_tag alloc flags (coded_text t.tag) t.remove list).1 in
      let (st, qu, op') = tokens-Reads ts mk t.gap q fuel list' a.1 k (omega (arith, l)) in
      subst (Reads list (ops_of (t ∷ ts)) q)
        (sym (
          parse_tags_token alloc flags granted fuel (blanks n (token_text t ++ b' ' ∷ more))
            (token_text t) (b' ' ∷ more) list
            (strtok_len-blanks n (token_text t ++ b' ' ∷ more)
              ∙ strtok_len_token blank (token_text t) more b' ' (λ x. cc x)
                  (sign-no_blank t.remove, no_blank-coded t.tag a.0.coded) refl)
          ∙ step_token-op alloc flags granted (parse_tags alloc flags fuel) (coded_text t.tag)
              t.remove more list a.0.no_marker done))
        (
          st,
          qu,
          op' ∙ ap (λ xs. xs ++ ops_of ts) o ∙ append_assoc list.ops (op_of t ∷ []) (ops_of ts),
        )

  abbrev Begins : Bytes → Type 0
  Begins s =
      ((first_char s == b' ' || first_char s == 9) ≡ false)
      × ((first_char s == 0 || first_char s == b'#') ≡ false)

  sign-Begins : (remove : Bool) (s : Bytes) → Begins (sign remove ∷ s)
  sign-Begins true s = (refl, refl)
  sign-Begins false s = (refl, refl)

  query-Begins : (q : Bytes) → IsQuery Marker.no_marker q → (first_char q == 0) ≡ false → Begins q
  query-Begins q (ne, f) z = (ground (arith, f), ground (arith, f, z))

  text-Begins :
      (ts : List Token) (mk : Marker) (q : Bytes)
      → IsQuery mk q
      → (first_char q == 0) ≡ false
      → Begins (tokens_text ts (marked mk q))
  text-Begins [] Marker.no_marker q k z = query-Begins q k z
  text-Begins [] (end_marker n) q k z = (refl, refl)
  text-Begins (t ∷ ts) mk q k z =
      sign-Begins t.remove (coded_text t.tag ++ b' ' ∷ blanks t.gap (tokens_text ts (marked mk q)))

  -- Where every allocation is granted, parse_tag_line reads a line in the documented form as its
  -- operations in their order, their tags decoded, and its search terms as they stand. Blanks and
  -- tabs may lead the line, any number of blanks may stand between its parts, and any character of
  -- a tag but the NUL may be encoded, as blanks and percent signs must. The search terms are not
  -- empty and start with no blank; the end marker may be left out where they do not begin like an
  -- operation or a comment, or with a tab. A newline ends the line. No operation is written like the
  -- end marker, and tags must be legal unless the parser is generous. What the list held before is
  -- gone.
  pub parse_tag_line-documented :
      (lead q : Bytes) (ts : List Token) (mk : Marker) (list : TagOpList)
      → IsIndent lead
      → All (IsToken flags) ts
      → IsQuery mk q
      → (first_char q == 0) ≡ false
      → let r =
          parse_tag_line alloc flags ((lead ++ tokens_text ts (marked mk q)) ++ 10 ∷ []) list in
        (r.status ≡ success) × (r.query ≡ some q) × (r.list.ops ≡ ops_of ts)
  unfolding parse_tag_line tag_op_list_reset
  parse_tag_line-documented lead q ts mk list ld a k z =
      let line : Bytes = tokens_text ts (marked mk q) in
      let (nb, ne) = text-Begins ts mk q k z in
      rw (chomp_newline-append (lead ++ line)) (
        rw (skip_blank-append lead line ld nb) (
          rw granted (
            rw ne (
              tokens-Reads ts mk 0 q (suc (length line)) (tag_op_list_reset list) a k
                (omega (arith, length-tokens_text ts (marked mk q)))))))
