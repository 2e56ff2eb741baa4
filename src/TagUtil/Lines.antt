-- ===== src/TagUtil/Lines.antt =====
-- tag-util.c: the lines that parse_tag_line reads, and the end of its loop.
use notmuch.Prelude.{
  ℕ, zero, suc, ◌<◌, ◌≤◌, length, length-append, Bool, Option, none, some, [], ◌∷◌, ◌++◌, ◌≢◌, refl,
  ap, arith, ◌==◌,
}
use notmuch.Prelude.Bytes.{Bytes, first_char}
use notmuch.StringUtil.{strtok_len, chomp_newline}
use notmuch.StringUtil.Tokens.{IsToken, strtok_len-IsToken}
use notmuch.TagUtil.{
  TagOpList, TagFlags, invalid, no_fuel, TagLine, stop, tag_op_list_reset, skip_blank, take_tag,
  step_token, parse_tags, parse_tag_line, tail, minus, blank,
}

ne-nil-length : (tok : Bytes) → tok ≢ [] → 0 < length tok
ne-nil-length [] n = absurd (n refl)
ne-nil-length (c ∷ tok) n = omega arith

length-tail : (s : Bytes) → length (tail s) ≤ length s
length-tail [] = omega arith
length-tail (c ∷ s) = omega arith

token_shorter :
    (s delim tok rest : Bytes) → IsToken s delim (some (tok, rest)) → length (tail rest) < length s
token_shorter s delim tok rest (sk, e, a, n, b, c) = omega (
  arith,
  length-tail rest,
  ne-nil-length tok n,
  ap (λ (x : Bytes). length x) e,
  length-append sk (tok ++ rest),
  length-append tok rest,
)

take_tag-ne-no_fuel :
    (alloc : ℕ → Bool) (flags : TagFlags) (tag : Bytes) (remove : Bool) (list : TagOpList)
    → (take_tag alloc flags tag remove list).0 ≢ no_fuel
unfolding take_tag
take_tag-ne-no_fuel alloc flags tag remove list h = ground arith

step_token-ne-no_fuel :
    (alloc : ℕ → Bool) (flags : TagFlags) (next : Bytes → TagOpList → TagLine) (tok rest : Bytes)
    (list : TagOpList)
    → ((l : TagOpList) → (next (tail rest) l).status ≢ no_fuel)
    → (step_token alloc flags next tok rest list).status ≢ no_fuel
unfolding step_token
step_token-ne-no_fuel alloc flags next tok rest list h e = ground (
  arith,
  h (take_tag alloc flags (tail tok) (first_char tok == minus) list).1,
  take_tag-ne-no_fuel alloc flags (tail tok) (first_char tok == minus) list,
)

parse_tags-ne-no_fuel :
    (alloc : ℕ → Bool) (flags : TagFlags) (fuel : ℕ) (s : Bytes) (list : TagOpList)
    → length s < fuel
    → (parse_tags alloc flags fuel s list).status ≢ no_fuel
unfolding parse_tags
parse_tags-ne-no_fuel alloc flags zero s list h = absurd (omega arith)
parse_tags-ne-no_fuel alloc flags (suc fuel) s list h =
    go (parse_tags-ne-no_fuel alloc flags fuel) (strtok_len s blank) (strtok_len-IsToken s blank)
  where
    go :
        ((t : Bytes) (l : TagOpList)
          → length t < fuel
          → (parse_tags alloc flags fuel t l).status ≢ no_fuel)
        → (o : Option (Bytes × Bytes)) → IsToken s blank o
        → (elim o as (λ _. TagLine) [
          | none ↦ stop invalid list
          | some p ↦ step_token alloc flags (parse_tags alloc flags fuel) p.0 p.1 list
        ]).status
          ≢ no_fuel
    go ih none t = λ e. cc e
    go ih (some (tok, rest)) t =
        step_token-ne-no_fuel alloc flags (parse_tags alloc flags fuel) tok rest list
          (λ l. ih (tail rest) l (omega (arith, token_shorter s blank tok rest t)))

-- parse_tag_line ends: its loop makes at most one pass for each byte of the line.
pub parse_tag_line-ne-no_fuel :
    (alloc : ℕ → Bool) (flags : TagFlags) (line : Bytes) (list : TagOpList)
    → (parse_tag_line alloc flags line list).status ≢ no_fuel
unfolding parse_tag_line
parse_tag_line-ne-no_fuel alloc flags line list h = ground (
  arith,
  parse_tags-ne-no_fuel alloc flags (suc (length (skip_blank (chomp_newline line))))
      (skip_blank (chomp_newline line)) (tag_op_list_reset list) (omega arith),
)
