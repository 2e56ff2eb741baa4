-- ===== src/ParseTime/Input.antt =====
-- parse-time-string.c: delimiters and the loop over the tokens of the input.
use notmuch.Prelude.{
  ℕ, zero, suc, ◌+◌, Option, none, some, [], ◌∷◌, ◌==◌, if◌then◌else◌, length, drop,
}
use notmuch.Prelude.Bytes.{Bytes, first_char, isdigit, isalpha, isalnum}
use notmuch.Prelude.Int.{ℤ, pos}
use notmuch.ParseTime.State.{
  tm_none, field_unset, State, Result, ok, err, Action, ◌>>=◌, ◌>>◌, pure, modify, general,
  set_delim, parse_postponed_number,
}
use notmuch.ParseTime.Keywords.{parse_keyword}
use notmuch.ParseTime.Numbers.{Tm, parse_number}

-- Delimiters are thrown away but for the last; the number of bytes.
unfoldable pub parse_delim : Bytes → Action ℕ
parse_delim [] = pure 0
parse_delim (c ∷ s) =
    let rest = modify (set_delim c) >> parse_delim s >>= λ n. pure (n + 1) in
    if isalnum c then pure 0 else rest

module _ (gmtime : ℤ → Option Tm) where
  unfoldable pub parse_token : Bytes → Action ℕ
  unfolding parse_keyword parse_number parse_delim
  parse_token p =
      if isalpha (first_char p)
      then parse_keyword p
      else if isdigit (first_char p)
      then parse_number gmtime p
      else parse_delim p

  -- The loop, with the number of bytes before `p`. `none` is a loop that has not ended within the
  -- fuel.
  unfoldable pub parse_tokens : ℕ → Bytes → ℕ → State → Option (Result ℕ × State)
  unfolding parse_token parse_postponed_number
  parse_tokens zero p done st = none
  parse_tokens (suc fuel) [] done st = some ((parse_postponed_number >> pure done) st)
  parse_tokens (suc fuel) (c ∷ p) done st = elim (parse_token (c ∷ p) st).0 [
    | err e ↦ some (err e, (parse_token (c ∷ p) st).1)
    | ok n ↦
        let next = parse_tokens fuel (drop n (c ∷ p)) (done + n) (parse_token (c ∷ p) st).1 in
        if n == 0 then some (err general, (parse_token (c ∷ p) st).1) else next
  ]

  unfoldable pub parse_input : Bytes → State → Option (Result ℕ × State)
  unfolding parse_tokens
  parse_input s st = parse_tokens (suc (length s)) s 0 st

-- struct state state = { .last_field = TM_NONE }
abbrev pub initial : State
initial = record {
  tm = λ f. pos 0;
  set = λ f. field_unset;
  last_field = tm_none;
  delim = 0;
  postponed_length = pos 0;
  postponed_value = pos 0;
  postponed_delim = 0;
}
