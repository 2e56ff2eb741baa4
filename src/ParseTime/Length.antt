-- ===== src/ParseTime/Length.antt =====
-- parse-time-string.c: how many bytes a token takes, and the end of the loop over the tokens.
use notmuch.Prelude.{
  ℕ, zero, suc, Option, none, some, Bool, true, false, List, [], ◌∷◌, ◌==◌, leb, if◌then◌else◌, ◌≡◌,
  refl, subst, arith, Bool-cases, inl, inr, length, drop, ◌-◌, ◌+◌, ◌<◌,
}
use notmuch.Prelude.Bytes.{Bytes, first_char, isdigit, isalpha, isalnum}
use notmuch.Prelude.Int.{ℤ}
use notmuch.TagUtil.{tail}
use notmuch.ParseTime.State.{
  Action, Done, State, Result, ok, err, Error, ◌>>◌, pure, raise, keyword, set_delim, general,
  parse_postponed_number,
}
use notmuch.ParseTime.Keywords.{
  Keyword, match_from, match_keyword, match_entry, find_keyword, keywords, parse_keyword,
  set_keyword,
}
use notmuch.ParseTime.Numbers.{
  Tm, Reading, read_numbers, act_on, parse_number, parse_single_number, parse_time, parse_date,
  is_time_sep,
}
use notmuch.ParseTime.Input.{parse_delim, parse_token, parse_tokens, parse_input}

-- The number that an outcome hands back passes the test; an error passes.
abbrev pub passes : (ℕ → Bool) → Result ℕ → Bool
passes test (ok n) = test n
passes test (err e) = true

-- An action that takes at most k bytes.
record Takes (k : ℕ) (m : Action ℕ) : Type 0 where
  takes : (s : State) → passes (λ n. leb n k) (m s).0 ≡ true

Takes-raise : {k : ℕ} {e : Error} → Takes k (raise e)
Takes-raise = record { takes = λ s. refl }

Takes-then : {A : Type 0} {k : ℕ} (m : Action A) (n : ℕ) → leb n k ≡ true → Takes k (m >> pure n)
Takes-then {A} {k} m n h = record { takes = λ s. go (m s) }
  where
    go :
        (r : Result A × State)
        → passes
            (λ n. leb n k)
            (elim r.0 as (λ _. Result ℕ × State) [ ok a ↦ (ok n, r.1) | err e ↦ (err e, r.1) ]).0
          ≡ true
    go (ok a, t) = h
    go (err e, t) = refl

Takes-if :
    {k : ℕ} {m n : Action ℕ} (b : Bool) → Takes k m → Takes k n → Takes k (if b then m else n)
Takes-if true h k = h
Takes-if false h k = k

match_from-bound :
    (c : Bool) (s kw : Bytes) (p : Bool) (n : ℕ) → leb (match_from c s kw p n) (n + length s) ≡ true
unfolding match_from
match_from-bound c s [] p n = ground arith
match_from-bound c [] (k ∷ kw) p n = ground (arith, match_from-bound c [] kw true n)
match_from-bound c (x ∷ s) (k ∷ kw) p n =
    ground (arith, match_from-bound c (x ∷ s) kw true n, match_from-bound c s kw p (n + 1))

match_entry-bound : (s : Bytes) (kw : Keyword) → leb (match_entry s kw) (length s) ≡ true
unfolding match_entry match_keyword
match_entry-bound s kw = ground (
  arith,
  match_from-bound true s (tail kw.name) false 0,
  match_from-bound false s kw.name false 0,
)

find_keyword-bound :
    (s : Bytes) (kws : List Keyword) (kw : Keyword) (n : ℕ)
    → find_keyword s kws ≡ some (kw, n)
    → leb n (length s) ≡ true
unfolding find_keyword
find_keyword-bound s [] kw n e = ground arith
find_keyword-bound s (k ∷ kws) kw n e = elim (Bool-cases (match_entry s k == 0)) [
  | inl z ↦ find_keyword-bound s kws kw n (rw z at e)
  | inr z ↦ let same = rw z at e in let fit = match_entry-bound s k in cc
]

Takes-keyword : (s : Bytes) → Takes (length s) (parse_keyword s)
unfolding parse_keyword
Takes-keyword s = go (find_keyword s keywords) (find_keyword-bound s keywords)
  where
    go :
        (found : Option (Keyword × ℕ))
        → ((kw : Keyword) (n : ℕ) → found ≡ some (kw, n) → leb n (length s) ≡ true)
        → Takes (length s) (elim found as (λ _. Action ℕ) [
          | none ↦ raise keyword
          | some (kw, n) ↦ set_keyword kw.set kw >> pure n
        ])
    go none h = Takes-raise
    go (some (kw, n)) h = Takes-then (set_keyword kw.set kw) n (h kw n refl)

-- The loop has ended, with an error or with k bytes read.
abbrev pub ends_with : ℕ → Option (Result ℕ × State) → Bool
ends_with k none = false
ends_with k (some r) = passes (λ n. n == k) r.0

length-drop : (n : ℕ) (s : Bytes) → leb n (length s) ≡ true → length (drop n s) + n ≡ length s
length-drop zero s h = omega arith
length-drop (suc n) [] h = ground arith
length-drop (suc n) (c ∷ s) h = omega (arith, length-drop n s (ground (arith, h)))

minus_le : (a b : ℕ) → leb (a - b) a ≡ true
minus_le a b = ground arith

module _ (gmtime : ℤ → Option Tm) where
  Takes-number : (s : Bytes) → Takes (length s) (parse_number gmtime s)
  unfolding parse_number read_numbers
  Takes-number s = go (read_numbers s) (minus_le (length s) _) (minus_le (length s) _)
    where
      go :
          (r : Reading)
          → leb r.3 (length s) ≡ true
          → leb r.4 (length s) ≡ true
          → Takes (length s) (act_on gmtime r)
      go (single, sep, t, l, m) h k =
          Takes-if single (Takes-then (parse_single_number gmtime t.v1 t.n1) l h) (
            Takes-if (is_time_sep sep) (Takes-then (parse_time t) m k)
              (Takes-then (parse_date sep t) m k))

  Takes-delim : (s : Bytes) → Takes (length s) (parse_delim s)
  unfolding parse_delim
  Takes-delim [] = record { takes = λ s. refl }
  Takes-delim (c ∷ s) =
      Takes-if (isalnum c) (record { takes = λ t. zero_le (length (c ∷ s)) })
        (record {
          takes = λ t. go (parse_delim s (set_delim c t)) ((Takes-delim s).takes (set_delim c t));
        })
    where
      zero_le : (n : ℕ) → leb 0 n ≡ true
      zero_le n = ground arith

      go :
          (r : Result ℕ × State)
          → passes (λ n. leb n (length s)) r.0 ≡ true
          → passes
              (λ n. leb n (suc (length s)))
              (elim r.0 as (λ _. Result ℕ × State) [
                | ok n ↦ (ok (n + 1), r.1)
                | err e ↦ (err e, r.1)
              ]).0
            ≡ true
      go (ok n, t) h = ground (arith, h)
      go (err e, t) h = refl

  Takes-token : (s : Bytes) → Takes (length s) (parse_token gmtime s)
  unfolding parse_token
  Takes-token s =
      Takes-if (isalpha (first_char s)) (Takes-keyword s)
        (Takes-if (isdigit (first_char s)) (Takes-number s) (Takes-delim s))

  tokens_end :
      (fuel : ℕ) (p : Bytes) (done : ℕ) (s : State)
      → length p < fuel
      → ends_with (done + length p) (parse_tokens gmtime fuel p done s) ≡ true
  unfolding parse_tokens
  tokens_end zero p done s l = ground arith
  tokens_end (suc fuel) [] done s l = go (parse_postponed_number s)
    where
      go :
          (r : Result Done × State)
          → passes
              (λ n. n == done + 0)
              (elim r.0 as (λ _. Result ℕ × State) [
                | ok n ↦ (ok done, r.1)
                | err e ↦ (err e, r.1)
              ]).0
            ≡ true
      go (ok n, t) = ground arith
      go (err e, t) = refl
  tokens_end (suc fuel) (c ∷ p) done s l =
      go (parse_token gmtime (c ∷ p) s) ((Takes-token (c ∷ p)).takes s)
        (λ n. tokens_end fuel (drop n (c ∷ p)) (done + n))
    where
      go :
          (r : Result ℕ × State)
          → passes (λ n. leb n (suc (length p))) r.0 ≡ true
          → ((n : ℕ) (t : State)
              → length (drop n (c ∷ p)) < fuel
              → ends_with
                  (done + n + length (drop n (c ∷ p)))
                  (parse_tokens gmtime fuel (drop n (c ∷ p)) (done + n) t)
                ≡ true)
          → ends_with (done + suc (length p)) (elim r.0 as (λ _. Option (Result ℕ × State)) [
            | err e ↦ some (err e, r.1)
            | ok n ↦
                if n == 0
                then some (err general, r.1)
                else parse_tokens gmtime fuel (drop n (c ∷ p)) (done + n) r.1
          ])
            ≡ true
      go (err e, t) h ih = refl
      go (ok n, t) h ih = elim (Bool-cases (n == 0)) [
        | inl e ↦ rw (ends_with, e) refl
        | inr e ↦
            let d = length-drop n (c ∷ p) (ground arith) in
            let k = ih n t (ground arith) in
            rw (ends_with, e)
              (subst
                (λ x. ends_with x (parse_tokens gmtime fuel (drop n (c ∷ p)) (done + n) t) ≡ true)
                (omega arith) k)
      ]

-- The parser ends, without running out of fuel; where it ends with no error, it has read the whole
-- of the input.
pub parse_input-total :
    (gmtime : ℤ → Option Tm) (s : Bytes) (st : State)
    → ends_with (length s) (parse_input gmtime s st) ≡ true
unfolding parse_input
parse_input-total gmtime s st =
    subst (λ k. ends_with k (parse_tokens gmtime (suc (length s)) s 0 st) ≡ true) (omega arith)
      (tokens_end gmtime (suc (length s)) s 0 st (omega arith))
