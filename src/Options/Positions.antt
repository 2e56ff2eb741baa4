-- ===== src/Options/Positions.antt =====
-- command-line-arguments.c: where parse_arguments stops.
use notmuch.Prelude.{
  ℕ, zero, suc, ◌+◌, ◌-◌, Bool, none, some, List, [], ◌∷◌, ◌==◌, ltb, if◌then◌else◌, length, drop,
  ◌≡◌, ◌⊎◌, refl, arith, inr,
}
use notmuch.Prelude.Bytes.{Bytes, codes}
use notmuch.Options.{
  Outputs, Table, end, entry, inherit, boolean, int, keyword, keyword_flags, string, position,
  is_prefix, parse_option, parse_position_arg, parse_arguments,
}

-- The number of entries for positional arguments.
abbrev pub positions : Table → ℕ
positions end = 0
positions (entry (position v) t) = suc (positions t)
positions (entry d t) = positions t

-- How many arguments are parsed, with `left` positional ones allowed: up to a "--", which is
-- parsed too, or to one positional argument too many.
abbrev pub stop_index : ℕ → List Bytes → ℕ
stop_index left [] = 0
stop_index left (arg ∷ args) =
    let next = suc (stop_index left args) in
    let positional = suc (stop_index (left - 1) args) in
    if is_prefix (codes "--") arg
    then (if length arg == 2 then 1 else next)
    else if left == 0
    then 0
    else positional

pub parse_position_arg_found :
    (arg : Bytes) (k : ℕ) (t : Table) (o : Outputs)
    → (parse_position_arg arg k t o).0 ≡ ltb k (positions t)
unfolding parse_position_arg
parse_position_arg_found arg zero end o = refl
parse_position_arg_found arg (suc k) end o = ground arith
parse_position_arg_found arg zero (entry (position v) t) o = ground arith
parse_position_arg_found arg (suc k) (entry (position v) t) o =
    ground (arith, parse_position_arg_found arg k t o)
parse_position_arg_found arg zero (entry (inherit x) t) o = parse_position_arg_found arg zero t o
parse_position_arg_found arg zero (entry (boolean x n) t) o = parse_position_arg_found arg zero t o
parse_position_arg_found arg zero (entry (int x n) t) o = parse_position_arg_found arg zero t o
parse_position_arg_found arg zero (entry (keyword x n ks) t) o =
    parse_position_arg_found arg zero t o
parse_position_arg_found arg zero (entry (keyword_flags x n ks) t) o =
    parse_position_arg_found arg zero t o
parse_position_arg_found arg zero (entry (string x n) t) o = parse_position_arg_found arg zero t o
parse_position_arg_found arg (suc k) (entry (inherit x) t) o =
    parse_position_arg_found arg (suc k) t o
parse_position_arg_found arg (suc k) (entry (boolean x n) t) o =
    parse_position_arg_found arg (suc k) t o
parse_position_arg_found arg (suc k) (entry (int x n) t) o =
    parse_position_arg_found arg (suc k) t o
parse_position_arg_found arg (suc k) (entry (keyword x n ks) t) o =
    parse_position_arg_found arg (suc k) t o
parse_position_arg_found arg (suc k) (entry (keyword_flags x n ks) t) o =
    parse_position_arg_found arg (suc k) t o
parse_position_arg_found arg (suc k) (entry (string x n) t) o =
    parse_position_arg_found arg (suc k) t o

-- parse_arguments returns -1, or the index behind the arguments that it is documented to parse:
-- up to a "--" or to a positional argument for which the table has no entry left.
pub parse_arguments-stop_index :
    (strtol : Bytes → (Bool × ℕ) × Bytes) (options : Table) (args : List Bytes) (opt_index k : ℕ)
    (o : Outputs)
    → ((parse_arguments strtol options args opt_index k o).0 ≡ none)
      ⊎ ((parse_arguments strtol options args opt_index k o).0
          ≡ some (opt_index + stop_index (positions options - k) args))
unfolding parse_arguments
parse_arguments-stop_index strtol options [] i k o = inr (ground arith)
parse_arguments-stop_index strtol options (arg ∷ args) i k o =
    let p = parse_position_arg arg k options o in
    let q = parse_option strtol (drop 2 arg) options o in
    ground (
      arith,
      parse_position_arg_found arg k options o,
      parse_arguments-stop_index strtol options args (i + 1) (suc k) p.1,
      parse_arguments-stop_index strtol options args (i + 1) k q.1,
    )
