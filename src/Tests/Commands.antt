-- ===== src/Tests/Commands.antt =====
-- command-line-arguments.c and notmuch-tag.c at concrete inputs.
use notmuch.Prelude.{
  ℕ, ◌+◌, ◌-◌, Bool, true, false, none, some, List, [], ◌∷◌, ◌≡◌, ◌⊎◌, inl, inr, refl, arith,
  Bool-cases,
}
use notmuch.Prelude.Bytes.{Bytes, codes, str_equal, str_equal_iff}
use notmuch.Options.{
  Outputs, Table, unset, inherit, boolean, string, position, entry, end, parse_option,
  parse_arguments, is_option, _process_string_arg,
}
use notmuch.Options.Names.{option_name, find, IsTable, run, parse_option-find}
use notmuch.Options.Positions.{positions, stop_index, parse_arguments-stop_index}
use notmuch.Message.{Status, success, Message}
use notmuch.TagCommand.{_optimize_tag_query, tag_query}
use notmuch.TagCommand.Wanted.{Asks, _optimize_tag_query-Asks}
use notmuch.TagCommand.Messages.{AllTagged, tag_query-AllTagged}
use notmuch.Tests.Tags.{lists, message, archive, plain, no_maildir}

abbrev no_number : Bytes → (Bool × ℕ) × Bytes
no_number s = ((false, 0), s)

-- --verbose in an inherited table, --input, and one position.
abbrev shared : Table
shared = entry (boolean 0 (codes "verbose")) end

abbrev table : Table
table = entry (inherit shared) (entry (string 1 (codes "input")) (entry (position (some 2)) end))

abbrev nothing_set : Outputs
nothing_set v = unset

apart :
    (n : Bytes)
    → (find n shared ≡ none)
      ⊎ (find n (entry (string 1 (codes "input")) (entry (position (some 2)) end)) ≡ none)
apart n = elim (Bool-cases (str_equal (codes "verbose") n)) [
  | inl e ↦
      inr (ground (arith, (str_equal_iff (codes "verbose") n).0 e, str_equal_iff (codes "input") n))
  | inr e ↦ inl (rw e refl)
]

table-IsTable : IsTable table
table-IsTable = (
  ((refl, (refl, (refl, (refl, (refl, (refl, (refl, tt))))))), tt),
  ((refl, (refl, (refl, (refl, (refl, tt))))), tt),
  apart,
)

input_run : (parse_option no_number (codes "input=x") table nothing_set).0 ≡ true
unfolding parse_option is_option _process_string_arg
input_run = refl

parse_option-find_example :
    parse_option no_number (codes "input=x") table nothing_set
    ≡ run no_number (codes "input=x") (find (option_name (codes "input=x")) table) nothing_set
parse_option-find_example =
    parse_option-find no_number (codes "input=x") table nothing_set table-IsTable

abbrev line : List Bytes
line = codes "--input=x" ∷ codes "a" ∷ codes "b" ∷ []

line_stop : stop_index (positions table - 0) line ≡ 2
line_stop = refl

parse_arguments-stop_index_example :
    ((parse_arguments no_number table line 1 0 nothing_set).0 ≡ none)
    ⊎ ((parse_arguments no_number table line 1 0 nothing_set).0
        ≡ some (1 + stop_index (positions table - 0) line))
parse_arguments-stop_index_example = parse_arguments-stop_index no_number table line 1 0 nothing_set

abbrev granted : ℕ → Bool
granted n = true

_optimize_tag_query-Asks_example :
    Asks (codes "from:x") archive.ops (_optimize_tag_query granted (codes "from:x") archive)
_optimize_tag_query-Asks_example =
    _optimize_tag_query-Asks granted (codes "from:x") archive (λ n. refl) refl

abbrev finds : Bytes → Status × List (Message lists)
finds q = (success, message ∷ [])

abbrev quiet : ℕ → Bool
quiet i = false

tag_query-AllTagged_example :
    let r = tag_query granted finds no_maildir quiet (codes "*") archive plain in
    (r.0 ≡ true) × AllTagged archive.ops false (message ∷ []) r.1
tag_query-AllTagged_example =
    tag_query-AllTagged no_maildir archive plain quiet granted finds (codes "*") (message ∷ [])
      (λ n. refl) refl refl refl (omega arith, (omega arith, tt)) (λ j. refl) refl
      (record { fresh = record { clean = refl; unfrozen = refl }; writable = refl }, tt)
