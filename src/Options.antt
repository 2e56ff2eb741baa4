-- ===== src/Options.antt =====
-- command-line-arguments.c: option tables and the parsing of a command line by them. Output
-- variables are numbers. strtol is an argument: the value, and what stands behind the number.
pub mod Names
pub mod Positions
use Prim.Native.Nat.{bit_or}
use notmuch.Prelude.{
  ℕ, zero, suc, ◌+◌, ◌-◌, ◌%◌, ◌^◌, Bool, true, false, not, ◌&&◌, ◌||◌, Option, none, some, List,
  [], ◌∷◌, ◌==◌, if◌then◌else◌, length, drop,
}
use notmuch.Prelude.Bytes.{Bytes, codes, str_equal, first_char}
use notmuch.TagUtil.{tail}

-- What an output variable holds; an int that strtol gives by its 32 bits.
pub data Output : Type 0 where
  unset : Output
  bool_out : Bool → Output
  int_out : ℕ → Output
  word_out : ℕ → Output
  string_out : Bytes → Output

abbrev pub Outputs : Type 0
Outputs = ℕ → Output

abbrev pub assign : ℕ → Output → Outputs → Outputs
assign var v o = λ w. if var == w then v else o w

pub record Keyword : Type 0 where
  pub name : Bytes
  pub value : ℕ

-- notmuch_opt_desc_t by its opt_type; the end of a table is the end of its list. An output
-- pointer may be NULL only for positions.
mutual
  pub data Description : Type 0 where
    inherit : Table → Description
    boolean : ℕ → Bytes → Description
    int : ℕ → Bytes → Description
    keyword : ℕ → Bytes → List Keyword → Description
    keyword_flags : ℕ → Bytes → List Keyword → Description
    string : ℕ → Bytes → Description
    position : Option ℕ → Description

  pub data Table : Type 0 where
    end : Table
    entry : Description → Table → Table

-- The number in a variable that holds one.
abbrev pub number_of : Output → ℕ
number_of (int_out n) = n
number_of _ = 0

unfoldable pub _process_keyword_arg : Bool → ℕ → List Keyword → ℕ → Bytes → Outputs → Bool × Outputs
_process_keyword_arg flags var [] next arg o = (false, o)
_process_keyword_arg flags var (k ∷ ks) next arg o =
    let rest = _process_keyword_arg flags var ks next arg o in
    let word = if next == 0 then [] else arg in
    if str_equal word k.name
    then (
      true,
      assign var (int_out (if flags then bit_or (number_of (o var)) k.value else k.value)) o,
    )
    else rest

unfoldable pub _process_boolean_arg : ℕ → ℕ → Bytes → Outputs → Bool × Outputs
_process_boolean_arg var next arg o =
    if next == 0
    then (true, assign var (bool_out true) o)
    else if str_equal arg (codes "false")
    then (true, assign var (bool_out false) o)
    else if str_equal arg (codes "true")
    then (true, assign var (bool_out true) o)
    else (false, o)

-- The low 32 bits of a long, in two's complement.
abbrev truncate : Bool → ℕ → ℕ
truncate negative n = if negative then (2 ^ 32 - n % 2 ^ 32) % 2 ^ 32 else n % 2 ^ 32

-- The variable is set even where the rest of the argument is no number.
unfoldable pub _process_int_arg :
    (Bytes → (Bool × ℕ) × Bytes) → ℕ → ℕ → Bytes → Outputs → Bool × Outputs
_process_int_arg strtol var next arg o =
    let ((negative, n), endptr) = strtol arg in
    let o' = assign var (word_out (truncate negative n)) o in
    if next == 0 || first_char arg == 0
    then (false, o)
    else if first_char endptr == 0
    then (true, o')
    else (false, o')

unfoldable pub _process_string_arg : ℕ → ℕ → Bytes → Outputs → Bool × Outputs
_process_string_arg var next arg o =
    if next == 0
    then (false, o)
    else if first_char arg == 0
    then (false, o)
    else (true, assign var (string_out arg) o)

-- strncmp (arg, name, strlen (name)) == 0
abbrev pub is_prefix : Bytes → Bytes → Bool
is_prefix [] arg = true
is_prefix (x ∷ name) [] = false
is_prefix (x ∷ name) (y ∷ arg) = x == y && is_prefix name arg

abbrev pub is_delimiter : ℕ → Bool
is_delimiter next = next == b'=' || next == b':' || next == 0

-- Whether a named entry is the one that the argument is for.
unfoldable pub is_option : Bytes → Bytes → Bool
is_option name arg = is_prefix name arg && is_delimiter (first_char (drop (length name) arg))

-- The name of an entry and what it does with the byte behind the name and the value.
abbrev pub Process : Type 0
Process = ℕ → Bytes → Outputs → Bool × Outputs

abbrev pub try_name : Bytes → Process → Bytes → Outputs → Bool × Outputs → Bool × Outputs
try_name name process arg o next =
    let rest = drop (length name) arg in
    if is_option name arg then process (first_char rest) (tail rest) o else next

-- The name of an entry that has one.
abbrev pub name_of : Description → Option Bytes
name_of (inherit t) = none
name_of (boolean v n) = some n
name_of (int v n) = some n
name_of (keyword v n ks) = some n
name_of (keyword_flags v n ks) = some n
name_of (string v n) = some n
name_of (position v) = none

abbrev assign_position : Option ℕ → Bytes → Outputs → Outputs
assign_position none arg o = o
assign_position (some v) arg o = assign v (string_out arg) o

unfoldable pub parse_position_arg : Bytes → ℕ → Table → Outputs → Bool × Outputs
parse_position_arg arg k end o = (false, o)
parse_position_arg arg zero (entry (position v) t) o = (true, assign_position v arg o)
parse_position_arg arg (suc k) (entry (position v) t) o = parse_position_arg arg k t o
parse_position_arg arg k (entry d t) o = parse_position_arg arg k t o

module _ (strtol : Bytes → (Bool × ℕ) × Bytes) where
  -- The switch over the type of the entry.
  abbrev pub process : Description → Process
  process (boolean v n) = _process_boolean_arg v
  process (int v n) = _process_int_arg strtol v
  process (keyword v n ks) = _process_keyword_arg false v ks
  process (keyword_flags v n ks) = _process_keyword_arg true v ks
  process (string v n) = _process_string_arg v
  process (inherit t) = λ next arg o. (false, o)
  process (position v) = λ next arg o. (false, o)

  -- parse_option behind the two dashes. The table behind an inherited one is tried with what
  -- that one has left in the variables.
  unfoldable mutual
    pub parse_option : Bytes → Table → Outputs → Bool × Outputs
    parse_option arg end o = (false, o)
    parse_option arg (entry d t) o = try_entry arg d t o (parse_option arg t)

    pub try_entry :
        Bytes → Description → Table → Outputs → (Outputs → Bool × Outputs) → Bool × Outputs
    try_entry arg (inherit t') t o next =
        let (done, o') = parse_option arg t' o in if done then (true, o') else next o'
    try_entry arg (boolean v n) t o next = try_name n (process (boolean v n)) arg o (next o)
    try_entry arg (int v n) t o next = try_name n (process (int v n)) arg o (next o)
    try_entry arg (keyword v n ks) t o next = try_name n (process (keyword v n ks)) arg o (next o)
    try_entry arg (keyword_flags v n ks) t o next =
        try_name n (process (keyword_flags v n ks)) arg o (next o)
    try_entry arg (string v n) t o next = try_name n (process (string v n)) arg o (next o)
    try_entry arg (position v) t o next = next o

  abbrev dashes : Bytes
  dashes = codes "--"

  -- The arguments from opt_index on, and the number of positional ones so far. -1 is `none`.
  unfoldable pub parse_arguments : Table → List Bytes → ℕ → ℕ → Outputs → Option ℕ × Outputs
  parse_arguments options [] opt_index k o = (some opt_index, o)
  parse_arguments options (arg ∷ args) opt_index k o =
      let (more, o1) = parse_position_arg arg k options o in
      let (found, o2) = parse_option (drop 2 arg) options o in
      let behind_position = parse_arguments options args (opt_index + 1) (suc k) o1 in
      let behind_option = parse_arguments options args (opt_index + 1) k o2 in
      if not (is_prefix dashes arg)
      then (if more then behind_position else (some opt_index, o1))
      else if length arg == 2
      then (some (opt_index + 1), o)
      else if found
      then behind_option
      else (none, o2)
