-- ===== src/Options/Names.antt =====
-- command-line-arguments.c: which entry of a table an option is for.
use notmuch.Prelude.{
  ℕ, Bool, true, false, Option, none, some, [], ◌∷◌, if◌then◌else◌, length, drop, ◌≡◌, ◌⊎◌, refl,
  ap, ◌∙◌, arith, inl, inr, Bool-cases, All,
}
use notmuch.Prelude.Bytes.{Bytes, first_char, str_equal, str_equal_iff}
use notmuch.TagUtil.{tail}
use notmuch.Options.{
  Outputs, Table, Description, end, entry, inherit, boolean, int, keyword, keyword_flags, string,
  position, is_delimiter, is_option, try_name, process, parse_option,
}

-- An argument up to its first "=" or ":".
abbrev pub option_name : Bytes → Bytes
option_name [] = []
option_name (c ∷ arg) = if is_delimiter c then [] else c ∷ option_name arg

-- A name without a delimiter.
abbrev pub IsName : Bytes → Type 0
IsName = All (λ c. is_delimiter c ≡ false)

is_option-option_name :
    (name arg : Bytes) → IsName name → is_option name arg ≡ str_equal name (option_name arg)
unfolding is_option
is_option-option_name [] [] h = refl
is_option-option_name [] (c ∷ arg) h = ground arith
is_option-option_name (x ∷ name) [] h = refl
is_option-option_name (x ∷ name) (c ∷ arg) h = ground (arith, is_option-option_name name arg h.1)

-- The first entry of a name, an inherited table in the place where it stands.
abbrev pub or_find : Option Description → Option Description → Option Description
or_find none e = e
or_find (some d) e = some d

abbrev named : Bytes → Description → Bytes → Option Description
named name d n = if str_equal name n then some d else none

abbrev pub find : Bytes → Table → Option Description
find n end = none
find n (entry (inherit t') t) = or_find (find n t') (find n t)
find n (entry (boolean v m) t) = or_find (named m (boolean v m) n) (find n t)
find n (entry (int v m) t) = or_find (named m (int v m) n) (find n t)
find n (entry (keyword v m ks) t) = or_find (named m (keyword v m ks) n) (find n t)
find n (entry (keyword_flags v m ks) t) = or_find (named m (keyword_flags v m ks) n) (find n t)
find n (entry (string v m) t) = or_find (named m (string v m) n) (find n t)
find n (entry (position v) t) = find n t

-- Names have no delimiter, and an inherited table shares none with the entries behind it.
abbrev pub IsTable : Table → Type 0
IsTable end = Unit
IsTable (entry (inherit t') t) =
    IsTable t' × IsTable t × ((n : Bytes) → (find n t' ≡ none) ⊎ (find n t ≡ none))
IsTable (entry (boolean v m) t) = IsName m × IsTable t
IsTable (entry (int v m) t) = IsName m × IsTable t
IsTable (entry (keyword v m ks) t) = IsName m × IsTable t
IsTable (entry (keyword_flags v m ks) t) = IsName m × IsTable t
IsTable (entry (string v m) t) = IsName m × IsTable t
IsTable (entry (position v) t) = IsTable t

module _ (strtol : Bytes → (Bool × ℕ) × Bytes) (arg : Bytes) where
  -- What an entry does with the argument, if there is one.
  abbrev pub run : Option Description → Outputs → Bool × Outputs
  run none o = (false, o)
  run (some d) o =
      let rest = drop (length (option_name arg)) arg in
      process strtol d (first_char rest) (tail rest) o

  try_name-run :
      (d : Description) (m : Bytes) (t : Table) (o : Outputs)
      → IsName m
      → parse_option strtol arg t o ≡ run (find (option_name arg) t) o
      → try_name m (process strtol d) arg o (parse_option strtol arg t o)
        ≡ run (or_find (named m d (option_name arg)) (find (option_name arg) t)) o
  try_name-run d m t o h e =
      rw (is_option-option_name m arg h) (elim (Bool-cases (str_equal m (option_name arg))) [
        | inl q ↦ rw q (
            ap
              (λ (n : Bytes).
                process strtol d (first_char (drop (length n) arg)) (tail (drop (length n) arg)) o)
              ((str_equal_iff m (option_name arg)).0 q))
        | inr q ↦ rw q e
      ])

  last :
      (p : Bool × Outputs) (r : Outputs → Bool × Outputs)
      → ((o : Outputs) → r o ≡ (false, o))
      → (if p.0 then (true, p.1) else r p.1) ≡ p
  last (true, o) r h = refl
  last (false, o) r h = h o

  inherit-run :
      (a b : Option Description) (r : Outputs → Bool × Outputs) (o : Outputs)
      → (a ≡ none) ⊎ (b ≡ none)
      → ((o : Outputs) → r o ≡ run b o)
      → (let (done, o') = run a o in if done then (true, o') else r o') ≡ run (or_find a b) o
  inherit-run none b r o h e = e o
  inherit-run (some d) b r o (inl h) e = cc h
  inherit-run (some d) b r o (inr h) e = last (run (some d) o) r (λ o. e o ∙ ap (λ x. run x o) h)

  -- parse_option finds the entry whose name is the argument's part before its first "=" or ":",
  -- however many other names are a beginning of it or begin with it, and does what that entry
  -- says; where no entry has the name, it fails and changes no variable. Names in the table have
  -- no delimiter, and an inherited table shares no name with the entries behind it.
  pub parse_option-find :
      (t : Table) (o : Outputs)
      → IsTable t
      → parse_option strtol arg t o ≡ run (find (option_name arg) t) o
  unfolding parse_option
  parse_option-find end o h = refl
  parse_option-find (entry (inherit t') t) o (h', h, u) = rw (parse_option-find t' o h') (
      inherit-run (find (option_name arg) t') (find (option_name arg) t) (parse_option strtol arg t)
        o (u (option_name arg)) (λ o. parse_option-find t o h))
  parse_option-find (entry (boolean v m) t) o (n, h) =
      try_name-run (boolean v m) m t o n (parse_option-find t o h)
  parse_option-find (entry (int v m) t) o (n, h) =
      try_name-run (int v m) m t o n (parse_option-find t o h)
  parse_option-find (entry (keyword v m ks) t) o (n, h) =
      try_name-run (keyword v m ks) m t o n (parse_option-find t o h)
  parse_option-find (entry (keyword_flags v m ks) t) o (n, h) =
      try_name-run (keyword_flags v m ks) m t o n (parse_option-find t o h)
  parse_option-find (entry (string v m) t) o (n, h) =
      try_name-run (string v m) m t o n (parse_option-find t o h)
  parse_option-find (entry (position v) t) o h = parse_option-find t o h
