-- ===== src/Database/Features/RoundTrip.antt =====
-- Reading back the features that were written.
use notmuch.Prelude.{
  ℕ, zero, suc, ◌+◌, ◌<◌, ◌≡◌, ◌∙◌, Bool, true, false, Option, none, some, List, [], ◌∷◌, ◌++◌,
  if◌then◌else◌, length, length-append, All, ap, Bool-cases, inl, inr, sym, set, get_or, refl,
  arith,
}
use notmuch.Prelude.Bytes.{Bytes}
use notmuch.Database.Features.{
  Features, Row, no_features, feature_names, parse_lines, parse_features, print_rows,
  print_features,
}

-- The text of one row, before more text.
abbrev row_text : Row → Bytes → Bytes
row_text (i, name, flags) rest = name ++ (9 ∷ (flags ++ (10 ∷ rest)))

-- The row is read back as its bit.
abbrev Reads : Row → Type 0
Reads row =
    (fuel mode : ℕ) (rest : Bytes) (r : Features) (o : Option Bytes)
    → parse_lines (suc fuel) mode (row_text row rest) (r, o)
      ≡ parse_lines fuel mode (10 ∷ rest) (set r row.0 true, o)

feature_names-Reads : All Reads feature_names
unfolding parse_lines
feature_names-Reads = (
  λ fuel mode rest r o. refl,
  (
    λ fuel mode rest r o. refl,
    (
      λ fuel mode rest r o. refl,
      (
        λ fuel mode rest r o. refl,
        (
          λ fuel mode rest r o. refl,
          (λ fuel mode rest r o. refl, (λ fuel mode rest r o. refl, tt)),
        ),
      ),
    ),
  ),
)

parse_lines-newline :
    (fuel mode : ℕ) (s : Bytes) (acc : Features × Option Bytes)
    → parse_lines fuel mode (10 ∷ s) acc ≡ parse_lines fuel mode s acc
unfolding parse_lines
parse_lines-newline zero mode s acc = refl
parse_lines-newline (suc fuel) mode s acc = refl

-- The bits that the rows put.
abbrev marks : List Row → Features → Features → Features
marks [] f r = r
marks (row ∷ rows) f r = marks rows f (if get_or f row.0 false then set r row.0 true else r)

length-row_text : (row : Row) (rest : Bytes) → length rest < length (row_text row rest)
length-row_text (i, name, flags) rest =
    omega (arith, length-append name (9 ∷ (flags ++ (10 ∷ rest))), length-append flags (10 ∷ rest))

print_rows-cons :
    (row : Row) (rows : List Row) (f : Features)
    → print_rows (row ∷ rows) f
      ≡ (if get_or f row.0 false then row_text row (print_rows rows f) else print_rows rows f)
unfolding print_rows
print_rows-cons row rows f = refl

no_line :
    (fuel mode : ℕ) (acc : Features × Option Bytes) → parse_lines (suc fuel) mode [] acc ≡ some acc
unfolding parse_lines
no_line fuel mode acc = refl

print_rows-nil : (f : Features) → print_rows [] f ≡ []
unfolding print_rows
print_rows-nil f = refl

read_rows :
    (rows : List Row) (fuel mode : ℕ) (f r : Features) (o : Option Bytes)
    → All Reads rows
    → length (print_rows rows f) < fuel
    → parse_lines fuel mode (print_rows rows f) (r, o) ≡ some (marks rows f r, o)
read_rows rows zero mode f r o h lt = absurd (omega arith)
read_rows [] (suc fuel) mode f r o h lt =
    ap (λ s. parse_lines (suc fuel) mode s (r, o)) (print_rows-nil f) ∙ no_line fuel mode (r, o)
read_rows (row ∷ rows) (suc fuel) mode f r o h lt = elim (Bool-cases (get_or f row.0 false)) [
  | inl e ↦
      let text =
        print_rows-cons row rows f
        ∙ ap (λ b. if b then row_text row (print_rows rows f) else print_rows rows f) e in
      let step =
        ap (λ s. parse_lines (suc fuel) mode s (r, o)) text
        ∙ h.0 fuel mode (print_rows rows f) r o
        ∙ parse_lines-newline fuel mode (print_rows rows f) (set r row.0 true, o) in
      step
      ∙ read_rows rows fuel mode f (set r row.0 true) o h.1
          (omega (arith, length-row_text row (print_rows rows f), ap length text, lt))
      ∙ ap (λ b. some (marks rows f (if b then set r row.0 true else r), o)) (sym e)
  | inr e ↦
      let text =
        print_rows-cons row rows f
        ∙ ap (λ b. if b then row_text row (print_rows rows f) else print_rows rows f) e in
      ap (λ s. parse_lines (suc fuel) mode s (r, o)) text
      ∙ read_rows rows (suc fuel) mode f r o h.1 (omega (arith, ap length text, lt))
      ∙ ap (λ b. some (marks rows f (if b then set r row.0 true else r), o)) (sym e)
]

if_bit : (f : Bool → Features) (b : Bool) → (if b then f true else f false) ≡ f b
if_bit f true = refl
if_bit f false = refl

marks-all :
    (b0 b1 b2 b3 b4 b5 b6 : Bool)
    → marks feature_names (b0 ∷ b1 ∷ b2 ∷ b3 ∷ b4 ∷ b5 ∷ b6 ∷ []) no_features
      ≡ b0 ∷ b1 ∷ b2 ∷ b3 ∷ b4 ∷ b5 ∷ b6 ∷ []
marks-all b0 b1 b2 b3 b4 b5 b6 =
    let e0 = if_bit (λ b. b ∷ false ∷ false ∷ false ∷ false ∷ false ∷ false ∷ []) b0 in
    let e1 =
      ap (λ r. if b1 then set r 1 true else r) e0
      ∙ if_bit (λ b. b0 ∷ b ∷ false ∷ false ∷ false ∷ false ∷ false ∷ []) b1 in
    let e2 =
      ap (λ r. if b2 then set r 2 true else r) e1
      ∙ if_bit (λ b. b0 ∷ b1 ∷ b ∷ false ∷ false ∷ false ∷ false ∷ []) b2 in
    let e3 =
      ap (λ r. if b3 then set r 3 true else r) e2
      ∙ if_bit (λ b. b0 ∷ b1 ∷ b2 ∷ b ∷ false ∷ false ∷ false ∷ []) b3 in
    let e4 =
      ap (λ r. if b4 then set r 4 true else r) e3
      ∙ if_bit (λ b. b0 ∷ b1 ∷ b2 ∷ b3 ∷ b ∷ false ∷ false ∷ []) b4 in
    let e5 =
      ap (λ r. if b5 then set r 5 true else r) e4
      ∙ if_bit (λ b. b0 ∷ b1 ∷ b2 ∷ b3 ∷ b4 ∷ b ∷ false ∷ []) b5 in
    ap (λ r. if b6 then set r 6 true else r) e5
    ∙ if_bit (λ b. b0 ∷ b1 ∷ b2 ∷ b3 ∷ b4 ∷ b5 ∷ b ∷ []) b6

-- The features written are the features read, and none is reported as unknown.
pub parse_features-print_features :
    (b0 b1 b2 b3 b4 b5 b6 : Bool) (mode : ℕ)
    → parse_features (print_features (b0 ∷ b1 ∷ b2 ∷ b3 ∷ b4 ∷ b5 ∷ b6 ∷ [])) 3 mode
      ≡ some (b0 ∷ b1 ∷ b2 ∷ b3 ∷ b4 ∷ b5 ∷ b6 ∷ [], none)
unfolding parse_features print_features
parse_features-print_features b0 b1 b2 b3 b4 b5 b6 mode =
    let f = b0 ∷ b1 ∷ b2 ∷ b3 ∷ b4 ∷ b5 ∷ b6 ∷ [] in
    read_rows feature_names (length (print_rows feature_names f) + 1) mode f no_features none
      feature_names-Reads (omega arith)
    ∙ ap (λ r. some (r, none)) (marks-all b0 b1 b2 b3 b4 b5 b6)
