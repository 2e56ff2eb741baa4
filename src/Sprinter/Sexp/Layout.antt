-- ===== src/Sprinter/Sexp/Layout.antt =====
-- sprinter-sexp.c: the text of a tree of values whose keys are symbols.
use notmuch.Prelude.{
  Bool, true, false, ◌&&◌, Option, some, List, [], ◌∷◌, ◌++◌, append_assoc, append-nil,
  if◌then◌else◌, ◌≡◌, refl, sym, ap, ap₂, ◌∙◌,
}
use notmuch.Prelude.Bytes.{Bytes, codes}
use notmuch.Sprinter.{
  Value, Items, Fields, null_value, bool_value, int_value, string_value, list_value, map_value,
  no_items, item, no_fields, field, show_value, show_items, show_fields, ◌>>=◌,
}
use notmuch.Sprinter.Sexp.{
  SprinterSexp, sexp_quoted, sexp_end, sexp_map_key, sexp_begin_value, sexp_begin_aggregate, write,
  is_symbol, sprinter_sexp, sprinter_sexp_create,
}

abbrev gap : Bool → Bytes
gap first = if first then [] else codes " "

-- The text of a value: lists, and maps as property lists with keys like `:key`.
abbrev mutual
  pub sexp_text : Value → Bytes
  sexp_text null_value = codes "nil"
  sexp_text (bool_value b) = if b then codes "t" else codes "nil"
  sexp_text (int_value n) = n
  sexp_text (string_value t) = sexp_quoted t
  sexp_text (list_value xs) = b'(' ∷ (sexp_items true xs ++ b')' ∷ [])
  sexp_text (map_value fs) = b'(' ∷ (sexp_fields true fs ++ b')' ∷ [])

  pub sexp_items : Bool → Items → Bytes
  sexp_items first no_items = []
  sexp_items first (item v xs) = gap first ++ (sexp_text v ++ sexp_items false xs)

  pub sexp_fields : Bool → Fields → Bytes
  sexp_fields first no_fields = []
  sexp_fields first (field k v fs) =
      gap first ++ (b':' ∷ k ++ (codes " " ++ (sexp_text v ++ sexp_fields false fs)))

-- Every key is a symbol.
abbrev mutual
  pub HasSymbols : Value → Type 0
  HasSymbols (list_value xs) = HasSymbolsItems xs
  HasSymbols (map_value fs) = HasSymbolsFields fs
  HasSymbols _ = Unit

  pub HasSymbolsItems : Items → Type 0
  HasSymbolsItems no_items = Unit
  HasSymbolsItems (item v xs) = HasSymbols v × HasSymbolsItems xs

  pub HasSymbolsFields : Fields → Type 0
  HasSymbolsFields no_fields = Unit
  HasSymbolsFields (field k v fs) = (is_symbol k ≡ true) × HasSymbols v × HasSymbolsFields fs

abbrev within : Bytes → Bool → List Bool → SprinterSexp
within out first fs = record { stream = out; state = first ∷ fs; insert_separator = false }

write_value :
    (t out : Bytes) (b : Bool) (fs : List Bool)
    → write t (sexp_begin_value (within out b fs)) ≡ within (out ++ (gap b ++ t)) false fs
write_value t out true fs = refl
write_value t out false fs = ap (λ o. within o false fs) (append_assoc out (codes " ") t)

begin_aggregate-within :
    (out : Bytes) (b : Bool) (fs : List Bool)
    → sexp_begin_aggregate (within out b fs)
      ≡ within (out ++ (gap b ++ codes "(")) true (false ∷ fs)
begin_aggregate-within out true fs = refl
begin_aggregate-within out false fs =
    ap (λ o. within o true (false ∷ fs)) (append_assoc out (codes " ") (codes "("))

end-within :
    (o : Option SprinterSexp) (out body : Bytes) (b b' : Bool) (fs : List Bool)
    → o ≡ some (within ((out ++ (gap b ++ codes "(")) ++ body) b' (false ∷ fs))
    → o >>= sexp_end ≡ some (within (out ++ (gap b ++ b'(' ∷ (body ++ b')' ∷ []))) false fs)
end-within o out body b b' fs e =
    ap (λ o. o >>= sexp_end) e
    ∙ ap (λ o. some (within o false fs))
        (append_assoc (out ++ (gap b ++ codes "(")) body (codes ")")
          ∙ append_assoc out (gap b ++ codes "(") (body ++ codes ")")
          ∙ ap (◌++◌ out) (append_assoc (gap b) (codes "(") (body ++ codes ")")))

map_key-within :
    (k out : Bytes) (b : Bool) (fs : List Bool)
    → is_symbol k ≡ true
    → sexp_map_key k (within out b fs) ≡ some (within (out ++ (gap b ++ b':' ∷ k)) false fs)
map_key-within k out b fs h = rw h (ap some (write_value (b':' ∷ k) out b fs))

abbrev no_more : Items → Bool
no_more no_items = true
no_more (item v xs) = false

abbrev no_field : Fields → Bool
no_field no_fields = true
no_field (field k v fs) = false

and_false : (b : Bool) → false ≡ (b && false)
and_false true = refl
and_false false = refl

mutual
  unfolding show_value

  show_value-within :
      (v : Value) (out : Bytes) (b : Bool) (fs : List Bool)
      → HasSymbols v
      → show_value sprinter_sexp v (within out b fs)
        ≡ some (within (out ++ (gap b ++ sexp_text v)) false fs)
  show_value-within null_value out b fs h = ap some (write_value (codes "nil") out b fs)
  show_value-within (bool_value x) out b fs h =
      ap some (write_value (sexp_text (bool_value x)) out b fs)
  show_value-within (int_value n) out b fs h = ap some (write_value n out b fs)
  show_value-within (string_value t) out b fs h = ap some (write_value (sexp_quoted t) out b fs)
  show_value-within (list_value xs) out b fs h =
      end-within (show_items sprinter_sexp xs (sexp_begin_aggregate (within out b fs))) out
        (sexp_items true xs) b (no_more xs) fs
        (ap (show_items sprinter_sexp xs) (begin_aggregate-within out b fs)
          ∙ show_items-within xs (out ++ (gap b ++ codes "(")) true (false ∷ fs) h)
  show_value-within (map_value es) out b fs h =
      end-within (show_fields sprinter_sexp es (sexp_begin_aggregate (within out b fs))) out
        (sexp_fields true es) b (no_field es) fs
        (ap (show_fields sprinter_sexp es) (begin_aggregate-within out b fs)
          ∙ show_fields-within es (out ++ (gap b ++ codes "(")) true (false ∷ fs) h)

  show_items-within :
      (xs : Items) (out : Bytes) (b : Bool) (fs : List Bool)
      → HasSymbolsItems xs
      → show_items sprinter_sexp xs (within out b fs)
        ≡ some (within (out ++ sexp_items b xs) (b && no_more xs) fs)
  show_items-within no_items out true fs h =
      ap (λ o. some (within o true fs)) (sym (append-nil out))
  show_items-within no_items out false fs h =
      ap (λ o. some (within o false fs)) (sym (append-nil out))
  show_items-within (item v xs) out b fs h =
      ap (λ o. o >>= show_items sprinter_sexp xs) (show_value-within v out b fs h.0)
      ∙ show_items-within xs (out ++ (gap b ++ sexp_text v)) false fs h.1
      ∙ ap₂ (λ o f. some (within o f fs))
          (append_assoc out (gap b ++ sexp_text v) (sexp_items false xs)
            ∙ ap (◌++◌ out) (append_assoc (gap b) (sexp_text v) (sexp_items false xs)))
          (and_false b)

  show_fields-within :
      (es : Fields) (out : Bytes) (b : Bool) (fs : List Bool)
      → HasSymbolsFields es
      → show_fields sprinter_sexp es (within out b fs)
        ≡ some (within (out ++ sexp_fields b es) (b && no_field es) fs)
  show_fields-within no_fields out true fs h =
      ap (λ o. some (within o true fs)) (sym (append-nil out))
  show_fields-within no_fields out false fs h =
      ap (λ o. some (within o false fs)) (sym (append-nil out))
  show_fields-within (field k v es) out b fs (hk, hv, hs) =
      let key : Bytes = gap b ++ b':' ∷ k in
      let value : Bytes = codes " " ++ sexp_text v in
      ap (λ o. (o >>= show_value sprinter_sexp v) >>= show_fields sprinter_sexp es)
        (map_key-within k out b fs hk)
      ∙ ap (λ o. o >>= show_fields sprinter_sexp es) (show_value-within v (out ++ key) false fs hv)
      ∙ show_fields-within es ((out ++ key) ++ value) false fs hs
      ∙ ap₂ (λ o f. some (within o f fs))
          (append_assoc (out ++ key) value (sexp_fields false es)
            ∙ append_assoc out key (value ++ sexp_fields false es)
            ∙ ap (◌++◌ out) (append_assoc (gap b) (b':' ∷ k) (value ++ sexp_fields false es)))
          (and_false b)

abbrev pub sexp_ending : Value → Bytes
sexp_ending (list_value xs) = codes "\n"
sexp_ending (map_value es) = codes "\n"
sexp_ending _ = []

abbrev at_top : Bytes → SprinterSexp
at_top out = record { stream = out; state = []; insert_separator = false }

-- From a new printer, a tree of calls whose keys are symbols never uses the state of a list or map
-- that is not open and raises no internal error. What is written is the text of the tree, with a
-- newline behind a list or map, and every list and map is closed again.
pub show_value-sexp_text :
    (v : Value)
    → HasSymbols v
    → show_value sprinter_sexp v sprinter_sexp_create
      ≡ some
          (record { stream = sexp_text v ++ sexp_ending v; state = []; insert_separator = false })
unfolding show_value
show_value-sexp_text null_value h = refl
show_value-sexp_text (bool_value true) h = refl
show_value-sexp_text (bool_value false) h = refl
show_value-sexp_text (int_value n) h = ap (λ o. some (at_top o)) (sym (append-nil n))
show_value-sexp_text (string_value t) h =
    ap (λ o. some (at_top o)) (sym (append-nil (sexp_quoted t)))
show_value-sexp_text (list_value xs) h =
    ap (λ o. o >>= sexp_end) (show_items-within xs (codes "(") true [] h)
show_value-sexp_text (map_value es) h =
    ap (λ o. o >>= sexp_end) (show_fields-within es (codes "(") true [] h)
