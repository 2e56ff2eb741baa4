-- ===== src/Sprinter/Json/Layout.antt =====
-- sprinter-json.c: the text of a tree of values.
use notmuch.Prelude.{
  ℕ, Bool, true, false, ◌&&◌, Option, some, List, [], ◌∷◌, ◌++◌, append_assoc, append-nil,
  if◌then◌else◌, ◌≡◌, refl, sym, ap, ap₂, ◌∙◌,
}
use notmuch.Prelude.Bytes.{Bytes, codes}
use notmuch.Sprinter.{
  Value, Items, Fields, null_value, bool_value, int_value, string_value, list_value, map_value,
  no_items, item, no_fields, field, show_value, show_items, show_fields, ◌>>=◌,
}
use notmuch.Sprinter.Json.{
  JsonState, SprinterJson, quoted, json_end, json_map_key, json_begin_value, json_begin_aggregate,
  json_begin_list, json_begin_map, put, sprinter_json, sprinter_json_create,
}

abbrev pub lead : Bool → Bytes
lead first = if first then [] else codes ", "

-- The JSON text of a value: its items and fields with ", " between them.
abbrev mutual
  pub value_text : Value → Bytes
  value_text null_value = codes "null"
  value_text (bool_value b) = if b then codes "true" else codes "false"
  value_text (int_value n) = n
  value_text (string_value t) = quoted t
  value_text (list_value xs) = b'[' ∷ (items_text true xs ++ b']' ∷ [])
  value_text (map_value fs) = b'{' ∷ (fields_text true fs ++ b'}' ∷ [])

  pub items_text : Bool → Items → Bytes
  items_text first no_items = []
  items_text first (item v xs) = lead first ++ (value_text v ++ items_text false xs)

  pub fields_text : Bool → Fields → Bytes
  fields_text first no_fields = []
  fields_text first (field k v fs) =
      lead first ++ (quoted k ++ (codes ": " ++ (value_text v ++ fields_text false fs)))

-- A printer in a list or map.
abbrev inside : Bytes → Bool → ℕ → List JsonState → SprinterJson
inside out first close fs = record {
  stream = out;
  state = record { first = first; close = close } ∷ fs;
  insert_separator = false;
}

abbrev at_top : Bytes → SprinterJson
at_top out = record { stream = out; state = []; insert_separator = false }

put_value :
    (t out : Bytes) (b : Bool) (c : ℕ) (fs : List JsonState)
    → put t (json_begin_value (inside out b c fs)) ≡ inside (out ++ (lead b ++ t)) false c fs
put_value t out true c fs = refl
put_value t out false c fs = ap (λ o. inside o false c fs) (append_assoc out (codes ", ") t)

begin_aggregate-inside :
    (x y : ℕ) (out : Bytes) (b : Bool) (c : ℕ) (fs : List JsonState)
    → json_begin_aggregate x y (inside out b c fs)
      ≡ inside (out ++ (lead b ++ x ∷ [])) true y (record { first = false; close = c } ∷ fs)
begin_aggregate-inside x y out true c fs = refl
begin_aggregate-inside x y out false c fs =
    ap (λ o. inside o true y (record { first = false; close = c } ∷ fs))
      (append_assoc out (codes ", ") (x ∷ []))

end-inside :
    (o : Option SprinterJson) (out body : Bytes) (x y : ℕ) (b b' : Bool) (c : ℕ)
    (fs : List JsonState)
    → o
      ≡ some (
          inside
            ((out ++ (lead b ++ x ∷ [])) ++ body)
            b'
            y
            (record { first = false; close = c } ∷ fs))
    → o >>= json_end ≡ some (inside (out ++ (lead b ++ x ∷ (body ++ y ∷ []))) false c fs)
end-inside o out body x y b b' c fs e =
    ap (λ o. o >>= json_end) e
    ∙ ap (λ o. some (inside o false c fs))
        (append_assoc (out ++ (lead b ++ x ∷ [])) body (y ∷ [])
          ∙ append_assoc out (lead b ++ x ∷ []) (body ++ y ∷ [])
          ∙ ap (◌++◌ out) (append_assoc (lead b) (x ∷ []) (body ++ y ∷ [])))

map_key-inside :
    (k out : Bytes) (b : Bool) (c : ℕ) (fs : List JsonState)
    → json_map_key k (inside out b c fs)
      ≡ some (inside (out ++ (lead b ++ (quoted k ++ codes ": "))) true c fs)
map_key-inside k out true c fs =
    ap (λ o. some (inside o true c fs)) (append_assoc out (quoted k) (codes ": "))
map_key-inside k out false c fs =
    ap (λ o. some (inside o true c fs))
      (append_assoc (out ++ codes ", ") (quoted k) (codes ": ")
        ∙ append_assoc out (codes ", ") (quoted k ++ codes ": "))

abbrev no_more : Items → Bool
no_more no_items = true
no_more (item v xs) = false

abbrev no_field : Fields → Bool
no_field no_fields = true
no_field (field k v fs) = false

and_false : (b : Bool) → false ≡ (b && false)
and_false true = refl
and_false false = refl

mutual
  unfolding show_value

  show_value-inside :
      (v : Value) (out : Bytes) (b : Bool) (c : ℕ) (fs : List JsonState)
      → show_value sprinter_json v (inside out b c fs)
        ≡ some (inside (out ++ (lead b ++ value_text v)) false c fs)
  show_value-inside null_value out b c fs = ap some (put_value (codes "null") out b c fs)
  show_value-inside (bool_value x) out b c fs =
      ap some (put_value (value_text (bool_value x)) out b c fs)
  show_value-inside (int_value n) out b c fs = ap some (put_value n out b c fs)
  show_value-inside (string_value t) out b c fs = ap some (put_value (quoted t) out b c fs)
  show_value-inside (list_value xs) out b c fs =
      end-inside (show_items sprinter_json xs (json_begin_list (inside out b c fs))) out
        (items_text true xs) b'[' b']' b (no_more xs) c fs
        (ap (show_items sprinter_json xs) (begin_aggregate-inside b'[' b']' out b c fs)
          ∙ show_items-inside xs (out ++ (lead b ++ b'[' ∷ [])) true b']'
              (record { first = false; close = c } ∷ fs))
  show_value-inside (map_value es) out b c fs =
      end-inside (show_fields sprinter_json es (json_begin_map (inside out b c fs))) out
        (fields_text true es) b'{' b'}' b (no_field es) c fs
        (ap (show_fields sprinter_json es) (begin_aggregate-inside b'{' b'}' out b c fs)
          ∙ show_fields-inside es (out ++ (lead b ++ b'{' ∷ [])) true b'}'
              (record { first = false; close = c } ∷ fs))

  show_items-inside :
      (xs : Items) (out : Bytes) (b : Bool) (c : ℕ) (fs : List JsonState)
      → show_items sprinter_json xs (inside out b c fs)
        ≡ some (inside (out ++ items_text b xs) (b && no_more xs) c fs)
  show_items-inside no_items out true c fs =
      ap (λ o. some (inside o true c fs)) (sym (append-nil out))
  show_items-inside no_items out false c fs =
      ap (λ o. some (inside o false c fs)) (sym (append-nil out))
  show_items-inside (item v xs) out b c fs =
      ap (λ o. o >>= show_items sprinter_json xs) (show_value-inside v out b c fs)
      ∙ show_items-inside xs (out ++ (lead b ++ value_text v)) false c fs
      ∙ ap₂ (λ o f. some (inside o f c fs))
          (append_assoc out (lead b ++ value_text v) (items_text false xs)
            ∙ ap (◌++◌ out) (append_assoc (lead b) (value_text v) (items_text false xs)))
          (and_false b)

  show_fields-inside :
      (es : Fields) (out : Bytes) (b : Bool) (c : ℕ) (fs : List JsonState)
      → show_fields sprinter_json es (inside out b c fs)
        ≡ some (inside (out ++ fields_text b es) (b && no_field es) c fs)
  show_fields-inside no_fields out true c fs =
      ap (λ o. some (inside o true c fs)) (sym (append-nil out))
  show_fields-inside no_fields out false c fs =
      ap (λ o. some (inside o false c fs)) (sym (append-nil out))
  show_fields-inside (field k v es) out b c fs =
      let key : Bytes = lead b ++ (quoted k ++ codes ": ") in
      ap (λ o. (o >>= show_value sprinter_json v) >>= show_fields sprinter_json es)
        (map_key-inside k out b c fs)
      ∙ ap (λ o. o >>= show_fields sprinter_json es) (show_value-inside v (out ++ key) true c fs)
      ∙ show_fields-inside es ((out ++ key) ++ value_text v) false c fs
      ∙ ap₂ (λ o f. some (inside o f c fs))
          (append_assoc (out ++ key) (value_text v) (fields_text false es)
            ∙ append_assoc out key (value_text v ++ fields_text false es)
            ∙ ap (◌++◌ out) (
                append_assoc (lead b) (quoted k ++ codes ": ")
                  (value_text v ++ fields_text false es)
                ∙ ap (◌++◌ (lead b))
                    (append_assoc (quoted k) (codes ": ") (value_text v ++ fields_text false es))))
          (and_false b)

-- A newline ends a list or map that stands in no other.
abbrev pub ending : Value → Bytes
ending (list_value xs) = codes "\n"
ending (map_value es) = codes "\n"
ending _ = []

-- From a new printer, a tree of calls never uses the state of a list or map that is not open. What
-- is written is the JSON text of the tree, with a newline behind a list or map, and every list
-- and map is closed again.
pub show_value-value_text :
    (v : Value)
    → show_value sprinter_json v sprinter_json_create
      ≡ some (record { stream = value_text v ++ ending v; state = []; insert_separator = false })
unfolding show_value
show_value-value_text null_value = refl
show_value-value_text (bool_value true) = refl
show_value-value_text (bool_value false) = refl
show_value-value_text (int_value n) = ap (λ o. some (at_top o)) (sym (append-nil n))
show_value-value_text (string_value t) = ap (λ o. some (at_top o)) (sym (append-nil (quoted t)))
show_value-value_text (list_value xs) =
    ap (λ o. o >>= json_end) (show_items-inside xs (codes "[") true b']' [])
show_value-value_text (map_value es) =
    ap (λ o. o >>= json_end) (show_fields-inside es (codes "{") true b'}' [])
