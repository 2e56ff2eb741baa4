-- ===== src/Sprinter.antt =====
-- sprinter.h: structured output. A printer is a table of operations on its state; `none` is the use
-- of a NULL pointer, by a call outside of every list and map. The clients are trees of values.
pub mod Json
pub mod Sexp
pub mod Text
use notmuch.Prelude.{Bool, Option, none, some, List, [], ◌++◌, ◌∷◌}
use notmuch.Prelude.Bytes.{Bytes}

-- struct sprinter. An integer comes as the text that "%d" gives.
pub record Printer : Type 1 where
  pub State : Type 0
  pub begin_map : State → State
  pub begin_list : State → State
  pub end : State → Option State
  pub string : Option Bytes → State → State
  pub integer : Bytes → State → State
  pub boolean : Bool → State → State
  pub null : State → State
  pub map_key : Bytes → State → Option State
  pub separator : State → State

-- What a command prints.
mutual
  pub data Value : Type 0 where
    null_value : Value
    bool_value : Bool → Value
    int_value : Bytes → Value
    string_value : Bytes → Value
    list_value : Items → Value
    map_value : Fields → Value

  pub data Items : Type 0 where
    no_items : Items
    item : Value → Items → Items

  pub data Fields : Type 0 where
    no_fields : Fields
    field : Bytes → Value → Fields → Fields

infixl 5 ◌>>=◌
abbrev pub ◌>>=◌ : {A B : Type 0} → Option A → (A → Option B) → Option B
none >>= f = none
some a >>= f = f a

module _ (P : Printer) where
  open P use {State, begin_map, begin_list, end, string, integer, boolean, null, map_key}

  -- The calls that print a value.
  unfoldable mutual
    pub show_value : Value → State → Option State
    show_value null_value s = some (null s)
    show_value (bool_value b) s = some (boolean b s)
    show_value (int_value n) s = some (integer n s)
    show_value (string_value t) s = some (string (some t) s)
    show_value (list_value xs) s = show_items xs (begin_list s) >>= end
    show_value (map_value fs) s = show_fields fs (begin_map s) >>= end

    pub show_items : Items → State → Option State
    show_items no_items s = some s
    show_items (item v xs) s = show_value v s >>= show_items xs

    pub show_fields : Fields → State → Option State
    show_fields no_fields s = some s
    show_fields (field k v fs) s = map_key k s >>= show_value v >>= show_fields fs
