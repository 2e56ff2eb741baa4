-- ===== src/Prelude/Bytes.antt =====
-- C strings: the bytes before the terminating NUL. The functions of the C library that the
-- program calls on them, in the C locale.
use Prim.Native.Char.{code}
use Prim.Native.String.{String}
use Prim.Native.Nat.{ℕ, ◌<◌, ◌+◌}
use mathlib.Core.Path.{◌≡◌, refl}
use mathlib.Core.Logic.{◌↔◌}
use mathlib.Core.Bool.{Bool, true, false, ◌&&◌, ◌||◌}
use mathlib.Core.List.{List, [], ◌∷◌}
use native.Mathlib.Omega.{arith}
use notmuch.Prelude.Tests.{◌==◌, leb, if◌then◌else◌}
use notmuch.Prelude.Lists.{All}

abbrev pub Bytes : Type 0
Bytes = List ℕ

-- The bytes of an ASCII literal.
abbrev pub codes : String → Bytes
codes String.[] = []
codes (String.◌∷◌ c s) = code c ∷ codes s

-- A byte that can stand inside a C string.
abbrev pub IsChar : ℕ → Type 0
IsChar c = (0 < c) × (c < 256)

abbrev pub IsCString : Bytes → Type 0
IsCString = All IsChar

abbrev pub between : ℕ → ℕ → ℕ → Bool
between lo hi c = leb lo c && leb c hi

-- isspace: blank, tab, newline, vertical tab, form feed, carriage return
abbrev pub isspace : ℕ → Bool
isspace c = c == 32 || between 9 13 c

abbrev pub isdigit : ℕ → Bool
isdigit = between b'0' b'9'

abbrev pub isxdigit : ℕ → Bool
isxdigit c = between b'0' b'9' c || between b'A' b'F' c || between b'a' b'f' c

abbrev pub isalpha : ℕ → Bool
isalpha c = between b'A' b'Z' c || between b'a' b'z' c

abbrev pub isalnum : ℕ → Bool
isalnum c = isalpha c || isdigit c

abbrev pub tolower : ℕ → ℕ
tolower c = if between b'A' b'Z' c then c + 32 else c

-- strchr on a set of bytes, as a test
abbrev pub contains : Bytes → ℕ → Bool
contains [] c = false
contains (x ∷ xs) c = x == c || contains xs c

-- strcmp (a, b) == 0
abbrev pub str_equal : Bytes → Bytes → Bool
str_equal [] [] = true
str_equal [] (y ∷ b) = false
str_equal (x ∷ a) [] = false
str_equal (x ∷ a) (y ∷ b) = x == y && str_equal a b

pub str_equal_iff : (a b : Bytes) → (str_equal a b ≡ true) ↔ (a ≡ b)
str_equal_iff [] [] = ground arith
str_equal_iff [] (y ∷ b) = ground arith
str_equal_iff (x ∷ a) [] = ground arith
str_equal_iff (x ∷ a) (y ∷ b) = ground (arith, str_equal_iff a b)

-- The first byte, or the terminating NUL.
abbrev pub first_char : Bytes → ℕ
first_char [] = 0
first_char (c ∷ s) = c

-- What stands before the first NUL of a buffer.
abbrev pub c_string : Bytes → Bytes
c_string [] = []
c_string (c ∷ s) = if c == 0 then [] else c ∷ c_string s

pub c_string-IsCString : (s : Bytes) → IsCString s → c_string s ≡ s
c_string-IsCString [] h = refl
c_string-IsCString (c ∷ s) h = ground (arith, c_string-IsCString s h.1)
