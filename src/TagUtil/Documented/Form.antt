-- ===== src/TagUtil/Documented/Form.antt =====
-- The form that tag-util.h documents for the lines of parse_tag_line.
use notmuch.Prelude.{
  ℕ, zero, suc, ◌+◌, ◌-◌, ◌*◌, ◌%◌, ◌<◌, Bool, true, false, ◌&&◌, ◌||◌, List, [], ◌∷◌, ◌++◌, ◌≡◌,
  ◌≢◌, refl, ◌∙◌, ap, arith, ◌==◌, ==_iff, leb, if◌then◌else◌, All,
}
use notmuch.Prelude.Bytes.{Bytes, str_equal, first_char, contains, isxdigit, c_string}
use notmuch.HexEscape.{HexStatus, hex_decode_internal, hex_value, emit}
use notmuch.HexEscape.RoundTrip.{decode_plain, decode_escaped}
use notmuch.StringUtil.Tokens.{NoneIn}
use notmuch.TagUtil.{TagOperation, TagFlags, illegal_tag, blank, dashes}
use notmuch.TagUtil.RoundTrip.{sign}

-- A character of a tag as the line has it: itself, or two hexadecimal digits behind a %.
pub data Coded : Type 0 where
  plain : ℕ → Coded
  escaped : ℕ → ℕ → Coded

abbrev pub coded_text : List Coded → Bytes
coded_text [] = []
coded_text (plain c ∷ s) = c ∷ coded_text s
coded_text (escaped a b ∷ s) = b'%' ∷ a ∷ b ∷ coded_text s

-- The value of a hexadecimal digit of either case.
abbrev pub digit : ℕ → ℕ
digit c = if leb c b'9' then c - b'0' else c % 32 + 9

abbrev pub char_of : Coded → ℕ
char_of (plain c) = c
char_of (escaped a b) = digit a * 16 + digit b

abbrev pub tag_of : List Coded → Bytes
tag_of [] = []
tag_of (c ∷ s) = char_of c ∷ tag_of s

-- A blank, a % and the end of the string must be encoded, the last cannot.
abbrev pub IsCoded : Coded → Type 0
IsCoded (plain c) = (c == 0 || c == b'%' || c == b' ') ≡ false
IsCoded (escaped a b) = ((isxdigit a && isxdigit b) ≡ true) × (0 < digit a * 16 + digit b)

-- An operation on the line, with the number of further blanks behind its own.
pub record Token : Type 0 where
  pub remove : Bool
  pub tag : List Coded
  pub gap : ℕ

abbrev pub op_of : Token → TagOperation
op_of t = record { tag = tag_of t.tag; remove = t.remove }

abbrev pub ops_of : List Token → List TagOperation
ops_of [] = []
ops_of (t ∷ ts) = op_of t ∷ ops_of ts

abbrev pub blanks : ℕ → Bytes → Bytes
blanks zero s = s
blanks (suc n) s = b' ' ∷ blanks n s

abbrev pub token_text : Token → Bytes
token_text t = sign t.remove ∷ coded_text t.tag

abbrev pub tokens_text : List Token → Bytes → Bytes
tokens_text [] rest = rest
tokens_text (t ∷ ts) rest = token_text t ++ b' ' ∷ blanks t.gap (tokens_text ts rest)

-- What stands before the search terms: nothing, or the end marker with blanks.
pub data Marker : Type 0 where
  no_marker : Marker
  end_marker : ℕ → Marker

abbrev pub marked : Marker → Bytes → Bytes
marked no_marker q = q
marked (end_marker n) q = dashes ++ b' ' ∷ blanks n q

pub record IsToken (flags : TagFlags) (t : Token) : Type 0 where
  pub coded : All IsCoded t.tag
  pub no_marker : str_equal (token_text t) dashes ≡ false
  pub legal : flags.be_generous ≡ false → illegal_tag (coded_text t.tag) t.remove ≡ false

-- The search terms start with no blank, and without a marker not like an operation or a comment.
abbrev pub IsQuery : Marker → Bytes → Type 0
IsQuery no_marker q =
    (q ≢ []) × (contains (b' ' ∷ 9 ∷ b'#' ∷ b'+' ∷ b'-' ∷ []) (first_char q) ≡ false)
IsQuery (end_marker n) q = (q ≢ []) × (contains blank (first_char q) ≡ false)

pub hex_value-digit : (c : ℕ) → isxdigit c ≡ true → hex_value c ≡ digit c
unfolding hex_value
hex_value-digit c h = ground arith

-- Decoding gives the tag.
pub decode-coded :
    (s : List Coded)
    → All IsCoded s
    → hex_decode_internal (coded_text s) ≡ (HexStatus.success, tag_of s)
unfolding hex_decode_internal
decode-coded [] h = refl
decode-coded (plain c ∷ s) h =
    decode_plain c (coded_text s) (λ e. absurd (ground (arith, h.0, (==_iff c b'%').1 e)))
    ∙ ap (emit c) (decode-coded s h.1)
decode-coded (escaped a b ∷ s) h =
    let ha : isxdigit a ≡ true = ground (arith, h.0.0) in
    let hb : isxdigit b ≡ true = ground (arith, h.0.0) in
    decode_escaped a b (coded_text s) ha hb
    ∙ ap (emit (hex_value a * 16 + hex_value b)) (decode-coded s h.1)
    ∙ ap (λ v. emit v (HexStatus.success, tag_of s))
        (omega (arith, hex_value-digit a ha, hex_value-digit b hb))

pub c_string-tag_of : (s : List Coded) → All IsCoded s → c_string (tag_of s) ≡ tag_of s
c_string-tag_of [] h = refl
c_string-tag_of (plain c ∷ s) h = ground (arith, h.0, c_string-tag_of s h.1)
c_string-tag_of (escaped a b ∷ s) h =
    let ne : (digit a * 16 + digit b == 0) ≡ false = ground (arith, h.0.1) in
    rw ne (ap (◌∷◌ (digit a * 16 + digit b)) (c_string-tag_of s h.1))

pub no_blank-coded : (s : List Coded) → All IsCoded s → NoneIn blank (coded_text s)
no_blank-coded [] h = tt
no_blank-coded (plain c ∷ s) h = (ground (arith, h.0), no_blank-coded s h.1)
no_blank-coded (escaped a b ∷ s) h =
    (refl, (ground (arith, h.0.0), (ground (arith, h.0.0), no_blank-coded s h.1)))

pub sign-no_blank : (remove : Bool) → contains blank (sign remove) ≡ false
sign-no_blank true = refl
sign-no_blank false = refl
