-- ===== src/HexEscape/RoundTrip.antt =====
-- util/hex-escape.c: what hex_decode does to the output of hex_encode, and the sizes they count.
use notmuch.Prelude.{
  ℕ, suc, ◌+◌, ◌-◌, ◌*◌, ◌/◌, ◌%◌, ◌<◌, true, false, [], ◌∷◌, ◌++◌, if◌then◌else◌, length,
  length-append, ◌≡◌, ◌≢◌, refl, ap, ◌∙◌, arith, inl, inr, Bool-cases, All,
}
use notmuch.Prelude.Bytes.{Bytes, isxdigit}
use notmuch.HexEscape.{
  success, escape_char, is_output, hex_digit, encode_byte, encode, encode_needed, hex_value, emit,
  hex_decode_internal, decode_needed,
}

escape-not_output : is_output escape_char ≡ false
unfolding is_output
escape-not_output = refl

-- The escape character itself is always escaped.
pub is_output-ne-escape : (c : ℕ) → is_output c ≡ true → c ≢ escape_char
is_output-ne-escape c h e = cc (escape-not_output, ap is_output e)

pub hex_digit-isxdigit : (d : ℕ) → d < 16 → isxdigit (hex_digit d) ≡ true
unfolding hex_digit
hex_digit-isxdigit d h = ground arith

pub hex_value-hex_digit : (d : ℕ) → d < 16 → hex_value (hex_digit d) ≡ d
unfolding hex_digit hex_value
hex_value-hex_digit d h = ground arith

pub decode_plain :
    (c : ℕ) (s : Bytes)
    → c ≢ escape_char
    → hex_decode_internal (c ∷ s) ≡ emit c (hex_decode_internal s)
unfolding hex_decode_internal
decode_plain c [] h = ground arith
decode_plain c (a ∷ []) h = ground arith
decode_plain c (a ∷ b ∷ s) h = ground arith

pub decode_escaped :
    (a b : ℕ) (s : Bytes)
    → isxdigit a ≡ true
    → isxdigit b ≡ true
    → hex_decode_internal (escape_char ∷ a ∷ b ∷ s)
      ≡ emit (hex_value a * 16 + hex_value b) (hex_decode_internal s)
unfolding hex_decode_internal
decode_escaped a b s ha hb = rw (ha, hb)

decode-encode_byte :
    (c : ℕ) (s : Bytes)
    → c < 256
    → hex_decode_internal (encode_byte c ++ s) ≡ emit c (hex_decode_internal s)
decode-encode_byte c s h = elim (Bool-cases (is_output c)) [
  | inl plain ↦ unfold encode_byte in rw plain (decode_plain c s (is_output-ne-escape c plain))
  | inr coded ↦
      unfold encode_byte in
      rw coded (
        decode_escaped (hex_digit (c / 16)) (hex_digit (c % 16)) s
          (hex_digit-isxdigit (c / 16) (omega arith)) (hex_digit-isxdigit (c % 16) (omega arith))
        ∙ ap (λ v. emit v (hex_decode_internal s))
            (omega (
              arith,
              hex_value-hex_digit (c / 16) (omega arith),
              hex_value-hex_digit (c % 16) (omega arith),
            )))
]

-- Decoding undoes encoding, for every string of bytes.
pub decode-encode :
    (s : Bytes) → All (λ c. c < 256) s → hex_decode_internal (encode s) ≡ (success, s)
unfolding encode hex_decode_internal
decode-encode [] h = refl
decode-encode (c ∷ s) h = decode-encode_byte c (encode s) h.0 ∙ ap (emit c) (decode-encode s h.1)

length-encode_byte : (c : ℕ) → length (encode_byte c) ≡ (if is_output c then 1 else 3)
unfolding encode_byte
length-encode_byte c = elim (Bool-cases (is_output c)) [
  | inl plain ↦ rw plain
  | inr coded ↦ rw coded
]

pub encode_needed_lem : (n : ℕ) (s : Bytes) → encode_needed n s ≡ n + length (encode s)
unfolding encode_needed encode
encode_needed_lem n [] = omega arith
encode_needed_lem n (c ∷ s) = omega (
  arith,
  encode_needed_lem (n + (if is_output c then 1 else 3)) s,
  length-append (encode_byte c) (encode s),
  length-encode_byte c,
)

decode_needed_plain :
    (n c : ℕ) (s : Bytes) → c ≢ escape_char → decode_needed n (c ∷ s) ≡ decode_needed (n + 1) s
unfolding decode_needed
decode_needed_plain n c [] h = refl
decode_needed_plain n c (a ∷ []) h = refl
decode_needed_plain n c (a ∷ b ∷ s) h = ground arith

xdigit-ne-escape : (c : ℕ) → isxdigit c ≡ true → c ≢ escape_char
xdigit-ne-escape c h = ground arith

decode_needed_escaped :
    (n a b : ℕ) (s : Bytes)
    → isxdigit a ≡ true
    → isxdigit b ≡ true
    → decode_needed n (escape_char ∷ a ∷ b ∷ s) ≡ decode_needed (n - 1 + 1 + 1) s
decode_needed_escaped n a b s ha hb =
    unfold decode_needed in
    rw (ha, hb)
      (decode_needed_plain (n - 1) a (b ∷ s) (xdigit-ne-escape a ha)
        ∙ decode_needed_plain (n - 1 + 1) b s (xdigit-ne-escape b hb))

-- Where decoding succeeds, the counting loop has counted what is written and the NUL.
pub decode_needed_lem :
    (n : ℕ) (s : Bytes)
    → (hex_decode_internal s).0 ≡ success
    → decode_needed (suc n) s ≡ suc n + length (hex_decode_internal s).1
unfolding hex_decode_internal
decode_needed_lem n [] h = unfold decode_needed in omega arith
decode_needed_lem n (c ∷ []) h = unfold decode_needed in ground arith
decode_needed_lem n (c ∷ a ∷ []) h = unfold decode_needed in ground arith
decode_needed_lem n (c ∷ a ∷ b ∷ s) h = ground (
  arith,
  decode_needed_lem (suc n) (a ∷ b ∷ s),
  decode_needed_lem (suc n) s,
  decode_needed_plain (suc n) c (a ∷ b ∷ s),
  decode_needed_escaped (suc n) a b s,
)
