-- ===== src/HexEscape/Buffers.antt =====
-- util/hex-escape.c: the buffers of hex_encode and hex_decode.
use notmuch.Prelude.{
  ℕ, Option, none, some, ◌+◌, ◌≤◌, ◌<◌, Bool, true, false, [], ◌∷◌, length, ◌≡◌, ◌⊎◌, refl, sym, ap,
  subst, ◌∙◌, arith, inl, inr, Bool-cases, All, all_below, all_below_sound, All-append, ◌/◌, ◌%◌,
}
use notmuch.Prelude.Bytes.{Bytes, IsCString}
use notmuch.HexEscape.{
  HexStatus, maybe_realloc, decode_needed, success, out_of_memory, escape_char, is_output,
  OutBuffer, hex_digit, encode_byte, encode, hex_encode, hex_decode_internal, hex_decode,
}
use notmuch.HexEscape.RoundTrip.{decode-encode, encode_needed_lem, decode_needed_lem}

pub IsCString-lt : (s : Bytes) → IsCString s → All (λ c. c < 256) s
IsCString-lt [] h = tt
IsCString-lt (c ∷ s) h = (h.0.1, IsCString-lt s h.1)

module _ (alloc : ℕ → Bool) (s : Bytes) (out : OutBuffer) where
  -- hex_encode answers success or out_of_memory. On success the caller's pointer is set and the
  -- size it keeps covers the text and its NUL; on out_of_memory the allocator has refused
  -- exactly the bytes of the encoded text and its NUL, and the pointer is NULL.
  pub hex_encode_outcome :
      (((hex_encode alloc s out).0 ≡ success)
        × ((hex_encode alloc s out).1.text ≡ encode s)
        × ((hex_encode alloc s out).1.allocated ≡ true)
        × (length (encode s) + 1 ≤ (hex_encode alloc s out).1.out_size))
      ⊎ (((hex_encode alloc s out).0 ≡ out_of_memory)
          × (alloc (length (encode s) + 1) ≡ false)
          × ((hex_encode alloc s out).1.allocated ≡ false))
  unfolding hex_encode
  hex_encode_outcome =
      ground (arith, encode_needed_lem 1 s, Bool-cases (alloc (length (encode s) + 1)))

-- A caller that has no buffer says that its size is 0.
abbrev pub IsBuffer : OutBuffer → Type 0
IsBuffer out = (out.allocated ≡ true) ⊎ (out.out_size ≡ 0)

-- The text decoded, in a buffer that holds it with its NUL.
abbrev pub Decoded : Bytes → Option (HexStatus × OutBuffer) → Type 0
Decoded s none = ⊥
Decoded s (some (st, out)) =
    (st ≡ success) × (out.text ≡ s) × (out.allocated ≡ true) × (length s + 1 ≤ out.out_size)

realloc_granted :
    (alloc : ℕ → Bool) (needed : ℕ) (out : OutBuffer)
    → IsBuffer out
    → 0 < needed
    → alloc needed ≡ true
    → ((maybe_realloc alloc needed out).0 ≡ true)
      × ((maybe_realloc alloc needed out).1.allocated ≡ true)
      × (needed ≤ (maybe_realloc alloc needed out).1.out_size)
unfolding maybe_realloc
realloc_granted alloc needed out h lt g = ground (arith, h, g, lt)

hex_decode_granted :
    (alloc : ℕ → Bool) (s : Bytes) (out : OutBuffer)
    → (hex_decode_internal s).0 ≡ success
    → IsBuffer out
    → alloc (length (hex_decode_internal s).1 + 1) ≡ true
    → Decoded (hex_decode_internal s).1 (hex_decode alloc s out)
unfolding hex_decode
hex_decode_granted alloc s out h b g =
    let e : decode_needed 1 s ≡ length (hex_decode_internal s).1 + 1 =
      decode_needed_lem 0 s h ∙ omega arith in
    let (a, c, d) =
      realloc_granted alloc (length (hex_decode_internal s).1 + 1) out b (omega arith) g in
    rw (e, hex_decode, a, c) (h, refl, refl, d)

-- Where the allocator grants the sizes asked for, hex_decode of what hex_encode produced is the
-- original string, in a buffer that holds it with its NUL, and both calls succeed. The caller of
-- hex_encode may bring any buffer, and that of hex_decode one, or none with a size of 0.
pub hex_decode-hex_encode :
    (alloc : ℕ → Bool) (s : Bytes) (out out' : OutBuffer)
    → IsCString s
    → IsBuffer out'
    → alloc (length (encode s) + 1) ≡ true
    → alloc (length s + 1) ≡ true
    → ((hex_encode alloc s out).0 ≡ success)
      × Decoded s (hex_decode alloc (hex_encode alloc s out).1.text out')
hex_decode-hex_encode alloc s out out' h b ge gd = elim (hex_encode_outcome alloc s out) [
  | inl (st, written, _, _) ↦
      let d = decode-encode s (IsCString-lt s h) in
      let r = hex_decode_granted alloc (encode s) out' (ap (λ p. p.0) d) b (rw d gd) in
      (
        st,
        rw written (subst (λ x. Decoded x (hex_decode alloc (encode s) out')) (ap (λ p. p.1) d) r),
      )
  | inr (_, refused, _) ↦ absurd (cc (sym ge, refused))
]

digit_table : all_below 16 (λ d. is_output (hex_digit d)) ≡ true
unfolding all_below is_output hex_digit
digit_table = refl

-- A byte of hex_encode's output.
abbrev pub IsSafe : ℕ → Type 0
IsSafe c = (is_output c ≡ true) ⊎ (c ≡ escape_char)

encode_byte-IsSafe : (c : ℕ) → c < 256 → All IsSafe (encode_byte c)
encode_byte-IsSafe c h = elim (Bool-cases (is_output c)) [
  | inl plain ↦ unfold encode_byte in rw plain (inl plain, tt)
  | inr coded ↦
      unfold encode_byte in
      rw coded (
        inr refl,
        (
          inl (
              all_below_sound 16 (λ d. is_output (hex_digit d)) (c / 16) digit_table (omega arith)),
          (
            inl (
                all_below_sound 16 (λ d. is_output (hex_digit d)) (c % 16) digit_table
                  (omega arith)),
            tt,
          ),
        ),
      )
]

-- Every byte of an encoded string is in the output character set or is the escape character.
pub encode-IsSafe : (s : Bytes) → IsCString s → All IsSafe (encode s)
unfolding encode
encode-IsSafe [] h = tt
encode-IsSafe (c ∷ s) h =
    All-append IsSafe (encode_byte c) (encode s) (encode_byte-IsSafe c h.0.1) (encode-IsSafe s h.1)
