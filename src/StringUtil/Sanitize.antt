-- ===== src/StringUtil/Sanitize.antt =====
-- util/string-util.c: sanitize_string.
use notmuch.Prelude.{
  ◌<◌, ◌≢◌, ◌⊎◌, ℕ, suc, ◌+◌, ◌≤◌, Bool, some, [], ◌∷◌, map, length, ◌≡◌, refl, ap, ap₂, arith, inl,
  inr, Bool-cases, All,
}
use notmuch.Prelude.Bytes.{Bytes}
use notmuch.StringUtil.{sanitize_char, sanitize_string}

sanitize_char_printable : (c : ℕ) → (32 ≤ sanitize_char c) × (32 ≤ c → sanitize_char c ≡ c)
unfolding sanitize_char
sanitize_char_printable c = (ground arith, ground arith)

map-printable : (s : Bytes) → All (λ c. 32 ≤ c) (map sanitize_char s)
map-printable [] = tt
map-printable (c ∷ s) = ((sanitize_char_printable c).0, map-printable s)

map-same : (s : Bytes) → All (λ c. 32 ≤ c) s → map sanitize_char s ≡ s
map-same [] h = refl
map-same (c ∷ s) h = ap₂ ◌∷◌ ((sanitize_char_printable c).1 h.0) (map-same s h.1)

length-map : (s : Bytes) → length (map sanitize_char s) ≡ length s
length-map [] = refl
length-map (c ∷ s) = ap suc (length-map s)

-- Byte by byte: what is printable or above ASCII stays, a tab or newline becomes a blank, and any
-- other control character a question mark.
abbrev pub Cleaned : Bytes → Bytes → Type 0
Cleaned [] [] = Unit
Cleaned [] (d ∷ t) = ⊥
Cleaned (c ∷ s) [] = ⊥
Cleaned (c ∷ s) (d ∷ t) =
    (((32 ≤ c) × (d ≡ c))
      ⊎ (((c ≡ 9) ⊎ (c ≡ 10)) × (d ≡ b' '))
      ⊎ ((c < 32) × (c ≢ 9) × (c ≢ 10) × (d ≡ b'?')))
    × Cleaned s t

map-Cleaned : (s : Bytes) → Cleaned s (map sanitize_char s)
unfolding sanitize_char
map-Cleaned [] = tt
map-Cleaned (c ∷ s) = (ground arith, map-Cleaned s)

-- Where sanitize_string gives a string, it is the argument with its control characters replaced,
-- it holds none, and a second call gives it again.
pub sanitize_string_lem :
    (alloc : ℕ → Bool) (s t : Bytes)
    → sanitize_string alloc (some s) ≡ some t
    → Cleaned s t × All (λ c. 32 ≤ c) t × (sanitize_string alloc (some t) ≡ some t)
unfolding sanitize_string
sanitize_string_lem alloc s t h = elim (Bool-cases (alloc (length s + 1))) [
  | inr e ↦ cc (rw e at h)
  | inl e ↦
      let same : map sanitize_char s ≡ t = ground (arith, rw e at h) in
      rw (← same) (
        map-Cleaned s,
        map-printable s,
        rw (length-map s) (rw e (ap some (map-same (map sanitize_char s) (map-printable s)))),
      )
]
