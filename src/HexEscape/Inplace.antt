-- ===== src/HexEscape/Inplace.antt =====
-- util/hex-escape.c: decoding a string onto itself, where `out` never overtakes `in`.
use notmuch.Prelude.{
  ℕ, zero, suc, ◌+◌, ◌*◌, ◌<◌, true, false, ◌&&◌, [], ◌∷◌, ◌++◌, Option, some, ◌==◌, length,
  length-append, get_or, set, append_assoc, ◌≡◌, ◌≢◌, ◌⊎◌, refl, sym, ap, subst, ◌∙◌, arith, inl,
  inr, Bool-cases, &&_true, ==_ne, ==_iff,
}
use notmuch.Prelude.Bytes.{Bytes, isxdigit, IsCString}
use native.Mathlib.Nat.{suc-add}
use notmuch.HexEscape.RoundTrip.{decode_plain, decode_escaped}
use notmuch.HexEscape.{
  HexStatus, success, syntax_error, escape_char, hex_value, emit, hex_decode_internal,
  hex_decode_inplace,
}

get_or-append : (p r : Bytes) (k : ℕ) → get_or (p ++ r) (length p + k) 0 ≡ get_or r k 0
get_or-append [] r k = ap (λ k. get_or r k 0) (omega arith)
get_or-append (x ∷ p) r k = rw suc-add (get_or-append p r k)

set-append : (w r : Bytes) (x v : ℕ) → set (w ++ x ∷ r) (length w) v ≡ w ++ v ∷ r
set-append [] r x v = refl
set-append (y ∷ w) r x v = ap (◌∷◌ y) (set-append w r x v)

-- The memory once a call has read up to `s` and written `w`: the gap `g` was read and is not yet
-- written over.
abbrev memory : Bytes → Bytes → Bytes → Bytes → Bytes
memory w g s rest = w ++ (g ++ (s ++ 0 ∷ rest))

-- The result of decoding `s` with `w` already written: what was decoded comes behind `w`, a NUL
-- after it if there was no error, and `rest` still stands at the end.
abbrev Decoded : Bytes → Bytes → HexStatus × Bytes → Option (HexStatus × Bytes) → Type 0
Decoded w rest (st, out) r =
    (junk : Bytes) × (r ≡ some (st, w ++ (out ++ (junk ++ rest))))
    × (st ≡ success → (j : Bytes) × (junk ≡ 0 ∷ j))

length-concat : (g : Bytes) (c : ℕ) → length (g ++ c ∷ []) ≡ suc (length g)
length-concat [] c = refl
length-concat (x ∷ g) c = ap suc (length-concat g c)

write_gap :
    (g r : Bytes) (c v : ℕ) (w : Bytes)
    → (g' : Bytes) × (set (w ++ (g ++ c ∷ r)) (length w) v ≡ (w ++ v ∷ []) ++ (g' ++ r))
      × (length g' ≡ length g)
write_gap [] r c v w = ([], set-append w r c v ∙ rw append_assoc, refl)
write_gap (x ∷ g) r c v w =
    (g ++ c ∷ [], set-append w (g ++ c ∷ r) x v ∙ simp append_assoc, length-concat g c)

read : (w g r : Bytes) (k : ℕ) → get_or (w ++ (g ++ r)) (length w + length g + k) 0 ≡ get_or r k 0
read w g r k =
    ap (λ m. get_or m (length w + length g + k) 0) (sym (append_assoc w g r))
    ∙ ap (λ n. get_or ((w ++ g) ++ r) (n + k) 0) (sym (length-append w g))
    ∙ get_or-append (w ++ g) r k

read_first : (w g r : Bytes) → get_or (w ++ (g ++ r)) (length w + length g) 0 ≡ get_or r 0 0
read_first w g r = ap (λ n. get_or (w ++ (g ++ r)) n 0) (omega arith) ∙ read w g r 0

-- One more byte decoded in front of what the rest of the loop decodes.
Decoded-emit :
    (w rest : Bytes) (v : ℕ) (d : HexStatus × Bytes) (r : Option (HexStatus × Bytes))
    → Decoded (w ++ v ∷ []) rest d r
    → Decoded w rest (emit v d) r
Decoded-emit w rest v (st, out) r (junk, e, t) =
    (junk, e ∙ ap (λ x. some (st, x)) (append_assoc w (v ∷ []) (out ++ (junk ++ rest))), t)

-- The four ways in which one round of the loop goes on.
module _ (fuel : ℕ) (m : Bytes) (i o : ℕ) where
  stop : get_or m i 0 ≡ 0 → hex_decode_inplace (suc fuel) m i o ≡ some (success, set m o 0)
  unfolding hex_decode_inplace
  stop h = rw h

  plain :
      (c : ℕ)
      → get_or m i 0 ≡ c
      → c ≢ 0
      → c ≢ escape_char
      → hex_decode_inplace (suc fuel) m i o ≡ hex_decode_inplace fuel (set m o c) (i + 1) (o + 1)
  unfolding hex_decode_inplace
  plain c h n e = rw h (rw (==_ne c 0 n, ==_ne c escape_char e))

  bad :
      get_or m i 0 ≡ escape_char
      → (isxdigit (get_or m (i + 1) 0) && isxdigit (get_or m (i + 2) 0)) ≡ false
      → hex_decode_inplace (suc fuel) m i o ≡ some (syntax_error, m)
  unfolding hex_decode_inplace
  bad h x = rw (h, x)

  escaped :
      (a b : ℕ)
      → get_or m i 0 ≡ escape_char
      → get_or m (i + 1) 0 ≡ a
      → get_or m (i + 2) 0 ≡ b
      → (isxdigit a && isxdigit b) ≡ true
      → hex_decode_inplace (suc fuel) m i o
        ≡ hex_decode_inplace fuel (set m o (hex_value a * 16 + hex_value b)) (i + 3) (o + 1)
  unfolding hex_decode_inplace
  escaped a b h ha hb x = rw (h, ha, hb) (rw x)

module _ (rest : Bytes) where
  -- A refused escape: what was written stands before it, and the memory is as it was.
  bad-Decoded :
      (fuel : ℕ) (w g s : Bytes)
      → (isxdigit (get_or (s ++ 0 ∷ rest) 0 0) && isxdigit (get_or (s ++ 0 ∷ rest) 1 0)) ≡ false
      → Decoded w rest
          (syntax_error, [])
          (hex_decode_inplace
            (suc fuel)
            (memory w g (escape_char ∷ s) rest)
            (length w + length g)
            (length w))
  bad-Decoded fuel w g s h = (
    g ++ (escape_char ∷ s ++ 0 ∷ []),
    bad fuel _ _ _ (read_first w g (escape_char ∷ s ++ 0 ∷ rest)) (
          rw (read w g (escape_char ∷ s ++ 0 ∷ rest) 1, read w g (escape_char ∷ s ++ 0 ∷ rest) 2) h)
        ∙ ap (λ x. some (syntax_error, x)) (simp append_assoc),
    λ e. cc e,
  )

  -- A round that writes `v`, reads `k` bytes and leaves the gap `g'`.
  round-Decoded :
      (fuel : ℕ) (s w g g' m : Bytes) (k v : ℕ) (d : HexStatus × Bytes)
      → m ≡ memory (w ++ v ∷ []) g' s rest
      → length g' + 1 ≡ length g + k
      → Decoded (w ++ v ∷ []) rest d (
          hex_decode_inplace fuel
            (memory (w ++ v ∷ []) g' s rest)
            (length (w ++ v ∷ []) + length g')
            (length (w ++ v ∷ [])))
      → Decoded w rest
          (emit v d)
          (hex_decode_inplace fuel m (length w + length g + k) (length w + 1))
  round-Decoded fuel s w g g' m k v d em el h = Decoded-emit w rest v d _ (
      subst (λ (r : Option (HexStatus × Bytes)). Decoded (w ++ v ∷ []) rest d r)
        (cc (sym em, at_in, at_out)) h)
    where
      at_in : length (w ++ v ∷ []) + length g' ≡ length w + length g + k
      at_in = omega (arith, length-append w (v ∷ []))

      at_out : length (w ++ v ∷ []) ≡ length w + 1
      at_out = omega (arith, length-append w (v ∷ []))

  abbrev Decodes : ℕ → Bytes → Type 0
  Decodes fuel s =
      (w g : Bytes)
      → Decoded w rest (hex_decode_internal s)
          (hex_decode_inplace fuel (memory w g s rest) (length w + length g) (length w))

  decode_bad :
      (s : Bytes)
      → (isxdigit (get_or (s ++ 0 ∷ rest) 0 0) && isxdigit (get_or (s ++ 0 ∷ rest) 1 0)) ≡ false
      → hex_decode_internal (escape_char ∷ s) ≡ (syntax_error, [])
  unfolding hex_decode_internal
  decode_bad [] h = refl
  decode_bad (a ∷ []) h = refl
  decode_bad (a ∷ b ∷ s) h = rw h

  escape-Decodes :
      (fuel : ℕ) (s : Bytes)
      → IsCString s
      → length s < fuel
      → ((t : Bytes) → IsCString t → length t < fuel → Decodes fuel t)
      → Decodes (suc fuel) (escape_char ∷ s)
  escape-Decodes fuel s h f ih w g =
      elim (Bool-cases
        (isxdigit (get_or (s ++ 0 ∷ rest) 0 0) && isxdigit (get_or (s ++ 0 ∷ rest) 1 0))) [
          | inr refused ↦ rw (decode_bad s refused) (bad-Decoded fuel w g s refused)
          | inl taken ↦ digits s h f taken
        ]
    where
      digits :
          (s : Bytes)
          → IsCString s
          → length s < fuel
          → (isxdigit (get_or (s ++ 0 ∷ rest) 0 0) && isxdigit (get_or (s ++ 0 ∷ rest) 1 0)) ≡ true
          → Decoded w rest (hex_decode_internal (escape_char ∷ s)) (
              hex_decode_inplace
                (suc fuel)
                (memory w g (escape_char ∷ s) rest)
                (length w + length g)
                (length w))
      digits [] h f x = cc x
      digits (a ∷ []) h f x = absurd (ground arith)
      digits (a ∷ b ∷ t) h f x =
          let (xa, xb) = &&_true (isxdigit a) (isxdigit b) x in
          let v : ℕ = hex_value a * 16 + hex_value b in
          let (g', e, l) = write_gap g (a ∷ b ∷ t ++ 0 ∷ rest) escape_char v w in
          rw
            (
              decode_escaped a b t xa xb,
              escaped fuel _ _ _ a b (read_first w g _) (read w g _ 1) (read w g _ 2) x,
            )
            (round-Decoded fuel t w g (g' ++ a ∷ b ∷ []) _ 3 v (hex_decode_internal t)
              (e ∙ simp append_assoc) (omega (arith, length-append g' (a ∷ b ∷ [])))
              (ih t h.1.1 (omega arith) (w ++ v ∷ []) (g' ++ a ∷ b ∷ [])))

  plain-Decodes :
      (fuel c : ℕ) (s : Bytes)
      → IsCString (c ∷ s)
      → c ≢ escape_char
      → Decodes fuel s
      → Decodes (suc fuel) (c ∷ s)
  plain-Decodes fuel c s h n ih w g =
      let (g', e, l) = write_gap g (s ++ 0 ∷ rest) c c w in
      rw (decode_plain c s n, plain fuel _ _ _ c (read_first w g _) (omega arith) n)
        (round-Decoded fuel s w g g' _ 1 c (hex_decode_internal s) e (omega arith)
          (ih (w ++ c ∷ []) g'))

  inplace-Decodes : (fuel : ℕ) (s : Bytes) → IsCString s → length s < fuel → Decodes fuel s
  unfolding hex_decode_internal
  inplace-Decodes zero s h f w g = absurd (omega arith)
  inplace-Decodes (suc fuel) [] h f w g =
      let (g', e, l) = write_gap g rest 0 0 w in
      (
        0 ∷ g',
        stop fuel _ _ _ (read_first w g (0 ∷ rest))
            ∙ ap (λ x. some (success, x)) (e ∙ append_assoc w (0 ∷ []) (g' ++ rest)),
        λ _. (g', refl),
      )
  inplace-Decodes (suc fuel) (c ∷ s) h f w g = elim (Bool-cases (c == escape_char)) [
    | inl e ↦
        rw ((==_iff c escape_char).0 e)
          (escape-Decodes fuel s h.1 (omega arith) (inplace-Decodes fuel) w g)
    | inr n ↦
        plain-Decodes fuel c s h (λ e. cc ((==_iff c escape_char).1 e))
          (inplace-Decodes fuel s h.1 (omega arith)) w g
  ]

length-set : (m : Bytes) (i v : ℕ) → length (set m i v) ≡ length m
length-set [] i v = refl
length-set (x ∷ m) zero v = refl
length-set (x ∷ m) (suc i) v = ap suc (length-set m i v)

inplace-length :
    (fuel : ℕ) (m : Bytes) (i o : ℕ) (st : HexStatus) (m' : Bytes)
    → hex_decode_inplace fuel m i o ≡ some (st, m')
    → length m' ≡ length m
unfolding hex_decode_inplace
inplace-length zero m i o st m' h = cc h
inplace-length (suc fuel) m i o st m' h =
    let v : ℕ = hex_value (get_or m (i + 1) 0) * 16 + hex_value (get_or m (i + 2) 0) in
    ground (
      arith,
      length-set m o 0,
      length-set m o v,
      length-set m o (get_or m i 0),
      inplace-length fuel (set m o v) (i + 3) (o + 1) st m',
      inplace-length fuel (set m o (get_or m i 0)) (i + 1) (o + 1) st m',
    )

status_cases :
    (s : Bytes) → ((hex_decode_internal s).0 ≡ success) ⊎ ((hex_decode_internal s).0 ≡ syntax_error)
unfolding hex_decode_internal
status_cases [] = inl refl
status_cases (c ∷ []) = ground arith
status_cases (c ∷ a ∷ []) = ground arith
status_cases (c ∷ a ∷ b ∷ s) = elim (Bool-cases (c == escape_char)) [
  | inr n ↦ rw n (status_cases (a ∷ b ∷ s))
  | inl e ↦ rw e (elim (Bool-cases (isxdigit a && isxdigit b)) [
    | inl t ↦ rw t (status_cases s)
    | inr f ↦ rw f (inr refl)
  ])
]

terminated :
    (junk : Bytes) (st : HexStatus)
    → (st ≡ success) ⊎ (st ≡ syntax_error)
    → (st ≡ success → (j : Bytes) × (junk ≡ 0 ∷ j))
    → ((j : Bytes) × (junk ≡ 0 ∷ j)) ⊎ (st ≡ syntax_error)
terminated junk st (inl e) t = inl (t e)
terminated junk st (inr e) t = inr e

-- Decoding a string onto itself, in a memory where `rest` stands behind it, ends within one round
-- for each byte and the NUL, with the status of decoding into another buffer. The decoded bytes
-- stand at the start, a NUL after them unless there was a syntax error, and `rest` is where it was.
pub hex_decode_inplace_lem :
    (s rest : Bytes)
    → IsCString s
    → (junk : Bytes) × (hex_decode_inplace (suc (length s)) (s ++ 0 ∷ rest) 0 0
        ≡ some ((hex_decode_internal s).0, (hex_decode_internal s).1 ++ (junk ++ rest)))
      × (length ((hex_decode_internal s).1 ++ (junk ++ rest)) ≡ length (s ++ 0 ∷ rest))
      × (((j : Bytes) × (junk ≡ 0 ∷ j)) ⊎ ((hex_decode_internal s).0 ≡ syntax_error))
hex_decode_inplace_lem s rest h =
    let (junk, e, t) = inplace-Decodes rest (suc (length s)) s h (omega arith) [] [] in
    let e' : hex_decode_inplace (suc (length s)) (s ++ 0 ∷ rest) 0 0
        ≡ some ((hex_decode_internal s).0, (hex_decode_internal s).1 ++ (junk ++ rest)) =
      ap (λ k. hex_decode_inplace (suc (length s)) (s ++ 0 ∷ rest) k 0) (omega arith) ∙ e in
    (
      junk,
      e',
      inplace-length (suc (length s)) (s ++ 0 ∷ rest) 0 0 _ _ e',
      terminated junk (hex_decode_internal s).0 (status_cases s) t,
    )
