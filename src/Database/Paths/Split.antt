-- ===== src/Database/Paths/Split.antt =====
-- What split_path makes of a directory, slashes, a name and trailing slashes.
use mathlib.Core.List.{
  reverse, reverse_aux, reverse_aux-eq, reverse-append, reverse-cons, reverse-reverse,
}
use notmuch.Prelude.{
  ℕ, zero, suc, false, not, Option, none, some, [], ◌∷◌, ◌++◌, append-nil, append_assoc, ◌≡◌, ◌∙◌,
  ◌==◌, if◌then◌else◌, All, refl, ap, arith,
}
use notmuch.Prelude.Bytes.{Bytes}
use notmuch.Database.Paths.{
  slash_char, Pointer, skip_trailing, find_slash, skip_multiple, split_at, split_path,
}

abbrev pub slashes : ℕ → Bytes
slashes zero = []
slashes (suc n) = slash_char ∷ slashes n

abbrev pub NoSlash : Bytes → Type 0
NoSlash = All (λ c. (c == slash_char) ≡ false)

slashes_snoc : (k : ℕ) (s : Bytes) → slashes k ++ slash_char ∷ s ≡ slash_char ∷ slashes k ++ s
slashes_snoc zero s = refl
slashes_snoc (suc k) s = ap (λ t. slash_char ∷ t) (slashes_snoc k s)

stays_at :
    (c : ℕ) (bs s : Bytes) → (c == slash_char) ≡ false → skip_trailing bs (c ∷ s) ≡ (bs, c ∷ s)
unfolding skip_trailing
stays_at c [] s h = refl
stays_at c (b ∷ bs) s h = ground arith

-- Trailing slashes are passed, at a name that ends in the byte `c`.
skip_trailing_lem :
    (k c : ℕ) (bs s : Bytes)
    → (c == slash_char) ≡ false
    → skip_trailing (slashes k ++ c ∷ bs) (slash_char ∷ s) ≡ (bs, c ∷ slashes (suc k) ++ s)
unfolding skip_trailing
skip_trailing_lem zero c bs s h = stays_at c bs (slash_char ∷ s) h
skip_trailing_lem (suc k) c bs s h =
    skip_trailing_lem k c bs (slash_char ∷ s) h
    ∙ ap (λ t. (bs, c ∷ slash_char ∷ t)) (slashes_snoc k s)

find_slash_lem :
    (rb rest : Bytes) (c : ℕ) (s : Bytes) (base : Option Bytes)
    → NoSlash rb
    → (c == slash_char) ≡ false
    → find_slash (rb ++ slash_char ∷ rest) (c ∷ s) base
      ≡ ((rest, slash_char ∷ reverse_aux rb (c ∷ s)), some (reverse_aux rb (c ∷ s)))
unfolding find_slash
find_slash_lem [] [] c s base hb h = ground arith
find_slash_lem [] (x ∷ rest) c s base hb h = ground arith
find_slash_lem (b ∷ rb) rest c s base hb h =
    ap
      (λ z.
        if not z
        then find_slash (rb ++ slash_char ∷ rest) (b ∷ c ∷ s) (some (c ∷ s))
        else ((b ∷ rb ++ slash_char ∷ rest, c ∷ s), base))
      h
    ∙ find_slash_lem rb rest b (c ∷ s) (some (c ∷ s)) hb.1 hb.0

skip_multiple_lem :
    (k x : ℕ) (rd s : Bytes)
    → (x == slash_char) ≡ false
    → (skip_multiple (slashes k ++ x ∷ rd) s).0 ≡ x ∷ rd
unfolding skip_multiple
skip_multiple_lem zero x rd s h = ground arith
skip_multiple_lem (suc k) x rd s h = skip_multiple_lem k x rd (slash_char ∷ s) h

abbrev finish : Bytes → Pointer → Option Bytes × Option Bytes
finish path p =
    let (q, base) = find_slash p.0 p.1 none in split_at path (skip_multiple q.0 q.1) base

finish_lem :
    (path rb rd t : Bytes) (k c x : ℕ)
    → NoSlash (c ∷ rb)
    → (x == slash_char) ≡ false
    → finish path (rb ++ (slash_char ∷ (slashes k ++ x ∷ rd)), c ∷ t)
      ≡ (some (reverse (x ∷ rd)), some (reverse (c ∷ rb) ++ t))
finish_lem path rb rd t k c x hb hx =
    let e = find_slash_lem rb (slashes k ++ x ∷ rd) c t none hb.1 hb.0 in
    let s = slash_char ∷ reverse_aux rb (c ∷ t) in
    let m = skip_multiple (slashes k ++ x ∷ rd) s in
    ap (λ (r : Pointer × Option Bytes). split_at path (skip_multiple r.0.0 r.0.1) r.1) e
    ∙ ap (λ b. split_at path (b, m.1) (some (reverse_aux rb (c ∷ t))))
        (skip_multiple_lem k x rd s hx)
    ∙ ap (λ n. (some (reverse (x ∷ rd)), some n)) (reverse_aux-eq (c ∷ rb) t)

reverse-slashes : (k : ℕ) → reverse (slashes k) ≡ slashes k
reverse-slashes zero = refl
reverse-slashes (suc k) =
    reverse-cons slash_char (slashes k)
    ∙ ap (λ s. s ++ slash_char ∷ []) (reverse-slashes k)
    ∙ slashes_snoc k []
    ∙ ap (λ s. slash_char ∷ s) (append-nil (slashes k))

reverse-path :
    (a b : Bytes) (k j : ℕ)
    → reverse (reverse a ++ (slashes k ++ (reverse b ++ slashes j)))
      ≡ slashes j ++ (b ++ (slashes k ++ a))
reverse-path a b k j =
    reverse-append (reverse a) (slashes k ++ (reverse b ++ slashes j))
    ∙ ap (λ s. s ++ reverse (reverse a)) (reverse-append (slashes k) (reverse b ++ slashes j))
    ∙ ap (λ s. (s ++ reverse (slashes k)) ++ reverse (reverse a))
        (reverse-append (reverse b) (slashes j))
    ∙ rw (reverse-slashes j, reverse-slashes k, reverse-reverse a, reverse-reverse b)
        (append_assoc (slashes j ++ b) (slashes k) a ∙ append_assoc (slashes j) b (slashes k ++ a))

-- split_path with the path and its reverse apart.
abbrev split_reversed : Bytes → Bytes → Option Bytes × Option Bytes
split_reversed path [] = (none, none)
split_reversed path (c ∷ before) = finish path (skip_trailing before (c ∷ []))

split_path_reversed : (path : Bytes) → split_path (some path) ≡ split_reversed path (reverse path)
unfolding split_path
split_path_reversed path = go (reverse path)
  where
    go :
        (r : Bytes)
        → (elim r as (λ _. Option Bytes × Option Bytes) [
          | [] ↦ (none, none)
          | c ∷ before ↦ finish path (skip_trailing before (c ∷ []))
        ])
          ≡ split_reversed path r
    go [] = refl
    go (c ∷ before) = refl

split_reversed_lem :
    (path bs : Bytes) (j c : ℕ)
    → (c == slash_char) ≡ false
    → split_reversed path (slashes j ++ c ∷ bs) ≡ finish path (bs, c ∷ slashes j)
split_reversed_lem path bs zero c h = ap (finish path) (stays_at c bs [] h)
split_reversed_lem path bs (suc j) c h =
    ap (finish path)
      (skip_trailing_lem j c bs [] h ∙ ap (λ t. (bs, c ∷ slash_char ∷ t)) (append-nil (slashes j)))

-- A name without a directory.
find_slash_end :
    (rb : Bytes) (c : ℕ) (s : Bytes) (base : Option Bytes)
    → NoSlash rb
    → (c == slash_char) ≡ false
    → (find_slash rb (c ∷ s) base).0.0 ≡ []
unfolding find_slash
find_slash_end [] c s base hb h = refl
find_slash_end (b ∷ rb) c s base hb h =
    ap
      (λ z.
        (if not z then find_slash rb (b ∷ c ∷ s) (some (c ∷ s)) else ((b ∷ rb, c ∷ s), base)).0.0)
      h
    ∙ find_slash_end rb b (c ∷ s) (some (c ∷ s)) hb.1 hb.0

skip_multiple-slashes : (k : ℕ) (s : Bytes) → (skip_multiple (slashes k) s).0 ≡ []
unfolding skip_multiple
skip_multiple-slashes zero s = refl
skip_multiple-slashes (suc k) s = skip_multiple-slashes k (slash_char ∷ s)

split_at_front :
    (path : Bytes) (p : Pointer) (base : Option Bytes)
    → p.0 ≡ []
    → split_at path p base ≡ (some [], some path)
split_at_front path ([], s) base h = refl
split_at_front path (b ∷ bs, s) base h = cc h

finish_front :
    (path rb t : Bytes) (k c : ℕ)
    → NoSlash (c ∷ rb)
    → finish path (rb ++ slashes k, c ∷ t) ≡ (some [], some path)
finish_front path rb t zero c h =
    let q = find_slash (rb ++ []) (c ∷ t) none in
    let e : q.0.0 ≡ [] =
      ap (λ s. (find_slash s (c ∷ t) none).0.0) (append-nil rb)
      ∙ find_slash_end rb c t none h.1 h.0 in
    split_at_front path (skip_multiple q.0.0 q.0.1) q.1
      (ap (λ s. (skip_multiple s q.0.1).0) e ∙ skip_multiple-slashes 0 q.0.1)
finish_front path rb t (suc k) c h =
    let s = slash_char ∷ reverse_aux rb (c ∷ t) in
    ap (λ (r : Pointer × Option Bytes). split_at path (skip_multiple r.0.0 r.0.1) r.1)
      (find_slash_lem rb (slashes k) c t none h.1 h.0)
    ∙ split_at_front path (skip_multiple (slashes k) s) (some (reverse_aux rb (c ∷ t)))
        (skip_multiple-slashes k s)

split_front :
    (rb : Bytes) (c k j : ℕ)
    → NoSlash (c ∷ rb)
    → let path = slashes k ++ (reverse (c ∷ rb) ++ slashes j) in
      split_path (some path) ≡ (some [], some path)
split_front rb c k j h =
    let path = slashes k ++ (reverse (c ∷ rb) ++ slashes j) in
    split_path_reversed path
    ∙ ap (split_reversed path) (reverse-path [] (c ∷ rb) k j)
    ∙ ap (λ s. split_reversed path (slashes j ++ (c ∷ (rb ++ s)))) (append-nil (slashes k))
    ∙ split_reversed_lem path (rb ++ slashes k) j c h.0
    ∙ finish_front path rb (slashes j) k c h

split_inner :
    (rd rb : Bytes) (x c k j : ℕ)
    → (x == slash_char) ≡ false
    → NoSlash (c ∷ rb)
    → split_path (some (reverse (x ∷ rd) ++ (slashes (suc k) ++ (reverse (c ∷ rb) ++ slashes j))))
      ≡ (some (reverse (x ∷ rd)), some (reverse (c ∷ rb) ++ slashes j))
split_inner rd rb x c k j hx hb =
    let path = reverse (x ∷ rd) ++ (slashes (suc k) ++ (reverse (c ∷ rb) ++ slashes j)) in
    split_path_reversed path
    ∙ ap (split_reversed path) (reverse-path (x ∷ rd) (c ∷ rb) (suc k) j)
    ∙ split_reversed_lem path (rb ++ (slash_char ∷ (slashes k ++ x ∷ rd))) j c hb.0
    ∙ finish_lem path rb rd (slashes j) k c x hb hx

-- A path that is a directory, at least one slash, a name without slashes, and any number of
-- trailing slashes, where the directory and the name are not empty and the directory does not end
-- in a slash, is split into the directory, and the name with the trailing slashes, which are only
-- ignored in the search for the last component. Such a name without a directory, with any number
-- of slashes before it, is the basename with all its slashes, and the directory is empty.
pub split_path_lem :
    (rd rb : Bytes) (x c k j : ℕ)
    → (x == slash_char) ≡ false
    → NoSlash (c ∷ rb)
    → (split_path (some (reverse (x ∷ rd) ++ (slashes (suc k) ++ (reverse (c ∷ rb) ++ slashes j))))
        ≡ (some (reverse (x ∷ rd)), some (reverse (c ∷ rb) ++ slashes j)))
      × (split_path (some (slashes k ++ (reverse (c ∷ rb) ++ slashes j)))
          ≡ (some [], some (slashes k ++ (reverse (c ∷ rb) ++ slashes j))))
split_path_lem rd rb x c k j hx hb = (split_inner rd rb x c k j hx hb, split_front rb c k j hb)
