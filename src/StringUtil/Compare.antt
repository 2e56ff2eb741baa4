-- ===== src/StringUtil/Compare.antt =====
-- util/string-util.c: strcmp_null as an order, and the hash table contract of strcase_hash.
use Prim.Native.Nat.{Ordering}
use notmuch.Prelude.{
  ℕ, ◌+◌, ◌*◌, ◌%◌, ◌^◌, true, Option, none, some, [], ◌∷◌, ◌==◌, ◌≡◌, ◌↔◌, refl, ap, arith, inl,
  inr, Bool-cases, ==_iff,
}
use notmuch.Prelude.Bytes.{Bytes, tolower}
use notmuch.StringUtil.{
  strcmp, strcmp_null, strcase_equal, hash_char, hash_from, strcase_hash, uint_mod,
}

abbrev pub flip : Ordering → Ordering
flip Ordering.lt = Ordering.gt
flip Ordering.eq = Ordering.eq
flip Ordering.gt = Ordering.lt

strcmp-eq : (a b : Bytes) → (strcmp a b ≡ Ordering.eq) → a ≡ b
unfolding strcmp
strcmp-eq [] [] h = refl
strcmp-eq [] (y ∷ b) h = cc h
strcmp-eq (x ∷ a) [] h = cc h
strcmp-eq (x ∷ a) (y ∷ b) h = ground (arith, strcmp-eq a b)

strcmp-flip : (a b : Bytes) → strcmp b a ≡ flip (strcmp a b)
unfolding strcmp
strcmp-flip [] [] = refl
strcmp-flip [] (y ∷ b) = refl
strcmp-flip (x ∷ a) [] = refl
strcmp-flip (x ∷ a) (y ∷ b) = ground (arith, strcmp-flip a b)

strcmp_trans :
    (a b c : Bytes) → strcmp a b ≡ Ordering.lt → strcmp b c ≡ Ordering.lt → strcmp a c ≡ Ordering.lt
unfolding strcmp
strcmp_trans [] [] c h k = cc h
strcmp_trans [] (y ∷ b) [] h k = cc k
strcmp_trans [] (y ∷ b) (z ∷ c) h k = refl
strcmp_trans (x ∷ a) [] c h k = cc h
strcmp_trans (x ∷ a) (y ∷ b) [] h k = cc k
strcmp_trans (x ∷ a) (y ∷ b) (z ∷ c) h k =
    ground (arith, strcmp_trans a b c, strcmp-eq a b, strcmp-eq b c)

hash_char-tolower : (x y : ℕ) → tolower x ≡ tolower y → hash_char x ≡ hash_char y
unfolding hash_char
hash_char-tolower x y h = ground arith

strcase_equal-cons :
    (x y : ℕ) (a b : Bytes)
    → strcase_equal (x ∷ a) (y ∷ b) ≡ true
    → (tolower x ≡ tolower y) × (strcase_equal a b ≡ true)
unfolding strcase_equal
strcase_equal-cons x y a b h = elim (Bool-cases (tolower x == tolower y)) [
  | inl e ↦ ((==_iff (tolower x) (tolower y)).0 e, rw e at h)
  | inr e ↦ cc (rw e at h)
]

hash_from-equal : (n : ℕ) (a b : Bytes) → strcase_equal a b ≡ true → hash_from n a ≡ hash_from n b
unfolding strcase_equal hash_from
hash_from-equal n [] [] h = refl
hash_from-equal n [] (y ∷ b) h = cc h
hash_from-equal n (x ∷ a) [] h = cc h
hash_from-equal n (x ∷ a) (y ∷ b) h =
    let (e, rest) = strcase_equal-cons x y a b h in
    rw (hash_char-tolower x y e)
      (hash_from-equal ((n * 2 ^ 5 % uint_mod + n + hash_char y) % uint_mod) a b rest)

-- The contract of a hash table with these two functions: strings that are equal but for the case
-- of their ASCII letters have one hash.
pub strcase_hash-strcase_equal :
    (a b : Bytes) → strcase_equal a b ≡ true → strcase_hash (some a) ≡ strcase_hash (some b)
unfolding strcase_hash
strcase_hash-strcase_equal a b h = hash_from-equal 5381 a b h

strcmp_self : (a : Bytes) → strcmp a a ≡ Ordering.eq
unfolding strcmp
strcmp_self [] = refl
strcmp_self (x ∷ a) = ground (arith, strcmp_self a)

null_eq : (a b : Option Bytes) → (strcmp_null a b ≡ Ordering.eq) ↔ (a ≡ b)
unfolding strcmp_null
null_eq none none = (λ _. refl, λ _. refl)
null_eq none (some b) = (λ h. cc h, λ h. cc h)
null_eq (some a) none = (λ h. cc h, λ h. cc h)
null_eq (some a) (some b) = (λ h. ap some (strcmp-eq a b h), λ h. ground (arith, strcmp_self a))

null_flip : (a b : Option Bytes) → strcmp_null b a ≡ flip (strcmp_null a b)
unfolding strcmp_null
null_flip none none = refl
null_flip none (some b) = refl
null_flip (some a) none = refl
null_flip (some a) (some b) = strcmp-flip a b

-- strcmp_null is transitive.
pub strcmp_null_trans :
    (a b c : Option Bytes)
    → strcmp_null a b ≡ Ordering.lt
    → strcmp_null b c ≡ Ordering.lt
    → strcmp_null a c ≡ Ordering.lt
unfolding strcmp_null
strcmp_null_trans none none c h k = cc h
strcmp_null_trans none (some b) none h k = cc k
strcmp_null_trans none (some b) (some c) h k = refl
strcmp_null_trans (some a) none c h k = cc h
strcmp_null_trans (some a) (some b) none h k = cc k
strcmp_null_trans (some a) (some b) (some c) h k = strcmp_trans a b c h k

-- strcmp_null is zero exactly on equal arguments, exchanging them turns its sign round, and NULL is
-- below every string.
pub strcmp_null_order :
    (a b : Option Bytes) (s : Bytes)
    → ((strcmp_null a b ≡ Ordering.eq) ↔ (a ≡ b))
      × (strcmp_null b a ≡ flip (strcmp_null a b))
      × (strcmp_null none (some s) ≡ Ordering.lt)
unfolding strcmp_null
strcmp_null_order a b s = (null_eq a b, null_flip a b, refl)
