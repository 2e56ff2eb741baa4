-- ===== src/Maildir/Flags.antt =====
-- lib/message.cc: the flags of a maildir name say what the tags of its message say.
use notmuch.Prelude.{
  ℕ, zero, suc, ◌+◌, Bool, true, false, not, ◌&&◌, ◌||◌, List, [], ◌∷◌, ◌++◌, ltb, leb, ◌==◌,
  if◌then◌else◌, ◌≡◌, refl, ap, sym, ◌∙◌, arith, Bool-cases, inl, inr, ==_iff,
}
use notmuch.Prelude.Bytes.{Bytes, str_equal}
use notmuch.Message.{mem_tag}
use notmuch.Maildir.{
  MaildirFlagTag, flag2tag, strchr, FlagMap, put_flag, change_flags, flags_from, tag_flags,
  all_tag_flags,
}

strchr-append : (s t : Bytes) (c : ℕ) → strchr (s ++ t) c ≡ (strchr s c || strchr t c)
strchr-append [] t c = refl
strchr-append (x ∷ s) t c = ground (arith, strchr-append s t c)

strchr_if :
    (b : Bool) (x : ℕ) (s : Bytes) (c : ℕ)
    → strchr (if b then x ∷ s else s) c ≡ (b && x == c || strchr s c)
strchr_if true x s c = refl
strchr_if false x s c = refl

in_range_lem :
    (n i : ℕ) (map : FlagMap) (c : ℕ)
    → (map i && i == c || (leb (i + 1) c && (ltb c (i + 1 + n) && map c)))
      ≡ (leb i c && (ltb c (i + suc n) && map c))
in_range_lem n i map c = elim (Bool-cases (i == c)) [
  | inl e ↦ let m = ap map ((==_iff i c).0 e) in rw m (ground arith)
  | inr e ↦ ground arith
]

pub flags_from-strchr :
    (n i : ℕ) (map : FlagMap) (c : ℕ)
    → strchr (flags_from n i map) c ≡ (leb i c && (ltb c (i + n) && map c))
unfolding flags_from
flags_from-strchr zero i map c = ground arith
flags_from-strchr (suc n) i map c =
    strchr_if (map i) i (flags_from n (i + 1) map) c
    ∙ ap (λ b. map i && i == c || b) (flags_from-strchr n (i + 1) map c)
    ∙ in_range_lem n i map c

abbrev stepped : Bool → ℕ → FlagMap → Bool → FlagMap × Bool
stepped b x map changed =
    if (if b then map x else not (map x)) then (map, changed) else (put_flag x b map, true)

put_lem :
    (b : Bool) (x : ℕ) (map : FlagMap) (changed : Bool) (c : ℕ)
    → (stepped b x map changed).0 c ≡ (if x == c then b else map c)
put_lem b x map changed c = elim (Bool-cases (x == c)) [
  | inl e ↦
      let m = ap map ((==_iff x c).0 e) in
      elim (Bool-cases (map x)) [ inl k ↦ yes b k m e | inr k ↦ no b k m e ]
  | inr e ↦ elim (Bool-cases (if b then map x else not (map x))) [
    | inl k ↦ rw k (rw e refl)
    | inr k ↦ rw k (rw e refl)
  ]
]
  where
    yes :
        (b : Bool)
        → map x ≡ true
        → map x ≡ map c
        → x == c ≡ true
        → (stepped b x map changed).0 c ≡ (if x == c then b else map c)
    yes true k m e = rw k (rw e (sym m ∙ k))
    yes false k m e = rw k (rw e refl)

    no :
        (b : Bool)
        → map x ≡ false
        → map x ≡ map c
        → x == c ≡ true
        → (stepped b x map changed).0 c ≡ (if x == c then b else map c)
    no true k m e = rw k (rw e refl)
    no false k m e = rw k (rw e (sym m ∙ k))

or_lem : (p q b m : Bool) → (if q then b else (if p then b else m)) ≡ (if p || q then b else m)
or_lem p q b m = ground arith

pub change_flags-value :
    (b : Bool) (s : Bytes) (r : FlagMap × Bool) (c : ℕ)
    → (change_flags b s r).0 c ≡ (if strchr s c then b else r.0 c)
unfolding change_flags
change_flags-value b [] r c = refl
change_flags-value b (x ∷ s) (map, changed) c =
    change_flags-value b s _ c
    ∙ ap (λ v. if strchr s c then b else v) (put_lem b x map changed c)
    ∙ or_lem (x == c) (strchr s c) b (map c)

-- The flags of the tags of a message, for one flag.
abbrev pub any_row : Bool → Bytes → List MaildirFlagTag → ℕ → Bool
any_row inverse tag [] c = false
any_row inverse tag (r ∷ rs) c =
    (str_equal tag r.tag && (if inverse then r.inverse else not r.inverse)) && r.flag == c
    || any_row inverse tag rs c

tag_flags-strchr :
    (inverse : Bool) (tag : Bytes) (rs : List MaildirFlagTag) (c : ℕ)
    → strchr (tag_flags inverse tag rs) c ≡ any_row inverse tag rs c
unfolding tag_flags
tag_flags-strchr inverse tag [] c = refl
tag_flags-strchr true tag (r ∷ rs) c =
    strchr_if (str_equal tag r.tag && r.inverse) r.flag (tag_flags true tag rs) c
    ∙ ap (λ b. (str_equal tag r.tag && r.inverse) && r.flag == c || b)
        (tag_flags-strchr true tag rs c)
tag_flags-strchr false tag (r ∷ rs) c =
    strchr_if (str_equal tag r.tag && not r.inverse) r.flag (tag_flags false tag rs) c
    ∙ ap (λ b. (str_equal tag r.tag && not r.inverse) && r.flag == c || b)
        (tag_flags-strchr false tag rs c)

-- Every tag's flags, for a flag that one row has.
pub all_flags-strchr :
    (inverse : Bool) (tags : List Bytes) (c : ℕ) (name : Bytes)
    → ((tag : Bytes) → any_row inverse tag flag2tag c ≡ str_equal tag name)
    → strchr (all_tag_flags inverse tags) c ≡ mem_tag tags name
unfolding all_tag_flags
all_flags-strchr inverse [] c name h = refl
all_flags-strchr inverse (tag ∷ tags) c name h =
    strchr-append (tag_flags inverse tag flag2tag) (all_tag_flags inverse tags) c
    ∙ ap (λ b. b || strchr (all_tag_flags inverse tags) c)
        (tag_flags-strchr inverse tag flag2tag c ∙ h tag)
    ∙ ap (λ b. str_equal tag name || b) (all_flags-strchr inverse tags c name h)

pub no_flags-strchr :
    (inverse : Bool) (tags : List Bytes) (c : ℕ)
    → ((tag : Bytes) → any_row inverse tag flag2tag c ≡ false)
    → strchr (all_tag_flags inverse tags) c ≡ false
unfolding all_tag_flags
no_flags-strchr inverse [] c h = refl
no_flags-strchr inverse (tag ∷ tags) c h =
    strchr-append (tag_flags inverse tag flag2tag) (all_tag_flags inverse tags) c
    ∙ ap (λ b. b || strchr (all_tag_flags inverse tags) c)
        (tag_flags-strchr inverse tag flag2tag c ∙ h tag)
    ∙ no_flags-strchr inverse tags c h

-- The second loop, for one flag: the row of the flag adds it where its tag has not been found.
abbrev pub rows_without : ℕ → List MaildirFlagTag → Bool
rows_without c [] = true
rows_without c (r ∷ rs) = not (r.flag == c) && rows_without c rs

abbrev pub one_row : ℕ → List MaildirFlagTag → Bool
one_row c [] = true
one_row c (r ∷ rs) = if r.flag == c then rows_without c rs else one_row c rs

abbrev pub added : Bool → List MaildirFlagTag → Bool → ℕ → Bool
added inverse [] found c = false
added inverse (r ∷ rs) found c =
    if r.flag == c
    then (if inverse then r.inverse else not r.inverse) && not found
    else added inverse rs found c

abbrev pub absent_step : MaildirFlagTag → Bytes × Bytes → Bytes × Bytes
absent_step r (to_set, to_clear) =
    if r.inverse
    then (if strchr to_clear r.flag
        then (to_set, to_clear)
        else (to_set ++ (r.flag ∷ []), to_clear))
    else if strchr to_set r.flag
    then (to_set, to_clear)
    else (to_set, to_clear ++ (r.flag ∷ []))

pub step-set :
    (r : MaildirFlagTag) (to_set to_clear : Bytes) (c : ℕ)
    → strchr (absent_step r (to_set, to_clear)).0 c
      ≡ (strchr to_set c || (r.flag == c && (r.inverse && not (strchr to_clear r.flag))))
step-set r to_set to_clear c = elim (Bool-cases r.inverse) [
  | inl i ↦ elim (Bool-cases (strchr to_clear r.flag)) [
    | inl k ↦ rw i (rw k (ground arith))
    | inr k ↦ rw i (rw k (strchr-append to_set (r.flag ∷ []) c ∙ ground arith))
  ]
  | inr i ↦ elim (Bool-cases (strchr to_set r.flag)) [
    | inl k ↦ rw i (rw k (ground arith))
    | inr k ↦ rw i (rw k (ground arith))
  ]
]

pub step-clear :
    (r : MaildirFlagTag) (to_set to_clear : Bytes) (c : ℕ)
    → strchr (absent_step r (to_set, to_clear)).1 c
      ≡ (strchr to_clear c || (r.flag == c && (not r.inverse && not (strchr to_set r.flag))))
step-clear r to_set to_clear c = elim (Bool-cases r.inverse) [
  | inl i ↦ elim (Bool-cases (strchr to_clear r.flag)) [
    | inl k ↦ rw i (rw k (ground arith))
    | inr k ↦ rw i (rw k (ground arith))
  ]
  | inr i ↦ elim (Bool-cases (strchr to_set r.flag)) [
    | inl k ↦ rw i (rw k (ground arith))
    | inr k ↦ rw i (rw k (strchr-append to_clear (r.flag ∷ []) c ∙ ground arith))
  ]
]
