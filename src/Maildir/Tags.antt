-- ===== src/Maildir/Tags.antt =====
-- lib/message.cc: from the tags of a message to the flags of its names and back.
use notmuch.Prelude.{
  ℕ, ◌+◌, Bool, true, false, not, ◌&&◌, ◌||◌, List, [], ◌∷◌, ltb, leb, ◌==◌, if◌then◌else◌, ◌≡◌,
  refl, ap, sym, ◌∙◌, arith, All, Bool-cases, inl, inr, ==_iff,
}
use notmuch.Prelude.Bytes.{Bytes, codes, str_equal}
use notmuch.Message.{mem_tag}
use notmuch.Maildir.{
  wants, MaildirFlagTag, flag2tag, strchr, FlagMap, change_flags, flags_from, new_flags,
  all_tag_flags, absent_flags, _get_maildir_flag_actions,
}
use notmuch.Maildir.Flags.{
  any_row, rows_without, one_row, added, absent_step, step-set, step-clear, all_flags-strchr,
  no_flags-strchr, flags_from-strchr, change_flags-value,
}

none_added :
    (inverse found : Bool) (rs : List MaildirFlagTag) (c : ℕ)
    → rows_without c rs ≡ true
    → added inverse rs found c ≡ false
none_added inverse found [] c h = refl
none_added inverse found (r ∷ rs) c h =
    let e : r.flag == c ≡ false = ground arith in
    rw e (none_added inverse found rs c (ground arith))

at_row :
    (r : MaildirFlagTag) (s : Bytes) (c : ℕ) → r.flag == c ≡ true → strchr s r.flag ≡ strchr s c
at_row r s c e = ap (strchr s) ((==_iff r.flag c).0 e)

without_one : (rs : List MaildirFlagTag) (c : ℕ) → rows_without c rs ≡ true → one_row c rs ≡ true
without_one [] c h = refl
without_one (r ∷ rs) c h =
    let e : r.flag == c ≡ false = ground arith in rw e (without_one rs c (ground arith))

or_false : (b : Bool) → (b || false) ≡ b
or_false true = refl
or_false false = refl

absent-set :
    (rs : List MaildirFlagTag) (q : Bytes × Bytes) (c : ℕ)
    → one_row c rs ≡ true
    → strchr (absent_flags rs q).0 c ≡ (strchr q.0 c || added true rs (strchr q.1 c) c)
unfolding absent_flags
absent-set [] q c h = sym (or_false (strchr q.0 c))
absent-set (r ∷ rs) q c h = elim (Bool-cases (r.flag == c)) [
  | inl e ↦
      let n = none_added true (strchr (absent_step r q).1 c) rs c (rw e at h) in
      let s = rw e at (step-set r q.0 q.1 c) in
      absent-set rs (absent_step r q) c (without_one rs c (rw e at h))
      ∙ rw n (rw s (rw e (rw (at_row r q.1 c e) (or_false _))))
  | inr e ↦
      let s = rw e at (step-set r q.0 q.1 c) in
      let t = rw e at (step-clear r q.0 q.1 c) in
      absent-set rs (absent_step r q) c (rw e at h)
      ∙ rw e (rw (t ∙ or_false (strchr q.1 c)) (rw (s ∙ or_false (strchr q.0 c)) refl))
]

absent-clear :
    (rs : List MaildirFlagTag) (q : Bytes × Bytes) (c : ℕ)
    → one_row c rs ≡ true
    → strchr (absent_flags rs q).1 c ≡ (strchr q.1 c || added false rs (strchr q.0 c) c)
unfolding absent_flags
absent-clear [] q c h = sym (or_false (strchr q.1 c))
absent-clear (r ∷ rs) q c h = elim (Bool-cases (r.flag == c)) [
  | inl e ↦
      let n = none_added false (strchr (absent_step r q).0 c) rs c (rw e at h) in
      let s = rw e at (step-clear r q.0 q.1 c) in
      absent-clear rs (absent_step r q) c (without_one rs c (rw e at h))
      ∙ rw n (rw s (rw e (rw (at_row r q.0 c e) (or_false _))))
  | inr e ↦
      let s = rw e at (step-clear r q.0 q.1 c) in
      let t = rw e at (step-set r q.0 q.1 c) in
      absent-clear rs (absent_step r q) c (rw e at h)
      ∙ rw e (rw (t ∙ or_false (strchr q.0 c)) (rw (s ∙ or_false (strchr q.1 c)) refl))
]

-- The actions for a flag whose row is not inverse, and for one whose row is.
direct_actions :
    (tags : List Bytes) (c : ℕ) (name : Bytes)
    → one_row c flag2tag ≡ true
    → ((tag : Bytes) → any_row false tag flag2tag c ≡ str_equal tag name)
    → ((tag : Bytes) → any_row true tag flag2tag c ≡ false)
    → ((found : Bool) → added true flag2tag found c ≡ false)
    → ((found : Bool) → added false flag2tag found c ≡ not found)
    → (strchr (_get_maildir_flag_actions tags).0 c ≡ mem_tag tags name)
      × (strchr (_get_maildir_flag_actions tags).1 c ≡ not (mem_tag tags name))
unfolding _get_maildir_flag_actions
direct_actions tags c name one h k a b =
    let q : Bytes × Bytes = (all_tag_flags false tags, all_tag_flags true tags) in
    let s = all_flags-strchr false tags c name h in
    let n = no_flags-strchr true tags c k in
    (
      absent-set flag2tag q c one ∙ rw (a (strchr q.1 c)) (or_false _ ∙ s),
      absent-clear flag2tag q c one ∙ rw n (b (strchr q.0 c) ∙ ap not s),
    )

inverse_actions :
    (tags : List Bytes) (c : ℕ) (name : Bytes)
    → one_row c flag2tag ≡ true
    → ((tag : Bytes) → any_row true tag flag2tag c ≡ str_equal tag name)
    → ((tag : Bytes) → any_row false tag flag2tag c ≡ false)
    → ((found : Bool) → added false flag2tag found c ≡ false)
    → ((found : Bool) → added true flag2tag found c ≡ not found)
    → (strchr (_get_maildir_flag_actions tags).0 c ≡ not (mem_tag tags name))
      × (strchr (_get_maildir_flag_actions tags).1 c ≡ mem_tag tags name)
unfolding _get_maildir_flag_actions
inverse_actions tags c name one h k a b =
    let q : Bytes × Bytes = (all_tag_flags false tags, all_tag_flags true tags) in
    let s = all_flags-strchr true tags c name h in
    let n = no_flags-strchr false tags c k in
    (
      absent-set flag2tag q c one ∙ rw n (b (strchr q.1 c) ∙ ap not s),
      absent-clear flag2tag q c one ∙ rw (a (strchr q.0 c)) (or_false _ ∙ s),
    )

-- The flags that _new_maildir_filename writes for the tags of a message.
abbrev pub written_flags : FlagMap → List Bytes → Bytes
written_flags map tags =
    let (to_set, to_clear) = _get_maildir_flag_actions tags in
    flags_from 128 0 (new_flags map to_set to_clear).0

written_lem :
    (map : FlagMap) (tags : List Bytes) (c : ℕ) (b : Bool)
    → ltb c 128 ≡ true
    → strchr (_get_maildir_flag_actions tags).0 c ≡ b
    → strchr (_get_maildir_flag_actions tags).1 c ≡ not b
    → strchr (written_flags map tags) c ≡ b
unfolding new_flags
written_lem map tags c b l s n =
    flags_from-strchr 128 0 _ c
    ∙ rw
        (change_flags-value false (_get_maildir_flag_actions tags).1
          (change_flags true (_get_maildir_flag_actions tags).0 (map, false)) c)
        (rw (change_flags-value true (_get_maildir_flag_actions tags).0 (map, false) c)
          (rw s (rw n (pick b))))
  where
    pick :
        (b : Bool)
        → (leb 0 c && (ltb c (0 + 128) && (if not b then false else if b then true else map c))) ≡ b
    pick true = ground arith
    pick false = ground arith

not-not : (b : Bool) → not (not b) ≡ b
not-not true = refl
not-not false = refl

direct_written :
    (map : FlagMap) (tags : List Bytes) (c : ℕ) (name : Bytes)
    → ltb c 128 ≡ true
    → (strchr (_get_maildir_flag_actions tags).0 c ≡ mem_tag tags name)
      × (strchr (_get_maildir_flag_actions tags).1 c ≡ not (mem_tag tags name))
    → strchr (written_flags map tags) c ≡ mem_tag tags name
direct_written map tags c name l a = written_lem map tags c (mem_tag tags name) l a.0 a.1

inverse_written :
    (map : FlagMap) (tags : List Bytes) (c : ℕ) (name : Bytes)
    → ltb c 128 ≡ true
    → (strchr (_get_maildir_flag_actions tags).0 c ≡ not (mem_tag tags name))
      × (strchr (_get_maildir_flag_actions tags).1 c ≡ mem_tag tags name)
    → strchr (written_flags map tags) c ≡ not (mem_tag tags name)
inverse_written map tags c name l a =
    written_lem map tags c (not (mem_tag tags name)) l a.0 (a.1 ∙ sym (not-not (mem_tag tags name)))

-- Whatever flags a name had, the flags that are written for the tags of a message say of each tag
-- of the table, read as notmuch_message_maildir_flags_to_tags reads them, whether the message has
-- it.
pub wants-written_flags :
    (map : FlagMap) (tags : List Bytes)
    → All (λ r. wants (written_flags map tags) r ≡ mem_tag tags r.tag) flag2tag
wants-written_flags map tags = (
  direct_written map tags b'D' (codes "draft") refl (
      direct_actions tags b'D' (codes "draft") refl (λ t. ground arith) (λ t. ground arith)
        (λ b. refl) (λ b. refl)),
  (
    direct_written map tags b'F' (codes "flagged") refl (
        direct_actions tags b'F' (codes "flagged") refl (λ t. ground arith) (λ t. ground arith)
          (λ b. refl) (λ b. refl)),
    (
      direct_written map tags b'P' (codes "passed") refl (
          direct_actions tags b'P' (codes "passed") refl (λ t. ground arith) (λ t. ground arith)
            (λ b. refl) (λ b. refl)),
      (
        direct_written map tags b'R' (codes "replied") refl (
            direct_actions tags b'R' (codes "replied") refl (λ t. ground arith) (λ t. ground arith)
              (λ b. refl) (λ b. refl)),
        (
          ap not (
                inverse_written map tags b'S' (codes "unread") refl (
                  inverse_actions tags b'S' (codes "unread") refl (λ t. ground arith)
                    (λ t. ground arith) (λ b. refl) (λ b. refl)))
              ∙ not-not (mem_tag tags (codes "unread")),
          tt,
        ),
      ),
    ),
  ),
)
