-- ===== src/Message/Stored.antt =====
-- lib/message.cc: while a message is frozen its tags change and the database does not.
use notmuch.Prelude.{
  ◌+◌, ◌≤◌, ◌<◌, Bool, true, false, List, [], ◌∷◌, ltb, if◌then◌else◌, length, ◌≡◌, refl, sym, ap,
  ◌∙◌, arith, inl, inr, if_true, if_false, ==_ne, le→ltb, Bool-cases, Option-cases,
}
use notmuch.Prelude.Bytes.{Bytes, str_equal, str_equal_iff}
use notmuch.Message.{
  mem_tag, Document, Status, success, read_only_database, tag_too_long, tag_max, Message, tags,
  sync, sync_unless_frozen, add_tag_term, remove_tag_term, add_tag, remove_tag, remove_terms,
  remove_all_tags, freeze, thaw,
}

module _ {X : Document} where
  open X use {Doc, tag_list, add_term, remove_term, tags-add_term, tags-remove_term, remove_absent}

  -- A message that is not marked as modified is as the database holds it.
  abbrev pub IsSynced : Message X → Type 0
  IsSynced m = m.modified ≡ false → m.doc ≡ m.stored

  -- From `m` to `n` the database and the freeze count stay, and the mark stays truthful.
  pub record KeepsStored (m n : Message X) : Type 0 where
    pub stored : n.stored ≡ m.stored
    pub frozen : n.frozen ≡ m.frozen
    pub read_only : n.read_only ≡ m.read_only
    pub synced : IsSynced m → IsSynced n

  pub KeepsStored-refl : (m : Message X) → KeepsStored m m
  KeepsStored-refl m = record { stored = refl; frozen = refl; read_only = refl; synced = λ h. h }

  pub KeepsStored-trans : {m n o : Message X} → KeepsStored m n → KeepsStored n o → KeepsStored m o
  KeepsStored-trans a b = record {
    stored = b.stored ∙ a.stored;
    frozen = b.frozen ∙ a.frozen;
    read_only = b.read_only ∙ a.read_only;
    synced = λ h. b.synced (a.synced h);
  }

  pub add_tag_term-KeepsStored : (m : Message X) (t : Bytes) → KeepsStored m (add_tag_term m t)
  unfolding add_tag_term
  add_tag_term-KeepsStored m t = record {
    stored = refl;
    frozen = refl;
    read_only = refl;
    synced = λ h e. cc e;
  }

  pub remove_tag_term-KeepsStored :
      (m : Message X) (t : Bytes) → KeepsStored m (remove_tag_term m t)
  unfolding remove_tag_term
  remove_tag_term-KeepsStored m t = elim (Option-cases (remove_term t m.doc)) [
    | inl e ↦ rw (e, remove_tag_term) (KeepsStored-refl m)
    | inr (d, e) ↦
        rw (e, remove_tag_term)
          (record { stored = refl; frozen = refl; read_only = refl; synced = λ h x. cc x })
  ]

  pub tags-add_tag_term :
      (m : Message X) (t u : Bytes)
      → mem_tag (tags (add_tag_term m t)) u ≡ (if str_equal t u then true else mem_tag (tags m) u)
  unfolding add_tag_term
  tags-add_tag_term m t u = ground (arith, tags-add_term t u m.doc)

  pub tags-remove_tag_term :
      (m : Message X) (t u : Bytes)
      → mem_tag (tags (remove_tag_term m t)) u
        ≡ (if str_equal t u then false else mem_tag (tags m) u)
  unfolding remove_tag_term
  tags-remove_tag_term m t u = elim (Option-cases (remove_term t m.doc)) [
    | inl e ↦
        rw (e, remove_tag_term)
          (elim (Bool-cases (str_equal t u)) [
            | inl same ↦ rw same (
                ap (mem_tag (tag_list m.doc)) (sym ((str_equal_iff t u).0 same))
                ∙ remove_absent t m.doc e)
            | inr other ↦ rw other
          ])
    | inr (d, e) ↦ rw (e, remove_tag_term) (tags-remove_term t u m.doc d e)
  ]

  remove_terms-KeepsStored : (ts : List Bytes) (m : Message X) → KeepsStored m (remove_terms ts m)
  unfolding remove_terms
  remove_terms-KeepsStored [] m = KeepsStored-refl m
  remove_terms-KeepsStored (t ∷ ts) m =
      KeepsStored-trans (remove_tag_term-KeepsStored m t)
        (remove_terms-KeepsStored ts (remove_tag_term m t))

  tags-remove_terms :
      (ts : List Bytes) (m : Message X) (u : Bytes)
      → mem_tag (tags (remove_terms ts m)) u ≡ (if mem_tag ts u then false else mem_tag (tags m) u)
  unfolding remove_terms
  tags-remove_terms [] m u = refl
  tags-remove_terms (t ∷ ts) m u =
      ground (arith, tags-remove_terms ts (remove_tag_term m t) u, tags-remove_tag_term m t u)

  still_frozen : {m n : Message X} → KeepsStored m n → 0 < m.frozen → sync_unless_frozen n ≡ n
  still_frozen {m} {n} k h = rw (==_ne n.frozen 0 (omega (arith, k.frozen)))

  -- What a call on a frozen message leaves: the message, where it is refused, or `n`.
  record Outcome (m n : Message X) (r : Status × Message X) : Type 0 where
    keeps : KeepsStored m r.1
    done : r.0 ≡ success → r.1 ≡ n

  outcome :
      (m n : Message X) (closed long : Bool)
      → KeepsStored m n
      → Outcome m n (
          if closed
          then (read_only_database, m)
          else if long
          then (tag_too_long, m)
          else (success, n))
  outcome m n true long k = record { keeps = KeepsStored-refl m; done = λ x. cc x }
  outcome m n false true k = record { keeps = KeepsStored-refl m; done = λ x. cc x }
  outcome m n false false k = record { keeps = k; done = λ _. refl }

  module _ (m : Message X) (t : Bytes) (h : 0 < m.frozen) where
    add_tag-Outcome : Outcome m (add_tag_term m t) (add_tag m t)
    unfolding add_tag
    add_tag-Outcome =
        let k = add_tag_term-KeepsStored m t in
        rw (still_frozen k h) (outcome m (add_tag_term m t) m.read_only (ltb tag_max (length t)) k)

    remove_tag-Outcome : Outcome m (remove_tag_term m t) (remove_tag m t)
    unfolding remove_tag
    remove_tag-Outcome =
        let k = remove_tag_term-KeepsStored m t in
        rw (still_frozen k h)
          (outcome m (remove_tag_term m t) m.read_only (ltb tag_max (length t)) k)

    pub add_tag-KeepsStored : KeepsStored m (add_tag m t).1
    add_tag-KeepsStored = add_tag-Outcome.keeps

    pub remove_tag-KeepsStored : KeepsStored m (remove_tag m t).1
    remove_tag-KeepsStored = remove_tag-Outcome.keeps

    pub tags-add_tag :
        (u : Bytes)
        → (add_tag m t).0 ≡ success
        → mem_tag (tags (add_tag m t).1) u ≡ (if str_equal t u then true else mem_tag (tags m) u)
    tags-add_tag u e =
        ap (λ n. mem_tag (tags n) u) (add_tag-Outcome.done e) ∙ tags-add_tag_term m t u

    pub tags-remove_tag :
        (u : Bytes)
        → (remove_tag m t).0 ≡ success
        → mem_tag (tags (remove_tag m t).1) u
          ≡ (if str_equal t u then false else mem_tag (tags m) u)
    tags-remove_tag u e =
        ap (λ n. mem_tag (tags n) u) (remove_tag-Outcome.done e) ∙ tags-remove_tag_term m t u

  -- A writable database refuses no tag of legal length.
  pub add_tag-success :
      (m : Message X) (t : Bytes)
      → m.read_only ≡ false
      → length t ≤ tag_max
      → (add_tag m t).0 ≡ success
  unfolding add_tag
  add_tag-success m t h l = rw h (rw (le→ltb (length t) tag_max l))

  pub remove_tag-success :
      (m : Message X) (t : Bytes)
      → m.read_only ≡ false
      → length t ≤ tag_max
      → (remove_tag m t).0 ≡ success
  unfolding remove_tag
  remove_tag-success m t h l = rw h (rw (le→ltb (length t) tag_max l))

  pub remove_all_tags-frozen :
      (m : Message X)
      → 0 < m.frozen
      → m.read_only ≡ false
      → KeepsStored m (remove_all_tags m).1
        × ((remove_all_tags m).0 ≡ success)
        × ((u : Bytes) → mem_tag (tags (remove_all_tags m).1) u ≡ false)
  unfolding remove_all_tags
  remove_all_tags-frozen m h r =
      let k = remove_terms-KeepsStored (tags m) m in
      rw (still_frozen k h) (simp r (k, refl, λ u. ground (arith, tags-remove_terms (tags m) m u)))

  -- What thawing does with the last freeze: the database holds the document as it is now.
  pub thaw_last :
      (m : Message X)
      → m.frozen ≡ 1
      → m.read_only ≡ false
      → IsSynced m
      → ((thaw m).0 ≡ success)
        × ((thaw m).1.frozen ≡ 0)
        × ((thaw m).1.doc ≡ m.doc)
        × ((thaw m).1.stored ≡ m.doc)
  unfolding thaw sync
  thaw_last m f r s = ground arith

  pub freeze_writable :
      (m : Message X)
      → m.read_only ≡ false
      → freeze m ≡ (success, record m { frozen = m.frozen + 1 })
  unfolding freeze
  freeze_writable m e = if_false m.read_only _ _ e

  pub freeze_refused : (m : Message X) → m.read_only ≡ true → freeze m ≡ (read_only_database, m)
  unfolding freeze
  freeze_refused m e = if_true m.read_only _ _ e

  pub thaw_success : (m : Message X) → 0 < m.frozen → m.read_only ≡ false → (thaw m).0 ≡ success
  unfolding thaw
  thaw_success m h r = ground arith
