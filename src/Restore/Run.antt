-- ===== src/Restore/Run.antt =====
-- notmuch-restore.c: the loop over the lines of a dump, and what the database holds afterwards.
use notmuch.Prelude.{
  ℕ, ◌≤◌, Bool, true, false, not, ◌||◌, Option, none, some, List, [], ◌∷◌, map, ◌==◌, if◌then◌else◌,
  length, ◌≡◌, ◌≢◌, refl, sym, ap, subst, ◌∙◌, arith, inl, inr, Bool-cases, Option-cases, All,
}
use notmuch.Prelude.Bytes.{Bytes, str_equal}
use notmuch.BooleanTerm.RoundTrip.{Grants}
use notmuch.Message.{mem_tag, Document, Status, success, Message, tag_max}
use notmuch.TagUtil.{TagOpList, TagFlags, count}
use notmuch.TagUtil.Apply.{tag_op_list_apply}
use notmuch.TagUtil.Apply.Effect.{effect}
use notmuch.TagUtil.Apply.Outcome.{Settled, tag_op_list_apply-Settled}
use notmuch.TagUtil.Apply.Total.{AllShort, tag_op_list_apply-success}
use notmuch.Dump.{batch_tag, Entry}
use notmuch.Dump.Text.{line_text}
use notmuch.Restore.{
  Database, open_message, update, tag_message, restore_lines, parse_line, parse_batch_line, tag_id,
  status_code,
}
use notmuch.Restore.Lines.{add, IsDumpable, parse_batch_line-line_text}

effect-add :
    (ts : List Bytes) (u : Bytes) (b : Bool) → effect (map add ts) u b ≡ (b || mem_tag ts u)
effect-add [] u b = ground arith
effect-add (t ∷ ts) u b = effect-add ts u (if str_equal t u then true else b) ∙ ground arith

-- The tags that the last entry of an id has.
abbrev pub last_tags : Bytes → List Entry → Option (List Bytes)
last_tags id [] = none
last_tags id (m ∷ ms) = elim (last_tags id ms) [
  | none ↦ if str_equal m.id id then some m.tags else none
  | some ts ↦ some ts
]

abbrev ShortTags : Entry → Type 0
ShortTags m = All (λ (t : Bytes). length t ≤ tag_max) m.tags

adds-AllShort :
    (ts : List Bytes) → All (λ (t : Bytes). length t ≤ tag_max) ts → AllShort (map add ts)
adds-AllShort [] h = tt
adds-AllShort (t ∷ ts) h = (h.0, adds-AllShort ts h.1)

if_true : {A : Type 0} (b c : Bool) (x y : A) → b ≡ true → (if b || c then x else y) ≡ x
if_true true c x y h = refl
if_true false c x y h = cc h

module _ (X : Document) where
  open X use {Doc, tag_list}

  -- A document that has exactly these tags.
  pub record HasTags (ts : List Bytes) (o : Option Doc) : Type 0 where
    pub doc : Doc
    pub found : o ≡ some doc
    pub each : (u : Bytes) → mem_tag (tag_list doc) u ≡ mem_tag ts u

  abbrev pub IsRestored : Option (List Bytes) → Option Doc → Option Doc → Type 0
  IsRestored none before after = after ≡ before
  IsRestored (some ts) before after = HasTags ts after

module _ {X : Document} where
  open X use {Doc, tag_list}

  -- A message that the database has and can open, with an entry that a dump can hold.
  pub record IsKnown (db : Database X) (m : Entry) : Type 0 where
    pub dumpable : IsDumpable m
    pub short : ShortTags m
    pub present : db.docs m.id ≢ none

  -- A database that is open for writing and finds its messages.
  pub record IsOpen (db : Database X) : Type 0 where
    pub writable : db.closed ≡ false
    pub finds : (id : Bytes) → db.fails id ≡ false

  Settled-tags :
      (ts : List Bytes) (m : Message X) (r : Status × Message X)
      → Settled (map add ts) true m r
      → r.0 ≡ success
      → (u : Bytes) → mem_tag (tag_list r.1.stored) u ≡ mem_tag ts u
  Settled-tags ts m r (inl (s, t, f)) e u = t u ∙ effect-add ts u false
  Settled-tags ts m r (inr (s, t)) e u = absurd (s e)

  module _ (to_maildir : Message X → Status × Message X) (flags : TagFlags)
      (ra : flags.remove_all ≡ true) (ms : flags.maildir_sync ≡ false) where
    -- One message: what tag_message returns, and the document that it leaves.
    pub record Updated (id : Bytes) (ts : List Bytes) (db : Database X) (r : ℕ × Database X)
        : Type 0 where
      pub new_doc : Doc
      pub result : r ≡ (0, update db id new_doc)
      pub new_tags : (u : Bytes) → mem_tag (tag_list new_doc) u ≡ mem_tag ts u

    tag_message-Updated :
        (id : Bytes) (ts : List Bytes) (list : TagOpList) (db : Database X) (d : Doc)
        → IsOpen db
        → db.docs id ≡ some d
        → list.ops ≡ map add ts
        → AllShort (map add ts)
        → Updated id ts db (tag_message to_maildir flags id list db)
    unfolding tag_message
    tag_message-Updated id ts list db d o e l a =
        let m = open_message db d in
        let r = tag_op_list_apply to_maildir list flags m in
        let ok : r.0 ≡ success =
          tag_op_list_apply-success to_maildir list flags m ms o.writable
            (subst AllShort (sym l) a) in
        let s0 =
          tag_op_list_apply-Settled to_maildir list flags m ms
            (record { clean = refl; unfrozen = refl }) in
        record {
          new_doc = r.1.stored;
          result = rw (o.finds id) (
              rw e (
                if_true flags.remove_all (not (count list == 0)) _ _ ra
                ∙ ap (λ st. (status_code st, update db id r.1.stored)) ok));
          new_tags =
              Settled-tags ts m r
                (subst (λ ops. Settled ops true m r) l (subst (λ b. Settled list.ops b m r) ra s0))
                ok;
        }

    update_docs :
        (db : Database X) (id j : Bytes) (d : Doc)
        → (update db id d).docs j ≡ (if str_equal id j then some d else db.docs j)
    update_docs db id j d = refl

    update-IsKnown :
        (db : Database X) (id : Bytes) (d : Doc) (es : List Entry)
        → All (IsKnown db) es
        → All (IsKnown (update db id d)) es
    update-IsKnown db id d [] h = tt
    update-IsKnown db id d (m ∷ es) (k, h) = (
      record { dumpable = k.dumpable; short = k.short; present = there },
      update-IsKnown db id d es h,
    )
      where
        there : (update db id d).docs m.id ≢ none
        there e = elim (Bool-cases (str_equal id m.id)) [
          | inl q ↦ cc (rw q at e)
          | inr q ↦ k.present (rw q at e)
        ]

    combine :
        (m : Entry) (es : List Entry) (db : Database X) (d : Doc) (after : Bytes → Option Doc)
        (j : Bytes)
        → ((u : Bytes) → mem_tag (tag_list d) u ≡ mem_tag m.tags u)
        → IsRestored X (last_tags j es) ((update db m.id d).docs j) (after j)
        → IsRestored X (last_tags j (m ∷ es)) (db.docs j) (after j)
    combine m es db d after j n h = go (last_tags j es) h
      where
        go :
            (o : Option (List Bytes))
            → IsRestored X o ((update db m.id d).docs j) (after j)
            → IsRestored X
                (elim o as (λ _. Option (List Bytes)) [
                  | none ↦ if str_equal m.id j then some m.tags else none
                  | some ts ↦ some ts
                ])
                (db.docs j)
                (after j)
        go (some ts) h = h
        go none h = elim (Bool-cases (str_equal m.id j)) [
          | inl q ↦ rw q (record { doc = d; found = rw q at h; each = n })
          | inr q ↦ rw q (rw q at h)
        ]

    restore_step :
        (alloc : ℕ → Bool) (line : Bytes) (lines : List Bytes) (list : TagOpList)
        (db db' : Database X) (id : Bytes)
        → (parse_line alloc batch_tag line list).0 ≡ tag_id id
        → tag_message to_maildir flags id (parse_line alloc batch_tag line list).1 db ≡ (0, db')
        → restore_lines alloc to_maildir flags batch_tag (line ∷ lines) list db
          ≡ restore_lines alloc to_maildir flags batch_tag lines
              (parse_line alloc batch_tag line list).1
              db'
    unfolding restore_lines
    restore_step alloc line lines list db db' id e t = rw (restore_lines, e) (rw t)

    -- Where every allocation is granted, without --accumulate and without maildir synchronisation, on
    -- a database that is open for writing, finds its messages and has all those of the dump, whose
    -- ids are text without a newline and whose tags are text of legal length: restoring the lines
    -- that notmuch dump writes for the entries in the batch format, read as that format, succeeds.
    -- Each message of the dump has then exactly the tags of its last entry, and every other message
    -- is as it was.
    pub restore_lines-IsRestored :
        (alloc : ℕ → Bool) (es : List Entry) (list : TagOpList) (db : Database X)
        → Grants alloc
        → IsOpen db
        → All (IsKnown db) es
        → let r =
            restore_lines alloc to_maildir flags batch_tag (map (line_text batch_tag) es) list db in
          (r.0 ≡ true) × ((j : Bytes) → IsRestored X (last_tags j es) (db.docs j) (r.1.docs j))
    unfolding restore_lines parse_line
    restore_lines-IsRestored alloc [] list db g o h = (refl, λ j. refl)
    restore_lines-IsRestored alloc (m ∷ es) list db g o (k, h) =
        let (act, ops) = parse_batch_line-line_text alloc m list g k.dumpable in
        let list' = (parse_batch_line alloc (line_text batch_tag m) list).1 in
        elim (Option-cases (db.docs m.id)) [
          | inl none_there ↦ absurd (k.present none_there)
          | inr (d, e) ↦
              let w =
                tag_message-Updated m.id m.tags list' db d o e ops (adds-AllShort m.tags k.short) in
              let db' = update db m.id w.new_doc in
              let (done, rest) =
                restore_lines-IsRestored alloc es list' db' g
                  (record { writable = o.writable; finds = o.finds })
                  (update-IsKnown db m.id w.new_doc es h) in
              rw
                (restore_step alloc (line_text batch_tag m) (map (line_text batch_tag) es) list db
                  db' m.id act w.result)
                (
                  done,
                  λ j.
                      combine m es db w.new_doc
                        (restore_lines alloc to_maildir flags batch_tag
                          (map (line_text batch_tag) es) list' db').1.docs
                        j w.new_tags (rest j),
                )
        ]
