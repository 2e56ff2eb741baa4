-- ===== src/Tests/Tags.antt =====
-- tag-util.c and lib/message.cc at concrete inputs, with a list of tags for the Xapian document.
use notmuch.Prelude.{
  ℕ, ◌≢◌, Bool, true, false, none, some, List, [], ◌∷◌, ◌++◌, ◌≡◌, refl, arith, if◌then◌else◌, All,
}
use notmuch.Prelude.Bytes.{Bytes, codes, str_equal, str_equal_iff}
use notmuch.Message.{
  mem_tag, Document, Status, Message, add_tag, remove_tag, add_tag_term, remove_tag_term, freeze,
  thaw, sync,
}
use notmuch.TagUtil.{
  illegal_tag, TagOpList, TagFlags, success, no_fuel, tag_op_list_create, parse_tag_line,
}
use notmuch.TagUtil.OpList.{IsValid}
use notmuch.TagUtil.Lines.{parse_tag_line-ne-no_fuel}
use notmuch.TagUtil.Documented.{parse_tag_line-documented}
use notmuch.TagUtil.Documented.Form.{Token, Coded, Marker, tokens_text, marked, ops_of, IsToken}
use notmuch.TagUtil.Apply.{
  makes_changes, any_deleted, any_added, deletes, find_op, apply_op, apply_ops, remove_all_if,
  write_ops, tag_op_list_apply,
}
use notmuch.TagUtil.Apply.Effect.{effect, makes_changes_sound}
use notmuch.TagUtil.Apply.Outcome.{Settled, tag_op_list_apply-Settled}
use notmuch.TagUtil.Apply.Total.{tag_op_list_apply-success}

abbrev pub without : Bytes → List Bytes → List Bytes
without t [] = []
without t (x ∷ xs) = let rest = without t xs in if str_equal x t then rest else x ∷ rest

mem-without :
    (t u : Bytes) (xs : List Bytes)
    → mem_tag (without t xs) u ≡ (if str_equal t u then false else mem_tag xs u)
mem-without t u [] = ground arith
mem-without t u (x ∷ xs) =
    ground (arith, mem-without t u xs, str_equal_iff x t, str_equal_iff x u, str_equal_iff t u)

pub tags-remove :
    (t u : Bytes) (d d' : List Bytes)
    → (if mem_tag d t then some (without t d) else none) ≡ some d'
    → mem_tag d' u ≡ (if str_equal t u then false else mem_tag d u)
tags-remove t u d d' h = ground (arith, mem-without t u d)

pub remove-absent :
    (t : Bytes) (d : List Bytes)
    → (if mem_tag d t then some (without t d) else none) ≡ none
    → mem_tag d t ≡ false
remove-absent t d h = ground arith

abbrev pub lists : Document
lists = record {
  Doc = List Bytes;
  tag_list = λ d. d;
  add_term = λ t d. t ∷ d;
  remove_term = λ t d. if mem_tag d t then some (without t d) else none;
  tags-add_term = λ t u d. refl;
  tags-remove_term = tags-remove;
  remove_absent = remove-absent;
}

abbrev pub inbox : Bytes
inbox = codes "inbox"

abbrev pub done : Bytes
done = codes "done"

abbrev pub message : Message lists
message = record {
  doc = inbox ∷ [];
  stored = inbox ∷ [];
  modified = false;
  frozen = 0;
  read_only = false;
}

abbrev pub archive : TagOpList
archive = record {
  ops = record { tag = inbox; remove = true } ∷ record { tag = done; remove = false } ∷ [];
  size = 10;
  lost = false;
}

abbrev pub plain : TagFlags
plain = record {
  maildir_sync = false;
  remove_all = false;
  pre_optimized = false;
  be_generous = false;
}

abbrev pub no_maildir : Message lists → Status × Message lists
no_maildir m = (Status.success, m)

archived : (tag_op_list_apply no_maildir archive plain message).1.stored ≡ done ∷ []
unfolding tag_op_list_apply write_ops makes_changes any_deleted any_added deletes find_op apply_ops
    apply_op remove_all_if freeze thaw sync add_tag remove_tag add_tag_term remove_tag_term
archived = refl

tag_op_list_apply-Settled_example :
    Settled archive.ops false message (tag_op_list_apply no_maildir archive plain message)
tag_op_list_apply-Settled_example =
    tag_op_list_apply-Settled no_maildir archive plain message refl
      (record { clean = refl; unfrozen = refl })

tag_op_list_apply-success_example :
    (tag_op_list_apply no_maildir archive plain message).0 ≡ Status.success
tag_op_list_apply-success_example =
    tag_op_list_apply-success no_maildir archive plain message refl refl
      (omega arith, (omega arith, tt))

-- Adding a tag that is there.
abbrev again : TagOpList
again = record { ops = record { tag = inbox; remove = false } ∷ []; size = 10; lost = false }

no_change : makes_changes (inbox ∷ done ∷ []) again plain ≡ false
unfolding makes_changes any_deleted any_added deletes find_op
no_change = refl

makes_changes_sound_example : effect again.ops inbox true ≡ mem_tag (inbox ∷ done ∷ []) inbox
makes_changes_sound_example = makes_changes_sound (inbox ∷ done ∷ []) again plain inbox no_change

abbrev grants : ℕ → Bool
grants n = true

abbrev empty : TagOpList
empty = record { ops = []; size = 10; lost = false }

create : tag_op_list_create grants ≡ some empty
unfolding tag_op_list_create
create = refl

archive-IsValid : IsValid archive
archive-IsValid = record { held = refl; within = omega arith; initial = omega arith }

parse_tag_line-ne-no_fuel_example :
    (parse_tag_line grants plain (codes "+inbox -- id:1") empty).status ≢ no_fuel
parse_tag_line-ne-no_fuel_example =
    parse_tag_line-ne-no_fuel grants plain (codes "+inbox -- id:1") empty

-- The line ` +a%20b   -c id:1`, with an encoded blank, three blanks and no end marker.
abbrev tokens : List Token
tokens =
    record {
      remove = false;
      tag = Coded.plain b'a' ∷ Coded.escaped b'2' b'0' ∷ Coded.plain b'b' ∷ [];
      gap = 2;
    }
    ∷ record { remove = true; tag = Coded.plain b'c' ∷ []; gap = 0 }
    ∷ []

documented_text :
    codes " " ++ tokens_text tokens (marked Marker.no_marker (codes "id:1"))
    ≡ codes " +a%20b   -c id:1"
documented_text = refl

tokens-IsToken : All (IsToken plain) tokens
unfolding illegal_tag
tokens-IsToken = (
  record { coded = (refl, ((refl, omega arith), (refl, tt))); no_marker = refl; legal = λ _. refl },
  (record { coded = (refl, tt); no_marker = refl; legal = λ _. refl }, tt),
)

parse_tag_line-documented_example :
    let r =
      parse_tag_line grants plain
        ((codes " " ++ tokens_text tokens (marked Marker.no_marker (codes "id:1"))) ++ 10 ∷ [])
        empty in
    (r.status ≡ success) × (r.query ≡ some (codes "id:1")) × (r.list.ops ≡ ops_of tokens)
parse_tag_line-documented_example =
    parse_tag_line-documented grants plain (λ n. refl) (codes " ") (codes "id:1") tokens
      Marker.no_marker empty (refl, tt) tokens-IsToken (λ x. cc x, refl) refl
