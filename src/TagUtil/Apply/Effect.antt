-- ===== src/TagUtil/Apply/Effect.antt =====
-- tag-util.c: what a list of tag operations does to each tag, and when makes_changes may say no.
use mathlib.Core.List.{reverse, reverse-cons}
use notmuch.Prelude.{
  Bool, true, false, not, Option, none, some, List, [], ◌∷◌, ◌++◌, if◌then◌else◌, ◌≡◌, refl, ◌∙◌,
  arith, inl, inr, Bool-cases,
}
use notmuch.Prelude.Bytes.{Bytes, str_equal, str_equal_iff}
use notmuch.Message.{mem_tag}
use notmuch.TagUtil.{TagOperation, TagOpList, TagFlags}
use notmuch.TagUtil.Apply.{find_op, deletes, any_deleted, any_added, makes_changes}

-- Whether tag `u` is there once the operations have run in order, from whether it was there.
abbrev pub effect : List TagOperation → Bytes → Bool → Bool
effect [] u b = b
effect (op ∷ ops) u b = effect ops u (if str_equal op.tag u then not op.remove else b)

str_equal_comm : (a b : Bytes) → str_equal a b ≡ str_equal b a
str_equal_comm a b = ground (arith, str_equal_iff a b, str_equal_iff b a)

abbrev or_else : Option Bool → Option Bool → Option Bool
or_else none o = o
or_else (some r) o = some r

find_op-append :
    (u : Bytes) (xs ys : List TagOperation)
    → find_op u (xs ++ ys) ≡ or_else (find_op u xs) (find_op u ys)
unfolding find_op
find_op-append u [] ys = refl
find_op-append u (x ∷ xs) ys = ground (arith, find_op-append u xs ys)

-- The backward scan finds the operation that decides.
abbrev decide : Bool → Option Bool → Bool
decide b none = b
decide b (some r) = not r

effect-find_op :
    (ops : List TagOperation) (u : Bytes) (b : Bool)
    → effect ops u b ≡ decide b (find_op u (reverse ops))
effect-find_op [] u b = unfold find_op in refl
effect-find_op (op ∷ ops) u b =
    rw (reverse-cons, find_op-append u (reverse ops) (op ∷ []))
      (effect-find_op ops u (if str_equal op.tag u then not op.remove else b)
        ∙ last (find_op u (reverse ops)))
  where
    last :
        (o : Option Bool)
        → decide (if str_equal op.tag u then not op.remove else b) o
          ≡ decide b (or_else o (find_op u (op ∷ [])))
    last none = unfold find_op in ground (arith, str_equal_comm op.tag u)
    last (some r) = refl

any_deleted-mem :
    (ra : Bool) (ops : List TagOperation) (ts : List Bytes) (u : Bytes)
    → any_deleted ra ops ts ≡ false
    → mem_tag ts u ≡ true
    → deletes ra ops u ≡ false
unfolding any_deleted
any_deleted-mem ra ops [] u h m = cc m
any_deleted-mem ra ops (t ∷ ts) u h m =
    ground (arith, str_equal_iff t u, any_deleted-mem ra ops ts u)

any_added-absent :
    (ops : List TagOperation) (ts : List Bytes) (u : Bytes)
    → any_added ops ts ≡ false
    → mem_tag ts u ≡ false
    → effect ops u false ≡ false
unfolding any_added
any_added-absent [] ts u h m = refl
any_added-absent (op ∷ ops) ts u h m =
    ground (arith, str_equal_iff op.tag u, any_added-absent ops ts u)

no_loop :
    (ts : List Bytes) (list : TagOpList) (flags : TagFlags)
    → makes_changes ts list flags ≡ false
    → (any_deleted flags.remove_all list.ops ts ≡ false) × (any_added list.ops ts ≡ false)
unfolding makes_changes
no_loop ts list flags h = ground arith

kept_tag :
    (ra : Bool) (ops : List TagOperation) (u : Bytes)
    → deletes ra ops u ≡ false
    → effect ops u (if ra then false else true) ≡ true
unfolding deletes
kept_tag ra ops u h = ground (arith, effect-find_op ops u (if ra then false else true))

if_same :
    (ra : Bool) (ops : List TagOperation) (u : Bytes)
    → effect ops u false ≡ false
    → effect ops u (if ra then false else false) ≡ false
if_same true ops u h = h
if_same false ops u h = h

-- Where makes_changes says no, the operations, after the removal of all tags if that is asked
-- for, leave every tag as it is.
pub makes_changes_sound :
    (ts : List Bytes) (list : TagOpList) (flags : TagFlags) (u : Bytes)
    → makes_changes ts list flags ≡ false
    → effect list.ops u (if flags.remove_all then false else mem_tag ts u) ≡ mem_tag ts u
unfolding makes_changes
makes_changes_sound ts list flags u h =
    let (kept, fresh) = no_loop ts list flags h in
    elim (Bool-cases (mem_tag ts u)) [
      | inl m ↦ rw m (
          kept_tag flags.remove_all list.ops u
            (any_deleted-mem flags.remove_all list.ops ts u kept m))
      | inr m ↦ rw m (if_same flags.remove_all list.ops u (any_added-absent list.ops ts u fresh m))
    ]
