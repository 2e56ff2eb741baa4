-- ===== src/TagUtil/OpList.antt =====
-- tag-util.c: the array of tag operations and its growth.
use notmuch.Prelude.{
  ℕ, ◌+◌, ◌*◌, ◌≤◌, length, length-append, Bool, true, false, some, List, [], ◌∷◌, ◌++◌, ◌≡◌, ◌⊎◌,
  arith, Bool-cases,
}
use notmuch.Prelude.Bytes.{Bytes}
use notmuch.TagUtil.{TagOperation, TagOpList, count, tag_op_list_create, tag_op_list_append}

-- The array is there and has room for the entries in use; it never shrinks below its first size.
pub record IsValid (l : TagOpList) : Type 0 where
  pub held : l.lost ≡ false
  pub within : count l ≤ l.size
  pub initial : 10 ≤ l.size

-- A list that tag_op_list_create returns is valid and has no operations.
pub tag_op_list_create-IsValid :
    (alloc : ℕ → Bool) (l : TagOpList)
    → tag_op_list_create alloc ≡ some l
    → IsValid l × (l.ops ≡ [])
unfolding tag_op_list_create
tag_op_list_create-IsValid alloc l h = ground arith

length-concat :
    (ops : List TagOperation) (op : TagOperation) → length (ops ++ op ∷ []) ≡ length ops + 1
length-concat ops op = length-append ops (op ∷ [])

-- On a valid list, tag_op_list_append writes the new operation behind the others, within an array
-- that stays valid, and returns 0; or the array was full and the allocator has refused to double
-- it, the operations in the list are those from before and the array is lost.
pub tag_op_list_append_outcome :
    (alloc : ℕ → Bool) (l : TagOpList) (tag : Bytes) (remove : Bool)
    → IsValid l
    → let r = tag_op_list_append alloc l tag remove in
      ((r.0 ≡ true)
        × IsValid r.1
        × (r.1.ops ≡ l.ops ++ record { tag = tag; remove = remove } ∷ [])
        × (count r.1 ≡ count l + 1))
      ⊎ ((r.0 ≡ false)
          × (alloc (l.size * 2) ≡ false)
          × (count l ≡ l.size)
          × (r.1.ops ≡ l.ops)
          × (r.1.lost ≡ true))
unfolding tag_op_list_append
tag_op_list_append_outcome alloc l tag remove v = ground (
  arith,
  length-concat l.ops (record { tag = tag; remove = remove }),
  Bool-cases (alloc (l.size * 2)),
)

-- Where every allocation is granted, the append succeeds.
pub append_granted :
    (alloc : ℕ → Bool) (l : TagOpList) (tag : Bytes) (remove : Bool)
    → ((n : ℕ) → alloc n ≡ true)
    → ((tag_op_list_append alloc l tag remove).0 ≡ true)
      × ((tag_op_list_append alloc l tag remove).1.ops
          ≡ l.ops ++ record { tag = tag; remove = remove } ∷ [])
unfolding tag_op_list_append
append_granted alloc l tag remove g = ground (arith, g (l.size * 2))
