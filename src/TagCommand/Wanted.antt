-- ===== src/TagCommand/Wanted.antt =====
-- notmuch-tag.c: what the optimised query asks for, and why the messages that it leaves out need no
-- change.
use notmuch.Prelude.{
  ℕ, Bool, true, false, not, ◌&&◌, ◌||◌, Option, some, List, [], ◌∷◌, ◌++◌, append_assoc, ◌==◌,
  if◌then◌else◌, ◌≡◌, ◌≢◌, ◌⊎◌, Bool-cases, refl, sym, ap, ◌∙◌, arith, inl, inr,
}
use notmuch.Prelude.Bytes.{Bytes, codes, str_equal, str_equal_iff}
use notmuch.BooleanTerm.{term_text}
use notmuch.BooleanTerm.RoundTrip.{Grants}
use notmuch.Message.{mem_tag}
use notmuch.TagUtil.{TagOperation, TagOpList, count}
use notmuch.TagUtil.Apply.Effect.{effect}
use notmuch.TagCommand.{not_text, start_text, _optimize_tag_query}
use notmuch.TagCommand.Query.{terms_text, _optimize_tag_query-text}

-- A condition on the tags of a message, in the query language.
pub data Literal : Type 0 where
  has lacks : Bytes → Literal

-- A query: any of the conditions, or the user's query and any of them.
pub data Query : Type 0 where
  any_of with_user : List Literal → Query

-- How the query language writes them.
abbrev pub literal_text : Literal → Bytes
literal_text (has tag) = term_text (some (codes "tag")) tag
literal_text (lacks tag) = codes "not " ++ term_text (some (codes "tag")) tag

abbrev pub or_text : List Literal → Bytes
or_text [] = codes ")"
or_text (l ∷ ls) = codes " or " ++ (literal_text l ++ or_text ls)

abbrev pub any_text : List Literal → Bytes
any_text [] = codes ")"
any_text (l ∷ ls) = literal_text l ++ or_text ls

abbrev pub query_syntax : Bytes → Query → Bytes
query_syntax user (any_of ls) = codes "(" ++ any_text ls
query_syntax user (with_user ls) = codes "( " ++ (user ++ (codes " ) and (" ++ any_text ls))

-- Whether it finds a message with these tags; `found` says whether the user's query does.
abbrev pub holds : List Bytes → Literal → Bool
holds ts (has tag) = mem_tag ts tag
holds ts (lacks tag) = not (mem_tag ts tag)

abbrev pub any_holds : List Bytes → List Literal → Bool
any_holds ts [] = false
any_holds ts (l ∷ ls) = holds ts l || any_holds ts ls

abbrev pub finds : Query → Bool → List Bytes → Bool
finds (any_of ls) found ts = any_holds ts ls
finds (with_user ls) found ts = found && any_holds ts ls

-- Whether the operation by itself would change the tags of a message.
abbrev pub Changes : TagOperation → List Bytes → Type 0
Changes op ts = effect (op ∷ []) op.tag (mem_tag ts op.tag) ≢ mem_tag ts op.tag

abbrev pub SomeChanges : List TagOperation → List Bytes → Type 0
SomeChanges [] ts = ⊥
SomeChanges (op ∷ ops) ts = Changes op ts ⊎ SomeChanges ops ts

-- What a query asks for is what the operations are for: of the messages of the user's query, those
-- that an operation by itself would change. All operations together change no other of them.
pub record Asks (user : Bytes) (ops : List TagOperation) (text : Option Bytes) : Type 0 where
  pub query : Query
  pub written : text ≡ some (query_syntax user query)
  pub found :
      (found : Bool) (ts : List Bytes)
      → finds query found ts ≡ true
      → ((user ≡ codes "*") ⊎ (found ≡ true)) × SomeChanges ops ts
  pub not_found :
      (found : Bool) (ts : List Bytes)
      → (user ≡ codes "*") ⊎ (found ≡ true)
      → finds query found ts ≡ false
      → (u : Bytes) → effect ops u (mem_tag ts u) ≡ mem_tag ts u

literal : TagOperation → Literal
literal op = if op.remove then has op.tag else lacks op.tag

literals : List TagOperation → List Literal
literals [] = []
literals (op ∷ ops) = literal op ∷ literals ops

literal_text-literal :
    (op : TagOperation)
    → not_text op.remove ++ term_text (some (codes "tag")) op.tag ≡ literal_text (literal op)
unfolding literal
literal_text-literal op = elim (Bool-cases op.remove) [ inl e ↦ rw e refl | inr e ↦ rw e refl ]

append_op :
    (op : TagOperation) (rest : Bytes)
    → not_text op.remove ++ (term_text (some (codes "tag")) op.tag ++ rest)
      ≡ literal_text (literal op) ++ rest
append_op op rest =
    sym (append_assoc (not_text op.remove) (term_text (some (codes "tag")) op.tag) rest)
    ∙ ap (λ x. x ++ rest) (literal_text-literal op)

terms_text-or : (ops : List TagOperation) → terms_text false ops ≡ or_text (literals ops)
unfolding literals
terms_text-or [] = refl
terms_text-or (op ∷ ops) =
    ap (λ x. codes " or " ++ x)
      (append_op op (terms_text false ops)
        ∙ ap (λ x. literal_text (literal op) ++ x) (terms_text-or ops))

terms_text-any : (ops : List TagOperation) → terms_text true ops ≡ any_text (literals ops)
unfolding literals
terms_text-any [] = refl
terms_text-any (op ∷ ops) =
    append_op op (terms_text false ops)
    ∙ ap (λ x. literal_text (literal op) ++ x) (terms_text-or ops)

holds-Changes : (op : TagOperation) (ts : List Bytes) → holds ts (literal op) ≡ true → Changes op ts
unfolding literal
holds-Changes op ts h e = elim (Bool-cases op.remove) [
  | inl r ↦ absurd (ground (arith, h, e, r, str_equal_iff op.tag op.tag))
  | inr r ↦ absurd (ground (arith, h, e, r, str_equal_iff op.tag op.tag))
]

any_holds-SomeChanges :
    (ops : List TagOperation) (ts : List Bytes)
    → any_holds ts (literals ops) ≡ true
    → SomeChanges ops ts
unfolding literals
any_holds-SomeChanges [] ts h = ground arith
any_holds-SomeChanges (op ∷ ops) ts h = elim (Bool-cases (holds ts (literal op))) [
  | inl e ↦ inl (holds-Changes op ts e)
  | inr e ↦ inr (any_holds-SomeChanges ops ts (ground (arith, h, e)))
]

-- The operations change no tag of a message for which no condition holds.
effect-none_holds :
    (ops : List TagOperation) (ts : List Bytes) (u : Bytes)
    → any_holds ts (literals ops) ≡ false
    → effect ops u (mem_tag ts u) ≡ mem_tag ts u
unfolding literals literal
effect-none_holds [] ts u h = refl
effect-none_holds (op ∷ ops) ts u h =
    ground (arith, h, str_equal_iff op.tag u, effect-none_holds ops ts u)

asked : Bytes → List TagOperation → Query
asked user ops =
    if str_equal user (codes "*") then any_of (literals ops) else with_user (literals ops)

asked-text :
    (user : Bytes) (ops : List TagOperation)
    → start_text user ++ terms_text true ops ≡ query_syntax user (asked user ops)
unfolding asked
asked-text user ops = elim (Bool-cases (str_equal user (codes "*"))) [
  | inl e ↦ rw (e, terms_text-any ops) refl
  | inr e ↦
      rw (e, terms_text-any ops)
        (ap (λ x. codes "( " ++ x) (append_assoc user (codes " ) and (") (any_text (literals ops))))
]

-- Where every allocation is granted and there is an operation, _optimize_tag_query returns a query
-- in the language's notation. It finds, of the messages that the user's query finds, or of all
-- messages where that is "*", only such as some operation by itself would change, and of those that
-- it does not find the operations in their order change no tag.
pub _optimize_tag_query-Asks :
    (alloc : ℕ → Bool) (query : Bytes) (list : TagOpList)
    → Grants alloc
    → (count list == 0) ≡ false
    → Asks query list.ops (_optimize_tag_query alloc query list)
unfolding asked
_optimize_tag_query-Asks alloc query list g c = record {
  query = asked query list.ops;
  written = _optimize_tag_query-text alloc g query list c ∙ ap some (asked-text query list.ops);
  found = λ found ts h. elim (Bool-cases (str_equal query (codes "*"))) [
    | inl e ↦
        (inl ((str_equal_iff query (codes "*")).0 e), any_holds-SomeChanges list.ops ts (rw e at h))
    | inr e ↦
        let h' : (found && any_holds ts (literals list.ops)) ≡ true = rw e at h in
        (inr (ground (arith, h')), any_holds-SomeChanges list.ops ts (ground (arith, h')))
  ];
  not_found = λ found ts s h u. elim (Bool-cases (str_equal query (codes "*"))) [
    | inl e ↦ effect-none_holds list.ops ts u (rw e at h)
    | inr e ↦
        let h' : (found && any_holds ts (literals list.ops)) ≡ false = rw e at h in
        elim s [
          | inl star ↦ absurd (ground (arith, e, (str_equal_iff query (codes "*")).1 star))
          | inr f ↦ effect-none_holds list.ops ts u (ground (arith, h', f))
        ]
  ];
}
