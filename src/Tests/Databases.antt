-- ===== src/Tests/Databases.antt =====
-- lib/database.cc at concrete inputs, with lists for the Xapian database.
use Prim.Native.String.{String}
use notmuch.Prelude.{
  or_false, ℕ, Bool, true, false, ◌||◌, Option, none, some, List, [], ◌∷◌, ◌≡◌, ◌==◌, refl, arith,
  if◌then◌else◌, All, ◌≤◌, inl, inr, subst, Option-cases, Bool-cases, ==_iff, ap, sym, ◌∙◌,
}
use notmuch.Prelude.Bytes.{Bytes, codes, str_equal, str_equal_iff}
use notmuch.Message.{mem_tag}
use notmuch.Threads.{Notmuch, Entry, Outcome, Prefix, thread, id_term}
use mathlib.Core.Option.{some-injective, none-ne-some}
use notmuch.Database.{success}
use notmuch.Database.Sections.{Program, done, change, section, run, idle, run-idle}
use notmuch.Database.Paths.{split_path, relative_path}
use notmuch.Database.Paths.Split.{split_path_lem}
use notmuch.Database.Features.{parse_features, print_features}
use notmuch.Database.Features.RoundTrip.{parse_features-print_features}
use notmuch.Threads.Link.{link_message, merge_threads}
use notmuch.Threads.Merge.{merge_label, merge_threads-Step}
use notmuch.Threads.Entries.{SameEntry}
use notmuch.Threads.State.{Returns, WellFormed, HasThread, HasId, Step, Leaves}
use notmuch.Threads.Linked.{Linked, Member}
use notmuch.Threads.Add.{References, add_document}
use notmuch.Threads.Add.Added.{Added}
use notmuch.Threads.{add_term, reference}
use notmuch.Threads.Linking.{link_message-Linked}
use notmuch.Tests.Listed.{Terms, values_of, find_doc, listed_db}

abbrev message_of : String → String → Terms
message_of message_id t =
    (Prefix.type_term, codes "mail") ∷ (id_term, codes message_id) ∷ (thread, codes t) ∷ []

-- Two messages in two threads.
abbrev two_threads : Notmuch listed_db
two_threads = record {
  db = ((1, message_of "a" "t1") ∷ (2, message_of "b" "t2") ∷ [], []);
  last_doc_id = 3;
  last_thread_id = 2;
  ghosts = true;
  last_mod = true;
  revision = 5;
}

abbrev new_message : Entry listed_db
new_message = record { doc_id = 3; doc = (id_term, codes "c") ∷ []; modified = false }

-- A reply to both, and to a message that is not there.
abbrev parents : List Bytes
parents = codes "a" ∷ codes "b" ∷ codes "x" ∷ []

abbrev thread_at : Notmuch listed_db → ℕ → Option (List Bytes)
thread_at n i = elim (find_doc n.db.0 i) [ none ↦ none | some d ↦ some (values_of d thread) ]

abbrev threads_after : Outcome listed_db (Entry listed_db × Bytes) → List (Option (List Bytes))
threads_after (Outcome.ok r n) =
    some (r.1 ∷ []) ∷ thread_at n 1 ∷ thread_at n 2 ∷ thread_at n 3 ∷ thread_at n 4 ∷ []
threads_after _ = []

link_message_test :
    threads_after
      (link_message (codes "c") parents (some (codes "x")) none false new_message two_threads)
    ≡ some (codes "t1" ∷ [])
      ∷ some (codes "t1" ∷ [])
      ∷ some (codes "t1" ∷ [])
      ∷ none
      ∷ some (codes "t1" ∷ [])
      ∷ []
unfolding link_message
link_message_test = refl

-- The document that an id of `two_threads` belongs to.
abbrev owner : Bytes → ℕ
owner key = if str_equal (codes "a") key then 1 else 2

abbrev WellListed : ℕ → ℕ × Terms → Type 0
WellListed last (i, d) =
    (i ≤ last)
    × ((t : Bytes) × HasThread listed_db d t)
    × ((key : Bytes) → mem_tag (values_of d id_term) key ≡ true → owner key ≡ i)

find_doc-WellListed :
    (last : ℕ) (b : List (ℕ × Terms)) (i : ℕ) (d : Terms)
    → All (WellListed last) b
    → find_doc b i ≡ some d
    → WellListed last (i, d)
find_doc-WellListed last [] i d h e = absurd (none-ne-some d e)
find_doc-WellListed last ((j, d') ∷ b) i d h e = elim (Bool-cases (j == i)) [
  | inl eq ↦
      let same : some d' ≡ some d = sym (ap (λ x. if x then some d' else find_doc b i) eq) ∙ e in
      (
        omega (arith, (==_iff j i).0 eq, h.0.0),
        subst (λ x. (t : Bytes) × HasThread listed_db x t) (some-injective d' d same) h.0.1,
        λ key k.
            h.0.2 key (ap (λ x. mem_tag (values_of x id_term) key) (some-injective d' d same) ∙ k)
            ∙ (==_iff j i).0 eq,
      )
  | inr ne ↦
      find_doc-WellListed last b i d h.1
        (sym (ap (λ x. if x then some d' else find_doc b i) ne) ∙ e)
]

listed-WellFormed : (n : Notmuch listed_db) → All (WellListed n.last_doc_id) n.db.0 → WellFormed n
listed-WellFormed n h = record {
  threaded = λ i d e k. (find_doc-WellListed n.last_doc_id n.db.0 i d h e).1;
  free = λ i lt. elim (Option-cases (find_doc n.db.0 i)) [
    | inl e ↦ e
    | inr (d, e) ↦ absurd (omega (arith, (find_doc-WellListed n.last_doc_id n.db.0 i d h e).0))
  ];
  unique = λ i j key a b.
      sym ((find_doc-WellListed n.last_doc_id n.db.0 i a.doc h a.found).2 key a.has)
      ∙ (find_doc-WellListed n.last_doc_id n.db.0 j b.doc h b.found).2 key b.has;
}

owner_first : (key : Bytes) (b : Bool) → (b || false) ≡ true → ◌≡◌ {A = ℕ} (if b then 1 else 2) 1
owner_first key true h = refl
owner_first key false h = absurd (ground arith)

owner_second : (key : Bytes) → codes "b" ≡ key → owner key ≡ 2
owner_second key h = subst (λ x. owner x ≡ 2) h refl

two_threads-WellFormed : WellFormed two_threads
two_threads-WellFormed = listed-WellFormed two_threads (
  (
    omega arith,
    (codes "t1", (omega arith, λ u. or_false _)),
    λ key k. owner_first key (str_equal (codes "a") key) k,
  ),
  (
    (
      omega arith,
      (codes "t2", (omega arith, λ u. or_false _)),
      λ key k. owner_second key ((str_equal_iff (codes "b") key).0 (sym (or_false _) ∙ k)),
    ),
    tt,
  ),
)

link_message-Linked_example :
    Returns
      (λ r n'.
        Linked parents none two_threads (r.0, some r.1) n'
        × All (Member (some r.1) n') parents
        × SameEntry new_message r.0)
      (link_message (codes "c") parents (some (codes "x")) none false new_message two_threads)
link_message-Linked_example =
    link_message-Linked (codes "c") parents (some (codes "x")) none false new_message none
      two_threads two_threads-WellFormed refl (omega arith) (refl, λ u. refl)

merge_threads-Step_example :
    Returns
      (λ _ n'.
        Step (merge_label (codes "t1") (codes "t2")) two_threads n'
        × WellFormed n'
        × (n'.last_doc_id ≡ 3)
        × (n'.ghosts ≡ true)
        × Leaves two_threads n'
        × ((i : ℕ) (key : Bytes) → HasId n' i key → HasId two_threads i key))
      (merge_threads (codes "t1") (codes "t2") two_threads)
merge_threads-Step_example =
    merge_threads-Step (codes "t1") (codes "t2") two_threads two_threads-WellFormed (omega arith)
      (omega arith)

abbrev references : References
references = record {
  message_id = codes "c";
  parents = parents;
  last_ref = some (codes "x");
  in_reply_to = none;
}

abbrev add_reference : Entry listed_db → Entry listed_db
add_reference m = (add_term reference (codes "y") m).1

abbrev added_threads : Outcome listed_db (Option Bytes) → List (Option (List Bytes))
added_threads (Outcome.ok o n) =
    thread_at n 1 ∷ thread_at n 2 ∷ thread_at n 4 ∷ thread_at n 5 ∷ thread_at n 6 ∷ []
added_threads other = []

-- The new message is document 4, the ghost of its third parent document 5.
add_document_test :
    added_threads (add_document (λ m. m) add_reference references two_threads)
    ≡ some (codes "t1" ∷ [])
      ∷ some (codes "t1" ∷ [])
      ∷ some (codes "t1" ∷ [])
      ∷ some (codes "t1" ∷ [])
      ∷ none
      ∷ []
unfolding add_document add_term
add_document_test = refl

-- Two changes in nested sections get one number, and a change behind them the next.
abbrev program : Program
program = section (change (section (change done) done)) (section done (change done))

run_test : (run program (idle 7)).0.1 ≡ 8 ∷ 8 ∷ 9 ∷ []
unfolding run
run_test = refl

run-idle_example :
    All (λ s. s ≡ success) (run program (idle 7)).0.0 × ((run program (idle 7)).1 ≡ idle 9)
run-idle_example = run-idle program 7

split_path_test : split_path (some (codes "a/b//cd/")) ≡ (some (codes "a/b"), some (codes "cd/"))
unfolding split_path
split_path_test = refl

-- A name directly below the root keeps its slash.
split_path_root : split_path (some (codes "/foo")) ≡ (some [], some (codes "/foo"))
unfolding split_path
split_path_root = refl

split_path_plain : split_path (some (codes "foo")) ≡ (some [], some (codes "foo"))
unfolding split_path
split_path_plain = refl

split_path_lem_example :
    (split_path (some (codes "a/b//cd/")) ≡ (some (codes "a/b"), some (codes "cd/")))
    × (split_path (some (codes "/cd/")) ≡ (some [], some (codes "/cd/")))
split_path_lem_example =
    split_path_lem (codes "/a") (codes "c") b'b' b'd' 1 1 refl (refl, (refl, tt))

-- A sibling whose name starts with the database's path is taken for a file in it.
relative_path_sibling :
    relative_path (codes "/home/mail") (codes "//home/mailbox/x") ≡ codes "box/x"
unfolding relative_path
relative_path_sibling = refl

parse_features_unknown :
    parse_features (codes "new thing\trw\nmodification tracking\tw\nother\tw\n") 3 b'r'
    ≡ some (false ∷ false ∷ false ∷ false ∷ false ∷ false ∷ true ∷ [], some (codes "new thing"))
unfolding parse_features
parse_features_unknown = refl

parse_features-print_features_example :
    parse_features (print_features (true ∷ false ∷ false ∷ true ∷ false ∷ false ∷ true ∷ [])) 3 b'r'
    ≡ some (true ∷ false ∷ false ∷ true ∷ false ∷ false ∷ true ∷ [], none)
parse_features-print_features_example =
    parse_features-print_features true false false true false false true b'r'
