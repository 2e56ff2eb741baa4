-- ===== src/Tests/Summaries.antt =====
-- lib/thread.cc at concrete inputs.
use Prim.Native.String.{String}
use notmuch.Prelude.{
  ℕ, ◌<◌, ◌≡◌, inl, inr, Bool, true, some, List, [], ◌∷◌, ◌++◌, refl, sym, ap, ◌∙◌, arith,
}
use mathlib.Core.Option.{none-ne-some, some-injective}
use notmuch.Prelude.Bytes.{Bytes, codes}
use notmuch.Prelude.Int.{pos, pos_part}
use notmuch.Summary.{
  Mail, Thread, empty_thread, cleanup_author, resolve_authors, clean_subject, unmatched,
}
use notmuch.Summary.Authors.{separated, resolve_authors-separated}
use notmuch.Summary.Replies.{resolve_thread_relationships, parent_of}
use notmuch.Summary.Replies.Reach.{Shown, In, resolve_thread_relationships-Shown}

abbrev mail_of : String → String → String → ℕ → Mail
mail_of message_id in_reply_to author date = record {
  message_id = codes message_id;
  in_reply_to = codes in_reply_to;
  from = codes author;
  author = some (codes author);
  subject = some (codes "Re: hello");
  tags = codes "inbox" ∷ codes author ∷ [];
  date = pos date;
}

abbrev contains_dot : Bytes → Bytes → Bool
contains_dot from s = true

cleanup_author_test :
    cleanup_author contains_dot (some (codes "Doe, John")) (codes "john.doe@x")
    ≡ some (codes "John Doe")
unfolding cleanup_author
cleanup_author_test = refl

subject_test : clean_subject (codes "rE: hello") ≡ codes "hello"
subject_test = refl

abbrev mails : List Mail
mails = mail_of "a" "" "ann" 5 ∷ mail_of "b" "a" "bob" 3 ∷ mail_of "c" "b" "spam" 9 ∷ []

abbrev matches_all : Bytes → Bool
matches_all message_id = true

abbrev spam : List Bytes
spam = codes "Kspam" ∷ []

-- A thread in which ann and bob match.
abbrev summary : Thread
summary = record empty_thread {
  authors_array = codes "carl" ∷ codes "ann" ∷ codes "bob" ∷ codes "dan" ∷ [];
  matched_authors_array = codes "ann" ∷ codes "bob" ∷ [];
}

resolve_authors_test : resolve_authors summary ≡ some (codes "ann, bob| carl, dan")
unfolding resolve_authors
resolve_authors_test = refl

-- The only matched message has no author.
resolve_authors_null :
    resolve_authors (record empty_thread { authors_array = codes "bob" ∷ [] })
    ≡ some (codes "(null)| bob")
unfolding resolve_authors
resolve_authors_null = refl

resolve_authors-separated_example :
    resolve_authors summary
    ≡ some (
        (codes "ann" ++ separated (codes ", ") (codes "bob" ∷ []))
        ++ separated (codes "| ") (unmatched summary.matched_authors_array summary.authors_array))
resolve_authors-separated_example =
    resolve_authors-separated summary (codes "ann") (codes "bob" ∷ []) refl

-- Two messages that reply to each other: none is at the top.
circle_test :
    (resolve_thread_relationships (mail_of "a" "b" "ann" 1 ∷ mail_of "b" "a" "bob" 2 ∷ [])).toplevel
    ≡ []
unfolding resolve_thread_relationships
circle_test = refl

abbrev chain : List Mail
chain = mail_of "a" "" "ann" 1 ∷ mail_of "b" "a" "bob" 2 ∷ []

chain_ranks :
    (m p : Mail) → In m chain → parent_of chain m ≡ some p → pos_part p.date < pos_part m.date
unfolding parent_of
chain_ranks m p (inl s) e = absurd (none-ne-some p (ap (parent_of chain) (sym s) ∙ e))
chain_ranks m p (inr (inl s)) e =
    let same : mail_of "a" "" "ann" 1 ≡ p =
      some-injective (mail_of "a" "" "ann" 1) p (ap (parent_of chain) (sym s) ∙ e) in
    omega (arith, ap (λ (x : Mail). pos_part x.date) same, ap (λ (x : Mail). pos_part x.date) s)
chain_ranks m p (inr (inr i)) e = absurd i

resolve_thread_relationships-Shown_example :
    Shown (resolve_thread_relationships chain) (mail_of "b" "a" "bob" 2)
resolve_thread_relationships-Shown_example =
    resolve_thread_relationships-Shown chain (λ m. pos_part m.date) chain_ranks
      (mail_of "b" "a" "bob" 2) (inr (inl refl))
