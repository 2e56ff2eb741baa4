-- ===== src/Threads/Parents.antt =====
-- Linking a message to its parents: they end in its thread, threads are only merged, and linking
-- does not fail.
use notmuch.Prelude.{
  ℕ, ◌+◌, ◌<◌, ◌^◌, true, false, Option, none, some, List, [], ◌∷◌, ◌≡◌, ◌∙◌, inl, inr, refl, subst,
  sym, ap, arith, if◌then◌else◌, length, All, Bool-cases,
}
use mathlib.Core.Option.{some-injective, none-ne-some}
use notmuch.Prelude.Bytes.{Bytes, str_equal, str_equal_iff}
use notmuch.Threads.{Xapian, Notmuch, Entry, ok, bind, reference, id_key, add_term}
use notmuch.Threads.Link.{
  resolve_message_id_to_thread_id, resolve_new, resolve_old, merge_threads, join_thread,
  link_parents,
}
use notmuch.Threads.State.{
  Leaves-refl, Returns, Returns-bind, Returns-map, InThread, WellFormed, Step, step_refl,
  str_equal_refl,
}
use notmuch.Threads.Merge.{merge_label, merge_threads-Step}
use notmuch.Threads.Ghosts.{Resolved, resolve_new-Resolved}
use notmuch.Threads.Linked.{
  Carries, add_term-Carries, add_term-first, Linked, Member, Linked-trans, Member-stays,
  nothing_done,
}

merge_label_winner : (w l : Bytes) → merge_label w l w ≡ w
merge_label_winner w l = ground arith

merge_label_loser : (w l : Bytes) → merge_label w l l ≡ w
merge_label_loser w l = ground (arith, str_equal_refl l)

module _ {X : Xapian} where
  open X use {sha1}

  pub join_same :
      (m : Entry X) (w t : Bytes) (n : Notmuch X)
      → str_equal w t ≡ true
      → join_thread m (some w) t n ≡ ok (m, some w) n
  unfolding join_thread
  join_same m w t n e = rw (join_thread, e) refl

  pub join_other :
      (m : Entry X) (w t : Bytes) (n : Notmuch X)
      → str_equal w t ≡ false
      → join_thread m (some w) t n ≡ bind (merge_threads w t n) (λ _ n'. ok (m, some w) n')
  unfolding join_thread
  join_other m w t n e = rw (join_thread, e) refl

  -- A relative's thread meets the message's.
  join_thread-Linked :
      (m : Entry X) (o : Option Bytes) (t : Bytes) (i : ℕ) (n : Notmuch X)
      → WellFormed n
      → Carries X m o
      → InThread n i t
      → Returns
          (λ r n'. Linked [] o n r n' × ((w : Bytes) × (r.1 ≡ some w) × InThread n' i w))
          (join_thread m o t n)
  unfolding join_thread
  join_thread-Linked m none t i n wf c it = (
    record {
      label = λ x. x;
      relabelled = step_refl n;
      form = wf;
      used = omega arith;
      new_ids = λ i key h. inl h;
      same_ghosts = refl;
      leaves = Leaves-refl n;
      carries = add_term-first X t m it.has.0 c;
      winner = λ w e. absurd (none-ne-some w e);
    },
    (t, refl, it),
  )
  join_thread-Linked m (some w) t i n wf c it = elim (Bool-cases (str_equal w t)) [
    | inl e ↦
        let same : t ≡ w = sym ((str_equal_iff w t).0 e) in
        subst (Returns _) (sym (join_same m w t n e))
          (nothing_done m (some w) n wf c, (w, refl, subst (λ x. InThread n i x) same it))
    | inr e ↦ subst (Returns _) (sym (join_other m w t n e)) (
        Returns-bind _ _ (merge_threads w t n) (λ _ n'. ok (m, some w) n')
          (merge_threads-Step w t n wf c.0 it.has.0)
          (λ _ n' h. (
            record {
              label = merge_label w t;
              relabelled = h.0;
              form = h.1;
              used = omega (arith, h.2);
              new_ids = λ i key k. inl (h.5 i key k);
              same_ghosts = h.3;
              leaves = h.4;
              carries = c;
              winner = λ w' e'. (
                e',
                subst (λ x. merge_label w t x ≡ x) (some-injective w w' e')
                    (merge_label_winner w t),
              );
            },
            (w, refl, subst (λ x. InThread n' i x) (merge_label_loser w t) (h.0.threads i t it)),
          )))
  ]

  -- Resolving a parent as a part of linking.
  Resolved-Linked :
      (m : Entry X) (o : Option Bytes) (p t : Bytes) (n n' : Notmuch X)
      → Carries X m o
      → Resolved p t n n'
      → Linked (p ∷ []) o n (m, o) n'
  Resolved-Linked m o p t n n' c a = record {
    label = λ x. x;
    relabelled = a.same;
    form = a.form;
    used = a.used;
    new_ids = λ i key h. elim (a.new_ids i key h) [ inl k ↦ inl k | inr e ↦ inr (inl e) ];
    same_ghosts = a.same_ghosts;
    leaves = a.leaves;
    carries = c;
    winner = λ w e. (e, refl);
  }

  -- The parent whose thread was joined.
  joined-Member :
      (p t : Bytes) (o : Option Bytes) (n n1 n2 : Notmuch X) (f : Bytes → Bytes)
      (a : Resolved p t n n1)
      → Step f n1 n2
      → WellFormed n2
      → (w : Bytes) × (o ≡ some w) × InThread n2 a.doc_id w
      → Member o n2 p
  joined-Member p t o n n1 n2 f a s wf b = record {
    doc_id = a.doc_id;
    thread_id = b.0;
    found_thread = b.1;
    identified = s.ids a.doc_id (id_key sha1 p) a.identified;
    threaded = b.2;
    only =
        λ i h. wf.unique i a.doc_id (id_key sha1 p) h (s.ids a.doc_id (id_key sha1 p) a.identified);
  }

  resolve_with_ghosts :
      (p : Bytes) (n : Notmuch X)
      → n.ghosts ≡ true
      → resolve_message_id_to_thread_id n p ≡ resolve_new n p
  unfolding resolve_message_id_to_thread_id
  resolve_with_ghosts p n g = ap (λ b. if b then resolve_new n p else resolve_old n p) g

  -- The loop over the parents.
  pub link_parents-Linked :
      (ps : List Bytes) (m : Entry X) (o : Option Bytes) (n : Notmuch X)
      → WellFormed n
      → n.ghosts ≡ true
      → n.last_doc_id + length ps < 2 ^ 32
      → Carries X m o
      → Returns (λ r n'. Linked ps o n r n' × All (Member r.1 n') ps) (link_parents ps m o n)
  unfolding link_parents
  link_parents-Linked [] m o n wf g lt c = (nothing_done m o n wf c, tt)
  link_parents-Linked (p ∷ ps) m o n wf g lt c =
      let m' = (add_term reference p m).1 in
      Returns-bind _ _ (resolve_message_id_to_thread_id n p)
        (λ t n'. bind (join_thread m' o t n') (λ r n''. link_parents ps r.0 r.1 n''))
        (subst (Returns _) (sym (resolve_with_ghosts p n g))
          (resolve_new-Resolved p n wf (omega arith)))
        (λ t n1 a.
          let c' = add_term-Carries X reference p m o refl c in
          let first = Resolved-Linked m' o p t n n1 c' a in
          Returns-bind _ _ (join_thread m' o t n1) (λ r n''. link_parents ps r.0 r.1 n'')
            (join_thread-Linked m' o t a.doc_id n1 a.form c' a.threaded)
            (λ r n2 b.
              let second =
                Linked-trans (p ∷ []) [] (p ∷ []) o n n1 n2 (m', o) r refl (λ key x. x)
                  (λ key x. elim x [ ]) first b.0 in
              Returns-map _ _ (link_parents ps r.0 r.1 n2)
                (λ r' n3 d. (
                  Linked-trans (p ∷ []) ps (p ∷ ps) o n n2 n3 r r' (omega arith)
                      (λ key x. elim x [ inl e ↦ inl e | inr y ↦ elim y [ ] ]) (λ key x. inr x)
                      second d.0,
                  (
                    Member-stays ps r.1 n2 n3 r' p d.0
                        (joined-Member p t r.1 n n1 n2 b.0.label a b.0.relabelled b.0.form b.1),
                    d.1,
                  ),
                ))
                (link_parents-Linked ps r.0 r.1 n2 b.0.form (b.0.same_ghosts ∙ a.same_ghosts ∙ g)
                  (omega (arith, second.used)) b.0.carries)))
