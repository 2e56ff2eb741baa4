-- ===== src/Tests/Listed.antt =====
-- A Xapian database made of lists.
use notmuch.Prelude.{
  ℕ, Bool, true, false, ◌&&◌, ◌||◌, Option, none, some, List, [], ◌∷◌, ◌≡◌, ◌==◌, refl, arith,
  if◌then◌else◌, ap, sym, ◌∙◌,
}
use notmuch.Prelude.Bytes.{Bytes, str_equal, str_equal_iff}
use notmuch.Message.{mem_tag}
use notmuch.Threads.{Xapian, Prefix, find_prefix, same_prefix, mem_id}

abbrev pub Terms : Type 0
Terms = List (Prefix × Bytes)

abbrev pub values_of : Terms → Prefix → List Bytes
values_of [] q = []
values_of ((p, v) ∷ d) q = let rest = values_of d q in if same_prefix p q then v ∷ rest else rest

abbrev pub without_term : Prefix → Bytes → Terms → Terms
without_term p v [] = []
without_term p v ((q, u) ∷ d) =
    let rest = without_term p v d in
    if same_prefix p q && str_equal v u then rest else (q, u) ∷ rest

abbrev pub find_doc : List (ℕ × Terms) → ℕ → Option Terms
find_doc [] i = none
find_doc ((j, d) ∷ b) i = let rest = find_doc b i in if j == i then some d else rest

abbrev pub has_term : Option Terms → Prefix → Bytes → Bool
has_term none p v = false
has_term (some d) p v = mem_tag (values_of d p) v

abbrev pub posted : List (ℕ × Terms) → List (ℕ × Terms) → Prefix → Bytes → List ℕ
posted b [] p v = []
posted b ((j, d) ∷ keys) p v =
    let rest = posted b keys p v in if has_term (find_doc b j) p v then j ∷ rest else rest

abbrev pub find_key : List (Bytes × Bytes) → Bytes → Bytes
find_key [] k = []
find_key ((j, v) ∷ b) k = let rest = find_key b k in if str_equal j k then v else rest

pub values-add :
    (p q : Prefix) (v u : Bytes) (d : Terms)
    → mem_tag (values_of ((p, v) ∷ d) q) u
      ≡ (same_prefix p q && str_equal v u || mem_tag (values_of d q) u)
values-add p q v u d = ground arith

-- What one pair adds to the terms, with equal prefixes and values as Booleans.
without_step :
    (pr pq rq vw vu wu m n : Bool)
    → (pr ≡ true → rq ≡ pq)
    → (vw ≡ true → wu ≡ vu)
    → (pq ≡ true → rq ≡ true → pr ≡ true)
    → (vu ≡ true → wu ≡ true → vw ≡ true)
    → m ≡ (if pq && vu then false else n)
    → (if pr && vw then m else (rq && wu || m)) ≡ (if pq && vu then false else (rq && wu || n))
without_step true true rq vw vu wu m n a b c d e = ground arith
without_step true false rq vw vu wu m n a b c d e = ground arith
without_step false true rq vw vu wu m n a b c d e = ground arith
without_step false false rq vw vu wu m n a b c d e = ground arith

str_equal_left : (a b c : Bytes) → str_equal a b ≡ true → str_equal b c ≡ str_equal a c
str_equal_left a b c h = ap (λ x. str_equal x c) (sym ((str_equal_iff a b).0 h))

str_equal_meet :
    (a b c : Bytes) → str_equal a c ≡ true → str_equal b c ≡ true → str_equal a b ≡ true
str_equal_meet a b c h k =
    (str_equal_iff a b).1 ((str_equal_iff a c).0 h ∙ sym ((str_equal_iff b c).0 k))

mem-if_cons :
    (b : Bool) (w u : Bytes) (xs : List Bytes)
    → mem_tag (if b then w ∷ xs else xs) u ≡ (b && str_equal w u || mem_tag xs u)
mem-if_cons true w u xs = refl
mem-if_cons false w u xs = refl

mem-if :
    (b : Bool) (q : Prefix) (u : Bytes) (x y : Terms)
    → mem_tag (values_of (if b then x else y) q) u
      ≡ (if b then mem_tag (values_of x q) u else mem_tag (values_of y q) u)
mem-if true q u x y = refl
mem-if false q u x y = refl

pub values-without :
    (p q : Prefix) (v u : Bytes) (d : Terms)
    → mem_tag (values_of (without_term p v d) q) u
      ≡ (if same_prefix p q && str_equal v u then false else mem_tag (values_of d q) u)
values-without p q v u [] = ground arith
values-without p q v u ((r, w) ∷ d) =
    let rest = without_term p v d in
    mem-if (same_prefix p r && str_equal v w) q u rest ((r, w) ∷ rest)
    ∙ ap (λ z. if same_prefix p r && str_equal v w then mem_tag (values_of rest q) u else z)
        (mem-if_cons (same_prefix r q) w u (values_of rest q))
    ∙ without_step (same_prefix p r) (same_prefix p q) (same_prefix r q) (str_equal v w)
        (str_equal v u) (str_equal w u) (mem_tag (values_of rest q) u) (mem_tag (values_of d q) u)
        (str_equal_left (find_prefix p) (find_prefix r) (find_prefix q)) (str_equal_left v w u)
        (str_equal_meet (find_prefix p) (find_prefix r) (find_prefix q)) (str_equal_meet v w u)
        (values-without p q v u d)
    ∙ ap (λ z. if same_prefix p q && str_equal v u then false else z)
        (sym (mem-if_cons (same_prefix r q) w u (values_of d q)))

pub posted_sound :
    (b keys : List (ℕ × Terms)) (p : Prefix) (v : Bytes) (i : ℕ)
    → mem_id (posted b keys p v) i ≡ true
    → has_term (find_doc b i) p v ≡ true
posted_sound b [] p v i h = ground arith
posted_sound b ((j, d) ∷ keys) p v i h = ground (arith, posted_sound b keys p v i)

pub posted_complete :
    (b keys : List (ℕ × Terms)) (p : Prefix) (v : Bytes) (i : ℕ) (d : Terms)
    → find_doc keys i ≡ some d
    → has_term (find_doc b i) p v ≡ true
    → mem_id (posted b keys p v) i ≡ true
posted_complete b [] p v i d f h = ground arith
posted_complete b ((j, d') ∷ keys) p v i d f h = ground (arith, posted_complete b keys p v i d)

pub has_term-found :
    (o : Option Terms) (p : Prefix) (v : Bytes)
    → has_term o p v ≡ true
    → (d : Terms) × (o ≡ some d) × (mem_tag (values_of d p) v ≡ true)
has_term-found none p v h = absurd (ground arith)
has_term-found (some d) p v h = (d, refl, h)

pub removed_lem :
    (p : Prefix) (v : Bytes) (d d' : Terms)
    → (if mem_tag (values_of d p) v then some (without_term p v d) else none) ≡ some d'
    → without_term p v d ≡ d'
removed_lem p v d d' h = ground arith

pub absent_lem :
    (p : Prefix) (v : Bytes) (d : Terms)
    → (if mem_tag (values_of d p) v then some (without_term p v d) else none) ≡ none
    → mem_tag (values_of d p) v ≡ false
absent_lem p v d h = ground arith

abbrev pub listed_db : Xapian
listed_db = record {
  Doc = Terms;
  Db = List (ℕ × Terms) × List (Bytes × Bytes);
  left_modified = false;
  set_last_mod = λ r d. d;
  values-set_last_mod = λ r d p. refl;
  sha1 = λ s. [];
  blank = [];
  values = values_of;
  doc_add = λ p v d. (p, v) ∷ d;
  doc_remove = λ p v d. if mem_tag (values_of d p) v then some (without_term p v d) else none;
  get_document = λ b i. find_doc b.0 i;
  replace_document = λ i d b. ((i, d) ∷ b.0, b.1);
  postings = λ b p v. posted b.0 b.0 p v;
  get_metadata = λ b k. find_key b.1 k;
  set_metadata = λ k v b. (b.0, (k, v) ∷ b.1);
  values-blank = λ p. refl;
  values-doc_add = values-add;
  values-doc_remove = λ p q v u d d' h.
      ap (λ x. mem_tag (values_of x q) u) (sym (removed_lem p v d d' h)) ∙ values-without p q v u d;
  remove_absent = absent_lem;
  get-replace = λ i j d b. refl;
  postings-sound = λ b p v i h. has_term-found _ p v (posted_sound b.0 b.0 p v i h);
  postings-complete =
      λ b p v i d f h. posted_complete b.0 b.0 p v i d f (ap (λ o. has_term o p v) f ∙ h);
  get-set_metadata = λ k v b i. refl;
}
