-- ===== src/ReplyFilter/RoundTrip.antt =====
-- gmime-filter-reply.c: what the filter gives on a stream in pieces, and that it undoes itself.
use notmuch.Prelude.{
  ℕ, suc, Bool, true, false, List, [], ◌∷◌, ◌++◌, if◌then◌else◌, ◌≡◌, refl, ap, sym, ◌∙◌,
  append_assoc, arith, Bool-cases, inl, inr, leb, length, length-append, ◌+◌, ◌*◌,
}
use notmuch.Prelude.Bytes.{Bytes}
use notmuch.ReplyFilter.{
  Reply, g_mime_filter_reply_new, is_lf, is_cr, encode_byte, filter_byte, filter_filter,
  filter_complete, filter_pieces,
}

abbrev pub join : List Bytes → Bytes
join [] = []
join (s ∷ ss) = s ++ join ss

-- The text without its carriage returns.
abbrev pub without_cr : Bytes → Bytes
without_cr [] = []
without_cr (c ∷ s) = if is_cr c then without_cr s else c ∷ without_cr s

-- One run after another.
abbrev both : Bytes × Reply → (Reply → Bytes × Reply) → Bytes × Reply
both r k = (r.0 ++ (k r.1).0, (k r.1).1)

filter_filter-append :
    (s t : Bytes) (f : Reply)
    → filter_filter (s ++ t) f ≡ both (filter_filter s f) (filter_filter t)
unfolding filter_filter
filter_filter-append [] t f = refl
filter_filter-append (c ∷ s) t f =
    let o = (filter_byte c f).0 in
    ap (λ r. (o ++ r.0, r.1)) (filter_filter-append s t (filter_byte c f).1)
    ∙ ap (λ x. (x, (filter_filter t (filter_filter s (filter_byte c f).1).1).1))
        (sym (append_assoc o _ _))

complete_lem : (s : Bytes) (f : Reply) → filter_complete s f ≡ filter_filter s f
unfolding filter_complete filter_filter
complete_lem [] f = refl
complete_lem (c ∷ s) f = refl

-- However a stream is cut into pieces, the output is that of the whole.
filter_pieces-join :
    (ss : List Bytes) (last : Bytes) (f : Reply)
    → filter_pieces ss last f ≡ (filter_filter (join ss ++ last) f).0
unfolding filter_pieces
filter_pieces-join [] last f = ap (λ r. r.0) (complete_lem last f)
filter_pieces-join (s ∷ ss) last f =
    let g = (filter_filter s f).1 in
    ap (λ x. (filter_filter s f).0 ++ x) (filter_pieces-join ss last g)
    ∙ sym (ap (λ r. r.0) (filter_filter-append s (join ss ++ last) f))
    ∙ ap (λ x. (filter_filter x f).0) (sym (append_assoc s (join ss) last))

abbrev reply : Bool → Bool → Reply
reply encode saw_nl = record { encode = encode; saw_nl = saw_nl; saw_angle = false }

kept : ℕ → Bytes
kept c = if is_cr c then [] else c ∷ []

emitted :
    (c : ℕ) → (if is_lf c then reply false true else reply false false) ≡ reply false (is_lf c)
emitted c = elim (Bool-cases (is_lf c)) [ inl k ↦ rw k refl | inr k ↦ rw k refl ]

byte_back :
    (c : ℕ) (b : Bool)
    → filter_filter (encode_byte c (reply true b)).0 (reply false b)
      ≡ (kept c, reply false (is_lf c))
unfolding filter_filter kept
byte_back c true = elim (Bool-cases (is_cr c)) [
  | inl e ↦ let n : is_lf c ≡ false = ground arith in rw e (rw n refl)
  | inr e ↦ rw e (rw e (ap (λ r. (c ∷ [], r)) (emitted c)))
]
byte_back c false = elim (Bool-cases (is_cr c)) [
  | inl e ↦ let n : is_lf c ≡ false = ground arith in rw e (rw n refl)
  | inr e ↦ rw e (rw e (ap (λ r. (c ∷ [], r)) (emitted c)))
]

kept_lem : (c : ℕ) (s : Bytes) → kept c ++ without_cr s ≡ without_cr (c ∷ s)
unfolding kept
kept_lem c s = elim (Bool-cases (is_cr c)) [ inl e ↦ rw e refl | inr e ↦ rw e refl ]

-- Decoding takes back encoding, but for the carriage returns.
back_lem :
    (s : Bytes) (b : Bool)
    → (filter_filter (filter_filter s (reply true b)).0 (reply false b)).0 ≡ without_cr s
unfolding filter_filter
back_lem [] b = refl
back_lem (c ∷ s) b =
    let o = (encode_byte c (reply true b)).0 in
    let rest = (filter_filter s (reply true (is_lf c))).0 in
    ap (λ r. r.0) (filter_filter-append o rest (reply false b))
    ∙ ap (λ r. (both r (filter_filter rest)).0) (byte_back c b)
    ∙ ap (λ x. kept c ++ x) (back_lem s (is_lf c))
    ∙ kept_lem c s

-- What the decoding filter gives back of a text that the encoding filter has marked is the text
-- without its carriage returns, in whatever pieces the two filters get their input.
pub filter_pieces-filter_pieces :
    (ss ts : List Bytes) (last last' : Bytes)
    → join ts ++ last' ≡ filter_pieces ss last (g_mime_filter_reply_new true)
    → filter_pieces ts last' (g_mime_filter_reply_new false) ≡ without_cr (join ss ++ last)
filter_pieces-filter_pieces ss ts last last' e =
    filter_pieces-join ts last' (g_mime_filter_reply_new false)
    ∙ ap (λ x. (filter_filter x (g_mime_filter_reply_new false)).0)
        (e ∙ filter_pieces-join ss last (g_mime_filter_reply_new true))
    ∙ back_lem (join ss ++ last) true

abbrev rate : Reply → ℕ
rate f = if f.encode then 3 else 1

byte_fits :
    (c : ℕ) (f : Reply)
    → leb (length (filter_byte c f).0) (rate f) ≡ true × (filter_byte c f).1.encode ≡ f.encode
unfolding filter_byte
byte_fits c f = elim (Bool-cases f.encode) [
  | inl e ↦ (rw e (ground arith), rw e refl)
  | inr e ↦ (rw e (ground arith), rw e (ground arith))
]

sum_lem :
    (e : Bool) (a b n : ℕ)
    → leb a (if e then 3 else 1) ≡ true
    → leb b ((if e then 3 else 1) * n) ≡ true
    → leb (a + b) ((if e then 3 else 1) * suc n) ≡ true
sum_lem true a b n h k = ground arith
sum_lem false a b n h k = ground arith

fits_lem : (s : Bytes) (f : Reply) → leb (length (filter_filter s f).0) (rate f * length s) ≡ true
unfolding filter_filter
fits_lem [] f = ground arith
fits_lem (c ∷ s) f =
    let (a, b) = byte_fits c f in
    let g = (filter_byte c f).1 in
    let l = length-append (filter_byte c f).0 (filter_filter s g).0 in
    let same : rate g ≡ rate f = ap (λ e. if e then 3 else 1) b in
    let ih = rw same at (fits_lem s g) in rw l (sum_lem f.encode _ _ (length s) a ih)

-- The output of the filter fits the buffer that filter_filter asks for: three times the length of
-- the input to encode, one more than it to decode.
filter_filter-fits :
    (s : Bytes) (f : Reply)
    → leb (length (filter_filter s f).0) (if f.encode then 3 * length s else length s + 1) ≡ true
filter_filter-fits s f = elim (Bool-cases f.encode) [
  | inl e ↦ let k = rw e at (fits_lem s f) in rw e k
  | inr e ↦ let k = rw e at (fits_lem s f) in rw e (ground (arith, k))
]
