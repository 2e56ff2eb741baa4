-- ===== src/ReplyFilter.antt =====
-- gmime-filter-reply.c: the filter that adds or removes reply markers, apart from GObject's classes.
pub mod RoundTrip
use notmuch.Prelude.{
  ℕ, Bool, true, false, not, List, [], ◌∷◌, ◌++◌, ◌==◌, if◌then◌else◌, ◌≡◌, refl, ap, ◌∙◌,
  append-nil, append_assoc, arith, Bool-cases, inl, inr,
}
use notmuch.Prelude.Bytes.{Bytes}

-- struct _GMimeFilterReply
pub record Reply : Type 0 where
  pub encode : Bool
  pub saw_nl : Bool
  pub saw_angle : Bool

-- g_mime_filter_reply_init, g_mime_filter_reply_new
abbrev pub g_mime_filter_reply_new : Bool → Reply
g_mime_filter_reply_new encode = record { encode = encode; saw_nl = true; saw_angle = false }

abbrev pub filter_copy : Reply → Reply
filter_copy f = g_mime_filter_reply_new f.encode

abbrev pub filter_reset : Reply → Reply
filter_reset f = record f { saw_nl = true; saw_angle = false }

abbrev pub is_lf : ℕ → Bool
is_lf c = c == b'\n'

abbrev pub is_cr : ℕ → Bool
is_cr c = c == b'\r'

-- The bodies of the two loops: the output of one byte.
unfoldable pub encode_byte : ℕ → Reply → Bytes × Reply
encode_byte c f =
    let kept = if is_cr c then [] else c ∷ [] in
    ((if f.saw_nl then b'>' ∷ b' ' ∷ kept else kept), record f { saw_nl = is_lf c })

unfoldable pub decode_byte : ℕ → Reply → Bytes × Reply
decode_byte c f =
    if f.saw_nl
    then (if c == b'>'
        then ([], record f { saw_angle = true; saw_nl = false })
        else (c ∷ [], record f { saw_nl = false }))
    else if f.saw_angle
    then ((if c == b' ' then [] else c ∷ []), record f { saw_angle = false })
    else if is_cr c
    then ([], f)
    else (c ∷ [], (if is_lf c then record f { saw_nl = true } else f))

unfoldable pub filter_byte : ℕ → Reply → Bytes × Reply
unfolding encode_byte decode_byte
filter_byte c f = if f.encode then encode_byte c f else decode_byte c f

unfoldable pub filter_filter : Bytes → Reply → Bytes × Reply
unfolding filter_byte
filter_filter [] f = ([], f)
filter_filter (c ∷ s) f =
    let (out, f') = filter_byte c f in let (rest, f'') = filter_filter s f' in (out ++ rest, f'')

-- filter_complete does nothing at an empty buffer, and filter_filter no more.
unfoldable pub filter_complete : Bytes → Reply → Bytes × Reply
unfolding filter_filter
filter_complete [] f = ([], f)
filter_complete (c ∷ s) f = filter_filter (c ∷ s) f

-- A stream that is given to the filter in pieces.
unfoldable pub filter_pieces : List Bytes → Bytes → Reply → Bytes
unfolding filter_filter filter_complete
filter_pieces [] last f = (filter_complete last f).0
filter_pieces (s ∷ ss) last f = let (out, f') = filter_filter s f in out ++ filter_pieces ss last f'
