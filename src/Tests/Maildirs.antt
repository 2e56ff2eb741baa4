-- ===== src/Tests/Maildirs.antt =====
-- lib/message.cc: maildir flags at concrete inputs.
use notmuch.Prelude.{none, some, List, [], ◌∷◌, All, ◌≡◌, refl}
use notmuch.Prelude.Bytes.{Bytes, codes}
use notmuch.Message.{mem_tag}
use notmuch.Maildir.{flag2tag, wants, no_flags, _new_maildir_filename, _get_maildir_flag_actions}
use notmuch.Maildir.Tags.{written_flags, wants-written_flags}

seen_now :
    _new_maildir_filename (codes "/m/new/1.host") (codes "S") (codes "DFPR")
    ≡ some (codes "/m/cur/1.host:2,S")
unfolding _new_maildir_filename
seen_now = refl

kept_in_new :
    _new_maildir_filename (codes "/m/new/1.host") (codes "") (codes "DFPRS")
    ≡ some (codes "/m/new/1.host")
unfolding _new_maildir_filename
kept_in_new = refl

-- A flag of another program stays, and out of order there is no new name.
foreign :
    _new_maildir_filename (codes "/m/cur/1:2,RTa") (codes "F") (codes "R")
    ≡ some (codes "/m/cur/1:2,FTa")
unfolding _new_maildir_filename
foreign = refl

unsorted : _new_maildir_filename (codes "/m/cur/1:2,SF") (codes "") (codes "") ≡ none
unfolding _new_maildir_filename
unsorted = refl

abbrev letter_tags : List Bytes
letter_tags = codes "inbox" ∷ codes "unread" ∷ codes "replied" ∷ []

actions : _get_maildir_flag_actions letter_tags ≡ (codes "R", codes "SDFP")
unfolding _get_maildir_flag_actions
actions = refl

wants-written_flags_example :
    All (λ r. wants (written_flags no_flags letter_tags) r ≡ mem_tag letter_tags r.tag) flag2tag
wants-written_flags_example = wants-written_flags no_flags letter_tags

abbrev names : List Bytes
names = codes "/m/cur/1:2,FS" ∷ codes "/m/new/2" ∷ []
