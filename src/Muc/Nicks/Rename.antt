-- ===== src/Muc/Nicks/Rename.antt =====
-- src/core/xep/muc-nicklist.c: what a rename does to the hash table.
use irssi_xmpp.Prelude.{
  ◌≡◌, refl, ap, ◌∙◌, Bool, true, false, ◌||◌, none, some, List, [], ◌∷◌, ◌++◌, Bool-cases, inl,
  inr, if◌then◌else◌, find_first, remove_first, ==_refl, arith,
}
use irssi_xmpp.Prelude.Str.{Str, str_eq, str_eq_refl}
use irssi_xmpp.Muc.{Nick, Nicks, nicklist_changed, Channel, put, at_nick, Irssi}
use irssi_xmpp.Muc.Nicks.{is_own, chained, nick_hash_add, follow_own, xmpp_nicklist_rename}
use irssi_xmpp.Muc.Nicks.Removal.{Holds, IsKeyed, without, put-put, nick_hash_remove_lem}

by_keys : (t u : Nicks) → ((k : Str) → t k ≡ u k) → t ≡ u
by_keys t u h = λ i k. h k i

pub put_same : (key : Str) (l : List Nick) (t : Nicks) → put key l t key ≡ l
unfolding put
put_same key l t = rw (str_eq_refl key) refl

remove_first_last :
    (n : Nick) (l : List Nick)
    → find_first (at_nick n.addr) l ≡ none
    → remove_first (at_nick n.addr) (l ++ n ∷ []) ≡ l
unfolding find_first remove_first at_nick
remove_first_last n [] h = ground arith
remove_first_last n (x ∷ l) h = ground (arith, remove_first_last n l)

pub chained_lem :
    (irssi : Irssi) (t : Nicks) (n : Nick) (l : List Nick)
    → t (irssi.nick_key n.nick) ≡ l
    → chained irssi t n ≡ put (irssi.nick_key n.nick) (l ++ n ∷ []) t
unfolding chained
chained_lem irssi t n [] e = rw (e, chained) refl
chained_lem irssi t n (x ∷ l) e = rw (e, chained) refl

module _ (irssi : Irssi) (n : Nick) where
  set_own_put :
      (l : List Nick) (t : Nicks)
      → irssi.nicklist_set_own (put (irssi.nick_key n.nick) l t) n
        ≡ put (irssi.nick_key n.nick) (n ∷ remove_first (at_nick n.addr) l) t
  set_own_put l t =
      let key = irssi.nick_key n.nick in
      by_keys (irssi.nicklist_set_own (put key l t) n)
        (put key (n ∷ remove_first (at_nick n.addr) l) t)
        (λ k.
          irssi.nicklist_set_own_lem (put key l t) n k
          ∙ rw (put_same key l t) (put-put key (n ∷ remove_first (at_nick n.addr) l) l t k))

  moved_to_front :
      (l : List Nick) (t : Nicks)
      → find_first (at_nick n.addr) l ≡ none
      → irssi.nicklist_set_own (put (irssi.nick_key n.nick) (l ++ n ∷ []) t) n
        ≡ put (irssi.nick_key n.nick) (n ∷ l) t
  moved_to_front l t h = set_own_put (l ++ n ∷ []) t ∙ rw (remove_first_last n l h) refl

  kept_in_front :
      (l : List Nick) (t : Nicks)
      → irssi.nicklist_set_own (put (irssi.nick_key n.nick) (n ∷ l) t) n
        ≡ put (irssi.nick_key n.nick) (n ∷ l) t
  kept_in_front l t =
      set_own_put (n ∷ l) t ∙ unfold remove_first at_nick in rw (==_refl n.addr) refl

-- The table after the rename: the nick leaves the chain of its old name and joins that of the new
-- one, in front where it is one's own.
abbrev pub moved : Irssi → Nicks → Nick → Nick → Bool → Nicks
moved irssi t n renamed own =
    let key = irssi.nick_key renamed.nick in
    let l = without irssi n t key in
    put key (if own then renamed ∷ l else l ++ renamed ∷ []) (without irssi n t)

abbrev pub renamed_to : Str → Nick → Nick
renamed_to newnick n = record n { nick = newnick }

-- The nick stands in the chain of its name, and in no other place.
abbrev pub StandsOnce : Irssi → Nicks → Nick → Type 0
StandsOnce irssi t n =
    Holds n.addr (t (irssi.nick_key n.nick))
    × ((k : Str) → find_first (at_nick n.addr) (without irssi n t k) ≡ none)

added_lem :
    (irssi : Irssi) (channel : Channel) (t : Nicks) (n : Nick)
    → find_first (at_nick n.addr) (t (irssi.nick_key n.nick)) ≡ none
    → (nick_hash_add irssi (record channel { nicks = t }) n).nicks
      ≡ put
          (irssi.nick_key n.nick)
          (if is_own channel n
            then n ∷ t (irssi.nick_key n.nick)
            else t (irssi.nick_key n.nick) ++ n ∷ [])
          t
unfolding nick_hash_add
added_lem irssi channel t n h =
    let l = t (irssi.nick_key n.nick) in
    elim (Bool-cases (is_own channel n)) [
      | inl e ↦ rw (e, chained_lem irssi t n l refl) (moved_to_front irssi n l t h)
      | inr e ↦ rw (e, chained_lem irssi t n l refl) refl
    ]

follow_own_lem :
    (irssi : Irssi) (channel : Channel) (n : Nick) (old new : Str) (own : Bool) (l : List Nick)
    (t : Nicks)
    → channel.nicks ≡ put (irssi.nick_key n.nick) (if own then n ∷ l else l ++ n ∷ []) t
    → find_first (at_nick n.addr) l ≡ none
    → (follow_own irssi channel n old new).nicks
      ≡ put
          (irssi.nick_key n.nick)
          (if own || str_eq old channel.nick then n ∷ l else l ++ n ∷ [])
          t
unfolding follow_own
follow_own_lem irssi channel n old new true l t e h = elim (Bool-cases (str_eq old channel.nick)) [
  | inl s ↦ rw (s, e) (kept_in_front irssi n l t)
  | inr s ↦ rw (s, e) refl
]
follow_own_lem irssi channel n old new false l t e h = elim (Bool-cases (str_eq old channel.nick)) [
  | inl s ↦ rw (s, e) (moved_to_front irssi n l t h)
  | inr s ↦ rw (s, e) refl
]

added_nick :
    (irssi : Irssi) (channel : Channel) (n : Nick)
    → (nick_hash_add irssi channel n).nick ≡ channel.nick
unfolding nick_hash_add
added_nick irssi channel n = elim (Bool-cases (is_own channel n)) [
  | inl e ↦ rw e refl
  | inr e ↦ rw e refl
]

follow_own_nick :
    (irssi : Irssi) (channel : Channel) (n : Nick) (old new : Str)
    → (follow_own irssi channel n old new).nick
      ≡ (if str_eq old channel.nick then new else channel.nick)
unfolding follow_own
follow_own_nick irssi channel n old new = elim (Bool-cases (str_eq old channel.nick)) [
  | inl e ↦ rw e refl
  | inr e ↦ rw e refl
]

abbrev told : Irssi → Channel → Nicks → Nick → Str → Channel
told irssi channel t renamed old =
    let added = nick_hash_add irssi (record channel { nicks = t }) renamed in
    record added { calls = added.calls ++ nicklist_changed renamed old ∷ [] }

-- Renaming a nick that stands once in the table does not fault: the nick leaves the chain of its old
-- name and joins that of the new name, at the end, or in front if it is one's own; every other nick
-- stays. The name one has in the room follows if it was the old name.
pub xmpp_nicklist_rename_lem :
    (irssi : Irssi) (channel : Channel) (n : Nick) (old new : Str)
    → IsKeyed irssi channel.nicks
    → StandsOnce irssi channel.nicks n
    → (c : Channel) × (xmpp_nicklist_rename irssi channel n old new ≡ some (c, renamed_to new n))
      × (c.nicks
          ≡ moved irssi channel.nicks n
              (renamed_to new n)
              (is_own channel n || str_eq old channel.nick))
      × (c.nick ≡ (if str_eq old channel.nick then new else channel.nick))
unfolding xmpp_nicklist_rename
xmpp_nicklist_rename_lem irssi channel n old new keyed once =
    let (t, run, same) = nick_hash_remove_lem irssi channel.nicks n keyed once.0 in
    let w = without irssi n channel.nicks in
    let renamed = renamed_to new n in
    let e : t ≡ w = by_keys t w same in
    let absent = once.1 (irssi.nick_key new) in
    let nick : (told irssi channel w renamed old).nick ≡ channel.nick =
      added_nick irssi (record channel { nicks = w }) renamed in
    (
      follow_own irssi (told irssi channel w renamed old) renamed old new,
      rw (run, xmpp_nicklist_rename, e) refl,
      follow_own_lem irssi (told irssi channel w renamed old) renamed old new (is_own channel n)
            (w (irssi.nick_key new)) w (added_lem irssi channel w renamed absent) absent
          ∙ ap (λ m. moved irssi channel.nicks n renamed (is_own channel n || str_eq old m)) nick,
      follow_own_nick irssi (told irssi channel w renamed old) renamed old new
          ∙ ap (λ m. if str_eq old m then new else m) nick,
    )
