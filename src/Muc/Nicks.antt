-- ===== src/Muc/Nicks.antt =====
-- src/core/xep/muc-nicklist.c: inserting a nick, and renaming one in the hash table.
pub mod Removal
pub mod Rename
use irssi_xmpp.Prelude.{
  ℕ, suc, ◌==◌, ◌≡◌, Bool, true, false, ◌||◌, Option, none, some, List, [], ◌∷◌, ◌++◌,
  if◌then◌else◌,
}
use irssi_xmpp.Prelude.Str.{Str, str_eq}
use irssi_xmpp.Roster.{Presence}
use irssi_xmpp.Muc.{
  Affiliation, Role, Nick, Nicks, Call, nicklist_changed, Channel, put, at_nick, Irssi, set_nick,
}

unfoldable pub new_nick : Channel → Str → Option Str → Nick
new_nick channel nickname full_jid = record {
  addr = channel.next;
  nick = nickname;
  host = elim full_jid [ some jid ↦ jid | none ↦ channel.name ++ b'/' ∷ nickname ];
  show = Presence.available;
  status = none;
  affiliation = Affiliation.nothing;
  role = Role.nothing;
  prefixes = [];
  op = false;
  halfop = false;
  voice = false;
}

-- The room, and the new nick.
unfoldable pub xmpp_nicklist_insert : Irssi → Channel → Str → Option Str → Channel × Nick
unfolding new_nick
xmpp_nicklist_insert irssi channel nickname full_jid =
    let n = new_nick channel nickname full_jid in
    (record channel { nicks = irssi.nicklist_insert channel.nicks n; next = suc channel.next }, n)

-- `nick == channel->ownnick`
abbrev pub is_own : Channel → Nick → Bool
is_own channel n = elim channel.ownnick [ none ↦ false | some a ↦ a == n.addr ]

-- The nick at the end of its chain, or in a chain of its own.
unfoldable pub chained : Irssi → Nicks → Nick → Nicks
unfolding put
chained irssi t n = elim (t (irssi.nick_key n.nick)) [
  | [] ↦ put (irssi.nick_key n.nick) (n ∷ []) t
  | x ∷ l ↦ put (irssi.nick_key n.nick) (x ∷ l ++ n ∷ []) t
]

unfoldable pub nick_hash_add : Irssi → Channel → Nick → Channel
unfolding chained
nick_hash_add irssi channel n =
    let t = chained irssi channel.nicks n in
    if is_own channel n
    then record channel { nicks = irssi.nicklist_set_own t n; ownnick = some n.addr }
    else record channel { nicks = t }

-- The loop that looks for the nick before `nick`, and the write of its `next`. `none` stands for the
-- read through NULL at the end of a chain without `nick`.
unfoldable pub unlink : ℕ → List Nick → Option (List Nick)
unfolding at_nick
unlink a [] = none
unlink a (x ∷ l) =
    let rest = unlink a l in
    if at_nick a x then some l else elim rest [ none ↦ none | some r ↦ some (x ∷ r) ]

-- The entry of the first nick goes, and the rest of the chain gets an entry under its own first name.
unfoldable pub rehashed : Irssi → Str → List Nick → Nicks → Nicks
unfolding put
rehashed irssi key [] t = put key [] t
rehashed irssi key (x ∷ l) t = put (irssi.nick_key x.nick) (x ∷ l) (put key [] t)

-- The chain `l` at `key` without the nick at that address.
unfoldable pub removed_from : Irssi → Str → ℕ → List Nick → Nicks → Option Nicks
unfolding unlink rehashed put at_nick
removed_from irssi key a [] t = some t
removed_from irssi key a (x ∷ []) t = some (put key [] t)
removed_from irssi key a (x ∷ y ∷ l) t =
    if at_nick a x
    then some (rehashed irssi key (y ∷ l) t)
    else elim (unlink a (y ∷ l)) [ none ↦ none | some r ↦ some (put key (x ∷ r) t) ]

unfoldable pub nick_hash_remove : Irssi → Nicks → Nick → Option Nicks
unfolding removed_from
nick_hash_remove irssi t n =
    removed_from irssi (irssi.nick_key n.nick) n.addr (t (irssi.nick_key n.nick)) t

-- The nick becomes one's own where the old name is the name one has in the room.
unfoldable pub follow_own : Irssi → Channel → Nick → Str → Str → Channel
unfolding str_eq
follow_own irssi channel n oldnick newnick =
    if str_eq oldnick channel.nick
    then record channel {
      nicks = irssi.nicklist_set_own channel.nicks n;
      ownnick = some n.addr;
      nick = newnick;
    }
    else channel

-- The room and the nick renamed.
unfoldable pub xmpp_nicklist_rename : Irssi → Channel → Nick → Str → Str → Option (Channel × Nick)
unfolding nick_hash_remove nick_hash_add follow_own
xmpp_nicklist_rename irssi channel n oldnick newnick =
    elim (nick_hash_remove irssi channel.nicks n) [
      | none ↦ none
      | some t ↦
          let renamed : Nick = record n { nick = newnick } in
          let added = nick_hash_add irssi (record channel { nicks = t }) renamed in
          let told : Channel = record added {
            calls = added.calls ++ nicklist_changed renamed oldnick ∷ [];
          } in
          some (follow_own irssi told renamed oldnick newnick, renamed)
    ]

abbrev pub xmpp_nicklist_set_presence : Presence → Option Str → Nick → Nick
xmpp_nicklist_set_presence show status n = record n { show = show; status = status }
