-- ===== src/Muc/Requests/Rooms.antt =====
-- src/core/xep/muc.c: the search for the room of an occupant.
use irssi_xmpp.Prelude.{
  ◌≡◌, refl, sym, ap, ◌∙◌, Bool, true, false, Option, none, some, List, [], ◌∷◌, ◌++◌, map,
  if◌then◌else◌, find_first, arith,
}
use irssi_xmpp.Prelude.Int.{is_zero_eq, is_zero}
use irssi_xmpp.Prelude.Str.{Str, has, has-append, has-before, ascii_lower, before-append}
use irssi_xmpp.Glib.{Glib}
use irssi_xmpp.Tools.{xmpp_strip_resource, xmpp_extract_resource}
use irssi_xmpp.Muc.{Channel}
use irssi_xmpp.Muc.Requests.{
  Client, Server, channel_find_func, ischannel_func, get_muc, join_unless, join_parsed, muc_join,
  muc_create, send_join, muc_nick,
}

-- No room has a '/' in its name.
pub data BareNames : List Channel → Type 0 where
  nothing : BareNames []
  room :
      {c : Channel} → {l : List Channel} → has b'/' c.name ≡ false → BareNames l → BareNames (c ∷ l)

lower_slash : (a : Str) → has b'/' (map ascii_lower a) ≡ has b'/' a
unfolding has
lower_slash [] = refl
lower_slash (c ∷ a) = ground (arith, lower_slash a)

-- Texts that compare as equal without case agree on holding a '/'.
same_slash :
    (glib : Glib) (a b : Str) → is_zero (glib.ascii_strcasecmp a b) ≡ true → has b'/' a ≡ has b'/' b
same_slash glib a b h =
    sym (lower_slash a)
    ∙ ap (has b'/') ((glib.ascii_strcasecmp_iff a b).0 (is_zero_eq _ h))
    ∙ lower_slash b

find_occupant :
    (glib : Glib) (text : Str)
    → has b'/' text ≡ true
    → {l : List Channel} → BareNames l
    → find_first (λ c. is_zero (glib.ascii_strcasecmp text c.name)) l ≡ none
unfolding find_first
find_occupant glib text slash nothing = refl
find_occupant glib text slash (room {c} bare rest) =
    ground (arith, same_slash glib text c.name, find_occupant glib text slash rest)

occupant_slash : (b n : Str) → has b'/' (b ++ b'/' ∷ n) ≡ true
occupant_slash b n = rw (has-append b'/' b (b'/' ∷ n)) (unfold has in ground arith)

-- The text room/nick never counts as a room, where no room has a '/' in its name, even when get_muc
-- finds the room for the same text.
pub ischannel_func-occupant :
    (glib : Glib) (server : Server) (b n : Str)
    → BareNames server.channels
    → has b'/' b ≡ false
    → (ischannel_func glib server (b ++ b'/' ∷ n) ≡ false)
      × (get_muc glib server (b ++ b'/' ∷ n) ≡ channel_find_func glib server b)
unfolding ischannel_func channel_find_func get_muc xmpp_strip_resource
ischannel_func-occupant glib server b n bare slash = (
  ap (λ o. elim o [ none ↦ false | some c ↦ true ])
      (find_occupant glib (b ++ b'/' ∷ n) (occupant_slash b n) bare),
  ap (channel_find_func glib server) (before-append b'/' b n slash),
)

BareNames-snoc :
    (c : Channel)
    → has b'/' c.name ≡ false
    → {l : List Channel} → BareNames l
    → BareNames (l ++ c ∷ [])
BareNames-snoc c h nothing = room h nothing
BareNames-snoc c h (room e rest) = room e (BareNames-snoc c h rest)

send_join_rooms :
    (client : Client) (server : Server) (c : Channel)
    → (send_join client server c).channels ≡ server.channels
unfolding send_join muc_nick
send_join_rooms client server c = ground arith

join_unless-BareNames :
    (client : Client) (server : Server) (name : Str) (nick : Option Str) (key : Str)
    (o : Option Channel)
    → has b'/' name ≡ false
    → BareNames server.channels
    → BareNames (join_unless client server name nick key o).channels
unfolding join_unless muc_create
join_unless-BareNames client server name nick key (some c) h bare = bare
join_unless-BareNames client server name nick key none h bare =
    rw (send_join_rooms client _ _) (BareNames-snoc _ h bare)

join_parsed-BareNames :
    (client : Client) (server : Server) (o : Option (Str × Str))
    → BareNames server.channels
    → BareNames (join_parsed client server o).channels
unfolding join_parsed xmpp_strip_resource
join_parsed-BareNames client server none bare = bare
join_parsed-BareNames client server (some (chanline, key)) bare =
    join_unless-BareNames client server _ (xmpp_extract_resource chanline) key _
      (has-before b'/' chanline) bare

if-BareNames :
    (b : Bool) (s t : Server)
    → BareNames s.channels
    → BareNames t.channels
    → BareNames (if b then s else t).channels
if-BareNames true s t h k = h
if-BareNames false s t h k = k

-- Joining a room, with whatever line, never makes a room with a '/' in its name.
pub muc_join-BareNames :
    (client : Client) (server : Server) (line : Str)
    → BareNames server.channels
    → BareNames (muc_join client server line).channels
unfolding muc_join
muc_join-BareNames client server line bare =
    if-BareNames server.connected _ server
      (join_parsed-BareNames client server (client.cmd_get_params line) bare) bare
