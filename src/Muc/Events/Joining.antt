-- ===== src/Muc/Events/Joining.antt =====
-- src/core/xep/muc-events.c: what one's own join, and a change of nick, make of a room.
use irssi_xmpp.Prelude.{◌≡◌, refl, true, false, ◌||◌, some, [], ◌∷◌, if◌then◌else◌}
use irssi_xmpp.Prelude.Str.{Str, str_eq}
use irssi_xmpp.Glib.{Glib}
use irssi_xmpp.Muc.{Affiliation, Role, Nick, Nicks, Channel, Irssi}
use irssi_xmpp.Muc.Nicks.{is_own}
use irssi_xmpp.Muc.Nicks.Removal.{IsKeyed}
use irssi_xmpp.Muc.Nicks.Rename.{StandsOnce, moved, renamed_to, xmpp_nicklist_rename_lem}
use irssi_xmpp.Muc.Room.{calling}
use irssi_xmpp.Muc.Events.{nick_changed, renamed_call}
use irssi_xmpp.Muc.Events.Outcome.{HasModes}

-- What the first join leaves: one is in the room, is not known to be an operator, keeps the nick one
-- asked for, and is found under the name that the room gave.
abbrev pub Joined : Irssi → Channel → Str → Affiliation → Role → Channel → Type 0
Joined irssi before name a r c =
    (c.joined ≡ true)
    × (c.names_got ≡ true)
    × (c.chanop ≡ false)
    × (c.nick ≡ before.nick)
    × (c.ownnick ≡ some before.next)
    × HasModes irssi c.nicks name a r

module _ (irssi : Irssi) (channel : Channel) (n : Nick) where
  -- The table of nicks after the insertion, with one's own nick in front.
  abbrev own_nicks : Nicks
  own_nicks = irssi.nicklist_set_own (irssi.nicklist_insert channel.nicks n) n

-- Where every nick is in the chain of its key, a change of nick that is announced for a nick that
-- stands once in the table renames it there, without a fault; the nick one has in the room follows
-- if it was the old one.
pub nick_changed_lem :
    (irssi : Irssi) (channel : Channel) (old new : Str) (n : Nick)
    → IsKeyed irssi channel.nicks
    → StandsOnce irssi channel.nicks n
    → irssi.nicklist_find channel.nicks (some old) ≡ some n
    → (c : Channel) × (nick_changed irssi channel (some old) (some new) ≡ some c)
      × (c.nicks
          ≡ moved irssi channel.nicks n
              (renamed_to new n)
              (is_own channel n || str_eq old channel.nick))
      × (c.nick ≡ (if str_eq old channel.nick then new else channel.nick))
unfolding nick_changed
nick_changed_lem irssi channel old new n keyed once found =
    let (c, run, nicks, nick) = xmpp_nicklist_rename_lem irssi channel n old new keyed once in
    let r = renamed_to new n in
    (calling c (renamed_call c r (some old) ∷ []), rw (found, run, nick_changed) refl, nicks, nick)
