-- ===== src/Muc/Placed/Stanza.antt =====
-- src/core/xep/muc-events.c: the handler of presences from a room never faults.
use mathlib.Core.Path.{subst}
use irssi_xmpp.Prelude.{◌≡◌, some, arith}
use irssi_xmpp.Prelude.Str.{Str}
use irssi_xmpp.Loudmouth.{SubType}
use irssi_xmpp.Muc.{Channel}
use irssi_xmpp.Muc.Flags.{NicksFlagged}
use irssi_xmpp.Muc.Flags.Stanza.{sig_recv_presence-Flagged}
use irssi_xmpp.Muc.Flags.Kept.{RoomFlagged}
use irssi_xmpp.Muc.Placed.Kept.{
  IsPlacedRoom, Settles, settled, nick_changed-Settles, own_event-Settles, nick_event-IsPlaced,
  nick_presence-IsPlaced, nick_part-IsPlaced, nick_kicked-IsPlaced,
}
use irssi_xmpp.Muc.Stanzas.{World, sig_recv_presence}
use irssi_xmpp.Muc.Stanzas.Keeps.{IsKept, sig_recv_presence_kept}

room_of : (w : World) (c : Channel) → Settles w.irssi (some c) → IsPlacedRoom w.irssi c
room_of w c (d, e, p) = let same : d ≡ c = ground (arith, e) in subst (IsPlacedRoom w.irssi) same p

Settles-IsKept : (w : World) → IsKept w (Settles w.irssi)
Settles-IsKept w = record {
  changed = λ c old new h. nick_changed-Settles w.irssi c old new (room_of w c h);
  own = λ c name jid a r forced h.
      own_event-Settles w.glib w.irssi c (room_of w c h) name jid a r forced;
  event = λ c name jid a r h.
      settled w.irssi _ (nick_event-IsPlaced w.glib w.irssi c (room_of w c h) name jid a r);
  presence = λ c name show status h.
      settled w.irssi _ (nick_presence-IsPlaced w.glib w.irssi c (room_of w c h) name show status);
  part = λ c name reason h.
      settled w.irssi _ (nick_part-IsPlaced w.glib w.irssi c (room_of w c h) name reason);
  kicked = λ c name actor reason h.
      settled w.irssi _ (nick_kicked-IsPlaced w.glib w.irssi c (room_of w c h) name actor reason);
  asked = λ c nick calls h. settled w.irssi _ (room_of w c h);
}

-- In a room whose hash table is placed and whose nicks have the flags of their affiliation and role,
-- no presence makes the program fault, and the room stays so.
pub sig_recv_presence_safe :
    (w : World) (c : Channel)
    → IsPlacedRoom w.irssi c
    → NicksFlagged c.nicks
    → (message : w.lm.Node) (type : SubType) (from : Str)
    → (d : Channel) × (sig_recv_presence w c message type from ≡ some d)
      × IsPlacedRoom w.irssi d
      × NicksFlagged d.nicks
sig_recv_presence_safe w c p h message type from =
    let (d, run, q) =
      sig_recv_presence_kept w (Settles w.irssi) (Settles-IsKept w) c (settled w.irssi c p) message
        type from in
    (d, run, q, subst RoomFlagged run (sig_recv_presence-Flagged w c h message type from))
