-- ===== src/Muc/Flags/Stanza.antt =====
-- src/core/xep/muc-events.c: every presence from a room keeps the flags of its nicks.
use irssi_xmpp.Prelude.Str.{Str}
use irssi_xmpp.Loudmouth.{SubType}
use irssi_xmpp.Muc.{Channel}
use irssi_xmpp.Muc.Flags.{NicksFlagged}
use irssi_xmpp.Muc.Flags.Kept.{
  RoomFlagged, nick_changed-Flagged, own_event-Flagged, nick_event-Flagged, nick_presence-Flagged,
  nick_part-Flagged, nick_kicked-Flagged,
}
use irssi_xmpp.Muc.Stanzas.{World, sig_recv_presence}
use irssi_xmpp.Muc.Stanzas.Keeps.{IsKept, sig_recv_presence_kept}

pub RoomFlagged-IsKept : (w : World) → IsKept w RoomFlagged
RoomFlagged-IsKept w = record {
  changed = λ c old new h. nick_changed-Flagged w.irssi c old new h;
  own = λ c name jid a r forced h. own_event-Flagged w.glib w.irssi c h name jid a r forced;
  event = λ c name jid a r h. nick_event-Flagged w.glib w.irssi c h name jid a r;
  presence = λ c name show status h. nick_presence-Flagged w.glib w.irssi c h name show status;
  part = λ c name reason h. nick_part-Flagged w.glib w.irssi c h name reason;
  kicked = λ c name actor reason h. nick_kicked-Flagged w.glib w.irssi c h name actor reason;
  asked = λ c nick calls h. h;
}

-- Where the flags of every nick in a room are those of its affiliation and role, so they are after
-- any presence from the room on which the program does not fault.
pub sig_recv_presence-Flagged :
    (w : World) (c : Channel)
    → NicksFlagged c.nicks
    → (message : w.lm.Node) (type : SubType) (from : Str)
    → RoomFlagged (sig_recv_presence w c message type from)
sig_recv_presence-Flagged w c h message type from =
    sig_recv_presence_kept w RoomFlagged (RoomFlagged-IsKept w) c h message type from
