-- ===== src/Muc/Placed/Tests.antt =====
-- A room that hears of bob, then that bob has gone.
use irssi_xmpp.Prelude.{◌≡◌, refl, some}
use irssi_xmpp.Prelude.Str.{codes}
use irssi_xmpp.Loudmouth.{SubType}
use irssi_xmpp.Muc.{Channel}
use irssi_xmpp.Muc.Flags.{NicksFlagged}
use irssi_xmpp.Muc.Stanzas.{sig_recv_presence}
use irssi_xmpp.Muc.Sample.{hash_table, world, promotion, new_room}
use irssi_xmpp.Muc.Placed.Kept.{IsPlacedRoom}
use irssi_xmpp.Muc.Placed.Stanza.{sig_recv_presence_safe}
use irssi_xmpp.Muc.Placed.Reach.{here, next, nobody-IsPlaced, reached_room_answers}

bob_heard :
    (d : Channel) × (sig_recv_presence world new_room promotion SubType.available
        (codes "room@host/bob")
      ≡ some d)
    × IsPlacedRoom hash_table d
    × NicksFlagged d.nicks
bob_heard =
    sig_recv_presence_safe world new_room (nobody-IsPlaced hash_table 3) (λ k. tt) promotion
      SubType.available (codes "room@host/bob")

reached_room_answers_example :
    (e : Channel) × (sig_recv_presence world bob_heard.0 promotion SubType.unavailable
        (codes "room@host/bob")
      ≡ some e)
    × NicksFlagged e.nicks
reached_room_answers_example =
    reached_room_answers world new_room bob_heard.0 refl
      (next promotion SubType.available (codes "room@host/bob") here bob_heard.1) promotion
      SubType.unavailable (codes "room@host/bob")
