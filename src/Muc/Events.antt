-- ===== src/Muc/Events.antt =====
-- src/core/xep/muc-events.c: what happens in a room. A fault of a rename is `none`.
pub mod Outcome
pub mod Joining
use irssi_xmpp.Prelude.{Bool, true, Option, none, some, List, [], ◌∷◌, if◌then◌else◌}
use irssi_xmpp.Prelude.Int.{pos}
use irssi_xmpp.Prelude.Str.{Str}
use irssi_xmpp.Glib.{Glib}
use irssi_xmpp.Tools.{xmpp_presence_changed}
use irssi_xmpp.Roster.{rank}
use irssi_xmpp.Roster.Find.{xmpp_get_show}
use irssi_xmpp.Muc.{
  Affiliation, Role, Nick, Call, channel_joined, channel_sync, send_autocommands, channel_destroy,
  message_own_nick, message_nick, message_join, message_mode, disco_request, message_part,
  message_kick, Channel, Irssi, set_nick,
}
use irssi_xmpp.Muc.Modes.{
  xmpp_nicklist_get_affiliation, xmpp_nicklist_get_role, xmpp_nicklist_modes_changed,
  xmpp_nicklist_set_modes,
}
use irssi_xmpp.Muc.Nicks.{
  xmpp_nicklist_insert, xmpp_nicklist_rename, xmpp_nicklist_set_presence, is_own,
}
use irssi_xmpp.Muc.Room.{calling, is_empty}

renamed_call : Channel → Nick → Option Str → Call
renamed_call channel n oldnick =
    if is_own channel n then message_own_nick n oldnick else message_nick n oldnick

-- A rename to NULL is refused by xmpp_nicklist_rename; the signal is emitted all the same.
unfoldable pub nick_changed : Irssi → Channel → Option Str → Option Str → Option Channel
unfolding renamed_call xmpp_nicklist_rename
nick_changed irssi channel none newnick = elim (irssi.nicklist_find channel.nicks none) [
  | none ↦ some channel
  | some n ↦ some (calling channel (renamed_call channel n none ∷ []))
]
nick_changed irssi channel (some oldnick) newnick =
    elim (irssi.nicklist_find channel.nicks (some oldnick)) [
      | none ↦ some channel
      | some n ↦ elim newnick [
        | none ↦ some (calling channel (renamed_call channel n (some oldnick) ∷ []))
        | some new ↦ elim (xmpp_nicklist_rename irssi channel n oldnick new) [
          | none ↦ none
          | some (c, r) ↦ some (calling c (renamed_call c r (some oldnick) ∷ []))
        ]
      ]
    ]

-- `channel->chanop` is read from the new nick before its modes are set.
unfoldable pub joined_channel : Irssi → Channel → Nick → Affiliation → Role → Channel
joined_channel irssi channel n affiliation role =
    let own = irssi.nicklist_set_own channel.nicks n in
    record channel {
      nicks = set_nick n.addr (xmpp_nicklist_set_modes affiliation role) own;
      ownnick = some n.addr;
      chanop = n.op;
      names_got = true;
      joined = true;
    }

pub join_calls : Nick → Affiliation → Role → List Call
join_calls n affiliation role =
    message_join n.nick n.host
    ∷ message_mode n.nick affiliation role
    ∷ channel_joined
    ∷ channel_sync
    ∷ send_autocommands
    ∷ []

unfoldable pub ask_features : Channel → Channel
ask_features channel =
    if is_empty channel.mode then calling channel (disco_request channel.name ∷ []) else channel

unfoldable pub own_join :
    Glib → Irssi → Channel → Str → Option Str → Option Str → Option Str → Bool → Option Channel
unfolding joined_channel join_calls ask_features nick_changed xmpp_nicklist_insert
own_join glib irssi channel nickname full_jid affiliation role forced =
    if channel.joined
    then some channel
    else elim (irssi.nicklist_find channel.nicks (some nickname)) [
      | some n ↦ some channel
      | none ↦
          let a = xmpp_nicklist_get_affiliation glib affiliation in
          let r = xmpp_nicklist_get_role glib role in
          let (inserted, n) = xmpp_nicklist_insert irssi channel nickname full_jid in
          let j = calling (joined_channel irssi inserted n a r) (join_calls n a r) in
          if forced
          then elim (nick_changed irssi j (some j.nick) (some nickname)) [
            | none ↦ none
            | some c ↦ some (ask_features c)
          ]
          else some (ask_features j)
    ]

unfoldable pub nick_join :
    Glib → Irssi → Channel → Str → Option Str → Option Str → Option Str → Channel
unfolding xmpp_nicklist_insert
nick_join glib irssi channel nickname full_jid affiliation role =
    let a = xmpp_nicklist_get_affiliation glib affiliation in
    let r = xmpp_nicklist_get_role glib role in
    let (inserted, n) = xmpp_nicklist_insert irssi channel nickname full_jid in
    let c : Channel = record inserted {
      nicks = set_nick n.addr (xmpp_nicklist_set_modes a r) inserted.nicks;
    } in
    if c.names_got then calling c (message_join n.nick n.host ∷ message_mode n.nick a r ∷ []) else c

unfoldable pub nick_mode : Glib → Channel → Nick → Option Str → Option Str → Channel
unfolding xmpp_nicklist_modes_changed
nick_mode glib channel n affiliation role =
    let a = xmpp_nicklist_get_affiliation glib affiliation in
    let r = xmpp_nicklist_get_role glib role in
    if xmpp_nicklist_modes_changed n a r
    then calling
        (record channel { nicks = set_nick n.addr (xmpp_nicklist_set_modes a r) channel.nicks })
        (message_mode n.nick a r ∷ [])
    else channel

unfoldable pub own_event :
    Glib → Irssi → Channel → Str → Option Str → Option Str → Option Str → Bool → Option Channel
unfolding own_join nick_mode
own_event glib irssi channel nickname full_jid affiliation role forced =
    elim (irssi.nicklist_find channel.nicks (some nickname)) [
      | none ↦ own_join glib irssi channel nickname full_jid affiliation role forced
      | some n ↦ some (nick_mode glib channel n affiliation role)
    ]

unfoldable pub nick_event :
    Glib → Irssi → Channel → Str → Option Str → Option Str → Option Str → Channel
unfolding nick_join nick_mode
nick_event glib irssi channel nickname full_jid affiliation role =
    elim (irssi.nicklist_find channel.nicks (some nickname)) [
      | none ↦ nick_join glib irssi channel nickname full_jid affiliation role
      | some n ↦ nick_mode glib channel n affiliation role
    ]

unfoldable pub nick_part : Irssi → Channel → Option Str → Option Str → Channel
nick_part irssi channel nickname reason = elim (irssi.nicklist_find channel.nicks nickname) [
  | none ↦ channel
  | some n ↦
      let c = calling channel (message_part n.nick n.host reason ∷ []) in
      if is_own channel n
      then calling (record c { left = true }) (channel_destroy ∷ [])
      else record c { nicks = irssi.nicklist_remove channel.nicks n }
]

unfoldable pub nick_presence : Glib → Irssi → Channel → Str → Option Str → Option Str → Channel
unfolding xmpp_presence_changed
nick_presence glib irssi channel nickname show_str status =
    let show = xmpp_get_show glib show_str in
    elim (irssi.nicklist_find channel.nicks (some nickname)) [
      | none ↦ channel
      | some n ↦
          if xmpp_presence_changed (rank show) (rank n.show) status n.status (pos 0) (pos 0)
          then record channel {
            nicks = set_nick n.addr (xmpp_nicklist_set_presence show status) channel.nicks;
          }
          else channel
    ]

abbrev pub actor_or : Str → Option Str → Str
actor_or name none = name
actor_or name (some actor) = actor

unfoldable pub nick_kicked : Irssi → Channel → Option Str → Option Str → Option Str → Channel
nick_kicked irssi channel nickname actor reason =
    elim (irssi.nicklist_find channel.nicks nickname) [
      | none ↦ channel
      | some n ↦
          let c =
            calling channel
              (message_kick n.nick (actor_or channel.name actor) n.host reason ∷ []) in
          if is_own channel n
          then calling (record c { kicked = true }) (channel_destroy ∷ [])
          else record c { nicks = irssi.nicklist_remove channel.nicks n }
    ]
