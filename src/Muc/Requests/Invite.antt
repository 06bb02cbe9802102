-- ===== src/Muc/Requests/Invite.antt =====
-- src/core/xep/muc-events.c: invitations to rooms that one is not in.
use irssi_xmpp.Prelude.{
  ℕ, ◌==◌, ◌≡◌, refl, ap, ◌∙◌, Bool, true, false, ◌&&◌, Option, none, some, List, [], ◌∷◌, ◌++◌,
  if◌then◌else◌,
}
use irssi_xmpp.Prelude.Str.{Str, codes, has, before-absent, after-absent}
use irssi_xmpp.Tools.{xmpp_recode_in, xmpp_strip_resource, xmpp_extract_resource}
use irssi_xmpp.Loudmouth.{Loudmouth, SubType, lm_find_node}
use irssi_xmpp.Muc.{Channel}
use irssi_xmpp.Muc.Requests.{
  Client, Server, quoted, muc_create, send_join, keyed, channel_find_func, join_unless, muc_join,
}
use irssi_xmpp.Muc.Requests.JoinData.{ReadsQuotes, line_joined}

-- The server, the room of the last invitation, and the invitations signalled: who invites, to which
-- room, and with which password.
pub record Invited : Type 0 where
  pub server : Server
  pub last_invite : Option Str
  pub invites : List (Option Str × Str × Option Str)

-- The line for muc_join.
unfoldable invite_line : Str → Option Str → Str
invite_line channame none = quoted channame
invite_line channame (some password) = quoted channame ++ b' ' ∷ password

-- `autojoin` is the setting of the room, found by channel_setup_find, and
-- `join_auto_chans_on_invite` the general one.
module _ (lm : Loudmouth) (client : Client) (autojoin : Str → Bool)
    (join_auto_chans_on_invite : Bool) where
  unfoldable pub joined_if_asked : Server → Str → Option Str → Server
  unfolding invite_line muc_join
  joined_if_asked server channame password =
      let joined = muc_join client server (invite_line channame password) in
      if autojoin channame && join_auto_chans_on_invite then joined else server

  password_of : Option lm.Node → Option Str
  unfolding xmpp_recode_in
  password_of none = none
  password_of (some node) = xmpp_recode_in client.charsets (lm.value node)

  pub invite : Invited → Str → lm.Node → lm.Node → Invited
  unfolding joined_if_asked password_of xmpp_recode_in
  invite s channame node invite_node = elim (lm.get_attribute invite_node (codes "from")) [
    | none ↦ s
    | some from ↦
        let password = password_of (lm.get_child node (codes "password")) in
        record {
          server = joined_if_asked s.server channame password;
          last_invite = some channame;
          invites =
              s.invites ++ (xmpp_recode_in client.charsets (some from), channame, password) ∷ [];
        }
  ]

  -- The types of a message that may invite.
  abbrev may_invite : SubType → Bool
  may_invite SubType.not_set = true
  may_invite SubType.normal = true
  may_invite type = false

  -- The first part of sig_recv_message, for a room that one is not in.
  pub recv_invitation : Invited → lm.Node → SubType → Str → Invited
  unfolding invite lm_find_node
  recv_invitation s message type from =
      elim (lm_find_node lm (some message) (codes "x") (codes "xmlns")
        (codes "http://jabber.org/protocol/muc#user")) [
          | none ↦ s
          | some node ↦ elim (lm.get_child node (codes "invite")) [
            | none ↦ s
            | some child ↦ if may_invite type then invite s from node child else s
          ]
        ]

  -- The room that an invitation makes.
  abbrev pub invited_room : Server → Str → Str → Channel
  invited_room server channame key = keyed (muc_create client server channame none) key

  -- An invitation with a password, to a room that is to be joined on invitation, makes a connected
  -- server that is not in the room create it, with that password as its key, and ask to join it. The
  -- name has no '/', quote or backslash, and the password begins with no blank.
  pub joined_if_asked-password :
      (server : Server) (channame : Str) (c : ℕ) (password : Str)
      → ReadsQuotes client
      → has b'/' channame ≡ false
      → has b'"' channame ≡ false
      → has b'\\' channame ≡ false
      → (c == b' ') ≡ false
      → (autojoin channame && join_auto_chans_on_invite) ≡ true
      → server.connected ≡ true
      → channel_find_func client.glib server channame ≡ none
      → (joined_if_asked server channame (some (c ∷ password))
          ≡ send_join client
              (record server {
                channels = server.channels ++ invited_room server channame (c ∷ password) ∷ [];
              })
              (invited_room server channame (c ∷ password)))
        × ((invited_room server channame (c ∷ password)).key ≡ some (c ∷ password))
  unfolding joined_if_asked invite_line join_unless xmpp_strip_resource xmpp_extract_resource
  joined_if_asked-password server channame c password reads slash quote back blank asked up new = (
    ap (λ b. if b then muc_join client server (quoted channame ++ b' ' ∷ c ∷ password) else server)
          asked
        ∙ line_joined client server (quoted channame ++ b' ' ∷ c ∷ password) channame channame none
            (c ∷ password) up (reads.followed channame c password quote back blank)
            (before-absent b'/' channame slash) (after-absent b'/' channame slash) new,
    refl,
  )
