-- ===== src/Completion/Commands.antt =====
-- src/fe-common/xmpp-completion.c: the handlers of what irssi asks to complete.
--
-- A handler gives the list, and whether it stopped the signal. `strsplit` is g_strsplit(args, " ", 2).
use irssi_xmpp.Prelude.{
  Bool, true, false, not, ◌&&◌, ◌||◌, ◌==◌, Option, none, some, List, [], ◌∷◌, ◌++◌, if◌then◌else◌,
  length,
}
use irssi_xmpp.Prelude.Int.{is_zero}
use irssi_xmpp.Prelude.Str.{Str, codes}
use irssi_xmpp.Glib.{Glib}
use irssi_xmpp.Roster.{Presence, xmpp_presence_show, Group}
use irssi_xmpp.Completion.{starts, get_nicks, get_jids}

-- A room of the settings.
pub record Setup : Type 0 where
  pub name : Str
  pub is_xmpp : Bool

-- The fields of a server that the code uses.
pub record Server : Type 0 where
  pub roster : List Group
  pub channels : List Str

-- The window: its server, where that is one of XMPP, and whether it shows a channel.
pub record Window : Type 0 where
  pub server : Option Server
  pub is_channel : Bool

-- What the handlers ask of elsewhere.
pub record World : Type 1 where
  pub glib : Glib
  pub strsplit : Str → List Str
  pub find_string : List Str → Str → Bool
  pub cmdchars : Str
  pub setupchannels : List Setup

-- `*word == '"' ? word+1 : word`
abbrev unquoted : Str → Str
unquoted [] = []
unquoted (c ∷ s) = if c == b'"' then s else c ∷ s

-- `if (*list != NULL) signal_stop()`
abbrev stopping : List Str → List Str × Bool
stopping [] = ([], false)
stopping (s ∷ l) = (s ∷ l, true)

module _ (w : World) where
  pub sig_complete_word : Window → List Str → Str → Str → List Str
  unfolding get_nicks
  sig_complete_word window list word linestart = elim window.server [
    | none ↦ list
    | some server ↦
        let command = is_zero (w.glib.ascii_strncasecmp linestart w.cmdchars 1) in
        let in_command = list ++ get_nicks w.glib server.roster (unquoted word) true true in
        let in_text = list ++ get_nicks w.glib server.roster word false true in
        if command then in_command else if window.is_channel then list else in_text
  ]

  -- The loop over the groups.
  add_groups : Str → List Str → List Group → List Str
  unfolding starts
  add_groups word list [] = list
  add_groups word list (g ∷ r) = elim g.name [
    | none ↦ add_groups word list r
    | some name ↦
        let more = list ++ name ∷ [] in
        add_groups word
          (if is_zero (w.glib.ascii_strncasecmp word name (length word)) then more else list) r
  ]

  pub sig_complete_command_roster_group : Window → List Str → Str → Str → List Str × Bool
  unfolding get_nicks add_groups
  sig_complete_command_roster_group window list word args = elim window.server [
    | none ↦ (list, false)
    | some server ↦ elim (w.strsplit args) [
      | [] ↦ stopping (list ++ get_nicks w.glib server.roster (unquoted word) true false)
      | a ∷ [] ↦ stopping (add_groups word list server.roster)
      | a ∷ b ∷ l ↦ stopping list
    ]
  ]

  pub sig_complete_command_roster_others : Window → List Str → Str → Str → List Str × Bool
  unfolding get_nicks
  sig_complete_command_roster_others window list word args = elim window.server [
    | none ↦ (list, false)
    | some server ↦ elim (w.strsplit args) [
      | [] ↦ stopping (list ++ get_nicks w.glib server.roster (unquoted word) true false)
      | a ∷ l ↦ stopping list
    ]
  ]

  pub sig_complete_command_presence : Window → List Str → Str → Str → List Str × Bool
  unfolding get_jids
  sig_complete_command_presence window list word args = elim window.server [
    | none ↦ (list, false)
    | some server ↦ elim (w.strsplit args) [
      | [] ↦ stopping (list ++ get_jids w.glib server.roster (unquoted word))
      | a ∷ l ↦ stopping list
    ]
  ]

  -- The loop over the rooms that are joined.
  add_channels : Str → List Str → List Str → List Str
  unfolding starts
  add_channels word list [] = list
  add_channels word list (name ∷ l) =
      let more = list ++ name ∷ [] in
      add_channels word (if starts w.glib name word then more else list) l

  -- `*name != '#'`
  abbrev no_hash : Str → Bool
  no_hash [] = true
  no_hash (c ∷ s) = not (c == b'#')

  -- The loop over the rooms of the settings.
  add_setups : Str → List Str → List Setup → List Str
  unfolding starts
  add_setups word list [] = list
  add_setups word list (s ∷ l) =
      let fits =
        (s.is_xmpp || no_hash s.name)
        && starts w.glib s.name word
        && not (w.find_string list s.name) in
      let more = list ++ s.name ∷ [] in add_setups word (if fits then more else list) l

  pub get_channels : Server → Str → List Str
  unfolding add_channels add_setups
  get_channels server word = add_setups word (add_channels word [] server.channels) w.setupchannels

  pub sig_complete_command_channels : Window → List Str → Str → List Str × Bool
  unfolding get_channels
  sig_complete_command_channels window list word = elim window.server [
    | none ↦ (list, false)
    | some server ↦ stopping (get_channels server word)
  ]

  pub sig_complete_command_invite : Window → List Str → Str → Str → List Str × Bool
  unfolding get_channels
  sig_complete_command_invite window list word args = elim window.server [
    | none ↦ (list, false)
    | some server ↦ elim (w.strsplit args) [
      | [] ↦ stopping list
      | a ∷ [] ↦ stopping (get_channels server word)
      | a ∷ b ∷ l ↦ stopping list
    ]
  ]

  -- `g_ascii_strncasecmp(word, name, len) == 0`, with the text that is offered.
  offer_away : Str → Str → Str → List Str → List Str
  offer_away word name text list =
      let more = list ++ text ∷ [] in
      if is_zero (w.glib.ascii_strncasecmp word name (length word)) then more else list

  pub sig_complete_command_away : Window → List Str → Str → List Str × Bool
  unfolding offer_away
  sig_complete_command_away window list word = elim window.server [
    | none ↦ (list, false)
    | some server ↦
        let shown : Presence → List Str → List Str =
          λ p l. offer_away word (xmpp_presence_show p) (xmpp_presence_show p) l in
        (
          offer_away word (xmpp_presence_show Presence.online) (codes "online") (
              shown Presence.chat
                (shown Presence.dnd (shown Presence.xa (shown Presence.away list)))),
          true,
        )
  ]
