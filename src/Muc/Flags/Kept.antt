-- ===== src/Muc/Flags/Kept.antt =====
-- src/core/xep/muc-events.c: every event of a room keeps the flags of its nicks.
use mathlib.Core.Path.{subst}
use irssi_xmpp.Prelude.{refl, Bool, Option, none, some, Bool-cases, Option-cases, inl, inr}
use irssi_xmpp.Prelude.Int.{pos}
use irssi_xmpp.Prelude.Str.{Str, str_eq}
use irssi_xmpp.Glib.{Glib}
use irssi_xmpp.Tools.{xmpp_presence_changed}
use irssi_xmpp.Roster.{rank}
use irssi_xmpp.Roster.Find.{xmpp_get_show}
use irssi_xmpp.Muc.{Nick, Channel, Irssi}
use irssi_xmpp.Muc.Modes.{
  xmpp_nicklist_get_affiliation, xmpp_nicklist_get_role, xmpp_nicklist_modes_changed,
  xmpp_nicklist_set_modes,
}
use irssi_xmpp.Muc.Nicks.{
  new_nick, nick_hash_remove, chained, nick_hash_add, is_own, follow_own, xmpp_nicklist_rename,
  xmpp_nicklist_insert, xmpp_nicklist_set_presence,
}
use irssi_xmpp.Muc.Nicks.Rename.{renamed_to}
use irssi_xmpp.Muc.Room.{calling, is_empty}
use irssi_xmpp.Muc.Events.{
  nick_changed, joined_channel, join_calls, ask_features, own_join, nick_join, nick_mode, own_event,
  nick_event, nick_part, nick_presence, nick_kicked,
}
use irssi_xmpp.Muc.Flags.{
  Flagged, NicksFlagged, TableFlagged, set_modes-Flagged, set_nick-Flagged, insert-Flagged,
  delete-Flagged, own-Flagged, chained-Flagged, nick_hash_remove-Flagged, found-Flagged,
}

-- The room that an event leaves, where it does not fault.
abbrev pub RoomFlagged : Option Channel → Type 0
RoomFlagged none = Unit
RoomFlagged (some c) = NicksFlagged c.nicks

abbrev RenamedFlagged : Option (Channel × Nick) → Type 0
RenamedFlagged none = Unit
RenamedFlagged (some (c, n)) = NicksFlagged c.nicks

module _ (irssi : Irssi) where
  nick_hash_add-Flagged :
      (c : Channel) (n : Nick)
      → Flagged n
      → NicksFlagged c.nicks
      → NicksFlagged (nick_hash_add irssi c n).nicks
  unfolding nick_hash_add
  nick_hash_add-Flagged c n f h =
      let g = chained-Flagged irssi c.nicks h n f in
      elim (Bool-cases (is_own c n)) [
        | inl e ↦ rw (e, nick_hash_add) (own-Flagged irssi (chained irssi c.nicks n) g n f)
        | inr e ↦ rw (e, nick_hash_add) g
      ]

  follow_own-Flagged :
      (c : Channel) (n : Nick) (old new : Str)
      → Flagged n
      → NicksFlagged c.nicks
      → NicksFlagged (follow_own irssi c n old new).nicks
  unfolding follow_own
  follow_own-Flagged c n old new f h = elim (Bool-cases (str_eq old c.nick)) [
    | inl e ↦ rw (e, follow_own) (own-Flagged irssi c.nicks h n f)
    | inr e ↦ rw (e, follow_own) h
  ]

  rename-Flagged :
      (c : Channel) (n : Nick) (old new : Str)
      → Flagged n
      → NicksFlagged c.nicks
      → RenamedFlagged (xmpp_nicklist_rename irssi c n old new)
  unfolding xmpp_nicklist_rename
  rename-Flagged c n old new f h = elim (Option-cases (nick_hash_remove irssi c.nicks n)) [
    | inl e ↦ rw (e, xmpp_nicklist_rename) tt
    | inr (t, e) ↦
        let g = subst (λ o. TableFlagged o) e (nick_hash_remove-Flagged irssi c.nicks h n) in
        let r = renamed_to new n in
        let added = nick_hash_add-Flagged (record c { nicks = t }) r f g in
        rw (e, xmpp_nicklist_rename) (follow_own-Flagged _ r old new f added)
  ]

  pub nick_changed-Flagged :
      (c : Channel) (old new : Option Str)
      → NicksFlagged c.nicks
      → RoomFlagged (nick_changed irssi c old new)
  unfolding nick_changed
  nick_changed-Flagged c none new h = rw (irssi.nicklist_find_null c.nicks, nick_changed) h
  nick_changed-Flagged c (some old) none h =
      elim (Option-cases (irssi.nicklist_find c.nicks (some old))) [
        | inl e ↦ rw (e, nick_changed) h
        | inr (n, e) ↦ rw (e, nick_changed) h
      ]
  nick_changed-Flagged c (some old) (some new) h =
      elim (Option-cases (irssi.nicklist_find c.nicks (some old))) [
        | inl e ↦ rw (e, nick_changed) h
        | inr (n, e) ↦
            let f = found-Flagged irssi c.nicks h (some old) n e in
            elim (Option-cases (xmpp_nicklist_rename irssi c n old new)) [
              | inl g ↦ rw (e, g, nick_changed) tt
              | inr ((d, r), g) ↦
                  rw (e, g, nick_changed)
                    (subst (λ o. RenamedFlagged o) g (rename-Flagged c n old new f h))
            ]
      ]

  asked-Flagged : (c : Channel) → NicksFlagged c.nicks → NicksFlagged (ask_features c).nicks
  unfolding ask_features
  asked-Flagged c h = elim (Bool-cases (is_empty c.mode)) [
    | inl e ↦ rw (e, ask_features) h
    | inr e ↦ rw (e, ask_features) h
  ]

module _ (glib : Glib) (irssi : Irssi) (c : Channel) (h : NicksFlagged c.nicks) where
  -- One's own join, forced or not.
  own_join-Flagged :
      (name : Str) (jid affiliation role : Option Str) (forced : Bool)
      → RoomFlagged (own_join glib irssi c name jid affiliation role forced)
  unfolding own_join xmpp_nicklist_insert joined_channel new_nick
  own_join-Flagged name jid affiliation role forced =
      let a = xmpp_nicklist_get_affiliation glib affiliation in
      let r = xmpp_nicklist_get_role glib role in
      let n = new_nick c name jid in
      let inserted = (xmpp_nicklist_insert irssi c name jid).0 in
      let j = calling (joined_channel irssi inserted n a r) (join_calls n a r) in
      let own =
        own-Flagged irssi (irssi.nicklist_insert c.nicks n)
          (insert-Flagged irssi c.nicks h n (refl, refl, refl)) n (refl, refl, refl) in
      let g : NicksFlagged j.nicks =
        set_nick-Flagged n.addr (xmpp_nicklist_set_modes a r)
          (irssi.nicklist_set_own (irssi.nicklist_insert c.nicks n) n)
          (λ m f. set_modes-Flagged a r m) own in
      elim (Bool-cases c.joined) [
        | inl e ↦ rw (e, own_join) h
        | inr e ↦ elim (Option-cases (irssi.nicklist_find c.nicks (some name))) [
          | inr (m, f) ↦ rw (e, f, own_join) h
          | inl f ↦ elim (Bool-cases forced) [
            | inr k ↦ rw (e, f, k, own_join) (asked-Flagged irssi j g)
            | inl k ↦ elim (Option-cases (nick_changed irssi j (some j.nick) (some name))) [
              | inl l ↦ rw (e, f, k, l, own_join) tt
              | inr (d, l) ↦
                  let left =
                    subst (λ o. RoomFlagged o) l
                      (nick_changed-Flagged irssi j (some j.nick) (some name) g) in
                  rw (e, f, k, l, own_join) (asked-Flagged irssi d left)
            ]
          ]
        ]
      ]

  nick_mode-Flagged :
      (n : Nick) (affiliation role : Option Str)
      → NicksFlagged (nick_mode glib c n affiliation role).nicks
  unfolding nick_mode
  nick_mode-Flagged n affiliation role =
      let a = xmpp_nicklist_get_affiliation glib affiliation in
      let r = xmpp_nicklist_get_role glib role in
      elim (Bool-cases (xmpp_nicklist_modes_changed n a r)) [
        | inl e ↦
            rw (e, nick_mode)
              (set_nick-Flagged n.addr (xmpp_nicklist_set_modes a r) c.nicks
                (λ m f. set_modes-Flagged a r m) h)
        | inr e ↦ rw (e, nick_mode) h
      ]

  nick_join-Flagged :
      (name : Str) (jid affiliation role : Option Str)
      → NicksFlagged (nick_join glib irssi c name jid affiliation role).nicks
  unfolding nick_join xmpp_nicklist_insert new_nick
  nick_join-Flagged name jid affiliation role =
      let a = xmpp_nicklist_get_affiliation glib affiliation in
      let r = xmpp_nicklist_get_role glib role in
      let n = new_nick c name jid in
      let g =
        set_nick-Flagged n.addr (xmpp_nicklist_set_modes a r) (irssi.nicklist_insert c.nicks n)
          (λ m f. set_modes-Flagged a r m) (insert-Flagged irssi c.nicks h n (refl, refl, refl)) in
      elim (Bool-cases c.names_got) [ inl e ↦ rw (e, nick_join) g | inr e ↦ rw (e, nick_join) g ]

  pub own_event-Flagged :
      (name : Str) (jid affiliation role : Option Str) (forced : Bool)
      → RoomFlagged (own_event glib irssi c name jid affiliation role forced)
  unfolding own_event
  own_event-Flagged name jid affiliation role forced =
      elim (Option-cases (irssi.nicklist_find c.nicks (some name))) [
        | inl e ↦ rw (e, own_event) (own_join-Flagged name jid affiliation role forced)
        | inr (n, e) ↦ rw (e, own_event) (nick_mode-Flagged n affiliation role)
      ]

  pub nick_event-Flagged :
      (name : Str) (jid affiliation role : Option Str)
      → NicksFlagged (nick_event glib irssi c name jid affiliation role).nicks
  unfolding nick_event
  nick_event-Flagged name jid affiliation role =
      elim (Option-cases (irssi.nicklist_find c.nicks (some name))) [
        | inl e ↦ rw (e, nick_event) (nick_join-Flagged name jid affiliation role)
        | inr (n, e) ↦ rw (e, nick_event) (nick_mode-Flagged n affiliation role)
      ]

  pub nick_presence-Flagged :
      (name : Str) (show status : Option Str)
      → NicksFlagged (nick_presence glib irssi c name show status).nicks
  unfolding nick_presence
  nick_presence-Flagged name show status =
      let p = xmpp_get_show glib show in
      elim (Option-cases (irssi.nicklist_find c.nicks (some name))) [
        | inl e ↦ rw (e, nick_presence) h
        | inr (n, e) ↦
            elim (Bool-cases
              (xmpp_presence_changed (rank p) (rank n.show) status n.status (pos 0) (pos 0))) [
                | inl f ↦
                    rw (e, f, nick_presence)
                      (set_nick-Flagged n.addr (xmpp_nicklist_set_presence p status) c.nicks
                        (λ m f. f) h)
                | inr f ↦ rw (e, f, nick_presence) h
              ]
      ]

  pub nick_part-Flagged :
      (name reason : Option Str) → NicksFlagged (nick_part irssi c name reason).nicks
  unfolding nick_part
  nick_part-Flagged name reason = elim (Option-cases (irssi.nicklist_find c.nicks name)) [
    | inl e ↦ rw (e, nick_part) h
    | inr (n, e) ↦ elim (Bool-cases (is_own c n)) [
      | inl f ↦ rw (e, f, nick_part) h
      | inr f ↦ rw (e, f, nick_part) (delete-Flagged irssi c.nicks h n)
    ]
  ]

  pub nick_kicked-Flagged :
      (name actor reason : Option Str) → NicksFlagged (nick_kicked irssi c name actor reason).nicks
  unfolding nick_kicked
  nick_kicked-Flagged name actor reason = elim (Option-cases (irssi.nicklist_find c.nicks name)) [
    | inl e ↦ rw (e, nick_kicked) h
    | inr (n, e) ↦ elim (Bool-cases (is_own c n)) [
      | inl f ↦ rw (e, f, nick_kicked) h
      | inr f ↦ rw (e, f, nick_kicked) (delete-Flagged irssi c.nicks h n)
    ]
  ]
