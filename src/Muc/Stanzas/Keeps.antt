-- ===== src/Muc/Stanzas/Keeps.antt =====
-- src/core/xep/muc-events.c: what every event of a room keeps, every presence from the room keeps.
use mathlib.Core.Path.{subst}
use irssi_xmpp.Prelude.{
  Bool, true, false, Option, some, List, Bool-cases, Option-cases, inl, inr, if◌then◌else◌,
}
use irssi_xmpp.Prelude.Int.{ℤ, pos, eqb_ℤ}
use irssi_xmpp.Prelude.Str.{Str, codes, str_eq, atoi}
use irssi_xmpp.Tools.{xmpp_extract_resource}
use irssi_xmpp.Loudmouth.{SubType, lm_find_node}
use irssi_xmpp.Muc.{Call, Channel}
use irssi_xmpp.Muc.Room.{error_code, of_another, error_join, error_presence}
use irssi_xmpp.Muc.Events.{
  nick_changed, own_event, nick_event, nick_part, nick_presence, nick_kicked,
}
use irssi_xmpp.Muc.Stanzas.{
  World, text_of, attribute_of, child_of, has_status, room_created, item_event, or_from, available,
  status_event, status_code, unavailable, error_event, sig_recv_presence, xmlns_muc_user,
}

-- A property of the outcome of an event, where `none` is a fault, that every event keeps.
pub record IsKept (w : World) (K : Option Channel → Type 0) : Type 0 where
  pub changed :
      (c : Channel) (old new : Option Str) → K (some c) → K (nick_changed w.irssi c old new)
  pub own :
      (c : Channel) (name : Str) (jid affiliation role : Option Str) (forced : Bool)
      → K (some c)
      → K (own_event w.glib w.irssi c name jid affiliation role forced)
  pub event :
      (c : Channel) (name : Str) (jid affiliation role : Option Str)
      → K (some c)
      → K (some (nick_event w.glib w.irssi c name jid affiliation role))
  pub presence :
      (c : Channel) (name : Str) (show status : Option Str)
      → K (some c)
      → K (some (nick_presence w.glib w.irssi c name show status))
  pub part :
      (c : Channel) (name reason : Option Str)
      → K (some c)
      → K (some (nick_part w.irssi c name reason))
  pub kicked :
      (c : Channel) (name actor reason : Option Str)
      → K (some c)
      → K (some (nick_kicked w.irssi c name actor reason))
  pub asked :
      (c : Channel) (nick : Str) (calls : List Call)
      → K (some c)
      → K (some (record c { nick = nick; calls = calls }))

module _ (w : World) (K : Option Channel → Type 0) (kept : IsKept w K) where
  either_kept : (b : Bool) (x y : Channel) → K (some x) → K (some y) → K (some (if b then x else y))
  either_kept true x y f g = f
  either_kept false x y f g = g

  error_join_kept :
      (alternate : Option Str) (c : Channel) (code nick : Option Str)
      → K (some c)
      → K (some (error_join alternate c code nick))
  unfolding error_join
  error_join_kept alternate c code nick h = elim (Bool-cases (of_another nick c.nick)) [
    | inl e ↦ rw (e, error_join) h
    | inr e ↦ elim (Bool-cases (eqb_ℤ (error_code code) (pos 406))) [
      | inl f ↦ rw (e, f, error_join) (kept.asked c _ _ h)
      | inr f ↦ elim (Bool-cases (eqb_ℤ (error_code code) (pos 409))) [
        | inl g ↦ rw (e, f, g, error_join) (kept.asked c _ _ h)
        | inr g ↦ rw (e, f, g, error_join) (kept.asked c _ _ h)
      ]
    ]
  ]

  error_presence_kept :
      (c : Channel) (code nick : Option Str) → K (some c) → K (some (error_presence c code nick))
  unfolding error_presence
  error_presence_kept c code nick h = elim (Bool-cases (eqb_ℤ (error_code code) (pos 409))) [
    | inl e ↦ rw (e, error_presence) (kept.asked c _ _ h)
    | inr e ↦ rw (e, error_presence) h
  ]

  item_event_kept :
      (c : Channel)
      → K (some c)
      → (nick : Str) (item : w.lm.Node) (own forced : Bool)
      → K (item_event w c nick item own forced)
  unfolding item_event
  item_event_kept c h nick item own forced =
      let affiliation = w.lm.get_attribute item (codes "affiliation") in
      let role = w.lm.get_attribute item (codes "role") in
      let jid = attribute_of w (some item) (codes "jid") in
      let ours = kept.own c nick jid affiliation role forced h in
      elim (Bool-cases own) [
        | inl e ↦ rw (e, item_event) ours
        | inr e ↦ elim (Bool-cases (str_eq nick c.nick)) [
          | inl f ↦ rw (e, f, item_event) ours
          | inr f ↦ rw (e, f, item_event) (kept.event c nick jid affiliation role h)
        ]
      ]

  error_event_kept :
      (c : Channel) → K (some c) → (code nick : Option Str) → K (some (error_event w c code nick))
  unfolding error_event
  error_event_kept c h code nick =
      either_kept c.joined (error_presence c code nick) (error_join w.alternate_nick c code nick)
        (error_presence_kept c code nick h) (error_join_kept w.alternate_nick c code nick h)

  status_event_kept :
      (c : Channel)
      → K (some c)
      → (code : ℤ) (nick item_nick actor reason : Option Str)
      → K (status_event w c code nick item_nick actor reason)
  unfolding status_event
  status_event_kept c h code nick item_nick actor reason =
      let kicked = kept.kicked c nick actor reason h in
      elim (Bool-cases (eqb_ℤ code (pos 303))) [
        | inl e ↦ rw (e, status_event) (kept.changed c nick item_nick h)
        | inr e ↦ elim (Bool-cases (eqb_ℤ code (pos 307))) [
          | inl f ↦ rw (e, f, status_event) kicked
          | inr f ↦ elim (Bool-cases (eqb_ℤ code (pos 301))) [
            | inl g ↦ rw (e, f, g, status_event) kicked
            | inr g ↦ rw (e, f, g, status_event) h
          ]
        ]
      ]

  unavailable_kept :
      (c : Channel)
      → K (some c)
      → (nick : Option Str) (message : w.lm.Node) → K (unavailable w c nick message)
  unfolding unavailable
  unavailable_kept c h nick message =
      let x = lm_find_node w.lm (some message) (codes "x") (codes "xmlns") xmlns_muc_user in
      let item = child_of w x (codes "item") in
      elim (Option-cases (status_code w (child_of w x (codes "status")))) [
        | inl e ↦
            rw (e, unavailable)
              (kept.part c nick (text_of w (w.lm.get_child message (codes "status"))) h)
        | inr (code, e) ↦
            rw (e, unavailable)
              (status_event_kept c h (atoi code) nick (attribute_of w item (codes "nick"))
                (attribute_of w (child_of w item (codes "actor")) (codes "jid"))
                (text_of w (child_of w item (codes "reason"))))
      ]

  available_kept :
      (c : Channel)
      → K (some c)
      → (from : Option Str) (message : w.lm.Node) → K (available w c from message)
  unfolding available
  available_kept c h from message =
      elim (Option-cases
        (lm_find_node w.lm (some message) (codes "x") (codes "xmlns") xmlns_muc_user)) [
          | inl e ↦ rw (e, available) h
          | inr (x, e) ↦
              let created = has_status w x (codes "201") in
              let d = if created then room_created w c else c in
              let g =
                either_kept created (room_created w c) c (unfold room_created in kept.asked c _ _ h)
                  h in
              elim (Option-cases (w.lm.get_child x (codes "item"))) [
                | inl f ↦ rw (e, f, available) g
                | inr (item, f) ↦
                    elim (Option-cases
                      (or_from w (attribute_of w (some item) (codes "nick")) from)) [
                        | inl k ↦ rw (e, f, k, available) g
                        | inr (nick, k) ↦
                            let own = has_status w x (codes "110") in
                            let forced = has_status w x (codes "210") in
                            let after = item_event_kept d g nick item own forced in
                            elim (Option-cases (item_event w d nick item own forced)) [
                              | inl l ↦ rw (e, f, k, l, available) (subst K l after)
                              | inr (i, l) ↦
                                  rw (e, f, k, l, available)
                                    (kept.presence i nick _ _ (subst K l after))
                            ]
                      ]
              ]
        ]

  -- What every event keeps, the handler of presences keeps.
  pub sig_recv_presence_kept :
      (c : Channel)
      → K (some c)
      → (message : w.lm.Node) (type : SubType) (from : Str)
      → K (sig_recv_presence w c message type from)
  unfolding sig_recv_presence
  sig_recv_presence_kept c h message SubType.error from =
      elim (Option-cases (w.lm.get_child message (codes "error"))) [
        | inl e ↦ rw (e, sig_recv_presence) h
        | inr (node, e) ↦ rw (e, sig_recv_presence) (error_event_kept c h _ _)
      ]
  sig_recv_presence_kept c h message SubType.available from =
      available_kept c h (xmpp_extract_resource from) message
  sig_recv_presence_kept c h message SubType.unavailable from =
      unavailable_kept c h (xmpp_extract_resource from) message
  sig_recv_presence_kept c h message type from = h
