-- ===== src/Muc/Placed/Kept.antt =====
-- src/core/xep/muc-events.c: every event of a room returns, and keeps the table of nicks placed.
use mathlib.Core.Path.{subst}
use irssi_xmpp.Prelude.{
  ℕ, suc, ◌≡◌, refl, ◌∙◌, Bool, ◌||◌, Option, none, some, Bool-cases, Option-cases, inl, inr,
}
use irssi_xmpp.Prelude.Int.{pos}
use irssi_xmpp.Prelude.Str.{Str, str_eq}
use irssi_xmpp.Glib.{Glib}
use irssi_xmpp.Tools.{xmpp_presence_changed}
use irssi_xmpp.Roster.{rank}
use irssi_xmpp.Roster.Find.{xmpp_get_show}
use irssi_xmpp.Muc.{Affiliation, Role, Nick, Nicks, Channel, Irssi, set_nick}
use irssi_xmpp.Muc.Modes.{
  xmpp_nicklist_get_affiliation, xmpp_nicklist_get_role, xmpp_nicklist_modes_changed,
  xmpp_nicklist_set_modes,
}
use irssi_xmpp.Muc.Modes.Kept.{set_modes_addr, set_modes_nick}
use irssi_xmpp.Muc.Nicks.{
  new_nick, nick_hash_add, nick_hash_remove, follow_own, xmpp_nicklist_rename, is_own,
  xmpp_nicklist_insert, xmpp_nicklist_set_presence,
}
use irssi_xmpp.Muc.Nicks.Rename.{renamed_to}
use irssi_xmpp.Muc.Room.{calling, is_empty}
use irssi_xmpp.Muc.Events.{
  nick_changed, joined_channel, join_calls, ask_features, own_join, nick_join, nick_mode, own_event,
  nick_event, nick_part, nick_presence, nick_kicked,
}
use irssi_xmpp.Muc.Events.Joining.{nick_changed_lem}
use irssi_xmpp.Muc.Placed.{IsPlaced}
use irssi_xmpp.Muc.Placed.Tables.{
  found-Stands, delete-IsPlaced, own-IsPlaced, set_nick-IsPlaced, insert-IsPlaced, insert-Stands,
  Stands-once, moved-IsPlaced,
}

abbrev pub IsPlacedRoom : Irssi → Channel → Type 0
IsPlacedRoom irssi c = IsPlaced irssi c.nicks c.next

-- The event returns, and leaves a room whose table is placed.
abbrev pub Settles : Irssi → Option Channel → Type 0
Settles irssi o = (c : Channel) × (o ≡ some c) × IsPlacedRoom irssi c

pub settled : (irssi : Irssi) (c : Channel) → IsPlacedRoom irssi c → Settles irssi (some c)
settled irssi c p = (c, refl, p)

-- No event but an insertion takes an address.
module _ (irssi : Irssi) where
  next-add : (c : Channel) (n : Nick) → (nick_hash_add irssi c n).next ≡ c.next
  unfolding nick_hash_add
  next-add c n = elim (Bool-cases (is_own c n)) [
    | inl e ↦ rw (e, nick_hash_add) refl
    | inr e ↦ rw (e, nick_hash_add) refl
  ]

  next-follow :
      (c : Channel) (n : Nick) (old new : Str) → (follow_own irssi c n old new).next ≡ c.next
  unfolding follow_own
  next-follow c n old new = elim (Bool-cases (str_eq old c.nick)) [
    | inl e ↦ rw (e, follow_own) refl
    | inr e ↦ rw (e, follow_own) refl
  ]

  abbrev RenamedNext : Channel → Option (Channel × Nick) → Type 0
  RenamedNext c none = Unit
  RenamedNext c (some (d, n)) = d.next ≡ c.next

  abbrev ChangedNext : Channel → Option Channel → Type 0
  ChangedNext c none = Unit
  ChangedNext c (some d) = d.next ≡ c.next

  next-rename :
      (c : Channel) (n : Nick) (old new : Str)
      → RenamedNext c (xmpp_nicklist_rename irssi c n old new)
  unfolding xmpp_nicklist_rename
  next-rename c n old new = elim (Option-cases (nick_hash_remove irssi c.nicks n)) [
    | inl e ↦ rw (e, xmpp_nicklist_rename) tt
    | inr (t, e) ↦
        let r = renamed_to new n in
        let d : Channel = record c { nicks = t } in
        rw (e, xmpp_nicklist_rename) (next-follow _ r old new ∙ next-add d r)
  ]

  next-changed :
      (c : Channel) (old new : Str) (n : Nick)
      → irssi.nicklist_find c.nicks (some old) ≡ some n
      → ChangedNext c (nick_changed irssi c (some old) (some new))
  unfolding nick_changed
  next-changed c old new n e = elim (Option-cases (xmpp_nicklist_rename irssi c n old new)) [
    | inl g ↦ rw (e, g, nick_changed) tt
    | inr ((d, r), g) ↦
        rw (e, g, nick_changed) (subst (λ o. RenamedNext c o) g (next-rename c n old new))
  ]

  -- A change of nick never faults in a placed room.
  pub nick_changed-Settles :
      (c : Channel) (old new : Option Str)
      → IsPlacedRoom irssi c
      → Settles irssi (nick_changed irssi c old new)
  unfolding nick_changed
  nick_changed-Settles c none new p =
      (c, rw (irssi.nicklist_find_null c.nicks, nick_changed) refl, p)
  nick_changed-Settles c (some old) none p =
      elim (Option-cases (irssi.nicklist_find c.nicks (some old))) [
        | inl e ↦ (c, rw (e, nick_changed) refl, p)
        | inr (n, e) ↦ rw (e, nick_changed) (settled irssi _ p)
      ]
  nick_changed-Settles c (some old) (some new) p =
      elim (Option-cases (irssi.nicklist_find c.nicks (some old))) [
        | inl e ↦ (c, rw (e, nick_changed) refl, p)
        | inr (n, e) ↦
            let stands = found-Stands irssi c.nicks c.next p (some old) n e in
            let once = Stands-once irssi c.nicks c.next p n stands in
            let (d, run, nicks, nick) = nick_changed_lem irssi c old new n p.keyed once e in
            let same = subst (λ o. ChangedNext c o) run (next-changed c old new n e) in
            (
              d,
              run,
              rw (nicks, same)
                  (moved-IsPlaced irssi c.nicks c.next n (renamed_to new n)
                    (is_own c n || str_eq old c.nick) p stands refl),
            )
      ]

  asked-IsPlaced : (c : Channel) → IsPlacedRoom irssi c → IsPlacedRoom irssi (ask_features c)
  unfolding ask_features
  asked-IsPlaced c p = elim (Bool-cases (is_empty c.mode)) [
    | inl e ↦ rw (e, ask_features) p
    | inr e ↦ rw (e, ask_features) p
  ]

module _ (glib : Glib) (irssi : Irssi) (c : Channel) (p : IsPlacedRoom irssi c) where
  modes-IsPlaced :
      (t : Nicks) (next b : ℕ) (a : Affiliation) (r : Role)
      → IsPlaced irssi t next
      → IsPlaced irssi (set_nick b (xmpp_nicklist_set_modes a r) t) next
  modes-IsPlaced t next b a r q =
      set_nick-IsPlaced irssi t next q b (xmpp_nicklist_set_modes a r) (set_modes_addr a r)
        (set_modes_nick a r)

  -- One's own join, forced or not.
  own_join-Settles :
      (name : Str) (jid affiliation role : Option Str) (forced : Bool)
      → Settles irssi (own_join glib irssi c name jid affiliation role forced)
  unfolding own_join xmpp_nicklist_insert joined_channel
  own_join-Settles name jid affiliation role forced =
      let a = xmpp_nicklist_get_affiliation glib affiliation in
      let r = xmpp_nicklist_get_role glib role in
      let n = new_nick c name jid in
      let inserted = (xmpp_nicklist_insert irssi c name jid).0 in
      let j = calling (joined_channel irssi inserted n a r) (join_calls n a r) in
      let t = irssi.nicklist_insert c.nicks n in
      let placed : IsPlaced irssi t (suc c.next) =
        insert-IsPlaced irssi c.nicks c.next p n (unfold new_nick in refl) in
      let own =
        own-IsPlaced irssi t (suc c.next) placed n (insert-Stands irssi c.nicks c.next p n) in
      let q : IsPlacedRoom irssi j =
        modes-IsPlaced (irssi.nicklist_set_own t n) (suc c.next) n.addr a r own in
      elim (Bool-cases c.joined) [
        | inl e ↦ rw (e, own_join) (settled irssi _ p)
        | inr e ↦ elim (Option-cases (irssi.nicklist_find c.nicks (some name))) [
          | inr (m, f) ↦ rw (e, f, own_join) (settled irssi _ p)
          | inl f ↦ elim (Bool-cases forced) [
            | inr k ↦ rw (e, f, k, own_join) (settled irssi _ (asked-IsPlaced irssi j q))
            | inl k ↦
                let (d, l, s) = nick_changed-Settles irssi j (some j.nick) (some name) q in
                rw (e, f, k, l, own_join) (settled irssi _ (asked-IsPlaced irssi d s))
          ]
        ]
      ]

  nick_mode-IsPlaced :
      (n : Nick) (affiliation role : Option Str)
      → IsPlacedRoom irssi (nick_mode glib c n affiliation role)
  unfolding nick_mode
  nick_mode-IsPlaced n affiliation role =
      let a = xmpp_nicklist_get_affiliation glib affiliation in
      let r = xmpp_nicklist_get_role glib role in
      elim (Bool-cases (xmpp_nicklist_modes_changed n a r)) [
        | inl e ↦ rw (e, nick_mode) (modes-IsPlaced c.nicks c.next n.addr a r p)
        | inr e ↦ rw (e, nick_mode) p
      ]

  nick_join-IsPlaced :
      (name : Str) (jid affiliation role : Option Str)
      → IsPlacedRoom irssi (nick_join glib irssi c name jid affiliation role)
  unfolding nick_join xmpp_nicklist_insert
  nick_join-IsPlaced name jid affiliation role =
      let a = xmpp_nicklist_get_affiliation glib affiliation in
      let r = xmpp_nicklist_get_role glib role in
      let n = new_nick c name jid in
      let placed = insert-IsPlaced irssi c.nicks c.next p n (unfold new_nick in refl) in
      let q = modes-IsPlaced (irssi.nicklist_insert c.nicks n) (suc c.next) n.addr a r placed in
      elim (Bool-cases c.names_got) [ inl e ↦ rw (e, nick_join) q | inr e ↦ rw (e, nick_join) q ]

  pub own_event-Settles :
      (name : Str) (jid affiliation role : Option Str) (forced : Bool)
      → Settles irssi (own_event glib irssi c name jid affiliation role forced)
  unfolding own_event
  own_event-Settles name jid affiliation role forced =
      elim (Option-cases (irssi.nicklist_find c.nicks (some name))) [
        | inl e ↦ rw (e, own_event) (own_join-Settles name jid affiliation role forced)
        | inr (n, e) ↦ rw (e, own_event) (settled irssi _ (nick_mode-IsPlaced n affiliation role))
      ]

  pub nick_event-IsPlaced :
      (name : Str) (jid affiliation role : Option Str)
      → IsPlacedRoom irssi (nick_event glib irssi c name jid affiliation role)
  unfolding nick_event
  nick_event-IsPlaced name jid affiliation role =
      elim (Option-cases (irssi.nicklist_find c.nicks (some name))) [
        | inl e ↦ rw (e, nick_event) (nick_join-IsPlaced name jid affiliation role)
        | inr (n, e) ↦ rw (e, nick_event) (nick_mode-IsPlaced n affiliation role)
      ]

  pub nick_presence-IsPlaced :
      (name : Str) (show status : Option Str)
      → IsPlacedRoom irssi (nick_presence glib irssi c name show status)
  unfolding nick_presence
  nick_presence-IsPlaced name show status =
      let s = xmpp_get_show glib show in
      let change = xmpp_nicklist_set_presence s status in
      elim (Option-cases (irssi.nicklist_find c.nicks (some name))) [
        | inl e ↦ rw (e, nick_presence) p
        | inr (n, e) ↦
            elim (Bool-cases
              (xmpp_presence_changed (rank s) (rank n.show) status n.status (pos 0) (pos 0))) [
                | inl f ↦
                    rw (e, f, nick_presence)
                      (set_nick-IsPlaced irssi c.nicks c.next p n.addr change (λ m. refl)
                        (λ m. refl))
                | inr f ↦ rw (e, f, nick_presence) p
              ]
      ]

  pub nick_part-IsPlaced :
      (name reason : Option Str) → IsPlacedRoom irssi (nick_part irssi c name reason)
  unfolding nick_part
  nick_part-IsPlaced name reason = elim (Option-cases (irssi.nicklist_find c.nicks name)) [
    | inl e ↦ rw (e, nick_part) p
    | inr (n, e) ↦ elim (Bool-cases (is_own c n)) [
      | inl f ↦ rw (e, f, nick_part) p
      | inr f ↦ rw (e, f, nick_part) (delete-IsPlaced irssi c.nicks c.next p n)
    ]
  ]

  pub nick_kicked-IsPlaced :
      (name actor reason : Option Str) → IsPlacedRoom irssi (nick_kicked irssi c name actor reason)
  unfolding nick_kicked
  nick_kicked-IsPlaced name actor reason = elim (Option-cases (irssi.nicklist_find c.nicks name)) [
    | inl e ↦ rw (e, nick_kicked) p
    | inr (n, e) ↦ elim (Bool-cases (is_own c n)) [
      | inl f ↦ rw (e, f, nick_kicked) p
      | inr f ↦ rw (e, f, nick_kicked) (delete-IsPlaced irssi c.nicks c.next p n)
    ]
  ]
