-- ===== src/Muc/Events/Outcome.antt =====
-- src/core/xep/muc-events.c: what the events of a room leave in its list of nicks.
use irssi_xmpp.Prelude.{
  ◌≡◌, ◌≢◌, ◌⊎◌, refl, sym, ap, ◌∙◌, false, Option, none, some, List, [], ◌∷◌, ◌++◌, map,
  Bool-cases, inl, inr, remove_first, ==_refl, arith, length, length-append,
}
use irssi_xmpp.Prelude.Int.{pos, eqb_ℤ, eqb_ℤ_eq}
use irssi_xmpp.Prelude.Str.{Str, str_eq, str_eq_iff}
use irssi_xmpp.Glib.{Glib}
use irssi_xmpp.Muc.{
  Affiliation, Role, Nick, Nicks, muc_joinerror, send_join, channel_destroy, Channel, put, at_nick,
  Irssi, write_nick, set_nick,
}
use irssi_xmpp.Muc.Modes.{
  xmpp_nicklist_get_affiliation, xmpp_nicklist_get_role, xmpp_nicklist_modes_changed,
  xmpp_nicklist_set_modes,
}
use irssi_xmpp.Muc.Modes.Kept.{
  set_modes_affiliation, set_modes_role, xmpp_nicklist_modes_changed_iff,
}
use irssi_xmpp.Muc.Nicks.{is_own, new_nick}
use irssi_xmpp.Muc.Nicks.Rename.{put_same}
use irssi_xmpp.Muc.Room.{error_code, of_another, next_nick, error_join}
use irssi_xmpp.Muc.Events.{nick_event, nick_join, nick_mode, nick_part}

pub List-cases : (l : List Nick) → (l ≡ []) ⊎ ((n : Nick) × (r : List Nick) × (l ≡ n ∷ r))
List-cases [] = inl refl
List-cases (n ∷ r) = inr (n, r, refl)

-- The nick found under that name has the affiliation and the role.
abbrev pub HasModes : Irssi → Nicks → Str → Affiliation → Role → Type 0
HasModes irssi t name a r =
    (n : Nick) × (irssi.nicklist_find t (some name) ≡ some n) × (n.affiliation ≡ a) × (n.role ≡ r)

next_nick_differs : (alternate : Option Str) (nick : Str) → next_nick alternate nick ≢ nick
unfolding next_nick
next_nick_differs none nick h = omega (arith, length-append nick (b'_' ∷ []), ap length h)
next_nick_differs (some []) nick h = omega (arith, length-append nick (b'_' ∷ []), ap length h)
next_nick_differs (some (c ∷ s)) nick h = elim (Bool-cases (str_eq nick (c ∷ s))) [
  | inl e ↦
      let g : next_nick (some (c ∷ s)) nick ≡ nick ++ b'_' ∷ [] = rw e refl in
      omega (arith, length-append nick (b'_' ∷ []), ap length (sym g ∙ h))
  | inr e ↦
      let g : next_nick (some (c ∷ s)) nick ≡ c ∷ s = rw e refl in
      ground (arith, (str_eq_iff nick (c ∷ s)).1 (sym h ∙ g))
]

pub written_modes :
    (irssi : Irssi) (t : Nicks) (name : Str) (n : Nick) (l : List Nick) (a : Affiliation) (r : Role)
    → t (irssi.nick_key name) ≡ n ∷ l
    → HasModes irssi (set_nick n.addr (xmpp_nicklist_set_modes a r) t) name a r
written_modes irssi t name n l a r e =
    let written = write_nick n.addr (xmpp_nicklist_set_modes a r) in
    let first : set_nick n.addr (xmpp_nicklist_set_modes a r) t (irssi.nick_key name)
        ≡ xmpp_nicklist_set_modes a r n ∷ map written l =
      unfold set_nick write_nick in rw (e, ==_refl n.addr) refl in
    (
      xmpp_nicklist_set_modes a r n,
      irssi.nicklist_find_first (set_nick n.addr (xmpp_nicklist_set_modes a r) t) name
          (xmpp_nicklist_set_modes a r n) (map written l) first,
      set_modes_affiliation a r n,
      set_modes_role a r n,
    )

nick_join_modes :
    (glib : Glib) (irssi : Irssi) (channel : Channel) (name : Str)
    (jid affiliation role : Option Str)
    → channel.nicks (irssi.nick_key name) ≡ []
    → HasModes irssi
        (nick_join glib irssi channel name jid affiliation role).nicks
        name
        (xmpp_nicklist_get_affiliation glib affiliation)
        (xmpp_nicklist_get_role glib role)
unfolding nick_join
nick_join_modes glib irssi channel name jid affiliation role e =
    let a = xmpp_nicklist_get_affiliation glib affiliation in
    let r = xmpp_nicklist_get_role glib role in
    let n = new_nick channel name jid in
    let key = irssi.nick_key name in
    let t = irssi.nicklist_insert channel.nicks n in
    let first : t key ≡ n ∷ [] =
      irssi.nicklist_insert_lem channel.nicks n key
      ∙ put_same key (channel.nicks key ++ n ∷ []) channel.nicks
      ∙ ap (λ l. l ++ n ∷ []) e in
    let found = written_modes irssi t name n [] a r first in
    elim (Bool-cases channel.names_got) [
      | inl h ↦ rw (h, nick_join) found
      | inr h ↦ rw (h, nick_join) found
    ]

nick_mode_modes :
    (glib : Glib) (irssi : Irssi) (channel : Channel) (name : Str) (n : Nick) (l : List Nick)
    (affiliation role : Option Str)
    → channel.nicks (irssi.nick_key name) ≡ n ∷ l
    → HasModes irssi
        (nick_mode glib channel n affiliation role).nicks
        name
        (xmpp_nicklist_get_affiliation glib affiliation)
        (xmpp_nicklist_get_role glib role)
unfolding nick_mode
nick_mode_modes glib irssi channel name n l affiliation role e =
    let a = xmpp_nicklist_get_affiliation glib affiliation in
    let r = xmpp_nicklist_get_role glib role in
    elim (Bool-cases (xmpp_nicklist_modes_changed n a r)) [
      | inl h ↦ rw (h, nick_mode) (written_modes irssi channel.nicks name n l a r e)
      | inr h ↦
          let same = (xmpp_nicklist_modes_changed_iff n a r).0 h in
          rw (h, nick_mode) (n, irssi.nicklist_find_first channel.nicks name n l e, same.0, same.1)
    ]

-- After the event, the nick that is found under that name has the affiliation and the role that the
-- item gives, whether it was in the room or not.
pub nick_event_modes :
    (glib : Glib) (irssi : Irssi) (channel : Channel) (name : Str)
    (jid affiliation role : Option Str)
    → HasModes irssi
        (nick_event glib irssi channel name jid affiliation role).nicks
        name
        (xmpp_nicklist_get_affiliation glib affiliation)
        (xmpp_nicklist_get_role glib role)
unfolding nick_event
nick_event_modes glib irssi channel name jid affiliation role =
    elim (List-cases (channel.nicks (irssi.nick_key name))) [
      | inl e ↦
          rw (irssi.nicklist_find_empty channel.nicks name e, nick_event)
            (nick_join_modes glib irssi channel name jid affiliation role e)
      | inr (n, l, e) ↦
          rw (irssi.nicklist_find_first channel.nicks name n l e, nick_event)
            (nick_mode_modes glib irssi channel name n l affiliation role e)
    ]

single_removed :
    (irssi : Irssi) (t : Nicks) (n : Nick) (k : Str)
    → irssi.nick_key n.nick ≡ k
    → t k ≡ n ∷ []
    → put (irssi.nick_key n.nick) (remove_first (at_nick n.addr) (t (irssi.nick_key n.nick))) t k
      ≡ []
unfolding remove_first at_nick
single_removed irssi t n k key e = rw key (
    put_same k (remove_first (at_nick n.addr) (t k)) t
    ∙ ap (remove_first (at_nick n.addr)) e
    ∙ ground (arith, ==_refl n.addr))

-- Where another's nick is the only one with its key, it is not found any more under its name
-- after it parts.
pub nick_part_gone :
    (irssi : Irssi) (channel : Channel) (name : Str) (n : Nick) (reason : Option Str)
    → channel.nicks (irssi.nick_key name) ≡ n ∷ []
    → irssi.nick_key n.nick ≡ irssi.nick_key name
    → is_own channel n ≡ false
    → irssi.nicklist_find (nick_part irssi channel (some name) reason).nicks (some name) ≡ none
unfolding nick_part
nick_part_gone irssi channel name n reason e key other =
    let t = irssi.nicklist_remove channel.nicks n in
    let gone : t (irssi.nick_key name) ≡ [] =
      irssi.nicklist_remove_lem channel.nicks n (irssi.nick_key name)
      ∙ single_removed irssi channel.nicks n (irssi.nick_key name) key e in
    rw (irssi.nicklist_find_first channel.nicks name n [] e, other, nick_part)
      (irssi.nicklist_find_empty t name gone)

-- An error on one's own presence, which names one's nick or none, has one of two outcomes. Either
-- its code is 406 or 409, one's nick is reserved or in use, and the room is asked again with another
-- nick, and stays; or its code is neither, and the room is destroyed, with the nick as it was.
pub error_join_lem :
    (alternate : Option Str) (channel : Channel) (code nick : Option Str)
    → of_another nick channel.nick ≡ false
    → let c = error_join alternate channel code nick in
      (((error_code code ≡ pos 406) ⊎ (error_code code ≡ pos 409))
        × (c.nick ≢ channel.nick)
        × (c.calls ≡ channel.calls ++ muc_joinerror (error_code code) ∷ send_join c.nick ∷ []))
      ⊎ ((c.nick ≡ channel.nick)
          × (error_code code ≢ pos 406)
          × (error_code code ≢ pos 409)
          × (c.calls ≡ channel.calls ++ muc_joinerror (error_code code) ∷ channel_destroy ∷ []))
unfolding error_join
error_join_lem alternate channel code nick own =
    let differs = next_nick_differs alternate channel.nick in
    elim (Bool-cases (eqb_ℤ (error_code code) (pos 406))) [
      | inl e ↦ inl (rw (own, e, error_join) (inl (eqb_ℤ_eq _ _ e), differs, refl))
      | inr e ↦ elim (Bool-cases (eqb_ℤ (error_code code) (pos 409))) [
        | inl f ↦ inl (rw (own, e, f, error_join) (inr (eqb_ℤ_eq _ _ f), differs, refl))
        | inr f ↦
            inr (rw (own, e, f, error_join) (refl, λ h. ground arith, λ h. ground arith, refl))
      ]
    ]
