-- ===== src/Roster/Presences/Faults.antt =====
-- src/core/rosters.c: the presences on which update_user_presence faults.
use irssi_xmpp.Prelude.{
  ◌≡◌, ◌↔◌, refl, true, Option, none, some, Bool-cases, Option-cases, inl, inr, arith,
}
use irssi_xmpp.Prelude.Str.{Str, str_eq}
use irssi_xmpp.Glib.{Glib}
use irssi_xmpp.Tools.{xmpp_strip_resource, xmpp_extract_resource}
use irssi_xmpp.Roster.{Presence, Server}
use irssi_xmpp.Roster.Find.{rosters_find_user, xmpp_get_show}
use irssi_xmpp.Roster.Presences.{own_presence, update_user_presence}

module _ (glib : Glib) (s : Server) (full_jid : Str) (show : Presence)
    (status priority : Option Str) where
  own_presence_faults :
      (res : Option Str)
      → (own_presence glib s full_jid show status priority res ≡ none) ↔ (res ≡ none)
  unfolding own_presence
  own_presence_faults none = (λ h. refl, λ h. refl)
  own_presence_faults (some res) = elim (Bool-cases (str_eq res s.resource)) [
    | inl e ↦ rw e (λ h. ground arith, λ h. ground arith)
    | inr e ↦ rw e (λ h. ground arith, λ h. ground arith)
  ]

-- An available presence makes the program read through NULL exactly when it comes from one's own
-- JID, without a resource, and that JID is no contact.
pub update_user_presence_faults :
    (glib : Glib) (s : Server) (full_jid : Str) (show status priority : Option Str)
    → (update_user_presence glib s full_jid show status priority ≡ none) ↔ (
        (rosters_find_user s.roster (xmpp_strip_resource full_jid) ≡ none)
        × (str_eq (xmpp_strip_resource full_jid) s.jid ≡ true)
        × (xmpp_extract_resource full_jid ≡ none))
unfolding update_user_presence
update_user_presence_faults glib s full_jid show status priority =
    let jid = xmpp_strip_resource full_jid in
    let own =
      own_presence_faults glib s full_jid (xmpp_get_show glib show) status priority
        (xmpp_extract_resource full_jid) in
    elim (Option-cases (rosters_find_user s.roster jid)) [
      | inr (p, e) ↦ rw (e, update_user_presence) (λ h. ground arith, λ h. ground arith)
      | inl e ↦ elim (Bool-cases (str_eq jid s.jid)) [
        | inl f ↦ rw (e, f, update_user_presence) (λ h. (refl, refl, own.0 h), λ h. own.1 h.2)
        | inr f ↦ rw (e, f, update_user_presence) (λ h. ground arith, λ h. ground arith)
      ]
    ]
