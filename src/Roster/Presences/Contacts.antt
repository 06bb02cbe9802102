-- ===== src/Roster/Presences/Contacts.antt =====
-- What each presence does to the contact that it is about, and that it changes no other.
use irssi_xmpp.Prelude.{
  ◌+◌, ◌≡◌, ◌∙◌, refl, ap, Bool, true, false, Option, none, some, List, bit, arith, remove_first,
  update_first,
}
use irssi_xmpp.Prelude.Str.{Str}
use irssi_xmpp.Glib.{Glib}
use irssi_xmpp.Tools.{xmpp_strip_resource, xmpp_extract_resource}
use irssi_xmpp.Roster.{Presence, Signal, User, Group, Server, Resource}
use irssi_xmpp.Roster.Find.{
  rosters_find_user, rosters_find_resource, find_resource_func, xmpp_get_show,
}
use irssi_xmpp.Roster.Store.{set_user}
use irssi_xmpp.Roster.Update.{sort_group}
use irssi_xmpp.Roster.Update.Valid.{IsWellFormed}
use irssi_xmpp.Roster.Update.Steps.{Stands}
use irssi_xmpp.Roster.Update.Contacts.{
  Becomes, Becomes-trans, Becomes-emitting, set_user-Becomes, sort_group-Becomes, Stands-found,
  how_many,
}
use irssi_xmpp.Roster.Presences.Heard.{Hears, left, hear-Hears}
use irssi_xmpp.Roster.Presences.{
  without_error, hear, update_user_presence, contact_heard, user_unavailable, contact_gone,
  user_presence_error, contact_error,
}

-- The contact after an available presence.
abbrev pub listens : User → Option (Bool × List Resource) → User
listens u none = record u { error = false }
listens u (some (is_new, rs)) = record u { error = false; resources = rs }

-- The contact after an unavailable presence of resource `res`.
abbrev pub leaves : User → Option Str → Option Resource → User
leaves u res none = record u { error = false }
leaves u res (some r) = record u {
  error = false;
  resources = remove_first (find_resource_func res) u.resources;
}

-- The contact after an error presence of resource `res`: the flag is for want of a resource.
abbrev pub fails : User → Option Str → Option Resource → User
fails u res none = record u { error = true }
fails u res (some r) = record u {
  resources =
      update_first (find_resource_func res) (λ x. record x { show = Presence.error }) u.resources;
}

module _ (glib : Glib) (s : Server) (g : Group) (u : User) (full_jid : Str)
    (st : Stands s g.addr g.name u) where
  cleared :
      Becomes s
        (record s { roster = set_user u.addr without_error s.roster })
        g.addr
        g.name
        u
        g.addr
        g.name
        (without_error u)
  cleared = set_user-Becomes s g.addr g.name u st without_error refl

  -- The error flag cleared, the resources written, the group sorted.
  rewritten :
      (f : User → User)
      → (f (without_error u)).addr ≡ u.addr
      → (e : List Signal)
      → Becomes s
          (record s {
            roster =
                sort_group glib g.addr (set_user u.addr f (set_user u.addr without_error s.roster));
            emitted = e;
          })
          g.addr
          g.name
          u
          g.addr
          g.name
          (f (without_error u))
  rewritten f same e =
      let b =
        set_user-Becomes (record s { roster = set_user u.addr without_error s.roster }) g.addr
          g.name (without_error u) cleared.stands f same in
      Becomes-emitting
        (Becomes-trans cleared (Becomes-trans b (sort_group-Becomes glib _ g.addr b.stands))) e

  pub contact_heard-Becomes :
      (show : Presence) (status : Option Str) (o : Option (Bool × List Resource))
      → Becomes s
          (contact_heard glib s g u full_jid show status o)
          g.addr
          g.name
          u
          g.addr
          g.name
          (listens u o)
  unfolding contact_heard
  contact_heard-Becomes show status none = cleared
  contact_heard-Becomes show status (some (is_new, rs)) =
      rewritten (λ v. record v { resources = rs }) refl _

  pub contact_gone-Becomes :
      (status : Option Str) (o : Option Resource)
      → Becomes s
          (contact_gone glib s g u full_jid status o)
          g.addr
          g.name
          u
          g.addr
          g.name
          (leaves u (xmpp_extract_resource full_jid) o)
  unfolding contact_gone
  contact_gone-Becomes status none = cleared
  contact_gone-Becomes status (some r) =
      rewritten
        (λ v. record v {
          resources =
              remove_first (find_resource_func (xmpp_extract_resource full_jid)) v.resources;
        })
        refl _

  pub contact_error-Becomes :
      (o : Option Resource)
      → Becomes s
          (contact_error glib s g u full_jid o)
          g.addr
          g.name
          u
          g.addr
          g.name
          (fails u (xmpp_extract_resource full_jid) o)
  unfolding contact_error
  contact_error-Becomes none =
      set_user-Becomes s g.addr g.name u st (λ v. record v { error = true }) refl
  contact_error-Becomes (some r) =
      let b =
        set_user-Becomes s g.addr g.name u st
          (λ v. record v {
            resources =
                update_first (find_resource_func (xmpp_extract_resource full_jid))
                  (λ x. record x { show = Presence.error }) v.resources;
          })
          refl in
      Becomes-emitting (Becomes-trans b (sort_group-Becomes glib _ g.addr b.stands)) _

module _ (glib : Glib) (s : Server) (full_jid : Str) (g : Group) (u : User) (v : IsWellFormed s)
    (found : rosters_find_user s.roster (xmpp_strip_resource full_jid) ≡ some (g, u)) where
  stands : Stands s g.addr g.name u
  stands = Stands-found s (xmpp_strip_resource full_jid) g u v found

  -- The contact is exchanged for the one with the list that `hear` leaves.
  pub update_user_presence-listens :
      (show_str status priority_str : Option Str)
      → (s' : Server) × (update_user_presence glib s full_jid show_str status priority_str
          ≡ some s')
        × ((p : Option Str → User → Bool)
            → how_many p s'.roster + bit (p g.name u)
              ≡ how_many p s.roster
                + bit (
                    p g.name (
                      listens u (
                        hear glib
                          (xmpp_extract_resource full_jid)
                          (xmpp_get_show glib show_str)
                          status
                          priority_str
                          u.resources))))
  unfolding update_user_presence
  update_user_presence-listens show_str status priority_str =
      let o =
        hear glib (xmpp_extract_resource full_jid) (xmpp_get_show glib show_str) status priority_str
          u.resources in
      (
        contact_heard glib s g u full_jid (xmpp_get_show glib show_str) status o,
        rw (found, update_user_presence),
        λ p.
            (contact_heard-Becomes glib s g u full_jid stands (xmpp_get_show glib show_str) status
                o).exchanged.swap
              (λ ga n w. bit (p n w)),
      )

  listens_left :
      (o : Option (Bool × List Resource))
      → listens u o ≡ record u { error = false; resources = left u.resources o }
  listens_left none = refl
  listens_left (some (is_new, l)) = refl

  -- In a well-formed roster, an available presence of a contact exchanges that contact for the
  -- one with its error flag cleared and resources l, and changes no other; the call returns. Where
  -- the contact has a resource of that name, l has, in place of the first one, a resource with the
  -- show and the status of the presence and its priority, or the old one where it gives none, and
  -- all else of it as before. Where there is none, l has one resource more: of that name, or the
  -- empty one where the JID has none, with that show and status and that priority, or 0. The other
  -- resources are as before.
  pub update_user_presence_contact :
      (show_str status priority_str : Option Str)
      → let res = xmpp_extract_resource full_jid in
        (s' : Server) × (l : List Resource) × (update_user_presence glib s full_jid show_str status
            priority_str
          ≡ some s')
        × Hears res
            (xmpp_get_show glib show_str)
            status
            priority_str
            u.resources
            (rosters_find_resource u.resources res)
            l
        × ((p : Option Str → User → Bool)
            → how_many p s'.roster + bit (p g.name u)
              ≡ how_many p s.roster + bit (p g.name (record u { error = false; resources = l })))
  update_user_presence_contact show_str status priority_str =
      let res = xmpp_extract_resource full_jid in
      let show = xmpp_get_show glib show_str in
      let o = hear glib res show status priority_str u.resources in
      let step = update_user_presence-listens show_str status priority_str in
      (
        step.0,
        left u.resources o,
        step.1,
        hear-Hears glib res show status priority_str u.resources,
        λ p. step.2 p ∙ ap (λ (w : User). how_many p s.roster + bit (p g.name w)) (listens_left o),
      )

  -- In a well-formed roster, an unavailable presence takes the first resource of that name from
  -- the contact, or none where there is none, clears its error flag, and changes no other
  -- contact.
  pub user_unavailable_contact :
      (status : Option Str) (p : Option Str → User → Bool)
      → how_many p (user_unavailable glib s full_jid status).roster + bit (p g.name u)
        ≡ how_many p s.roster
          + bit (
              p g.name (
                leaves u
                  (xmpp_extract_resource full_jid)
                  (rosters_find_resource u.resources (xmpp_extract_resource full_jid))))
  user_unavailable_contact status p = omega (
    arith,
    ap (λ (x : Server). how_many p x.roster) step,
    (contact_gone-Becomes glib s g u full_jid stands status
          (rosters_find_resource u.resources (xmpp_extract_resource full_jid))).exchanged.swap
        (λ ga n w. bit (p n w)),
  )
    where
      step :
          user_unavailable glib s full_jid status
          ≡ contact_gone glib s g u full_jid status
              (rosters_find_resource u.resources (xmpp_extract_resource full_jid))
      step = unfold user_unavailable in rw (found, user_unavailable)

  -- In a well-formed roster, an error presence marks the first resource of that name, or the
  -- contact itself where there is none, and changes no other contact.
  pub user_presence_error_contact :
      (p : Option Str → User → Bool)
      → how_many p (user_presence_error glib s full_jid).roster + bit (p g.name u)
        ≡ how_many p s.roster
          + bit (
              p g.name (
                fails u
                  (xmpp_extract_resource full_jid)
                  (rosters_find_resource u.resources (xmpp_extract_resource full_jid))))
  user_presence_error_contact p = omega (
    arith,
    ap (λ (x : Server). how_many p x.roster) step,
    (contact_error-Becomes glib s g u full_jid stands
          (rosters_find_resource u.resources (xmpp_extract_resource full_jid))).exchanged.swap
        (λ ga n w. bit (p n w)),
  )
    where
      step :
          user_presence_error glib s full_jid
          ≡ contact_error glib s g u full_jid
              (rosters_find_resource u.resources (xmpp_extract_resource full_jid))
      step = unfold user_presence_error in rw (found, user_presence_error)
