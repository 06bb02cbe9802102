-- ===== src/Roster/Presences/Bare.antt =====
-- Presences from a JID without a resource. `create_resource` turns a NULL name into "", and the
-- search for NULL never finds it again.
use irssi_xmpp.Prelude.{
  ◌+◌, ◌≡◌, refl, ap, ◌∙◌, Bool, true, false, Option, none, some, List, [], ◌∷◌, bit, length, arith,
  sum_of,
}
use irssi_xmpp.Prelude.Str.{Str, has, after-absent}
use irssi_xmpp.Glib.{Glib, sum_of-slist_sort}
use irssi_xmpp.Tools.{xmpp_strip_resource, xmpp_extract_resource}
use irssi_xmpp.Roster.{Resource, User, Group, Server}
use irssi_xmpp.Roster.Compare.{func_sort_resource}
use irssi_xmpp.Roster.Find.{rosters_find_user, rosters_find_resource, xmpp_get_show}
use irssi_xmpp.Roster.Update.{create_resource}
use irssi_xmpp.Roster.Update.Valid.{IsWellFormed}
use irssi_xmpp.Roster.Update.Contacts.{how_many}
use irssi_xmpp.Roster.Presences.{hear, presented, update_user_presence, user_unavailable}
use irssi_xmpp.Roster.Presences.Contacts.{
  update_user_presence-listens, user_unavailable_contact, listens, leaves,
}

nothing_found : (l : List Resource) → rosters_find_resource l none ≡ none
unfolding rosters_find_resource
nothing_found [] = refl
nothing_found (r ∷ l) = nothing_found l

length-sum_of : (l : List Resource) → sum_of (λ r. 1) l ≡ length l
length-sum_of [] = refl
length-sum_of (r ∷ l) = omega (arith, length-sum_of l)

module _ (glib : Glib) (s : Server) (jid : Str) (g : Group) (u : User) (v : IsWellFormed s)
    (bare : has b'/' jid ≡ false)
    (found : rosters_find_user s.roster (xmpp_strip_resource jid) ≡ some (g, u)) where
  no_resource : xmpp_extract_resource jid ≡ none
  unfolding xmpp_extract_resource
  no_resource = after-absent b'/' jid bare

  -- In a well-formed roster, every available presence from the bare JID of a contact gives the
  -- contact one more resource, however many such presences came before, and every unavailable one
  -- leaves them all.
  pub bare_presences_pile_up :
      (show_str status priority_str : Option Str)
      → ((s' : Server) × (l : List Resource) × (update_user_presence glib s jid show_str status
              priority_str
            ≡ some s')
          × (length l ≡ length u.resources + 1)
          × ((p : Option Str → User → Bool)
              → how_many p s'.roster + bit (p g.name u)
                ≡ how_many p s.roster + bit (p g.name (record u { error = false; resources = l }))))
        × ((p : Option Str → User → Bool)
            → how_many p (user_unavailable glib s jid status).roster + bit (p g.name u)
              ≡ how_many p s.roster + bit (p g.name (record u { error = false })))
  bare_presences_pile_up show_str status priority_str = (
    (
      (update_user_presence-listens glib s jid g u v found show_str status priority_str).0,
      glib.slist_sort func_sort_resource (newest ∷ u.resources),
      (update_user_presence-listens glib s jid g u v found show_str status priority_str).1,
      longer,
      λ p.
          (update_user_presence-listens glib s jid g u v found show_str status priority_str).2 p
          ∙ ap
              (λ (o : Option (Bool × List Resource)).
                how_many p s.roster + bit (p g.name (listens u o)))
              heard,
    ),
    λ p.
        user_unavailable_contact glib s jid g u v found status p
        ∙ ap
            (λ (r : Option Str).
              how_many p s.roster
              + bit (p g.name (leaves u r (rosters_find_resource u.resources r))))
            no_resource
        ∙ ap (λ (o : Option Resource). how_many p s.roster + bit (p g.name (leaves u none o)))
            (nothing_found u.resources),
  )
    where
      newest : Resource
      newest = presented (xmpp_get_show glib show_str) status priority_str (create_resource none)

      longer :
          length (glib.slist_sort func_sort_resource (newest ∷ u.resources))
          ≡ length u.resources + 1
      longer = omega (
        arith,
        length-sum_of (glib.slist_sort func_sort_resource (newest ∷ u.resources)),
        length-sum_of u.resources,
        sum_of-slist_sort glib (λ r. 1) func_sort_resource (newest ∷ u.resources),
      )

      heard :
          hear glib
            (xmpp_extract_resource jid)
            (xmpp_get_show glib show_str)
            status
            priority_str
            u.resources
          ≡ some (true, glib.slist_sort func_sort_resource (newest ∷ u.resources))
      heard = rw no_resource (unfold hear in rw (nothing_found u.resources, hear))
