-- ===== src/Roster/Presences/Tests.antt =====
-- Presences and the comparison functions on concrete data.
use irssi_xmpp.Roster.Presences.Faults.{update_user_presence_faults}
use irssi_xmpp.Prelude.{
  ◌+◌, ◌↔◌, ◌≡◌, refl, inl, Bool, true, false, Option, none, some, List, [], ◌∷◌, length, bit,
  arith,
}
use irssi_xmpp.Prelude.Int.{ℤ, pos, negsuc, ◌≤ℤ◌}
use irssi_xmpp.Prelude.Str.{Str, codes, has, str_eq, atoi, strtol}
use irssi_xmpp.Glib.{concrete, IsSorted}
use irssi_xmpp.Tools.{xmpp_strip_resource, xmpp_extract_resource}
use irssi_xmpp.Roster.{Presence, Resource, User, Server}
use irssi_xmpp.Roster.Compare.{func_sort_resource, func_sort_user}
use irssi_xmpp.Roster.Compare.Order.{func_sort_user_both_ways, func_sort_resource_circle}
use irssi_xmpp.Roster.Find.{rosters_find_user, rosters_find_resource, xmpp_get_show}
use irssi_xmpp.Roster.Sample.{home, ann, bob, friends, server, server-IsWellFormed}
use irssi_xmpp.Roster.Update.Contacts.{how_many}
use irssi_xmpp.Roster.Presences.{hear, update_user_presence, user_unavailable, user_presence_error}
use irssi_xmpp.Roster.Presences.Contacts.{
  leaves, fails, update_user_presence_contact, user_unavailable_contact,
  user_presence_error_contact,
}
use irssi_xmpp.Roster.Presences.Heard.{Hears}
use irssi_xmpp.Roster.Presences.Highest.{FirstIsHighest, hear-FirstIsHighest}
use irssi_xmpp.Roster.Presences.Bare.{bare_presences_pile_up}

abbrev from_home : Str
from_home = codes "ann@x/home"

find_home : rosters_find_user server.roster (xmpp_strip_resource from_home) ≡ some (friends, ann)
unfolding rosters_find_user xmpp_strip_resource
find_home = refl

find_bare :
    rosters_find_user server.roster (xmpp_strip_resource (codes "ann@x")) ≡ some (friends, ann)
unfolding rosters_find_user xmpp_strip_resource
find_bare = refl

update_user_presence_contact_example :
    (s' : Server) × (l : List Resource) × (update_user_presence concrete server from_home
        (some (codes "dnd"))
        none
        (some (codes "5"))
      ≡ some s')
    × Hears
        (xmpp_extract_resource from_home)
        (xmpp_get_show concrete (some (codes "dnd")))
        none
        (some (codes "5"))
        ann.resources
        (rosters_find_resource ann.resources (xmpp_extract_resource from_home))
        l
    × ((p : Option Str → User → Bool)
        → how_many p s'.roster + bit (p friends.name ann)
          ≡ how_many p server.roster
            + bit (p friends.name (record ann { error = false; resources = l })))
update_user_presence_contact_example =
    update_user_presence_contact concrete server from_home friends ann server-IsWellFormed find_home
      (some (codes "dnd")) none (some (codes "5"))

abbrev is_offline : Option Str → User → Bool
is_offline n u = elim u.resources [ [] ↦ true | r ∷ rs ↦ false ]

user_unavailable_contact_example :
    how_many is_offline (user_unavailable concrete server from_home none).roster
      + bit (is_offline friends.name ann)
    ≡ how_many is_offline server.roster
      + bit (
          is_offline friends.name (
            leaves ann
              (xmpp_extract_resource from_home)
              (rosters_find_resource ann.resources (xmpp_extract_resource from_home))))
user_unavailable_contact_example =
    user_unavailable_contact concrete server from_home friends ann server-IsWellFormed find_home
      none is_offline

user_presence_error_contact_example :
    how_many is_offline (user_presence_error concrete server from_home).roster
      + bit (is_offline friends.name ann)
    ≡ how_many is_offline server.roster
      + bit (
          is_offline friends.name (
            fails ann
              (xmpp_extract_resource from_home)
              (rosters_find_resource ann.resources (xmpp_extract_resource from_home))))
user_presence_error_contact_example =
    user_presence_error_contact concrete server from_home friends ann server-IsWellFormed find_home
      is_offline

-- A new resource with a higher priority, which goes before the other.
abbrev work : Resource
work = record home { name = codes "work"; show = Presence.away; priority = pos 9 }

hears_work :
    hear concrete (some (codes "work")) Presence.away none (some (codes "9")) (home ∷ [])
    ≡ some (true, work ∷ home ∷ [])
unfolding hear concrete func_sort_resource
hears_work = refl

hear-FirstIsHighest_example :
    IsSorted func_sort_resource (work ∷ home ∷ []) × FirstIsHighest (work ∷ home ∷ [])
unfolding atoi strtol
hear-FirstIsHighest_example =
    hear-FirstIsHighest concrete (some (codes "work")) Presence.away none (some (codes "9"))
      (home ∷ []) (work ∷ home ∷ []) true (ground arith, ground arith)
      ((ground arith, ground arith), tt) hears_work

abbrev of_priority : ℤ → Resource
of_priority p = record home { priority = p }

func_sort_resource_circle_example :
    (func_sort_resource (of_priority (pos 2000000000)) (of_priority (pos 0)) ≤ℤ negsuc 0)
    × (func_sort_resource (of_priority (pos 0)) (of_priority (negsuc 1999999999)) ≤ℤ negsuc 0)
    × (func_sort_resource (of_priority (negsuc 1999999999)) (of_priority (pos 2000000000))
        ≤ℤ negsuc 0)
func_sort_resource_circle_example =
    func_sort_resource_circle (of_priority (pos 2000000000)) (of_priority (pos 0))
      (of_priority (negsuc 1999999999)) (ground arith, ground arith) (ground arith, ground arith)
      (ground arith, ground arith) (ground arith) (ground arith, ground arith) (ground arith)
      (ground arith)

bare_presences_pile_up_example :
    ((s' : Server) × (l : List Resource) × (update_user_presence concrete server
          (codes "ann@x")
          none
          none
          none
        ≡ some s')
      × (length l ≡ length ann.resources + 1)
      × ((p : Option Str → User → Bool)
          → how_many p s'.roster + bit (p friends.name ann)
            ≡ how_many p server.roster
              + bit (p friends.name (record ann { error = false; resources = l }))))
    × ((p : Option Str → User → Bool)
        → how_many p (user_unavailable concrete server (codes "ann@x") none).roster
            + bit (p friends.name ann)
          ≡ how_many p server.roster + bit (p friends.name (record ann { error = false })))
unfolding has
bare_presences_pile_up_example =
    bare_presences_pile_up concrete server (codes "ann@x") friends ann server-IsWellFormed refl
      find_bare none none none

abbrev ann_with_error : User
ann_with_error = record ann { error = true }

func_sort_user_both_ways_example :
    (func_sort_user ann_with_error bob ≡ pos 1) × (func_sort_user bob ann_with_error ≡ pos 1)
func_sort_user_both_ways_example =
    func_sort_user_both_ways ann_with_error bob (inl refl) (inl refl) (inl (inl (λ e. cc)))

update_user_presence_faults_example :
    (update_user_presence concrete server (codes "me@x") none none none ≡ none) ↔ (
      (rosters_find_user server.roster (xmpp_strip_resource (codes "me@x")) ≡ none)
      × (str_eq (xmpp_strip_resource (codes "me@x")) server.jid ≡ true)
      × (xmpp_extract_resource (codes "me@x") ≡ none))
update_user_presence_faults_example =
    update_user_presence_faults concrete server (codes "me@x") none none none
