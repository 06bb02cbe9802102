-- ===== src/Roster/Presences.antt =====
-- src/core/rosters.c: what a presence does to the contact, or to the other resources of one's own.
mod Heard
pub mod Contacts
pub mod Highest
pub mod Bare
pub mod Faults
mod Tests
use irssi_xmpp.Prelude.{
  ℕ, ◌==◌, Bool, true, false, Option, none, some, List, [], ◌∷◌, ◌++◌, if◌then◌else◌, remove_first,
  update_first,
}
use irssi_xmpp.Prelude.Int.{ℤ}
use irssi_xmpp.Prelude.Str.{Str, str_eq, atoi}
use irssi_xmpp.Glib.{Glib}
use irssi_xmpp.Tools.{xmpp_strip_resource, xmpp_extract_resource, xmpp_presence_changed}
use irssi_xmpp.Roster.{
  Presence, rank, Resource, User, Group, Signal, presence_online, presence_offline,
  presence_changed, Server,
}
use irssi_xmpp.Roster.Compare.{func_sort_resource}
use irssi_xmpp.Roster.Find.{
  rosters_find_user, rosters_find_resource, find_resource_func, xmpp_get_show,
}
use irssi_xmpp.Roster.Store.{set_user}
use irssi_xmpp.Roster.Update.{create_resource, sort_group}

-- The new priority of a resource; without one it keeps the one it has. Any `int` may come of it.
unfoldable pub priority_or : Option Str → ℤ → ℤ
unfolding atoi
priority_or none p = p
priority_or (some s) p = atoi s

pub presented : Presence → Option Str → Option Str → Resource → Resource
unfolding priority_or
presented show status priority r = record r {
  show = show;
  status = status;
  priority = priority_or priority r.priority;
}

abbrev changes : Presence → Option Str → Option Str → Resource → Bool
changes show status priority r =
    xmpp_presence_changed (rank show) (rank r.show) status r.status
      (priority_or priority r.priority) r.priority

-- The list of resources with the presence of resource `res` in it: a new resource goes to the front,
-- and the list is sorted, where anything is new. `some` tells whether the resource is new.
pub hear :
    Glib
    → Option Str
    → Presence
    → Option Str
    → Option Str
    → List Resource
    → Option (Bool × List Resource)
unfolding presented rosters_find_resource find_resource_func create_resource update_first
    xmpp_presence_changed
hear glib res show status priority resources = elim (rosters_find_resource resources res) [
  | none ↦ some (
    true,
    glib.slist_sort func_sort_resource
        (presented show status priority (create_resource res) ∷ resources),
  )
  | some r ↦
      if changes show status priority r
      then some (
        false,
        glib.slist_sort func_sort_resource
            (update_first (find_resource_func res) (presented show status priority) resources),
      )
      else none
]

-- The signals, in the order in which the code emits them.
heard_signals : Bool → Str → Presence → Option Str → List Signal
unfolding xmpp_strip_resource xmpp_extract_resource
heard_signals is_new full_jid show status =
    if is_new
    then presence_online full_jid (xmpp_strip_resource full_jid) (xmpp_extract_resource full_jid)
      ∷ presence_changed full_jid show status
      ∷ []
    else presence_changed full_jid show status ∷ []

abbrev pub without_error : User → User
without_error u = record u { error = false }

pub contact_heard :
    Glib
    → Server
    → Group
    → User
    → Str
    → Presence
    → Option Str
    → Option (Bool × List Resource)
    → Server
unfolding heard_signals
contact_heard glib server group user full_jid show status none = record server {
  roster = set_user user.addr without_error server.roster;
}
contact_heard glib server group user full_jid show status (some (is_new, rs)) = record server {
  roster = sort_group glib group.addr (
      set_user user.addr (λ u. record u { resources = rs })
        (set_user user.addr without_error server.roster));
  emitted = server.emitted ++ heard_signals is_new full_jid show status;
}

own_heard : Server → Str → Presence → Option Str → Option (Bool × List Resource) → Server
unfolding heard_signals
own_heard server full_jid show status none = server
own_heard server full_jid show status (some (is_new, rs)) = record server {
  my_resources = rs;
  emitted = server.emitted ++ heard_signals is_new full_jid show status;
}

-- One's own JID: `strcmp(res, server->resource)` is called also where `res` is NULL. `none` stands
-- for that fault.
own_presence : Glib → Server → Str → Presence → Option Str → Option Str → Option Str → Option Server
unfolding hear own_heard
own_presence glib server full_jid show status priority none = none
own_presence glib server full_jid show status priority (some res) =
    if str_eq res server.resource
    then some server
    else some (
        own_heard server full_jid show status
          (hear glib (some res) show status priority server.my_resources))

pub update_user_presence :
    Glib → Server → Str → Option Str → Option Str → Option Str → Option Server
unfolding own_presence contact_heard hear
update_user_presence glib server full_jid show_str status priority_str =
    let jid = xmpp_strip_resource full_jid in
    let res = xmpp_extract_resource full_jid in
    let show = xmpp_get_show glib show_str in
    elim (rosters_find_user server.roster jid) [
      | none ↦
          if str_eq jid server.jid
          then own_presence glib server full_jid show status priority_str res
          else some server
      | some (g, u) ↦ some (
          contact_heard glib server g u full_jid show status
            (hear glib res show status priority_str u.resources))
    ]

gone_signals : Str → Option Str → List Signal
gone_signals full_jid status =
    presence_offline full_jid (xmpp_strip_resource full_jid) (xmpp_extract_resource full_jid)
    ∷ presence_changed full_jid Presence.unavailable status
    ∷ []

own_gone : Server → Str → Option Str → Option Resource → Server
unfolding gone_signals
own_gone server full_jid status none = server
own_gone server full_jid status (some r) = record server {
  my_resources =
      remove_first (find_resource_func (xmpp_extract_resource full_jid)) server.my_resources;
  emitted = server.emitted ++ gone_signals full_jid status;
}

pub contact_gone : Glib → Server → Group → User → Str → Option Str → Option Resource → Server
unfolding gone_signals
contact_gone glib server group user full_jid status none = record server {
  roster = set_user user.addr without_error server.roster;
}
contact_gone glib server group user full_jid status (some r) = record server {
  roster = sort_group glib group.addr (
      set_user user.addr
        (λ u. record u {
          resources =
              remove_first (find_resource_func (xmpp_extract_resource full_jid)) u.resources;
        })
        (set_user user.addr without_error server.roster));
  emitted = server.emitted ++ gone_signals full_jid status;
}

pub user_unavailable : Glib → Server → Str → Option Str → Server
unfolding own_gone contact_gone
user_unavailable glib server full_jid status =
    let jid = xmpp_strip_resource full_jid in
    let res = xmpp_extract_resource full_jid in
    elim (rosters_find_user server.roster jid) [
      | none ↦
          if str_eq jid server.jid
          then own_gone server full_jid status (rosters_find_resource server.my_resources res)
          else server
      | some (g, u) ↦
          contact_gone glib server g u full_jid status (rosters_find_resource u.resources res)
    ]

abbrev failing : Resource → Resource
failing r = record r { show = Presence.error }

own_error : Server → Str → Option Resource → Server
own_error server full_jid none = server
own_error server full_jid (some r) = record server {
  my_resources =
      update_first (find_resource_func (xmpp_extract_resource full_jid)) failing
        server.my_resources;
  emitted = server.emitted ++ presence_changed full_jid Presence.error none ∷ [];
}

pub contact_error : Glib → Server → Group → User → Str → Option Resource → Server
contact_error glib server group user full_jid none = record server {
  roster = set_user user.addr (λ u. record u { error = true }) server.roster;
}
contact_error glib server group user full_jid (some r) = record server {
  roster = sort_group glib group.addr (
      set_user user.addr
        (λ u. record u {
          resources =
              update_first (find_resource_func (xmpp_extract_resource full_jid)) failing
                u.resources;
        })
        server.roster);
  emitted = server.emitted ++ presence_changed full_jid Presence.error none ∷ [];
}

pub user_presence_error : Glib → Server → Str → Server
unfolding own_error contact_error
user_presence_error glib server full_jid =
    let jid = xmpp_strip_resource full_jid in
    let res = xmpp_extract_resource full_jid in
    elim (rosters_find_user server.roster jid) [
      | none ↦
          if str_eq jid server.jid
          then own_error server full_jid (rosters_find_resource server.my_resources res)
          else server
      | some (g, u) ↦ contact_error glib server g u full_jid (rosters_find_resource u.resources res)
    ]
