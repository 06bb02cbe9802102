-- ===== src/Roster/Update.antt =====
-- src/core/rosters.c: the operations on the roster.
pub mod Valid
pub mod Groups
pub mod Steps
pub mod Contacts
pub mod Ends
pub mod Items
pub mod Unique
use irssi_xmpp.Prelude.{
  ℕ, suc, ◌+◌, ◌==◌, Bool, true, false, not, ◌&&◌, ◌||◌, Option, none, some, List, [], ◌∷◌, ◌++◌,
  if◌then◌else◌, find_first, remove_first, update_first,
}
use irssi_xmpp.Prelude.Int.{ℤ, pos, is_zero}
use irssi_xmpp.Prelude.Str.{Str, str_eq, differ, atoi}
use irssi_xmpp.Glib.{Glib}
use irssi_xmpp.Tools.{xmpp_strip_resource, xmpp_extract_resource, xmpp_presence_changed}
use irssi_xmpp.Roster.{
  Presence, rank, Subscription, xmpp_subscription, Resource, User, Group, Signal, presence_online,
  presence_offline, presence_changed, Server,
}
use irssi_xmpp.Roster.Compare.{func_find_group, func_sort_group, func_sort_user, func_sort_resource}
use irssi_xmpp.Roster.Find.{
  rosters_find_user, rosters_find_resource, find_resource_func, xmpp_get_show,
}
use irssi_xmpp.Roster.Store.{at_user, at_group, set_user, set_users}

abbrev pub empty_unless : Option Str → Str
empty_unless none = []
empty_unless (some s) = s

unfoldable pub create_resource : Option Str → Resource
create_resource name = record {
  name = empty_unless name;
  priority = pos 0;
  show = Presence.unavailable;
  status = none;
  composing_id = none;
}

-- `g_new` takes the next address.
unfoldable pub create_user : ℕ → Str → Option Str → User
create_user addr jid name = record {
  addr = addr;
  jid = jid;
  name = name;
  subscription = Subscription.nothing;
  error = false;
  resources = [];
}

pub create_group : ℕ → Option Str → Group
create_group addr name = record { addr = addr; name = name; users = [] }

-- The freed structures leave the lists; nothing else of the server changes.
pub roster_cleanup : Server → Server
roster_cleanup server = elim server.roster [
  | [] ↦ server
  | g ∷ gs ↦ record server { roster = []; my_resources = [] }
]

abbrev is_group : Option Str → Group → Bool
is_group name g = is_zero (func_find_group g.name name)

pub find_or_add_group : Glib → Server → Option Str → Server × Group
unfolding create_group
find_or_add_group glib server name = elim (find_first (is_group name) server.roster) [
  | some g ↦ (server, g)
  | none ↦
      let g = create_group server.next name in
      (
        record server {
          roster = glib.slist_insert_sorted func_sort_group server.roster g;
          next = suc server.next;
        },
        g,
      )
]

-- The server, the new contact, and the group written through `return_group`.
pub add_user : Glib → Server → Str → Option Str → Option Str → Server × Group × User
unfolding create_user
add_user glib server jid name group_name =
    let (s, g) = find_or_add_group glib server group_name in
    let u = create_user s.next jid name in
    (record s { roster = set_users g.addr (λ us. us ++ u ∷ []) s.roster; next = suc s.next }, g, u)

pub move_user : Glib → Server → User → Group → Option Str → Server × Group
move_user glib server user group group_name =
    let (s, h) = find_or_add_group glib server group_name in
    let without = set_users group.addr (remove_first (at_user user.addr)) s.roster in
    (record s { roster = set_users h.addr (λ us. us ++ user ∷ []) without }, h)

-- The group sorted through its pointer.
unfoldable pub sort_group : Glib → ℕ → List Group → List Group
sort_group glib addr roster = set_users addr (glib.slist_sort func_sort_user) roster

-- The subscription that a text names, case aside; NULL names "none".
unfoldable pub subscription_of : Glib → Option Str → Option Subscription
subscription_of glib none = some Subscription.nothing
subscription_of glib (some s) =
    let reads = λ (t : Subscription). is_zero (glib.ascii_strcasecmp s (xmpp_subscription t)) in
    if reads Subscription.nothing
    then some Subscription.nothing
    else if reads Subscription.from
    then some Subscription.from
    else if reads Subscription.to
    then some Subscription.to
    else if reads Subscription.both
    then some Subscription.both
    else if reads Subscription.remove
    then some Subscription.remove
    else none

abbrev has_no_users : Group → Bool
has_no_users g = elim g.users [ [] ↦ true | u ∷ us ↦ false ]

-- The group at that address, if it is empty, leaves the roster.
pub drop_if_empty : ℕ → List Group → List Group
drop_if_empty addr roster = elim (find_first (at_group addr) roster) [
  | none ↦ roster
  | some g ↦ if has_no_users g then remove_first (at_group addr) roster else roster
]

pub apply_subscription : Server → User → Group → Option Subscription → Server
unfolding drop_if_empty
apply_subscription server user group none = server
apply_subscription server user group (some Subscription.remove) =
    let without = set_users group.addr (remove_first (at_user user.addr)) server.roster in
    record server { roster = drop_if_empty group.addr without }
apply_subscription server user group (some t) = record server {
  roster = set_user user.addr (λ u. record u { subscription = t }) server.roster;
}

pub update_subscription : Glib → Server → User → Group → Option Str → Server
unfolding apply_subscription
update_subscription glib server user group subscription =
    apply_subscription server user group (subscription_of glib subscription)

-- Another group than the one named: move the contact there, and sort that group.
pub change_group : Glib → Server → User → Group → Option Str → Server × Group
change_group glib server user group group_name =
    let (s, h) = move_user glib server user group group_name in
    if differ group.name group_name
    then (record s { roster = sort_group glib h.addr s.roster }, h)
    else (server, group)

-- Another name: write it, and sort the group.
pub change_name : Glib → Server → User → ℕ → Option Str → Server
change_name glib server user group_addr name =
    if differ user.name name
    then record server {
      roster =
          sort_group glib group_addr
            (set_user user.addr (λ u. record u { name = name }) server.roster);
    }
    else server

-- The contact as found, with its group, moved and renamed.
pub refresh_user : Glib → Server → User → Group → Option Str → Option Str → Server × Group
refresh_user glib server user group name group_name =
    let (s, h) = change_group glib server user group group_name in
    (change_name glib s user h.addr name, h)

pub update_user : Glib → Server → Str → Option Str → Option Str → Option Str → Server
update_user glib server jid subscription name group_name =
    elim (rosters_find_user server.roster jid) [
      | none ↦
          let (s, g, u) = add_user glib server jid name group_name in
          update_subscription glib s u g subscription
      | some (g, u) ↦
          let (s, h) = refresh_user glib server u g name group_name in
          update_subscription glib s u h subscription
    ]
