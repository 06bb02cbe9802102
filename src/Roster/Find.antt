-- ===== src/Roster/Find.antt =====
-- src/core/rosters-tools.c: searches in the roster.
use irssi_xmpp.Prelude.{
  Bool, false, not, Option, none, some, List, [], ◌∷◌, ◌++◌, if◌then◌else◌, find_first,
}
use irssi_xmpp.Prelude.Int.{is_zero}
use irssi_xmpp.Prelude.Str.{Str, str_eq, before, after}
use irssi_xmpp.Glib.{Glib}
use irssi_xmpp.Tools.{xmpp_have_resource, xmpp_extract_resource, xmpp_strip_resource}
use irssi_xmpp.Roster.{Presence, xmpp_presence_show, Resource, User, Group, Server}

-- The test that `find_user_func` returns 0.
unfoldable pub find_user_func : Str → User → Bool
unfolding str_eq
find_user_func jid u = str_eq u.jid jid

name_is : Option Str → Str → Bool
unfolding str_eq
name_is none name = false
name_is (some n) name = str_eq n name

find_username_func : Str → User → Bool
unfolding name_is
find_username_func name u = name_is u.name name

-- A resource's own name is never NULL; a search for NULL finds nothing.
pub resource_is : Str → Option Str → Bool
unfolding str_eq
resource_is res none = false
resource_is res (some name) = str_eq res name

unfoldable pub find_resource_func : Option Str → Resource → Bool
unfolding resource_is
find_resource_func name r = resource_is r.name name

-- `gl_found` is NULL before the first test, so the body of the loop never runs. `none` stands for
-- the read through NULL that follows on an empty roster.
pub find_group_from_user : Server → User → Option Group
find_group_from_user server user = elim server.roster [ [] ↦ none | g ∷ gs ↦ some g ]

-- The loop over the groups stops at the first one with a match.
unfoldable pub find_in_groups : (User → Bool) → List Group → Option (Group × User)
unfolding find_first
find_in_groups p [] = none
find_in_groups p (g ∷ gs) = elim (find_first p g.users) [
  | some u ↦ some (g, u)
  | none ↦ find_in_groups p gs
]

-- The search is for the text before the first '/', which the code cuts off for the time of the
-- call. The group is the value written through `group`.
unfoldable pub rosters_find_user : List Group → Str → Option (Group × User)
unfolding find_in_groups find_user_func before
rosters_find_user groups jid = find_in_groups (find_user_func (before b'/' jid)) groups

last_group : List Group → Option Group
last_group [] = none
last_group (g ∷ []) = some g
last_group (g ∷ h ∷ gs) = last_group (h ∷ gs)

-- The contact, and the group written through `group`: the last one where no contact is found.
pub find_username : List Group → Str → Option User × Option Group
unfolding find_in_groups find_username_func last_group
find_username groups name = elim (find_in_groups (find_username_func name) groups) [
  | some (g, u) ↦ (some u, some g)
  | none ↦ (none, last_group groups)
]

unfoldable pub rosters_find_resource : List Resource → Option Str → Option Resource
unfolding find_resource_func find_first
rosters_find_resource resources res = find_first (find_resource_func res) resources

pub rosters_find_own_resource : Server → Option Str → Option Resource
unfolding find_resource_func find_first
rosters_find_own_resource server res = find_first (find_resource_func res) server.my_resources

-- The resource that `rosters_find_user` writes through its last argument.
pub found_resource : List Group → Str → Option Resource
unfolding rosters_find_user rosters_find_resource after
found_resource groups jid = elim (rosters_find_user groups jid) [
  | none ↦ none
  | some (g, u) ↦ elim (after b'/' jid) [
    | none ↦ none
    | some r ↦ rosters_find_resource u.resources (some r)
  ]
]

-- The JID with the contact's first resource, where that has a name.
with_resource : User → List Resource → Str
with_resource u [] = u.jid
with_resource u (r ∷ rs) = elim r.name [ [] ↦ u.jid | c ∷ n ↦ u.jid ++ b'/' ∷ r.name ]

resolved : User → Str → Str
unfolding with_resource xmpp_have_resource xmpp_extract_resource
resolved u name =
    if not (xmpp_have_resource name)
    then with_resource u u.resources
    else elim (xmpp_extract_resource name) [ none ↦ u.jid | some r ↦ u.jid ++ b'/' ∷ r ]

user_of : Option (Group × User) → Option User
user_of none = none
user_of (some (g, u)) = some u

resolve : List Group → Str → Option Str
unfolding find_username rosters_find_user user_of resolved
resolve groups name = elim (find_username groups name).0 [
  | some u ↦ some (resolved u name)
  | none ↦ elim (user_of (rosters_find_user groups name)) [
    | some u ↦ some (resolved u name)
    | none ↦ none
  ]
]

pub rosters_resolve_name : Glib → Server → Str → Option Str
unfolding resolve
rosters_resolve_name glib server name = resolve server.roster (glib.strstrip name)

-- The two loops, and the name of the first contact with that JID.
name_in : List User → Str → Option (Option Str)
unfolding str_eq
name_in [] jid = none
name_in (u ∷ us) jid = if str_eq jid u.jid then some u.name else name_in us jid

name_in_groups : List Group → Str → Option Str
unfolding name_in
name_in_groups [] jid = none
name_in_groups (g ∷ gs) jid = elim (name_in g.users jid) [
  | some n ↦ n
  | none ↦ name_in_groups gs jid
]

pub rosters_get_name : Server → Str → Option Str
unfolding name_in_groups xmpp_strip_resource
rosters_get_name server full_jid = name_in_groups server.roster (xmpp_strip_resource full_jid)

-- The chain of tests, on a text that is not empty; "online" and all else mean available.
pub xmpp_get_show : Glib → Option Str → Presence
xmpp_get_show glib none = Presence.available
xmpp_get_show glib (some []) = Presence.available
xmpp_get_show glib (some (c ∷ s)) =
    let reads = λ (p : Presence). is_zero (glib.ascii_strcasecmp (c ∷ s) (xmpp_presence_show p)) in
    if reads Presence.chat
    then Presence.chat
    else if reads Presence.dnd
    then Presence.dnd
    else if reads Presence.xa
    then Presence.xa
    else if reads Presence.away
    then Presence.away
    else Presence.available
