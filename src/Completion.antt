-- ===== src/Completion.antt =====
-- src/fe-common/xmpp-completion.c: the words offered for what is typed.
--
-- A GList is a list of texts.
pub mod Commands
pub mod Jids
pub mod Nicks
mod Tests
use irssi_xmpp.Prelude.{
  ℕ, Bool, true, false, not, ◌&&◌, ◌||◌, Option, none, some, List, [], ◌∷◌, ◌++◌, if◌then◌else◌,
  length,
}
use irssi_xmpp.Prelude.Int.{is_zero}
use irssi_xmpp.Prelude.Str.{Str, has, strncmp}
use irssi_xmpp.Glib.{Glib}
use irssi_xmpp.Tools.{xmpp_extract_resource, xmpp_strip_resource}
use irssi_xmpp.Roster.{Resource, User, Group}
use irssi_xmpp.Roster.Find.{rosters_find_user}

-- The name, and the resource where there is one.
abbrev pub joined_name : Str → Option Str → Str
joined_name name none = name
joined_name name (some res) = name ++ b'/' ∷ res

abbrev in_quotes : Str → Str
in_quotes s = b'"' ∷ s ++ b'"' ∷ []

-- A blank is looked for in the resource where there is one, else in the name.
pub quoted_if_space : Str → Option Str → Str
unfolding has
quoted_if_space name (some res) =
    let s = joined_name name (some res) in if has b' ' res then in_quotes s else s
quoted_if_space name none = if has b' ' name then in_quotes name else name

-- `quoted ? quoted_if_space(name, res) : …`
pub offered : Bool → Str → Option Str → Str
offered quoted name res = if quoted then quoted_if_space name res else joined_name name res

-- The test of a prefix without case.
unfoldable pub starts : Glib → Str → Str → Bool
starts glib s prefix = is_zero (glib.ascii_strncasecmp s prefix (length prefix))

unfoldable pub starts_exactly : Str → Str → Bool
unfolding strncmp
starts_exactly s prefix = is_zero (strncmp s prefix (length prefix))

-- `resource_name == NULL || g_ascii_strncasecmp(...) == 0`
resource_fits : Glib → Option Str → Resource → Bool
unfolding starts
resource_fits glib none r = true
resource_fits glib (some name) r = starts glib r.name name

-- The loop over the resources of a contact.
add_resources : Glib → Str → Option Str → Bool → List Str → List Resource → List Str
unfolding resource_fits offered
add_resources glib nick resource_name quoted list [] = list
add_resources glib nick resource_name quoted list (r ∷ l) =
    let more = list ++ offered quoted nick (some r.name) ∷ [] in
    add_resources glib nick resource_name quoted
      (if resource_fits glib resource_name r then more else list) l

unfoldable pub get_resources : Glib → List Group → Str → Option Str → Bool → List Str
unfolding rosters_find_user add_resources
get_resources glib roster nick resource_name quoted = elim (rosters_find_user roster nick) [
  | none ↦ []
  | some (g, u) ↦ add_resources glib nick resource_name quoted [] u.resources
]

-- `user->resources != NULL`
abbrev pub is_online : User → Bool
is_online u = elim u.resources [ [] ↦ false | r ∷ l ↦ true ]

-- The four lists of get_jids.
pub record Lists : Type 0 where
  pub list : List Str
  pub list_case : List Str
  pub offlist : List Str
  pub offlist_case : List Str

-- The appends, for what the tests `strncmp`, `g_ascii_strncasecmp` and `resources != NULL` say.
unfoldable append_jid : Bool → Bool → Bool → Str → Lists → Lists
append_jid true same_case true jid l = record l { list = l.list ++ jid ∷ [] }
append_jid true same_case false jid l = record l { offlist = l.offlist ++ jid ∷ [] }
append_jid false true true jid l = record l { list_case = l.list_case ++ jid ∷ [] }
append_jid false true false jid l = record l { offlist_case = l.offlist_case ++ jid ∷ [] }
append_jid false false online jid l = l

unfoldable add_jids : Glib → Str → Lists → List User → Lists
unfolding append_jid starts starts_exactly
add_jids glib jid l [] = l
add_jids glib jid l (u ∷ us) =
    add_jids glib jid
      (append_jid (starts_exactly u.jid jid) (starts glib u.jid jid) (is_online u) u.jid l) us

-- The loop over the groups.
unfoldable add_group_jids : Glib → Str → Lists → List Group → Lists
unfolding add_jids
add_group_jids glib jid l [] = l
add_group_jids glib jid l (g ∷ r) = add_group_jids glib jid (add_jids glib jid l g.users) r

abbrev empty_lists : Lists
empty_lists = record { list = []; list_case = []; offlist = []; offlist_case = [] }

unfoldable pub get_jids : Glib → List Group → Str → List Str
unfolding add_group_jids
get_jids glib roster jid =
    let l = add_group_jids glib jid empty_lists roster in
    ((l.list ++ l.list_case) ++ l.offlist) ++ l.offlist_case

-- `complete_names && user->name != NULL && …`: the name where it is offered.
prepend_name : Glib → Str → Bool → Bool → Option Str → List Str → List Str
unfolding starts offered
prepend_name glib nick quoted complete_names none list = list
prepend_name glib nick quoted complete_names (some name) list =
    if complete_names && starts glib name nick then offered quoted name none ∷ list else list

prepend_jid : Glib → Str → Bool → Str → List Str → List Str
unfolding starts offered
prepend_jid glib nick quoted jid list =
    if starts glib jid nick then offered quoted jid none ∷ list else list

-- One pass over the contacts of a group: those whose being online is as asked for.
unfoldable pass_users : Glib → Str → Bool → Bool → Bool → List Str → List User → List Str
unfolding prepend_name prepend_jid
pass_users glib nick quoted complete_names online list [] = list
pass_users glib nick quoted complete_names online list (u ∷ us) =
    let more =
      prepend_jid glib nick quoted u.jid
        (prepend_name glib nick quoted complete_names u.name list) in
    let skipped = (online && not (is_online u)) || (not online && is_online u) in
    pass_users glib nick quoted complete_names online (if skipped then list else more) us

unfoldable pass : Glib → Str → Bool → Bool → Bool → List Str → List Group → List Str
unfolding pass_users
pass glib nick quoted complete_names online list [] = list
pass glib nick quoted complete_names online list (g ∷ r) =
    pass glib nick quoted complete_names online
      (pass_users glib nick quoted complete_names online list g.users) r

-- The pass over the contacts that are online, then the one over the others.
unfoldable both_passes : Glib → List Group → Str → Bool → Bool → List Str
unfolding pass
both_passes glib roster nick quoted complete_names =
    pass glib nick quoted complete_names false (pass glib nick quoted complete_names true [] roster)
      roster

unfoldable pub get_nicks : Glib → List Group → Str → Bool → Bool → List Str
unfolding both_passes get_resources xmpp_extract_resource xmpp_strip_resource
get_nicks glib roster nick quoted complete_names = elim (xmpp_extract_resource nick) [
  | some resource ↦ get_resources glib roster (xmpp_strip_resource nick) (some resource) quoted
  | none ↦ both_passes glib roster nick quoted complete_names
]
