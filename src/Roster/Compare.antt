-- ===== src/Roster/Compare.antt =====
-- src/core/rosters.c: the comparison functions of the lists, and what they order.
pub mod Order
use irssi_xmpp.Prelude.{
  ℕ, Bool, true, false, ◌&&◌, ◌||◌, Option, none, some, List, [], ◌∷◌, if◌then◌else◌,
}
use irssi_xmpp.Prelude.Int.{ℤ, pos, negsuc, ◌-ℤ◌, is_zero, int_of}
use irssi_xmpp.Prelude.Str.{Str, strcmp}
use irssi_xmpp.Roster.{Resource, User, Group, rank}

-- A pointer equality implies that both are NULL or hold one text.
unfoldable pub func_find_group : Option Str → Option Str → ℤ
unfolding strcmp
func_find_group none none = pos 0
func_find_group none (some b) = negsuc 0
func_find_group (some a) none = negsuc 0
func_find_group (some a) (some b) = strcmp a b

pub sort_names : Option Str → Option Str → ℤ
unfolding strcmp
sort_names none b = negsuc 0
sort_names (some a) none = pos 1
sort_names (some a) (some b) = strcmp a b

unfoldable pub func_sort_group : Group → Group → ℤ
unfolding sort_names
func_sort_group g h = sort_names g.name h.name

-- The tests on the two differences, and the names where both are 0.
pub by_keys : ℤ → ℤ → ℤ → ℤ
by_keys by_priority by_show by_name =
    if is_zero by_priority then (if is_zero by_show then by_name else by_show) else by_priority

-- A priority is any `int`, so the difference of two may not fit in an `int`: it wraps around.
unfoldable pub func_sort_resource : Resource → Resource → ℤ
unfolding strcmp by_keys int_of
func_sort_resource r s =
    by_keys (int_of (s.priority -ℤ r.priority)) (pos (rank s.show) -ℤ pos (rank r.show))
      (strcmp r.name s.name)

by_name : Str → Option Str → Str → Option Str → ℤ
unfolding strcmp
by_name jid none jid' (some n') = strcmp jid n'
by_name jid (some n) jid' none = strcmp n jid'
by_name jid (some n) jid' (some n') = strcmp n n'
by_name jid none jid' none = strcmp jid jid'

unfoldable pub func_sort_user_by_name : User → User → ℤ
unfolding by_name
func_sort_user_by_name u v = by_name u.jid u.name v.jid v.name

abbrev same_bool : Bool → Bool → Bool
same_bool true b = b
same_bool false true = false
same_bool false false = true

-- By the first resources, where both contacts have one and neither has an error.
by_resources : User → List Resource → User → List Resource → ℤ
unfolding func_sort_user_by_name
by_resources u [] v [] = if same_bool u.error v.error then func_sort_user_by_name u v else pos 1
by_resources u [] v (s ∷ ss) = pos 1
by_resources u (r ∷ rs) v [] = if u.error then pos 1 else negsuc 0
by_resources u (r ∷ rs) v (s ∷ ss) =
    if u.error
    then pos 1
    else if v.error
    then negsuc 0
    else if is_zero (pos (rank s.show) -ℤ pos (rank r.show))
    then func_sort_user_by_name u v
    else pos (rank s.show) -ℤ pos (rank r.show)

unfoldable pub func_sort_user : User → User → ℤ
unfolding by_resources
func_sort_user u v = by_resources u u.resources v v.resources
