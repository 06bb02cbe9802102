-- ===== src/Roster/Store.antt =====
-- Writes through the pointers to groups and contacts, which are their addresses.
pub mod Count
pub mod Writes
use irssi_xmpp.Prelude.{
  ℕ, ◌==◌, Bool, true, false, Option, none, some, List, [], ◌∷◌, map, if◌then◌else◌, find_first,
  remove_first,
}
use irssi_xmpp.Roster.{User, Group}

unfoldable pub at_user : ℕ → User → Bool
at_user a u = u.addr == a

unfoldable pub at_group : ℕ → Group → Bool
at_group a g = g.addr == a

-- `user->f = v`
pub write_user : ℕ → (User → User) → User → User
write_user a f u = if u.addr == a then f u else u

unfoldable pub set_user : ℕ → (User → User) → List Group → List Group
unfolding write_user
set_user a f [] = []
set_user a f (g ∷ r) = record g { users = map (write_user a f) g.users } ∷ set_user a f r

-- `group->users = f(group->users)`
pub write_users : ℕ → (List User → List User) → Group → Group
write_users a f g = if g.addr == a then record g { users = f g.users } else g

unfoldable pub set_users : ℕ → (List User → List User) → List Group → List Group
unfolding write_users
set_users a f roster = map (write_users a f) roster
