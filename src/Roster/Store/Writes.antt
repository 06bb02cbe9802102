-- ===== src/Roster/Store/Writes.antt =====
-- What each write does to the sums over a roster.
use irssi_xmpp.Prelude.{
  ℕ, ◌+◌, ◌≤◌, ◌≡◌, refl, ◌==◌, Bool, ◌&&◌, Option, List, [], ◌∷◌, ◌++◌, map, if◌then◌else◌,
  remove_first, sum_of, count, bit, picked, picked_once, arith, sum_of-append, sum_of-remove_once,
  ==_refl,
}
use irssi_xmpp.Prelude.Str.{Str}
use irssi_xmpp.Roster.{User, Group}
use irssi_xmpp.Roster.Store.{at_user, at_group, write_user, set_user, set_users}
use irssi_xmpp.Roster.Store.Count.{Weight, tally, weight_at, only, Holds, HasGroup, tally_once}

-- Each group is still there, with its address and name.
pub groups-set_user :
    (w : ℕ → Option Str → ℕ) (a : ℕ) (f : User → User) (r : List Group)
    → sum_of (λ g. w g.addr g.name) (set_user a f r) ≡ sum_of (λ g. w g.addr g.name) r
unfolding set_user
groups-set_user w a f [] = refl
groups-set_user w a f (g ∷ r) = omega (arith, groups-set_user w a f r)

pub groups-set_users :
    (w : ℕ → Option Str → ℕ) (a : ℕ) (f : List User → List User) (r : List Group)
    → sum_of (λ g. w g.addr g.name) (set_users a f r) ≡ sum_of (λ g. w g.addr g.name) r
unfolding set_users
groups-set_users w a f [] = refl
groups-set_users w a f (g ∷ r) = ground (arith, groups-set_users w a f r)

sum_of-write_user :
    (w : User → ℕ) (a : ℕ) (f : User → User) (us : List User)
    → sum_of w (map (write_user a f) us) + picked (at_user a) w us
      ≡ sum_of w us + picked (at_user a) (λ u. w (f u)) us
unfolding write_user at_user
sum_of-write_user w a f [] = refl
sum_of-write_user w a f (u ∷ us) = ground (arith, sum_of-write_user w a f us)

tally-set_user :
    (w : Weight) (a : ℕ) (f : User → User) (r : List Group)
    → tally w (set_user a f r) + tally (only (at_user a) w) r
      ≡ tally w r + tally (only (at_user a) (λ ga n u. w ga n (f u))) r
unfolding set_user
tally-set_user w a f [] = refl
tally-set_user w a f (g ∷ r) =
    omega (arith, sum_of-write_user (w g.addr g.name) a f g.users, tally-set_user w a f r)

-- A write to a contact that the roster holds exchanges it for its new value.
pub tally-set_user_held :
    (w : Weight) (f : User → User) (r : List Group) (ga : ℕ) (n : Option Str) (u : User)
    → Holds r ga n u
    → tally (weight_at u.addr) r ≤ 1
    → tally w (set_user u.addr f r) + w ga n u ≡ tally w r + w ga n (f u)
tally-set_user_held w f r ga n u held once = omega (
  arith,
  tally-set_user w u.addr f r,
  tally_once r ga n u w held once,
  tally_once r ga n u (λ ga' n' u'. w ga' n' (f u')) held once,
)

-- A change of order, or any other that keeps the sums of every list.
pub tally-set_users_same :
    (w : Weight) (a : ℕ) (f : List User → List User) (r : List Group)
    → ((v : User → ℕ) (us : List User) → sum_of v (f us) ≡ sum_of v us)
    → tally w (set_users a f r) ≡ tally w r
unfolding set_users
tally-set_users_same w a f [] h = refl
tally-set_users_same w a f (g ∷ r) h =
    ground (arith, h (w g.addr g.name) g.users, tally-set_users_same w a f r h)

tally-append :
    (w : Weight) (a : ℕ) (u : User) (r : List Group)
    → tally w (set_users a (λ us. us ++ u ∷ []) r)
      ≡ tally w r + picked (at_group a) (λ g. w g.addr g.name u) r
unfolding set_users at_group
tally-append w a u [] = refl
tally-append w a u (g ∷ r) =
    ground (arith, sum_of-append (w g.addr g.name) g.users (u ∷ []), tally-append w a u r)

-- A contact that is appended to a group is added to the roster.
pub tally-append_held :
    (w : Weight) (r : List Group) (ga : ℕ) (n : Option Str) (u : User)
    → HasGroup r ga n
    → count (at_group ga) r ≤ 1
    → tally w (set_users ga (λ us. us ++ u ∷ []) r) ≡ tally w r + w ga n u
unfolding at_group
tally-append_held w r ga n u has once = omega (
  arith,
  tally-append w ga u r,
  picked_once (at_group ga) (λ g. w g.addr g.name u) (w ga n u) r once
      (omega (arith, has.weighs hits, seen)),
)
  where
    hits : ℕ → Option Str → ℕ
    hits a m = bit (a == ga && w a m u == w ga n u)

    seen : hits ga n ≡ 1
    seen = ground (arith, ==_refl (w ga n u), ==_refl ga)

abbrev in_group : ℕ → Weight → Weight
in_group a w ga n u = if ga == a then w ga n u else 0

picked_zero : (p : User → Bool) (l : List User) → picked p (λ u. 0) l ≡ 0
picked_zero p [] = refl
picked_zero p (u ∷ l) = ground (arith, picked_zero p l)

tally-remove :
    (w : Weight) (ga a : ℕ) (r : List Group)
    → tally (weight_at a) r ≤ 1
    → tally w (set_users ga (remove_first (at_user a)) r)
        + tally (only (at_user a) (in_group ga w)) r
      ≡ tally w r
unfolding set_users
tally-remove w ga a [] h = refl
tally-remove w ga a (g ∷ r) h = ground (
  arith,
  sum_of-remove_once (w g.addr g.name) (at_user a) g.users,
  picked_zero (at_user a) g.users,
  tally-remove w ga a r,
)

-- Removing a contact from its group takes it out of the roster.
pub tally-remove_held :
    (w : Weight) (r : List Group) (ga : ℕ) (n : Option Str) (u : User)
    → Holds r ga n u
    → tally (weight_at u.addr) r ≤ 1
    → tally w (set_users ga (remove_first (at_user u.addr)) r) + w ga n u ≡ tally w r
tally-remove_held w r ga n u held once =
    ground
      (arith, tally-remove w ga u.addr r, tally_once r ga n u (in_group ga w) held once, ==_refl ga)
