-- ===== src/Roster/Store/Count.antt =====
-- Sums over all contacts of a roster, each weighed with the address and name of its group. They
-- describe a roster up to the order of its groups and contacts.
use irssi_xmpp.Prelude.{
  ℕ, ◌≤◌, ◌≡◌, refl, ◌==◌, Bool, ◌&&◌, Option, some, List, [], ◌∷◌, ◌++◌, if◌then◌else◌, find_first,
  sum_of, bit, picked_once, arith, sum_of-append, ==_refl,
}
use irssi_xmpp.Prelude.Str.{Str}
use irssi_xmpp.Roster.{User, Group}
use irssi_xmpp.Roster.Find.{find_in_groups}
use irssi_xmpp.Roster.Store.{at_user}

abbrev pub Weight : Type 0
Weight = ℕ → Option Str → User → ℕ

abbrev pub tally : Weight → List Group → ℕ
tally w r = sum_of (λ g. sum_of (w g.addr g.name) g.users) r

abbrev pub weight_at : ℕ → Weight
weight_at a _ _ u = bit (at_user a u)

-- Contact u stands in the group with that address and name: no weight of it exceeds the sum.
pub record Holds (r : List Group) (ga : ℕ) (n : Option Str) (u : User) : Type 0 where
  pub weighs : (w : Weight) → w ga n u ≤ tally w r

-- A group with that address and name is in the roster.
pub record HasGroup (r : List Group) (ga : ℕ) (n : Option Str) : Type 0 where
  pub weighs : (w : ℕ → Option Str → ℕ) → w ga n ≤ sum_of (λ g. w g.addr g.name) r

found_in :
    (p : User → Bool) (f : User → ℕ) (l : List User) (u : User)
    → find_first p l ≡ some u
    → f u ≤ sum_of f l
unfolding find_first
found_in p f [] u h = ground arith
found_in p f (x ∷ l) u h = ground (arith, found_in p f l u)

found_weighs :
    (p : User → Bool) (r : List Group) (g : Group) (u : User) (w : Weight)
    → find_in_groups p r ≡ some (g, u)
    → w g.addr g.name u ≤ tally w r
unfolding find_in_groups
found_weighs p [] g u w h = ground arith
found_weighs p (x ∷ r) g u w h =
    ground (arith, found_in p (w x.addr x.name) x.users u, found_weighs p r g u w)

pub Holds-found :
    (p : User → Bool) (r : List Group) (g : Group) (u : User)
    → find_in_groups p r ≡ some (g, u)
    → Holds r g.addr g.name u
Holds-found p r g u h = record { weighs = λ w. found_weighs p r g u w h }

found_has :
    (p : User → Bool) (r : List Group) (g : Group) (u : User) (w : ℕ → Option Str → ℕ)
    → find_in_groups p r ≡ some (g, u)
    → w g.addr g.name ≤ sum_of (λ h. w h.addr h.name) r
unfolding find_in_groups
found_has p [] g u w h = ground arith
found_has p (x ∷ r) g u w h = ground (arith, found_has p r g u w)

pub HasGroup-found :
    (p : User → Bool) (r : List Group) (g : Group) (u : User)
    → find_in_groups p r ≡ some (g, u)
    → HasGroup r g.addr g.name
HasGroup-found p r g u h = record { weighs = λ w. found_has p r g u w h }

-- The contacts of a roster, each with its group's address and name.
members_of : Group → List User → List (ℕ × Option Str × User)
members_of g [] = []
members_of g (u ∷ us) = (g.addr, g.name, u) ∷ members_of g us

members : List Group → List (ℕ × Option Str × User)
unfolding members_of
members [] = []
members (g ∷ r) = members_of g g.users ++ members r

abbrev on_members : Weight → ℕ × Option Str × User → ℕ
on_members w m = w m.0 m.1 m.2

sum_of-members_of :
    (w : Weight) (g : Group) (us : List User)
    → sum_of (on_members w) (members_of g us) ≡ sum_of (w g.addr g.name) us
unfolding members_of
sum_of-members_of w g [] = refl
sum_of-members_of w g (u ∷ us) = omega (arith, sum_of-members_of w g us)

tally-members : (w : Weight) (r : List Group) → sum_of (on_members w) (members r) ≡ tally w r
unfolding members
tally-members w [] = refl
tally-members w (g ∷ r) = omega (
  arith,
  sum_of-append (on_members w) (members_of g g.users) (members r),
  sum_of-members_of w g g.users,
  tally-members w r,
)

abbrev pub only : (User → Bool) → Weight → Weight
only p w ga n u = if p u then w ga n u else 0

-- An address that is used once picks the contact that stands at it.
pub tally_once :
    (r : List Group) (ga : ℕ) (n : Option Str) (u : User) (w : Weight)
    → Holds r ga n u
    → tally (weight_at u.addr) r ≤ 1
    → tally (only (at_user u.addr) w) r ≡ w ga n u
unfolding at_user
tally_once r ga n u w held once = omega (
  arith,
  tally-members (only (at_user u.addr) w) r,
  picked_once (λ m. at_user u.addr m.2) (on_members w) (w ga n u) (members r)
      (omega (arith, once, tally-members (weight_at u.addr) r))
      (omega (arith, tally-members hits r, held.weighs hits, seen)),
)
  where
    hits : Weight
    hits ga' n' u' = bit (at_user u.addr u' && w ga' n' u' == w ga n u)

    seen : hits ga n u ≡ 1
    seen = ground (arith, ==_refl (w ga n u), ==_refl u.addr)
