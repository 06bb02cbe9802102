-- ===== src/Roster/Update/Groups.antt =====
-- `find_or_add_group`: the group it returns has the name asked for, and no contact is touched.
use irssi_xmpp.Prelude.{
  ℕ, ◌+◌, ◌≤◌, ◌≡◌, refl, ap, Bool, true, Option, none, some, List, [], ◌∷◌, find_first,
  find_first_sound, sum_of, bit, arith, Option-cases, inl, inr,
}
use irssi_xmpp.Prelude.Int.{is_zero}
use irssi_xmpp.Prelude.Str.{Str, strcmp_eq}
use irssi_xmpp.Glib.{Glib, sum_of-slist_insert_sorted}
use irssi_xmpp.Roster.{Group, Server}
use irssi_xmpp.Roster.Compare.{func_find_group, func_sort_group}
use irssi_xmpp.Roster.Store.{at_group}
use irssi_xmpp.Roster.Store.Count.{Weight, tally, weight_at, HasGroup}
use irssi_xmpp.Roster.Update.{is_group, create_group, find_or_add_group}
use irssi_xmpp.Roster.Update.Valid.{group_sum, IsWellFormed}

-- The server with a group of that name, and every contact where it was.
pub record Grouped (s s' : Server) (h : Group) (name : Option Str) : Type 0 where
  pub named : h.name ≡ name
  pub has : HasGroup s'.roster h.addr name
  pub same : (w : Weight) → tally w s'.roster ≡ tally w s.roster
  pub keeps : (w : ℕ → Option Str → ℕ) → group_sum w s.roster ≤ group_sum w s'.roster
  pub later : s.next ≤ s'.next
  pub valid : IsWellFormed s'

is_group_name : (name : Option Str) (g : Group) → is_group name g ≡ true → g.name ≡ name
unfolding func_find_group
is_group_name none g h = ground arith
is_group_name (some n) g h = name_of g.name h
  where
    name_of : (m : Option Str) → is_zero (func_find_group m (some n)) ≡ true → m ≡ some n
    name_of none e = ground arith
    name_of (some m) e = ap some (strcmp_eq m n e)

first_has :
    (p : Group → Bool) (r : List Group) (g : Group) (w : ℕ → Option Str → ℕ)
    → find_first p r ≡ some g
    → w g.addr g.name ≤ group_sum w r
unfolding find_first
first_has p [] g w h = ground arith
first_has p (x ∷ r) g w h = ground (arith, first_has p r g w)

module _ (glib : Glib) (s : Server) (name : Option Str) (v : IsWellFormed s) where
  existing :
      (g : Group)
      → find_first (is_group name) s.roster ≡ some g
      → Grouped s (find_or_add_group glib s name).0 (find_or_add_group glib s name).1 name
  unfolding find_or_add_group
  existing g h =
      rw (h, find_or_add_group)
        (record {
          named = named;
          has = record { weighs = λ w. rw (← named) (first_has (is_group name) s.roster g w h) };
          same = λ w. refl;
          keeps = λ w. omega arith;
          later = omega arith;
          valid = v;
        })
    where
      named : g.name ≡ name
      named = is_group_name name g (find_first_sound (is_group name) s.roster g h)

  created :
      find_first (is_group name) s.roster ≡ none
      → Grouped s (find_or_add_group glib s name).0 (find_or_add_group glib s name).1 name
  unfolding find_or_add_group create_group at_group
  created h =
      rw (h, find_or_add_group)
        (record {
          named = refl;
          has = record { weighs = λ w. omega (arith, inserted (λ g. w g.addr g.name)) };
          same = λ w. omega (arith, inserted (λ g. sum_of (w g.addr g.name) g.users));
          keeps = λ w. omega (arith, inserted (λ g. w g.addr g.name));
          later = omega arith;
          valid = record {
            users_once = λ a.
                omega (
                  arith,
                  inserted (λ g. sum_of (weight_at a g.addr g.name) g.users),
                  v.users_once a,
                );
            groups_once = λ a.
                ground
                  (arith, inserted (λ g. bit (at_group a g)), v.groups_once a, v.groups_fresh a);
            users_fresh = λ a l. omega (
              arith,
              inserted (λ g. sum_of (weight_at a g.addr g.name) g.users),
              v.users_fresh a,
            );
            groups_fresh =
                λ a l. ground (arith, inserted (λ g. bit (at_group a g)), v.groups_fresh a);
          };
        })
    where
      inserted :
          (f : Group → ℕ)
          → sum_of f (glib.slist_insert_sorted func_sort_group s.roster (create_group s.next name))
            ≡ f (create_group s.next name) + sum_of f s.roster
      inserted f =
          sum_of-slist_insert_sorted glib f func_sort_group s.roster (create_group s.next name)

  pub find_or_add_group-Grouped :
      Grouped s (find_or_add_group glib s name).0 (find_or_add_group glib s name).1 name
  find_or_add_group-Grouped = elim (Option-cases (find_first (is_group name) s.roster)) [
    | inl h ↦ created h
    | inr (g, h) ↦ existing g h
  ]
