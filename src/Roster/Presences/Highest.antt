-- ===== src/Roster/Presences/Highest.antt =====
-- The list of resources after a presence: sorted, and where no priority is too large for the comparison
-- its first resource is the highest.
use irssi_xmpp.Prelude.{
  ◌-◌, ◌^◌, ◌≡◌, ◌∙◌, refl, Bool, not, ◌&&◌, Option, none, some, List, [], ◌∷◌, arith, Option-cases,
  Bool-cases, inl, inr, update_first, count, bit,
}
use irssi_xmpp.Prelude.Int.{pos, negsuc, ◌≤ℤ◌, leb_ℤ, Fits}
use irssi_xmpp.Prelude.Str.{Str, atoi}
use irssi_xmpp.Glib.{Glib, Below, IsSorted, Each, sum_of-slist_sort}
use irssi_xmpp.Roster.{Presence, Resource}
use irssi_xmpp.Roster.Compare.{func_sort_resource}
use irssi_xmpp.Roster.Compare.Order.{
  HasModestPriority, InOrder-priority, func_sort_resource-IsOrderOn,
}
use irssi_xmpp.Roster.Find.{rosters_find_resource, find_resource_func}
use irssi_xmpp.Roster.Update.{create_resource}
use irssi_xmpp.Roster.Presences.{hear, presented, priority_or}

-- No resource of the list has a higher priority than r.
abbrev pub IsHighest : Resource → List Resource → Type 0
IsHighest r [] = Unit
IsHighest r (x ∷ l) = (x.priority ≤ℤ r.priority) × IsHighest r l

abbrev pub FirstIsHighest : List Resource → Type 0
FirstIsHighest [] = Unit
FirstIsHighest (r ∷ l) = IsHighest r l

Below-IsHighest :
    (r : Resource) (l : List Resource)
    → HasModestPriority r
    → Each HasModestPriority l
    → Below func_sort_resource r l
    → IsHighest r l
Below-IsHighest r [] h k below = tt
Below-IsHighest r (x ∷ l) h k below =
    (InOrder-priority r x h k.0 below.0, Below-IsHighest r l h k.1 below.1)

IsSorted-FirstIsHighest :
    (l : List Resource)
    → Each HasModestPriority l
    → IsSorted func_sort_resource l
    → FirstIsHighest l
IsSorted-FirstIsHighest [] k h = tt
IsSorted-FirstIsHighest (r ∷ l) k h = Below-IsHighest r l k.0 k.1 h.0

abbrev is_immodest : Resource → Bool
is_immodest r = not (leb_ℤ (negsuc (2 ^ 30 - 1)) r.priority && leb_ℤ r.priority (pos (2 ^ 30 - 1)))

none_immodest : (l : List Resource) → Each HasModestPriority l → count is_immodest l ≡ 0
none_immodest [] h = refl
none_immodest (r ∷ l) h = ground (arith, none_immodest l h.1)

all_modest : (l : List Resource) → count is_immodest l ≡ 0 → Each HasModestPriority l
all_modest [] h = tt
all_modest (r ∷ l) h = ((ground arith, ground arith), all_modest l (ground arith))

slist_sort-HasModestPriority :
    (glib : Glib) (l : List Resource)
    → Each HasModestPriority l
    → Each HasModestPriority (glib.slist_sort func_sort_resource l)
slist_sort-HasModestPriority glib l h =
    all_modest (glib.slist_sort func_sort_resource l)
      (sum_of-slist_sort glib (λ r. bit (is_immodest r)) func_sort_resource l ∙ none_immodest l h)

-- A priority that a presence gives, if any, is modest.
abbrev pub GivesModestPriority : Option Str → Type 0
GivesModestPriority none = Unit
GivesModestPriority (some s) = Fits 30 (atoi s)

presented-HasModestPriority :
    (show : Presence) (status priority : Option Str) (r : Resource)
    → GivesModestPriority priority
    → HasModestPriority r
    → HasModestPriority (presented show status priority r)
unfolding presented priority_or
presented-HasModestPriority show status none r given h = h
presented-HasModestPriority show status (some s) r given h = given

update_first-Each :
    (p : Resource → Bool) (f : Resource → Resource) (l : List Resource)
    → ((r : Resource) → HasModestPriority r → HasModestPriority (f r))
    → Each HasModestPriority l
    → Each HasModestPriority (update_first p f l)
unfolding update_first
update_first-Each p f [] keep h = tt
update_first-Each p f (r ∷ l) keep h = elim (Bool-cases (p r)) [
  | inl e ↦ rw e (keep r h.0, h.1)
  | inr e ↦ rw e (h.0, update_first-Each p f l keep h.1)
]

create_resource-HasModestPriority : (res : Option Str) → HasModestPriority (create_resource res)
unfolding create_resource
create_resource-HasModestPriority none = ground arith
create_resource-HasModestPriority (some res) = ground arith

module _ (glib : Glib) where
  -- What `hear` returns went through the sort.
  hear_sorted :
      (res : Option Str) (show : Presence) (status priority : Option Str)
      (resources l : List Resource) (is_new : Bool)
      → GivesModestPriority priority
      → Each HasModestPriority resources
      → hear glib res show status priority resources ≡ some (is_new, l)
      → (m : List Resource) × Each HasModestPriority m × (l ≡ glib.slist_sort func_sort_resource m)
  unfolding hear
  hear_sorted res show status priority resources l is_new given modest h =
      let keep = λ (r : Resource). presented-HasModestPriority show status priority r given in
      elim (Option-cases (rosters_find_resource resources res)) [
        | inl e ↦ (
          presented show status priority (create_resource res) ∷ resources,
          (keep (create_resource res) (create_resource-HasModestPriority res), modest),
          ground arith,
        )
        | inr (r, e) ↦ (
          update_first (find_resource_func res) (presented show status priority) resources,
          update_first-Each (find_resource_func res) (presented show status priority) resources keep
              modest,
          ground arith,
        )
      ]

  -- Where all priorities, that of the presence too, lie between -2^30 and 2^30 - 1, and a presence
  -- changes the list of resources, the list comes out in the order of `func_sort_resource`, and its
  -- first resource has the highest priority.
  pub hear-FirstIsHighest :
      (res : Option Str) (show : Presence) (status priority : Option Str)
      (resources l : List Resource) (is_new : Bool)
      → GivesModestPriority priority
      → Each HasModestPriority resources
      → hear glib res show status priority resources ≡ some (is_new, l)
      → IsSorted func_sort_resource l × FirstIsHighest l
  hear-FirstIsHighest res show status priority resources l is_new given modest h =
      let (m, modest_m, e) =
        hear_sorted res show status priority resources l is_new given modest h in
      let sorted = glib.slist_sort func_sort_resource m in
      let ordered =
        glib.slist_sort-IsSorted HasModestPriority func_sort_resource m func_sort_resource-IsOrderOn
          modest_m in
      rw e (
        ordered,
        IsSorted-FirstIsHighest sorted (slist_sort-HasModestPriority glib m modest_m) ordered,
      )
