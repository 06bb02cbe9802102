-- ===== src/Roster/Presences/Heard.antt =====
-- What the list of resources is after a presence, whatever the code goes through for it.
use irssi_xmpp.Prelude.{
  ◌+◌, ◌≡◌, refl, sym, ap, ◌∙◌, Bool, Option, none, some, List, [], ◌∷◌, arith, Option-cases,
  Bool-cases, inl, inr, bit, count, sum_of-update_first, update_first,
}
use irssi_xmpp.Prelude.Int.{ℤ, pos}
use irssi_xmpp.Prelude.Str.{Str, atoi}
use irssi_xmpp.Glib.{Glib, sum_of-slist_sort}
use irssi_xmpp.Tools.{xmpp_presence_changed}
use irssi_xmpp.Tools.Changes.{xmpp_presence_changed_iff}
use irssi_xmpp.Roster.{Presence, rank, Resource}
use irssi_xmpp.Roster.Compare.{func_sort_resource}
use irssi_xmpp.Roster.Find.{rosters_find_resource, find_resource_func}
use irssi_xmpp.Roster.Update.{create_resource}
use irssi_xmpp.Roster.Presences.{hear, presented, priority_or}

-- The priority that the presence gives, or that one.
abbrev pub given_priority : Option Str → ℤ → ℤ
given_priority none p = p
given_priority (some s) p = atoi s

-- The resource as the presence tells it, with the name and the composing id that it had.
abbrev pub told : Presence → Option Str → Option Str → Resource → Resource
told show status priority r = record {
  name = r.name;
  priority = given_priority priority r.priority;
  show = show;
  status = status;
  composing_id = r.composing_id;
}

-- A resource that was not there; without a name in the JID its name is empty.
abbrev pub told_new : Option Str → Presence → Option Str → Option Str → Resource
told_new res show status priority = record {
  name = elim res [ none ↦ [] | some name ↦ name ];
  priority = given_priority priority (pos 0);
  show = show;
  status = status;
  composing_id = none;
}

-- The resources m are the resources l after a presence of the resource that was found: that one
-- exchanged for what the presence tells, or a new one more, and the others as they were.
abbrev pub Hears :
    Option Str
    → Presence
    → Option Str
    → Option Str
    → List Resource
    → Option Resource
    → List Resource
    → Type 0
Hears res show status priority l none m =
    (q : Resource → Bool) → count q m ≡ count q l + bit (q (told_new res show status priority))
Hears res show status priority l (some r) m =
    (q : Resource → Bool)
    → count q m + bit (q r) ≡ count q l + bit (q (told show status priority r))

-- The list that `hear` leaves.
abbrev pub left : List Resource → Option (Bool × List Resource) → List Resource
left l none = l
left l (some (is_new, m)) = m

presented-told :
    (show : Presence) (status priority : Option Str) (r : Resource)
    → presented show status priority r ≡ told show status priority r
unfolding presented priority_or
presented-told show status none r = refl
presented-told show status (some s) r = refl

presented-create_resource :
    (res : Option Str) (show : Presence) (status priority : Option Str)
    → presented show status priority (create_resource res) ≡ told_new res show status priority
unfolding presented priority_or create_resource
presented-create_resource none show status none = refl
presented-create_resource (some name) show status none = refl
presented-create_resource none show status (some s) = refl
presented-create_resource (some name) show status (some s) = refl

rank_injective : (a b : Presence) → rank a ≡ rank b → a ≡ b
rank_injective a b h = ground arith

given_priority_lem :
    (priority : Option Str) (p : ℤ) → priority_or priority p ≡ given_priority priority p
unfolding priority_or
given_priority_lem none p = refl
given_priority_lem (some s) p = refl

told_same :
    (show : Presence) (status priority : Option Str) (r : Resource)
    → show ≡ r.show
    → status ≡ r.status
    → given_priority priority r.priority ≡ r.priority
    → told show status priority r ≡ r
told_same show status priority r a b c = rw (a, b, c) refl

module _ (glib : Glib) (res : Option Str) (show : Presence) (status priority : Option Str)
    (l : List Resource) where
  Hears-new :
      rosters_find_resource l res ≡ none
      → Hears res show status priority l none (left l (hear glib res show status priority l))
  unfolding hear
  Hears-new e q =
      rw (e, hear)
        (omega (
          arith,
          sum_of-slist_sort glib (λ r. bit (q r)) func_sort_resource
              (presented show status priority (create_resource res) ∷ l),
          ap (λ r. bit (q r)) (presented-create_resource res show status priority),
        ))

  Hears-found :
      (r : Resource)
      → rosters_find_resource l res ≡ some r
      → Hears res show status priority l (some r) (left l (hear glib res show status priority l))
  unfolding hear rosters_find_resource
  Hears-found r e q =
      elim (Bool-cases (
        xmpp_presence_changed (rank show) (rank r.show) status r.status
          (priority_or priority r.priority) r.priority)) [
            | inl c ↦
                rw (e, c, hear)
                  (omega (
                    arith,
                    sum_of-slist_sort glib (λ r. bit (q r)) func_sort_resource
                        (update_first (find_resource_func res) (presented show status priority) l),
                    sum_of-update_first (λ r. bit (q r)) (find_resource_func res)
                        (presented show status priority) l r e,
                    ap (λ r. bit (q r)) (presented-told show status priority r),
                  ))
            | inr c ↦
                let same =
                  (xmpp_presence_changed_iff (rank show) (rank r.show) status r.status
                      (priority_or priority r.priority) r.priority).0
                    c in
                rw (e, c, hear)
                  (omega (
                    arith,
                    ap (λ r. bit (q r))
                        (told_same show status priority r (rank_injective show r.show same.0) same.1
                          (sym (given_priority_lem priority r.priority) ∙ same.2)),
                  ))
          ]

  pub hear-Hears :
      Hears res show status priority l
        (rosters_find_resource l res)
        (left l (hear glib res show status priority l))
  hear-Hears = elim (Option-cases (rosters_find_resource l res)) [
    | inl e ↦ rw e (Hears-new e)
    | inr (r, e) ↦ rw e (Hears-found r e)
  ]
