-- ===== src/Completion/Jids.antt =====
-- src/fe-common/xmpp-completion.c: what get_jids offers, and in what order.
use mathlib.Core.List.{append_assoc, append-nil}
use irssi_xmpp.Prelude.{
  ℕ, ◌+◌, ◌≡◌, refl, sym, ap, ◌∙◌, Bool, true, false, not, ◌&&◌, List, [], ◌∷◌, ◌++◌, map, take,
  if◌then◌else◌, length, arith, count, bit, sum_of, sum_of-append,
}
use irssi_xmpp.Prelude.Int.{is_zero}
use irssi_xmpp.Prelude.Str.{Str, strncmp, strcmp_eq, ascii_lower}
use irssi_xmpp.Glib.{Glib}
use irssi_xmpp.Roster.{User, Group}
use irssi_xmpp.Completion.{
  starts, starts_exactly, is_online, Lists, append_jid, add_jids, add_group_jids, empty_lists,
  get_jids,
}

-- The JIDs of the contacts that pass a test, in the order of the roster.
abbrev jids_in : (User → Bool) → List User → List Str
jids_in p [] = []
jids_in p (u ∷ us) = (if p u then u.jid ∷ [] else []) ++ jids_in p us

abbrev pub jids_of : (User → Bool) → List Group → List Str
jids_of p [] = []
jids_of p (g ∷ r) = jids_in p g.users ++ jids_of p r

abbrev joined : Lists → Lists → Lists
joined a b = record {
  list = a.list ++ b.list;
  list_case = a.list_case ++ b.list_case;
  offlist = a.offlist ++ b.offlist;
  offlist_case = a.offlist_case ++ b.offlist_case;
}

joined_assoc : (a b c : Lists) → joined (joined a b) c ≡ joined a (joined b c)
joined_assoc a b c = λ i. record {
  list = append_assoc a.list b.list c.list i;
  list_case = append_assoc a.list_case b.list_case c.list_case i;
  offlist = append_assoc a.offlist b.offlist c.offlist i;
  offlist_case = append_assoc a.offlist_case b.offlist_case c.offlist_case i;
}

joined_nil : (a : Lists) → joined a empty_lists ≡ a
joined_nil a = λ i. record {
  list = append-nil a.list i;
  list_case = append-nil a.list_case i;
  offlist = append-nil a.offlist i;
  offlist_case = append-nil a.offlist_case i;
}

-- What the tests on one contact add to the lists.
abbrev one : Bool → Str → List Str
one b jid = if b then jid ∷ [] else []

abbrev ones : Bool → Bool → Bool → Str → Lists
ones exact same_case online jid = record {
  list = one (exact && online) jid;
  list_case = one (not exact && same_case && online) jid;
  offlist = one (exact && not online) jid;
  offlist_case = one (not exact && same_case && not online) jid;
}

append_jid_joined :
    (exact same_case online : Bool) (jid : Str) (l : Lists)
    → append_jid exact same_case online jid l ≡ joined l (ones exact same_case online jid)
unfolding append_jid
append_jid_joined true same_case true jid l =
    sym (ap (λ (m : Lists). record m { list = l.list ++ jid ∷ [] }) (joined_nil l))
append_jid_joined true same_case false jid l =
    sym (ap (λ (m : Lists). record m { offlist = l.offlist ++ jid ∷ [] }) (joined_nil l))
append_jid_joined false true true jid l =
    sym (ap (λ (m : Lists). record m { list_case = l.list_case ++ jid ∷ [] }) (joined_nil l))
append_jid_joined false true false jid l =
    sym (ap (λ (m : Lists). record m { offlist_case = l.offlist_case ++ jid ∷ [] }) (joined_nil l))
append_jid_joined false false online jid l = sym (joined_nil l)

-- A text that begins with another does so without case, too.
starts_exactly-starts :
    (glib : Glib) (s prefix : Str) → starts_exactly s prefix ≡ true → starts glib s prefix ≡ true
unfolding starts_exactly strncmp starts
starts_exactly-starts glib s prefix h = ap is_zero (
    (glib.ascii_strncasecmp_iff s prefix (length prefix)).1
      (ap (map ascii_lower) (strcmp_eq (take (length prefix) s) (take (length prefix) prefix) h)))

count-jids_in :
    (q : Str → Bool) (p : User → Bool) (us : List User)
    → count q (jids_in p us) ≡ count (λ u. p u && q u.jid) us
count-jids_in q p [] = refl
count-jids_in q p (u ∷ us) = ground (arith, count-jids_in q p us)

count-jids_of :
    (q : Str → Bool) (p : User → Bool) (r : List Group)
    → count q (jids_of p r) ≡ sum_of (λ g. count (λ u. p u && q u.jid) g.users) r
count-jids_of q p [] = refl
count-jids_of q p (g ∷ r) = omega (
  arith,
  sum_of-append (λ s. bit (q s)) (jids_in p g.users) (jids_of p r),
  count-jids_in q p g.users,
  count-jids_of q p r,
)

four_parts :
    (exact same_case online q : Bool)
    → (exact ≡ true → same_case ≡ true)
    → bit ((exact && online) && q)
        + bit ((not exact && same_case && online) && q)
        + bit ((exact && not online) && q)
        + bit ((not exact && same_case && not online) && q)
      ≡ bit (same_case && q)
four_parts exact same_case online q h = ground (arith, h)

module _ (glib : Glib) (jid : Str) where
  -- The tests of the four parts.
  abbrev pub exact_online : User → Bool
  exact_online u = starts_exactly u.jid jid && is_online u

  abbrev pub case_online : User → Bool
  case_online u = not (starts_exactly u.jid jid) && starts glib u.jid jid && is_online u

  abbrev pub exact_offline : User → Bool
  exact_offline u = starts_exactly u.jid jid && not (is_online u)

  abbrev pub case_offline : User → Bool
  case_offline u = not (starts_exactly u.jid jid) && starts glib u.jid jid && not (is_online u)

  abbrev lists_in : List User → Lists
  lists_in us = record {
    list = jids_in exact_online us;
    list_case = jids_in case_online us;
    offlist = jids_in exact_offline us;
    offlist_case = jids_in case_offline us;
  }

  abbrev lists_of : List Group → Lists
  lists_of r = record {
    list = jids_of exact_online r;
    list_case = jids_of case_online r;
    offlist = jids_of exact_offline r;
    offlist_case = jids_of case_offline r;
  }

  add_jids_joined : (l : Lists) (us : List User) → add_jids glib jid l us ≡ joined l (lists_in us)
  unfolding add_jids
  add_jids_joined l [] = sym (joined_nil l)
  add_jids_joined l (u ∷ us) =
      let exact = starts_exactly u.jid jid in
      let same_case = starts glib u.jid jid in
      add_jids_joined (append_jid exact same_case (is_online u) u.jid l) us
      ∙ ap (λ m. joined m (lists_in us)) (append_jid_joined exact same_case (is_online u) u.jid l)
      ∙ joined_assoc l (ones exact same_case (is_online u) u.jid) (lists_in us)

  add_group_jids_joined :
      (l : Lists) (r : List Group) → add_group_jids glib jid l r ≡ joined l (lists_of r)
  unfolding add_group_jids
  add_group_jids_joined l [] = sym (joined_nil l)
  add_group_jids_joined l (g ∷ r) =
      add_group_jids_joined (add_jids glib jid l g.users) r
      ∙ ap (λ m. joined m (lists_of r)) (add_jids_joined l g.users)
      ∙ joined_assoc l (lists_in g.users) (lists_of r)

  -- The list offered is that of the contacts online whose JID begins with the text, then of those
  -- online where it does so but for case, then both again for the contacts offline; each part is in
  -- the order of the roster.
  pub get_jids_parts :
      (roster : List Group)
      → get_jids glib roster jid
        ≡ ((jids_of exact_online roster ++ jids_of case_online roster)
            ++ jids_of exact_offline roster)
          ++ jids_of case_offline roster
  unfolding get_jids
  get_jids_parts roster =
      ap (λ (l : Lists). ((l.list ++ l.list_case) ++ l.offlist) ++ l.offlist_case)
        (add_group_jids_joined empty_lists roster)

  four_users :
      (q : Str → Bool) (us : List User)
      → count (λ u. exact_online u && q u.jid) us
          + count (λ u. case_online u && q u.jid) us
          + count (λ u. exact_offline u && q u.jid) us
          + count (λ u. case_offline u && q u.jid) us
        ≡ count (λ u. starts glib u.jid jid && q u.jid) us
  four_users q [] = refl
  four_users q (u ∷ us) = omega (
    arith,
    four_users q us,
    four_parts (starts_exactly u.jid jid) (starts glib u.jid jid) (is_online u) (q u.jid)
        (starts_exactly-starts glib u.jid jid),
  )

  abbrev counted : (Str → Bool) → (User → Bool) → List Group → ℕ
  counted q p r = sum_of (λ g. count (λ u. p u && q u.jid) g.users) r

  four_groups :
      (q : Str → Bool) (r : List Group)
      → counted q exact_online r
          + counted q case_online r
          + counted q exact_offline r
          + counted q case_offline r
        ≡ counted q (λ u. starts glib u.jid jid) r
  four_groups q [] = refl
  four_groups q (g ∷ r) = omega (arith, four_users q g.users, four_groups q r)

  -- Of the texts with any property, the list offered has as many as there are contacts whose JID has
  -- the property and begins with the text typed, but for case: none is left out, added or repeated.
  pub count-get_jids :
      (roster : List Group) (q : Str → Bool)
      → count q (get_jids glib roster jid)
        ≡ sum_of (λ g. count (λ u. starts glib u.jid jid && q u.jid) g.users) roster
  count-get_jids roster q =
      let a = jids_of exact_online roster in
      let b = jids_of case_online roster in
      let c = jids_of exact_offline roster in
      let d = jids_of case_offline roster in
      let f : Str → ℕ = λ s. bit (q s) in
      ap (count q) (get_jids_parts roster)
      ∙ omega (
        arith,
        sum_of-append f ((a ++ b) ++ c) d,
        sum_of-append f (a ++ b) c,
        sum_of-append f a b,
        count-jids_of q exact_online roster,
        count-jids_of q case_online roster,
        count-jids_of q exact_offline roster,
        count-jids_of q case_offline roster,
        four_groups q roster,
      )
