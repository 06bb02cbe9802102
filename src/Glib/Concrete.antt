-- ===== src/Glib/Concrete.antt =====
-- Functions that meet the laws: insertion sort, and a comparison of lowered texts.
use mathlib.Core.List.Perm
use irssi_xmpp.Prelude.{
  take, ◌≡◌, ◌↔◌, inl, inr, List, [], ◌∷◌, map, Perm, Bool-cases, if◌then◌else◌, arith,
}
use irssi_xmpp.Prelude.Int.{ℤ, pos, leb_ℤ}
use irssi_xmpp.Prelude.Str.{Str, ascii_lower, strcmp, strcmp_eq, strcmp_refl}
use irssi_xmpp.Glib.Defs.{Glib, InOrder, Below, IsSorted, IsOrder, IsOrderOn, Each}

module _ {A : Type 0} where
  insert : (A → A → ℤ) → List A → A → List A
  insert cmp [] a = a ∷ []
  insert cmp (b ∷ l) a = if leb_ℤ (cmp a b) (pos 0) then a ∷ b ∷ l else b ∷ insert cmp l a

  sort : (A → A → ℤ) → List A → List A
  unfolding insert
  sort cmp [] = []
  sort cmp (a ∷ l) = insert cmp (sort cmp l) a

module _ {A : Type 0} (cmp : A → A → ℤ) where
  insert-perm : (l : List A) (a : A) → Perm (insert cmp l a) (a ∷ l)
  unfolding insert
  insert-perm [] a = Perm.refl (a ∷ [])
  insert-perm (b ∷ l) a = elim (Bool-cases (leb_ℤ (cmp a b) (pos 0))) [
    | inl e ↦ rw e (Perm.refl (a ∷ b ∷ l))
    | inr e ↦ rw e (Perm.trans (Perm.cons b (insert-perm l a)) (Perm.swap a b l))
  ]

  sort-perm : (l : List A) → Perm (sort cmp l) l
  unfolding sort
  sort-perm [] = Perm.refl []
  sort-perm (a ∷ l) = Perm.trans (insert-perm (sort cmp l) a) (Perm.cons a (sort-perm l))

  Below-insert :
      (b a : A) (l : List A) → InOrder cmp b a → Below cmp b l → Below cmp b (insert cmp l a)
  unfolding insert
  Below-insert b a [] h below = (h, tt)
  Below-insert b a (c ∷ l) h below = elim (Bool-cases (leb_ℤ (cmp a c) (pos 0))) [
    | inl e ↦ rw e (h, below)
    | inr e ↦ rw e (below.0, Below-insert b a l h below.1)
  ]

  module _ (P : A → Type 0) (o : IsOrderOn P cmp) where
    Below-trans :
        (a b : A) (l : List A)
        → P a
        → P b
        → Each P l
        → InOrder cmp a b
        → Below cmp b l
        → Below cmp a l
    Below-trans a b [] pa pb e h below = tt
    Below-trans a b (c ∷ l) pa pb e h below =
        (o.trans a b c pa pb e.0 h below.0, Below-trans a b l pa pb e.1 h below.1)

    insert-IsSorted :
        (l : List A) (a : A) → P a → Each P l → IsSorted cmp l → IsSorted cmp (insert cmp l a)
    unfolding insert
    insert-IsSorted [] a pa p s = (tt, tt)
    insert-IsSorted (b ∷ l) a pa p s = elim (Bool-cases (leb_ℤ (cmp a b) (pos 0))) [
      | inl e ↦
          let h : InOrder cmp a b = ground arith in
          rw e ((h, Below-trans a b l pa p.0 p.1 h s.0), s)
      | inr e ↦
          let h : InOrder cmp b a = ground (arith, o.total a b pa p.0) in
          rw e (Below-insert b a l h s.0, insert-IsSorted l a pa p.1 s.1)
    ]

    insert-Each : (l : List A) (a : A) → P a → Each P l → Each P (insert cmp l a)
    unfolding insert
    insert-Each [] a pa p = (pa, tt)
    insert-Each (b ∷ l) a pa p = elim (Bool-cases (leb_ℤ (cmp a b) (pos 0))) [
      | inl e ↦ rw e (pa, p)
      | inr e ↦ rw e (p.0, insert-Each l a pa p.1)
    ]

    sort-Each : (l : List A) → Each P l → Each P (sort cmp l)
    unfolding sort
    sort-Each [] p = tt
    sort-Each (a ∷ l) p = insert-Each (sort cmp l) a p.0 (sort-Each l p.1)

    sort-IsSorted : (l : List A) → Each P l → IsSorted cmp (sort cmp l)
    unfolding sort
    sort-IsSorted [] p = tt
    sort-IsSorted (a ∷ l) p =
        insert-IsSorted (sort cmp l) a p.0 (sort-Each l p.1) (sort-IsSorted l p.1)

  Each-Unit : (l : List A) → Each (λ a. Unit) l
  Each-Unit [] = tt
  Each-Unit (a ∷ l) = (tt, Each-Unit l)

  insert_anywhere-IsSorted :
      (l : List A) (a : A) → IsOrder cmp → IsSorted cmp l → IsSorted cmp (insert cmp l a)
  insert_anywhere-IsSorted l a o s =
      insert-IsSorted (λ a. Unit)
        (record { total = λ a b pa pb. o.total a b; trans = λ a b c pa pb pc. o.trans a b c }) l a
        tt (Each-Unit l) s

casecmp_iff :
    (a b : Str)
    → (strcmp (map ascii_lower a) (map ascii_lower b) ≡ pos 0)
      ↔ (map ascii_lower a ≡ map ascii_lower b)
casecmp_iff a b = (λ e. strcmp_eq _ _ (rw e), λ e. rw e (strcmp_refl (map ascii_lower b)))

-- A GLib that meets the laws and runs.
unfoldable pub concrete : Glib
unfolding take sort insert strcmp casecmp_iff sort-perm sort-IsSorted insert-perm insert-IsSorted
    insert_anywhere-IsSorted insert-Each sort-Each Each-Unit Below-trans Below-insert
concrete = record {
  ascii_strcasecmp = λ a b. strcmp (map ascii_lower a) (map ascii_lower b);
  ascii_strncasecmp = λ a b n. strcmp (map ascii_lower (take n a)) (map ascii_lower (take n b));
  strstrip = λ s. s;
  slist_sort = λ {A} cmp l. sort cmp l;
  slist_insert_sorted = λ {A} cmp l a. insert cmp l a;
  ascii_strcasecmp_iff = casecmp_iff;
  ascii_strncasecmp_iff = λ a b n. casecmp_iff (take n a) (take n b);
  slist_sort-perm = λ {A} cmp l. sort-perm cmp l;
  slist_sort-IsSorted = λ {A} P cmp l o p. sort-IsSorted cmp P o l p;
  slist_insert_sorted-perm = λ {A} cmp l a. insert-perm cmp l a;
  slist_insert_sorted-IsSorted = λ {A} cmp l a o s. insert_anywhere-IsSorted cmp l a o s;
}
