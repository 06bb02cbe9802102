-- ===== src/Glib/Sums.antt =====
-- Sorting keeps every sum over a list.
use irssi_xmpp.Prelude.{ℕ, ◌+◌, ◌≡◌, List, sum_of, sum_of-perm}
use irssi_xmpp.Prelude.Int.{ℤ}
use irssi_xmpp.Glib.Defs.{Glib}

module _ (glib : Glib) {A : Type 0} (f : A → ℕ) (cmp : A → A → ℤ) (l : List A) where
  pub sum_of-slist_sort : sum_of f (glib.slist_sort cmp l) ≡ sum_of f l
  sum_of-slist_sort = sum_of-perm f (glib.slist_sort-perm cmp l)

  pub sum_of-slist_insert_sorted :
      (a : A) → sum_of f (glib.slist_insert_sorted cmp l a) ≡ f a + sum_of f l
  sum_of-slist_insert_sorted a = sum_of-perm f (glib.slist_insert_sorted-perm cmp l a)
