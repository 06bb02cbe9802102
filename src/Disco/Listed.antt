-- ===== src/Disco/Listed.antt =====
-- src/core/xep/disco.c: what the search for a feature finds.
use irssi_xmpp.Prelude.{
  ◌≡◌, refl, ap, ◌∙◌, ◌+◌, ◌==◌, Bool, false, not, ◌||◌, Option, some, List, [], ◌∷◌, count, bit,
  arith,
}
use irssi_xmpp.Prelude.Str.{Str, str_eq, strcmp}
use irssi_xmpp.Glib.{Glib, IsSorted, IsOrder, sum_of-slist_insert_sorted}
use irssi_xmpp.Roster.Compare.Order.{strcmp_total, strcmp_trans}
use irssi_xmpp.Disco.{disco_add_feature, disco_have_feature}

-- Whether a text is in a list.
abbrev pub listed : Str → List Str → Bool
listed f [] = false
listed f (g ∷ l) = str_eq f g || listed f l

abbrev pub somes : List Str → List (Option Str)
somes [] = []
somes (f ∷ l) = some f ∷ somes l

-- Among features that are not NULL the search answers, and says whether the feature is there.
pub disco_have_feature_lem :
    (l : List Str) (f : Str) → disco_have_feature (somes l) f ≡ some (listed f l)
unfolding disco_have_feature
disco_have_feature_lem [] f = refl
disco_have_feature_lem (g ∷ l) f = ground (arith, disco_have_feature_lem l f)

abbrev pub added : Glib → List Str → List Str → List Str
added glib l [] = l
added glib l (f ∷ fs) = added glib (disco_add_feature glib l f) fs

listed-count : (f : Str) (l : List Str) → listed f l ≡ not (count (str_eq f) l == 0)
listed-count f [] = refl
listed-count f (g ∷ l) = ground (arith, listed-count f l)

none_empty :
    (f : Str) (fs : List Str)
    → listed [] (f ∷ fs) ≡ false
    → (str_eq [] f ≡ false) × (listed [] fs ≡ false)
none_empty f fs h = (ground arith, ground arith)

-- A feature that is not empty is inserted.
inserted :
    (glib : Glib) (l : List Str) (f : Str)
    → str_eq [] f ≡ false
    → disco_add_feature glib l f ≡ glib.slist_insert_sorted strcmp l f
unfolding disco_add_feature str_eq
inserted glib l [] h = ground arith
inserted glib l (c ∷ s) h = refl

count-disco_add_feature :
    (glib : Glib) (p : Str → Bool) (l : List Str) (f : Str)
    → str_eq [] f ≡ false
    → count p (disco_add_feature glib l f) ≡ count p (f ∷ l)
count-disco_add_feature glib p l f h =
    rw (inserted glib l f h) (sum_of-slist_insert_sorted glib (λ x. bit (p x)) strcmp l f)

count-added :
    (glib : Glib) (p : Str → Bool) (l fs : List Str)
    → listed [] fs ≡ false
    → count p (added glib l fs) ≡ count p l + count p fs
count-added glib p l [] h = omega arith
count-added glib p l (f ∷ fs) h =
    let hs = none_empty f fs h in
    omega (
      arith,
      count-added glib p (disco_add_feature glib l f) fs hs.1,
      count-disco_add_feature glib p l f hs.0,
    )

strcmp-IsOrder : IsOrder strcmp
strcmp-IsOrder = record { total = strcmp_total; trans = strcmp_trans }

disco_add_feature-IsSorted :
    (glib : Glib) (l : List Str) (f : Str)
    → IsSorted strcmp l
    → IsSorted strcmp (disco_add_feature glib l f)
unfolding disco_add_feature
disco_add_feature-IsSorted glib l [] s = s
disco_add_feature-IsSorted glib l (c ∷ f) s =
    glib.slist_insert_sorted-IsSorted strcmp l (c ∷ f) strcmp-IsOrder s

added-IsSorted :
    (glib : Glib) (l fs : List Str) → IsSorted strcmp l → IsSorted strcmp (added glib l fs)
added-IsSorted glib l [] s = s
added-IsSorted glib l (f ∷ fs) s =
    added-IsSorted glib (disco_add_feature glib l f) fs (disco_add_feature-IsSorted glib l f s)

-- When features, none of them empty, are added to the empty list in any order, the list is sorted
-- afterwards, and the search in it answers and finds exactly what was added.
pub added_features_found :
    (glib : Glib) (fs : List Str)
    → listed [] fs ≡ false
    → IsSorted strcmp (added glib [] fs)
      × ((f : Str) → disco_have_feature (somes (added glib [] fs)) f ≡ some (listed f fs))
added_features_found glib fs h = (
  added-IsSorted glib [] fs tt,
  λ f.
      let counts : count (str_eq f) (added glib [] fs) ≡ count (str_eq f) fs =
        omega (arith, count-added glib (str_eq f) [] fs h) in
      let same : listed f (added glib [] fs) ≡ listed f fs =
        rw (listed-count f (added glib [] fs), listed-count f fs, counts) refl in
      disco_have_feature_lem (added glib [] fs) f ∙ ap some same,
)
