-- ===== src/Glib/Defs.antt =====
-- The interface, and sorted lists.
use irssi_xmpp.Prelude.{ℕ, take, ◌≡◌, ◌↔◌, ◌⊎◌, List, [], ◌∷◌, map, Perm}
use irssi_xmpp.Prelude.Int.{ℤ, pos, ◌≤ℤ◌}
use irssi_xmpp.Prelude.Str.{Str, ascii_lower}

-- The arguments may stand in this order.
abbrev pub InOrder : {A : Type 0} → (A → A → ℤ) → A → A → Type 0
InOrder cmp a b = cmp a b ≤ℤ pos 0

abbrev pub Below : {A : Type 0} → (A → A → ℤ) → A → List A → Type 0
Below cmp a [] = Unit
Below cmp a (b ∷ l) = InOrder cmp a b × Below cmp a l

abbrev pub IsSorted : {A : Type 0} → (A → A → ℤ) → List A → Type 0
IsSorted cmp [] = Unit
IsSorted cmp (a ∷ l) = Below cmp a l × IsSorted cmp l

-- A comparison function that a sort may be given.
pub record IsOrder {A : Type 0} (cmp : A → A → ℤ) : Type 0 where
  pub total : (a b : A) → InOrder cmp a b ⊎ InOrder cmp b a
  pub trans : (a b c : A) → InOrder cmp a b → InOrder cmp b c → InOrder cmp a c

abbrev pub Each : {A : Type 0} → (A → Type 0) → List A → Type 0
Each P [] = Unit
Each P (a ∷ l) = P a × Each P l

-- A comparison function that a sort of a list may be given whose elements all meet P.
pub record IsOrderOn {A : Type 0} (P : A → Type 0) (cmp : A → A → ℤ) : Type 0 where
  pub total : (a b : A) → P a → P b → InOrder cmp a b ⊎ InOrder cmp b a
  pub trans : (a b c : A) → P a → P b → P c → InOrder cmp a b → InOrder cmp b c → InOrder cmp a c

pub record Glib : Type 1 where
  pub ascii_strcasecmp : Str → Str → ℤ
  pub ascii_strncasecmp : Str → Str → ℕ → ℤ
  pub strstrip : Str → Str
  pub slist_sort : {A : Type 0} → (A → A → ℤ) → List A → List A
  pub slist_insert_sorted : {A : Type 0} → (A → A → ℤ) → List A → A → List A
  pub ascii_strcasecmp_iff :
      (a b : Str) → (ascii_strcasecmp a b ≡ pos 0) ↔ (map ascii_lower a ≡ map ascii_lower b)
  pub ascii_strncasecmp_iff :
      (a b : Str) (n : ℕ)
      → (ascii_strncasecmp a b n ≡ pos 0)
        ↔ (map ascii_lower (take n a) ≡ map ascii_lower (take n b))
  pub slist_sort-perm : {A : Type 0} (cmp : A → A → ℤ) (l : List A) → Perm (slist_sort cmp l) l
  pub slist_sort-IsSorted :
      {A : Type 0} (P : A → Type 0) (cmp : A → A → ℤ) (l : List A)
      → IsOrderOn P cmp
      → Each P l
      → IsSorted cmp (slist_sort cmp l)
  pub slist_insert_sorted-perm :
      {A : Type 0} (cmp : A → A → ℤ) (l : List A) (a : A)
      → Perm (slist_insert_sorted cmp l a) (a ∷ l)
  pub slist_insert_sorted-IsSorted :
      {A : Type 0} (cmp : A → A → ℤ) (l : List A) (a : A)
      → IsOrder cmp
      → IsSorted cmp l
      → IsSorted cmp (slist_insert_sorted cmp l a)
