-- ===== src/Roster/Compare/Order.antt =====
-- Which of the comparison functions are orders, and what they order by.
use irssi_xmpp.Prelude.{◌+◌, ◌-◌, ◌^◌, ap, ◌≡◌, ◌≢◌, ◌⊎◌, true, Option, none, some, [], ◌∷◌, arith}
use irssi_xmpp.Prelude.Int.{
  ℤ, pos, negsuc, ◌≤ℤ◌, ◌-ℤ◌, pos_part, neg_part, Fits, int_of, int_of_same, int_of_neg,
}
use irssi_xmpp.Prelude.Str.{Str, strcmp}
use irssi_xmpp.Glib.{IsOrder, IsOrderOn, InOrder}
use irssi_xmpp.Roster.{rank, Resource, User}
use irssi_xmpp.Roster.Compare.{
  func_sort_group, func_sort_resource, func_sort_user_by_name, func_sort_user, by_keys, sort_names,
}

pub strcmp_total : (a b : Str) → (strcmp a b ≤ℤ pos 0) ⊎ (strcmp b a ≤ℤ pos 0)
unfolding strcmp
strcmp_total [] [] = ground arith
strcmp_total [] (y ∷ b) = ground arith
strcmp_total (x ∷ a) [] = ground arith
strcmp_total (x ∷ a) (y ∷ b) = ground (arith, strcmp_total a b)

pub strcmp_trans : (a b c : Str) → strcmp a b ≤ℤ pos 0 → strcmp b c ≤ℤ pos 0 → strcmp a c ≤ℤ pos 0
unfolding strcmp
strcmp_trans [] b [] h k = ground arith
strcmp_trans [] b (z ∷ c) h k = ground arith
strcmp_trans (x ∷ a) [] c h k = ground arith
strcmp_trans (x ∷ a) (y ∷ b) [] h k = ground arith
strcmp_trans (x ∷ a) (y ∷ b) (z ∷ c) h k = ground (arith, strcmp_trans a b c)

sort_names_total : (a b : Option Str) → (sort_names a b ≤ℤ pos 0) ⊎ (sort_names b a ≤ℤ pos 0)
unfolding sort_names
sort_names_total none b = ground arith
sort_names_total (some a) none = ground arith
sort_names_total (some a) (some b) = strcmp_total a b

sort_names_trans :
    (a b c : Option Str)
    → sort_names a b ≤ℤ pos 0
    → sort_names b c ≤ℤ pos 0
    → sort_names a c ≤ℤ pos 0
unfolding sort_names
sort_names_trans none b c h k = ground arith
sort_names_trans (some a) none c h k = ground arith
sort_names_trans (some a) (some b) none h k = ground arith
sort_names_trans (some a) (some b) (some c) h k = strcmp_trans a b c h k

diff_anti :
    (a b : ℤ) → pos_part (b -ℤ a) + pos_part (a -ℤ b) ≡ neg_part (b -ℤ a) + neg_part (a -ℤ b)
diff_anti a b = ground arith

diff_chain :
    (a b c : ℤ)
    → pos_part (c -ℤ a) + neg_part (b -ℤ a) + neg_part (c -ℤ b)
      ≡ neg_part (c -ℤ a) + pos_part (b -ℤ a) + pos_part (c -ℤ b)
diff_chain a b c = ground arith

by_keys_total :
    (p q d e m n : ℤ)
    → pos_part p + pos_part q ≡ neg_part p + neg_part q
    → pos_part d + pos_part e ≡ neg_part d + neg_part e
    → (m ≤ℤ pos 0) ⊎ (n ≤ℤ pos 0)
    → (by_keys p d m ≤ℤ pos 0) ⊎ (by_keys q e n ≤ℤ pos 0)
unfolding by_keys
by_keys_total p q d e m n hp hd hm = ground arith

-- The differences add up along a chain.
by_keys_trans :
    (p q r d e f m n o : ℤ)
    → pos_part r + neg_part p + neg_part q ≡ neg_part r + pos_part p + pos_part q
    → pos_part f + neg_part d + neg_part e ≡ neg_part f + pos_part d + pos_part e
    → (m ≤ℤ pos 0 → n ≤ℤ pos 0 → o ≤ℤ pos 0)
    → by_keys p d m ≤ℤ pos 0
    → by_keys q e n ≤ℤ pos 0
    → by_keys r f o ≤ℤ pos 0
unfolding by_keys
by_keys_trans p q r d e f m n o hp hd hm h k = ground arith

abbrev by_show : Resource → Resource → ℤ
by_show a b = pos (rank b.show) -ℤ pos (rank a.show)

-- A priority of which any two differ by what an `int` holds.
abbrev pub HasModestPriority : Resource → Type 0
HasModestPriority r = Fits 30 r.priority

no_wrap :
    (r s : Resource)
    → HasModestPriority r
    → HasModestPriority s
    → func_sort_resource r s
      ≡ by_keys (s.priority -ℤ r.priority) (by_show r s) (strcmp r.name s.name)
unfolding func_sort_resource
no_wrap r s h k =
    ap (λ d. by_keys d (by_show r s) (strcmp r.name s.name))
      (int_of_same (s.priority -ℤ r.priority) (ground arith, ground arith))

pub InOrder-priority :
    (r s : Resource)
    → HasModestPriority r
    → HasModestPriority s
    → InOrder func_sort_resource r s
    → s.priority ≤ℤ r.priority
unfolding by_keys
InOrder-priority r s h k ordered = ground (arith, no_wrap r s h k)

-- Resources of modest priorities go by falling priority, then by falling show, then by name: an
-- order.
pub func_sort_resource-IsOrderOn : IsOrderOn HasModestPriority func_sort_resource
func_sort_resource-IsOrderOn = record {
  total = λ a b h k.
      rw (no_wrap a b h k, no_wrap b a k h)
        (by_keys_total (b.priority -ℤ a.priority) (a.priority -ℤ b.priority) (by_show a b)
          (by_show b a) (strcmp a.name b.name) (strcmp b.name a.name)
          (diff_anti a.priority b.priority) (diff_anti (pos (rank a.show)) (pos (rank b.show)))
          (strcmp_total a.name b.name));
  trans = λ a b c h k m.
      rw (no_wrap a b h k, no_wrap b c k m, no_wrap a c h m)
        (by_keys_trans (b.priority -ℤ a.priority) (c.priority -ℤ b.priority)
          (c.priority -ℤ a.priority) (by_show a b) (by_show b c) (by_show a c)
          (strcmp a.name b.name) (strcmp b.name c.name) (strcmp a.name c.name)
          (diff_chain a.priority b.priority c.priority)
          (diff_chain (pos (rank a.show)) (pos (rank b.show)) (pos (rank c.show)))
          (strcmp_trans a.name b.name c.name));
}

by_keys_neg : (d e n : ℤ) → d ≤ℤ negsuc 0 → by_keys d e n ≤ℤ negsuc 0
unfolding by_keys
by_keys_neg (pos d) e n h = ground arith
by_keys_neg (negsuc d) e n h = ground arith

-- Where the difference fits, the higher priority stands first.
higher_first :
    (r s : Resource)
    → s.priority -ℤ r.priority ≤ℤ negsuc 0
    → negsuc (2 ^ 31 - 1) ≤ℤ s.priority -ℤ r.priority
    → func_sort_resource r s ≤ℤ negsuc 0
unfolding func_sort_resource
higher_first r s h k =
    by_keys_neg (int_of (s.priority -ℤ r.priority)) (by_show r s) (strcmp r.name s.name)
      (rw (int_of_same (s.priority -ℤ r.priority) (k, ground arith)) h)

-- Where it does not fit, the lower one does.
lower_first :
    (r s : Resource)
    → Fits 31 r.priority
    → Fits 31 s.priority
    → pos (2 ^ 31) ≤ℤ s.priority -ℤ r.priority
    → func_sort_resource r s ≤ℤ negsuc 0
unfolding func_sort_resource
lower_first r s h k d =
    by_keys_neg (int_of (s.priority -ℤ r.priority)) (by_show r s) (strcmp r.name s.name)
      (int_of_neg (s.priority -ℤ r.priority) d (ground arith))

-- Three resources with `int` priorities, each higher than the next by less than 2^31, and the first
-- higher than the last by 2^31 or more, go in a circle: each compares as standing before the next,
-- and the last before the first. So the function is no order.
pub func_sort_resource_circle :
    (r s t : Resource)
    → Fits 31 r.priority
    → Fits 31 t.priority
    → Fits 31 (r.priority -ℤ s.priority)
    → pos 1 ≤ℤ r.priority -ℤ s.priority
    → Fits 31 (s.priority -ℤ t.priority)
    → pos 1 ≤ℤ s.priority -ℤ t.priority
    → pos (2 ^ 31) ≤ℤ r.priority -ℤ t.priority
    → (func_sort_resource r s ≤ℤ negsuc 0)
      × (func_sort_resource s t ≤ℤ negsuc 0)
      × (func_sort_resource t r ≤ℤ negsuc 0)
func_sort_resource_circle r s t hr ht hrs rs hst st rt = (
  higher_first r s (ground arith) (ground arith),
  higher_first s t (ground arith) (ground arith),
  lower_first t r ht hr rt,
)

-- Groups go by name, those with none first: an order.
pub func_sort_group-IsOrder : IsOrder func_sort_group
unfolding func_sort_group
func_sort_group-IsOrder = record {
  total = λ a b. sort_names_total a.name b.name;
  trans = λ a b c. sort_names_trans a.name b.name c.name;
}

-- The text that the interface shows for a contact.
abbrev pub shown : User → Str
shown u = elim u.name [ none ↦ u.jid | some n ↦ n ]

-- Contacts compare by the text that the interface shows for them: the name, or the JID where
-- there is none.
pub func_sort_user_by_name-shown :
    (u v : User) → func_sort_user_by_name u v ≡ strcmp (shown u) (shown v)
unfolding func_sort_user_by_name
func_sort_user_by_name-shown u v = ground arith

-- Two contacts that each have an error or no resource compare as 1 in both directions, unless
-- neither has a resource and their error flags agree: then the function is no order.
pub func_sort_user_both_ways :
    (u v : User)
    → (u.error ≡ true) ⊎ (u.resources ≡ [])
    → (v.error ≡ true) ⊎ (v.resources ≡ [])
    → ((u.resources ≢ []) ⊎ (v.resources ≢ [])) ⊎ (u.error ≢ v.error)
    → (func_sort_user u v ≡ pos 1) × (func_sort_user v u ≡ pos 1)
unfolding func_sort_user
func_sort_user_both_ways u v hu hv d = ground arith
