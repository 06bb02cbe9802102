-- ===== src/Datalist/View.antt =====
-- A data list is a partial map from pairs of a server and a JID: what a search finds after any
-- sequence of operations.
use irssi_xmpp.Prelude.{
  ℕ, ◌≤◌, ◌≡◌, refl, ap, ◌==◌, Bool, true, false, ◌&&◌, Option, none, some, List, [], ◌∷◌,
  if◌then◌else◌, find_first, remove_first, update_first, count, arith, Option-cases, Bool-cases,
  inl, inr, find_first-absent,
}
use irssi_xmpp.Prelude.Str.{Str, str_eq, str_eq_iff}
use irssi_xmpp.Datalist.{
  Rec, Datalist, is_rec, datalist_find, datalist_add, datalist_remove, kept, matches_server,
  datalist_cleanup,
}

-- The calls that change a list.
pub data Call (D : Type 0) : Type 0 where
  add : ℕ → Str → D → Call D
  remove : ℕ → Str → Call D
  cleanup : Option ℕ → Call D

-- A partial map from pairs of a server and a JID.
abbrev pub Map : Type 0 → Type 0
Map D = ℕ → Str → Option D

abbrev same_key : ℕ → Str → ℕ → Str → Bool
same_key s j server jid = s == server && str_eq j jid

module _ {D : Type 0} where
  unfoldable pub content_of : Option (Rec D) → Option D
  content_of none = none
  content_of (some r) = some r.content

  -- What a search finds.
  unfoldable pub view : Datalist D → Map D
  unfolding content_of datalist_find
  view dl server jid = content_of (datalist_find dl server jid)

  unfoldable pub call : Datalist D → Call D → Datalist D
  call dl (add server jid d) = datalist_add dl server jid d
  call dl (remove server jid) = datalist_remove dl server jid
  call dl (cleanup server) = datalist_cleanup dl server

  -- The same calls on a partial map.
  abbrev pub called : Map D → Call D → Map D
  called m (add s j d) server jid = if same_key s j server jid then some d else m server jid
  called m (remove s j) server jid = if same_key s j server jid then none else m server jid
  called m (cleanup s) server jid = if matches_server s server then none else m server jid

  -- No pair has two records.
  abbrev pub HasUniqueKeys : Datalist D → Type 0
  HasUniqueKeys dl = (server : ℕ) (jid : Str) → count (is_rec server jid) dl.list ≤ 1

  find_updated :
      (s : ℕ) (j : Str) (d : D) (server : ℕ) (jid : Str) (l : List (Rec D)) (r : Rec D)
      → find_first (is_rec s j) l ≡ some r
      → content_of (
          find_first
            (is_rec server jid)
            (update_first (is_rec s j) (λ x. record x { content = d }) l))
        ≡ (if same_key s j server jid
            then some d
            else content_of (find_first (is_rec server jid) l))
  unfolding find_first update_first content_of is_rec
  find_updated s j d server jid [] r h = ground arith
  find_updated s j d server jid (x ∷ l) r h = ground (
    arith,
    find_updated s j d server jid l r,
    str_eq_iff x.jid j,
    str_eq_iff x.jid jid,
    str_eq_iff j jid,
  )

  removed_same :
      (p : Rec D → Bool) (l : List (Rec D)) → count p l ≤ 1 → find_first p (remove_first p l) ≡ none
  unfolding find_first remove_first
  removed_same p [] h = refl
  removed_same p (x ∷ l) h = ground (arith, removed_same p l, find_first-absent p l)

  removed_other :
      (s : ℕ) (j : Str) (server : ℕ) (jid : Str) (l : List (Rec D))
      → same_key s j server jid ≡ false
      → find_first (is_rec server jid) (remove_first (is_rec s j) l)
        ≡ find_first (is_rec server jid) l
  unfolding find_first remove_first is_rec
  removed_other s j server jid [] h = refl
  removed_other s j server jid (x ∷ l) h = ground (
    arith,
    removed_other s j server jid l,
    str_eq_iff x.jid j,
    str_eq_iff x.jid jid,
    str_eq_iff j jid,
  )

  find_removed :
      (s : ℕ) (j : Str) (server : ℕ) (jid : Str) (l : List (Rec D))
      → count (is_rec server jid) l ≤ 1
      → content_of (find_first (is_rec server jid) (remove_first (is_rec s j) l))
        ≡ (if same_key s j server jid then none else content_of (find_first (is_rec server jid) l))
  find_removed s j server jid l h = elim (Bool-cases (same_key s j server jid)) [
    | inr e ↦ rw e (ap content_of (removed_other s j server jid l e))
    | inl e ↦
        let same_server : s ≡ server = ground arith in
        let same_jid : j ≡ jid = (str_eq_iff j jid).0 (ground arith) in
        rw e (
          rw (same_server, same_jid)
            (unfold content_of in ap content_of (removed_same (is_rec server jid) l h)))
  ]

  find_kept :
      (s : Option ℕ) (server : ℕ) (jid : Str) (l : List (Rec D))
      → content_of (find_first (is_rec server jid) (kept s l))
        ≡ (if matches_server s server then none else content_of (find_first (is_rec server jid) l))
  unfolding find_first content_of is_rec kept
  find_kept none server jid [] = refl
  find_kept (some t) server jid [] = ground arith
  find_kept none server jid (x ∷ l) = ground (arith, find_kept none server jid l)
  find_kept (some t) server jid (x ∷ l) = ground (arith, find_kept (some t) server jid l)

  find_absent :
      (s : ℕ) (j : Str) (server : ℕ) (jid : Str) (l : List (Rec D))
      → find_first (is_rec s j) l ≡ none
      → content_of (find_first (is_rec server jid) l)
        ≡ (if same_key s j server jid then none else content_of (find_first (is_rec server jid) l))
  unfolding find_first content_of is_rec
  find_absent s j server jid [] h = ground arith
  find_absent s j server jid (x ∷ l) h = ground (
    arith,
    find_absent s j server jid l,
    str_eq_iff x.jid j,
    str_eq_iff x.jid jid,
    str_eq_iff j jid,
  )

  -- What a search finds after a call, of the pair asked for and of every other.
  pub view-call :
      (dl : Datalist D) (c : Call D) (server : ℕ) (jid : Str)
      → HasUniqueKeys dl
      → view (call dl c) server jid ≡ called (view dl) c server jid
  unfolding view call datalist_add datalist_remove datalist_cleanup content_of is_rec
  view-call dl (add s j d) server jid u = elim (Option-cases (find_first (is_rec s j) dl.list)) [
    | inl e ↦ rw (e, datalist_add) (unfold find_first in ground arith)
    | inr (r, e) ↦ rw (e, datalist_add) (find_updated s j d server jid dl.list r e)
  ]
  view-call dl (remove s j) server jid u = elim (Option-cases (find_first (is_rec s j) dl.list)) [
    | inl e ↦ rw (e, datalist_remove) (find_absent s j server jid dl.list e)
    | inr (r, e) ↦ rw (e, datalist_remove) (find_removed s j server jid dl.list (u server jid))
  ]
  view-call dl (cleanup s) server jid u = find_kept s server jid dl.list

  count_updated :
      (server : ℕ) (jid : Str) (p : Rec D → Bool) (d : D) (l : List (Rec D))
      → count (is_rec server jid) (update_first p (λ x. record x { content = d }) l)
        ≡ count (is_rec server jid) l
  unfolding update_first is_rec
  count_updated server jid p d [] = refl
  count_updated server jid p d (x ∷ l) = ground (arith, count_updated server jid p d l)

  count_removed : (q p : Rec D → Bool) (l : List (Rec D)) → count q (remove_first p l) ≤ count q l
  unfolding remove_first
  count_removed q p [] = omega arith
  count_removed q p (x ∷ l) = ground (arith, count_removed q p l)

  count-kept : (q : Rec D → Bool) (s : Option ℕ) (l : List (Rec D)) → count q (kept s l) ≤ count q l
  unfolding kept
  count-kept q s [] = omega arith
  count-kept q s (x ∷ l) = ground (arith, count-kept q s l)

  absent_count :
      (s : ℕ) (j : Str) (server : ℕ) (jid : Str) (l : List (Rec D))
      → find_first (is_rec s j) l ≡ none
      → same_key s j server jid ≡ true
      → count (is_rec server jid) l ≡ 0
  unfolding find_first is_rec
  absent_count s j server jid [] h k = refl
  absent_count s j server jid (x ∷ l) h k = ground (
    arith,
    absent_count s j server jid l,
    str_eq_iff x.jid j,
    str_eq_iff x.jid jid,
    str_eq_iff j jid,
  )

  pub call-HasUniqueKeys :
      (dl : Datalist D) (c : Call D) → HasUniqueKeys dl → HasUniqueKeys (call dl c)
  unfolding call datalist_add datalist_remove datalist_cleanup
  call-HasUniqueKeys dl (add s j d) u server jid =
      elim (Option-cases (find_first (is_rec s j) dl.list)) [
        | inl e ↦
            rw (e, datalist_add)
              (unfold is_rec in ground (arith, u server jid, absent_count s j server jid dl.list e))
        | inr (r, e) ↦
            rw (e, datalist_add)
              (omega (arith, count_updated server jid (is_rec s j) d dl.list, u server jid))
      ]
  call-HasUniqueKeys dl (remove s j) u server jid =
      elim (Option-cases (find_first (is_rec s j) dl.list)) [
        | inl e ↦ rw (e, datalist_remove) (u server jid)
        | inr (r, e) ↦
            rw (e, datalist_remove)
              (omega (arith, count_removed (is_rec server jid) (is_rec s j) dl.list, u server jid))
      ]
  call-HasUniqueKeys dl (cleanup s) u server jid =
      omega (arith, count-kept (is_rec server jid) s dl.list, u server jid)
