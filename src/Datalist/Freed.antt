-- ===== src/Datalist/Freed.antt =====
-- What becomes of the data that a list is given: it is freed once, or it is still in the list.
use irssi_xmpp.Prelude.{
  ℕ, ◌+◌, ◌≡◌, refl, ap, Bool, Option, none, List, [], ◌∷◌, sum_of, count, bit, arith, Option-cases,
  inl, inr, find_first, sum_of-append, sum_of-update_first, sum_of-remove_first,
}
use irssi_xmpp.Datalist.{
  Rec, Datalist, is_rec, datalist_add, datalist_remove, kept, dropped, datalist_cleanup,
  datalist_new, datalist_destroy,
}
use irssi_xmpp.Datalist.View.{Call, call}
use irssi_xmpp.Datalist.Refines.{calls}

module _ {D : Type 0} (p : D → Bool) where
  -- How many of the data in the list, and of the data freed so far, have a property.
  abbrev pub held : Datalist D → ℕ
  held dl = sum_of (λ r. bit (p r.content)) dl.list

  abbrev pub known : Datalist D → ℕ
  known dl = held dl + count p dl.freed

  -- How many of the data handed over by a call.
  abbrev pub handed : Call D → ℕ
  handed (Call.add s j d) = bit (p d)
  handed _ = 0

  abbrev pub all_handed : List (Call D) → ℕ
  all_handed cs = sum_of handed cs

  cleanup_splits :
      (s : Option ℕ) (l : List (Rec D))
      → sum_of (λ r. bit (p r.content)) (kept s l) + count p (dropped s l)
        ≡ sum_of (λ r. bit (p r.content)) l
  unfolding kept dropped
  cleanup_splits s [] = refl
  cleanup_splits s (r ∷ l) = ground (arith, cleanup_splits s l)

  known-call : (dl : Datalist D) (c : Call D) → known (call dl c) ≡ known dl + handed c
  unfolding call datalist_add datalist_remove datalist_cleanup
  known-call dl (Call.add s j d) = elim (Option-cases (find_first (is_rec s j) dl.list)) [
    | inl e ↦ rw (e, datalist_add) (omega arith)
    | inr (r, e) ↦
        rw (e, datalist_add)
          (omega (
            arith,
            sum_of-append (λ x. bit (p x)) dl.freed (r.content ∷ []),
            sum_of-update_first (λ x. bit (p x.content)) (is_rec s j)
                (λ x. record x { content = d }) dl.list r e,
          ))
  ]
  known-call dl (Call.remove s j) = elim (Option-cases (find_first (is_rec s j) dl.list)) [
    | inl e ↦ rw (e, datalist_remove) (omega arith)
    | inr (r, e) ↦
        rw (e, datalist_remove)
          (omega (
            arith,
            sum_of-append (λ x. bit (p x)) dl.freed (r.content ∷ []),
            sum_of-remove_first (λ x. bit (p x.content)) (is_rec s j) dl.list r e,
          ))
  ]
  known-call dl (Call.cleanup s) =
      omega (
        arith,
        sum_of-append (λ x. bit (p x)) dl.freed (dropped s dl.list),
        cleanup_splits s dl.list,
      )

  known-calls :
      (dl : Datalist D) (cs : List (Call D)) → known (calls dl cs) ≡ known dl + all_handed cs
  unfolding calls
  known-calls dl [] = omega arith
  known-calls dl (c ∷ cs) = omega (arith, known-call dl c, known-calls (call dl c) cs)

  all_dropped : (l : List (Rec D)) → kept none l ≡ []
  unfolding kept
  all_dropped [] = refl
  all_dropped (r ∷ l) = all_dropped l

  -- After any calls on a new list, and then `datalist_destroy`, nothing is in the list, and each
  -- datum that was handed over has been freed exactly as often as it was handed over.
  pub destroy_frees_all :
      (cs : List (Call D))
      → ((datalist_destroy (calls (datalist_new D) cs)).list ≡ [])
        × (count p (datalist_destroy (calls (datalist_new D) cs)).freed ≡ all_handed cs)
  unfolding datalist_destroy datalist_cleanup
  destroy_frees_all cs = (
    all_dropped (calls (datalist_new D) cs).list,
    omega (
      arith,
      sum_of-append (λ x. bit (p x)) (calls (datalist_new D) cs).freed
          (dropped none (calls (datalist_new D) cs).list),
      cleanup_splits none (calls (datalist_new D) cs).list,
      ap (λ (l : List (Rec D)). sum_of (λ r. bit (p r.content)) l)
          (all_dropped (calls (datalist_new D) cs).list),
      known-calls (datalist_new D) cs,
      empty,
    ),
  )
    where
      empty : known (datalist_new D) ≡ 0
      empty = unfold datalist_new in refl
