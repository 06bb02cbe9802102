-- ===== src/Muc/Placed/Tables.antt =====
-- src/core/xep/muc-nicklist.c: the operations on the hash table of nicks keep it placed.
use mathlib.Core.Path.{subst}
use irssi_xmpp.Prelude.{
  leb, ℕ, suc, ◌+◌, ◌≤◌, ◌==◌, ◌≡◌, refl, sym, Bool, true, false, Option, none, some, List, [], ◌∷◌,
  ◌++◌, Bool-cases, inl, inr, find_first, remove_first, bit, arith, sum_of-append,
  find_first-absent, find_first-none, Option-cases, ==_refl,
}
use irssi_xmpp.Prelude.Str.{Str, str_eq_iff, str_eq_refl}
use irssi_xmpp.Muc.{Nick, Nicks, put, at_nick, Irssi, set_nick}
use irssi_xmpp.Muc.Nicks.Removal.{HasKey, without}
use irssi_xmpp.Muc.Nicks.Rename.{StandsOnce, moved}
use irssi_xmpp.Muc.Events.Outcome.{List-cases}
use irssi_xmpp.Muc.Placed.{
  held, IsPlaced, IsPlaced-within, IsPlaced-added, held-remove, held_swapped, held-map, held-put,
  HasKey-append, HasKey-remove, HasKey-map, IsKeyed-put,
}

-- What is placed but for the way the table is written is placed.
IsPlaced-cong :
    (irssi : Irssi) (t u : Nicks) (next : ℕ)
    → ((k : Str) → u k ≡ t k)
    → IsPlaced irssi t next
    → IsPlaced irssi u next
IsPlaced-cong irssi t u next h p = subst (λ v. IsPlaced irssi v next) (λ i k. sym (h k) i) p

-- The nick is in the chain of its name.
abbrev pub Stands : Irssi → Nicks → Nick → Type 0
Stands irssi t n = 1 ≤ held n.addr (t (irssi.nick_key n.nick))

module _ (irssi : Irssi) (t : Nicks) (next : ℕ) (p : IsPlaced irssi t next) where
  -- What nicklist_find returns stands in the table, under the key it was looked for.
  pub found-Stands :
      (name : Option Str) (n : Nick) → irssi.nicklist_find t name ≡ some n → Stands irssi t n
  unfolding at_nick
  found-Stands none n e = ground (arith, irssi.nicklist_find_null t)
  found-Stands (some name) n e = elim (List-cases (t (irssi.nick_key name))) [
    | inl f ↦ ground (arith, irssi.nicklist_find_empty t name f)
    | inr (x, l, f) ↦
        let same : x ≡ n = ground (arith, irssi.nicklist_find_first t name x l f) in
        let key : irssi.nick_key x.nick ≡ irssi.nick_key name =
          (subst (λ c. HasKey irssi (irssi.nick_key name) c) f (p.keyed (irssi.nick_key name))).0 in
        subst (λ m. Stands irssi t m) same (rw (key, f, ==_refl x.addr) (omega arith))
  ]

  put-within :
      (key : Str) (l : List Nick)
      → HasKey irssi key l
      → ((a : ℕ) → held a l ≤ held a (t key))
      → IsPlaced irssi (put key l t) next
  put-within key l h less =
      IsPlaced-within irssi t (put key l t) next p (IsKeyed-put irssi key l t h p.keyed)
        (λ k a. ground (arith, held-put key l t a k, less a, str_eq_iff k key))

  pub delete-IsPlaced : (n : Nick) → IsPlaced irssi (irssi.nicklist_remove t n) next
  delete-IsPlaced n =
      let key = irssi.nick_key n.nick in
      IsPlaced-cong irssi (without irssi n t) (irssi.nicklist_remove t n) next
        (irssi.nicklist_remove_lem t n)
        (put-within key (remove_first (at_nick n.addr) (t key))
          (HasKey-remove irssi key n.addr (t key) (p.keyed key))
          (λ a. held-remove a n.addr (t key)))

  pub own-IsPlaced :
      (n : Nick) → Stands irssi t n → IsPlaced irssi (irssi.nicklist_set_own t n) next
  unfolding at_nick
  own-IsPlaced n s =
      let key = irssi.nick_key n.nick in
      let l = n ∷ remove_first (at_nick n.addr) (t key) in
      IsPlaced-cong irssi (put key l t) (irssi.nicklist_set_own t n) next
        (irssi.nicklist_set_own_lem t n)
        (put-within key l (refl, HasKey-remove irssi key n.addr (t key) (p.keyed key))
          (λ a. omega (arith, held_swapped a n.addr (t key) s)))

  pub set_nick-IsPlaced :
      (b : ℕ) (f : Nick → Nick)
      → ((n : Nick) → (f n).addr ≡ n.addr)
      → ((n : Nick) → (f n).nick ≡ n.nick)
      → IsPlaced irssi (set_nick b f t) next
  unfolding set_nick
  set_nick-IsPlaced b f addr nick =
      IsPlaced-within irssi t (set_nick b f t) next p
        (λ k. HasKey-map irssi k b f (t k) nick (p.keyed k))
        (λ k a. omega (arith, held-map a b f (t k) addr))

  -- A chain with one more nick, whose address is not in the table.
  put-added :
      (next' : ℕ) (n : Nick) (l : List Nick)
      → ((k : Str) → held n.addr (t k) ≡ 0)
      → next ≤ next'
      → suc n.addr ≤ next'
      → HasKey irssi (irssi.nick_key n.nick) l
      → ((a : ℕ) → held a l ≤ held a (t (irssi.nick_key n.nick)) + bit (n.addr == a))
      → IsPlaced irssi (put (irssi.nick_key n.nick) l t) next'
  put-added next' n l new grows below h more =
      let key = irssi.nick_key n.nick in
      IsPlaced-added irssi t (put key l t) next next' n.addr key p new grows below
        (IsKeyed-put irssi key l t h p.keyed)
        (λ k a. ground (arith, held-put key l t a k, more a, str_eq_iff k key))

  pub insert-IsPlaced :
      (n : Nick) → n.addr ≡ next → IsPlaced irssi (irssi.nicklist_insert t n) (suc next)
  unfolding at_nick
  insert-IsPlaced n e =
      let key = irssi.nick_key n.nick in
      let l = t key ++ n ∷ [] in
      IsPlaced-cong irssi (put key l t) (irssi.nicklist_insert t n) (suc next)
        (irssi.nicklist_insert_lem t n)
        (put-added (suc next) n l (λ k. p.fresh k n.addr (omega arith)) (omega arith) (omega arith)
          (HasKey-append irssi key (t key) n (p.keyed key) refl)
          (λ a. omega (arith, sum_of-append (λ x. bit (at_nick a x)) (t key) (n ∷ []))))

  pub insert-Stands : (n : Nick) → Stands irssi (irssi.nicklist_insert t n) n
  unfolding at_nick
  insert-Stands n =
      let key = irssi.nick_key n.nick in
      rw (irssi.nicklist_insert_lem t n key) (
        ground (
          arith,
          held-put key (t key ++ n ∷ []) t n.addr key,
          sum_of-append (λ x. bit (at_nick n.addr x)) (t key) (n ∷ []),
          str_eq_refl key,
          ==_refl n.addr,
        ))

  without-gone : (n : Nick) → Stands irssi t n → (k : Str) → held n.addr (without irssi n t k) ≡ 0
  without-gone n s k =
      let key = irssi.nick_key n.nick in
      ground (
        arith,
        held-put key (remove_first (at_nick n.addr) (t key)) t n.addr k,
        held_swapped n.addr n.addr (t key) s,
        p.once key n.addr,
        p.apart k key n.addr,
        ==_refl n.addr,
      )

  pub Stands-once : (n : Nick) → Stands irssi t n → StandsOnce irssi t n
  Stands-once n s =
      let key = irssi.nick_key n.nick in
      (
        elim (Option-cases (find_first (at_nick n.addr) (t key))) [
          | inl e ↦ absurd (omega (arith, find_first-none (at_nick n.addr) (t key) e, s))
          | inr (m, e) ↦ (m, e)
        ],
        λ k. find_first-absent (at_nick n.addr) (without irssi n t k) (without-gone n s k),
      )

  below_next : (n : Nick) → Stands irssi t n → suc n.addr ≤ next
  below_next n s = elim (Bool-cases (leb next n.addr)) [
    | inl e ↦ absurd (omega (arith, p.fresh (irssi.nick_key n.nick) n.addr (ground arith), s))
    | inr e ↦ ground arith
  ]

  without-IsPlaced : (n : Nick) → IsPlaced irssi (without irssi n t) next
  without-IsPlaced n =
      let key = irssi.nick_key n.nick in
      put-within key (remove_first (at_nick n.addr) (t key))
        (HasKey-remove irssi key n.addr (t key) (p.keyed key)) (λ a. held-remove a n.addr (t key))

-- A nick that moves to the chain of another name.
pub moved-IsPlaced :
    (irssi : Irssi) (t : Nicks) (next : ℕ) (n renamed : Nick) (own : Bool)
    → IsPlaced irssi t next
    → Stands irssi t n
    → renamed.addr ≡ n.addr
    → IsPlaced irssi (moved irssi t n renamed own) next
unfolding at_nick
moved-IsPlaced irssi t next n renamed true p s e =
    let w = without irssi n t in
    let key = irssi.nick_key renamed.nick in
    let wp = without-IsPlaced irssi t next p n in
    put-added irssi w next wp next renamed (renamed ∷ w key)
      (λ k. rw e (without-gone irssi t next p n s k)) (omega arith)
      (rw e (below_next irssi t next p n s)) (refl, wp.keyed key) (λ a. omega arith)
moved-IsPlaced irssi t next n renamed false p s e =
    let w = without irssi n t in
    let key = irssi.nick_key renamed.nick in
    let wp = without-IsPlaced irssi t next p n in
    put-added irssi w next wp next renamed (w key ++ renamed ∷ [])
      (λ k. rw e (without-gone irssi t next p n s k)) (omega arith)
      (rw e (below_next irssi t next p n s))
      (HasKey-append irssi key (w key) renamed (wp.keyed key) refl)
      (λ a. omega (arith, sum_of-append (λ x. bit (at_nick a x)) (w key) (renamed ∷ [])))
