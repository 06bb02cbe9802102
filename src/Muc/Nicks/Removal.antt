-- ===== src/Muc/Nicks/Removal.antt =====
-- src/core/xep/muc-nicklist.c: what nick_hash_remove takes out of the hash table.
use irssi_xmpp.Prelude.{
  ℕ, ◌≡◌, refl, sym, true, some, List, [], ◌∷◌, Bool-cases, inl, inr, find_first, remove_first,
  arith,
}
use irssi_xmpp.Prelude.Str.{Str}
use irssi_xmpp.Muc.{Nick, Nicks, put, at_nick, Irssi}
use irssi_xmpp.Muc.Nicks.{unlink, rehashed, removed_from, nick_hash_remove}

-- A nick with that address is in the list.
abbrev pub Holds : ℕ → List Nick → Type 0
Holds a l = (n : Nick) × (find_first (at_nick a) l ≡ some n)

-- All names of a chain have its key.
abbrev pub HasKey : Irssi → Str → List Nick → Type 0
HasKey irssi key [] = Unit
HasKey irssi key (n ∷ l) = (irssi.nick_key n.nick ≡ key) × HasKey irssi key l

abbrev pub IsKeyed : Irssi → Nicks → Type 0
IsKeyed irssi t = (k : Str) → HasKey irssi k (t k)

-- The table after the removal.
abbrev pub without : Irssi → Nick → Nicks → Nicks
without irssi n t =
    put (irssi.nick_key n.nick) (remove_first (at_nick n.addr) (t (irssi.nick_key n.nick))) t

unlink-remove_first :
    (a : ℕ) (l : List Nick) → Holds a l → unlink a l ≡ some (remove_first (at_nick a) l)
unfolding unlink remove_first find_first
unlink-remove_first a [] (n, h) = ground arith
unlink-remove_first a (x ∷ l) (n, h) = elim (Bool-cases (at_nick a x)) [
  | inl e ↦ rw e refl
  | inr e ↦
      let f : find_first (at_nick a) l ≡ some n = rw (sym h, e) refl in
      rw (e, unlink-remove_first a l (n, f)) refl
]

pub put-put :
    (key : Str) (l m : List Nick) (t : Nicks) (k : Str) → put key l (put key m t) k ≡ put key l t k
unfolding put
put-put key l m t k = ground arith

rehashed_lem :
    (irssi : Irssi) (key : Str) (l : List Nick) (t : Nicks)
    → HasKey irssi key l
    → (k : Str) → rehashed irssi key l t k ≡ put key l t k
unfolding rehashed
rehashed_lem irssi key [] t h k = refl
rehashed_lem irssi key (x ∷ l) t h k = rw h.0 (put-put key (x ∷ l) [] t k)

removed_from_lem :
    (irssi : Irssi) (key : Str) (a : ℕ) (l : List Nick) (t : Nicks)
    → HasKey irssi key l
    → Holds a l
    → (t' : Nicks) × (removed_from irssi key a l t ≡ some t')
      × ((k : Str) → t' k ≡ put key (remove_first (at_nick a) l) t k)
unfolding removed_from find_first remove_first
removed_from_lem irssi key a [] t h (n, f) = ground arith
removed_from_lem irssi key a (x ∷ []) t h (n, f) =
    let e : at_nick a x ≡ true = unfold find_first in ground arith in
    (put key [] t, refl, λ k. rw e refl)
removed_from_lem irssi key a (x ∷ y ∷ l) t h (n, f) = elim (Bool-cases (at_nick a x)) [
  | inl e ↦
      (rehashed irssi key (y ∷ l) t, rw e refl, λ k. rw e (rehashed_lem irssi key (y ∷ l) t h.1 k))
  | inr e ↦
      let g : find_first (at_nick a) (y ∷ l) ≡ some n = rw (sym f, e) refl in
      (
        put key (x ∷ remove_first (at_nick a) (y ∷ l)) t,
        rw (e, unlink-remove_first a (y ∷ l) (n, g)) refl,
        λ k. rw e refl,
      )
]

-- Where every nick is in the chain of its key, a nick that stands in the chain of its name is
-- taken out of the table, without a fault, and nothing else is.
pub nick_hash_remove_lem :
    (irssi : Irssi) (t : Nicks) (n : Nick)
    → IsKeyed irssi t
    → Holds n.addr (t (irssi.nick_key n.nick))
    → (t' : Nicks) × (nick_hash_remove irssi t n ≡ some t')
      × ((k : Str) → t' k ≡ without irssi n t k)
unfolding nick_hash_remove
nick_hash_remove_lem irssi t n keyed held =
    removed_from_lem irssi (irssi.nick_key n.nick) n.addr (t (irssi.nick_key n.nick)) t
      (keyed (irssi.nick_key n.nick)) held
