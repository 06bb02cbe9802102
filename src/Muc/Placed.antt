-- ===== src/Muc/Placed.antt =====
-- src/core/xep/muc-nicklist.c: the shape of a room's hash table of nicks. Every nick is in the chain of
-- its key, no address is in the table twice, and the next address is in it nowhere.
pub mod Tables
pub mod Kept
pub mod Stanza
pub mod Reach
mod Tests
use irssi_xmpp.Prelude.{
  ℕ, suc, ◌+◌, ◌≤◌, ◌==◌, ◌≡◌, refl, sym, ap, ◌∙◌, Bool, true, false, Option, none, some, List, [],
  ◌∷◌, ◌++◌, map, Bool-cases, inl, inr, if◌then◌else◌, find_first, remove_first, count, bit, arith,
  sum_of-append, find_first-absent, sum_of-remove_first, remove_first-absent, find_first-none,
  Option-cases, ==_refl,
}
use irssi_xmpp.Prelude.Str.{Str, str_eq, str_eq_iff}
use irssi_xmpp.Muc.{Nick, Nicks, put, at_nick, Irssi, write_nick, set_nick}
use irssi_xmpp.Muc.Nicks.Removal.{HasKey, IsKeyed, without}

-- How often an address is in a chain.
abbrev pub held : ℕ → List Nick → ℕ
held a l = count (at_nick a) l

pub record IsPlaced (irssi : Irssi) (t : Nicks) (next : ℕ) : Type 0 where
  pub keyed : IsKeyed irssi t
  pub once : (k : Str) (a : ℕ) → held a (t k) ≤ 1
  pub apart : (j k : Str) (a : ℕ) → str_eq j k ≡ false → held a (t j) + held a (t k) ≤ 1
  pub fresh : (k : Str) (a : ℕ) → next ≤ a → held a (t k) ≡ 0

-- A table that holds nothing more than a placed one is placed.
pub IsPlaced-within :
    (irssi : Irssi) (t u : Nicks) (next : ℕ)
    → IsPlaced irssi t next
    → IsKeyed irssi u
    → ((k : Str) (a : ℕ) → held a (u k) ≤ held a (t k))
    → IsPlaced irssi u next
IsPlaced-within irssi t u next p keyed less = record {
  keyed = keyed;
  once = λ k a. omega (arith, less k a, p.once k a);
  apart = λ j k a h. omega (arith, less j a, less k a, p.apart j k a h);
  fresh = λ k a h. omega (arith, less k a, p.fresh k a h);
}

-- So is one with a new address below `next` besides.
pub IsPlaced-added :
    (irssi : Irssi) (t u : Nicks) (next next' b : ℕ) (key : Str)
    → IsPlaced irssi t next
    → ((k : Str) → held b (t k) ≡ 0)
    → next ≤ next'
    → suc b ≤ next'
    → IsKeyed irssi u
    → ((k : Str) (a : ℕ) → held a (u k) ≤ held a (t k) + (if str_eq k key then bit (b == a) else 0))
    → IsPlaced irssi u next'
IsPlaced-added irssi t u next next' b key p new grows below keyed more = record {
  keyed = keyed;
  once = λ k a. ground (arith, more k a, p.once k a, new k);
  apart = λ j k a h. ground (
    arith,
    more j a,
    more k a,
    p.apart j k a h,
    p.once j a,
    p.once k a,
    new j,
    new k,
    str_eq_iff j key,
    str_eq_iff k key,
    str_eq_iff j k,
  );
  fresh = λ k a h. ground (arith, more k a, p.fresh k a);
}

pub held-remove : (a b : ℕ) (l : List Nick) → held a (remove_first (at_nick b) l) ≤ held a l
unfolding remove_first
held-remove a b [] = omega arith
held-remove a b (x ∷ l) = ground (arith, held-remove a b l)

-- Taking out an address that is there makes room for one more.
pub held_swapped :
    (a b : ℕ) (l : List Nick)
    → 1 ≤ held b l
    → held a (remove_first (at_nick b) l) + bit (b == a) ≤ held a l
unfolding remove_first at_nick
held_swapped a b [] h = absurd (omega arith)
held_swapped a b (x ∷ l) h = ground (arith, held_swapped a b l)

pub held-map :
    (a b : ℕ) (f : Nick → Nick) (l : List Nick)
    → ((n : Nick) → (f n).addr ≡ n.addr)
    → held a (map (write_nick b f) l) ≡ held a l
unfolding write_nick at_nick
held-map a b f [] h = refl
held-map a b f (x ∷ l) h = ground (arith, held-map a b f l h, h x)

pub held-put :
    (key : Str) (l : List Nick) (t : Nicks) (a : ℕ) (k : Str)
    → held a (put key l t k) ≡ (if str_eq k key then held a l else held a (t k))
unfolding put
held-put key l t a k = ground arith

pub HasKey-append :
    (irssi : Irssi) (key : Str) (l : List Nick) (n : Nick)
    → HasKey irssi key l
    → irssi.nick_key n.nick ≡ key
    → HasKey irssi key (l ++ n ∷ [])
HasKey-append irssi key [] n h e = (e, tt)
HasKey-append irssi key (x ∷ l) n h e = (h.0, HasKey-append irssi key l n h.1 e)

pub HasKey-remove :
    (irssi : Irssi) (key : Str) (a : ℕ) (l : List Nick)
    → HasKey irssi key l
    → HasKey irssi key (remove_first (at_nick a) l)
unfolding remove_first
HasKey-remove irssi key a [] h = tt
HasKey-remove irssi key a (x ∷ l) h = elim (Bool-cases (at_nick a x)) [
  | inl e ↦ rw e h.1
  | inr e ↦ rw e (h.0, HasKey-remove irssi key a l h.1)
]

pub HasKey-map :
    (irssi : Irssi) (key : Str) (b : ℕ) (f : Nick → Nick) (l : List Nick)
    → ((n : Nick) → (f n).nick ≡ n.nick)
    → HasKey irssi key l
    → HasKey irssi key (map (write_nick b f) l)
unfolding write_nick
HasKey-map irssi key b f [] same h = tt
HasKey-map irssi key b f (x ∷ l) same h = elim (Bool-cases (x.addr == b)) [
  | inl e ↦ rw (e, same x) (h.0, HasKey-map irssi key b f l same h.1)
  | inr e ↦ rw e (h.0, HasKey-map irssi key b f l same h.1)
]

pub IsKeyed-put :
    (irssi : Irssi) (key : Str) (l : List Nick) (t : Nicks)
    → HasKey irssi key l
    → IsKeyed irssi t
    → IsKeyed irssi (put key l t)
unfolding put
IsKeyed-put irssi key l t h rest k = elim (Bool-cases (str_eq k key)) [
  | inl e ↦ rw (e, (str_eq_iff k key).0 e) h
  | inr e ↦ rw e (rest k)
]
