-- ===== src/Muc/Flags.antt =====
-- src/core/xep/muc-nicklist.c: the flags of a nick, as they follow from its affiliation and role, and
-- what the hash table keeps of every nick in it.
pub mod Kept
pub mod Stanza
use irssi_xmpp.Prelude.{
  ℕ, ◌==◌, ◌≡◌, refl, sym, ◌∙◌, Bool, true, false, ◌||◌, Option, none, some, List, [], ◌∷◌, ◌++◌,
  map, Bool-cases, Option-cases, inl, inr, if◌then◌else◌, remove_first, arith,
}
use mathlib.Core.Path.{subst}
use irssi_xmpp.Prelude.Str.{Str, str_eq}
use irssi_xmpp.Roster.{Presence}
use irssi_xmpp.Muc.{
  Affiliation, Role, Nick, Nicks, Channel, put, at_nick, Irssi, write_nick, set_nick,
}
use irssi_xmpp.Muc.Modes.{with_affiliation, with_role, xmpp_nicklist_set_modes}
use irssi_xmpp.Muc.Nicks.Rename.{chained_lem}
use irssi_xmpp.Muc.Events.Outcome.{List-cases}
use irssi_xmpp.Muc.Nicks.{
  new_nick, unlink, rehashed, removed_from, nick_hash_remove, chained, nick_hash_add, is_own,
  follow_own, xmpp_nicklist_rename, xmpp_nicklist_insert,
}

-- Owners and admins are operators.
abbrev pub is_op : Affiliation → Bool
is_op Affiliation.owner = true
is_op Affiliation.admin = true
is_op a = false

-- Moderators are half-operators.
abbrev pub is_halfop : Role → Bool
is_halfop Role.moderator = true
is_halfop r = false

-- Moderators and participants have a voice.
abbrev pub has_voice : Role → Bool
has_voice Role.moderator = true
has_voice Role.participant = true
has_voice r = false

abbrev pub Flagged : Nick → Type 0
Flagged n =
    (n.op ≡ is_op n.affiliation) × (n.halfop ≡ is_halfop n.role) × (n.voice ≡ has_voice n.role)

abbrev pub AllFlagged : List Nick → Type 0
AllFlagged [] = Unit
AllFlagged (n ∷ l) = Flagged n × AllFlagged l

-- Every nick in the hash table.
abbrev pub NicksFlagged : Nicks → Type 0
NicksFlagged t = (k : Str) → AllFlagged (t k)

role-Flagged :
    (r : Role) (n : Nick) → n.op ≡ is_op n.affiliation → n.role ≡ r → Flagged (with_role r n)
role-Flagged Role.nothing n h e = (h, rw e refl, rw e refl)
role-Flagged Role.moderator n h e = (h, rw e refl, rw e refl)
role-Flagged Role.participant n h e = (h, rw e refl, rw e refl)
role-Flagged Role.visitor n h e = (h, rw e refl, rw e refl)

pub set_modes-Flagged :
    (a : Affiliation) (r : Role) (n : Nick) → Flagged (xmpp_nicklist_set_modes a r n)
unfolding xmpp_nicklist_set_modes
set_modes-Flagged Affiliation.nothing r n = role-Flagged r _ refl refl
set_modes-Flagged Affiliation.owner r n = role-Flagged r _ refl refl
set_modes-Flagged Affiliation.admin r n = role-Flagged r _ refl refl
set_modes-Flagged Affiliation.member r n = role-Flagged r _ refl refl
set_modes-Flagged Affiliation.outcast r n = role-Flagged r _ refl refl

append-Flagged : (l : List Nick) (n : Nick) → AllFlagged l → Flagged n → AllFlagged (l ++ n ∷ [])
append-Flagged [] n h f = (f, tt)
append-Flagged (x ∷ l) n h f = (h.0, append-Flagged l n h.1 f)

remove-Flagged : (a : ℕ) (l : List Nick) → AllFlagged l → AllFlagged (remove_first (at_nick a) l)
unfolding remove_first
remove-Flagged a [] h = tt
remove-Flagged a (x ∷ l) h = elim (Bool-cases (at_nick a x)) [
  | inl e ↦ rw e h.1
  | inr e ↦ rw e (h.0, remove-Flagged a l h.1)
]

map-Flagged :
    (a : ℕ) (f : Nick → Nick) (l : List Nick)
    → ((n : Nick) → Flagged n → Flagged (f n))
    → AllFlagged l
    → AllFlagged (map (write_nick a f) l)
unfolding write_nick
map-Flagged a f [] keeps h = tt
map-Flagged a f (x ∷ l) keeps h = elim (Bool-cases (x.addr == a)) [
  | inl e ↦ rw e (keeps x h.0, map-Flagged a f l keeps h.1)
  | inr e ↦ rw e (h.0, map-Flagged a f l keeps h.1)
]

pub set_nick-Flagged :
    (a : ℕ) (f : Nick → Nick) (t : Nicks)
    → ((n : Nick) → Flagged n → Flagged (f n))
    → NicksFlagged t
    → NicksFlagged (set_nick a f t)
unfolding set_nick
set_nick-Flagged a f t keeps h k = map-Flagged a f (t k) keeps (h k)

put-Flagged :
    (key : Str) (l : List Nick) (t : Nicks)
    → AllFlagged l
    → NicksFlagged t
    → NicksFlagged (put key l t)
unfolding put
put-Flagged key l t h rest k = elim (Bool-cases (str_eq k key)) [
  | inl e ↦ rw e h
  | inr e ↦ rw e (rest k)
]

abbrev ChainFlagged : Option (List Nick) → Type 0
ChainFlagged none = Unit
ChainFlagged (some l) = AllFlagged l

unlink-Flagged : (a : ℕ) (l : List Nick) → AllFlagged l → ChainFlagged (unlink a l)
unfolding unlink
unlink-Flagged a [] h = tt
unlink-Flagged a (x ∷ l) h = elim (Bool-cases (at_nick a x)) [
  | inl e ↦ rw (e, unlink) h.1
  | inr e ↦ elim (Option-cases (unlink a l)) [
    | inl f ↦ rw (e, f, unlink) tt
    | inr (r, f) ↦
        let g : ChainFlagged (some r) = subst (λ o. ChainFlagged o) f (unlink-Flagged a l h.1) in
        rw (e, f, unlink) (h.0, g)
  ]
]

-- What a removal leaves, where it does not fault.
abbrev TableFlagged : Option Nicks → Type 0
TableFlagged none = Unit
TableFlagged (some t) = NicksFlagged t

rehashed-Flagged :
    (irssi : Irssi) (key : Str) (l : List Nick) (t : Nicks)
    → AllFlagged l
    → NicksFlagged t
    → NicksFlagged (rehashed irssi key l t)
unfolding rehashed
rehashed-Flagged irssi key [] t h rest = put-Flagged key [] t tt rest
rehashed-Flagged irssi key (x ∷ l) t h rest =
    put-Flagged (irssi.nick_key x.nick) (x ∷ l) (put key [] t) h (put-Flagged key [] t tt rest)

removed_from-Flagged :
    (irssi : Irssi) (key : Str) (a : ℕ) (l : List Nick) (t : Nicks)
    → AllFlagged l
    → NicksFlagged t
    → TableFlagged (removed_from irssi key a l t)
unfolding removed_from
removed_from-Flagged irssi key a [] t h rest = rest
removed_from-Flagged irssi key a (x ∷ []) t h rest = put-Flagged key [] t tt rest
removed_from-Flagged irssi key a (x ∷ y ∷ l) t h rest = elim (Bool-cases (at_nick a x)) [
  | inl e ↦ rw (e, removed_from) (rehashed-Flagged irssi key (y ∷ l) t h.1 rest)
  | inr e ↦ elim (Option-cases (unlink a (y ∷ l))) [
    | inl f ↦ rw (e, f, removed_from) tt
    | inr (r, f) ↦
        let g : ChainFlagged (some r) =
          subst (λ o. ChainFlagged o) f (unlink-Flagged a (y ∷ l) h.1) in
        rw (e, f, removed_from) (put-Flagged key (x ∷ r) t (h.0, g) rest)
  ]
]

module _ (irssi : Irssi) (t : Nicks) (h : NicksFlagged t) where
  pub insert-Flagged : (n : Nick) → Flagged n → NicksFlagged (irssi.nicklist_insert t n)
  insert-Flagged n f k = rw (irssi.nicklist_insert_lem t n k) (
      put-Flagged (irssi.nick_key n.nick) (t (irssi.nick_key n.nick) ++ n ∷ []) t
        (append-Flagged (t (irssi.nick_key n.nick)) n (h (irssi.nick_key n.nick)) f) h k)

  pub delete-Flagged : (n : Nick) → NicksFlagged (irssi.nicklist_remove t n)
  delete-Flagged n k = rw (irssi.nicklist_remove_lem t n k) (
      put-Flagged (irssi.nick_key n.nick)
        (remove_first (at_nick n.addr) (t (irssi.nick_key n.nick))) t
        (remove-Flagged n.addr (t (irssi.nick_key n.nick)) (h (irssi.nick_key n.nick))) h k)

  pub own-Flagged : (n : Nick) → Flagged n → NicksFlagged (irssi.nicklist_set_own t n)
  own-Flagged n f k = rw (irssi.nicklist_set_own_lem t n k) (
      put-Flagged (irssi.nick_key n.nick)
        (n ∷ remove_first (at_nick n.addr) (t (irssi.nick_key n.nick))) t
        (f, remove-Flagged n.addr (t (irssi.nick_key n.nick)) (h (irssi.nick_key n.nick))) h k)

  chained-Flagged : (n : Nick) → Flagged n → NicksFlagged (chained irssi t n)
  chained-Flagged n f = rw (chained_lem irssi t n (t (irssi.nick_key n.nick)) refl) (
      put-Flagged (irssi.nick_key n.nick) (t (irssi.nick_key n.nick) ++ n ∷ []) t
        (append-Flagged (t (irssi.nick_key n.nick)) n (h (irssi.nick_key n.nick)) f) h)

  pub nick_hash_remove-Flagged : (n : Nick) → TableFlagged (nick_hash_remove irssi t n)
  unfolding nick_hash_remove
  nick_hash_remove-Flagged n =
      removed_from-Flagged irssi (irssi.nick_key n.nick) n.addr (t (irssi.nick_key n.nick)) t
        (h (irssi.nick_key n.nick)) h

  -- What nicklist_find returns is in the table.
  pub found-Flagged :
      (name : Option Str) (n : Nick) → irssi.nicklist_find t name ≡ some n → Flagged n
  found-Flagged none n e = ground (arith, irssi.nicklist_find_null t)
  found-Flagged (some name) n e = elim (List-cases (t (irssi.nick_key name))) [
    | inl f ↦ ground (arith, irssi.nicklist_find_empty t name f)
    | inr (x, l, f) ↦
        let g : AllFlagged (x ∷ l) = subst (λ c. AllFlagged c) f (h (irssi.nick_key name)) in
        let same : x ≡ n = ground (arith, irssi.nicklist_find_first t name x l f) in
        subst (λ m. Flagged m) same g.0
  ]
