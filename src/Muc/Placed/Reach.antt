-- ===== src/Muc/Placed/Reach.antt =====
-- src/core/xep/muc-events.c: a room after any sequence of presences.
use mathlib.Core.Path.{subst}
use irssi_xmpp.Prelude.{ℕ, ◌≡◌, refl, some, [], arith}
use irssi_xmpp.Prelude.Str.{Str}
use irssi_xmpp.Loudmouth.{SubType}
use irssi_xmpp.Muc.{Nicks, Channel, Irssi}
use irssi_xmpp.Muc.Flags.{NicksFlagged}
use irssi_xmpp.Muc.Stanzas.{World, sig_recv_presence}
use irssi_xmpp.Muc.Placed.{IsPlaced}
use irssi_xmpp.Muc.Placed.Kept.{IsPlacedRoom}
use irssi_xmpp.Muc.Placed.Stanza.{sig_recv_presence_safe}

-- The rooms that presences make of a room.
pub data Reaches (w : World) (c : Channel) : Channel → Type 0 where
  here : Reaches w c c
  next :
      {d e : Channel} (message : w.lm.Node) (type : SubType) (from : Str)
      → Reaches w c d
      → sig_recv_presence w d message type from ≡ some e
      → Reaches w c e

-- The hash table of a room just created.
abbrev pub nobody : Nicks
nobody k = []

pub nobody-IsPlaced : (irssi : Irssi) (n : ℕ) → IsPlaced irssi nobody n
nobody-IsPlaced irssi n = record {
  keyed = λ k. tt;
  once = λ k a. omega arith;
  apart = λ j k a h. omega arith;
  fresh = λ k a h. refl;
}

abbrev IsSafe : World → Channel → Type 0
IsSafe w c = IsPlacedRoom w.irssi c × NicksFlagged c.nicks

Reaches-IsSafe : (w : World) {c d : Channel} → IsSafe w c → Reaches w c d → IsSafe w d
Reaches-IsSafe w s here = s
Reaches-IsSafe w {c} s (next {d} {e} message type from r h) =
    let (p, f) = Reaches-IsSafe w s r in
    let (x, run, q, g) = sig_recv_presence_safe w d p f message type from in
    let same : x ≡ e = ground (arith, run, h) in
    (subst (IsPlacedRoom w.irssi) same q, subst (λ y. NicksFlagged y.nicks) same g)

-- Whatever presences a room has sent since it was created, the next one makes no fault: its handler
-- returns, and every nick still has the flags of its affiliation and role.
pub reached_room_answers :
    (w : World) (c d : Channel)
    → c.nicks ≡ nobody
    → Reaches w c d
    → (message : w.lm.Node) (type : SubType) (from : Str)
    → (e : Channel) × (sig_recv_presence w d message type from ≡ some e) × NicksFlagged e.nicks
reached_room_answers w c d empty r message type from =
    let start : IsSafe w c = rw empty (nobody-IsPlaced w.irssi c.next, λ k. tt) in
    let (p, f) = Reaches-IsSafe w start r in
    let (e, run, q, g) = sig_recv_presence_safe w d p f message type from in (e, run, g)
