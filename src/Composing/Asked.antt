-- ===== src/Composing/Asked.antt =====
-- src/core/xep/composing.c: who is told that one is composing.
use irssi_xmpp.Prelude.{
  ℕ, ◌==◌, ◌≡◌, refl, ap, ◌∙◌, Bool, true, false, not, ◌&&◌, ◌||◌, Option, none, some,
  if◌then◌else◌, ==_refl,
}
use irssi_xmpp.Prelude.Str.{Str, codes, str_eq, str_eq_refl}
use irssi_xmpp.Tools.{Charsets}
use irssi_xmpp.Loudmouth.{Loudmouth, SubType}
use irssi_xmpp.Datalist.{Datalist, Rec, datalist_find}
use irssi_xmpp.Datalist.View.{HasUniqueKeys, view, content_of, view-call, call, add, remove}
use irssi_xmpp.Composing.{
  State, told_if_asked, send_composing_event, sig_composing_start, is_chat, heard, has_child,
  find_event, from_contact, sig_recv_message,
}

-- What is sent for an id, or for none.
by_content : Charsets → Bool → State → ℕ → Str → Option Str → State
by_content charsets composing s server dest none = s
by_content charsets composing s server dest (some id) =
    send_composing_event charsets s server dest (some id) composing

told_content :
    (charsets : Charsets) (composing : Bool) (s : State) (server : ℕ) (dest : Str)
    (o : Option (Rec Str))
    → told_if_asked charsets composing s server dest o
      ≡ by_content charsets composing s server dest (content_of o)
unfolding told_if_asked by_content content_of
told_content charsets composing s server dest none = refl
told_content charsets composing s server dest (some r) = refl

start_viewed :
    (charsets : Charsets) (s : State) (server : ℕ) (dest : Str) (v : Option Str)
    → view s.composings server dest ≡ v
    → sig_composing_start charsets s server dest ≡ by_content charsets true s server dest v
unfolding sig_composing_start view
start_viewed charsets s server dest v e =
    told_content charsets true s server dest (datalist_find s.composings server dest)
    ∙ ap (by_content charsets true s server dest) e

same_key_refl : (server : ℕ) (from : Str) → (server == server && str_eq from from) ≡ true
same_key_refl server from = ap (λ b. b && str_eq from from) (==_refl server) ∙ str_eq_refl from

-- What is found for the sender of a text.
view-heard :
    (dl : Datalist Str) (server : ℕ) (from id : Str) (asked : Bool)
    → HasUniqueKeys dl
    → view (heard dl server from id true asked).0 server from ≡ (if asked then some id else none)
unfolding heard call
view-heard dl server from id true u =
    view-call dl (add server from id) server from u
    ∙ ap (λ b. if b then some id else view dl server from) (same_key_refl server from)
view-heard dl server from id false u =
    view-call dl (remove server from) server from u
    ∙ ap (λ b. if b then none else view dl server from) (same_key_refl server from)

asked_or_not :
    (charsets : Charsets) (s : State) (server : ℕ) (dest id : Str) (asked : Bool)
    → by_content charsets true s server dest (if asked then some id else none)
      ≡ (if asked then send_composing_event charsets s server dest (some id) true else s)
unfolding by_content
asked_or_not charsets s server dest id true = refl
asked_or_not charsets s server dest id false = refl

module _ (lm : Loudmouth) (charsets : Charsets) where
  -- A message whose type is that of a chat, from a sender that is no room.
  received :
      (s : State) (server : ℕ) (message : lm.Node) (type : SubType) (id from : Str) (node : lm.Node)
      → is_chat type ≡ true
      → find_event lm message ≡ some node
      → sig_recv_message lm s server message type id from false
        ≡ from_contact lm s server message id from (some node)
  unfolding sig_recv_message
  received s server message type id from node chat event =
      ap
        (λ b.
          if not b || false
          then s
          else from_contact lm s server message id from (find_event lm message))
        chat
      ∙ ap (from_contact lm s server message id from) event

  -- A contact whose message had a text and an event is told that one composes a message exactly
  -- where the event asked for it, with the id of that message. The data list has no pair twice.
  pub sig_composing_start-asked :
      (s : State) (server : ℕ) (message : lm.Node) (type : SubType) (id from : Str) (node : lm.Node)
      → HasUniqueKeys s.composings
      → is_chat type ≡ true
      → find_event lm message ≡ some node
      → (has_child lm message (codes "body") || has_child lm message (codes "subject")) ≡ true
      → let t = sig_recv_message lm s server message type id from false in
        sig_composing_start charsets t server from ≡ (
          if has_child lm node (codes "composing")
          then send_composing_event charsets t server from (some id) true
          else t)
  unfolding from_contact
  sig_composing_start-asked s server message type id from node u chat event text =
      let t = sig_recv_message lm s server message type id from false in
      let asked = has_child lm node (codes "composing") in
      start_viewed charsets t server from (if asked then some id else none) (
        ap (λ (x : State). view x.composings server from)
          (received s server message type id from node chat event)
        ∙ ap (λ b. view (heard s.composings server from id b asked).0 server from) text
        ∙ view-heard s.composings server from id asked u)
      ∙ asked_or_not charsets t server from id asked
