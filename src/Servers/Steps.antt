-- ===== src/Servers/Steps.antt =====
-- src/core/xmpp-servers.c: a server while it connects, is connected and is cleaned up.
use irssi_xmpp.Prelude.{
  ◌≡◌, refl, ap, ◌∙◌, Bool, true, false, not, ◌&&◌, ◌||◌, Option, none, some, [], ◌∷◌,
  if◌then◌else◌, arith,
}
use irssi_xmpp.Prelude.Str.{Str, codes}
use irssi_xmpp.Servers.{Server, World, calling, source_remove, untimed, taken_down, server_cleanup}
use irssi_xmpp.Servers.Connect.{
  marked_connected, lm_close_cb, lm_auth_cb, authenticated, lm_open_cb, check_connection_timeout,
  overdue,
}
use irssi_xmpp.Servers.Open.{
  Opened, opening, not_opened, first_error, connect_gave_up, open_attempted, proxied, proxy_error,
  xmpp_server_connect, ssl_error, ssl_calls, proxy_calls,
}

-- The states of a server. It is connected anew only while it is not connected; the other steps are
-- callbacks and the handlers of its end, and come in any order.
pub data Reaches (w : World) : Server → Server → Type 0 where
  here : {s : Server} → Reaches w s s
  connected :
      {s t : Server} (supported : Bool) (outcome : Opened)
      → t.connected ≡ false
      → Reaches w s t
      → Reaches w s (xmpp_server_connect w supported outcome t)
  opened :
      {s t : Server} (typed : Option Str) (use_starttls success : Bool)
      → Reaches w s t
      → Reaches w s (lm_open_cb w typed use_starttls success t)
  auth_answered :
      {s t : Server} (success : Bool) → Reaches w s t → Reaches w s (lm_auth_cb success t)
  closed : {s t : Server} (reason_ok : Bool) → Reaches w s t → Reaches w s (lm_close_cb reason_ok t)
  timed_out : {s t : Server} → Reaches w s t → Reaches w s (check_connection_timeout t)
  cleaned_up :
      {s t : Server} (is_closed : Bool) → Reaches w s t → Reaches w s (server_cleanup is_closed t)

-- A server that is connected is in no list of those to come, and nothing waits for it.
abbrev pub IsCalm : Server → Type 0
IsCalm s = (s.connected && (s.lookup || s.timeout_tag)) ≡ false

-- A server that is not connected.
abbrev IsOff : Server → Type 0
IsOff s = s.connected ≡ false

connect_gave_up-IsOff :
    (e : Option Str) (text : Str) (s : Server) → IsOff s → IsOff (connect_gave_up e text s)
unfolding connect_gave_up
connect_gave_up-IsOff none text s h = h
connect_gave_up-IsOff (some m) text s h = h

open_attempted-IsOff :
    (outcome : Opened) (e : Option Str) (s : Server) → IsOff s → IsOff (open_attempted outcome e s)
unfolding open_attempted
open_attempted-IsOff opening e s h = h
open_attempted-IsOff (not_opened f) e s h = connect_gave_up-IsOff (first_error e f) _ _ h

if-IsOff : (b : Bool) (s t : Server) → IsOff s → IsOff t → IsOff (if b then s else t)
if-IsOff true s t h k = h
if-IsOff false s t h k = k

proxied-IsOff :
    (w : World) (outcome : Opened) (e : Option Str) (s : Server)
    → IsOff s
    → IsOff (proxied w outcome e s)
unfolding proxied
proxied-IsOff w outcome e s h =
    if-IsOff w.xmpp_use_proxy _ _ (through (proxy_error w)) (open_attempted-IsOff outcome e s h)
  where
    through :
        (error : Option Str)
        → IsOff (elim error [
          | some m ↦ connect_gave_up (some m) (codes "Cannot set proxy") s
          | none ↦ open_attempted outcome e (calling s (proxy_calls w))
        ])
    through none = open_attempted-IsOff outcome e (calling s (proxy_calls w)) h
    through (some m) = connect_gave_up-IsOff (some m) (codes "Cannot set proxy") s h

-- Connecting does not make a server connected.
xmpp_server_connect-IsOff :
    (w : World) (supported : Bool) (outcome : Opened) (s : Server)
    → IsOff s
    → IsOff (xmpp_server_connect w supported outcome s)
unfolding xmpp_server_connect
xmpp_server_connect-IsOff w supported outcome s h =
    if-IsOff (not s.connrec.use_tls) _ _
      (proxied-IsOff w outcome (ssl_error supported) (calling s (ssl_calls supported true)) h)
      (if-IsOff supported _ _
        (proxied-IsOff w outcome none (calling s (ssl_calls supported false)) h)
        (connect_gave_up-IsOff (ssl_error supported) (codes "Cannot init ssl") s h))

IsOff-IsCalm : (s : Server) → IsOff s → IsCalm s
IsOff-IsCalm s h = ap (λ b. b && (s.lookup || s.timeout_tag)) h

if-IsCalm : (b : Bool) (s t : Server) → IsCalm s → IsCalm t → IsCalm (if b then s else t)
if-IsCalm true s t h k = h
if-IsCalm false s t h k = k

-- Without its source, a server that is in no list is calm, whatever else it is.
quiet : (b : Bool) → b && (false || false) ≡ false
quiet b = ground arith

less : (a b c : Bool) → a && (b || c) ≡ false → a && (b || false) ≡ false
less a b c h = ground arith

untimed-IsCalm : (s : Server) → IsCalm s → IsCalm (untimed s)
unfolding untimed
untimed-IsCalm s h = if-IsCalm s.timeout_tag _ s (less s.connected s.lookup s.timeout_tag h) h

untimed-off : (s : Server) → (untimed s).timeout_tag ≡ false
unfolding untimed
untimed-off s = ground arith

untimed-lookup : (s : Server) → (untimed s).lookup ≡ s.lookup
unfolding untimed
untimed-lookup s = ground arith

-- A server in no list is calm once its source is removed.
unlisted : (s : Server) → s.lookup ≡ false → IsCalm (untimed s)
unlisted s h =
    let c = (untimed s).connected in
    ap (λ b. c && (b || (untimed s).timeout_tag)) (untimed-lookup s ∙ h)
    ∙ ap (λ b. c && (false || b)) (untimed-off s)
    ∙ quiet c

authenticated-IsCalm : (s : Server) → IsCalm (authenticated s)
unfolding authenticated marked_connected
authenticated-IsCalm s = unlisted (marked_connected s) refl

lm_auth_cb-IsCalm : (success : Bool) (s : Server) → IsCalm s → IsCalm (lm_auth_cb success s)
unfolding lm_auth_cb
lm_auth_cb-IsCalm success s h = if-IsCalm success (authenticated s) _ (authenticated-IsCalm s) h

check_connection_timeout-IsCalm : (s : Server) → IsCalm s → IsCalm (check_connection_timeout s)
unfolding check_connection_timeout overdue
check_connection_timeout-IsCalm s h =
    if-IsCalm (not s.lookup) s _ h
      (if-IsCalm s.connected _ _ (less s.connected s.lookup s.timeout_tag h) h)

server_cleanup-IsCalm :
    (is_closed : Bool) (s : Server) → IsCalm s → IsCalm (server_cleanup is_closed s)
unfolding server_cleanup taken_down
server_cleanup-IsCalm is_closed s h =
    if-IsCalm (untimed s).lmconn _ (untimed s) (untimed-IsCalm s h) (untimed-IsCalm s h)

Reaches-IsCalm : (w : World) {s t : Server} → IsCalm s → Reaches w s t → IsCalm t
unfolding lm_open_cb lm_close_cb
Reaches-IsCalm w h here = h
Reaches-IsCalm w h (connected {s} {t} supported outcome off r) =
    IsOff-IsCalm (xmpp_server_connect w supported outcome t)
      (xmpp_server_connect-IsOff w supported outcome t off)
Reaches-IsCalm w h (opened {s} {t} typed use_starttls success r) =
    let k = Reaches-IsCalm w h r in if-IsCalm success _ t k k
Reaches-IsCalm w h (auth_answered {s} {t} success r) =
    lm_auth_cb-IsCalm success t (Reaches-IsCalm w h r)
Reaches-IsCalm w h (closed {s} {t} reason_ok r) =
    let k = Reaches-IsCalm w h r in if-IsCalm (not t.connected || reason_ok) t _ k k
Reaches-IsCalm w h (timed_out {s} {t} r) = check_connection_timeout-IsCalm t (Reaches-IsCalm w h r)
Reaches-IsCalm w h (cleaned_up {s} {t} is_closed r) =
    server_cleanup-IsCalm is_closed t (Reaches-IsCalm w h r)

calm_parts : (a b c : Bool) → a && (b || c) ≡ false → a ≡ true → (b ≡ false) × (c ≡ false)
calm_parts a b c h k = (ground arith, ground arith)

-- Whatever has happened to a server since it was made, once it is connected the end of its time
-- changes nothing: it is not disconnected for want of an answer, and no source is left.
pub connected_not_timed_out :
    (w : World) {s t : Server}
    → IsCalm s
    → Reaches w s t
    → t.connected ≡ true
    → (check_connection_timeout t ≡ t) × (t.timeout_tag ≡ false)
unfolding check_connection_timeout
connected_not_timed_out w {s} {t} h r up =
    let parts = calm_parts t.connected t.lookup t.timeout_tag (Reaches-IsCalm w h r) up in
    (ap (λ b. if not b then t else overdue t) parts.0, parts.1)

untimed_same : (s : Server) → s.timeout_tag ≡ false → untimed s ≡ s
unfolding untimed
untimed_same s h =
    let removed = calling (record s { timeout_tag = false }) (source_remove ∷ []) in
    ap (λ b. if b then removed else s) h

server_cleanup_off :
    (is_closed : Bool) (s : Server)
    → ((server_cleanup is_closed s).timeout_tag ≡ false)
      × ((server_cleanup is_closed s).lmconn ≡ false)
unfolding server_cleanup taken_down
server_cleanup_off is_closed s = (ground (arith, untimed-off s), ground arith)

server_cleanup_same :
    (is_closed : Bool) (s : Server)
    → s.timeout_tag ≡ false
    → s.lmconn ≡ false
    → server_cleanup is_closed s ≡ s
unfolding server_cleanup
server_cleanup_same is_closed s h k =
    ap (λ (t : Server). if t.lmconn then taken_down is_closed t else t) (untimed_same s h)
    ∙ ap (λ b. if b then taken_down is_closed s else s) k

-- A server that is cleaned up again, in whatever state its connection is, does not change: the
-- connection is released once.
pub server_cleanup_twice :
    (is_closed again : Bool) (s : Server)
    → server_cleanup again (server_cleanup is_closed s) ≡ server_cleanup is_closed s
server_cleanup_twice is_closed again s =
    let off = server_cleanup_off is_closed s in
    server_cleanup_same again (server_cleanup is_closed s) off.0 off.1
