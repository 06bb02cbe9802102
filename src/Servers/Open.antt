-- ===== src/Servers/Open.antt =====
-- src/core/xmpp-servers.c: the attempt to connect.
use irssi_xmpp.Prelude.{Bool, true, false, not, Option, none, some, List, [], ◌∷◌, if◌then◌else◌}
use irssi_xmpp.Prelude.Int.{is_pos, is_zero}
use irssi_xmpp.Prelude.Str.{Str, codes}
use irssi_xmpp.Tools.{xmpp_recode_out}
use irssi_xmpp.Servers.{
  Server, World, Call, connect_failed, set_ssl, set_proxy, server_looking, timeout_add, lm_open,
  calling, is_empty,
}
use irssi_xmpp.Servers.Connect.{or_empty}

-- The error of set_ssl, or the call.
unfoldable pub ssl_error : Bool → Option Str
ssl_error supported = if supported then none else some (codes "SSL is not supported in this build")

abbrev pub ssl_calls : Bool → Bool → List Call
ssl_calls supported use_starttls = if supported then set_ssl use_starttls ∷ [] else []

is_http : World → Option Str → Bool
is_http w none = false
is_http w (some type) = is_zero (w.glib.ascii_strcasecmp type (codes "http"))

-- The error of set_proxy.
unfoldable pub proxy_error : World → Option Str
unfolding is_http
proxy_error w =
    if not (is_http w w.xmpp_proxy_type)
    then some (codes "Invalid proxy type")
    else if is_empty w.xmpp_proxy_address
    then some (codes "Proxy address not specified")
    else if is_pos w.xmpp_proxy_port
    then none
    else some (codes "Invalid proxy port range")

-- A user or a password is set where it is not empty.
filled : World → Option Str → Option Str
unfolding xmpp_recode_out
filled w s = if is_empty s then none else xmpp_recode_out w.charsets s

pub proxy_calls : World → List Call
unfolding filled
proxy_calls w =
    set_proxy (or_empty w.xmpp_proxy_address) w.xmpp_proxy_port (filled w w.xmpp_proxy_user)
      (filled w w.xmpp_proxy_password)
    ∷ []

-- The label `err`, with the error's message, or the text where there is no error.
unfoldable pub connect_gave_up : Option Str → Str → Server → Server
connect_gave_up none text s =
    calling (record s { connection_lost = true }) (connect_failed (some text) ∷ [])
connect_gave_up (some message) text s =
    calling (record s { connection_lost = true }) (connect_failed (some message) ∷ [])

-- An error that was there before stays.
abbrev pub first_error : Option Str → Option Str → Option Str
first_error none e = e
first_error (some e) f = some e

-- What lm_connection_open does: it fails, with an error or without.
pub data Opened : Type 0 where
  opening : Opened
  not_opened : Option Str → Opened

unfoldable pub open_attempted : Opened → Option Str → Server → Server
unfolding connect_gave_up
open_attempted opened error s =
    let looking : Server = record s { lookup = true; timeout_tag = true } in
    let tried = calling looking (server_looking ∷ timeout_add ∷ lm_open ∷ []) in
    elim opened [
      | opening ↦ tried
      | not_opened e ↦ connect_gave_up (first_error error e) (codes "Connection failed") tried
    ]

-- With a proxy where the settings ask for one. `error` is one that set_ssl left.
unfoldable pub proxied : World → Opened → Option Str → Server → Server
unfolding proxy_error proxy_calls open_attempted connect_gave_up
proxied w opened error s =
    let through : Server = elim (proxy_error w) [
      | some e ↦ connect_gave_up (some e) (codes "Cannot set proxy") s
      | none ↦ open_attempted opened error (calling s (proxy_calls w))
    ] in
    if w.xmpp_use_proxy then through else open_attempted opened error s

-- `supported` is lm_ssl_is_supported. STARTTLS goes on without it, and keeps the error.
unfoldable pub xmpp_server_connect : World → Bool → Opened → Server → Server
unfolding ssl_error proxied connect_gave_up
xmpp_server_connect w supported opened s =
    let tls = proxied w opened none (calling s (ssl_calls supported false)) in
    let no_tls = connect_gave_up (ssl_error supported) (codes "Cannot init ssl") s in
    let starttls = proxied w opened (ssl_error supported) (calling s (ssl_calls supported true)) in
    if not s.connrec.use_tls then starttls else if supported then tls else no_tls
