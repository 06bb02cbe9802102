-- ===== src/Muc/Room.antt =====
-- src/core/xep/muc-events.c: the topic of a room, and errors.
use irssi_xmpp.Prelude.{
  Bool, true, false, not, ◌&&◌, Option, none, some, List, [], ◌∷◌, ◌++◌, if◌then◌else◌,
}
use irssi_xmpp.Prelude.Int.{ℤ, pos, eqb_ℤ}
use irssi_xmpp.Prelude.Str.{Str, str_eq, atoi}
use irssi_xmpp.Muc.{
  Call, channel_topic_changed, channel_destroy, message_topic, event_332, send_join, muc_error,
  muc_joinerror, message_nick_in_use, muc_destroyerror, Channel,
}

abbrev pub calling : Channel → List Call → Channel
calling channel l = record channel { calls = channel.calls ++ l }

abbrev pub is_empty : Str → Bool
is_empty [] = true
is_empty (c ∷ s) = false

-- `s != NULL && *s != '\0'`
abbrev pub non_empty : Option Str → Option Str
non_empty none = none
non_empty (some []) = none
non_empty (some (c ∷ s)) = some (c ∷ s)

abbrev pub or_empty : Option Str → Str
or_empty none = []
or_empty (some s) = s

-- `a != NULL && b != NULL && strcmp(a, b) == 0`
same_text : Option Str → Option Str → Bool
unfolding str_eq
same_text none b = false
same_text (some a) none = false
same_text (some a) (some b) = str_eq a b

topic_line : Channel → Option Str → Str
topic_line channel text = b' ' ∷ channel.name ++ b' ' ∷ b':' ∷ or_empty text

topic_calls : Channel → Option Str → Option Str → List Call
unfolding topic_line
topic_calls channel text none = event_332 (topic_line channel text) ∷ []
topic_calls channel text (some nickname) =
    if channel.joined && not (is_empty nickname)
    then message_topic (or_empty text) nickname ∷ []
    else event_332 (topic_line channel text) ∷ []

unfoldable pub topic : Channel → Option Str → Option Str → Channel
unfolding same_text topic_calls
topic channel text nickname =
    if same_text channel.topic text
    then channel
    else calling (record channel { topic = non_empty text; topic_by = nickname })
        (channel_topic_changed ∷ topic_calls channel (non_empty text) nickname)

-- `code != NULL ? atoi(code) : MUC_ERROR_UNKNOWN`
abbrev pub error_code : Option Str → ℤ
unfolding atoi
error_code none = pos 0
error_code (some code) = atoi code

unfoldable pub error_message : Channel → Option Str → Channel
error_message channel code =
    if eqb_ℤ (error_code code) (pos 401) then calling channel (muc_error ∷ []) else channel

-- `altnick`, where the setting has one that differs from the nick just refused; else that nick with
-- an underscore.
unfoldable pub next_nick : Option Str → Str → Str
unfolding str_eq
next_nick none nick = nick ++ b'_' ∷ []
next_nick (some []) nick = nick ++ b'_' ∷ []
next_nick (some (c ∷ s)) nick = if str_eq nick (c ∷ s) then nick ++ b'_' ∷ [] else c ∷ s

-- `nick != NULL && strcmp(nick, channel->nick) != 0`
unfoldable pub of_another : Option Str → Str → Bool
unfolding str_eq
of_another none nick = false
of_another (some n) nick = not (str_eq n nick)

-- `alternate_nick` is the setting of that name.
unfoldable pub error_join : Option Str → Channel → Option Str → Option Str → Channel
unfolding next_nick
error_join alternate_nick channel code nick =
    if of_another nick channel.nick
    then channel
    else let error = error_code code in
      let altnick = next_nick alternate_nick channel.nick in
      let renamed : Channel = record channel { nick = altnick } in
      if eqb_ℤ error (pos 406)
      then calling renamed (muc_joinerror error ∷ send_join altnick ∷ [])
      else if eqb_ℤ error (pos 409)
      then calling renamed (muc_joinerror error ∷ send_join altnick ∷ [])
      else calling channel (muc_joinerror error ∷ channel_destroy ∷ [])

unfoldable pub error_presence : Channel → Option Str → Option Str → Channel
error_presence channel code nick =
    if eqb_ℤ (error_code code) (pos 409)
    then calling channel (message_nick_in_use nick ∷ [])
    else channel

unfoldable pub error_destroy : Channel → Option Str → Option Str → Channel
error_destroy channel code reason =
    if eqb_ℤ (error_code code) (pos 403)
    then calling channel (muc_destroyerror reason ∷ [])
    else channel
