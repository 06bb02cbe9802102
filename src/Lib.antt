-- ===== src/Lib.antt =====
-- irssi-xmpp: an XMPP plugin for the IRC client irssi. This library models its core.
--
-- Parts, and the files that model them:
--
--   Tools (src/core/tools.c): the parts of a Jabber ID, recoding, tests on presences.
--   Roster (src/core/rosters.h, rosters.c, rosters-tools.c): contacts by groups, the resources of
--     each contact, and what roster items and presences of the server do to them. Compare has the
--     comparison functions, Find the searches, Store the writes through pointers, Update the roster
--     items (update_user), Presences the presences (update_user_presence, user_unavailable,
--     user_presence_error; Heard says what a list of resources is after one), Handlers the handlers of stanzas (sig_recv_iq, sig_recv_presence).
--   Datalist (src/core/xep/tool_datalist.c): data kept for pairs of a server and a JID.
--   Loudmouth (src/core/loudmouth-tools.c): the search for a node in a stanza.
--   Disco (src/core/xep/disco.c): the features one announces and those of others. Listed says what the
--     search for a feature finds.
--   Servers (src/core/xmpp-servers.h, xmpp-servers.c, xmpp-servers-reconnect.c): servers and their
--     connections. Open has the attempt to connect, Connect the callbacks of Loudmouth, Reconnect what
--     is kept for a new connection, Identity and Steps what holds of one's JID and of the steps in any
--     order.
--   Datetime (src/core/xep/datetime.c): the time of a stamp, and zones.
--   Completion (src/fe-common/xmpp-completion.c): the words offered for what is typed. Commands has the
--     handlers, Jids and Nicks what the lists offered hold, and in what order.
--   Registration (src/core/xep/registration.c): accounts registered at a server. Start has the
--     start of a registration, Commands the commands, Settled what holds of connections and
--     registrations, Kept what the callbacks keep, Steps commands and callbacks in any order.
--   Dispatch (src/core/stanzas.c): stanzas received and sent, by their type.
--   Composing (src/core/xep/composing.c, chatstates.c): who is composing a message. Asked says who is
--     told that one is.
--   Loudmouth.Elements: stanzas that the code builds.
--   Muc (src/core/xep/muc-affiliation.c, muc-role.c, muc-nicklist.c, muc-events.c): chat rooms. Modes
--     has affiliations and roles, Nicks the hash table of nicks, Room the topic and errors, Events what
--     happens to nicks, Flags the flags that follow from a nick's modes, Placed the shape of the hash
--     table, Stanzas and Messages the handlers of presences, messages and replies from a room.
--     muc-commands.c is not modelled.
--   Muc.Requests (src/core/xep/muc.c, muc-reconnect.c): joining, leaving and finding rooms. Admin has
--     what an owner or an admin asks, Features the mode that follows from a room's features, Connected
--     the rooms joined on connecting, Reconnect the rooms kept for a new connection (muc-reconnect.c),
--     Invite the invitations of muc-events.c, JoinData and Rooms what holds of the lines and names of
--     rooms.
--
-- A function of the C code is the definition of the same name. A struct is a record; code that
-- changes one takes it and returns the new value. What the code holds by pointer and changes later
-- has its address in a field, and a write goes to the record at that address. A pointer that may be
-- NULL is an Option; an argument that the code asserts not to be NULL (g_return_val_if_fail) is
-- not. Freeing memory takes the value out of its list. A signal that the code emits is appended to a
-- list of signals; what other handlers of that signal do is no part of the operation. An `int` is an
-- integer that an `int` holds: `int_of` (Prelude.Int) cuts a result to 32 bits where it may not fit, in
-- atoi and in the difference of two priorities.
--
-- Of GLib, a GSList is a list; comparing without case, stripping, sorting and inserting in order are
-- parameters (Glib) with the laws that GLib documents, and Glib.Concrete meets them. Of the C
-- library, strcmp, strncmp and atoi are defined in Prelude.Str; strptime and mktime are parameters. The
-- roster is compared up to the order of its groups and contacts: `how_many p` counts the contacts with
-- a property of their group's name and their own fields, so an equation for every p says what the
-- roster holds.
--
-- Of irssi, the functions on a room's nicks (nicklist_find, nicklist_insert, nicklist_remove,
-- nicklist_set_own) are parameters (Irssi) with the laws of its hash table of chains, and
-- Muc.Sample.hash_table meets them; its reading of two parameters, the last with the rest of the
-- line (cmd_get_params), is a parameter with the laws of Muc.Requests.JoinData; its channel_init is the
-- new record. Other calls of irssi are kept in the list of calls. Of Loudmouth,
-- the nodes of a stanza and the functions that read them are parameters. A read through NULL or past
-- the end of a chain makes the result none.
--
-- Not modelled: the commands of xmpp-commands.c and muc-commands.c, the other extensions
-- under src/core/xep, and the rest of the front ends under src/fe-common and src/fe-text.
--
-- Every loop is a recursion on a list, so no fuel is used.
pub mod Prelude
pub mod Glib
pub mod Tools
pub mod Datalist
pub mod Roster
pub mod Loudmouth
pub mod Disco
pub mod Datetime
pub mod Servers
pub mod Dispatch
pub mod Composing
pub mod Completion
pub mod Registration
pub mod Muc
