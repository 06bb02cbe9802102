-- ===== src/Muc/Tests.antt =====
-- The theorems on chat rooms, applied to a room with two nicks.
use irssi_xmpp.Prelude.{
  ◌≡◌, ◌≢◌, ◌⊎◌, refl, false, none, some, List, [], ◌∷◌, find_first, remove_first, arith,
}
use irssi_xmpp.Prelude.Int.{pos}
use irssi_xmpp.Prelude.Str.{Str, codes, str_eq}
use irssi_xmpp.Glib.{concrete}
use irssi_xmpp.Muc.{muc_joinerror, send_join, channel_destroy, Channel, put, at_nick, Nick}
use irssi_xmpp.Muc.Sample.{hash_table, alice, bob, two_nicks, joined_room, new_room, put_each}
use irssi_xmpp.Muc.Modes.{xmpp_nicklist_get_affiliation, xmpp_nicklist_get_role}
use irssi_xmpp.Muc.Nicks.Removal.{HasKey, IsKeyed}
use irssi_xmpp.Muc.Nicks.Rename.{StandsOnce, moved, renamed_to}
use irssi_xmpp.Muc.Room.{error_code, of_another, error_join}
use irssi_xmpp.Muc.Events.{nick_changed, nick_event}
use irssi_xmpp.Muc.Events.Outcome.{HasModes, nick_event_modes, error_join_lem}
use irssi_xmpp.Muc.Events.Joining.{nick_changed_lem}

abbrev only_bob : Str → List Nick
only_bob = put (codes "bob") (bob ∷ []) (λ k. [])

two_nicks-IsKeyed : IsKeyed hash_table two_nicks
unfolding hash_table
two_nicks-IsKeyed =
    put_each (HasKey hash_table) (codes "alice") (alice ∷ []) only_bob (refl, tt)
      (λ k h.
        put_each (HasKey hash_table) (codes "bob") (bob ∷ []) (λ k. []) (refl, tt) (λ k h. tt) k)

abbrev NoBob : Str → List Nick → Type 0
NoBob k l = str_eq k (codes "bob") ≡ false → find_first (at_nick 2) l ≡ none

bob-StandsOnce : StandsOnce hash_table two_nicks bob
unfolding hash_table find_first remove_first at_nick put str_eq
bob-StandsOnce = (
  (bob, refl),
  put_each (λ k l. find_first (at_nick 2) l ≡ none) (codes "bob") [] two_nicks refl
      (λ k h.
        put_each NoBob (codes "alice") (alice ∷ []) only_bob (λ e. refl)
          (λ j g.
            put_each NoBob (codes "bob") (bob ∷ []) (λ i. []) (λ e. ground arith) (λ i f e. refl) j)
          k h),
)

nick_changed_lem_example :
    (c : Channel) × (nick_changed hash_table joined_room (some (codes "bob")) (some (codes "rob"))
      ≡ some c)
    × (c.nicks ≡ moved hash_table two_nicks bob (renamed_to (codes "rob") bob) false)
    × (c.nick ≡ codes "alice")
unfolding hash_table put
nick_changed_lem_example =
    nick_changed_lem hash_table joined_room (codes "bob") (codes "rob") bob two_nicks-IsKeyed
      bob-StandsOnce refl

nick_event_modes_example :
    HasModes hash_table
      (nick_event concrete hash_table joined_room
        (codes "bob")
        none
        (some (codes "member"))
        (some (codes "visitor"))).nicks
      (codes "bob")
      (xmpp_nicklist_get_affiliation concrete (some (codes "member")))
      (xmpp_nicklist_get_role concrete (some (codes "visitor")))
nick_event_modes_example =
    nick_event_modes concrete hash_table joined_room (codes "bob") none (some (codes "member"))
      (some (codes "visitor"))

error_join_lem_example :
    let c = error_join (some (codes "alice")) new_room (some (codes "409")) none in
    (((error_code (some (codes "409")) ≡ pos 406) ⊎ (error_code (some (codes "409")) ≡ pos 409))
      × (c.nick ≢ codes "alice")
      × (c.calls ≡ muc_joinerror (error_code (some (codes "409"))) ∷ send_join c.nick ∷ []))
    ⊎ ((c.nick ≡ codes "alice")
        × (error_code (some (codes "409")) ≢ pos 406)
        × (error_code (some (codes "409")) ≢ pos 409)
        × (c.calls ≡ muc_joinerror (error_code (some (codes "409"))) ∷ channel_destroy ∷ []))
unfolding of_another
error_join_lem_example =
    error_join_lem (some (codes "alice")) new_room (some (codes "409")) none refl
