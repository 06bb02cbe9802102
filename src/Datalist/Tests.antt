-- ===== src/Datalist/Tests.antt =====
-- A data list on concrete calls.
use irssi_xmpp.Prelude.{ℕ, ◌==◌, ◌≡◌, refl, Bool, none, some, List, [], ◌∷◌, count}
use irssi_xmpp.Prelude.Str.{codes}
use irssi_xmpp.Datalist.{
  datalist_new, datalist_add, datalist_remove, datalist_cleanup, datalist_destroy,
}
use irssi_xmpp.Datalist.View.{Call, view}
use irssi_xmpp.Datalist.Refines.{calls, all_called, calls-refine}
use irssi_xmpp.Datalist.Freed.{all_handed, destroy_frees_all}

abbrev script : List (Call ℕ)
script =
    Call.add 1 (codes "a") 10
    ∷ Call.add 1 (codes "b") 11
    ∷ Call.add 1 (codes "a") 12
    ∷ Call.add 2 (codes "a") 13
    ∷ Call.remove 1 (codes "b")
    ∷ Call.cleanup (some 2)
    ∷ []

script_runs :
    (view (calls (datalist_new ℕ) script) 1 (codes "a") ≡ some 12)
    × (view (calls (datalist_new ℕ) script) 2 (codes "a") ≡ none)
unfolding view calls datalist_new datalist_add datalist_remove datalist_cleanup
script_runs = (refl, refl)

calls-refine_example :
    view (calls (datalist_new ℕ) script) 1 (codes "a")
    ≡ all_called (λ s j. none) script 1 (codes "a")
calls-refine_example = calls-refine ℕ script 1 (codes "a")

abbrev is_ten : ℕ → Bool
is_ten d = d == 10

destroy_frees_all_example :
    ((datalist_destroy (calls (datalist_new ℕ) script)).list ≡ [])
    × (count is_ten (datalist_destroy (calls (datalist_new ℕ) script)).freed
        ≡ all_handed is_ten script)
destroy_frees_all_example = destroy_frees_all is_ten script
