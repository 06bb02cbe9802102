-- ===== src/Datalist/Refines.antt =====
-- A data list and any sequence of calls on it, against a partial map.
use mathlib.Core.Path.{fun_ext}
use irssi_xmpp.Prelude.{ℕ, ◌≡◌, refl, ap, ◌∙◌, none, List, [], ◌∷◌, arith, find_first}
use irssi_xmpp.Prelude.Str.{Str}
use irssi_xmpp.Datalist.{Datalist, datalist_new}
use irssi_xmpp.Datalist.View.{
  Map, Call, view, call, called, HasUniqueKeys, view-call, call-HasUniqueKeys,
}

module _ {D : Type 0} where
  unfoldable pub calls : Datalist D → List (Call D) → Datalist D
  unfolding call
  calls dl [] = dl
  calls dl (c ∷ cs) = calls (call dl c) cs

  abbrev pub all_called : Map D → List (Call D) → Map D
  all_called m [] = m
  all_called m (c ∷ cs) = all_called (called m c) cs

  view-calls :
      (dl : Datalist D) (cs : List (Call D))
      → HasUniqueKeys dl
      → view (calls dl cs) ≡ all_called (view dl) cs
  unfolding calls
  view-calls dl [] u = refl
  view-calls dl (c ∷ cs) u =
      view-calls (call dl c) cs (call-HasUniqueKeys dl c u)
      ∙ ap (λ (m : Map D). all_called m cs)
          (fun_ext (λ server. fun_ext (λ jid. view-call dl c server jid u)))

-- After any sequence of calls on a new list, a search for any server and JID finds what the same
-- calls make of the empty partial map.
pub calls-refine :
    (D : Type 0) (cs : List (Call D)) (server : ℕ) (jid : Str)
    → view (calls (datalist_new D) cs) server jid ≡ all_called (λ s j. none) cs server jid
calls-refine D cs server jid =
    ap (λ (m : Map D). m server jid)
      (view-calls (datalist_new D) cs empty_unique ∙ ap (λ (m : Map D). all_called m cs) empty_view)
  where
    empty_unique : HasUniqueKeys (datalist_new D)
    empty_unique = unfold datalist_new in λ s j. omega arith

    empty_view : view (datalist_new D) ≡ (λ s j. none)
    empty_view = unfold view datalist_new find_first in refl
