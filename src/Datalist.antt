-- ===== src/Datalist.antt =====
-- src/core/xep/tool_datalist.c: data kept for pairs of a server and a JID.
--
-- A server is its address, and `freed` lists the data that `freedata_func` was called on, in order.
pub mod View
pub mod Refines
pub mod Freed
mod Tests
use irssi_xmpp.Prelude.{
  ℕ, ◌==◌, Bool, true, false, ◌&&◌, Option, none, some, List, [], ◌∷◌, ◌++◌, if◌then◌else◌,
  find_first, remove_first, update_first,
}
use irssi_xmpp.Prelude.Str.{Str, str_eq}

pub record Rec (D : Type 0) : Type 0 where
  pub server : ℕ
  pub jid : Str
  pub content : D

pub record Datalist (D : Type 0) : Type 0 where
  pub list : List (Rec D)
  pub freed : List D

-- `server == NULL || rec->server == server`
abbrev pub matches_server : Option ℕ → ℕ → Bool
matches_server none s = true
matches_server (some server) s = s == server

module _ {D : Type 0} where
  pub is_rec : ℕ → Str → Rec D → Bool
  unfolding str_eq
  is_rec server jid r = r.server == server && str_eq r.jid jid

  unfoldable pub datalist_find : Datalist D → ℕ → Str → Option (Rec D)
  unfolding is_rec find_first
  datalist_find dl server jid = find_first (is_rec server jid) dl.list

  -- The record that was found is the first that fits, so a write through its pointer is a write to
  -- that one; else a new record goes to the front.
  unfoldable pub datalist_add : Datalist D → ℕ → Str → D → Datalist D
  unfolding datalist_find update_first
  datalist_add dl server jid content = elim (datalist_find dl server jid) [
    | some r ↦ record {
      list = update_first (is_rec server jid) (λ x. record x { content = content }) dl.list;
      freed = dl.freed ++ r.content ∷ [];
    }
    | none ↦ record {
      list = record { server = server; jid = jid; content = content } ∷ dl.list;
      freed = dl.freed;
    }
  ]

  -- `datalist_free` on the record that was found.
  unfoldable pub datalist_remove : Datalist D → ℕ → Str → Datalist D
  unfolding datalist_find remove_first
  datalist_remove dl server jid = elim (datalist_find dl server jid) [
    | some r ↦ record {
      list = remove_first (is_rec server jid) dl.list;
      freed = dl.freed ++ r.content ∷ [];
    }
    | none ↦ dl
  ]

  -- The loop: what stays in the list, and what is freed, in order.
  kept : Option ℕ → List (Rec D) → List (Rec D)
  kept server [] = []
  kept server (r ∷ l) =
      let rest = kept server l in if matches_server server r.server then rest else r ∷ rest

  dropped : Option ℕ → List (Rec D) → List D
  dropped server [] = []
  dropped server (r ∷ l) =
      let rest = dropped server l in
      if matches_server server r.server then r.content ∷ rest else rest

  unfoldable pub datalist_cleanup : Datalist D → Option ℕ → Datalist D
  unfolding kept dropped
  datalist_cleanup dl server = record {
    list = kept server dl.list;
    freed = dl.freed ++ dropped server dl.list;
  }

unfoldable pub datalist_new : (D : Type 0) → Datalist D
datalist_new D = record { list = []; freed = [] }

-- The list after `datalist_destroy`, and all that was freed.
pub datalist_destroy : {D : Type 0} → Datalist D → Datalist D
datalist_destroy dl = datalist_cleanup dl none
