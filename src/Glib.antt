-- ===== src/Glib.antt =====
-- What the code relies on of GLib beyond lists: comparing without case, and keeping a list sorted.
-- The operations are parameters of every definition that uses them; the laws are what GLib's
-- manual says of `g_ascii_strcasecmp`, `g_ascii_strncasecmp`, `g_slist_sort` and
-- `g_slist_insert_sorted`.
mod Concrete
mod Defs
mod Sums
pub use Defs.*
pub use Sums.*
unfoldable pub use Concrete.{concrete}
