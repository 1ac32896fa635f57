-- ===== src/Datastore/Entry.antt =====
-- The entries (scrutiny/server/datastore/datastore_entry.py and entry_type.py). Identifiers and display
-- paths are numbers: the model only compares them.
use scrutiny.Prelude.{ℕ, Bool, false, List, [], ◌∷◌, ◌==◌, ◌||◌, if◌then◌else◌}

pub data EntryType : Type 0 where
  var rpv alias : EntryType

-- Identifier and display path; an alias also refers to an entry.
pub data Entry : Type 0 where
  variable : ℕ → ℕ → Entry
  published : ℕ → ℕ → Entry
  alias_of : ℕ → ℕ → Entry → Entry

unfoldable pub get_id : Entry → ℕ
get_id (variable id path) = id
get_id (published id path) = id
get_id (alias_of id path e) = id

unfoldable pub get_display_path : Entry → ℕ
get_display_path (variable id path) = path
get_display_path (published id path) = path
get_display_path (alias_of id path e) = path

unfoldable pub get_type : Entry → EntryType
get_type (variable id path) = EntryType.var
get_type (published id path) = EntryType.rpv
get_type (alias_of id path e) = EntryType.alias

-- An alias of an alias refers to what that one refers to.
unfoldable pub resolve : Entry → Entry
resolve (variable id path) = variable id path
resolve (published id path) = published id path
resolve (alias_of id path e) = resolve e

-- The names of watchers: those of the clients, and `alias_` with the identifier of an alias.
pub data Watcher : Type 0 where
  client : ℕ → Watcher
  owner_of_alias : ℕ → Watcher

unfoldable pub same_watcher : Watcher → Watcher → Bool
same_watcher (client a) (client b) = a == b
same_watcher (owner_of_alias a) (owner_of_alias b) = a == b
same_watcher _ _ = false

-- Sets of watchers are lists without order.
unfoldable pub has_watcher : Watcher → List Watcher → Bool
unfolding same_watcher
has_watcher w [] = false
has_watcher w (v ∷ vs) = same_watcher w v || has_watcher w vs

unfoldable pub add_watcher : Watcher → List Watcher → List Watcher
unfolding has_watcher
add_watcher w ws = if has_watcher w ws then ws else w ∷ ws

unfoldable pub remove_watcher : Watcher → List Watcher → List Watcher
unfolding same_watcher
remove_watcher w [] = []
remove_watcher w (v ∷ vs) =
    let rest = remove_watcher w vs in if same_watcher w v then rest else v ∷ rest
