-- ===== src/Datastore/State.antt =====
-- The state of `Datastore` (scrutiny/server/datastore/datastore.py) and what adds entries to it and finds
-- them.
use scrutiny.Prelude.{
  ℕ, ◌+◌, Bool, true, false, Option, some, none, List, [], leb, if◌then◌else◌, Result, ok, err,
  value_error, runtime_error, key_error,
}
use scrutiny.Prelude.Dict
use scrutiny.Prelude.Dict.{Dict}
use scrutiny.Datastore.Entry.{
  EntryType, Entry, get_id, get_display_path, get_type, resolve, Watcher,
}

-- A dict for each type of entry.
pub record Table (A : Type 0) : Type 0 where
  pub vars : Dict A
  pub aliases : Dict A
  pub rpvs : Dict A

module _ {A : Type 0} where
  unfoldable pub select : EntryType → Table A → Dict A
  select EntryType.var t = t.vars
  select EntryType.alias t = t.aliases
  select EntryType.rpv t = t.rpvs

  unfoldable pub replace : EntryType → Dict A → Table A → Table A
  replace EntryType.var d t = record t { vars = d }
  replace EntryType.alias d t = record t { aliases = d }
  replace EntryType.rpv d t = record t { rpvs = d }

  abbrev pub no_entries : Table A
  no_entries = record { vars = Dict.empty; aliases = Dict.empty; rpvs = Dict.empty }

-- `alias` is the alias whose own request completes with this one, if it was made for one.
pub record UpdateTargetRequest (V : Type 0) : Type 0 where
  pub ticket : ℕ
  pub value : V
  pub entry : Entry
  pub alias : Option Entry

-- The callbacks of an entry are kept by its identifier: those who registered one.
pub record Datastore (V : Type 0) : Type 0 where
  pub entries : Table Entry
  pub displaypath2idmap : Table ℕ
  pub watcher_map : Table (List Watcher)
  pub value_change_callback : Dict (List Watcher)
  pub target_update_request_queue : List (UpdateTargetRequest V)

-- MAX_ENTRY
abbrev pub max_entry : ℕ
max_entry = 1000000

abbrev pub is_some : {A : Type 0} → Option A → Bool
is_some none = false
is_some (some x) = true

-- The first of the results that is one.
abbrev first_of : Option Entry → Option Entry → Option Entry
first_of none later = later
first_of (some e) later = some e

unfoldable pub find : Table Entry → ℕ → Option Entry
find t id = first_of (Dict.get t.vars id) (first_of (Dict.get t.aliases id) (Dict.get t.rpvs id))

module _ {V : Type 0} where
  unfoldable pub new : Datastore V
  new = record {
    entries = no_entries;
    displaypath2idmap = no_entries;
    watcher_map = no_entries;
    value_change_callback = Dict.empty;
    target_update_request_queue = [];
  }

  unfoldable pub clear_type : EntryType → Datastore V → Datastore V
  unfolding replace
  clear_type t d = record d {
    entries = replace t Dict.empty d.entries;
    displaypath2idmap = replace t Dict.empty d.displaypath2idmap;
    watcher_map = replace t Dict.empty d.watcher_map;
  }

  -- All types, or the given one.
  unfoldable pub clear : Datastore V → Option EntryType → Datastore V
  unfolding clear_type
  clear d (some t) = clear_type t d
  clear d none = clear_type EntryType.rpv (clear_type EntryType.alias (clear_type EntryType.var d))

  unfoldable pub get_entries_count : Datastore V → ℕ
  get_entries_count d =
      Dict.count d.entries.vars + Dict.count d.entries.aliases + Dict.count d.entries.rpvs

  unfoldable pub get_entry : Datastore V → ℕ → Result Entry
  unfolding find
  get_entry d id = elim (find d.entries id) [ none ↦ err key_error | some e ↦ ok e ]

  -- The entry of a type that has the display path.
  unfoldable pub by_path : Datastore V → EntryType → ℕ → Option Entry
  unfolding select
  by_path d t path = elim (Dict.get (select t d.displaypath2idmap) path) [
    | none ↦ none
    | some id ↦ Dict.get (select t d.entries) id
  ]

  unfoldable pub get_entry_by_display_path : Datastore V → ℕ → Result Entry
  unfolding by_path
  get_entry_by_display_path d path =
      elim (first_of (by_path d EntryType.var path)
        (first_of (by_path d EntryType.alias path) (by_path d EntryType.rpv path))) [
          | none ↦ err key_error
          | some e ↦ ok e
        ]

  unfoldable pub store_entry : Datastore V → Entry → Datastore V
  unfolding select replace get_type get_id get_display_path
  store_entry d e = record d {
    entries =
        replace (get_type e) (Dict.put (select (get_type e) d.entries) (get_id e) e) d.entries;
    displaypath2idmap =
        replace (get_type e)
          (Dict.put (select (get_type e) d.displaypath2idmap) (get_display_path e) (get_id e))
          d.displaypath2idmap;
  }

  -- Whether what an alias refers to is there.
  unfoldable pub target_known : Datastore V → Entry → Bool
  unfolding select resolve get_type get_id
  target_known d (Entry.alias_of id path e) =
      is_some (Dict.get (select (get_type (resolve e)) d.entries) (get_id (resolve e)))
  target_known d _ = true

  unfoldable pub add_entry : Datastore V → Entry → Result (Datastore V)
  unfolding find get_entries_count target_known store_entry
  add_entry d e =
      if is_some (find d.entries (get_id e))
      then err value_error
      else if leb max_entry (get_entries_count d)
      then err runtime_error
      else if target_known d e
      then ok (store_entry d e)
      else err key_error
