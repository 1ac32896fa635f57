-- ===== src/Datastore/Tests.antt =====
-- The datastore (scrutiny/server/datastore/datastore.py) in small runs.
use scrutiny.Prelude.{ℕ, ◌/◌, ◌≡◌, refl, true, some, [], ◌∷◌, ok, err, value_error, key_error}
use scrutiny.Prelude.Dict
use scrutiny.Datastore.Entry
use scrutiny.Datastore.Entry.{Entry, Watcher, has_watcher}
use scrutiny.Datastore.State
use scrutiny.Datastore.State.{Datastore, UpdateTargetRequest, get_entry, add_entry, store_entry}
use scrutiny.Datastore.Watching.{watchers_of, start_watching, stop_watching}
use scrutiny.Datastore.Updating.{update_target_value}
use scrutiny.Datastore.Aliases.{stop_watching-start_watching}

abbrev speed : Entry
speed = Entry.variable 1 10

abbrev speed_in_percent : Entry
speed_in_percent = Entry.alias_of 2 20 speed

abbrev store : Datastore ℕ
store = store_entry (store_entry State.new speed) speed_in_percent

-- An alias is refused before what it refers to is there, and no identifier is taken twice.
refused :
    (add_entry {V = ℕ} State.new speed_in_percent ≡ err key_error)
    × (add_entry {V = ℕ} (store_entry State.new speed) speed ≡ err value_error)
unfolding add_entry State.new Dict.get Dict.empty Dict.count Dict.put
refused = (refl, refl)

stop_watching-start_watching_example :
    (has_watcher
        (Watcher.owner_of_alias 2)
        (watchers_of (start_watching store 2 (Watcher.client 7) true).0 speed)
      ≡ true)
    × ((start_watching store 2 (Watcher.client 7) true).2 ≡ ok tt)
    × ((stop_watching (start_watching store 2 (Watcher.client 7) true).0 2 (Watcher.client 7)).2
        ≡ ok tt)
    × (watchers_of
          (stop_watching (start_watching store 2 (Watcher.client 7) true).0 2 (Watcher.client 7)).0
          speed_in_percent
        ≡ [])
    × (watchers_of
          (stop_watching (start_watching store 2 (Watcher.client 7) true).0 2 (Watcher.client 7)).0
          speed
        ≡ watchers_of store speed)
unfolding State.new get_entry Dict.get store_entry Dict.put Dict.empty Entry.resolve watchers_of
    has_watcher
stop_watching-start_watching_example =
    stop_watching-start_watching store 2 20 speed (Watcher.client 7) true refl refl refl refl

-- The update of an alias is one of what it refers to.
abbrev halved : Entry → ℕ → ℕ
halved e n = n / 2

update :
    update_target_value halved store 9 2 100
    ≡ ok (record store {
      target_update_request_queue =
          record { ticket = 9; value = 50; entry = speed; alias = some speed_in_percent } ∷ [];
    })
unfolding update_target_value get_entry Dict.get store_entry Dict.put State.new Dict.empty
update = refl
