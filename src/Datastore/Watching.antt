-- ===== src/Datastore/Watching.antt =====
-- Who watches an entry (scrutiny/server/datastore/datastore.py). Whoever watches an alias makes the
-- datastore itself watch the entry behind it.
use scrutiny.Prelude.{
  ℕ, zero, suc, Bool, true, Option, some, none, List, [], ◌∷◌, ◌++◌, map, ◌&&◌, not, if◌then◌else◌,
  Result, ok, err, out_of_fuel, ◌>>=◌,
}
use scrutiny.Prelude.Dict
use scrutiny.Prelude.Dict.{Dict}
use scrutiny.Datastore.Entry.{
  EntryType, Entry, get_id, get_type, resolve, Watcher, has_watcher, add_watcher, remove_watcher,
}
use scrutiny.Datastore.State.{select, replace, Datastore, get_entry}

-- The calls of all the global callbacks, with the identifier.
pub data Event : Type 0 where
  watch_callbacks unwatch_callbacks : ℕ → Event

abbrev pub Outcome : Type 0 → Type 0
Outcome V = Datastore V × List Event × Result (Unit {0})

abbrev pub or_empty : Option (List Watcher) → List Watcher
or_empty none = []
or_empty (some ws) = ws

module _ {V : Type 0} where
  unfoldable pub watchers_of : Datastore V → Entry → List Watcher
  unfolding select get_type get_id
  watchers_of d e = or_empty (Dict.get (select (get_type e) d.watcher_map) (get_id e))

  unfoldable pub set_watchers : Datastore V → Entry → List Watcher → Datastore V
  unfolding select replace get_type get_id
  set_watchers d e ws = record d {
    watcher_map =
        replace (get_type e) (Dict.put (select (get_type e) d.watcher_map) (get_id e) ws)
          d.watcher_map;
  }

  unfoldable pub has_value_change_callback : Datastore V → Entry → Watcher → Bool
  has_value_change_callback d e w =
      has_watcher w (or_empty (Dict.get d.value_change_callback (get_id e)))

  -- Behind the test that the watcher has none.
  unfoldable pub register_value_change_callback : Datastore V → Entry → Watcher → Datastore V
  register_value_change_callback d e w = record d {
    value_change_callback =
        Dict.put d.value_change_callback (get_id e)
          (or_empty (Dict.get d.value_change_callback (get_id e)) ++ (w ∷ []));
  }

  unfoldable pub unregister_value_change_callback : Datastore V → Entry → Watcher → Datastore V
  unregister_value_change_callback d e w = record d {
    value_change_callback =
        Dict.put d.value_change_callback (get_id e)
          (remove_watcher w (or_empty (Dict.get d.value_change_callback (get_id e))));
  }

  -- What happens to the entry itself; `given` tells whether there is a callback for its values.
  unfoldable pub watch : Datastore V → Entry → Watcher → Bool → Datastore V
  unfolding watchers_of set_watchers has_value_change_callback register_value_change_callback
  watch d e w given =
      let d' = set_watchers d e (add_watcher w (watchers_of d e)) in
      if given && not (has_value_change_callback d' e w)
      then register_value_change_callback d' e w
      else d'

  -- The entry that was found is watched, and behind an alias what it refers to.
  unfoldable pub start_entry :
      (Datastore V → ℕ → Watcher → Bool → Outcome V)
      → Datastore V
      → ℕ
      → Watcher
      → Bool
      → Result Entry
      → Outcome V
  unfolding watch resolve
  start_entry again d id w given (err x) = (d, [], err x)
  start_entry again d id w given (ok (Entry.alias_of id' path e)) =
      let (d', told, out) =
        again (watch d (Entry.alias_of id' path e) w given) (get_id (resolve e))
          (Watcher.owner_of_alias id') true in
      (d', Event.watch_callbacks id ∷ told, out)
  start_entry again d id w given (ok e) = (watch d e w given, Event.watch_callbacks id ∷ [], ok tt)

  -- On fuel: the entry behind an alias is none, so two rounds are enough.
  unfoldable pub start_watching_on : ℕ → Datastore V → ℕ → Watcher → Bool → Outcome V
  unfolding start_entry
  start_watching_on zero d id w given = (d, [], err out_of_fuel)
  start_watching_on (suc fuel) d id w given =
      start_entry (start_watching_on fuel) d id w given (get_entry d id)

  unfoldable pub start_watching : Datastore V → ℕ → Watcher → Bool → Outcome V
  unfolding start_watching_on
  start_watching d id w given = start_watching_on 2 d id w given

  unfoldable pub get_watchers : Datastore V → ℕ → Result (List Watcher)
  unfolding watchers_of
  get_watchers d id = do e ← get_entry d id; ok (watchers_of d e)

  unfoldable pub is_watching : Datastore V → ℕ → Watcher → Result Bool
  unfolding get_watchers
  is_watching d id w = do ws ← get_watchers d id; ok (has_watcher w ws)

  unfoldable pub forget : Datastore V → Entry → Datastore V
  unfolding select replace get_type get_id
  forget d e = record d {
    watcher_map =
        replace (get_type e) (Dict.remove (select (get_type e) d.watcher_map) (get_id e))
          d.watcher_map;
  }

  -- What is left once a watcher is taken off. The last one takes the entry off, and the datastore no
  -- longer watches what an alias refers to; an exception of that is suppressed.
  unfoldable pub leave :
      (Datastore V → ℕ → Watcher → Outcome V)
      → Datastore V
      → Entry
      → List Watcher
      → Datastore V × List Event
  unfolding forget set_watchers resolve
  leave again d e (v ∷ vs) = (set_watchers d e (v ∷ vs), [])
  leave again d (Entry.alias_of id path e) [] =
      let (d', told, out) =
        again (forget d (Entry.alias_of id path e)) (get_id (resolve e))
          (Watcher.owner_of_alias id) in
      (d', told)
  leave again d e [] = (forget d e, [])

  unfoldable pub unwatch :
      (Datastore V → ℕ → Watcher → Outcome V)
      → Datastore V
      → Entry
      → Watcher
      → Option (List Watcher)
      → Datastore V × List Event
  unfolding leave
  unwatch again d e w none = (d, [])
  unwatch again d e w (some ws) = leave again d e (remove_watcher w ws)

  unfoldable pub stop_entry :
      (Datastore V → ℕ → Watcher → Outcome V) → Datastore V → ℕ → Watcher → Result Entry → Outcome V
  unfolding unwatch unregister_value_change_callback select get_type get_id
  stop_entry again d id w (err x) = (d, [], err x)
  stop_entry again d id w (ok e) =
      let (d', told) =
        unwatch again d e w (Dict.get (select (get_type e) d.watcher_map) (get_id e)) in
      (unregister_value_change_callback d' e w, told ++ (Event.unwatch_callbacks id ∷ []), ok tt)

  -- On fuel, as `start_watching_on`.
  unfoldable pub stop_watching_on : ℕ → Datastore V → ℕ → Watcher → Outcome V
  unfolding stop_entry
  stop_watching_on zero d id w = (d, [], err out_of_fuel)
  stop_watching_on (suc fuel) d id w = stop_entry (stop_watching_on fuel) d id w (get_entry d id)

  unfoldable pub stop_watching : Datastore V → ℕ → Watcher → Outcome V
  unfolding stop_watching_on
  stop_watching d id w = stop_watching_on 2 d id w

  -- The identifiers that are watched at the start of the loop over a type.
  unfoldable pub stop_watching_each : Datastore V → List ℕ → Watcher → Outcome V
  unfolding stop_watching
  stop_watching_each d [] w = (d, [], ok tt)
  stop_watching_each d (id ∷ ids) w =
      let (d', told, out) = stop_watching d id w in
      elim out [
        | err x ↦ (d', told, err x)
        | ok done ↦ let (d'', more, out') = stop_watching_each d' ids w in (d'', told ++ more, out')
      ]

  unfoldable pub get_watched_entries_id : Datastore V → EntryType → List ℕ
  unfolding select
  get_watched_entries_id d t =
      map (λ (x : ℕ × List Watcher). x.0) (Dict.items (select t d.watcher_map))

  unfoldable pub stop_watching_types : Datastore V → List EntryType → Watcher → Outcome V
  unfolding stop_watching_each get_watched_entries_id
  stop_watching_types d [] w = (d, [], ok tt)
  stop_watching_types d (t ∷ ts) w =
      let (d', told, out) = stop_watching_each d (get_watched_entries_id d t) w in
      elim out [
        | err x ↦ (d', told, err x)
        | ok done ↦ let (d'', more, out') = stop_watching_types d' ts w in (d'', told ++ more, out')
      ]

  unfoldable pub stop_watching_all : Datastore V → Watcher → Outcome V
  unfolding stop_watching_types
  stop_watching_all d w =
      stop_watching_types d (EntryType.var ∷ EntryType.alias ∷ EntryType.rpv ∷ []) w
