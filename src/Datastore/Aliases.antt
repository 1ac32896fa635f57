-- ===== src/Datastore/Aliases.antt =====
-- Watching an alias and no longer watching it (scrutiny/server/datastore/datastore.py).
use scrutiny.Prelude.{
  ℕ, ◌≡◌, refl, ap, ◌∙◌, Bool, true, false, List, [], ◌∷◌, ◌++◌, ◌||◌, if_false, ok,
}
use scrutiny.Datastore.Entry.{Entry, get_id, resolve, Watcher, has_watcher, add_watcher}
use scrutiny.Datastore.State.{Datastore, get_entry}
use scrutiny.Datastore.Watching.{
  Event, Outcome, watchers_of, forget, watch, start_watching_on, start_entry, start_watching, leave,
  stop_entry, stop_watching_on, stop_watching, unregister_value_change_callback,
}
use scrutiny.Datastore.Hidden.{
  resolve-Plain, same_watcher_refl, remove_first, watchers_set, watchers_forgotten, watchers_apart,
  watch_watchers, found_in, start_behind, stop_found, leave_behind,
}

module _ {V : Type 0} (d : Datastore V) (id path : ℕ) (r : Entry) (w : Watcher) (given : Bool)
    (found : get_entry d id ≡ ok (Entry.alias_of id path r))
    (target : get_entry d (get_id (resolve r)) ≡ ok (resolve r))
    (alone : watchers_of d (Entry.alias_of id path r) ≡ [])
    (apart : has_watcher (Watcher.owner_of_alias id) (watchers_of d (resolve r)) ≡ false) where
  abbrev a : Entry
  a = Entry.alias_of id path r

  abbrev t : Entry
  t = resolve r

  abbrev owner : Watcher
  owner = Watcher.owner_of_alias id

  abbrev once : Datastore V
  once = watch d a w given

  abbrev twice : Datastore V
  twice = watch once t owner true

  once_alias : watchers_of once a ≡ w ∷ []
  unfolding add_watcher
  once_alias =
      (watch_watchers d a a w given).0
      ∙ (watchers_set d a (add_watcher w (watchers_of d a)) ∙ ap (add_watcher w) alone)

  once_target : watchers_of once t ≡ watchers_of d t
  once_target =
      (watch_watchers d a t w given).0
      ∙ (watchers_apart d id path r t (add_watcher w (watchers_of d a)) (resolve-Plain r)).0

  twice_alias : watchers_of twice a ≡ w ∷ []
  twice_alias =
      (watch_watchers once t a owner true).0
      ∙ ((watchers_apart once id path r t (add_watcher owner (watchers_of once t))
            (resolve-Plain r)).2
          ∙ once_alias)

  twice_target : watchers_of twice t ≡ owner ∷ watchers_of d t
  unfolding add_watcher
  twice_target =
      (watch_watchers once t t owner true).0
      ∙ (watchers_set once t (add_watcher owner (watchers_of once t))
          ∙ (ap (add_watcher owner) once_target ∙ if_false _ _ apart))

  found_once : get_entry once (get_id t) ≡ ok t
  found_once = found_in d once (get_id t) (watch_watchers d a t w given).1 target

  started :
      start_watching d id w given
      ≡ (twice, Event.watch_callbacks id ∷ Event.watch_callbacks (get_id t) ∷ [], ok tt)
  unfolding start_watching start_watching_on start_entry
  started =
      ap (start_entry (start_watching_on 1) d id w given) found
      ∙ ap (λ (x : Outcome V). (x.0, Event.watch_callbacks id ∷ x.1, x.2))
          (ap (start_entry (start_watching_on 0) once (get_id t) owner true) found_once
            ∙ start_behind (start_watching_on 0) once (get_id t) owner true t (resolve-Plain r))

  abbrev without_alias : Datastore V
  without_alias = forget twice a

  found_twice : (x : ℕ) (e : Entry) → get_entry d x ≡ ok e → get_entry twice x ≡ ok e
  found_twice x e h =
      found_in d twice x ((watch_watchers once t t owner true).1 ∙ (watch_watchers d a t w given).1)
        h

  forget_entries : without_alias.entries ≡ twice.entries
  unfolding forget
  forget_entries = refl

  abbrev inner : Datastore V × List Event
  inner = leave (stop_watching_on 0) without_alias t (watchers_of d t)

  -- The nested call that stops watching what the alias refers to.
  nested : stop_watching_on 1 without_alias (get_id t) owner ≡ (
    unregister_value_change_callback inner.0 t owner,
    inner.1 ++ (Event.unwatch_callbacks (get_id t) ∷ []),
    ok tt,
  )
  unfolding stop_watching_on
  nested =
      ap (stop_entry (stop_watching_on 0) without_alias (get_id t) owner)
        (found_in twice without_alias (get_id t) forget_entries (found_twice (get_id t) t target))
      ∙ stop_found (stop_watching_on 0) without_alias (get_id t) owner owner t (watchers_of d t)
          ((watchers_apart twice id path r t [] (resolve-Plain r)).1 ∙ twice_target)
      ∙ ap
          (λ (ws : List Watcher). (
            unregister_value_change_callback (leave (stop_watching_on 0) without_alias t ws).0 t
                owner,
            (leave (stop_watching_on 0) without_alias t ws).1
                ++ (Event.unwatch_callbacks (get_id t) ∷ []),
            ok tt,
          ))
          (remove_first owner (watchers_of d t) apart)

  stopped : stop_watching twice id w ≡ (
    unregister_value_change_callback (unregister_value_change_callback inner.0 t owner) a w,
    (inner.1 ++ (Event.unwatch_callbacks (get_id t) ∷ [])) ++ (Event.unwatch_callbacks id ∷ []),
    ok tt,
  )
  unfolding stop_watching stop_watching_on leave has_watcher
  stopped =
      ap (stop_entry (stop_watching_on 1) twice id w)
        (found_twice id (Entry.alias_of id path r) found)
      ∙ stop_found (stop_watching_on 1) twice id w w a [] twice_alias
      ∙ ap
          (λ (ws : List Watcher). (
            unregister_value_change_callback (leave (stop_watching_on 1) twice a ws).0 a w,
            (leave (stop_watching_on 1) twice a ws).1 ++ (Event.unwatch_callbacks id ∷ []),
            ok tt,
          ))
          (remove_first w [] refl)
      ∙ ap
          (λ (x : Outcome V). (
            unregister_value_change_callback x.0 a w,
            x.1 ++ (Event.unwatch_callbacks id ∷ []),
            ok tt,
          ))
          nested

  -- A client that starts to watch an alias makes the datastore itself watch what the alias refers to, and
  -- both calls end without an exception. When the client stops, the alias is not watched any more, and
  -- who watches what it refers to is as before. Before, nobody watches the alias, and the datastore holds
  -- under their identifiers the alias and what it refers to, which the alias's own watcher does not watch.
  pub stop_watching-start_watching :
      (has_watcher owner (watchers_of (start_watching d id w given).0 t) ≡ true)
      × ((start_watching d id w given).2 ≡ ok tt)
      × ((stop_watching (start_watching d id w given).0 id w).2 ≡ ok tt)
      × (watchers_of (stop_watching (start_watching d id w given).0 id w).0 a ≡ [])
      × (watchers_of (stop_watching (start_watching d id w given).0 id w).0 t ≡ watchers_of d t)
  unfolding has_watcher unregister_value_change_callback watchers_of
  stop_watching-start_watching =
      let during = ap (λ (x : Outcome V). x.0) started in
      let over = ap (λ (x : Datastore V). stop_watching x id w) during ∙ stopped in
      let left =
        leave_behind (stop_watching_on 0) without_alias id path r t (watchers_of d t)
          (resolve-Plain r) in
      (
        ap (λ (x : Datastore V). has_watcher owner (watchers_of x t)) during
            ∙ (ap (has_watcher owner) twice_target
                ∙ ap (λ (b : Bool). b || has_watcher owner (watchers_of d t))
                    (same_watcher_refl owner)),
        ap (λ (x : Outcome V). x.2) started,
        ap (λ (x : Outcome V). x.2) over,
        ap (λ (x : Outcome V). watchers_of x.0 a) over ∙ (left.1 ∙ watchers_forgotten twice a),
        ap (λ (x : Outcome V). watchers_of x.0 t) over ∙ left.0,
      )
