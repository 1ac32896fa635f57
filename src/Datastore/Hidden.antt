-- ===== src/Datastore/Hidden.antt =====
-- The datastore's own watching of what an alias refers to (scrutiny/server/datastore/datastore.py).
use scrutiny.Prelude.{
  ℕ, ◌≡◌, refl, ap, ◌∙◌, Bool, true, false, Option, some, none, List, [], ◌∷◌, ◌++◌, arith, ==_refl,
  if_true, if_false, if-cases, Result, ok, err, key_error,
}
use scrutiny.Prelude.Dict.{get-put, get-remove}
use scrutiny.Datastore.Entry.{
  Entry, get_id, get_type, resolve, Watcher, same_watcher, has_watcher, add_watcher, remove_watcher,
}
use scrutiny.Datastore.State.{Table, select, replace, Datastore, find, get_entry}
use scrutiny.Datastore.Watching.{
  Event, Outcome, or_empty, watchers_of, set_watchers, forget, watch, start_entry, stop_entry,
  leave, unwatch, register_value_change_callback, unregister_value_change_callback,
}

-- An entry that is no alias.
abbrev pub Plain : Entry → Type 0
Plain (Entry.alias_of id path e) = ⊥
Plain _ = Unit {0}

pub resolve-Plain : (e : Entry) → Plain (resolve e)
unfolding resolve
resolve-Plain (Entry.variable id path) = tt
resolve-Plain (Entry.published id path) = tt
resolve-Plain (Entry.alias_of id path e) = resolve-Plain e

pub same_watcher_refl : (w : Watcher) → same_watcher w w ≡ true
unfolding same_watcher
same_watcher_refl (Watcher.client a) = ==_refl a
same_watcher_refl (Watcher.owner_of_alias a) = ==_refl a

remove_absent :
    (w : Watcher) (ws : List Watcher) → has_watcher w ws ≡ false → remove_watcher w ws ≡ ws
unfolding has_watcher remove_watcher
remove_absent w [] h = refl
remove_absent w (v ∷ vs) h =
    let differs : same_watcher w v ≡ false = ground (arith, h) in
    let absent : has_watcher w vs ≡ false = ground (arith, h) in
    if_false _ _ differs ∙ ap (λ (l : List Watcher). v ∷ l) (remove_absent w vs absent)

-- Whoever is put in front of a set and taken off leaves it as it was.
pub remove_first :
    (w : Watcher) (ws : List Watcher) → has_watcher w ws ≡ false → remove_watcher w (w ∷ ws) ≡ ws
unfolding remove_watcher
remove_first w ws h = if_true _ _ (same_watcher_refl w) ∙ remove_absent w ws h

listed :
    (o : Option (List Watcher)) (w : Watcher) (ws : List Watcher)
    → or_empty o ≡ w ∷ ws
    → o ≡ some (w ∷ ws)
listed none w ws h = absurd (ground (arith, h))
listed (some l) w ws h = ap (λ (x : List Watcher). some x) h

module _ {V : Type 0} where
  pub watchers_set :
      (d : Datastore V) (e : Entry) (ws : List Watcher) → watchers_of (set_watchers d e ws) e ≡ ws
  unfolding watchers_of set_watchers select replace get_type get_id
  watchers_set d (Entry.variable id path) ws =
      ap or_empty (get-put d.watcher_map.vars id id ws ∙ if_true _ _ (==_refl id))
  watchers_set d (Entry.published id path) ws =
      ap or_empty (get-put d.watcher_map.rpvs id id ws ∙ if_true _ _ (==_refl id))
  watchers_set d (Entry.alias_of id path e) ws =
      ap or_empty (get-put d.watcher_map.aliases id id ws ∙ if_true _ _ (==_refl id))

  pub watchers_forgotten : (d : Datastore V) (e : Entry) → watchers_of (forget d e) e ≡ []
  unfolding watchers_of forget select replace get_type get_id
  watchers_forgotten d (Entry.variable id path) =
      ap or_empty (get-remove d.watcher_map.vars id id ∙ if_true _ _ (==_refl id))
  watchers_forgotten d (Entry.published id path) =
      ap or_empty (get-remove d.watcher_map.rpvs id id ∙ if_true _ _ (==_refl id))
  watchers_forgotten d (Entry.alias_of id path e) =
      ap or_empty (get-remove d.watcher_map.aliases id id ∙ if_true _ _ (==_refl id))

  -- Entries of other types keep their watchers.
  pub watchers_apart :
      (d : Datastore V) (id path : ℕ) (r t : Entry) (ws : List Watcher)
      → Plain t
      → (watchers_of (set_watchers d (Entry.alias_of id path r) ws) t ≡ watchers_of d t)
        × (watchers_of (forget d (Entry.alias_of id path r)) t ≡ watchers_of d t)
        × (watchers_of (set_watchers d t ws) (Entry.alias_of id path r)
            ≡ watchers_of d (Entry.alias_of id path r))
        × (watchers_of (forget d t) (Entry.alias_of id path r)
            ≡ watchers_of d (Entry.alias_of id path r))
  unfolding watchers_of set_watchers forget select replace get_type get_id
  watchers_apart d id path r (Entry.variable a b) ws h = (refl, refl, refl, refl)
  watchers_apart d id path r (Entry.published a b) ws h = (refl, refl, refl, refl)
  watchers_apart d id path r (Entry.alias_of a b e) ws h = elim h [ ]

  -- The callbacks of an entry do not change who watches.
  pub watch_watchers :
      (d : Datastore V) (e f : Entry) (w : Watcher) (given : Bool)
      → (watchers_of (watch d e w given) f
          ≡ watchers_of (set_watchers d e (add_watcher w (watchers_of d e))) f)
        × ((watch d e w given).entries ≡ d.entries)
  unfolding watch watchers_of register_value_change_callback set_watchers
  watch_watchers d e f w given =
      if-cases
        (λ (x : Datastore V).
          (watchers_of x f ≡ watchers_of (set_watchers d e (add_watcher w (watchers_of d e))) f)
          × (x.entries ≡ d.entries))
        _ _ _ (λ h. (refl, refl)) (λ h. (refl, refl))

  pub found_in :
      (d d' : Datastore V) (id : ℕ) {r : Result Entry}
      → d'.entries ≡ d.entries
      → get_entry d id ≡ r
      → get_entry d' id ≡ r
  unfolding get_entry
  found_in d d' id same found =
      ap
        (λ (t : Table Entry). elim (find t id) as (λ x. Result Entry) [
          | none ↦ err key_error
          | some e ↦ ok e
        ])
        same
      ∙ found

  pub start_behind :
      (again : Datastore V → ℕ → Watcher → Bool → Outcome V) (d : Datastore V) (id : ℕ)
      (w : Watcher) (given : Bool) (t : Entry)
      → Plain t
      → start_entry again d id w given (ok t)
        ≡ (watch d t w given, Event.watch_callbacks id ∷ [], ok tt)
  unfolding start_entry
  start_behind again d id w given (Entry.variable a b) h = refl
  start_behind again d id w given (Entry.published a b) h = refl
  start_behind again d id w given (Entry.alias_of a b e) h = elim h [ ]

  -- To stop watching an entry that is found and watched.
  pub stop_found :
      (again : Datastore V → ℕ → Watcher → Outcome V) (d : Datastore V) (id : ℕ) (w v : Watcher)
      (e : Entry) (vs : List Watcher)
      → watchers_of d e ≡ v ∷ vs
      → stop_entry again d id w (ok e) ≡ (
        unregister_value_change_callback (leave again d e (remove_watcher w (v ∷ vs))).0 e w,
        (leave again d e (remove_watcher w (v ∷ vs))).1 ++ (Event.unwatch_callbacks id ∷ []),
        ok tt,
      )
  unfolding stop_entry unwatch watchers_of
  stop_found again d id w v e vs watched =
      ap
        (λ (o : Option (List Watcher)). (
          unregister_value_change_callback (unwatch again d e w o).0 e w,
          (unwatch again d e w o).1 ++ (Event.unwatch_callbacks id ∷ []),
          ok tt,
        ))
        (listed _ v vs watched)

  -- A plain entry is left with the watchers that are left, and an alias with its own.
  pub leave_behind :
      (again : Datastore V → ℕ → Watcher → Outcome V) (d : Datastore V) (id path : ℕ) (r t : Entry)
      (ws : List Watcher)
      → Plain t
      → (watchers_of (leave again d t ws).0 t ≡ ws)
        × (watchers_of (leave again d t ws).0 (Entry.alias_of id path r)
            ≡ watchers_of d (Entry.alias_of id path r))
  unfolding leave
  leave_behind again d id path r t (v ∷ vs) h =
      (watchers_set d t (v ∷ vs), (watchers_apart d id path r t (v ∷ vs) h).2)
  leave_behind again d id path r (Entry.variable a b) [] h = (
    watchers_forgotten d (Entry.variable a b),
    (watchers_apart d id path r (Entry.variable a b) [] h).3,
  )
  leave_behind again d id path r (Entry.published a b) [] h = (
    watchers_forgotten d (Entry.published a b),
    (watchers_apart d id path r (Entry.published a b) [] h).3,
  )
  leave_behind again d id path r (Entry.alias_of a b e) [] h = elim h [ ]
