-- ===== src/Datastore/Updating.antt =====
-- The queue of updates that wait for the memory writer (scrutiny/server/datastore/datastore.py).
use scrutiny.Prelude.{
  ℕ, Bool, true, false, Option, some, none, List, [], ◌∷◌, ◌++◌, length, Result, ok, ◌>>=◌,
}
use scrutiny.Datastore.Entry.{Entry, resolve}
use scrutiny.Datastore.State.{Datastore, UpdateTargetRequest, get_entry}

module _ {V : Type 0} where
  unfoldable pub enqueue : Datastore V → UpdateTargetRequest V → Datastore V
  enqueue d u = record d { target_update_request_queue = d.target_update_request_queue ++ (u ∷ []) }

  -- The request for an entry; that for an alias is one for what it refers to, with the value that the
  -- alias makes of it for the device.
  unfoldable pub request_for : (Entry → V → V) → ℕ → V → Entry → UpdateTargetRequest V
  unfolding resolve
  request_for compute_user_to_device ticket value (Entry.alias_of id path e) = record {
    ticket = ticket;
    value = compute_user_to_device (Entry.alias_of id path e) value;
    entry = resolve e;
    alias = some (Entry.alias_of id path e);
  }
  request_for compute_user_to_device ticket value e = record {
    ticket = ticket;
    value = value;
    entry = e;
    alias = none;
  }

  -- `compute_user_to_device` is that of the alias's definition.
  unfoldable pub update_target_value :
      (Entry → V → V) → Datastore V → ℕ → ℕ → V → Result (Datastore V)
  unfolding enqueue request_for
  update_target_value compute_user_to_device d ticket id value = do
    e ← get_entry d id
    ok (enqueue d (request_for compute_user_to_device ticket value e))

  abbrev popped :
      Datastore V → List (UpdateTargetRequest V) → Datastore V × Option (UpdateTargetRequest V)
  popped d [] = (d, none)
  popped d (u ∷ us) = (record d { target_update_request_queue = us }, some u)

  unfoldable pub pop_target_update_request :
      Datastore V → Datastore V × Option (UpdateTargetRequest V)
  pop_target_update_request d = popped d d.target_update_request_queue

  unfoldable pub peek_target_update_request : Datastore V → Option (UpdateTargetRequest V)
  unfolding pop_target_update_request
  peek_target_update_request d = (pop_target_update_request d).1

  unfoldable pub get_pending_target_update_count : Datastore V → ℕ
  get_pending_target_update_count d = length d.target_update_request_queue

  abbrev waits : List (UpdateTargetRequest V) → Bool
  waits [] = false
  waits (u ∷ us) = true

  unfoldable pub has_pending_target_update : Datastore V → Bool
  has_pending_target_update d = waits d.target_update_request_queue
