-- ===== src/Dispatch/Order/Serving.antt =====
-- What `push` and `pop` of scrutiny/server/device/request_dispatcher.py promise together.
use scrutiny.Prelude.{
  ℕ, ◌≤◌, ◌<◌, ◌≡◌, refl, ◌∙◌, Bool, true, false, Option, some, none, arith, last?, ok, All,
  length-insert_at,
}
use scrutiny.Dispatch.Queue.{RequestRecord, RequestQueue, bisect_left, new, add, push, pop, is_full}
use scrutiny.Dispatch.Order.{
  IsOrdered, bisect_left_above, bisect_left_below, insert_at-end, insert_at-inside,
  IsAscending-insert_at, IsAscending-init, length-init, push-add,
}

-- The same requests with the same priorities.
abbrev pub SameQueue : {K : Type 0} → RequestQueue K → RequestQueue K → Type 0
SameQueue q r = (q.data_list ≡ r.data_list) × (q.priorities ≡ r.priorities)

module _ {K : Type 0} where
  pub new-IsOrdered : (maxsize : Option ℕ) → IsOrdered (new {K = K} maxsize)
  unfolding new
  new-IsOrdered maxsize = record { aligned = refl; ascending = tt }

  add-IsOrdered :
      (q : RequestQueue K) (item : RequestRecord K) (p : ℕ) → IsOrdered q → IsOrdered (add q item p)
  unfolding add
  add-IsOrdered q item p w = record {
    aligned = omega (
      arith,
      w.aligned,
      length-insert_at q.priorities (bisect_left q.priorities p) p,
      length-insert_at q.data_list (bisect_left q.priorities p) item,
    );
    ascending = IsAscending-insert_at q.priorities p w.ascending;
  }

  -- `push` keeps the priorities in ascending order, one for each request, also where it raises.
  pub push-IsOrdered :
      (q : RequestQueue K) (now : ℕ) (item : RequestRecord K) (p : ℕ)
      → IsOrdered q
      → IsOrdered (push q now item p).0
  push-IsOrdered q now item p w = go (is_full q) refl
    where
      added : is_full q ≡ false → IsOrdered (push q now item p).0
      added f =
          let (same, same') =
            push-add q (push q now item p).0 now item p (push q now item p).1 refl f in
          let v = add-IsOrdered q item p w in
          record { aligned = rw (same, same') v.aligned; ascending = rw same' v.ascending }

      go : (b : Bool) → is_full q ≡ b → IsOrdered (push q now item p).0
      go false f = added f
      go true f = unfold push in rw f w

  -- `pop` keeps the priorities in ascending order, one for each request, also on an empty queue.
  pub pop-IsOrdered : (q : RequestQueue K) → IsOrdered q → IsOrdered (pop q).0
  unfolding pop
  pop-IsOrdered q w = go (last? q.data_list) refl
    where
      go : (o : Option (RequestRecord K)) → last? q.data_list ≡ o → IsOrdered (pop q).0
      go none e = rw (e, pop) w
      go (some item) e =
          rw (e, pop)
            (record {
              aligned = omega (arith, w.aligned, length-init q.data_list, length-init q.priorities);
              ascending = IsAscending-init q.priorities w.ascending;
            })

  -- A request of a higher priority than all others is the next to be served.
  pop-add_above :
      (q : RequestQueue K) (item : RequestRecord K) (p : ℕ)
      → IsOrdered q
      → All (λ k. k < p) q.priorities
      → ((pop (add q item p)).1 ≡ some item) × SameQueue (pop (add q item p)).0 q
  unfolding pop add
  pop-add_above q item p w above =
      let e = bisect_left_above q.priorities p above in
      let data_end =
        insert_at-end q.data_list (bisect_left q.priorities p) item (omega (arith, e, w.aligned)) in
      let keys_end = insert_at-end q.priorities (bisect_left q.priorities p) p e in
      rw (data_end.0, pop) (refl, (data_end.1, keys_end.1))

  -- Otherwise the next to be served is the one that was next before, also at the same priority.
  pop-add_below :
      (q : RequestQueue K) (item : RequestRecord K) (p m : ℕ)
      → IsOrdered q
      → last? q.priorities ≡ some m
      → p ≤ m
      → ((pop (add q item p)).1 ≡ (pop q).1)
        × SameQueue (pop (add q item p)).0 (add (pop q).0 item p)
  unfolding pop add
  pop-add_below q item p m w e h =
      let (inside, same) = bisect_left_below q.priorities p m e h in
      let i = bisect_left q.priorities p in
      let data_in = insert_at-inside q.data_list i item (omega (arith, inside, w.aligned)) in
      let keys_in = insert_at-inside q.priorities i p inside in
      ground (arith, data_in, keys_in, same)

  pop-SameQueue :
      (q r : RequestQueue K)
      → SameQueue q r
      → ((pop q).1 ≡ (pop r).1) × SameQueue (pop q).0 (pop r).0
  unfolding pop
  pop-SameQueue q r e = ground (arith, e.0, e.1)

  pub push-room :
      (q q' : RequestQueue K) (now : ℕ) (item : RequestRecord K) (p : ℕ)
      → push q now item p ≡ (q', ok tt)
      → is_full q ≡ false
  unfolding push
  push-room q q' now item p e = ground arith

  -- In an ordered queue, after a `push` that did not raise: if all other priorities are lower, then
  -- `pop` returns the request pushed and leaves the requests that were there before.
  pub pop-push_above :
      (q q' : RequestQueue K) (now : ℕ) (item : RequestRecord K) (p : ℕ)
      → IsOrdered q
      → push q now item p ≡ (q', ok tt)
      → All (λ k. k < p) q.priorities
      → ((pop q').1 ≡ some item) × SameQueue (pop q').0 q
  pop-push_above q q' now item p w e above =
      let (item_same, rest_same) =
        pop-SameQueue q' (add q item p)
          (push-add q q' now item p (ok tt) e (push-room q q' now item p e)) in
      let (item_is, rest_is) = pop-add_above q item p w above in
      (item_same ∙ item_is, (rest_same.0 ∙ rest_is.0, rest_same.1 ∙ rest_is.1))

  -- In an ordered queue, after a `push` that did not raise: if the last priority is not lower than
  -- the new one, then `pop` returns the request that it would have returned before the `push`, and
  -- leaves what adding the new request to the others gives: equals are served in order of arrival.
  pub pop-push_below :
      (q q' : RequestQueue K) (now : ℕ) (item : RequestRecord K) (p m : ℕ)
      → IsOrdered q
      → push q now item p ≡ (q', ok tt)
      → last? q.priorities ≡ some m
      → p ≤ m
      → ((pop q').1 ≡ (pop q).1) × SameQueue (pop q').0 (add (pop q).0 item p)
  pop-push_below q q' now item p m w e top h =
      let (item_same, rest_same) =
        pop-SameQueue q' (add q item p)
          (push-add q q' now item p (ok tt) e (push-room q q' now item p e)) in
      let (item_is, rest_is) = pop-add_below q item p m w top h in
      (item_same ∙ item_is, (rest_same.0 ∙ rest_is.0, rest_same.1 ∙ rest_is.1))
