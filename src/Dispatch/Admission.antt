-- ===== src/Dispatch/Admission.antt =====
-- Which requests `register_request` of scrutiny/server/device/request_dispatcher.py lets in.
use scrutiny.Prelude.{
  ℕ, zero, suc, ◌<◌, ◌≤◌, ◌≡◌, ◌⊎◌, inl, inr, refl, sym, ap, subst, ◌∙◌, Bool, true, false, Option,
  none, some, List, [], ◌∷◌, ◌++◌, arith, length, insert_at, take, drop, take-append-drop,
  length-take, Result, ok, err, All, length-insert_at, attribute_error, if_true, if_false,
  Bool-cases,
}
use scrutiny.Protocol.Request
use scrutiny.Protocol.Request.{Request}
use scrutiny.Dispatch.Queue
use scrutiny.Dispatch.Queue.{
  RequestRecord, RequestQueue, Call, failed, bisect_left, init, add, push, pop, is_full,
}
use scrutiny.Dispatch.Order.{IsOrdered, push-add}
use scrutiny.Dispatch.Order.Serving.{push-room}
use scrutiny.Dispatch.Dispatcher.{
  RequestDispatcher, Outcome, register_request, drop_request, enqueue, over, make_record,
}

-- The request and the answer that it asks for are within the limits of the device.
pub record Fits (rx tx : Option ℕ) (r : Request) : Type 0 where
  pub sent : over rx (Request.data_size r) ≡ false
  pub answered : over tx (Request.get_expected_response_data_size r) ≡ false

insert_at-split {ℓ} :
    {A : Type ℓ} (xs : List A) (i : ℕ) (v : A) → insert_at xs i v ≡ take i xs ++ (v ∷ drop i xs)
insert_at-split [] zero v = refl
insert_at-split [] (suc i) v = refl
insert_at-split (x ∷ xs) zero v = refl
insert_at-split (x ∷ xs) (suc i) v = ap (λ l. x ∷ l) (insert_at-split xs i v)

true_not_false : true ≡ false → ⊥
true_not_false e = ground (arith, e)

All-insert_at {ℓ κ} :
    {A : Type ℓ} (P : A → Type κ) (xs : List A) (i : ℕ) (x : A)
    → P x
    → All P xs
    → All P (insert_at xs i x)
All-insert_at P [] i x h a = (h, tt)
All-insert_at P (y ∷ xs) zero x h a = (h, a)
All-insert_at P (y ∷ xs) (suc i) x h a = (a.0, All-insert_at P xs i x h a.1)

pub over_some : (o : Option ℕ) (limit n : ℕ) → o ≡ some limit → limit < n → over o n ≡ true
over_some o limit n e h = ground (arith, e, h)

module _ {K : Type 0} where
  abbrev pub AllFit : RequestDispatcher K → Type 0
  AllFit d =
      All (λ (r : RequestRecord K). Fits d.rx_data_size_limit d.tx_data_size_limit r.request)
        d.request_queue.data_list

  push_list :
      (q : RequestQueue K) (now : ℕ) (item : RequestRecord K) (p : ℕ) (P : RequestRecord K → Type 0)
      → P item
      → All P q.data_list
      → All P (push q now item p).0.data_list
  push_list q now item p P h a = go (is_full q) refl
    where
      go : (b : Bool) → is_full q ≡ b → All P (push q now item p).0.data_list
      go true f = unfold push in rw f a
      go false f =
          rw (push-add q (push q now item p).0 now item p (push q now item p).1 refl f).0
            (unfold add in All-insert_at P q.data_list (bisect_left q.priorities p) item h a)

  -- Where each request in the queue fits the device, it still does after any registration.
  pub register_request-AllFit :
      (d : RequestDispatcher K) (now : ℕ) (r : Request) (k : K) (p : ℕ)
      → AllFit d
      → AllFit (register_request d now r k p).0
  unfolding register_request drop_request enqueue
  register_request-AllFit d now r k p a =
      go (over d.rx_data_size_limit (Request.data_size r))
        (over d.tx_data_size_limit (Request.get_expected_response_data_size r)) refl refl
    where
      go :
          (b c : Bool)
          → over d.rx_data_size_limit (Request.data_size r) ≡ b
          → over d.tx_data_size_limit (Request.get_expected_response_data_size r) ≡ c
          → AllFit (register_request d now r k p).0
      go true c e f = rw e a
      go false true e f = rw (e, f) a
      go false false e f =
          rw (e, f)
            (push_list d.request_queue now (make_record r k) p
              (λ (r : RequestRecord K). Fits d.rx_data_size_limit d.tx_data_size_limit r.request)
              (unfold make_record in record { sent = e; answered = f }) a)

  -- A request over a limit is dropped: the queue is the same, and the failure callback is called.
  pub over_limit :
      (d : RequestDispatcher K) (now : ℕ) (r : Request) (k : K) (p : ℕ)
      → (over d.rx_data_size_limit (Request.data_size r) ≡ true)
        ⊎ (over d.tx_data_size_limit (Request.get_expected_response_data_size r) ≡ true)
      → register_request d now r k p ≡ (record d { critical_error = true }, failed k r ∷ [], ok tt)
  unfolding register_request drop_request Queue.complete make_record
  over_limit d now r k p (inl e) = if_true _ _ e
  over_limit d now r k p (inr e) =
      elim (Bool-cases (over d.rx_data_size_limit (Request.data_size r))) [
        | inl f ↦ if_true _ _ f
        | inr f ↦ if_false _ _ f ∙ if_true _ _ e
      ]

  -- The request stands in the queue with its callbacks and its priority, between the requests that were
  -- there in front and those that were there behind.
  pub record Queued (d d' : RequestDispatcher K) (r : Request) (k : K) (p : ℕ) : Type 0 where
    pub item : RequestRecord K
    pub front : List (RequestRecord K)
    pub back : List (RequestRecord K)
    pub lower : List ℕ
    pub higher : List ℕ
    pub before : d.request_queue.data_list ≡ front ++ back
    pub after : d'.request_queue.data_list ≡ front ++ (item ∷ back)
    pub keys_before : d.request_queue.priorities ≡ lower ++ higher
    pub keys_after : d'.request_queue.priorities ≡ lower ++ (p ∷ higher)
    pub beside : length lower ≡ length front
    pub request : item.request ≡ r
    pub callbacks : item.callbacks ≡ k
    pub waiting : item.completed ≡ false
    pub errors : d'.critical_error ≡ d.critical_error

  pushed-Queued :
      (d : RequestDispatcher K) (now : ℕ) (r : Request) (k : K) (p : ℕ)
      → IsOrdered d.request_queue
      → (push d.request_queue now (make_record r k) p).1 ≡ ok tt
      → Queued d (enqueue d now (make_record r k) p).0 r k p
  unfolding enqueue add make_record
  pushed-Queued d now r k p h out =
      let q = d.request_queue in
      let item = make_record r k in
      let i = bisect_left q.priorities p in
      let done : push q now item p ≡ ((push q now item p).0, ok tt) =
        ap (λ (o : Result (Unit {0})). ((push q now item p).0, o)) out in
      let (records, keys) =
        push-add q (push q now item p).0 now item p (ok tt) done
          (push-room q (push q now item p).0 now item p done) in
      record {
        item = item;
        front = take i q.data_list;
        back = drop i q.data_list;
        lower = take i q.priorities;
        higher = drop i q.priorities;
        before = sym (take-append-drop i q.data_list);
        after = records ∙ insert_at-split q.data_list i item;
        keys_before = sym (take-append-drop i q.priorities);
        keys_after = keys ∙ insert_at-split q.priorities i p;
        beside = omega (arith, h.aligned, length-take i q.priorities, length-take i q.data_list);
        request = refl;
        callbacks = refl;
        waiting = refl;
        errors = refl;
      }

  -- A registration in an ordered queue that does not raise does one of two things. If the request and its
  -- answer are within the limits, the request is put into the queue with its callbacks and its priority,
  -- between what was there in front and behind, nothing is called, and the mark of an error stays. If
  -- one is not, only the failure callback is called, with the request, and all that changes is that the
  -- dispatcher is in critical error.
  pub register_request_accounted :
      (d d' : RequestDispatcher K) (now : ℕ) (r : Request) (k : K) (p : ℕ) (calls : List (Call K))
      → IsOrdered d.request_queue
      → register_request d now r k p ≡ (d', calls, ok tt)
      → (Fits d.rx_data_size_limit d.tx_data_size_limit r × (calls ≡ []) × Queued d d' r k p)
        ⊎ ((¬ Fits d.rx_data_size_limit d.tx_data_size_limit r)
            × (calls ≡ failed k r ∷ [])
            × (d' ≡ record d { critical_error = true }))
  unfolding register_request enqueue
  register_request_accounted d d' now r k p calls h e =
      go (Bool-cases (over d.rx_data_size_limit (Request.data_size r)))
        (Bool-cases (over d.tx_data_size_limit (Request.get_expected_response_data_size r)))
    where
      go :
          (over d.rx_data_size_limit (Request.data_size r) ≡ true)
            ⊎ (over d.rx_data_size_limit (Request.data_size r) ≡ false)
          → (over d.tx_data_size_limit (Request.get_expected_response_data_size r) ≡ true)
            ⊎ (over d.tx_data_size_limit (Request.get_expected_response_data_size r) ≡ false)
          → (Fits d.rx_data_size_limit d.tx_data_size_limit r × (calls ≡ []) × Queued d d' r k p)
            ⊎ ((¬ Fits d.rx_data_size_limit d.tx_data_size_limit r)
                × (calls ≡ failed k r ∷ [])
                × (d' ≡ record d { critical_error = true }))
      go (inl a) b =
          let same = sym e ∙ over_limit d now r k p (inl a) in
          inr (
            (λ f. true_not_false (sym a ∙ f.sent)),
            ap (λ (x : Outcome K). x.1) same,
            ap (λ (x : Outcome K). x.0) same,
          )
      go (inr a) (inl b) =
          let same = sym e ∙ over_limit d now r k p (inr b) in
          inr (
            (λ f. true_not_false (sym b ∙ f.answered)),
            ap (λ (x : Outcome K). x.1) same,
            ap (λ (x : Outcome K). x.0) same,
          )
      go (inr a) (inr b) =
          let same = sym (if_false _ _ a ∙ if_false _ _ b) ∙ e in
          inl (
            record { sent = a; answered = b },
            sym (ap (λ (x : Outcome K). x.1) same),
            subst (λ x. Queued d x r k p) (ap (λ (x : Outcome K). x.0) same)
                (pushed-Queued d now r k p h (ap (λ (x : Outcome K). x.2) same)),
          )

  -- Where no warning time was ever set and the queue is not full, pushing onto nine requests or more
  -- raises an AttributeError, and the request stays in the queue.
  pub push_tenth :
      (q : RequestQueue K) (now : ℕ) (item : RequestRecord K) (p : ℕ)
      → q.last_warning_time ≡ none
      → is_full q ≡ false
      → 9 ≤ length q.data_list
      → push q now item p ≡ (add q item p, err attribute_error)
  unfolding push Queue.warn Queue.check_oversize add
  push_tenth q now item p e f h =
      ground (arith, length-insert_at q.data_list (bisect_left q.priorities p) item)
