-- ===== src/Ui/Scheduler/Defs.antt =====
-- src/rcm/ui/scheduler.py: `BoundedEventQueue` and `UiScheduler`.
use rcm_windows.Prelude.{
  leb, ◌==◌, if◌then◌else◌, length, ◌>>=◌, ◌>>◌, guard, Exn, Result, value_error, ok, err, ℕ, zero,
  suc, ◌+◌, min, String, Bool, true, false, not, ◌&&◌, ◌||◌, Option, none, some, List, [], ◌∷◌,
  ◌++◌, map, str_eq,
}

-- src/rcm/ui/state.py
pub data UiVisibility : Type 0 where
  visible minimized hidden : UiVisibility

pub data PostStatus : Type 0 where
  added coalesced full : PostStatus

pub record QueueEntry (T : Type 0) : Type 0 where
  pub value : T
  pub coalesce_key : Option String

pub record Queue (T : Type 0) : Type 0 where
  pub maximum : ℕ
  pub items : List (QueueEntry T)
  pub dropped : ℕ

abbrev pub key_eq : Option String → String → Bool
key_eq none key = false
key_eq (some k) key = str_eq k key

module _ {T : Type 0} where
  unfoldable pub new_queue : ℕ → Result (Queue T)
  new_queue maximum = do
    guard (leb 1 maximum && leb maximum 1024) value_error
    ok (record { maximum = maximum; items = []; dropped = 0 })

  -- The search from the newest entry to the oldest for one with the key, and its replacement.
  unfoldable pub coalesce : String → T → List (QueueEntry T) → Option (List (QueueEntry T))
  coalesce key value [] = none
  coalesce key value (x ∷ xs) = elim (coalesce key value xs) [
    | some ys ↦ some (x ∷ ys)
    | none ↦
        if key_eq x.coalesce_key key
        then some (record { value = value; coalesce_key = some key } ∷ xs)
        else none
  ]

  abbrev pub find_slot : Option String → T → List (QueueEntry T) → Option (List (QueueEntry T))
  find_slot none value items = none
  find_slot (some key) value items = coalesce key value items

  unfoldable pub append : Queue T → T → Option String → PostStatus × Queue T
  append q value key =
      if leb q.maximum (length q.items) then (full, record q { dropped = q.dropped + 1 }) else (
        added,
        record q { items = q.items ++ record { value = value; coalesce_key = key } ∷ [] },
      )

  -- BoundedEventQueue.post
  unfoldable pub post_queue : Queue T → T → Option String → PostStatus × Queue T
  unfolding coalesce append
  post_queue q value key = elim (find_slot key value q.items) [
    | some items ↦ (coalesced, record q { items = items })
    | none ↦ append q value key
  ]

  abbrev pub values : List (QueueEntry T) → List T
  values = map (λ (e : QueueEntry T). e.value)

  -- `count` times popleft
  abbrev pub pop_front : ℕ → List (QueueEntry T) → List T × List (QueueEntry T)
  pop_front zero xs = ([], xs)
  pop_front (suc n) [] = ([], [])
  pop_front (suc n) (x ∷ xs) = let (front, rest) = pop_front n xs in (x.value ∷ front, rest)

  -- BoundedEventQueue.drain
  unfoldable pub drain_queue : Queue T → Option ℕ → Result (List T × Queue T)
  drain_queue q maximum =
      let limit : ℕ = elim maximum [ none ↦ q.maximum | some m ↦ m ] in
      let (front, rest) = pop_front (min limit (length q.items)) q.items in
      do guard (leb 1 limit) value_error; ok (front, record q { items = rest })

-- What the port is asked for.
pub data Request : Type 0 where
  call_later : (delay token : ℕ) → Request
  cancels : (token : ℕ) → Request

pub record Scheduler (T : Type 0) : Type 0 where
  pub queue : Queue T
  pub visible_interval : ℕ
  pub batch_size : ℕ
  pub visibility : UiVisibility
  pub token : Option ℕ
  pub stopped : Bool
  pub requests : List Request

abbrev pub is_visible : UiVisibility → Bool
is_visible visible = true
is_visible minimized = false
is_visible hidden = false

abbrev pub is_none : Option ℕ → Bool
is_none none = true
is_none (some t) = false

-- A call that `consume` makes on the scheduler.
pub data Action (T : Type 0) : Type 0 where
  posts : T → Option String → Action T
  sets_visibility : UiVisibility → Action T
  starts stops : Action T

-- What a call of `consume` does: the calls that it makes on the scheduler, and then an exception or
-- its return. It depends on the value and on the scheduler.
abbrev pub Consumer : Type 0 → Type 0
Consumer T = T → Scheduler T → List (Action T) × Option Exn

module _ {T : Type 0} where
  -- UiScheduler.__init__
  unfoldable pub new_scheduler :
      (maximum_queue visible_interval batch_size : ℕ) → Result (Scheduler T)
  unfolding new_queue
  new_scheduler maximum_queue visible_interval batch_size = do
    guard (leb 1 visible_interval) value_error
    guard (leb 1 batch_size && leb batch_size maximum_queue) value_error
    q ← new_queue maximum_queue
    ok (record {
      queue = q;
      visible_interval = visible_interval;
      batch_size = batch_size;
      visibility = visible;
      token = none;
      stopped = true;
      requests = [];
    })

  -- _schedule_locked
  unfoldable pub schedule : ℕ → Scheduler T → Scheduler T
  schedule delay s = if s.stopped || not (is_none s.token) then s else record s {
    token = some (length s.requests);
    requests = call_later delay (length s.requests) ∷ s.requests;
  }

  -- if self._token is not None: self._port.cancel(self._token); self._token = None
  abbrev pub cancel_pending : Option ℕ → Scheduler T → Scheduler T
  cancel_pending none s = s
  cancel_pending (some t) s = record s { token = none; requests = cancels t ∷ s.requests }

  -- The end of `start` and of `_drain`.
  abbrev pub reschedule : Scheduler T → Scheduler T
  reschedule s =
      if leb 1 (length s.queue.items)
      then schedule 0 s
      else if is_visible s.visibility
      then schedule s.visible_interval s
      else s

  unfoldable pub start : Scheduler T → Scheduler T
  unfolding schedule
  start s = reschedule (record s { stopped = false })

  abbrev pub emptied : Queue T → Result (List T × Queue T) → Queue T
  emptied q (ok (front, rest)) = rest
  emptied q (err e) = q

  -- The part of `stop` under the scheduler's lock.
  abbrev pub stop_locked : Scheduler T → Scheduler T
  stop_locked s = cancel_pending s.token (record s { stopped = true })

  -- self._queue.drain()
  unfoldable pub empty_queue : Scheduler T → Scheduler T
  unfolding drain_queue
  empty_queue s = record s { queue = emptied s.queue (drain_queue s.queue none) }

  unfoldable pub stop : Scheduler T → Scheduler T
  unfolding empty_queue
  stop s = empty_queue (stop_locked s)

  unfoldable pub set_visibility : UiVisibility → Scheduler T → Scheduler T
  unfolding schedule
  set_visibility v s =
      let s1 = record s { visibility = v } in
      if is_visible v
      then schedule 0 s1
      else if length s1.queue.items == 0
      then cancel_pending s1.token s1
      else s1

  abbrev pub wake : PostStatus → Scheduler T → Scheduler T
  wake full s = s
  wake added s = schedule 0 s
  wake coalesced s = schedule 0 s

  unfoldable pub post : T → Option String → Scheduler T → PostStatus × Scheduler T
  unfolding post_queue schedule
  post value key s =
      let (status, q) = post_queue s.queue value key in
      (status, wake status (record s { queue = q }))

  unfoldable pub perform : Action T → Scheduler T → Scheduler T
  unfolding start stop set_visibility post
  perform (posts value key) s = (post value key s).1
  perform (sets_visibility v) s = set_visibility v s
  perform starts s = start s
  perform stops s = stop s

  unfoldable pub perform_all : List (Action T) → Scheduler T → Scheduler T
  unfolding perform
  perform_all [] s = s
  perform_all (a ∷ as') s = perform_all as' (perform a s)

  abbrev pub after_item :
      Option Exn → (Scheduler T → Option Exn × Scheduler T) → Scheduler T → Option Exn × Scheduler T
  after_item none go s = go s
  after_item (some e) go s = (some e, s)

  -- for item in …: self._consume(item)
  unfoldable pub deliver : Consumer T → List T → Scheduler T → Option Exn × Scheduler T
  unfolding perform_all
  deliver consume [] s = (none, s)
  deliver consume (x ∷ xs) s =
      let (actions, error) = consume x s in
      after_item error (deliver consume xs) (perform_all actions s)

  -- The end of `_drain`, which an exception leaves out.
  abbrev pub rescheduled : Option Exn × Scheduler T → Option Exn × Scheduler T
  rescheduled (none, s) = (none, reschedule s)
  rescheduled (some e, s) = (some e, s)

  abbrev pub deliver_batch :
      Consumer T → Scheduler T → Result (List T × Queue T) → Option Exn × Scheduler T
  deliver_batch consume s (ok (front, rest)) =
      rescheduled (deliver consume front (record s { queue = rest }))
  deliver_batch consume s (err e) = (some e, s)

  -- _drain: the exception that leaves it, if any, and the scheduler.
  unfoldable pub drain : Consumer T → Scheduler T → Option Exn × Scheduler T
  unfolding drain_queue deliver schedule
  drain consume s =
      let s1 = record s { token = none } in
      if s.stopped
      then (none, s1)
      else deliver_batch consume s1 (drain_queue s1.queue (some s1.batch_size))
