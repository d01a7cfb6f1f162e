-- ===== src/Tests/UiEvents.antt =====
-- A queue of two entries, one of them with a key, and schedulers around it.
use rcm_windows.Prelude.{
  ◌==◌, if◌then◌else◌, length, runtime_error, ℕ, ◌≤◌, min, String, ◌≡◌, refl, inl, true, false,
  none, some, List, [], ◌∷◌, ◌++◌, arith,
}
use rcm_windows.Ui.Scheduler.{
  post_queue, values, drain_queue, stop, perform, drain, QueueEntry, Queue, Scheduler, Consumer,
  hidden, call_later, posts, sets_visibility, coalesced,
}
use rcm_windows.Ui.Scheduler.Fifo.{
  post_queue-bounded, keyed, KeysDistinct, post_queue-KeysDistinct, drain_queue-fifo, Replaces,
}
use rcm_windows.Ui.Scheduler.Wakeup.{IsAwake, stop_quiet, perform-IsAwake, IsSound}
use rcm_windows.Ui.Scheduler.Threads.{
  one_more, with_queue, Reach-IsAttended, System, IsAttended, enqueue, wake_up, fail, here, next,
}

abbrev keyed_entry : QueueEntry ℕ
keyed_entry = record { value = 1; coalesce_key = some "state" }

abbrev plain_entry : QueueEntry ℕ
plain_entry = record { value = 2; coalesce_key = none }

abbrev two : Queue ℕ
two = record { maximum = 3; items = keyed_entry ∷ plain_entry ∷ []; dropped = 0 }

abbrev awake : Scheduler ℕ
awake = record {
  queue = two;
  visible_interval = 1000;
  batch_size = 1;
  visibility = hidden;
  token = some 0;
  stopped = false;
  requests = call_later 0 0 ∷ [];
}

awake-IsSound : IsSound awake
awake-IsSound = record {
  bounded = omega arith;
  batch_pos = omega arith;
  batch_le = omega arith;
  asleep = λ e. cc;
}

coalesces :
    (post_queue two 9 (some "state")).1.items ≡ record keyed_entry { value = 9 } ∷ plain_entry ∷ []
unfolding post_queue
coalesces = refl

two_distinct : KeysDistinct two
two_distinct k = ground arith

post_queue-KeysDistinct_example :
    KeysDistinct (post_queue two 9 (some "state")).1
    × ((k : String)
        → some "state" ≡ some k
        → 1 ≤ keyed k two.items
        → let (status, after) = post_queue two 9 (some "state") in
          (status ≡ coalesced)
          × Replaces k 9 two.items after.items
          × (after.maximum ≡ 3)
          × (after.dropped ≡ 0))
post_queue-KeysDistinct_example = post_queue-KeysDistinct two 9 (some "state") two_distinct

post_queue-bounded_example :
    (length (post_queue two 9 none).1.items ≤ (post_queue two 9 none).1.maximum)
    × ((post_queue two 9 none).1.maximum ≡ 3)
post_queue-bounded_example = post_queue-bounded two 9 none (omega arith)

abbrev first_value : List ℕ
first_value = 1 ∷ []

drain_queue-fifo_example :
    (first_value ++ values (plain_entry ∷ []) ≡ values two.items)
    × (length first_value ≡ min 1 2)
    × (two.maximum ≡ 3)
unfolding drain_queue
drain_queue-fifo_example =
    drain_queue-fifo two (record two { items = plain_entry ∷ [] }) 1 first_value refl

-- A consumer that posts each value again, hides the window, and raises on 2.
abbrev busy_consumer : Consumer ℕ
busy_consumer n s =
    (posts n none ∷ sets_visibility hidden ∷ [], if n == 2 then some runtime_error else none)

-- Both values are in one batch: the second one raises, and no callback is pending.
raising_drain :
    let (error, t) = drain busy_consumer (record awake { batch_size = 2; token = none }) in
    (error ≡ some runtime_error) × (values t.queue.items ≡ 1 ∷ 2 ∷ [])
unfolding drain
raising_drain = (refl, refl)

perform-IsAwake_example : IsAwake (perform (posts 7 (some "state")) awake)
perform-IsAwake_example = perform-IsAwake (posts 7 (some "state")) awake awake-IsSound (λ e w. refl)

stop_quiet_example :
    ((stop awake).token ≡ none)
    × ((stop awake).stopped ≡ true)
    × ((stop awake).queue.items ≡ [])
    × ((stop awake).queue.maximum ≡ 3)
    × ((stop awake).batch_size ≡ 1)
stop_quiet_example = stop_quiet awake awake-IsSound

abbrev calm : System ℕ
calm = record { scheduler = awake; posting = 0; stopping = 0; delivering = false; raised = false }

calm-IsAttended : IsAttended calm
calm-IsAttended = record { sound = awake-IsSound; items = λ e w. inl refl; shown = λ e w. cc }

abbrev mid_post : System ℕ
mid_post = record calm { scheduler = record awake { token = none }; delivering = true }

-- Another thread posts while the delivery is under way, which an exception then leaves.
Reach-IsAttended_example : IsAttended (record mid_post {
  scheduler = with_queue (post_queue two 9 none).1 mid_post.scheduler;
  posting = one_more (post_queue two 9 none).0 0;
  delivering = false;
  raised = true;
})
Reach-IsAttended_example =
    Reach-IsAttended calm-IsAttended
      (next (next (next here (wake_up refl refl)) (enqueue 9 none)) (fail refl))
