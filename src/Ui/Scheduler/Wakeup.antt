-- ===== src/Ui/Scheduler/Wakeup.antt =====
-- About `UiScheduler`: when a callback has to be pending.
use rcm_windows.Ui.Scheduler.Fifo.{post_queue-bounded, post_queue-full}
use rcm_windows.Prelude.{
  leb, length, ℕ, ◌≤◌, min, String, ◌≡◌, refl, sym, ap, ◌∙◌, Bool, true, false, ◌||◌, Option, none,
  List, [], ◌∷◌, arith,
}
use rcm_windows.Ui.Scheduler.Defs.{
  post_queue, pop_front, drain_queue, is_visible, is_none, schedule, cancel_pending, reschedule,
  start, emptied, stop_locked, empty_queue, stop, set_visibility, wake, post, perform, perform_all,
  UiVisibility, PostStatus, QueueEntry, Queue, Scheduler, Action, added, coalesced, full, posts,
  sets_visibility, starts, stops,
}

module _ {T : Type 0} where
  -- What a callback is needed for: waiting events, or a visible window to refresh.
  abbrev pub has_work : Scheduler T → Bool
  has_work s = leb 1 (length s.queue.items) || is_visible s.visibility

  abbrev pub IsAwake : Scheduler T → Type 0
  IsAwake s = s.stopped ≡ false → has_work s ≡ true → is_none s.token ≡ false

  -- What holds of the scheduler also while it delivers.
  pub record IsSound (s : Scheduler T) : Type 0 where
    pub bounded : length s.queue.items ≤ s.queue.maximum
    pub batch_pos : 1 ≤ s.batch_size
    pub batch_le : s.batch_size ≤ s.queue.maximum
    pub asleep : s.stopped ≡ true → s.token ≡ none

  pub schedule-IsSound : (delay : ℕ) (s : Scheduler T) → IsSound s → IsSound (schedule delay s)
  unfolding schedule
  schedule-IsSound delay s v = ground (arith, v)

  schedule-queue : (delay : ℕ) (s : Scheduler T) → (schedule delay s).queue ≡ s.queue
  unfolding schedule
  schedule-queue delay s = ground arith

  -- A request for a callback leaves a running scheduler with one.
  pub schedule-pending :
      (delay : ℕ) (s : Scheduler T) → s.stopped ≡ false → is_none (schedule delay s).token ≡ false
  unfolding schedule
  schedule-pending delay s e = ground arith

  pub schedule-stopped : (delay : ℕ) (s : Scheduler T) → (schedule delay s).stopped ≡ s.stopped
  unfolding schedule
  schedule-stopped delay s = ground arith

  pub reschedule-IsSound : (s : Scheduler T) → IsSound s → IsSound (reschedule s)
  reschedule-IsSound s v =
      ground (arith, schedule-IsSound 0 s v, schedule-IsSound s.visible_interval s v, v)

  pub reschedule-IsAwake : (s : Scheduler T) → IsAwake (reschedule s)
  reschedule-IsAwake s = ground (
    arith,
    schedule-pending 0 s,
    schedule-pending s.visible_interval s,
    schedule-stopped 0 s,
    schedule-stopped s.visible_interval s,
  )

  pub start-IsSound : (s : Scheduler T) → IsSound s → IsSound (start s)
  unfolding start
  start-IsSound s v =
      reschedule-IsSound (record s { stopped = false })
        (record {
          bounded = v.bounded;
          batch_pos = v.batch_pos;
          batch_le = v.batch_le;
          asleep = λ e. cc;
        })

  pub start-IsAwake : (s : Scheduler T) → IsAwake (start s)
  unfolding start
  start-IsAwake s = reschedule-IsAwake (record s { stopped = false })

  pop_all :
      (xs : List (QueueEntry T)) (n : ℕ) → length xs ≤ n → (pop_front (min n (length xs)) xs).1 ≡ []
  pop_all xs n le = let e : min n (length xs) ≡ length xs = omega arith in rw e (all xs)
    where
      all : (ys : List (QueueEntry T)) → (pop_front (length ys) ys).1 ≡ []
      all [] = refl
      all (y ∷ ys) = all ys

  emptied-drain :
      (q : Queue T)
      → length q.items ≤ q.maximum
      → 1 ≤ q.maximum
      → ((emptied q (drain_queue q none)).items ≡ [])
        × ((emptied q (drain_queue q none)).maximum ≡ q.maximum)
  unfolding drain_queue
  emptied-drain q le some_room = ground (arith, pop_all q.items q.maximum le)

  pub cancel_pending-stopped :
      (t : Option ℕ) (s : Scheduler T)
      → s.token ≡ t
      → ((cancel_pending t s).token ≡ none)
        × ((cancel_pending t s).queue ≡ s.queue)
        × ((cancel_pending t s).batch_size ≡ s.batch_size)
        × ((cancel_pending t s).stopped ≡ s.stopped)
  cancel_pending-stopped t s e = ground (arith, e)

  -- A sound scheduler that is stopped has no callback pending and nothing in its queue, whose maximum
  -- and batch size stay.
  pub stop_quiet :
      (s : Scheduler T)
      → IsSound s
      → ((stop s).token ≡ none)
        × ((stop s).stopped ≡ true)
        × ((stop s).queue.items ≡ [])
        × ((stop s).queue.maximum ≡ s.queue.maximum)
        × ((stop s).batch_size ≡ s.batch_size)
  unfolding stop empty_queue
  stop_quiet s v =
      let s0 = record s { stopped = true } in
      let c = cancel_pending-stopped s.token s0 refl in
      let s1 = cancel_pending s.token s0 in
      let d = emptied-drain s1.queue (rw (c.1) v.bounded) (rw (c.1) (omega (arith, v))) in
      (c.0, c.3, d.0, d.1 ∙ ap (λ (q : Queue T). q.maximum) c.1, c.2)

  pub empty_queue-IsSound : (s : Scheduler T) → IsSound s → IsSound (empty_queue s)
  unfolding empty_queue
  empty_queue-IsSound s v =
      let d = emptied-drain s.queue v.bounded (omega (arith, v)) in
      record {
        bounded = ground (arith, d);
        batch_pos = v.batch_pos;
        batch_le = ground (arith, d, v.batch_le);
        asleep = v.asleep;
      }

  pub emptied-items : (s : Scheduler T) → IsSound s → (empty_queue s).queue.items ≡ []
  unfolding empty_queue
  emptied-items s v = (emptied-drain s.queue v.bounded (omega (arith, v))).0

  pub stop_locked-IsSound : (s : Scheduler T) → IsSound s → IsSound (stop_locked s)
  stop_locked-IsSound s v =
      ground (arith, cancel_pending-stopped s.token (record s { stopped = true }) refl, v)

  pub stop-IsSound : (s : Scheduler T) → IsSound s → IsSound (stop s)
  stop-IsSound s v = ground (arith, stop_quiet s v, v)

  pub set_visibility-IsSound :
      (v : UiVisibility) (s : Scheduler T) → IsSound s → IsSound (set_visibility v s)
  unfolding set_visibility
  set_visibility-IsSound v s w =
      let s1 = record s { visibility = v } in
      let w1 : IsSound s1 = record {
        bounded = w.bounded;
        batch_pos = w.batch_pos;
        batch_le = w.batch_le;
        asleep = w.asleep;
      } in
      ground (arith, w, schedule-IsSound 0 s1 w1, cancel_pending-stopped s.token s1)

  pub with_queue-IsSound :
      (q : Queue T) (s : Scheduler T)
      → IsSound s
      → length q.items ≤ q.maximum
      → q.maximum ≡ s.queue.maximum
      → IsSound (record s { queue = q })
  with_queue-IsSound q s v le e = ground (arith, v)

  wake-IsSound : (status : PostStatus) (s : Scheduler T) → IsSound s → IsSound (wake status s)
  wake-IsSound full s v = v
  wake-IsSound added s v = schedule-IsSound 0 s v
  wake-IsSound coalesced s v = schedule-IsSound 0 s v

  post-IsSound :
      (value : T) (key : Option String) (s : Scheduler T) → IsSound s → IsSound (post value key s).1
  unfolding post
  post-IsSound value key s v =
      let (status, q) = post_queue s.queue value key in
      let (le, e) = post_queue-bounded s.queue value key v.bounded in
      wake-IsSound status (record s { queue = q }) (with_queue-IsSound q s v le e)

  perform-IsSound : (a : Action T) (s : Scheduler T) → IsSound s → IsSound (perform a s)
  unfolding perform
  perform-IsSound (posts value key) s v = post-IsSound value key s v
  perform-IsSound (sets_visibility w) s v = set_visibility-IsSound w s v
  perform-IsSound starts s v = start-IsSound s v
  perform-IsSound stops s v = stop-IsSound s v

  pub perform_all-IsSound :
      (actions : List (Action T)) (s : Scheduler T) → IsSound s → IsSound (perform_all actions s)
  unfolding perform_all
  perform_all-IsSound [] s v = v
  perform_all-IsSound (a ∷ rest) s v =
      perform_all-IsSound rest (perform a s) (perform-IsSound a s v)

  wake-IsAwake :
      (status : PostStatus) (s : Scheduler T)
      → (status ≡ full → IsAwake s)
      → IsAwake (wake status s)
  wake-IsAwake full s h = h refl
  wake-IsAwake added s h = λ e w. schedule-pending 0 s (sym (schedule-stopped 0 s) ∙ e)
  wake-IsAwake coalesced s h = λ e w. schedule-pending 0 s (sym (schedule-stopped 0 s) ∙ e)

  post-IsAwake :
      (value : T) (key : Option String) (s : Scheduler T)
      → IsSound s
      → IsAwake s
      → IsAwake (post value key s).1
  unfolding post
  post-IsAwake value key s v h =
      let (status, q) = post_queue s.queue value key in
      wake-IsAwake status (record s { queue = q })
        (λ e.
          let (le, same, _) = post_queue-full s.queue value key e in ground (arith, h, le, same))

  set_visibility-IsAwake :
      (v : UiVisibility) (s : Scheduler T) → IsSound s → IsAwake s → IsAwake (set_visibility v s)
  unfolding set_visibility
  set_visibility-IsAwake v s w h =
      let s1 = record s { visibility = v } in
      ground (
        arith,
        w,
        h,
        schedule-pending 0 s1,
        schedule-stopped 0 s1,
        cancel_pending-stopped s.token s1,
      )

  -- A call from outside of a delivery keeps a callback pending on a sound scheduler where there is work.
  pub perform-IsAwake :
      (a : Action T) (s : Scheduler T) → IsSound s → IsAwake s → IsAwake (perform a s)
  unfolding perform
  perform-IsAwake (posts value key) s v h = post-IsAwake value key s v h
  perform-IsAwake (sets_visibility w) s v h = set_visibility-IsAwake w s v h
  perform-IsAwake starts s v h = start-IsAwake s
  perform-IsAwake stops s v h = ground (arith, stop_quiet s v)
