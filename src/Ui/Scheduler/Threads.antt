-- ===== src/Ui/Scheduler/Threads.antt =====
-- The scheduler under threads. A post takes the queue's lock and then, separately, the scheduler's; a
-- stop takes the scheduler's lock and then, separately, the queue's; a delivery lets go of both locks
-- while it consumes. Here these are separate steps, in any order.
use rcm_windows.Ui.Scheduler.Fifo.{
  post_queue-bounded, post_queue-full, drain_queue-fifo, drained_le,
}
use rcm_windows.Prelude.{
  leb, length, ok, ℕ, suc, ◌+◌, ◌<◌, String, ◌≡◌, refl, sym, ◌∙◌, ◌⊎◌, inl, inr, Bool, true, false,
  Option, none, some, List, arith,
}
use rcm_windows.Ui.Scheduler.Defs.{
  post_queue, drain_queue, is_visible, is_none, schedule, reschedule, start, stop_locked,
  empty_queue, set_visibility, UiVisibility, PostStatus, Queue, Scheduler, added, coalesced, full,
}
use rcm_windows.Ui.Scheduler.Wakeup.{
  IsAwake, schedule-IsSound, schedule-pending, schedule-stopped, reschedule-IsSound,
  reschedule-IsAwake, start-IsSound, start-IsAwake, cancel_pending-stopped, empty_queue-IsSound,
  emptied-items, stop_locked-IsSound, set_visibility-IsSound, with_queue-IsSound, IsSound,
}

-- `posting` counts the threads that have posted to the queue and have not yet scheduled; `stopping`
-- those that are to empty the queue at the end of `stop`; `delivering` is the UI thread between the
-- first and the last part of `_drain`; `raised` says that the last delivery to end was left by an
-- exception, and that neither a post nor `start` has asked for a callback since.
pub record System (T : Type 0) : Type 0 where
  pub scheduler : Scheduler T
  pub posting : ℕ
  pub stopping : ℕ
  pub delivering : Bool
  pub raised : Bool

abbrev pub one_more : PostStatus → ℕ → ℕ
one_more full n = n
one_more added n = n + 1
one_more coalesced n = n + 1

module _ {T : Type 0} where
  abbrev pub with_queue : Queue T → Scheduler T → Scheduler T
  with_queue q s = record s { queue = q }

  pub data Step (a : System T) : System T → Type 0 where
    -- `post`, its first half and its second.
    enqueue :
        (value : T) (key : Option String)
        → Step a (record a {
          scheduler = with_queue (post_queue a.scheduler.queue value key).1 a.scheduler;
          posting = one_more (post_queue a.scheduler.queue value key).0 a.posting;
        })
    notify :
        {n : ℕ}
        → a.posting ≡ suc n
        → Step a (record a { scheduler = schedule 0 a.scheduler; posting = n; raised = false })
    -- `_drain`: the token is cleared; a batch is taken; the rest is scheduled.
    wake_stopped :
        a.scheduler.stopped ≡ true
        → Step a (record a { scheduler = record a.scheduler { token = none } })
    wake_up :
        a.scheduler.stopped ≡ false
        → a.delivering ≡ false
        → Step a (record a { scheduler = record a.scheduler { token = none }; delivering = true })
    take_batch :
        (front : List T) (rest : Queue T)
        → a.delivering ≡ true
        → drain_queue a.scheduler.queue (some a.scheduler.batch_size) ≡ ok (front, rest)
        → Step a (record a { scheduler = with_queue rest a.scheduler })
    finish :
        a.delivering ≡ true
        → Step a
            (record a { scheduler = reschedule a.scheduler; delivering = false; raised = false })
    -- An exception of `consume` leaves `_drain`.
    fail : a.delivering ≡ true → Step a (record a { delivering = false; raised = true })
    -- The other calls hold the scheduler's lock.
    show_or_hide :
        (v : UiVisibility) → Step a (record a { scheduler = set_visibility v a.scheduler })
    starting : Step a (record a { scheduler = start a.scheduler; raised = false })
    -- `stop`, its part under the lock and its end.
    stop_first :
        Step a (record a { scheduler = stop_locked a.scheduler; stopping = a.stopping + 1 })
    stop_last :
        {n : ℕ}
        → a.stopping ≡ suc n
        → Step a (record a { scheduler = empty_queue a.scheduler; stopping = n })

  pub data Reach (a : System T) : System T → Type 0 where
    here : Reach a a
    next : {b c : System T} → Reach a b → Step b c → Reach a c

  abbrev pub has_items : Scheduler T → Bool
  has_items s = leb 1 (length s.queue.items)

  -- Somebody will look at the queue: a pending callback, a posting thread or the delivery itself. Only
  -- a delivery that was left by an exception leaves nobody.
  pub record IsAttended (a : System T) : Type 0 where
    pub sound : IsSound a.scheduler
    pub items :
        a.scheduler.stopped ≡ false
        → has_items a.scheduler ≡ true
        → (is_none a.scheduler.token ≡ false)
          ⊎ ((0 < a.posting) ⊎ ((a.delivering ≡ true) ⊎ (a.raised ≡ true)))
    pub shown :
        a.scheduler.stopped ≡ false
        → is_visible a.scheduler.visibility ≡ true
        → (is_none a.scheduler.token ≡ false) ⊎ ((a.delivering ≡ true) ⊎ (a.raised ≡ true))

  enqueue-items :
      (status : PostStatus) (q : Queue T) (a : System T)
      → (status ≡ full → q.items ≡ a.scheduler.queue.items)
      → IsAttended a
      → a.scheduler.stopped ≡ false
      → leb 1 (length q.items) ≡ true
      → (is_none a.scheduler.token ≡ false)
        ⊎ ((0 < one_more status a.posting) ⊎ ((a.delivering ≡ true) ⊎ (a.raised ≡ true)))
  enqueue-items full q a same h e w = h.items e (rw (← same refl) w)
  enqueue-items added q a same h e w = inr (inl (omega arith))
  enqueue-items coalesced q a same h e w = inr (inl (omega arith))

  enqueue-IsAttended :
      (value : T) (key : Option String) (a : System T)
      → IsAttended a
      → let out = post_queue a.scheduler.queue value key in
        IsAttended (record a {
          scheduler = with_queue out.1 a.scheduler;
          posting = one_more out.0 a.posting;
        })
  enqueue-IsAttended value key a h =
      let (status, q) = post_queue a.scheduler.queue value key in
      let (le, e) = post_queue-bounded a.scheduler.queue value key h.sound.bounded in
      record {
        sound = with_queue-IsSound q a.scheduler h.sound le e;
        items = enqueue-items status q a (λ f. (post_queue-full a.scheduler.queue value key f).1) h;
        shown = h.shown;
      }

  -- What a scheduler that is awake gives to the system around it.
  awake-IsAttended :
      (s : Scheduler T) (a : System T)
      → IsSound s
      → IsAwake s
      → IsAttended (record a { scheduler = s })
  awake-IsAttended s a v h = record {
    sound = v;
    items = λ e w. inl (h e (ground (arith, w)));
    shown = λ e w. inl (h e (ground (arith, w)));
  }

  scheduled-IsAttended :
      (a : System T)
      → IsSound a.scheduler
      → IsAttended (record a { scheduler = schedule 0 a.scheduler })
  scheduled-IsAttended a v =
      awake-IsAttended (schedule 0 a.scheduler) a (schedule-IsSound 0 a.scheduler v)
        (λ e w. schedule-pending 0 a.scheduler (sym (schedule-stopped 0 a.scheduler) ∙ e))

  set_visibility-IsAttended :
      (v : UiVisibility) (a : System T)
      → IsAttended a
      → IsAttended (record a { scheduler = set_visibility v a.scheduler })
  unfolding set_visibility
  set_visibility-IsAttended v a h =
      let s1 = record a.scheduler { visibility = v } in
      record {
        sound = set_visibility-IsSound v a.scheduler h.sound;
        items = ground (
          arith,
          h,
          schedule-pending 0 s1,
          schedule-stopped 0 s1,
          cancel_pending-stopped a.scheduler.token s1,
        );
        shown = ground (
          arith,
          h,
          schedule-pending 0 s1,
          schedule-stopped 0 s1,
          cancel_pending-stopped a.scheduler.token s1,
        );
      }

  Step-IsAttended : {a b : System T} → IsAttended a → Step a b → IsAttended b
  unfolding empty_queue
  Step-IsAttended {a} h (enqueue value key) = enqueue-IsAttended value key a h
  Step-IsAttended {a} h (notify {n = n} e) =
      scheduled-IsAttended (record a { posting = n; raised = false }) h.sound
  Step-IsAttended h (wake_stopped e) = ground (arith, h)
  Step-IsAttended h (wake_up e f) = ground (arith, h)
  Step-IsAttended {a} h (take_batch front rest d e) = record {
    sound =
        with_queue-IsSound rest a.scheduler h.sound
          (drained_le a.scheduler.queue rest a.scheduler.batch_size front e h.sound.bounded)
          (drain_queue-fifo a.scheduler.queue rest a.scheduler.batch_size front e).2;
    items = λ _ _. inr (inr (inl d));
    shown = λ _ _. inr (inl d);
  }
  Step-IsAttended {a} h (finish d) =
      awake-IsAttended (reschedule a.scheduler) (record a { delivering = false; raised = false })
        (reschedule-IsSound a.scheduler h.sound) (reschedule-IsAwake a.scheduler)
  Step-IsAttended h (fail d) = record {
    sound = h.sound;
    items = λ _ _. inr (inr (inr refl));
    shown = λ _ _. inr (inr refl);
  }
  Step-IsAttended {a} h (show_or_hide v) = set_visibility-IsAttended v a h
  Step-IsAttended {a} h starting =
      awake-IsAttended (start a.scheduler) (record a { raised = false })
        (start-IsSound a.scheduler h.sound) (start-IsAwake a.scheduler)
  Step-IsAttended {a} h stop_first =
      let s0 = record a.scheduler { stopped = true } in
      let (_, _, _, down) = cancel_pending-stopped a.scheduler.token s0 refl in
      awake-IsAttended (stop_locked a.scheduler) (record a { stopping = a.stopping + 1 })
        (stop_locked-IsSound a.scheduler h.sound) (λ e. absurd (cc (down, e)))
  Step-IsAttended {a} h (stop_last {n = n} e) = record {
    sound = empty_queue-IsSound a.scheduler h.sound;
    items = λ _ w. absurd (ground (arith, w, emptied-items a.scheduler h.sound));
    shown = h.shown;
  }

  -- From an attended scheduler every order of the steps of any number of threads leads to an attended
  -- one: while it is not stopped and values wait, a callback is pending, a post is about to schedule
  -- one, or the delivery is under way, and while it is not stopped and visible, a callback is pending
  -- or the delivery is under way. The one exception, to both: the last delivery to end was left by an
  -- exception of `consume`, and neither a post nor `start` has asked for a callback since.
  pub Reach-IsAttended : {a b : System T} → IsAttended a → Reach a b → IsAttended b
  Reach-IsAttended h here = h
  Reach-IsAttended h (next r st) = Step-IsAttended (Reach-IsAttended h r) st
