-- ===== src/Ui/Scheduler/Delivery.antt =====
-- About `_drain` of `UiScheduler`: what a delivery leaves, with and without an exception of `consume`.
use rcm_windows.Prelude.{length, Exn, min, ◌≡◌, Option, none, some, List, ◌∷◌, ◌++◌}
use rcm_windows.Ui.Scheduler.Defs.{pop_front, Consumer, Scheduler}
use rcm_windows.Ui.Scheduler.Wakeup.{IsAwake, IsSound}

module _ {T : Type 0} where
  -- `consume` raised the exception for a value of the batch.
  pub record Raised (consume : Consumer T) (batch : List T) (e : Exn) : Type 0 where
    pub earlier : List T
    pub value : T
    pub lost : List T
    pub scheduler : Scheduler T
    pub split : batch ≡ earlier ++ value ∷ lost
    pub raises : (consume value scheduler).1 ≡ some e

  abbrev Delivered : Consumer T → List T → Option Exn × Scheduler T → Type 0
  Delivered consume batch out =
      IsSound out.1 × ((e : Exn) → out.0 ≡ some e → Raised consume batch e)

  -- The values that a delivery takes.
  abbrev pub batch : Scheduler T → List T
  batch s = (pop_front (min s.batch_size (length s.queue.items)) s.queue.items).0

  abbrev after_batch : Scheduler T → Scheduler T
  after_batch s =
      let rest = (pop_front (min s.batch_size (length s.queue.items)) s.queue.items).1 in
      record s { token = none; queue = record s.queue { items = rest } }

  abbrev Wakes : Consumer T → List T → Option Exn × Scheduler T → Type 0
  Wakes consume xs out =
      IsSound out.1
      × (out.0 ≡ none → IsAwake out.1)
      × ((e : Exn) → out.0 ≡ some e → Raised consume xs e)
