-- ===== src/Ui/Scheduler/Fifo.antt =====
-- The bounded queue: its bound, the order of delivery and what coalescing replaces.
use rcm_windows.Prelude.{
  leb, if◌then◌else◌, Bool-cases, Option-cases, length, length-append, ok, ℕ, zero, suc, ◌+◌, ◌≤◌,
  min, String, ◌≡◌, refl, ap, subst, inl, inr, true, Option, none, some, List, [], ◌∷◌, ◌++◌, arith,
  eq_iff,
}
use mathlib.Core.List.{map-append}
use rcm_windows.Ui.Scheduler.Defs.{
  key_eq, coalesce, append, post_queue, values, pop_front, drain_queue, QueueEntry, Queue, added,
  coalesced, full,
}

replaced-key :
    (o : Option String) (k j : String) → key_eq o k ≡ true → key_eq (some k) j ≡ key_eq o j
replaced-key none k j e = cc
replaced-key (some i) k j e = ground (arith, eq_iff i k, e)

key_is : (o : Option String) (k : String) → key_eq o k ≡ true → o ≡ some k
key_is none k e = cc
key_is (some j) k e = ap some (ground (arith, eq_iff j k, e))

module _ {T : Type 0} where
  pub length-coalesce :
      (key : String) (value : T) (xs ys : List (QueueEntry T))
      → coalesce key value xs ≡ some ys
      → length ys ≡ length xs
  unfolding coalesce
  length-coalesce key value [] ys e = cc
  length-coalesce key value (x ∷ xs) ys e = elim (Option-cases (coalesce key value xs)) [
    | inl q ↦ ground (arith, e, q)
    | inr (zs, q) ↦ ground (arith, e, q, length-coalesce key value xs zs q)
  ]

  abbrev pub entry : T → Option String → QueueEntry T
  entry value key = record { value = value; coalesce_key = key }

  append-bounded :
      (q : Queue T) (value : T) (key : Option String)
      → length q.items ≤ q.maximum
      → (length (append q value key).1.items ≤ (append q value key).1.maximum)
        × ((append q value key).1.maximum ≡ q.maximum)
  unfolding append
  append-bounded q value key le = elim (Bool-cases (leb q.maximum (length q.items))) [
    | inl e ↦ rw (e, if◌then◌else◌) (le, refl)
    | inr e ↦
        rw (e, if◌then◌else◌)
          (ground (arith, e, length-append q.items (entry value key ∷ [])), refl)
  ]

  -- Every post keeps the queue within its maximum, which stays.
  pub post_queue-bounded :
      (q : Queue T) (value : T) (key : Option String)
      → length q.items ≤ q.maximum
      → (length (post_queue q value key).1.items ≤ (post_queue q value key).1.maximum)
        × ((post_queue q value key).1.maximum ≡ q.maximum)
  unfolding post_queue
  post_queue-bounded q value none le = append-bounded q value none le
  post_queue-bounded q value (some k) le = elim (Option-cases (coalesce k value q.items)) [
    | inl e ↦ rw (e, post_queue) (append-bounded q value (some k) le)
    | inr (ys, e) ↦
        rw (e, post_queue) (ground (arith, e, length-coalesce k value q.items ys e), refl)
  ]

  -- A post that is refused finds the queue full.
  pub post_queue-full :
      (q : Queue T) (value : T) (key : Option String)
      → (post_queue q value key).0 ≡ full
      → (q.maximum ≤ length q.items)
        × ((post_queue q value key).1.items ≡ q.items)
        × ((post_queue q value key).1.dropped ≡ q.dropped + 1)
  unfolding post_queue
  post_queue-full q value none e = ground (arith, e)
  post_queue-full q value (some k) e = ground (arith, e)

  -- How often a key stands in the queue.
  abbrev pub keyed : String → List (QueueEntry T) → ℕ
  keyed k [] = 0
  keyed k (x ∷ xs) = let rest = keyed k xs in if key_eq x.coalesce_key k then suc rest else rest

  keyed-append :
      (k : String) (xs ys : List (QueueEntry T)) → keyed k (xs ++ ys) ≡ keyed k xs + keyed k ys
  keyed-append k [] ys = omega arith
  keyed-append k (x ∷ xs) ys = ground (arith, keyed-append k xs ys)

  keyed-coalesce-none :
      (k : String) (value : T) (xs : List (QueueEntry T))
      → coalesce k value xs ≡ none
      → keyed k xs ≡ 0
  unfolding coalesce
  keyed-coalesce-none k value [] e = refl
  keyed-coalesce-none k value (x ∷ xs) e = elim (Option-cases (coalesce k value xs)) [
    | inl q ↦ ground (arith, e, q, keyed-coalesce-none k value xs q)
    | inr (zs, q) ↦ ground (arith, e, q)
  ]

  keyed-coalesce-some :
      (k j : String) (value : T) (xs ys : List (QueueEntry T))
      → coalesce k value xs ≡ some ys
      → keyed j ys ≡ keyed j xs
  unfolding coalesce
  keyed-coalesce-some k j value [] ys e = cc
  keyed-coalesce-some k j value (x ∷ xs) ys e = elim (Option-cases (coalesce k value xs)) [
    | inl q ↦ ground (arith, e, q, replaced-key x.coalesce_key k j)
    | inr (zs, q) ↦ ground (arith, e, q, keyed-coalesce-some k j value xs zs q)
  ]

  keyed-append_entry :
      (q : Queue T) (value : T) (key : Option String) (j : String)
      → keyed j (append q value key).1.items ≤ keyed j q.items + (if key_eq key j then 1 else 0)
  unfolding append
  keyed-append_entry q value key j = elim (Bool-cases (leb q.maximum (length q.items))) [
    | inl e ↦ rw (e, if◌then◌else◌) (omega arith)
    | inr e ↦ rw (e, if◌then◌else◌, keyed-append) (ground arith)
  ]

  -- No two waiting entries share a coalescing key.
  abbrev pub KeysDistinct : Queue T → Type 0
  KeysDistinct q = (k : String) → keyed k q.items ≤ 1

  post-KeysDistinct :
      (q : Queue T) (value : T) (key : Option String)
      → KeysDistinct q
      → KeysDistinct (post_queue q value key).1
  unfolding post_queue
  post-KeysDistinct q value none h j = omega (arith, keyed-append_entry q value none j, h j)
  post-KeysDistinct q value (some k) h j = elim (Option-cases (coalesce k value q.items)) [
    | inl e ↦
        rw (e, post_queue)
          (ground (
            arith,
            keyed-append_entry q value (some k) j,
            keyed-coalesce-none k value q.items e,
            eq_iff k j,
            h j,
          ))
    | inr (ys, e) ↦ rw (e, post_queue, keyed-coalesce-some k j value q.items ys e) (h j)
  ]

  -- Two queues that differ in one entry with the key: the second one has the value there.
  pub record Replaces (key : String) (value : T) (xs ys : List (QueueEntry T)) : Type 0 where
    pub front : List (QueueEntry T)
    pub old_value : T
    pub back : List (QueueEntry T)
    pub was : xs ≡ front ++ entry old_value (some key) ∷ back
    pub becomes : ys ≡ front ++ entry value (some key) ∷ back

  Replaces-behind :
      (key : String) (value : T) (x : QueueEntry T) (xs ys : List (QueueEntry T))
      → Replaces key value xs ys
      → Replaces key value (x ∷ xs) (x ∷ ys)
  Replaces-behind key value x xs ys r = record {
    front = x ∷ r.front;
    old_value = r.old_value;
    back = r.back;
    was = ap (λ l. x ∷ l) r.was;
    becomes = ap (λ l. x ∷ l) r.becomes;
  }

  coalesce-Replaces :
      (key : String) (value : T) (xs ys : List (QueueEntry T))
      → coalesce key value xs ≡ some ys
      → Replaces key value xs ys
  unfolding coalesce
  coalesce-Replaces key value [] ys e = absurd (cc e)
  coalesce-Replaces key value (x ∷ xs) ys e = elim (Option-cases (coalesce key value xs)) [
    | inl q ↦ elim (Bool-cases (key_eq x.coalesce_key key)) [
      | inl here ↦ record {
        front = [];
        old_value = x.value;
        back = xs;
        was = ap (λ k. entry x.value k ∷ xs) (key_is x.coalesce_key key here);
        becomes = ground (arith, e, q, here);
      }
      | inr away ↦ absurd (ground (arith, e, q, away))
    ]
    | inr (zs, q) ↦
        subst (Replaces key value (x ∷ xs)) (ground (arith, e, q))
          (Replaces-behind key value x xs zs (coalesce-Replaces key value xs zs q))
  ]

  found-coalesce :
      (k : String) (value : T) (xs : List (QueueEntry T))
      → 1 ≤ keyed k xs
      → (ys : List (QueueEntry T)) × (coalesce k value xs ≡ some ys)
  found-coalesce k value xs le = elim (Option-cases (coalesce k value xs)) [
    | inl e ↦ absurd (omega (arith, le, keyed-coalesce-none k value xs e))
    | inr (ys, e) ↦ (ys, e)
  ]

  -- A post to a queue with distinct coalescing keys keeps them distinct. A post with a key that waits
  -- coalesces: the entry with the key gets the new value in its place, and all else stays, also the
  -- bound and the number of values that were dropped.
  pub post_queue-KeysDistinct :
      (q : Queue T) (value : T) (key : Option String)
      → KeysDistinct q
      → KeysDistinct (post_queue q value key).1
        × ((k : String)
            → key ≡ some k
            → 1 ≤ keyed k q.items
            → let (status, after) = post_queue q value key in
              (status ≡ coalesced)
              × Replaces k value q.items after.items
              × (after.maximum ≡ q.maximum)
              × (after.dropped ≡ q.dropped))
  unfolding post_queue
  post_queue-KeysDistinct q value none h = (post-KeysDistinct q value none h, λ k e. absurd (cc e))
  post_queue-KeysDistinct q value (some j) h = (post-KeysDistinct q value (some j) h, replacing)
    where
      replacing :
          (k : String)
          → some j ≡ some k
          → 1 ≤ keyed k q.items
          → let (status, after) = post_queue q value (some j) in
            (status ≡ coalesced)
            × Replaces k value q.items after.items
            × (after.maximum ≡ q.maximum)
            × (after.dropped ≡ q.dropped)
      replacing k e le =
          let same : j ≡ k = cc e in
          let (ys, f) = found-coalesce j value q.items (rw same le) in
          rw (f, post_queue)
            (
              refl,
              subst (λ i. Replaces i value q.items ys) same
                  (coalesce-Replaces j value q.items ys f),
              refl,
              refl,
            )

  pop_front-split :
      (n : ℕ) (xs : List (QueueEntry T))
      → ((pop_front n xs).0 ++ values (pop_front n xs).1 ≡ values xs)
        × (length (pop_front n xs).0 ≡ min n (length xs))
  pop_front-split zero xs = (refl, omega arith)
  pop_front-split (suc n) [] = (refl, omega arith)
  pop_front-split (suc n) (x ∷ xs) =
      let (split, len) = pop_front-split n xs in (ap (λ l. x.value ∷ l) split, omega (arith, len))

  -- A drain with a limit that returns takes the oldest entries, in their order, as many as the limit
  -- allows, and leaves the others.
  pub drain_queue-fifo :
      (q rest : Queue T) (limit : ℕ) (front : List T)
      → drain_queue q (some limit) ≡ ok (front, rest)
      → (front ++ values rest.items ≡ values q.items)
        × (length front ≡ min limit (length q.items))
        × (rest.maximum ≡ q.maximum)
  unfolding drain_queue
  drain_queue-fifo q rest limit front e =
      let (split, len) = pop_front-split (min limit (length q.items)) q.items in
      ground (arith, e, split, len)

  append-added :
      (q : Queue T) (value : T) (key : Option String)
      → (append q value key).0 ≡ added
      → values (append q value key).1.items ≡ values q.items ++ value ∷ []
  unfolding append
  append-added q value key = elim (Bool-cases (leb q.maximum (length q.items))) [
    | inl e ↦ rw (e, if◌then◌else◌) (λ r. cc)
    | inr e ↦
        rw (e, if◌then◌else◌)
          (λ _. map-append (λ (x : QueueEntry T). x.value) q.items (entry value key ∷ []))
  ]

  -- A post that adds an entry puts its value behind all of the values that wait.
  pub post_queue-added :
      (q : Queue T) (value : T) (key : Option String)
      → (post_queue q value key).0 ≡ added
      → values (post_queue q value key).1.items ≡ values q.items ++ value ∷ []
  unfolding post_queue
  post_queue-added q value none = append-added q value none
  post_queue-added q value (some k) = elim (Option-cases (coalesce k value q.items)) [
    | inl e ↦ rw (e, post_queue) (append-added q value (some k))
    | inr (ys, e) ↦ rw (e, post_queue) (λ r. cc)
  ]

  pub length-pop_front : (n : ℕ) (xs : List (QueueEntry T)) → length (pop_front n xs).1 ≤ length xs
  length-pop_front zero xs = omega arith
  length-pop_front (suc n) [] = omega arith
  length-pop_front (suc n) (x ∷ xs) = omega (arith, length-pop_front n xs)

  pub drained_le :
      (q rest : Queue T) (limit : ℕ) (front : List T)
      → drain_queue q (some limit) ≡ ok (front, rest)
      → length q.items ≤ q.maximum
      → length rest.items ≤ rest.maximum
  unfolding drain_queue
  drained_le q rest limit front e le =
      ground (arith, e, length-pop_front (min limit (length q.items)) q.items)
