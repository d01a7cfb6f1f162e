-- ===== src/Cleanup/History.antt =====
-- src/rcm/cleanup.py: the calls of a facade, one after another.
use rcm_windows.Prelude.{
  ltb, ◌==◌, if◌then◌else◌, length, all, select, All, All-map, Result, ok, err, ℕ, String, ◌≡◌,
  refl, sym, subst, Bool, true, false, not, ◌&&◌, Option, some, List, [], ◌∷◌, map, arith,
}
use rcm_windows.Cleanup.Types.{CleanupPolicy}
use rcm_windows.Cleanup.Facade.{
  Issued, new_facade, get_issued, is_object, distinct_numbers, pid_of, scan, Report, item_done,
  execute_one, execute_loop, execute, CleanupCandidate, CleanupOutcome, Event, Host, World, Facade,
}
use rcm_windows.Cleanup.Force.{execute-Guarded}
use rcm_windows.Cleanup.Growth.{loop_kept}
use rcm_windows.Cleanup.Evidence.{IsOwn, longer-Backed, AllBacked, Good, GoodEnd, scan-Good, Backed}

-- Candidates that are one object are the same, for the candidates of a caller and of the facade.
abbrev pub AreObjects : List CleanupCandidate → Issued → Type 0
AreObjects selected issued = All (λ c. All (λ d. d.object ≡ c.object → d ≡ c) issued) selected

same_number : (m n : ℕ) → (m == n) ≡ true → m ≡ n
same_number m n h = ground arith

and_left : (a b : Bool) → (a && b) ≡ true → (a ≡ true) × (b ≡ true)
and_left true b e = (refl, e)
and_left false b e = absurd (cc e)

module _ (X : CleanupCandidate → Type 0) where
  found_in :
      (b : Bool) (d : CleanupCandidate) (x : Option CleanupCandidate) (c : CleanupCandidate)
      → X d
      → (d.object ≡ c.object → d ≡ c)
      → (is_object x c ≡ true → X c)
      → is_object (if b then some d else x) c ≡ true
      → X c
  found_in true d x c h k rest e = subst X (k (same_number d.object c.object e)) h
  found_in false d x c h k rest e = rest e

  object_found :
      (ticket : ℕ) (issued : Issued) (c : CleanupCandidate)
      → All X issued
      → All (λ d. d.object ≡ c.object → d ≡ c) issued
      → is_object (get_issued ticket issued) c ≡ true
      → X c
  object_found ticket [] c h k e = absurd (cc e)
  object_found ticket (d ∷ rest) c h k e =
      found_in (d.ticket == ticket) d (get_issued ticket rest) c h.0 k.0
        (object_found ticket rest c h.1 k.1) e

  selected_issued :
      (selected : List CleanupCandidate) (issued : Issued)
      → All X issued
      → AreObjects selected issued
      → all (λ c. is_object (get_issued c.ticket issued) c) selected ≡ true
      → All X selected
  selected_issued [] issued h k e = tt
  selected_issued (c ∷ rest) issued h k e =
      let (f, g) =
        and_left (is_object (get_issued c.ticket issued) c)
          (all (λ c. is_object (get_issued c.ticket issued) c) rest) e in
      (object_found c.ticket issued c h k.0 f, selected_issued rest issued h k.1 g)

  kept_in :
      (b : Bool) (x : CleanupCandidate) (xs : List CleanupCandidate)
      → X x
      → All X xs
      → All X (if b then x ∷ xs else xs)
  kept_in true x xs h k = (h, k)
  kept_in false x xs h k = k

  All-select :
      (p : CleanupCandidate → Bool) (xs : List CleanupCandidate) → All X xs → All X (select p xs)
  All-select p [] h = tt
  All-select p (x ∷ xs) h = kept_in (p x) x (select p xs) h.0 (All-select p xs h.1)

module _ (casefold : String → String) (host : Host) (policy : CleanupPolicy) where
  longer-AllBacked :
      (f : Facade) (e : Event) (events : List Event)
      → AllBacked casefold policy events f
      → AllBacked casefold policy (e ∷ events) f
  longer-AllBacked f e events h = (
    h.0,
    All-map (Backed casefold policy events) (Backed casefold policy (e ∷ events)) f.issued
        (λ c k. longer-Backed casefold policy c e events k) h.1,
  )

  item_AllBacked :
      (E : List Event) (c : CleanupCandidate) (go : Facade × World → Result Report × Facade × World)
      (out : Result CleanupOutcome × World) (f : Facade)
      → AllBacked casefold policy E f
      → ((w : World) → AllBacked casefold policy E (go (f, w)).1)
      → AllBacked casefold policy E (item_done c go out f).1
  item_AllBacked E c go (err e, w) f h k = h
  item_AllBacked E c go (ok x, w) f h k = k w

  -- What an execution leaves issued was issued before it.
  loop_AllBacked :
      (E : List Event) (selected : List CleanupCandidate) (f : Facade) (w : World)
      → AllBacked casefold policy E f
      → AllBacked casefold policy E (execute_loop host selected (f, w)).1
  unfolding execute_loop
  loop_AllBacked E [] f w h = h
  loop_AllBacked E (c ∷ rest) f w h =
      let popped =
        All-select (Backed casefold policy E) (λ d. not (d.ticket == c.ticket)) f.issued h.1 in
      item_AllBacked E c (execute_loop host rest) (execute_one host f.policy c w) _ (h.0, popped)
        (λ v. loop_AllBacked E rest _ v (h.0, popped))

  -- The evidence in the log before an execution is in the log after it.
  executed_AllBacked :
      (selected : List CleanupCandidate) (f : Facade) (w : World)
      → AllBacked casefold policy w.events f
      → let out = execute_loop host selected (f, w) in AllBacked casefold policy out.2.events out.1
  executed_AllBacked selected f w h =
      let g = (execute_loop host selected (f, w)).1 in
      loop_kept (λ es. AllBacked casefold policy es g) (longer-AllBacked g) host selected f w
        (loop_AllBacked w.events selected f w h)

  abbrev BackedEnd : {A : Type 0} → A × Facade × World → Type 0
  BackedEnd out = AllBacked casefold policy out.2.events out.1

  choice_AllBacked :
      {A : Type 0} (b : Bool) (x y : A × Facade × World)
      → BackedEnd x
      → BackedEnd y
      → BackedEnd (if b then x else y)
  choice_AllBacked true x y h k = h
  choice_AllBacked false x y h k = k

  owns :
      (E : List Event) (selected : List CleanupCandidate)
      → All (Backed casefold policy E) selected
      → All (λ c. IsOwn policy c.identity) selected
  owns E selected h =
      All-map (Backed casefold policy E) (λ c. IsOwn policy c.identity) selected
        (λ c k. subst (IsOwn policy) (sym k.same_identities) k.own) h

  execute-Good :
      (selected : List CleanupCandidate) (f : Facade) (w : World)
      → AreObjects selected f.issued
      → Good casefold policy f w
      → GoodEnd casefold policy (execute host selected f w)
  unfolding execute
  execute-Good selected f w objects h = (
    choice_AllBacked (ltb f.policy.max_processes (length selected)) _ _ h.0 (
        choice_AllBacked (not (distinct_numbers (map pid_of selected))) _ _ h.0 (
          choice_AllBacked (not (all (λ c. is_object (get_issued c.ticket f.issued) c) selected)) _
            _ h.0 (executed_AllBacked selected f w h.0))),
    execute-Guarded (IsOwn policy) host selected f w
        (λ e.
          owns w.events selected
            (selected_issued (Backed casefold policy w.events) selected f.issued h.0.1 objects e))
        h.1,
  )

-- The calls of a facade, with whatever candidates a caller has.
pub data Reach (casefold : String → String) (host : Host) (policy : CleanupPolicy)
    : Facade → World → Type 0 where
  created :
      (objects : ℕ)
      → Reach casefold host policy (new_facade policy) (record { events = []; objects = objects })
  scans :
      (f : Facade) (w : World)
      → Reach casefold host policy f w
      → Reach casefold host policy (scan casefold host f w).1 (scan casefold host f w).2
  executes :
      (selected : List CleanupCandidate) (f : Facade) (w : World)
      → AreObjects selected f.issued
      → Reach casefold host policy f w
      → Reach casefold host policy (execute host selected f w).1 (execute host selected f w).2

-- In every history of a new facade, whatever candidates a caller passes (two that are one object are
-- the same) and however the backend and the clocks answer: a process that is asked to end is of the
-- configured owner and session and has just been inspected and found the same; one that is forced has
-- also been asked before and outlived a wait; and for each issued candidate there is, in the log, a
-- scan that returned an observation of such a process, followed by the readings of the two clocks,
-- where the candidate has the observation's identity and fingerprint, the monotonic reading, and the
-- name of the first rule that matches the observation at its age by the wall clock.
pub Reach-Good :
    (casefold : String → String) (host : Host) (policy : CleanupPolicy) (f : Facade) (w : World)
    → Reach casefold host policy f w
    → Good casefold policy f w
Reach-Good casefold host policy _ _ (created objects) = ((refl, tt), tt)
Reach-Good casefold host policy _ _ (scans f w r) =
    scan-Good casefold host policy f w (Reach-Good casefold host policy f w r)
Reach-Good casefold host policy _ _ (executes selected f w objects r) =
    execute-Good casefold host policy selected f w objects (Reach-Good casefold host policy f w r)
