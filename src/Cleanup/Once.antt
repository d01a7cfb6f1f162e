-- ===== src/Cleanup/Once.antt =====
-- src/rcm/cleanup.py: the tickets of candidates that `execute` has taken.
use rcm_windows.Prelude.{
  ltb, ◌==◌, if◌then◌else◌, length, all, All, All-map, ◌>>=◌, Result, rejected_error, ok, err, ℕ,
  ◌≡◌, refl, sym, ap, ◌∙◌, subst, Bool, true, false, not, ◌&&◌, none, some, List, [], ◌∷◌, ◌++◌,
  map,
}
use rcm_windows.Cleanup.Facade.{
  Issued, get_issued, pop_issued, is_object, distinct_numbers, pid_of, Report, item_done,
  execute_one, execute_loop, execute, CleanupCandidate, CleanupOutcome, Host, World, Facade,
}

abbrev pub IsTaken : CleanupCandidate → Facade → Type 0
IsTaken c f = get_issued c.ticket f.issued ≡ none

-- A search that skips one candidate, and so does the rest.
skip :
    (t u : ℕ) (d : CleanupCandidate) (rest : Issued)
    → (get_issued t rest ≡ none → get_issued t (pop_issued u rest) ≡ none)
    → get_issued t (d ∷ rest) ≡ none
    → get_issued t (pop_issued u (d ∷ rest)) ≡ none
skip t u d rest h e = skipped (d.ticket == t) (not (d.ticket == u)) refl e
  where
    skipped :
        (b k : Bool)
        → (d.ticket == t) ≡ b
        → (if b then some d else get_issued t rest) ≡ none
        → get_issued t (if k then d ∷ pop_issued u rest else pop_issued u rest) ≡ none
    skipped true k g f = absurd (cc f)
    skipped false true g f = rw (g, h f)
    skipped false false g f = h f

stays_none :
    (t u : ℕ) (issued : Issued)
    → get_issued t issued ≡ none
    → get_issued t (pop_issued u issued) ≡ none
stays_none t u [] e = refl
stays_none t u (d ∷ rest) e = skip t u d rest (stays_none t u rest) e

popped_one :
    (t : ℕ) (d : CleanupCandidate) (rest : Issued) (b : Bool)
    → (d.ticket == t) ≡ b
    → get_issued t (pop_issued t rest) ≡ none
    → get_issued t (if not b then d ∷ pop_issued t rest else pop_issued t rest) ≡ none
popped_one t d rest true e h = h
popped_one t d rest false e h = rw (e, h)

popped_none : (t : ℕ) (issued : Issued) → get_issued t (pop_issued t issued) ≡ none
popped_none t [] = refl
popped_none t (d ∷ rest) = popped_one t d rest (d.ticket == t) refl (popped_none t rest)

module _ (host : Host) where
  item_keeps :
      (X : Facade → Type 0) (c : CleanupCandidate)
      (go : Facade × World → Result Report × Facade × World) (out : Result CleanupOutcome × World)
      (f : Facade)
      → X f
      → ((w : World) → X (go (f, w)).1)
      → X (item_done c go out f).1
  item_keeps X c go (err e, w) f h k = h
  item_keeps X c go (ok x, w) f h k = k w

  loop_keeps :
      (d : CleanupCandidate) (selected : List CleanupCandidate) (f : Facade) (w : World)
      → IsTaken d f
      → IsTaken d (execute_loop host selected (f, w)).1
  unfolding execute_loop
  loop_keeps d [] f w h = h
  loop_keeps d (c ∷ rest) f w h =
      let k = stays_none d.ticket c.ticket f.issued h in
      item_keeps (IsTaken d) c (execute_loop host rest) (execute_one host f.policy c w) _ k
        (λ v. loop_keeps d rest _ v k)

  item_takes :
      (c : CleanupCandidate) (rest : List CleanupCandidate) (out : Result CleanupOutcome × World)
      (f : Facade) (items : Report)
      → ((w : World) (more : Report)
          → (execute_loop host rest (f, w)).0 ≡ ok more
          → All (λ d. IsTaken d (execute_loop host rest (f, w)).1) rest)
      → IsTaken c f
      → (item_done c (execute_loop host rest) out f).0 ≡ ok items
      → All (λ d. IsTaken d (item_done c (execute_loop host rest) out f).1) (c ∷ rest)
  item_takes c rest (err e, w) f items h k g = absurd (cc g)
  item_takes c rest (ok x, w) f items h k g =
      (loop_keeps c rest f w k, reported (execute_loop host rest (f, w)).0 refl g)
    where
      reported :
          (r : Result Report)
          → (execute_loop host rest (f, w)).0 ≡ r
          → (r >>= (λ more. ok (record { pid = pid_of c; outcome = x } ∷ more))) ≡ ok items
          → All (λ d. IsTaken d (execute_loop host rest (f, w)).1) rest
      reported (ok more) e i = h w more e
      reported (err y) e i = absurd (cc i)

  loop_takes :
      (selected : List CleanupCandidate) (f : Facade) (w : World) (items : Report)
      → (execute_loop host selected (f, w)).0 ≡ ok items
      → All (λ c. IsTaken c (execute_loop host selected (f, w)).1) selected
  unfolding execute_loop
  loop_takes [] f w items e = tt
  loop_takes (c ∷ rest) f w items e =
      item_takes c rest (execute_one host f.policy c w) _ items
        (λ v more g. loop_takes rest _ v more g) (popped_none c.ticket f.issued) e

  same_if : {A : Type 0} (b : Bool) (x y : A) → y ≡ x → (if b then x else y) ≡ x
  same_if true x y e = refl
  same_if false x y e = e

  all_fails :
      (p : CleanupCandidate → Bool) (before after : List CleanupCandidate) (c : CleanupCandidate)
      → p c ≡ false
      → all p (before ++ c ∷ after) ≡ false
  all_fails p [] after c e = rw e
  all_fails p (d ∷ before) after c e = fails (p d) (all_fails p before after c e)
    where
      fails : {q : Bool} (b : Bool) → q ≡ false → (b && q) ≡ false
      fails true g = g
      fails false g = refl

  taken_refused :
      (c : CleanupCandidate) (before after : List CleanupCandidate) (f : Facade) (w : World)
      → IsTaken c f
      → execute host (before ++ c ∷ after) f w ≡ (err rejected_error, f, w)
  unfolding execute
  taken_refused c before after f w e =
      let selected = before ++ c ∷ after in
      let unissued =
        all_fails (λ d. is_object (get_issued d.ticket f.issued) d) before after c
          (ap (λ x. is_object x c) e) in
      same_if (ltb f.policy.max_processes (length selected)) _ _ (
        same_if (not (distinct_numbers (map pid_of selected))) _ _ (
          ap (λ b. if not b then (err rejected_error, f, w) else execute_loop host selected (f, w))
            unissued))

  accepted :
      {items : Report} (b : Bool) (f : Facade) (w : World) (x : Result Report × Facade × World)
      → (if b then (err rejected_error, f, w) else x).0 ≡ ok items
      → (if b then (err rejected_error, f, w) else x) ≡ x
  accepted true f w x e = absurd (cc e)
  accepted false f w x e = refl

  execute-loop :
      (selected : List CleanupCandidate) (f : Facade) (w : World) (items : Report)
      → (execute host selected f w).0 ≡ ok items
      → execute host selected f w ≡ execute_loop host selected (f, w)
  unfolding execute
  execute-loop selected f w items e =
      let one = accepted (ltb f.policy.max_processes (length selected)) f w _ e in
      let two =
        accepted (not (distinct_numbers (map pid_of selected))) f w _
          (ap (λ x. x.0) (sym one) ∙ e) in
      one
      ∙ two
      ∙ accepted (not (all (λ c. is_object (get_issued c.ticket f.issued) c) selected)) f w _
          (ap (λ x. x.0) (sym two) ∙ ap (λ x. x.0) (sym one) ∙ e)

  -- After an execution that gives a report, each selection with one of its candidates is refused,
  -- without a call of the backend.
  pub execute_once :
      (selected : List CleanupCandidate) (f : Facade) (w : World) (items : Report)
      → (execute host selected f w).0 ≡ ok items
      → All
          (λ c.
            (before after : List CleanupCandidate) (v : World)
            → execute host (before ++ c ∷ after) (execute host selected f w).1 v
              ≡ (err rejected_error, (execute host selected f w).1, v))
          selected
  execute_once selected f w items e =
      let run = execute-loop selected f w items e in
      All-map (λ c. IsTaken c (execute_loop host selected (f, w)).1) _ selected
        (λ c taken before after v.
          taken_refused c before after (execute host selected f w).1 v
            (subst (λ x. IsTaken c x.1) (sym run) taken))
        (loop_takes selected f w items (ap (λ x. x.0) (sym run) ∙ e))
