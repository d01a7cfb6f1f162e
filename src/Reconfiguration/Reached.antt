-- ===== src/Reconfiguration/Reached.antt =====
-- About the nodes that `_preflight`, `_stop` and `_push` reach.
use rcm_windows.Reconfiguration.Available.{preflight_all-Covered, Asked, preflight_all-Asked}
use rcm_windows.Prelude.{
  All, contains, from_keys, contains-append, contains-from_keys, String, ◌≡◌, refl, true, false,
  ◌||◌, List, [], ◌∷◌, ◌++◌, arith, eq_refl,
}
use rcm_windows.Reconfiguration.Types.{
  worker_ids, head_id, node_ids, ReconfigurationPlan, Hasher, ReconfigurationCheckpoint, preflight,
  stop, push,
}
use rcm_windows.Reconfiguration.Control.{step_key, Environment}
use rcm_windows.Reconfiguration.Phases.{preflight_phase, stop_all}
use rcm_windows.Reconfiguration.Steps.{Ends}
use rcm_windows.Reconfiguration.Success.{Has, AllHave, stop_all-Ends, Advances, Pushed}

module _ (env : Environment) (hash : Hasher) (plan : ReconfigurationPlan) where
  -- The members of a list of nodes, one by one.
  every :
      (P : String → Type 0) (ns : List String)
      → ((n : String) → contains n ns ≡ true → P n)
      → All P ns
  every P [] h = tt
  every P (n ∷ ns) h =
      (h n (ground (arith, eq_refl n)), every P ns (λ k e. h k (ground (arith, e))))

  abbrev critical_nodes : List String
  critical_nodes = node_ids plan.expected ++ head_id plan.desired ∷ []

  abbrev pub AllReached : ReconfigurationCheckpoint → Type 0
  AllReached d =
      (n : String) → contains n critical_nodes ≡ true → contains n d.unavailable_nodes ≡ false

  pub preflight-Ends :
      (c : ReconfigurationCheckpoint) → Ends AllReached (preflight_phase env hash plan c)
  preflight-Ends c =
      let all = node_ids plan.expected ++ node_ids plan.desired in
      record {
        ends = λ w d e n m.
            (preflight_all-Covered env hash plan n (from_keys all) c.unavailable_nodes c m refl (
                ground (
                  arith,
                  m,
                  contains-from_keys n all,
                  contains-append n (node_ids plan.expected) (node_ids plan.desired),
                  contains-append n (node_ids plan.expected) (head_id plan.desired ∷ []),
                ))).ends
              w d e;
      }

  -- Each node has passed its preflight or is unavailable.
  abbrev pub AllAsked : ReconfigurationCheckpoint → Type 0
  AllAsked d =
      (n : String)
      → contains n (node_ids plan.expected ++ node_ids plan.desired) ≡ true
      → Asked env hash plan n d d.unavailable_nodes

  pub asked-Ends : (c : ReconfigurationCheckpoint) → Ends AllAsked (preflight_phase env hash plan c)
  asked-Ends c =
      let all = node_ids plan.expected ++ node_ids plan.desired in
      record {
        ends = λ w d e n m.
            (preflight_all-Asked env hash plan n (from_keys all) c.unavailable_nodes c refl
                (λ f. absurd (ground (arith, m, f, contains-from_keys n all)))).ends
              w d e;
      }

  -- The nodes that are available have passed.
  pub passed-All :
      (c : ReconfigurationCheckpoint) (ns : List String)
      → AllAsked c
      → ((n : String)
          → contains n ns ≡ true
          → contains n (node_ids plan.expected ++ node_ids plan.desired) ≡ true)
      → All (λ n. contains n c.unavailable_nodes ≡ false) ns
      → AllHave env hash plan preflight ns c
  passed-All c ns asked h free =
      passing ns free
        (every (λ n. Asked env hash plan n c c.unavailable_nodes) ns (λ n m. asked n (h n m)))
    where
      passing :
          (ns : List String)
          → All (λ n. contains n c.unavailable_nodes ≡ false) ns
          → All (λ n. Asked env hash plan n c c.unavailable_nodes) ns
          → AllHave env hash plan preflight ns c
      passing [] f g = tt
      passing (n ∷ ns) f g = (ground (arith, f.0, g.0), passing ns f.1 g.1)

  pub reached_All :
      (c : ReconfigurationCheckpoint)
      → AllReached c
      → All (λ n. contains n c.unavailable_nodes ≡ false) (node_ids plan.expected)
  reached_All c reached =
      every (λ n. contains n c.unavailable_nodes ≡ false) (node_ids plan.expected)
        (λ n m. reached n (
          ground
            (arith, m, contains-append n (node_ids plan.expected) (head_id plan.desired ∷ []))))

  pub reached_head :
      (c : ReconfigurationCheckpoint)
      → AllReached c
      → contains (head_id plan.desired) c.unavailable_nodes ≡ false
  reached_head c reached = reached (head_id plan.desired) (
      ground (
        arith,
        contains-append (head_id plan.desired) (node_ids plan.expected) (head_id plan.desired ∷ []),
        eq_refl (head_id plan.desired),
      ))

  pub stops-Ends :
      (c : ReconfigurationCheckpoint)
      → AllReached c
      → Ends
          (λ d. Advances c d × AllHave env hash plan stop (node_ids plan.expected) d)
          (stop_all env hash plan (node_ids plan.expected) c)
  stops-Ends c reached =
      stop_all-Ends env hash plan (node_ids plan.expected) c (reached_All c reached)

  both :
      (P Q S : String → Type 0) (ns : List String)
      → ((n : String) → P n → Q n → S n)
      → All P ns
      → All Q ns
      → All S ns
  both P Q S [] f p q = tt
  both P Q S (n ∷ ns) f p q = (f n p.0 q.0, both P Q S ns f p.1 q.1)

  -- A node that is available after the pushes has the manifest.
  pub Pushed-All :
      (c d e : ReconfigurationCheckpoint)
      → AllReached c
      → Pushed env hash plan (node_ids plan.desired) c d
      → Advances d e
      → All (λ n. contains n e.unavailable_nodes ≡ false) (worker_ids plan.desired)
      → AllHave env hash plan push (node_ids plan.desired) d
  Pushed-All c d e reached p a free =
      let head_free = p.head_stays (reached_head c reached) in
      (
        ground (arith, p.each.0, head_free),
        both
            (λ n.
              (contains (step_key env push n) d.completed_steps || contains n d.unavailable_nodes)
              ≡ true)
            (λ n. contains n e.unavailable_nodes ≡ false) (λ n. Has d (step_key env push n))
            (worker_ids plan.desired) (λ n h k. ground (arith, h, k, a.same_nodes)) p.each.1 free,
      )
