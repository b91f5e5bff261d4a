-- ===== src/Ring/Trace.antt =====
-- Whole histories: what a client of the ring of include/flowcoro/buffer.h is told, from the constructor on.
use flowcoro.Base.{ℕ, ◌-◌, ◌^◌, ◌≤◌, ◌≡◌, refl, ap, ◌∙◌, List, [], ◌∷◌}
use flowcoro.Fifo
use flowcoro.Fifo.{Op, puts, gets, puts_all, gets_up_to, Reply, taken, got, taken_all, got_all}
use flowcoro.Ring.Cache
use flowcoro.Ring.Cache.{Cache}
use flowcoro.Ring.Cache.Valid.{IsValid, contents}
use flowcoro.Ring.Cache.Refine.{init-IsValid, push_refines, pop_refines}
use flowcoro.Ring.Cache.Batch.{push_batch_refines, pop_batch_refines}

module _ {ℓ} {A : Type ℓ} (d : A) (k : ℕ) where
  pub cache_step : Cache A → Op A → Reply A × Cache A
  cache_step r (puts x) = let (s, r') = Cache.push k r x in (taken s, r')
  cache_step r gets = let (out, r') = Cache.pop d k r in (got out, r')
  cache_step r (puts_all xs) = let (n, r') = Cache.push_batch k r xs in (taken_all n, r')
  cache_step r (gets_up_to n) = let (out, r') = Cache.pop_batch d k r n in (got_all out, r')

  pub cache_run : Cache A → List (Op A) → List (Reply A)
  cache_run r [] = []
  cache_run r (op ∷ ops) = let (reply, r') = cache_step r op in reply ∷ cache_run r' ops

module _ {ℓ} {A : Type ℓ} (d : A) (k : ℕ) (h : k ≤ 64) where
  cache_step_refines :
      (r : Cache A) (op : Op A)
      → IsValid k r
      → let (reply, r') = cache_step d k r op in
        (◌≡◌ {A = Reply A × List A}
          (reply, contents d k r')
          (Fifo.step (2 ^ k - 1) (contents d k r) op))
        × IsValid k r'
  unfolding cache_step Fifo.step
  cache_step_refines r (puts x) v =
      let (e, v') = push_refines d k h r x v in (ap (λ q. (taken q.0, q.1)) e, v')
  cache_step_refines r gets v =
      let (e, v') = pop_refines d k h r v in (ap (λ q. (got q.0, q.1)) e, v')
  cache_step_refines r (puts_all xs) v =
      let (e, v') = push_batch_refines d k h r xs v in (ap (λ q. (taken_all q.0, q.1)) e, v')
  cache_step_refines r (gets_up_to n) v =
      let (e, v') = pop_batch_refines d k h r n v in (ap (λ q. (got_all q.0, q.1)) e, v')

  cache_run_from :
      (ops : List (Op A)) (r : Cache A)
      → IsValid k r
      → cache_run d k r ops ≡ Fifo.run (2 ^ k - 1) (contents d k r) ops
  unfolding cache_run Fifo.run
  cache_run_from [] r v = refl
  cache_run_from (op ∷ ops) r v =
      let (e, v') = cache_step_refines r op v in
      ap (λ l. (cache_step d k r op).0 ∷ l) (cache_run_from ops (cache_step d k r op).1 v')
      ∙ ap (λ q. q.0 ∷ Fifo.run (2 ^ k - 1) q.1 ops) e

  -- Every sequence of `push`, `pop`, `push_batch` and `pop_batch` on a ring of `2 ^ k` cells, k
  -- up to 64, gets from the constructor on the replies of a first-in first-out queue of at most
  -- `2 ^ k - 1` items.
  pub cache_run_refines :
      (ops : List (Op A)) → cache_run d k (Cache.init d k) ops ≡ Fifo.run (2 ^ k - 1) [] ops
  cache_run_refines ops =
      let (v, empty) = init-IsValid d k h in
      cache_run_from ops (Cache.init d k) v ∙ ap (λ q. Fifo.run (2 ^ k - 1) q ops) empty
