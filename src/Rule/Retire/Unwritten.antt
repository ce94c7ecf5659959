-- ===== src/Rule/Retire/Unwritten.antt =====
-- What a restart is told of retired instances whose rows are not written (rule/retire.go).
use chalert.Prelude.{
  suc, ◌≡◌, refl, ap, List, [], ◌∷◌, map, length, length-append, All, All-append, Option, none,
  some, Text, arith,
}
use chalert.Time.{Time}
use chalert.Rule.Instance.{AlertState, inactive, pending, firing, AlertInstance}
use chalert.Rule.Retire.{
  StateStore, Retirement, Retirements, count_rows, resolved, collect, unwritten, save_written,
  keep_failed, flush_writes, flush_pending, flush, enqueue, resolve,
}

length-map : {A B : Type 0} (f : A → B) (xs : List A) → length (map f xs) ≡ length xs
length-map f [] = refl
length-map f (x ∷ xs) = ap suc (length-map f xs)

module _ {F : Type 0} where
  -- The rows of a write are its firing instances, resolved at its time.
  pub record IsResolving (p : Retirement F) : Type 0 where
    pub rows_of : p.rows ≡ map (resolved p.at) p.firing_rows
    pub all_firing : All (λ a. a.state ≡ firing) p.firing_rows

  abbrev Collected : Time → List (AlertInstance F) × List (AlertInstance F) → Type 0
  Collected at c = (c.0 ≡ map (resolved at) c.1) × All (λ a. a.state ≡ firing) c.1

  collect_step :
      (at : Time) (inst : AlertInstance F) (rest : List (AlertInstance F)) (s : AlertState)
      → inst.state ≡ s
      → Collected at (collect at rest)
      → Collected at (collect at (inst ∷ rest))
  unfolding collect
  collect_step at inst rest firing e c = rw (e, collect) (cc (c.0), (e, c.1))
  collect_step at inst rest pending e c = rw (e, collect) c
  collect_step at inst rest inactive e c = rw (e, collect) c

  collect_lem :
      (at : Time) (instances : List (AlertInstance F)) → Collected at (collect at instances)
  collect_lem at [] = unfold collect in (refl, tt)
  collect_lem at (inst ∷ rest) = collect_step at inst rest inst.state refl (collect_lem at rest)

  unwritten_lem :
      (ps : List (Retirement F))
      → All IsResolving ps
      → (length (unwritten ps) ≡ count_rows ps) × All (λ a. a.state ≡ firing) (unwritten ps)
  unfolding unwritten count_rows
  unwritten_lem [] h = (refl, tt)
  unwritten_lem (p ∷ ps) h =
      let ih = unwritten_lem ps h.1 in
      (
        omega (
          arith,
          length-append p.firing_rows (unwritten ps),
          ih.0,
          ap length h.0.rows_of,
          length-map (resolved p.at) p.firing_rows,
        ),
        All-append _ p.firing_rows (unwritten ps) h.0.all_firing ih.1,
      )

module _ {F : Type 0} where
  keep_failed-All :
      (P : Retirement F → Type 0) (p : Retirement F) (e : Option Text) (ps : List (Retirement F))
      → P p
      → All P ps
      → All P (keep_failed p e ps)
  keep_failed-All P p (some m) ps h k = (h, k)
  keep_failed-All P p none ps h k = k

module _ {F W : Type 0} where
  -- What a flush keeps is among what was there.
  flush_writes-All :
      (P : Retirement F → Type 0) (store : StateStore F W) (ps : List (Retirement F)) (w : W)
      → All P ps
      → All P (flush_writes store ps w).0
  unfolding flush_writes
  flush_writes-All P store [] w h = tt
  flush_writes-All P store (p ∷ ps) w h =
      let (e, w') = store.record_history p.at p.rows w in
      let v = save_written store p e w' in
      keep_failed-All P p e (flush_writes store ps v).0 h.0 (flush_writes-All P store ps v h.1)

  flush_pending-All :
      (P : Retirement F → Type 0) (store : StateStore F W) (r : Retirements F)
      (ps : List (Retirement F)) (w : W)
      → All P r.unwritten_writes
      → All P ps
      → All P (flush_pending store r ps w).0.unwritten_writes
  unfolding flush_pending
  flush_pending-All P store r [] w h k = h
  flush_pending-All P store r (p ∷ ps) w h k = flush_writes-All P store (p ∷ ps) w k

  flush-All :
      (P : Retirement F → Type 0) (store : Option (StateStore F W)) (r : Retirements F) (w : W)
      → All P r.unwritten_writes
      → All P (flush store r w).0.unwritten_writes
  unfolding flush
  flush-All P none r w h = h
  flush-All P (some store) r w h = flush_pending-All P store r r.unwritten_writes w h h

  enqueue-All :
      (P : Retirement F → Type 0) (store : Option (StateStore F W)) (at : Time)
      (rows firing_rows : List (AlertInstance F)) (r : Retirements F) (w : W)
      → P (record { at = at; rows = rows; firing_rows = firing_rows })
      → All P r.unwritten_writes
      → All P (enqueue store at rows firing_rows r w).0.unwritten_writes
  unfolding enqueue
  enqueue-All P none at rows firing_rows r w one h = h
  enqueue-All P (some store) at [] firing_rows r w one h = h
  enqueue-All P (some store) at (row ∷ rows) firing_rows r w one h =
      flush-All P (some store) _ w (All-append P r.unwritten_writes (_ ∷ []) h (one, tt))

  -- `Resolve` and `Flush` keep every waiting write made of firing instances and their resolved rows;
  -- so what a restart is told (`Unwritten`) is as many instances as rows are waiting, and each of
  -- them is as it was firing.
  pub resolve-unwritten :
      (store : Option (StateStore F W)) (at : Time) (instances : List (AlertInstance F))
      (r : Retirements F) (w : W)
      → All IsResolving r.unwritten_writes
      → let ps = (resolve store at instances r w).0.unwritten_writes in
        All IsResolving ps
        × (length (unwritten ps) ≡ count_rows ps)
        × All (λ a. a.state ≡ firing) (unwritten ps)
  unfolding resolve
  resolve-unwritten store at instances r w h =
      let c = collect_lem at instances in
      let kept =
        enqueue-All IsResolving store at (collect at instances).0 (collect at instances).1 r w
          (record { rows_of = c.0; all_firing = c.1 }) h in
      let u = unwritten_lem (resolve store at instances r w).0.unwritten_writes kept in
      (kept, u.0, u.1)
