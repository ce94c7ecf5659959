-- ===== src/Rule/Retire/Conserved.antt =====
-- No resolved row is lost or written twice (rule/retire.go).
use mathlib.Core.List.Perm
use mathlib.Core.List.{perm_append_comm, append_assoc, append-nil}
use chalert.Prelude.{
  ◌≡◌, refl, sym, ap, ◌∙◌, subst, List, [], ◌∷◌, ◌++◌, Perm, Option, none, some, Text,
}
use chalert.Time.{Time}
use chalert.Rule.Instance.{AlertInstance}
use chalert.Rule.Retire.{
  StateStore, Retirement, Retirements, collect, save_written, keep_failed, flush_writes,
  flush_pending, flush, enqueue, resolve,
}

-- A log grows by the rows of a write that succeeded.
abbrev grown : {A : Type 0} → Option Text → List A → List A → List A
grown none rows log = log ++ rows
grown (some e) rows log = log

module _ {F : Type 0} where
  -- The rows that wait.
  abbrev pub rows_of : List (Retirement F) → List (AlertInstance F)
  rows_of [] = []
  rows_of (p ∷ ps) = p.rows ++ rows_of ps

  perm_swap : (a r b : List (AlertInstance F)) → Perm (a ++ (r ++ b)) (r ++ (a ++ b))
  perm_swap a r b =
      subst (λ x. Perm x (r ++ (a ++ b))) (append_assoc a r b)
        (subst (λ x. Perm ((a ++ r) ++ b) x) (append_assoc r a b)
          (Perm.append_right b (perm_append_comm a r)))

module _ {F : Type 0} where
  kept_or_logged :
      (p : Retirement F) (ps kept : List (Retirement F)) (e : Option Text)
      (log log' : List (AlertInstance F))
      → Perm (log' ++ rows_of kept) (grown e p.rows log ++ rows_of ps)
      → Perm (log' ++ rows_of (keep_failed p e kept)) (log ++ rows_of (p ∷ ps))
  kept_or_logged p ps kept none log log' h =
      subst (Perm (log' ++ rows_of kept)) (append_assoc log p.rows (rows_of ps)) h
  kept_or_logged p ps kept (some m) log log' h =
      Perm.trans (perm_swap log' p.rows (rows_of kept))
        (Perm.trans (Perm.append_left p.rows h) (Perm.symm (perm_swap log p.rows (rows_of ps))))

module _ {F W : Type 0} where
  -- The store, with the rows written through it so far beside its state.
  abbrev pub logging : StateStore F W → StateStore F (W × List (AlertInstance F))
  logging store = record {
    save = λ rows s. let (e, w) = store.save rows s.0 in (e, (w, s.1));
    load_active = λ s. store.load_active s.0;
    record_history =
        λ at rows s. let (e, w) = store.record_history at rows s.0 in (e, (w, grown e rows s.1));
  }

module _ {F W : Type 0} where
  save_keeps_log :
      (store : StateStore F W) (p : Retirement F) (e : Option Text) (s : W × List (AlertInstance F))
      → (save_written (logging store) p e s).1 ≡ s.1
  unfolding save_written
  save_keeps_log store p none s = refl
  save_keeps_log store p (some m) s = refl

  flush_writes_conserves :
      (store : StateStore F W) (ps : List (Retirement F)) (s : W × List (AlertInstance F))
      → let done = flush_writes (logging store) ps s in
        Perm (done.1.1 ++ rows_of done.0) (s.1 ++ rows_of ps)
  unfolding flush_writes
  flush_writes_conserves store [] s = Perm.refl _
  flush_writes_conserves store (p ∷ ps) s =
      let (e, w) = store.record_history p.at p.rows s.0 in
      let v = save_written (logging store) p e (w, grown e p.rows s.1) in
      let done = flush_writes (logging store) ps v in
      kept_or_logged p ps done.0 e s.1 done.1.1 (
        subst (λ l. Perm (done.1.1 ++ rows_of done.0) (l ++ rows_of ps))
          (save_keeps_log store p e (w, grown e p.rows s.1)) (flush_writes_conserves store ps v))

  flush_pending_conserves :
      (store : StateStore F W) (r : Retirements F) (ps : List (Retirement F))
      (s : W × List (AlertInstance F))
      → r.unwritten_writes ≡ ps
      → let done = flush_pending (logging store) r ps s in
        Perm (done.1.1 ++ rows_of done.0.unwritten_writes) (s.1 ++ rows_of ps)
  unfolding flush_pending
  flush_pending_conserves store r [] s e =
      subst (λ x. Perm (s.1 ++ rows_of x) (s.1 ++ [])) (sym e) (Perm.refl _)
  flush_pending_conserves store r (p ∷ ps) s e = flush_writes_conserves store (p ∷ ps) s

  -- A flush moves rows from the waiting to the written: whichever writes fail, what is written and
  -- what waits afterwards are together what was written and what waited before, each row as often.
  pub flush_conserves :
      (store : StateStore F W) (r : Retirements F) (s : W × List (AlertInstance F))
      → let done = flush (some (logging store)) r s in
        Perm (done.1.1 ++ rows_of done.0.unwritten_writes) (s.1 ++ rows_of r.unwritten_writes)
  unfolding flush
  flush_conserves store r s = flush_pending_conserves store r r.unwritten_writes s refl

module _ {F : Type 0} where
  rows_of-append :
      (ps : List (Retirement F)) (p : Retirement F) → rows_of (ps ++ p ∷ []) ≡ rows_of ps ++ p.rows
  rows_of-append [] p = append-nil p.rows
  rows_of-append (q ∷ ps) p =
      ap (λ x. q.rows ++ x) (rows_of-append ps p) ∙ sym (append_assoc q.rows (rows_of ps) p.rows)

module _ {F W : Type 0} where
  enqueue_conserves :
      (store : StateStore F W) (at : Time) (rows firing_rows : List (AlertInstance F))
      (r : Retirements F) (s : W × List (AlertInstance F))
      → let done = enqueue (some (logging store)) at rows firing_rows r s in
        Perm
          (done.1.1 ++ rows_of done.0.unwritten_writes)
          (s.1 ++ (rows_of r.unwritten_writes ++ rows))
  unfolding enqueue
  enqueue_conserves store at [] firing_rows r s =
      subst (λ x. Perm (s.1 ++ rows_of r.unwritten_writes) (s.1 ++ x))
        (sym (append-nil (rows_of r.unwritten_writes))) (Perm.refl _)
  enqueue_conserves store at (row ∷ rows) firing_rows r s =
      let p : Retirement F = record { at = at; rows = row ∷ rows; firing_rows = firing_rows } in
      let r' = record r { unwritten_writes = r.unwritten_writes ++ p ∷ [] } in
      let done = flush (some (logging store)) r' s in
      subst (λ x. Perm (done.1.1 ++ rows_of done.0.unwritten_writes) (s.1 ++ x))
        (rows_of-append r.unwritten_writes p) (flush_conserves store r' s)

  -- `Resolve` loses no row and doubles none: whichever writes fail, what is written and what waits
  -- afterwards are together what was written, what waited, and the resolved rows of the firing
  -- instances given, each row as often.
  pub resolve_conserves :
      (store : StateStore F W) (at : Time) (instances : List (AlertInstance F)) (r : Retirements F)
      (s : W × List (AlertInstance F))
      → let done = resolve (some (logging store)) at instances r s in
        Perm
          (done.1.1 ++ rows_of done.0.unwritten_writes)
          (s.1 ++ (rows_of r.unwritten_writes ++ (collect at instances).0))
  unfolding resolve
  resolve_conserves store at instances r s =
      enqueue_conserves store at (collect at instances).0 (collect at instances).1 r s
