-- ===== src/Group/Eval/Schedule.antt =====
-- rule/group.go: the goroutines of a concurrent evaluation. Each waits for a place in the semaphore,
-- executes its rule, and sends the result, which its `recover` does when it panics; the channel has
-- room for all results, so no goroutine waits to send.
use mathlib.Core.List.{map-append, append_assoc, append-nil, Permᴰ}
use mathlib.Core.List.Permᴰ
use chalert.Prelude.{Perm, ◌≡◌, sym, subst, true, List, [], ◌∷◌, ◌++◌, map, length, ℤ, pos, ltb_ℤ}
use chalert.Rule.Instance.{AlertingRule}
use chalert.Group.Eval.{Run}

-- The rules whose goroutines wait for a place, those that execute, and what is in the channel.
pub record Pool (F : Type 0) : Type 0 where
  pub waiting : List (AlertingRule F)
  pub executing : List (AlertingRule F)
  pub sent : List (Run F)

module _ {F : Type 0} where
  abbrev pub spawned : List (AlertingRule F) → Pool F
  spawned rules = record { waiting = rules; executing = []; sent = [] }

  -- The wait group is at its end.
  abbrev pub finished : List (Run F) → Pool F
  finished sent = record { waiting = []; executing = []; sent = sent }

module _ {F : Type 0} (body : AlertingRule F → Run F) (concurrency : ℤ) where
  -- What any of the goroutines does next.
  pub data Step : Pool F → Pool F → Type 0 where
    acquires :
        (xs ys : List (AlertingRule F)) (r : AlertingRule F) (executing : List (AlertingRule F))
        (sent : List (Run F))
        → ltb_ℤ (pos (length executing)) concurrency ≡ true
        → Step
            (record { waiting = xs ++ r ∷ ys; executing = executing; sent = sent })
            (record { waiting = xs ++ ys; executing = r ∷ executing; sent = sent })
    sends :
        (xs ys : List (AlertingRule F)) (r : AlertingRule F) (waiting : List (AlertingRule F))
        (sent : List (Run F))
        → Step
            (record { waiting = waiting; executing = xs ++ r ∷ ys; sent = sent })
            (record { waiting = waiting; executing = xs ++ ys; sent = sent ++ body r ∷ [] })

  pub data Schedule : Pool F → Pool F → Type 0 where
    ends : (p : Pool F) → Schedule p p
    goes : (p q r : Pool F) → Step p q → Schedule q r → Schedule p r

  -- The results that are sent, and those that are still to come.
  results : Pool F → List (Run F)
  results p = map body p.waiting ++ (map body p.executing ++ p.sent)

  -- A result in the middle comes to the front.
  to_front :
      (xs ys : List (AlertingRule F)) (r : AlertingRule F) (l : List (Run F))
      → Permᴰ (map body (xs ++ r ∷ ys) ++ l) (body r ∷ (map body (xs ++ ys) ++ l))
  to_front xs ys r l =
      subst (λ z. Permᴰ (map body (xs ++ r ∷ ys) ++ l) (body r ∷ (z ++ l)))
        (sym (map-append body xs ys))
        (subst (λ z. Permᴰ (z ++ l) (body r ∷ ((map body xs ++ map body ys) ++ l)))
          (sym (map-append body xs (r ∷ ys)))
          (Permᴰ.append_right l (Permᴰ.middle (body r) (map body xs) (map body ys))))

  Step-results : (p q : Pool F) → Step p q → Permᴰ (results p) (results q)
  unfolding results
  Step-results p q (acquires xs ys r executing sent h) =
      let left = map body (xs ++ ys) in
      let l = map body executing ++ sent in
      Permᴰ.trans (to_front xs ys r l) (Permᴰ.symm (Permᴰ.middle (body r) left l))
  Step-results p q (sends xs ys r waiting sent) =
      let left = map body (xs ++ ys) in
      let to_end : Permᴰ (body r ∷ (left ++ sent)) (left ++ (sent ++ body r ∷ [])) =
        subst (λ z. Permᴰ (body r ∷ (left ++ sent)) z) (append_assoc left sent (body r ∷ []))
          (Permᴰ.append_comm (body r ∷ []) (left ++ sent)) in
      Permᴰ.append_left (map body waiting) (Permᴰ.trans (to_front xs ys r sent) to_end)

  Schedule-results : (p q : Pool F) → Schedule p q → Permᴰ (results p) (results q)
  Schedule-results p q (ends _) = Permᴰ.refl (results p)
  Schedule-results p q (goes _ m _ s rest) =
      Permᴰ.trans (Step-results p m s) (Schedule-results m q rest)

  -- When all goroutines have ended, each result was sent once, in some order.
  pub Schedule-sent :
      (rules : List (AlertingRule F)) (sent : List (Run F))
      → Schedule (spawned rules) (finished sent)
      → Permᴰ sent (map body rules)
  unfolding results
  Schedule-sent rules sent s = Permᴰ.symm (
      subst (λ z. Permᴰ z sent) (append-nil (map body rules))
        (Schedule-results (spawned rules) (finished sent) s))

  -- What waits and executes can end.
  complete :
      (waiting executing : List (AlertingRule F)) (sent : List (Run F))
      → ltb_ℤ (pos 0) concurrency ≡ true
      → (all : List (Run F)) × Schedule
          (record { waiting = waiting; executing = executing; sent = sent })
          (finished all)
  complete [] [] sent h = (sent, ends _)
  complete [] (r ∷ executing) sent h =
      let (all, rest) = complete [] executing (sent ++ body r ∷ []) h in
      (all, goes _ _ _ (sends [] executing r [] sent) rest)
  complete (w ∷ waiting) [] sent h =
      let (all, rest) = complete waiting (w ∷ []) sent h in
      (all, goes _ _ _ (acquires [] waiting w [] sent h) rest)
  complete (w ∷ waiting) (r ∷ executing) sent h =
      let (all, rest) = complete (w ∷ waiting) executing (sent ++ body r ∷ []) h in
      (all, goes _ _ _ (sends [] executing r (w ∷ waiting) sent) rest)

  -- The goroutines of a concurrent evaluation never block each other: with a positive concurrency,
  -- whatever they have done up to some moment, they can go on to where each has sent its result, once
  -- and in some order.
  pub Schedule-completes :
      (rules : List (AlertingRule F)) (p : Pool F)
      → ltb_ℤ (pos 0) concurrency ≡ true
      → Schedule (spawned rules) p
      → (sent : List (Run F)) × Schedule p (finished sent) × Perm sent (map body rules)
  unfolding results
  Schedule-completes rules p h s =
      let (sent, rest) = complete p.waiting p.executing p.sent h in
      (
        sent,
        rest,
        ∣ Permᴰ.symm (
            subst (λ z. Permᴰ z sent) (append-nil (map body rules))
              (Permᴰ.trans (Schedule-results (spawned rules) p s)
                (Schedule-results p (finished sent) rest))) ∣₁,
      )
