-- ===== src/Kafka/Consumed.antt =====
-- What `Run` of internal/kafka/consumer.go commits.
use fault_tolerant_payment_l.Base.{
  ℕ, suc, ◌≡◌, refl, sym, ◌∙◌, ap, subst, ◌⊎◌, inl, inr, List, [], ◌∷◌, All, All_weaken,
}
use fault_tolerant_payment_l.Apperr.{GoError}
use fault_tolerant_payment_l.Store.Schema.{Message}
use fault_tolerant_payment_l.Store.World.{
  World, Exec, ok, err, Fault, pure, attempt, attempt_result, draw,
}
use fault_tolerant_payment_l.Store.Inversion.{attempt-eq-inr, >>=-run, >>-run, call-run}
use fault_tolerant_payment_l.Store.Outcome.{>>=-keeps, >>-keeps}
use fault_tolerant_payment_l.Store.Keeps.{
  Keeps, attempt-world, pure-Keeps, attempt-Keeps, call-kept, call-Keeps, then-Keeps,
}
use fault_tolerant_payment_l.Kafka.{
  Fetch, stopped, failed, fetched, sleep, commit_message, unless_done, commit_handled, consume, run,
}

-- A handler's work: what holds after it succeeded on a message, whatever it does to other messages and whatever is
-- called, committed or drawn.
pub record IsWork (handle : Message → Exec (Unit {0})) (P : Message → World → Type 0) : Type 0 where
  pub done : (m : Message) (w v : World) → handle m w ≡ (ok tt, v) → P m v
  pub stays : (m n : Message) → Keeps (P m) (handle n)
  pub frame_calls :
      (m : Message) (w : World) (cs : List Fault) → P m w → P m (record w { calls = cs })
  pub frame_commits :
      (m : Message) (w : World) (os : List (ℕ × ℕ)) → P m w → P m (record w { commits = os })
  pub frame_drawn : (m : Message) (w : World) (n : ℕ) → P m w → P m (record w { drawn = n })
  -- a handler commits nothing itself
  pub commits_kept : (n : Message) (w : World) → (handle n w).1.commits ≡ w.commits

-- The reader returns what the partitions hold.
abbrev pub IsFrom : (ℕ → ℕ → Message) → Fetch → Type 0
IsFrom log stopped = Unit
IsFrom log (failed e) = Unit
IsFrom log (fetched partition offset m) = log partition offset ≡ m

module _ (handle : Message → Exec (Unit {0})) (P : Message → World → Type 0)
    (work : IsWork handle P) (log : ℕ → ℕ → Message) where
  -- The work is done for every committed offset.
  abbrev Covered : World → Type 0
  Covered w = All (λ (c : ℕ × ℕ). P (log c.0 c.1) w) w.commits

  frame-Covered :
      (w v : World)
      → v.commits ≡ w.commits
      → ((m : Message) → P m w → P m v)
      → Covered w
      → Covered v
  frame-Covered w v same f h =
      subst (All (λ c. P (log c.0 c.1) v)) (sym same) (All_weaken _ _ w.commits (λ c. f _) h)

  handle-Covered : (m : Message) → Keeps Covered (handle m)
  handle-Covered m w h =
      frame-Covered w (handle m w).1 (work.commits_kept m w) (λ n. work.stays n m w) h

  calls-Covered : (w : World) (cs : List Fault) → Covered w → Covered (record w { calls = cs })
  calls-Covered w cs h = frame-Covered w _ refl (λ n. work.frame_calls n w cs) h

  commit-Covered :
      (p o : ℕ) (w : World) → P (log p o) w → Covered w → Covered (commit_message p o w).1
  unfolding commit_message
  commit-Covered p o w k h = call-kept Covered calls-Covered _ w h (
    work.frame_commits _ _ _ (work.frame_calls _ w _ k),
    All_weaken _ _ w.commits (λ c q. work.frame_commits _ _ _ (work.frame_calls _ w _ q)) h,
  )

  commit_handled-Covered :
      (p o : ℕ) (m : Message) (x : GoError ⊎ Unit {0}) (w v : World)
      → log p o ≡ m
      → attempt (handle m) w ≡ (ok x, v)
      → Covered v
      → Covered (commit_handled p o x v).1
  unfolding commit_handled
  commit_handled-Covered p o m (inl e) w v from ran h = pure-Keeps Covered tt v h
  commit_handled-Covered p o m (inr u) w v from ran h =
      >>=-keeps Covered (attempt (commit_message p o)) (λ _. pure tt) v
        (subst Covered (sym (attempt-world (commit_message p o) v)) (
          commit-Covered p o v
            (subst (λ n. P n v) (sym from) (work.done m w v (attempt-eq-inr (handle m) w ran))) h))
        λ x z e k. pure-Keeps Covered tt z k

  unless_done-Covered :
      (next : Exec (Unit {0})) (x : GoError ⊎ Unit {0})
      → Keeps Covered next
      → Keeps Covered (unless_done next x)
  unfolding unless_done
  unless_done-Covered next (inl e) k w h = pure-Keeps Covered tt w h
  unless_done-Covered next (inr u) k w h = k w h

  draw-Covered : Keeps Covered draw
  unfolding draw
  draw-Covered w h = frame-Covered w _ refl (λ n. work.frame_drawn n w (suc w.drawn)) h

  sleep-Covered : (d : ℕ) → Keeps Covered (sleep d)
  unfolding sleep
  sleep-Covered d = call-Keeps Covered calls-Covered _ (pure-Keeps Covered tt)

  consume-Covered :
      (n : ℕ) (fs : List Fetch) → All (IsFrom log) fs → Keeps Covered (consume handle n fs)
  unfolding consume pure
  consume-Covered n [] h w covered = covered
  consume-Covered n (stopped ∷ fs) h w covered = covered
  consume-Covered n (failed e ∷ fs) h w covered =
      then-Keeps Covered draw _ draw-Covered
        (λ k.
          then-Keeps Covered _ _ (attempt-Keeps Covered _ (sleep-Covered _))
            (λ x. unless_done-Covered _ x (consume-Covered (suc n) fs h.1)))
        w covered
  consume-Covered n (fetched p o m ∷ fs) h w covered =
      >>=-keeps Covered (attempt (handle m)) _ w
        (attempt-Keeps Covered _ (handle-Covered m) w covered)
        λ x v ran c.
          >>-keeps Covered (commit_handled p o x) (consume handle 0 fs) v
            (commit_handled-Covered p o m x w v h.0 ran c) λ u z e k. consume-Covered 0 fs h.1 z k

-- If the reader returns what the partitions hold, and a handler's work is done for every committed offset, then it is so
-- after the consumer's loop, whatever fails.
pub run_commits_handled :
    (handle : Message → Exec (Unit {0})) (P : Message → World → Type 0) (log : ℕ → ℕ → Message)
    (fs : List Fetch) (w : World)
    → IsWork handle P
    → All (IsFrom log) fs
    → All (λ (c : ℕ × ℕ). P (log c.0 c.1) w) w.commits
    → All (λ (c : ℕ × ℕ). P (log c.0 c.1) (run handle fs w).1) (run handle fs w).1.commits
unfolding run
run_commits_handled handle P log fs w work from h = consume-Covered handle P work log 0 fs from w h

attempt-failed :
    {A : Type 0} {e : GoError} {v : World} (m : Exec A) (w : World)
    → m w ≡ (err e, v)
    → attempt m w ≡ (ok (inl e), v)
unfolding attempt attempt_result
attempt-failed m w h = rw h refl

attempt-done :
    {A : Type 0} {a : A} {v : World} (m : Exec A) (w : World)
    → m w ≡ (ok a, v)
    → attempt m w ≡ (ok (inr a), v)
unfolding attempt attempt_result
attempt-done m w h = rw h refl

-- After a message whose handler failed, the loop handles the next one of the partition; if this succeeds and calls
-- work, then the committed offset is the later one, past the failed message.
pub run_passes_failed :
    (handle : Message → Exec (Unit {0})) (p o : ℕ) (m n : Message) (e : GoError) (w v z : World)
    → handle m w ≡ (err e, v)
    → handle n v ≡ (ok tt, z)
    → z.calls ≡ []
    → (run handle (fetched p o m ∷ fetched p (suc o) n ∷ []) w).1.commits ≡ (p, suc o) ∷ z.commits
unfolding run consume commit_handled commit_message pure
run_passes_failed handle p o m n e w v z bad good calm =
    ap (λ x. x.1.commits)
      (>>=-run (attempt (handle m)) _ w (attempt-failed (handle m) w bad)
        ∙ >>-run (pure tt) _ v refl
        ∙ >>=-run (attempt (handle n)) _ v (attempt-done (handle n) v good)
        ∙ >>-run (commit_handled p (suc o) (inr tt)) (consume handle 0 []) z (
            >>=-run (attempt (commit_message p (suc o))) (λ _. pure tt) z
              (attempt-done (commit_message p (suc o)) z (call-run _ z calm))))
