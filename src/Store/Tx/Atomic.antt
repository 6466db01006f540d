-- ===== src/Store/Tx/Atomic.antt =====
-- `InTx` and `runOnce` of internal/storage/postgres.go: what a transaction leaves.
use fault_tolerant_payment_l.Base.{
  ℕ, zero, suc, ◌≡◌, refl, subst, ◌∙◌, ◌⊎◌, inl, inr, Bool, true, false, Option, none, some, arith,
  Bool-cases, if◌then◌else◌, [], text,
}
use fault_tolerant_payment_l.Apperr.{GoError, wrapped}
use fault_tolerant_payment_l.Store.Schema.{Db, all_balanced}
use fault_tolerant_payment_l.Store.World.{
  Fault, pass, refuse, lost_reply, World, Result, ok, err, panic, Exec, ◌>>=◌, call, pure,
  next_call, rest_calls, broken, answer, continue, lift, map_err_result,
}
use fault_tolerant_payment_l.Store.Tx.{
  run_once, in_tx, commit, commit_durable, commit_answer, finish, attempts_from, after_attempt,
  pause, sleep_before, rollback, release, retryable, begin, unbalanced,
}

pause_keeps : (n : ℕ) (w : World) → (pause n w).1.db ≡ w.db
unfolding pause sleep_before pure lift ◌>>=◌ continue call begin answer
pause_keeps zero w = refl
pause_keeps (suc n) w = ground arith

module _ {A : Type 0} where
  -- A complete run of `fn` on the tables `before`, with no lock held and no trigger armed at its
  -- start, which ends with `a` and the tables `after` and with every armed trigger content.
  pub record Committed (fn : Exec A) (a : A) (before after : Db) : Type 0 where
    pub start : World
    pub final : World
    pub from_before : start.db ≡ before
    pub unlocked : start.locks ≡ []
    pub disarmed : start.deferred ≡ []
    pub ran : fn start ≡ (ok a, final)
    pub balanced : all_balanced final.deferred final.db.entries ≡ true
    pub stored : after ≡ final.db

  -- What a transaction around `fn` that began on the tables `d` did, by how it ended: a value means
  -- a committed run, a panic means no change, and an error means no change, unless it is the error
  -- of a COMMIT whose answer was lost.
  abbrev pub Atomic : Exec A → Db → Result A × World → Type 0
  Atomic fn d (ok a, w) = Committed fn a d w.db
  Atomic fn d (err e, w) =
      (w.db ≡ d)
      ⊎ ((e ≡ wrapped (text "storage: commit") broken) × ((a : A) × Committed fn a d w.db))
  Atomic fn d (panic m, w) = w.db ≡ d

  -- the server's part of COMMIT, in any world with the final tables
  durable-Atomic :
      (fn : Exec A) (a : A) (start final w : World)
      → start.locks ≡ []
      → start.deferred ≡ []
      → fn start ≡ (ok a, final)
      → w.db ≡ final.db
      → w.deferred ≡ final.deferred
      → (b : Bool) → all_balanced w.deferred w.db.entries ≡ b
      → Atomic fn start.db (
          if b
          then (ok a, release w)
          else (err (wrapped (text "storage: commit") unbalanced), rollback start.db w))
  unfolding rollback release
  durable-Atomic fn a start final w l d r e f true b = record {
    start = start;
    final = final;
    from_before = refl;
    unlocked = l;
    disarmed = d;
    ran = r;
    balanced = rw (← e, ← f) b;
    stored = e;
  }
  durable-Atomic fn a start final w l d r e f false b = inl refl

  lose-Atomic :
      (fn : Exec A) (d : Db) (r : Result A) (w : World)
      → Atomic fn d (r, w)
      → Atomic fn d (err (wrapped (text "storage: commit") broken), w)
  lose-Atomic fn d (ok a) w h = inr (refl, (a, h))
  lose-Atomic fn d (err e) w (inl same) = inl same
  lose-Atomic fn d (err e) w (inr (q, c)) = inr (refl, c)
  lose-Atomic fn d (panic m) w h = inl h

  answer-Atomic :
      (fn : Exec A) (a : A) (start final w : World) (c : Fault)
      → start.locks ≡ []
      → start.deferred ≡ []
      → fn start ≡ (ok a, final)
      → w.db ≡ final.db
      → w.deferred ≡ final.deferred
      → Atomic fn start.db (commit_answer c start.db a w)
  unfolding commit_answer commit_durable rollback
  answer-Atomic fn a start final w pass l d r e f =
      durable-Atomic fn a start final w l d r e f (all_balanced w.deferred w.db.entries) refl
  answer-Atomic fn a start final w (refuse x) l d r e f = inl refl
  answer-Atomic fn a start final w lost_reply l d r e f =
      let (q, w') = commit_durable start.db a w in
      lose-Atomic fn start.db q w'
        (durable-Atomic fn a start final w l d r e f (all_balanced w.deferred w.db.entries) refl)

  finish-Atomic :
      (fn : Exec A) (start : World) (r : Result A) (w : World)
      → start.locks ≡ []
      → start.deferred ≡ []
      → fn start ≡ (r, w)
      → Atomic fn start.db (finish start.db r w)
  unfolding finish commit rollback
  finish-Atomic fn start (ok a) w l d r =
      answer-Atomic fn a start w (record w { calls = rest_calls w.calls }) (next_call w.calls) l d r
        refl refl
  finish-Atomic fn start (err e) w l d r = inl refl
  finish-Atomic fn start (panic m) w l d r = refl

  begun-Atomic :
      (fn : Exec A) (w : World) (c : Fault)
      → Atomic fn w.db (
          continue
            (map_err_result (wrapped (text "storage: begin")) (answer c begin w).0)
            (λ _ w'. (let (r, w'') = fn w' in finish w'.db r w''))
            (answer c begin w).1)
  unfolding answer continue map_err_result begin release
  begun-Atomic fn w pass =
      let (r, w'') = fn (release w) in finish-Atomic fn (release w) r w'' refl refl refl
  begun-Atomic fn w (refuse e) = inl refl
  begun-Atomic fn w lost_reply = inl refl

  -- One attempt is atomic.
  pub run_once-Atomic : (fn : Exec A) (w : World) → Atomic fn w.db (run_once fn w)
  unfolding run_once
  run_once-Atomic fn w =
      begun-Atomic fn (record w { calls = rest_calls w.calls }) (next_call w.calls)

  continue-Atomic :
      {B : Type 0} (fn : Exec A) (d : Db) (r : Result B) (f : B → Exec A) (w : World)
      → w.db ≡ d
      → ((b : B) → Atomic fn d (f b w))
      → Atomic fn d (continue r f w)
  unfolding continue
  continue-Atomic fn d (ok b) f w same h = h b
  continue-Atomic fn d (err e) f w same h = inl same
  continue-Atomic fn d (panic m) f w same h = same

  -- a lost COMMIT is not retried, so a retry begins on unchanged tables
  after-Atomic :
      (fn : Exec A) (d : Db) (retry : GoError → Exec A) (r : Result A) (w : World)
      → Atomic fn d (r, w)
      → ((e : GoError) → w.db ≡ d → Atomic fn d (retry e w))
      → Atomic fn d (after_attempt retry r w)
  unfolding after_attempt retryable
  after-Atomic fn d retry (ok a) w h k = h
  after-Atomic fn d retry (err e) w (inl same) k = elim (Bool-cases (retryable e)) [
    | inl again ↦ rw again (k e same)
    | inr last ↦ rw last (inl same)
  ]
  after-Atomic fn d retry (err e) w (inr (q, c)) k = rw q (inr (refl, c))
  after-Atomic fn d retry (panic m) w h k = h

  attempts-Atomic :
      (fn : Exec A) (d : Db) (left attempt : ℕ) (last : Option GoError) (w : World)
      → w.db ≡ d
      → Atomic fn d (attempts_from left attempt last fn w)
  unfolding attempts_from ◌>>=◌
  attempts-Atomic fn d zero attempt last w same = inl same
  attempts-Atomic fn d (suc left) attempt last w same =
      let (p, w1) = pause attempt w in
      let (r, w2) = run_once fn w1 in
      let kept : w1.db ≡ d = pause_keeps attempt w ∙ same in
      let ran : Atomic fn d (r, w2) =
        subst (λ b. Atomic fn b (run_once fn w1)) kept (run_once-Atomic fn w1) in
      continue-Atomic fn d p _ w1 kept (λ _.
        after-Atomic fn d _ r w2 ran
          (λ e again. attempts-Atomic fn d left (suc attempt) (some e) w2 again))

  -- `InTx` is atomic for any function, number of retries and schedule of failures: with a value the
  -- tables are those that one complete run of the function left; with an error or a panic they are
  -- unchanged, unless the error is that of a COMMIT whose answer was lost.
  pub in_tx-Atomic :
      (fn : Exec A) (max_retries : ℕ) (w : World) → Atomic fn w.db (in_tx max_retries fn w)
  unfolding in_tx
  in_tx-Atomic fn max_retries w = attempts-Atomic fn w.db max_retries 0 none w refl
