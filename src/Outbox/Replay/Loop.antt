-- ===== src/Outbox/Replay/Loop.antt =====
-- The loop of `Replay` of internal/outbox/replay.go over the rows, however its calls end.
use mathlib.Core.List.{append_assoc, append-nil}
use fault_tolerant_payment_l.Base.{
  ℕ, suc, ◌+◌, ◌≡◌, ◌≤◌, refl, sym, ◌∙◌, subst, ◌⊎◌, inl, inr, arith, Text, text, Bool, true, false,
  ◌++◌, List, [], ◌∷◌, map, All, length, Bool-cases,
}
use fault_tolerant_payment_l.Apperr.{GoError, wrapped}
use fault_tolerant_payment_l.Store.Schema.{OutboxRow, Message, ReplayMeta}
use fault_tolerant_payment_l.Store.World.{
  World, broken, ok, pure, attempt, attempt_result, map_err, map_err_result, call, answer,
}
use fault_tolerant_payment_l.Store.Inversion.{>>=-run, next_call-cases}
use fault_tolerant_payment_l.Outbox.Publisher.{publish}
use fault_tolerant_payment_l.Outbox.Replay.{
  ReplayRequest, ReplayResult, replay_message, count, replay_all, add_id, replay_meta,
}

-- A log after records were added that pass a test.
pub data Extended (p : Message → Bool) (old : List Message) : List Message → Type 0 where
  same : Extended p old old
  more :
      {m : Message} {new : List Message}
      → p m ≡ true
      → Extended p old new
      → Extended p old (m ∷ new)

-- What the rows of a replay add to its result and to the log.
pub record Replayed (dry_run : Bool) (rows : List OutboxRow) (before after : ReplayResult)
    (old new : List Message) : Type 0 where
  pub listed : after.event_ids ≡ before.event_ids ++ map (λ r. r.id) rows
  pub matched : after.matched ≡ before.matched
  pub counted :
      dry_run ≡ false
      → after.published + after.failed ≡ before.published + before.failed + length rows
  pub stored : after.published + length old ≤ before.published + length new
  pub untouched :
      dry_run ≡ true → (after ≡ record before { event_ids = after.event_ids }) × (new ≡ old)

-- One record is published, or an error is returned beside it, or without it.
publish-cases :
    (m : Message) (w : World)
    → ((v : World) × (attempt (publish m) w ≡ (ok (inr tt), v))
        × (v.db ≡ w.db)
        × (v.broker ≡ m ∷ w.broker))
      ⊎ ((e : GoError) × (v : World) × (attempt (publish m) w ≡ (ok (inl e), v))
          × (v.db ≡ w.db)
          × (v.broker ≡ w.broker))
      ⊎ ((e : GoError) × (v : World) × (attempt (publish m) w ≡ (ok (inl e), v))
          × (v.db ≡ w.db)
          × (v.broker ≡ m ∷ w.broker))
unfolding publish attempt attempt_result map_err map_err_result call answer
publish-cases m w =
    let v = (attempt (publish m) w).1 in
    let at : GoError → GoError = wrapped (text "kafka: publish to " ++ m.topic) in
    elim (next_call-cases w) [
      | inl e ↦ inl (v, rw e refl, rw e refl, rw e refl)
      | inr (inl (x, e)) ↦ inr (inl (at x, v, rw e refl, rw e refl, rw e refl))
      | inr (inr e) ↦ inr (inr (at broken, v, rw e refl, rw e refl, rw e refl))
    ]

Replayed-dry :
    (d : Bool) (r : OutboxRow) (rs : List OutboxRow) (before after : ReplayResult)
    (old new : List Message)
    → d ≡ true
    → Replayed d rs (record before { event_ids = before.event_ids ++ r.id ∷ [] }) after old new
    → Replayed d (r ∷ rs) before after old new
Replayed-dry d r rs before after old new dry s = record {
  listed = s.listed ∙ append_assoc before.event_ids (r.id ∷ []) (map (λ x. x.id) rs);
  matched = s.matched;
  counted = λ live. cc;
  stored = s.stored;
  untouched = λ x. s.untouched x;
}

Replayed-sent :
    (d : Bool) (r : OutboxRow) (rs : List OutboxRow) (before after : ReplayResult) (m : Message)
    (old new : List Message)
    → d ≡ false
    → Replayed d rs
        (record before {
          event_ids = before.event_ids ++ r.id ∷ [];
          published = suc before.published;
        })
        after
        (m ∷ old)
        new
    → Replayed d (r ∷ rs) before after old new
Replayed-sent d r rs before after m old new live s = record {
  listed = s.listed ∙ append_assoc before.event_ids (r.id ∷ []) (map (λ x. x.id) rs);
  matched = s.matched;
  counted = λ x. (let k = s.counted x in omega arith);
  stored = let k = s.stored in omega arith;
  untouched = λ dry. cc;
}

Replayed-failed :
    (d : Bool) (r : OutboxRow) (rs : List OutboxRow) (before after : ReplayResult)
    (old stored new : List Message)
    → d ≡ false
    → length old ≤ length stored
    → Replayed d rs
        (record before { event_ids = before.event_ids ++ r.id ∷ []; failed = suc before.failed })
        after
        stored
        new
    → Replayed d (r ∷ rs) before after old new
Replayed-failed d r rs before after old stored new live grown s = record {
  listed = s.listed ∙ append_assoc before.event_ids (r.id ∷ []) (map (λ x. x.id) rs);
  matched = s.matched;
  counted = λ x. (let k = s.counted x in omega arith);
  stored = let k = s.stored in omega arith;
  untouched = λ dry. cc;
}

Extended-cons :
    (p : Message → Bool) (m : Message) (old new : List Message)
    → p m ≡ true
    → Extended p (m ∷ old) new
    → Extended p old new
Extended-cons p m old new h same = more h same
Extended-cons p m old new h (more k rest) = more k (Extended-cons p m old _ h rest)

module _ (show : ℕ → Text) (q : ReplayRequest) (p : Message → Bool) where
  -- How the loop ends, from a result and a world.
  pub record LoopEnd (at i : ℕ) (rows : List OutboxRow) (before : ReplayResult) (w : World)
      : Type 0 where
    pub after : ReplayResult
    pub final : World
    pub ran : replay_all show q at i rows before w ≡ (ok after, final)
    pub tables : final.db ≡ w.db
    pub replayed : Replayed q.dry_run rows before after w.broker final.broker
    pub extended : Extended p w.broker final.broker

  live_end :
      (at i : ℕ) (r : OutboxRow) (rs : List OutboxRow) (before : ReplayResult) (w : World)
      (x : GoError ⊎ Unit {0}) (v : World)
      → q.dry_run ≡ false
      → attempt (publish (replay_message show (replay_meta q at i before) r)) w ≡ (ok x, v)
      → v.db ≡ w.db
      → (rest : LoopEnd at (suc i) rs (count x (add_id r before)) v)
      → Replayed q.dry_run (r ∷ rs) before rest.after w.broker rest.final.broker
      → Extended p w.broker rest.final.broker
      → LoopEnd at i (r ∷ rs) before w
  unfolding replay_all
  live_end at i r rs before w x v live e d rest done grown = record {
    after = rest.after;
    final = rest.final;
    ran = rw live (
        >>=-run (attempt (publish (replay_message show (replay_meta q at i before) r))) _ w e
        ∙ rest.ran);
    tables = rest.tables ∙ d;
    replayed = done;
    extended = grown;
  }

  pub replay_all-end :
      (at i : ℕ) (rows : List OutboxRow) (before : ReplayResult) (w : World)
      → All (λ (r : OutboxRow). (meta : ReplayMeta) → p (replay_message show meta r) ≡ true) rows
      → LoopEnd at i rows before w
  unfolding replay_all pure count
  replay_all-end at i [] before w h = record {
    after = before;
    final = w;
    ran = refl;
    tables = refl;
    replayed = record {
      listed = sym (append-nil before.event_ids);
      matched = refl;
      counted = λ live. omega arith;
      stored = omega arith;
      untouched = λ dry. (refl, refl);
    };
    extended = same;
  }
  replay_all-end at i (r ∷ rs) before w h = elim (Bool-cases q.dry_run) [
    | inl dry ↦
        (let rest = replay_all-end at (suc i) rs (add_id r before) w h.1 in
          record {
            after = rest.after;
            final = rest.final;
            ran = rw dry rest.ran;
            tables = rest.tables;
            replayed =
                Replayed-dry q.dry_run r rs before rest.after w.broker rest.final.broker dry
                  rest.replayed;
            extended = rest.extended;
          })
    | inr live ↦ elim (publish-cases (replay_message show (replay_meta q at i before) r) w) [
      | inl (v, e, d, b) ↦
          (let rest = replay_all-end at (suc i) rs (count (inr tt) (add_id r before)) v h.1 in
            live_end at i r rs before w (inr tt) v live e d rest
              (Replayed-sent q.dry_run r rs before rest.after _ w.broker rest.final.broker live (
                subst
                  (λ log.
                    Replayed q.dry_run rs (count (inr tt) (add_id r before)) rest.after log
                      rest.final.broker)
                  b rest.replayed))
              (Extended-cons p _ w.broker rest.final.broker (h.0 _)
                (subst (λ log. Extended p log rest.final.broker) b rest.extended)))
      | inr (inl (x, v, e, d, b)) ↦
          (let rest = replay_all-end at (suc i) rs (count (inl x) (add_id r before)) v h.1 in
            live_end at i r rs before w (inl x) v live e d rest
              (Replayed-failed q.dry_run r rs before rest.after w.broker v.broker rest.final.broker
                live (rw b omega arith) rest.replayed)
              (subst (λ log. Extended p log rest.final.broker) b rest.extended))
      | inr (inr (x, v, e, d, b)) ↦
          (let rest = replay_all-end at (suc i) rs (count (inl x) (add_id r before)) v h.1 in
            live_end at i r rs before w (inl x) v live e d rest
              (Replayed-failed q.dry_run r rs before rest.after w.broker v.broker rest.final.broker
                live (rw b omega arith) rest.replayed)
              (Extended-cons p _ w.broker rest.final.broker (h.0 _)
                (subst (λ log. Extended p log rest.final.broker) b rest.extended)))
    ]
  ]
