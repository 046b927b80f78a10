-- ===== src/Grants/Terminates.antt =====
-- `_lock_out_and_terminate`: its loop ends.
use vault_db_access.Prelude.{
  ℕ, zero, suc, ◌≡◌, ◌+◌, ◌*◌, ◌≤◌, ◌<◌, false, List, [], ◌∷◌, Text, ltb, ◌==◌, eq_ℕ, arith,
  Bool-cases, inl, inr,
}
use vault_db_access.Models.{DbType, postgres, clickhouse}
use vault_db_access.Statements.{lockout_statements, terminate_statements}
use vault_db_access.Effects.{
  M, World, Env, done, hung, token_hex, sleep, ask, time, lift, query, count_backends, seconds,
  ◌>>◌,
}
use vault_db_access.Effects.Frame.{Follows-lift, Follows-time}
use vault_db_access.Effects.Halts.{
  never_if, never_bind_on, RunsOn, Halts, Later, Later-frame, never_bind, Halts-pure, Halts-raise,
  Halts-lift, Halts-ask, Halts-time, Halts-bind,
}
use vault_db_access.Vault.Halts.{Halts-introspect_credentials, Halts-run_as_manager}
use vault_db_access.Introspect.{run_query, pg_backends}
use vault_db_access.Introspect.Frames.{Follows-pg_backends}
use vault_db_access.Grants.Frames.{Follows-run_statements}
use vault_db_access.Grants.Teardown.{run_statements, terminate_loop, lock_out_and_terminate}

module _ {env : Env} (on : RunsOn env) where
  pub Halts-pg_backends : (account : Text) → Halts env (pg_backends account)
  unfolding pg_backends run_query
  Halts-pg_backends account =
      Halts-bind _ _ (Halts-introspect_credentials on postgres)
        (λ c. Halts-ask on (query postgres c (count_backends account)))

  pub Halts-run_statements :
      (db : DbType) (grant_id : Text) (ss : List Text) → Halts env (run_statements db grant_id ss)
  unfolding run_statements
  Halts-run_statements db grant_id [] = Halts-pure tt
  Halts-run_statements db grant_id (s ∷ ss) =
      Halts-bind _ _ (Halts-ask on (token_hex 2)) (λ digits. Halts-run_as_manager on db _ (s ∷ ss))

  -- What a clock reading reads, and that the state after it is later.
  time-reads : (w : World) (now : ℕ) → (time env w).0 ≡ done now → env.time w.history ≡ now
  unfolding time
  time-reads w now h = elim (Bool-cases (env.is_killed w.history)) [
    | inl dead ↦ cc (rw dead at h)
    | inr alive ↦ read (rw alive at h)
  ]
    where
      read : {m n : ℕ} → done m ≡ done n → m ≡ n
      read e = cc e

  -- A sleep ends 3 tenths of a second later.
  sleep-never :
      {B : Type 0} (w : World) (k : M B)
      → ((w' : World) → env.time w.history + 3 ≤ env.time w'.history → ¬ ((k env w').0 ≡ hung))
      → ¬ (((ask sleep >> k) env w).0 ≡ hung)
  unfolding ask ◌>>◌
  sleep-never w k hk =
      never_bind w (ask sleep) (λ _. k) ((Halts-ask on sleep).never w)
        (λ u e. hk _ (on.sleeps w.history))

  -- A round: one that goes on found the deadline ahead, and the next starts 3 tenths later.
  round-never :
      (rounds deadline : ℕ) (account grant_id : Text) (w : World)
      → ((w' : World)
          → env.time w.history ≤ deadline
          → env.time w.history + 3 ≤ env.time w'.history
          → ¬ ((terminate_loop rounds deadline account grant_id env w').0 ≡ hung))
      → ¬ ((terminate_loop (suc rounds) deadline account grant_id env w).0 ≡ hung)
  unfolding terminate_loop ◌>>◌
  round-never rounds deadline account grant_id w again =
      let fr = Later-frame env on in
      never_bind_on w on (pg_backends account) _ (Halts-pg_backends account)
        (Follows-pg_backends fr account)
        (λ alive w1 _ later1.
          never_if w1 (alive == 0) _ _ (λ _. (Halts-pure tt).never w1)
            (λ _. never_bind_on w1 on time _ Halts-time (Follows-time fr) (λ now w2 reads later2.
              never_if w2 (ltb deadline now) _ _ (λ _. (Halts-raise {env = env} _).never w2)
                (λ early.
                  never_bind_on w2 on (lift (terminate_statements postgres account)) _
                    (Halts-lift _) (Follows-lift fr _)
                    (λ ss w3 _ later3.
                      never_bind_on w3 on (run_statements postgres grant_id ss) _
                        (Halts-run_statements postgres grant_id ss)
                        (Follows-run_statements fr postgres grant_id ss)
                        (λ u w4 _ later4. sleep-never w4 _ (λ w5 slept.
                          again w5 (before w w1 now later1 (time-reads w1 now reads) early)
                            (ground (arith, later1, later2, later3, later4, slept)))))))))
    where
      before :
          (w w1 : World) (now : ℕ)
          → Later env w w1
          → env.time w1.history ≡ now
          → ltb deadline now ≡ false
          → env.time w.history ≤ deadline
      before w w1 now a b early = ground (arith, a, b, early)

  -- A loop that starts so late that its rounds reach past the deadline ends.
  terminate_loop-never :
      (n deadline : ℕ) (account grant_id : Text) (w : World)
      → deadline < env.time w.history + 3 * n
      → ¬ ((terminate_loop (suc n) deadline account grant_id env w).0 ≡ hung)
  terminate_loop-never zero deadline account grant_id w soon =
      round-never zero deadline account grant_id w
        (λ w' early later. absurd (omega (arith, soon, early)))
  terminate_loop-never (suc n) deadline account grant_id w soon =
      round-never (suc n) deadline account grant_id w (λ w' early later.
        terminate_loop-never n deadline account grant_id w' (omega (arith, soon, later)))

  lock_out-never :
      (db : DbType) (account grant_id : Text) (w : World)
      → ¬ ((lock_out_and_terminate db account grant_id env w).0 ≡ hung)
  unfolding lock_out_and_terminate ◌>>◌
  lock_out-never clickhouse account grant_id w = (Halts-pure tt).never w
  lock_out-never postgres account grant_id w =
      let fr = Later-frame env on in
      never_bind w (lift (lockout_statements postgres account)) _ ((Halts-lift _).never w) (λ ss _.
        never_bind _ (run_statements postgres grant_id ss) _
          ((Halts-run_statements postgres grant_id ss).never _)
          (λ u _. never_bind_on _ on time _ Halts-time (Follows-time fr) (λ now w3 reads later.
            terminate_loop-never 67 (now + seconds 20) account grant_id w3
              (started _ w3 now reads later))))
    where
      started :
          (w w' : World) (now : ℕ)
          → (time env w).0 ≡ done now
          → Later env w w'
          → now + seconds 20 < env.time w'.history + 3 * 67
      started w w' now reads later = ground (arith, time-reads w now reads, later)

-- Where every request to the outside ends, the clock never goes back and a sleep takes its 0.3 s:
-- `lock_out_and_terminate` ends, on every database, account and state; the rounds of its loop
-- are enough for the 20 seconds that the loop gives itself.
pub lock_out_and_terminate-Halts :
    (env : Env)
    → RunsOn env
    → (db : DbType) (account grant_id : Text)
    → Halts env (lock_out_and_terminate db account grant_id)
lock_out_and_terminate-Halts env on db account grant_id = record {
  never = lock_out-never on db account grant_id;
}
