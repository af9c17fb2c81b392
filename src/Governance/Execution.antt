-- ===== src/Governance/Execution.antt =====
-- contracts/governance/src/lib.rs and timelock.rs: when a proposal that has passed is executed.
use astraport_contracts.Base.{ℕ, ◌+◌, ◌<◌, ◌≤◌, ◌≡◌, ◌≢◌, refl, true, some, arith}
use astraport_contracts.Base.Dict.{lookup, lookup-insert_self, number_key}
use astraport_contracts.Machine.{u64_modulus, wrapping_add_u64, wrapping_add_u64_exact}
use astraport_contracts.Host.{Returns, weaken-Returns, err}
use astraport_contracts.Governance.Types.{
  Address, Dao, Env, Proposal, passed, timelock, executed, TimelockEntry, pending, ready,
  timelock_not_expired,
}
use astraport_contracts.Governance.Helpers.{get_config}
use astraport_contracts.Governance.Timelock
use astraport_contracts.Governance.Timelock.{effective_delay}
use astraport_contracts.Governance.Decision.{is_emergency, execute_proposal, queue_timelock}
use astraport_contracts.Governance.Trace.{Reach}
use astraport_contracts.Governance.Numbering.{opened}
use astraport_contracts.Governance.Locks.{Locked, reached-Locked}

-- The proposal is executed, now.
abbrev pub IsExecuted : Env → ℕ → Proposal → Dao → Type 0
IsExecuted env id p w =
    lookup id w.proposals ≡ some (record p { status = executed; executed_at = env.timestamp })

module _ (env : Env) (id : ℕ) (ex : Address) (w : Dao) (p : Proposal) (entry : TimelockEntry)
    (found : lookup id w.proposals ≡ some p) (waits : p.status ≡ timelock)
    (auth : env.authorized ex ≡ true) (scheduled : lookup id w.timelock_entries ≡ some entry)
    (waiting : entry.status ≡ pending) where
  execute_early :
      env.timestamp < entry.execute_after → execute_proposal env id ex w ≡ err timelock_not_expired
  unfolding execute_proposal Timelock.live_entry Timelock.check_ready Timelock.mark_executed
  execute_early early = ground arith

  execute_late :
      entry.execute_after ≤ env.timestamp
      → Returns (λ _. IsExecuted env id p) (execute_proposal env id ex w)
  unfolding execute_proposal Timelock.live_entry Timelock.check_ready Timelock.mark_executed
  execute_late late = ground (
    arith,
    lookup-insert_self id (record entry { status = ready }) w.timelock_entries,
    lookup-insert_self id (record p { status = executed; executed_at = env.timestamp }) w.proposals,
  )

-- In a state that fewer than 2 ^ 64 - 1 calls reach from the initialization, the execution of a proposal in the timelock, by an
-- executor who authorizes it, fails before the expiry and succeeds at any time from then on.
pub execution_waits_for_timelock :
    (env0 : Env) (admin guardian : Address) {n : ℕ} (env : Env) (id : ℕ) (ex : Address) (w : Dao)
    (p : Proposal)
    → Reach (opened env0 admin guardian) n w
    → n + 1 < u64_modulus
    → lookup id w.proposals ≡ some p
    → p.status ≡ timelock
    → env.authorized ex ≡ true
    → (env.timestamp < p.timelock_expiry → execute_proposal env id ex w ≡ err timelock_not_expired)
      × (p.timelock_expiry ≤ env.timestamp
          → Returns (λ _. IsExecuted env id p) (execute_proposal env id ex w))
execution_waits_for_timelock env0 admin guardian env id ex w p r few found waits auth =
    let l : Locked w id p = reached-Locked env0 admin guardian id p r few found waits in
    (
      λ early. execute_early env id ex w p l.0 found waits auth l.1 l.2 (ground (arith, l.3)),
      λ late. execute_late env id ex w p l.0 found waits auth l.1 l.2 (ground (arith, l.3)),
    )

-- The delay of a proposal under the configuration.
abbrev pub delay_of : Dao → Proposal → ℕ
delay_of w p = effective_delay (is_emergency p.action_type) (get_config w)

-- The entry that is scheduled, and the proposal that waits for it.
abbrev scheduled_entry : Env → ℕ → Dao → Proposal → TimelockEntry
scheduled_entry env id w p = record {
  proposal_id = id;
  scheduled_at = env.timestamp;
  execute_after = wrapping_add_u64 env.timestamp (delay_of w p);
  status = pending;
}

abbrev waiting_proposal : Env → Dao → Proposal → Proposal
waiting_proposal env w p = record p {
  status = timelock;
  timelock_expiry = wrapping_add_u64 env.timestamp (delay_of w p);
}

abbrev IsQueued : Env → ℕ → Proposal → Dao → Dao → Type 0
IsQueued env id p w w1 =
    (lookup id w1.proposals ≡ some (waiting_proposal env w p))
    × (lookup id w1.timelock_entries ≡ some (scheduled_entry env id w p))

queue_ok :
    (env : Env) (id : ℕ) (w : Dao) (p : Proposal)
    → lookup id w.proposals ≡ some p
    → p.status ≡ passed
    → delay_of w p ≢ 0
    → Returns (λ _. IsQueued env id p w) (queue_timelock env id w)
unfolding queue_timelock Timelock.schedule
queue_ok env id w p found good some_delay = ground (
  arith,
  lookup-insert_self id (scheduled_entry env id w p) w.timelock_entries,
  lookup-insert_self id (waiting_proposal env w p) w.proposals,
)

-- A proposal that has passed can be queued, and then executed at any time after its delay by an executor
-- who authorizes it, if the delay is not zero and the expiry is a `u64`.
pub passed_proposal_runs :
    (env later : Env) (id : ℕ) (ex : Address) (w : Dao) (p : Proposal)
    → lookup id w.proposals ≡ some p
    → p.status ≡ passed
    → delay_of w p ≢ 0
    → env.timestamp + delay_of w p < u64_modulus
    → env.timestamp + delay_of w p ≤ later.timestamp
    → later.authorized ex ≡ true
    → Returns
        (λ _ w1.
          Returns
            (λ _. IsExecuted later id (record p { timelock_expiry = env.timestamp + delay_of w p }))
            (execute_proposal later id ex w1))
        (queue_timelock env id w)
passed_proposal_runs env later id ex w p found good some_delay fits late auth =
    weaken-Returns (queue_timelock env id w)
      (λ _ w1 (at, queued). rw⁻¹ (wrapping_add_u64_exact env.timestamp (delay_of w p) fits) (
        execute_late later id ex w1 (waiting_proposal env w p) (scheduled_entry env id w p) at refl
          auth queued refl
          (ground (arith, wrapping_add_u64_exact env.timestamp (delay_of w p) fits, late))))
      (queue_ok env id w p found good some_delay)
