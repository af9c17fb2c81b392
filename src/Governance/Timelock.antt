-- ===== src/Governance/Timelock.antt =====
-- contracts/governance/src/timelock.rs: the queue of delayed executions.
use astraport_contracts.Base.{
  ℕ, Bool, true, false, Option, none, some, List, [], ◌∷◌, ltb, ◌==◌, if◌then◌else◌,
}
use astraport_contracts.Base.Dict.{Dict, lookup, insert, number_key}
use astraport_contracts.Machine.{wrapping_add_u64}
use astraport_contracts.Host.{◌>>=◌, ◌>>◌, pure, gets, or_fail, fail_if, require, modify}
use astraport_contracts.Governance.Types.{
  Address, TimelockStatus, pending, ready, done, stopped, TimelockEntry, GovernanceConfig, Dao, Env,
  TimelockCall, timelock_scheduled, timelock_executed, timelock_cancelled, entry_not_found,
  delay_not_expired, entry_executed, entry_cancelled, invalid_delay,
}
use astraport_contracts.Governance.Helpers.{publish}

unfoldable pub put_entry : ℕ → TimelockEntry → Dao → Dao
put_entry id entry w = record w { timelock_entries = insert id entry w.timelock_entries }

unfoldable pub schedule : Env → ℕ → ℕ → TimelockCall TimelockEntry
unfolding put_entry publish
schedule env proposal_id delay_seconds = do
  fail_if (delay_seconds == 0) invalid_delay
  let entry : TimelockEntry = record {
    proposal_id = proposal_id;
    scheduled_at = env.timestamp;
    execute_after = wrapping_add_u64 env.timestamp delay_seconds;
    status = pending;
  }
  modify (put_entry proposal_id entry)
  modify (publish (timelock_scheduled proposal_id delay_seconds entry.execute_after))
  pure entry

abbrev pub is_done : TimelockStatus → Bool
is_done done = true
is_done _ = false

abbrev pub is_stopped : TimelockStatus → Bool
is_stopped stopped = true
is_stopped _ = false

-- The entry, if it is neither executed nor cancelled.
unfoldable pub live_entry : ℕ → TimelockCall TimelockEntry
live_entry proposal_id = do
  entry ← or_fail (← gets (λ w. lookup proposal_id w.timelock_entries)) entry_not_found
  fail_if (is_done entry.status) entry_executed
  fail_if (is_stopped entry.status) entry_cancelled
  pure entry

abbrev pub is_ready : TimelockStatus → Bool
is_ready ready = true
is_ready _ = false

unfoldable pub check_ready : Env → ℕ → TimelockCall TimelockEntry
unfolding live_entry put_entry
check_ready env proposal_id = do
  entry ← live_entry proposal_id
  fail_if (ltb env.timestamp entry.execute_after) delay_not_expired
  let updated : TimelockEntry = record entry { status = ready }
  modify (λ w. if is_ready entry.status then w else put_entry proposal_id updated w)
  pure updated

unfoldable pub mark_executed : ℕ → TimelockCall TimelockEntry
unfolding live_entry put_entry publish
mark_executed proposal_id = do
  entry ← live_entry proposal_id
  let updated : TimelockEntry = record entry { status = done }
  modify (put_entry proposal_id updated)
  modify (publish (timelock_executed proposal_id))
  pure updated

unfoldable pub cancel : Env → Address → ℕ → TimelockCall TimelockEntry
unfolding live_entry put_entry publish
cancel env admin proposal_id = do
  require (env.authorized admin)
  entry ← live_entry proposal_id
  let updated : TimelockEntry = record entry { status = stopped }
  modify (put_entry proposal_id updated)
  modify (publish (timelock_cancelled proposal_id))
  pure updated

unfoldable pub effective_delay : Bool → GovernanceConfig → ℕ
effective_delay is_emergency config =
    if is_emergency then config.emergency_timelock_delay else config.timelock_delay

abbrev pub is_waiting : TimelockStatus → Bool
is_waiting pending = true
is_waiting ready = true
is_waiting _ = false

abbrev pub keep_waiting : Option TimelockEntry → List TimelockEntry → List TimelockEntry
keep_waiting none rest = rest
keep_waiting (some e) rest = if is_waiting e.status then e ∷ rest else rest

unfoldable pub get_pending_entries : Dict ℕ TimelockEntry → List ℕ → List TimelockEntry
get_pending_entries entries [] = []
get_pending_entries entries (id ∷ ids) =
    keep_waiting (lookup id entries) (get_pending_entries entries ids)
