-- ===== src/Transaction/Records.antt =====
-- include/cache/transaction/transaction_manager.h: what the transaction manager keeps and is told.
-- Times are milliseconds since the epoch; a clock gives the successive readings of one call.
use qc_database.Prelude.{ℕ, ◌+◌, Bool, List, [], ltb}
use qc_database.Std.Bytes.{Str}
use qc_database.Std.HashMap.{HashMap}
use qc_database.Std.HashSet.{HashSet}
use qc_database.Types.{MultiLevelKey, DataEntry}
use qc_database.Transaction.WaitGraph.{TransactionId}
use qc_database.Transaction.Locks.{LockId}

abbrev pub NodeId : Type 0
NodeId = Str

pub data TransactionState : Type 0 where
  active preparing prepared committing committed aborting aborted timeout_state : TransactionState

pub data OperationType : Type 0 where
  read_operation write_operation delete_operation lock_operation : OperationType

pub data IsolationLevel : Type 0 where
  read_uncommitted read_committed repeatable_read serializable : IsolationLevel

pub record TransactionOperation : Type 0 where
  pub type : OperationType
  pub key : MultiLevelKey
  pub old_value : DataEntry
  pub new_value : DataEntry
  pub version : ℕ
  pub timestamp : ℕ

pub record DistributedTransaction : Type 0 where
  pub transaction_id : TransactionId
  pub coordinator_node : NodeId
  pub participant_nodes : HashSet NodeId
  pub state : TransactionState
  pub isolation_level : IsolationLevel
  pub operations : List TransactionOperation
  pub held_locks : HashSet LockId
  pub created_at : ℕ
  pub last_activity : ℕ
  pub timeout : ℕ
  pub prepare_votes : HashMap NodeId Bool
  pub commit_acks : HashMap NodeId Bool

-- DistributedTransaction(), at the time `now`
abbrev pub new_transaction : ℕ → DistributedTransaction
new_transaction now = record {
  transaction_id = 0;
  coordinator_node = [];
  participant_nodes = [];
  state = active;
  isolation_level = read_committed;
  operations = [];
  held_locks = [];
  created_at = now;
  last_activity = now;
  timeout = 30000;
  prepare_votes = [];
  commit_acks = [];
}

-- DistributedTransaction::is_expired at the time `now`
unfoldable pub has_expired : ℕ → DistributedTransaction → Bool
has_expired now t = ltb (t.last_activity + t.timeout) now

pub data TwoPhaseCommitMessage : Type 0 where
  prepare_request prepare_ok prepare_abort : TwoPhaseCommitMessage
  commit_request commit_ok abort_request abort_ok : TwoPhaseCommitMessage

pub record TpcMessage : Type 0 where
  pub type : TwoPhaseCommitMessage
  pub transaction_id : TransactionId
  pub from_node : NodeId
  pub to_node : NodeId
  pub payload : Str
  pub timestamp : ℕ

-- The calls of TransactionEventHandler that the manager makes.
pub data Event : Type 0 where
  on_transaction_started on_transaction_committed on_transaction_aborted : TransactionId → Event
  on_deadlock_detected : List TransactionId → Event
