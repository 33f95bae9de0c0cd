-- ===== src/Core/Kinds.antt =====
-- The enumerations of src/ragplan/core/models.py that the modelled components share.
use oss.Prelude.{Bool, true, false}

pub data BranchKind : Type 0 where
  vector graph : BranchKind

pub data BranchStatus : Type 0 where
  not_scheduled running succeeded timed_out failed cancelled : BranchStatus

pub data RequestState : Type 0 where
  received analyzing planning executing fusing reranking complete partial failed : RequestState

pub data CancellationReason : Type 0 where
  application_deadline client_disconnect parent_cancelled engine_shutdown : CancellationReason

pub data FailureOrigin : Type 0 where
  application backend_native circuit_open client : FailureOrigin

pub data CircuitState : Type 0 where
  closed open_circuit half_open : CircuitState

pub data KillSwitch : Type 0 where
  force_vector_only disable_cost_aware : KillSwitch

abbrev pub same_kind : BranchKind → BranchKind → Bool
same_kind vector vector = true
same_kind graph graph = true
same_kind _ _ = false
