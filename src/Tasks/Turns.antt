-- ===== src/Tasks/Turns.antt =====
-- What a turn of the worker of tasks/worker.py reads and does. A lease that is lost, an invalid pin
-- and a transient failure are exceptions that an answer may be; so is any other one, which no
-- handler catches.
use night_voyager.Base.{ℕ, String, Bool, Option, List}
use night_voyager.Planning.Models.{Uuid, PlanningInput, PlanningResult}
use night_voyager.Tasks.Adapter.{PlanningAdapterRequest, AdapterOutcome, SkillLeafBinding}
use night_voyager.Skills.{SkillKey, SkillRuntimePin, ManifestEntry}

pub record AgentTaskClaim : Type 0 where
  pub task_id : Uuid
  pub organization_id : Uuid
  pub lease_generation : ℕ

pub record WorkerTaskInput : Type 0 where
  pub request : PlanningAdapterRequest
  pub skill_pin : SkillRuntimePin
  pub skill_key : SkillKey
  pub semantic_version : String
  pub leaf_binding : SkillLeafBinding
  pub registered_manifest : ManifestEntry
  pub runtime_manifest_id : String
  pub runtime_manifest_version : String
  pub runtime_manifest_sha256 : String
  pub supersedes_run_id : Option Uuid
  pub attempt_no : ℕ

-- What a call of the repository answers.
pub data Answer (A : Type 0) : Type 0 where
  returned : A → Answer A
  lease_was_lost : Answer A
  pin_was_invalid : Answer A
  raised : Answer A

-- What `finalize` is given; its hashes are of the evidence and of the result.
pub record Finalized : Type 0 where
  pub input : PlanningInput
  pub result : PlanningResult
  pub supersedes_run_id : Option Uuid

pub data WorkerCall : Type 0 where
  load_call start_call generate_call : WorkerCall
  fail_call : String → Bool → Bool → WorkerCall
  finalize_call : Finalized → WorkerCall

-- The answers of one turn. `lease_lost` is the heartbeat's event when the adapter is done, and
-- `outcome` is missing where the adapter raises.
pub record Answers (Bytes : Type 0) : Type 0 where
  pub load : Answer WorkerTaskInput
  pub start : Answer (Unit {0})
  pub outcome : Option (AdapterOutcome Bytes)
  pub lease_lost : Bool
  pub closing : Answer (Unit {0})

-- The calls in order, and what `run_once` returns: nothing where an exception leaves it.
pub record Turn : Type 0 where
  pub calls : List WorkerCall
  pub worked : Option Bool
