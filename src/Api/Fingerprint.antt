-- ===== src/Api/Fingerprint.antt =====
-- pkg/api/workflow.go: `ComputeWorkflowFingerprintStrict`.
use fluxo.Common.{ℕ, String, Bool, Option, none, some, List, map}
use fluxo.Api.{RetryPolicy, StepDefinition, WorkflowDefinition}

pub record StepFingerprint : Type 0 where
  pub name : String
  pub retry : Option RetryPolicy
  pub func_name : String

-- What `debug.ReadBuildInfo` tells of the program; blank where there is none.
pub record BuildInfo : Type 0 where
  pub revision : String
  pub modified : Bool
  pub module_path : String
  pub version : String

pub record FingerprintPayload : Type 0 where
  pub name : String
  pub version : String
  pub build : BuildInfo
  pub steps : List StepFingerprint

-- Go's library: the build, the name of the function behind a code pointer
-- (`runtime.FuncForPC`), and the hexadecimal SHA-256 of the payload's JSON.
pub record Toolchain : Type 0 where
  pub build_info : BuildInfo
  pub func_for_pc : ℕ → String
  pub digest : FingerprintPayload → String

abbrev pub func_name : Toolchain → Option ℕ → String
func_name tc none = ""
func_name tc (some pc) = tc.func_for_pc pc

abbrev pub step_fingerprint : Toolchain → StepDefinition → StepFingerprint
step_fingerprint tc s = record { name = s.name; retry = s.retry; func_name = func_name tc s.fn }

abbrev pub fingerprint_payload : Toolchain → WorkflowDefinition → FingerprintPayload
fingerprint_payload tc def = record {
  name = def.name;
  version = def.version;
  build = tc.build_info;
  steps = map (step_fingerprint tc) def.steps;
}

unfoldable pub compute_workflow_fingerprint_strict : Toolchain → WorkflowDefinition → String
compute_workflow_fingerprint_strict tc def = tc.digest (fingerprint_payload tc def)
