-- ===== src/Qualification.antt =====
-- src/smartwatch_clank/core/qualification.py: the provenance of an execution, and the identity of the
-- material (release, configuration, schema) under which a collector's evidence counts.
pub mod Material
use Prim.Native.String.{◌++◌}
use smartwatch_clank.Base.{
  ℕ, String, Bool, true, false, not, ◌&&◌, Option, none, some, if◌then◌else◌, ◌==◌, string_eq,
}
use smartwatch_clank.Base.Json.{Json, Fields, field, end, str, int, opt_str}
use smartwatch_clank.Base.Text.{codes, lower, upper, strip, same_text}
use smartwatch_clank.Platform.{Platform}

pub data ExecutionProvenance : Type 0 where
  scheduled manual unknown : ExecutionProvenance

abbrev pub provenance_value : ExecutionProvenance → String
provenance_value scheduled = "SCHEDULED"
provenance_value manual = "MANUAL"
provenance_value unknown = "UNKNOWN"

-- `normalize_provenance` of a text or `None`
unfoldable pub normalize_provenance : Option String → ExecutionProvenance
unfolding codes upper strip same_text
normalize_provenance none = unknown
normalize_provenance (some value) =
    let text = upper (strip (codes value)) in
    if same_text text (codes "SCHEDULED")
    then scheduled
    else if same_text text (codes "MANUAL")
    then manual
    else unknown

abbrev pub qualification_material_version : String
qualification_material_version = "smartwatch-qualification-material-v1"

pub record QualificationMaterial : Type 0 where
  pub app_version : Option String
  pub config_fingerprint : Option String
  pub git_revision : Option String
  pub schema_version : ℕ
  pub execution_scope : String
  pub contract_version : String

unfoldable pub components : QualificationMaterial → Fields
components m = field "app_version" (opt_str m.app_version) (
    field "config_fingerprint" (opt_str m.config_fingerprint) (
      field "contract_version" (str m.contract_version) (
        field "execution_scope" (str m.execution_scope) (
          field "git_revision" (opt_str m.git_revision)
            (field "schema_version" (int m.schema_version) end)))))

-- `QualificationMaterial.identity`
unfoldable pub identity : Platform → QualificationMaterial → String
unfolding components
identity p m = "swq1-" ++ p.digest (components m)

-- `bool` of a text or `None`
abbrev pub given : Option String → Bool
given none = false
given (some s) = not (s == "")

-- `revision.lower() != "unknown"`
unfoldable pub is_known : Option String → Bool
unfolding codes lower same_text
is_known none = true
is_known (some revision) = not (same_text (lower (codes revision)) (codes "unknown"))

unfoldable pub trustworthy : QualificationMaterial → Bool
unfolding is_known
trustworthy m =
    given m.app_version
    && given m.config_fingerprint
    && given m.git_revision
    && is_known m.git_revision

pub record QualificationEpoch : Type 0 where
  pub collector : String
  pub epoch_id : String
  pub material_identity : String
  pub started_at : ℕ
  pub execution_id : String
  pub provenance : ExecutionProvenance
  pub reason : String
  pub previous_epoch_id : Option String
  pub previous_material_identity : Option String

pub record QualificationGate : Type 0 where
  pub collector : String
  pub epoch_id : Option String
  pub material_identity : Option String
  pub eligible : Bool
  pub reason : String
  pub execution_id : Option String

-- `new_epoch_id`, with the hexadecimal digits of the fresh UUID
unfoldable pub new_epoch_id : String → String → String
new_epoch_id collector hex = "swq-" ++ (collector ++ ("-" ++ hex))
