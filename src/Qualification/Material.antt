-- ===== src/Qualification/Material.antt =====
-- core/qualification.py: what the identity of the material identifies.
use text.Mathlib.TextLemmas.{append_cancel_left}
use smartwatch_clank.Base.{ℕ, String, ◌≡◌, ap, Option, some, arith}
use smartwatch_clank.Base.Json.{Json, Fields, opt_str, str, int, member}
use smartwatch_clank.Platform.{Platform, IsCollisionFree}
use smartwatch_clank.Qualification.{QualificationMaterial, components, identity}

member_path : (k : String) {a b : Fields} → a ≡ b → member k a ≡ member k b
member_path k e = ap (member k) e

opt_str_path :
    (a b : Option String) → ◌≡◌ {A = Option Json} (some (opt_str a)) (some (opt_str b)) → a ≡ b
opt_str_path a b h = ground arith

components_injective : (a b : QualificationMaterial) → components a ≡ components b → a ≡ b
unfolding components member
components_injective a b e = λ i. record {
  app_version = opt_str_path a.app_version b.app_version (member_path "app_version" e) i;
  config_fingerprint =
      opt_str_path a.config_fingerprint b.config_fingerprint (member_path "config_fingerprint" e) i;
  git_revision = opt_str_path a.git_revision b.git_revision (member_path "git_revision" e) i;
  schema_version = int_path a.schema_version b.schema_version (member_path "schema_version" e) i;
  execution_scope =
      str_path a.execution_scope b.execution_scope (member_path "execution_scope" e) i;
  contract_version =
      str_path a.contract_version b.contract_version (member_path "contract_version" e) i;
}
  where
    int_path : (x y : ℕ) → ◌≡◌ {A = Option Json} (some (int x)) (some (int y)) → x ≡ y
    int_path x y h = cc

    str_path : (x y : String) → ◌≡◌ {A = Option Json} (some (str x)) (some (str y)) → x ≡ y
    str_path x y h = cc

-- Under a digest that tells documents apart, two executions have one material identity exactly when
-- they agree on every release, configuration, schema and scope input.
pub identity_injective :
    (p : Platform) (a b : QualificationMaterial)
    → IsCollisionFree p
    → identity p a ≡ identity p b
    → a ≡ b
unfolding identity
identity_injective p a b free e =
    components_injective a b (free.digest_injective _ _ (append_cancel_left "swq1-" _ _ e))
