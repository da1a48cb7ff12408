-- ===== src/Deploy.antt =====
-- ml/deployment/deployer.py: the registry of active specs and the revisions behind them.
pub mod Chain
pub mod Rollback
pub mod Invariant
use ulpx.Base.{
  ℕ, String, Bool, true, false, Option, none, some, List, [], ◌∷◌, ◌++◌, Result, ok, err,
  or_default,
}
use ulpx.Base.Dict.{Dict, lookup, insert}
use ulpx.Compiler.{CompiledParserSpec}

pub record SpecDeploymentEngine : Type 0 where
  pub active_registry : Dict CompiledParserSpec
  pub revision_history : Dict (List CompiledParserSpec)

abbrev pub init : SpecDeploymentEngine
init = record { active_registry = []; revision_history = [] }

pub data DeployError : Type 0 where
  -- ValueError: the test bench did not pass.
  not_validated : String → DeployError
  -- KeyError: no revision to roll back to.
  no_revision : String → DeployError

-- The dict that a call returns; a rollback reports no version.
pub record Receipt : Type 0 where
  pub status : String
  pub source_id : String
  pub active_spec_id : String
  pub spec_hash : String
  pub version : Option ℕ

abbrev pub Outcome : Type 0
Outcome = Result DeployError (Receipt × SpecDeploymentEngine)

-- The revisions of a source, oldest first: `revision_history.get(source_id, [])`.
abbrev pub history : SpecDeploymentEngine → String → List CompiledParserSpec
history e source_id = or_default (lookup source_id e.revision_history) []

-- `list.pop()`: the rest of the list, and its last item.
abbrev pub put_back {ℓ} : {A : Type ℓ} → A → Option (List A × A) → List A × A
put_back x none = ([], x)
put_back x (some (rest, last)) = (x ∷ rest, last)

abbrev pub pop {ℓ} : {A : Type ℓ} → List A → Option (List A × A)
pop [] = none
pop (x ∷ xs) = some (put_back x (pop xs))

-- The active spec of the source goes behind its revisions.
abbrev pub save_previous :
    String → Option CompiledParserSpec → SpecDeploymentEngine → SpecDeploymentEngine
save_previous source_id none e = e
save_previous source_id (some previous) e = record e {
  revision_history = insert source_id (history e source_id ++ previous ∷ []) e.revision_history;
}

abbrev pub activate : String → CompiledParserSpec → SpecDeploymentEngine → SpecDeploymentEngine
activate source_id spec e = record e { active_registry = insert source_id spec e.active_registry }

abbrev pub deploy_receipt : CompiledParserSpec → Receipt
deploy_receipt spec = record {
  status = "DEPLOYED";
  source_id = spec.source_id;
  active_spec_id = spec.spec_id;
  spec_hash = spec.spec_hash;
  version = some spec.version;
}

-- The state after a deployment.
abbrev pub deployed : SpecDeploymentEngine → CompiledParserSpec → SpecDeploymentEngine
deployed e spec =
    activate spec.source_id spec
      (save_previous spec.source_id (lookup spec.source_id e.active_registry) e)

unfoldable pub deploy_spec : SpecDeploymentEngine → CompiledParserSpec → Bool → Outcome
deploy_spec e spec false = err (not_validated spec.spec_id)
deploy_spec e spec true = ok (deploy_receipt spec, deployed e spec)

abbrev pub rollback_receipt : String → CompiledParserSpec → Receipt
rollback_receipt source_id previous = record {
  status = "ROLLED_BACK";
  source_id = source_id;
  active_spec_id = previous.spec_id;
  spec_hash = previous.spec_hash;
  version = none;
}

-- The state after a rollback that leaves `rest` as revisions and restores `previous`.
abbrev pub rolled_back :
    SpecDeploymentEngine
    → String
    → List CompiledParserSpec
    → CompiledParserSpec
    → SpecDeploymentEngine
rolled_back e source_id rest previous =
    activate source_id previous
      (record e { revision_history = insert source_id rest e.revision_history })

abbrev pub restore :
    SpecDeploymentEngine → String → Option (List CompiledParserSpec × CompiledParserSpec) → Outcome
restore e source_id none = err (no_revision source_id)
restore e source_id (some (rest, previous)) =
    ok (rollback_receipt source_id previous, rolled_back e source_id rest previous)

unfoldable pub rollback : SpecDeploymentEngine → String → Outcome
rollback e source_id = restore e source_id (pop (history e source_id))

unfoldable pub get_active_spec : SpecDeploymentEngine → String → Option CompiledParserSpec
get_active_spec e source_id = lookup source_id e.active_registry
