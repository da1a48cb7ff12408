-- ===== src/Tests/Deployment.antt =====
-- Deployments and rollbacks of two specs of one source.
use ulpx.Base.{
  String, ◌≡◌, refl, true, false, some, List, [], ◌∷◌, ◌++◌, ok, err, ◌==◌, if◌then◌else◌, ◌⊎◌,
}
use ulpx.Base.Dict.{lookup, insert}
use ulpx.Compiler.{CompiledParserSpec, python_native}
use ulpx.Deploy.{
  SpecDeploymentEngine, init, history, deploy_receipt, deploy_spec, deployed, rollback_receipt,
  rollback, no_revision, not_validated, get_active_spec,
}
use ulpx.Deploy.Chain.{chain, chain-deploy_spec}
use ulpx.Deploy.Rollback.{rollback-deploy_spec, rollback_outcome}
use ulpx.Deploy.Invariant.{
  deploy, roll_back, run, IsConsistent, run-IsConsistent, init-IsConsistent,
}

abbrev spec : String → CompiledParserSpec
spec id = record {
  spec_id = id;
  source_id = "fw";
  version = 1;
  target_runtime = python_native;
  mappings = [];
  compiled_code = "";
  spec_hash = "h";
}

abbrev one : SpecDeploymentEngine
one = deployed init (spec "a")

refused : deploy_spec init (spec "a") false ≡ err (not_validated "a")
unfolding deploy_spec
refused = refl

nothing_behind : rollback one "fw" ≡ err (no_revision "fw")
unfolding rollback lookup insert
nothing_behind = refl

one_active : get_active_spec one "fw" ≡ some (spec "a")
unfolding get_active_spec lookup insert
one_active = refl

rollback-deploy_spec_example :
    (e' : SpecDeploymentEngine) × (e'' : SpecDeploymentEngine) × (deploy_spec one (spec "b") true
      ≡ ok (deploy_receipt (spec "b"), e'))
    × (rollback e' "fw" ≡ ok (rollback_receipt "fw" (spec "a"), e''))
    × (get_active_spec e'' "fw" ≡ some (spec "a"))
    × ((j : String) → chain e'' j ≡ chain one j)
rollback-deploy_spec_example = rollback-deploy_spec one (spec "b") (spec "a") one_active

run-IsConsistent_example :
    IsConsistent (run init (deploy (spec "a") true ∷ deploy (spec "b") true ∷ roll_back "fw" ∷ []))
run-IsConsistent_example =
    run-IsConsistent init (deploy (spec "a") true ∷ deploy (spec "b") true ∷ roll_back "fw" ∷ [])
      init-IsConsistent

chain-deploy_spec_example :
    (e' : SpecDeploymentEngine) × (deploy_spec one (spec "b") true
      ≡ ok (deploy_receipt (spec "b"), e'))
    × ((j : String)
        → chain e' j ≡ (if "fw" == j then chain one j ++ spec "b" ∷ [] else chain one j))
    × (get_active_spec e' "fw" ≡ some (spec "b"))
chain-deploy_spec_example = chain-deploy_spec one (spec "b")

rollback_outcome_example :
    ((history one "fw" ≡ []) × (rollback one "fw" ≡ err (no_revision "fw")))
    ⊎ ((rest : List CompiledParserSpec) × (previous : CompiledParserSpec)
        × (e' : SpecDeploymentEngine) × (history one "fw" ≡ rest ++ previous ∷ [])
        × (rollback one "fw" ≡ ok (rollback_receipt "fw" previous, e'))
        × (get_active_spec e' "fw" ≡ some previous)
        × ((j : String) → chain e' j ≡ (if "fw" == j then history one "fw" else chain one j)))
rollback_outcome_example = rollback_outcome one "fw"
