-- ===== src/Deploy/Chain.antt =====
-- The registry as a specification: for each source, the chain of its specs, oldest first, with the
-- active one last. A deployment extends one chain and a rollback drops its last spec.
use mathlib.Core.List.{append-nil}
use ulpx.Base.{
  String, ◌≡◌, refl, ◌∙◌, true, Option, none, some, List, [], ◌∷◌, ◌++◌, arith, ok, ◌==◌, eq_iff,
  eq_refl, if◌then◌else◌,
}
use ulpx.Base.Dict.{lookup, lookup-insert}
use ulpx.Compiler.{CompiledParserSpec}
use ulpx.Deploy.{
  SpecDeploymentEngine, history, pop, deploy_receipt, deployed, deploy_spec, rolled_back,
  get_active_spec,
}

abbrev pub as_list : Option CompiledParserSpec → List CompiledParserSpec
as_list none = []
as_list (some spec) = spec ∷ []

unfoldable pub chain : SpecDeploymentEngine → String → List CompiledParserSpec
chain e source_id = history e source_id ++ as_list (lookup source_id e.active_registry)

pub pop-append {ℓ} : {A : Type ℓ} (xs : List A) (x : A) → pop (xs ++ x ∷ []) ≡ some (xs, x)
pop-append [] x = refl
pop-append (y ∷ xs) x = rw (pop-append xs x)

module _ (e : SpecDeploymentEngine) (spec : CompiledParserSpec) where
  pub history-deployed :
      (j : String)
      → history (deployed e spec) j ≡ (if spec.source_id == j then chain e j else history e j)
  unfolding chain
  history-deployed j = ground (
    arith,
    lookup-insert spec.source_id j (chain e spec.source_id) e.revision_history,
    eq_iff spec.source_id j,
    append-nil (history e j),
  )

  pub active-deployed :
      (j : String)
      → lookup j (deployed e spec).active_registry
        ≡ (if spec.source_id == j then some spec else lookup j e.active_registry)
  active-deployed j = ground (arith, lookup-insert spec.source_id j spec e.active_registry)

  pub chain-deployed :
      (j : String)
      → chain (deployed e spec) j
        ≡ (if spec.source_id == j then chain e j ++ spec ∷ [] else chain e j)
  unfolding chain
  chain-deployed j = rw (history-deployed, active-deployed) (ground (arith))

-- A validated deployment appends the spec to the chain of its source, leaves every other chain as
-- it was, and makes the spec active.
pub chain-deploy_spec :
    (e : SpecDeploymentEngine) (spec : CompiledParserSpec)
    → (e' : SpecDeploymentEngine) × (deploy_spec e spec true ≡ ok (deploy_receipt spec, e'))
      × ((j : String)
          → chain e' j ≡ (if spec.source_id == j then chain e j ++ spec ∷ [] else chain e j))
      × (get_active_spec e' spec.source_id ≡ some spec)
unfolding deploy_spec get_active_spec
chain-deploy_spec e spec = (
  deployed e spec,
  refl,
  chain-deployed e spec,
  active-deployed e spec spec.source_id ∙ rw eq_refl,
)

pub chain-rolled_back :
    (e : SpecDeploymentEngine) (id : String) (rest : List CompiledParserSpec)
    (previous : CompiledParserSpec) (j : String)
    → chain (rolled_back e id rest previous) j
      ≡ (if id == j then rest ++ previous ∷ [] else chain e j)
unfolding chain
chain-rolled_back e id rest previous j = ground (
  arith,
  lookup-insert id j rest e.revision_history,
  lookup-insert id j previous e.active_registry,
)
