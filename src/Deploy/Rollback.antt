-- ===== src/Deploy/Rollback.antt =====
-- What a rollback does on each branch, and that it undoes a deployment.
use ulpx.Base.{
  String, ◌≡◌, refl, ◌∙◌, true, some, List, [], ◌∷◌, ◌++◌, arith, ok, err, ◌==◌, eq_iff, eq_refl,
  if◌then◌else◌, ◌⊎◌, inl, inr,
}
use ulpx.Base.Dict.{lookup, lookup-insert}
use ulpx.Compiler.{CompiledParserSpec}
use ulpx.Deploy.{
  SpecDeploymentEngine, no_revision, history, deployed, deploy_receipt, deploy_spec, rolled_back,
  rollback_receipt, restore, rollback, get_active_spec,
}
use ulpx.Deploy.Chain.{chain, pop-append, history-deployed, chain-deployed, chain-rolled_back}

pub pop-cases {ℓ} :
    {A : Type ℓ} (xs : List A)
    → (xs ≡ []) ⊎ ((rest : List A) × (last : A) × (xs ≡ rest ++ last ∷ []))
pop-cases [] = inl refl
pop-cases (x ∷ xs) = elim (pop-cases xs) [
  | inl e ↦ inr ([], x, rw e)
  | inr (rest, last, e) ↦ inr (x ∷ rest, last, rw e)
]

-- Whatever the state, a rollback either raises the missing-revision error, and the source has no
-- revision, or the source has a latest revision, which becomes active and the end of the chain,
-- with the older ones before it, and the chains of the other sources stay as they were.
pub rollback_outcome :
    (e : SpecDeploymentEngine) (id : String)
    → ((history e id ≡ []) × (rollback e id ≡ err (no_revision id)))
      ⊎ ((rest : List CompiledParserSpec) × (previous : CompiledParserSpec)
          × (e' : SpecDeploymentEngine) × (history e id ≡ rest ++ previous ∷ [])
          × (rollback e id ≡ ok (rollback_receipt id previous, e'))
          × (get_active_spec e' id ≡ some previous)
          × ((j : String) → chain e' j ≡ (if id == j then history e id else chain e j)))
unfolding rollback get_active_spec
rollback_outcome e id = elim (pop-cases (history e id)) [
  | inl empty ↦ inl (empty, rw (empty, restore))
  | inr (rest, previous, h) ↦ inr (
    rest,
    previous,
    rolled_back e id rest previous,
    h,
    rw (h, pop-append rest previous),
    lookup-insert id id previous e.active_registry ∙ rw eq_refl,
    λ j. rw h (chain-rolled_back e id rest previous j),
  )
]

module _ (e : SpecDeploymentEngine) (spec previous : CompiledParserSpec)
    (active : lookup spec.source_id e.active_registry ≡ some previous) where
  before : List CompiledParserSpec
  before = history e spec.source_id

  chain-active : chain e spec.source_id ≡ before ++ previous ∷ []
  unfolding chain before
  chain-active = rw active

  history-again : history (deployed e spec) spec.source_id ≡ before ++ previous ∷ []
  history-again = history-deployed e spec spec.source_id ∙ rw eq_refl chain-active

  chain-again :
      (j : String)
      → (if spec.source_id == j then before ++ previous ∷ [] else chain (deployed e spec) j)
        ≡ chain e j
  chain-again j = ground (arith, chain-deployed e spec j, chain-active, eq_iff spec.source_id j)

  undone :
      (rollback (deployed e spec) spec.source_id
        ≡ ok (
          rollback_receipt spec.source_id previous,
          rolled_back (deployed e spec) spec.source_id before previous,
        ))
      × ((j : String)
          → chain (rolled_back (deployed e spec) spec.source_id before previous) j ≡ chain e j)
  unfolding rollback
  undone = (
    rw (history-again, pop-append before previous),
    λ j. chain-rolled_back (deployed e spec) spec.source_id before previous j ∙ chain-again j,
  )

-- If a source has an active spec, a second deployment to it and a rollback both succeed, the spec
-- that was active is active again, and every chain is what it was.
pub rollback-deploy_spec :
    (e : SpecDeploymentEngine) (spec previous : CompiledParserSpec)
    → get_active_spec e spec.source_id ≡ some previous
    → (e' : SpecDeploymentEngine) × (e'' : SpecDeploymentEngine) × (deploy_spec e spec true
        ≡ ok (deploy_receipt spec, e'))
      × (rollback e' spec.source_id ≡ ok (rollback_receipt spec.source_id previous, e''))
      × (get_active_spec e'' spec.source_id ≡ some previous)
      × ((j : String) → chain e'' j ≡ chain e j)
unfolding deploy_spec get_active_spec
rollback-deploy_spec e spec previous active =
    let d = deployed e spec in
    (
      d,
      rolled_back d spec.source_id (before e spec previous active) previous,
      refl,
      (undone e spec previous active).0,
      lookup-insert spec.source_id spec.source_id previous d.active_registry ∙ rw eq_refl,
      (undone e spec previous active).1,
    )
