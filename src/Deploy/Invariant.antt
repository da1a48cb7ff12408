-- ===== src/Deploy/Invariant.antt =====
-- What every sequence of deployments and rollbacks keeps.
use ulpx.Base.{
  String, ◌≡◌, refl, Bool, true, false, none, List, [], ◌∷◌, ◌++◌, arith, ok, err, ◌==◌, eq_iff,
  All, inl, inr, if_intro, ◌⊎◌, ◌∙◌, subst,
}
use ulpx.Base.Dict.{lookup, lookup-insert}
use ulpx.Compiler.{CompiledParserSpec}
use ulpx.Deploy.{
  SpecDeploymentEngine, init, history, deployed, Outcome, deploy_spec, rolled_back, restore,
  rollback,
}
use ulpx.Deploy.Rollback.{pop-cases}
use ulpx.Deploy.Chain.{
  pop-append, as_list, chain, history-deployed, active-deployed, chain-deployed, chain-rolled_back,
}

-- A call of the engine; one that raises leaves the state as it was.
pub data Call : Type 0 where
  deploy : CompiledParserSpec → Bool → Call
  roll_back : String → Call

abbrev state_after : SpecDeploymentEngine → Outcome → SpecDeploymentEngine
state_after e (ok (r, e')) = e'
state_after e (err _) = e

abbrev pub perform : SpecDeploymentEngine → Call → SpecDeploymentEngine
perform e (deploy spec passed) = state_after e (deploy_spec e spec passed)
perform e (roll_back id) = state_after e (rollback e id)

unfoldable pub run : SpecDeploymentEngine → List Call → SpecDeploymentEngine
run e [] = e
run e (call ∷ calls) = run (perform e call) calls

abbrev OwnedBy : String → List CompiledParserSpec → Type 0
OwnedBy j = All (λ s. s.source_id ≡ j)

pub record IsConsistent (e : SpecDeploymentEngine) : Type 0 where
  -- Revisions stand only behind an active spec.
  pub behind : (j : String) → lookup j e.active_registry ≡ none → history e j ≡ []
  -- A chain holds only specs of its own source.
  pub own : (j : String) → OwnedBy j (chain e j)

OwnedBy-snoc :
    (j : String) (xs : List CompiledParserSpec) (s : CompiledParserSpec)
    → OwnedBy j xs
    → s.source_id ≡ j
    → OwnedBy j (xs ++ s ∷ [])
OwnedBy-snoc j [] s h e = (e, tt)
OwnedBy-snoc j (x ∷ xs) s (p, h) e = (p, OwnedBy-snoc j xs s h e)

OwnedBy-left : (j : String) (xs ys : List CompiledParserSpec) → OwnedBy j (xs ++ ys) → OwnedBy j xs
OwnedBy-left j [] ys h = tt
OwnedBy-left j (x ∷ xs) ys (p, h) = (p, OwnedBy-left j xs ys h)

deployed-IsConsistent :
    (e : SpecDeploymentEngine) (spec : CompiledParserSpec)
    → IsConsistent e
    → IsConsistent (deployed e spec)
deployed-IsConsistent e spec c = record {
  behind =
      λ j absent. ground (arith, history-deployed e spec j, active-deployed e spec j, c.behind j);
  own = λ j. rw (chain-deployed e spec j) (
      if_intro (OwnedBy j) (spec.source_id == j) _ _
        (λ same. OwnedBy-snoc j (chain e j) spec (c.own j) ((eq_iff spec.source_id j).0 same))
        (λ _. c.own j));
}

history-rolled_back :
    (e : SpecDeploymentEngine) (id j : String) (rest : List CompiledParserSpec)
    (previous : CompiledParserSpec)
    → lookup j (rolled_back e id rest previous).active_registry ≡ none
    → (history (rolled_back e id rest previous) j ≡ history e j)
      × (lookup j e.active_registry ≡ none)
history-rolled_back e id j rest previous h = ground (
  arith,
  lookup-insert id j rest e.revision_history,
  lookup-insert id j previous e.active_registry,
)

rollback_state :
    (e : SpecDeploymentEngine) (id : String)
    → (state_after e (rollback e id) ≡ e)
      ⊎ ((rest : List CompiledParserSpec) × (previous : CompiledParserSpec) × (history e id
            ≡ rest ++ previous ∷ [])
          × (state_after e (rollback e id) ≡ rolled_back e id rest previous))
unfolding rollback
rollback_state e id = elim (pop-cases (history e id)) [
  | inl empty ↦ inl (rw (empty, restore))
  | inr (rest, previous, h) ↦ inr (rest, previous, h, rw (h, pop-append rest previous))
]

own-history :
    (e : SpecDeploymentEngine) (id j : String) → IsConsistent e → id ≡ j → OwnedBy j (history e id)
unfolding chain
own-history e id j c same =
    rw same (OwnedBy-left j (history e j) (as_list (lookup j e.active_registry)) (c.own j))

rollback-IsConsistent :
    (e : SpecDeploymentEngine) (id : String)
    → IsConsistent e
    → IsConsistent (state_after e (rollback e id))
rollback-IsConsistent e id c = elim (rollback_state e id) [
  | inl unchanged ↦ rw unchanged c
  | inr (rest, previous, h, changed) ↦ rw changed (record {
    behind = λ j absent.
        let (same, none_before) = history-rolled_back e id j rest previous absent in
        same ∙ c.behind j none_before;
    own = λ j. rw (chain-rolled_back e id rest previous j) (
        if_intro (OwnedBy j) (id == j) _ _
          (λ same. subst (OwnedBy j) h (own-history e id j c ((eq_iff id j).0 same)))
          (λ _. c.own j));
  })
]

perform-IsConsistent :
    (e : SpecDeploymentEngine) (call : Call) → IsConsistent e → IsConsistent (perform e call)
unfolding deploy_spec
perform-IsConsistent e (deploy spec true) c = deployed-IsConsistent e spec c
perform-IsConsistent e (deploy spec false) c = c
perform-IsConsistent e (roll_back id) c = rollback-IsConsistent e id c

-- From a consistent registry every sequence of deployments and rollbacks, whether they succeed or
-- raise, ends in a consistent one: a source with revisions has an active spec, and the active spec
-- and the revisions of a source all carry its `source_id`.
pub run-IsConsistent :
    (e : SpecDeploymentEngine) (calls : List Call) → IsConsistent e → IsConsistent (run e calls)
unfolding run
run-IsConsistent e [] c = c
run-IsConsistent e (call ∷ calls) c =
    run-IsConsistent (perform e call) calls (perform-IsConsistent e call c)

pub init-IsConsistent : IsConsistent init
unfolding chain lookup
init-IsConsistent = record { behind = λ j h. refl; own = λ j. tt }
