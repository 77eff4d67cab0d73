-- ===== src/Planner/Validation/Declared.antt =====
-- Which declarations `_precondition_errors` of pebs/planner/validation.py lets pass.
use pebs.Base.{
  append_empty, subst, All-map, true, false, ◌≡◌, refl, sym, ◌↔◌, List, [], ◌∷◌, Text, codes,
  text_dec, arith, contains, All,
}
use pebs.Planner.Contracts.{PlanNode, Precondition}
use pebs.Planner.Validation.{
  is_unresolved, is_scope_unresolved, required_input, is_reachable, input_errors, all_input_errors,
  precondition_errors,
}

-- A declaration that the checker can serve: it names the evidence index and nothing else as its input,
-- which is an input of the node and is produced in the plan or reused; a usage scope is not empty.
pub record IsServed (nodes : List PlanNode) (reused : List Text) (n : PlanNode) (p : Precondition)
    : Type 0 where
  pub kind : p.kind ≡ codes "supported_claims"
  pub inputs : is_unresolved p.inputs ≡ false
  pub scope : is_scope_unresolved p.usage_scope ≡ false
  pub declares : contains required_input p.inputs ≡ true
  pub no_other : All (λ i. i ≡ required_input) p.inputs
  pub takes : contains required_input n.inputs ≡ true
  pub reachable : is_reachable nodes reused required_input ≡ true

module _ (nodes : List PlanNode) (reused : List Text) (n : PlanNode) where
  abbrev IsReady : Text → Type 0
  IsReady i =
      (i ≡ required_input) × (contains i n.inputs ≡ true) × (is_reachable nodes reused i ≡ true)

  input_errors-IsReady : (i : Text) → input_errors nodes reused n i ≡ [] → IsReady i
  unfolding input_errors
  input_errors-IsReady i h = (ground arith, ground arith, ground arith)

  all_inputs-IsReady :
      (items : List Text) → all_input_errors nodes reused n items ≡ [] → All IsReady items
  unfolding all_input_errors
  all_inputs-IsReady [] h = tt
  all_inputs-IsReady (i ∷ items) h =
      let both =
        append_empty (input_errors nodes reused n i) (all_input_errors nodes reused n items) h in
      (input_errors-IsReady i both.0, all_inputs-IsReady items both.1)

  ready_inputs :
      (items : List Text)
      → contains required_input n.inputs ≡ true
      → is_reachable nodes reused required_input ≡ true
      → All (λ i. i ≡ required_input) items
      → all_input_errors nodes reused n items ≡ []
  unfolding all_input_errors
  ready_inputs [] t r h = refl
  ready_inputs (i ∷ items) t r h =
      let rest = ready_inputs items t r h.1 in
      let this : input_errors nodes reused n i ≡ [] =
        unfold input_errors in
        subst (λ k. input_errors nodes reused n k ≡ []) (sym h.0) (ground (arith, t, r)) in
      rw this rest

  head-IsReady :
      (items : List Text)
      → contains required_input items ≡ true
      → All IsReady items
      → IsReady required_input
  unfolding contains
  head-IsReady [] m h = cc
  head-IsReady (i ∷ items) m h = elim (text_dec required_input i) [
    | yes e ↦ subst IsReady (sym e) h.0
    | no other ↦ head-IsReady items (ground arith) h.1
  ]

-- A precondition has no error exactly when its kind is implemented, its inputs are texts that are not
-- blank and name the evidence index and nothing else, that is an input of the node and is produced by a
-- node of the plan or reused, and its usage scope, if there is one, has texts that are not blank.
pub precondition_errors_iff :
    (nodes : List PlanNode) (reused : List Text) (n : PlanNode) (p : Precondition)
    → (precondition_errors nodes reused n p ≡ []) ↔ IsServed nodes reused n p
unfolding precondition_errors
precondition_errors_iff nodes reused n p = (
  λ h.
      let kind : p.kind ≡ codes "supported_claims" = ground arith in
      let inputs : is_unresolved p.inputs ≡ false = ground arith in
      let scope : is_scope_unresolved p.usage_scope ≡ false = ground arith in
      let declares : contains required_input p.inputs ≡ true = ground arith in
      let clear : all_input_errors nodes reused n p.inputs ≡ [] = ground arith in
      let ready = all_inputs-IsReady nodes reused n p.inputs clear in
      let index = head-IsReady nodes reused n p.inputs declares ready in
      record {
        kind = kind;
        inputs = inputs;
        scope = scope;
        declares = declares;
        no_other = All-map p.inputs (λ i r. r.0) ready;
        takes = index.1;
        reachable = index.2;
      },
  λ s. ground (
    arith,
    s.kind,
    s.inputs,
    s.scope,
    s.declares,
    ready_inputs nodes reused n p.inputs s.takes s.reachable s.no_other,
  ),
)
