-- ===== src/Planner/Validation.antt =====
-- `_precondition_errors`, `_gate_applicable` and `_evaluator_nodes` of pebs/planner/validation.py.
-- Inputs that are no list of texts are the empty list, which is refused with them.
pub mod Declared
pub mod Evaluators
use pebs.Base.{
  Bool, true, false, not, ◌&&◌, ◌||◌, Option, none, some, List, [], ◌∷◌, ◌++◌, Text, codes, same,
  if◌then◌else◌, select, any, contains,
}
use pebs.Evidence.Whitespace.{strip}
use pebs.Gates.{GateContract, gate_contracts}
use pebs.Planner.Contracts.{PlanNode, Precondition}

-- What the messages are about: an input, or the precondition's kind.
pub data PreconditionError : Type 0 where
  unknown_kind inputs_unresolved scope_unresolved must_declare : Text → PreconditionError
  incompatible_input not_an_input unreachable_input : Text → PreconditionError

abbrev pub is_blank_text : Text → Bool
is_blank_text t = elim (strip t) [ [] ↦ true | _ ∷ _ ↦ false ]

-- Not a list, an empty list, or one with a blank text.
unfoldable pub is_unresolved : List Text → Bool
is_unresolved [] = true
is_unresolved (t ∷ ts) = any is_blank_text (t ∷ ts)

abbrev pub is_scope_unresolved : Option (List Text) → Bool
is_scope_unresolved none = false
is_scope_unresolved (some scope) = is_unresolved scope

-- `PRECONDITION_CONTRACTS["supported_claims"]["required_inputs"]` has one input.
abbrev pub required_input : Text
required_input = codes "evidence_index"

-- `producers.get(item) or item in reused_artifacts`
unfoldable pub is_reachable : List PlanNode → List Text → Text → Bool
is_reachable nodes reused_artifacts item =
    any (λ n. contains item n.outputs) nodes || contains item reused_artifacts

-- One round of the last loop.
unfoldable pub input_errors : List PlanNode → List Text → PlanNode → Text → List PreconditionError
input_errors nodes reused_artifacts n item =
    if not (same item required_input)
    then incompatible_input item ∷ []
    else if not (contains item n.inputs)
    then not_an_input item ∷ []
    else if not (is_reachable nodes reused_artifacts item)
    then unreachable_input item ∷ []
    else []

unfoldable pub all_input_errors :
    List PlanNode → List Text → PlanNode → List Text → List PreconditionError
all_input_errors nodes reused_artifacts n [] = []
all_input_errors nodes reused_artifacts n (item ∷ items) =
    input_errors nodes reused_artifacts n item ++ all_input_errors nodes reused_artifacts n items

abbrev pub declared_inputs : Precondition → List Text
declared_inputs p = if is_unresolved p.inputs then [] else p.inputs

unfoldable pub precondition_errors :
    List PlanNode → List Text → PlanNode → Precondition → List PreconditionError
precondition_errors nodes reused_artifacts n p =
    if not (same p.kind (codes "supported_claims"))
    then unknown_kind p.kind ∷ []
    else (if is_unresolved p.inputs then inputs_unresolved p.kind ∷ [] else [])
      ++ ((if is_scope_unresolved p.usage_scope then scope_unresolved p.kind ∷ [] else [])
          ++ ((if contains required_input (declared_inputs p)
                then []
                else must_declare required_input ∷ [])
              ++ all_input_errors nodes reused_artifacts n (declared_inputs p)))

-- The contract of a gate, by its identifier.
unfoldable pub contract_of : Text → List GateContract → Option GateContract
contract_of gate_id [] = none
contract_of gate_id (g ∷ gates) =
    if same g.gate_id gate_id then some g else contract_of gate_id gates

unfoldable pub gate_applicable : Text → List Text → Bool
gate_applicable gate_id terminals = elim (contract_of gate_id gate_contracts) [
  | none ↦ false
  | some g ↦ contains g.scope terminals
]

unfoldable pub evaluator_nodes : List PlanNode → Text → List PlanNode
evaluator_nodes nodes gate_id = elim (contract_of gate_id gate_contracts) [
  | none ↦ []
  | some g ↦ select (λ n. contains g.evaluator_step n.steps && not n.reused) nodes
]
