-- ===== src/Gates/Checks/Taught/Decided.antt =====
-- What a result of `g3_pedagogy` of pebs/gates.py says.
use pebs.Base.{
  join, map, All-map, true, ◌≡◌, ◌≢◌, ◌∙◌, ap, ◌↔◌, Option, some, List, [], ◌++◌, Text, maybe_dec,
  codes, ok, All, Bool-cases, Option-cases, List-cases, inl, inr, arith,
}
use pebs.Store.Listings.{ArtifactRow}
use pebs.Gates.Results.{pass, Issue, GateResult}
use pebs.Gates.Documents.{
  ScriptUnit, Script, CaseDocument, LearningGoal, Difficulty, LearningDesign, Strategy,
  TeachingPlan, AssessmentItem, no_script, no_case, no_design, no_plan, Readers,
}
use pebs.Gates.Checks.{
  append_empty_iff, collected_empty_iff, and_then_ok, concluded_iff, documents_issues_iff,
  collected, GateContext, document_in_use, require_rev, shown,
}
use pebs.Gates.Checks.Evidenced.{case_rows}
use pebs.Gates.Checks.Taught.Goals.{
  IsAim, EachLast, goal_table-IsAim_iff, goal_table_empty_iff, goal_table_iff,
}
use pebs.Gates.Checks.Taught.Strategies.{IsPlanned, IsUnstated, planned_iff, IsUnstated-iff}
use pebs.Gates.Checks.Taught.{
  goal_table, goals_of, is_goal, strategy_for, RouterRules, allowed_for, is_allowed, goal_issues,
  design_issues, note_issues, target_issues, linked_issues, linked_cases_issues, script_text,
  hypothesis_issues, no_items, document_of, all_issues, g3_pedagogy,
}

-- If the case is one of the section, it is linked to one of the goals.
abbrev pub IsLinked : Option Text → List LearningGoal → CaseDocument → Type 0
IsLinked section_id goals c = c.section_id ≡ section_id → IsAim goals c.linked_goal

-- The text in which a hypothesis must not stand.
abbrev pub spoken : Script → Text
spoken script = join (codes " ") (map (λ (u : ScriptUnit). u.text) script.units)

-- What the documents of a script's section have to say.
pub record Teaches (readers : Readers) (rules : RouterRules) (ctx : GateContext) (script : Script)
    (design : LearningDesign) (plan : TeachingPlan) (items : List AssessmentItem) : Type 0 where
  pub aimed : design.goals ≢ []
  pub assessed : design.assessment_evidence ≡ true
  pub planned : EachLast (IsPlanned rules plan) design.goals
  pub noted : plan.pck_notes ≡ true
  pub targeted : All (λ (i : AssessmentItem). IsAim design.goals i.target_goal) items
  pub linked :
      All
        (λ (a : ArtifactRow).
          (c : CaseDocument)
          → document_in_use readers.read_case no_case a.artifact_id ctx ≡ ok c
          → IsLinked script.section_id design.goals c)
        (case_rows ctx)
  pub unstated : All (IsUnstated (spoken script)) design.difficulties

chain_iff : {A B C : Type 0} → A ↔ B → B ↔ C → A ↔ C
chain_iff f g = (λ a. g.0 (f.0 a), λ c. f.1 (g.1 c))

design_issues_iff :
    (section_id : Text) (design : LearningDesign)
    → (design_issues section_id design ≡ [])
      ↔ ((design.goals ≢ []) × (design.assessment_evidence ≡ true))
unfolding design_issues
design_issues_iff section_id design =
    let filled = goal_table_empty_iff design.goals in
    elim (List-cases (goals_of design)) [
      | inl empty ↦ (λ h. absurd (ground arith), λ h. absurd (filled.1 h.0 empty))
      | inr (g, goals, some_goal) ↦ elim (Bool-cases design.assessment_evidence) [
        | inl assessed ↦ (λ h. (filled.0 (λ k. absurd (ground arith)), assessed), λ h. ground arith)
        | inr missing ↦ (λ h. absurd (ground arith), λ h. absurd (ground arith))
      ]
    ]

-- What the code looks at for one goal.
abbrev Found : RouterRules → TeachingPlan → LearningGoal → Type 0
Found rules plan g =
    (s : Strategy) × (strategy_for g.goal_id plan.strategies ≡ some s)
    × (is_allowed s.strategy (allowed_for rules g) ≡ true)

goal_issues_iff :
    (rules : RouterRules) (section_id : Text) (plan : TeachingPlan) (g : LearningGoal)
    → (goal_issues rules section_id plan g ≡ []) ↔ Found rules plan g
unfolding goal_issues
goal_issues_iff rules section_id plan g =
    elim (Option-cases (strategy_for g.goal_id plan.strategies)) [
      | inl missing ↦ (λ h. absurd (ground arith), λ (s, found, rest). absurd (ground arith))
      | inr (s, found) ↦ elim (Bool-cases (is_allowed s.strategy (allowed_for rules g))) [
        | inl allowed ↦ (λ h. (s, found, allowed), λ h. ground arith)
        | inr refused ↦ (
          λ h. absurd (ground arith),
          λ (t, again, allowed). let same_strategy : s ≡ t = ground arith in absurd (ground arith),
        )
      ]
    ]

note_issues_iff :
    (section_id : Text) (plan : TeachingPlan)
    → (note_issues section_id plan ≡ []) ↔ (plan.pck_notes ≡ true)
unfolding note_issues
note_issues_iff section_id plan = ground arith

target_issues_iff :
    (section_id : Text) (goals : List LearningGoal) (i : AssessmentItem)
    → (target_issues section_id (goal_table [] goals) i ≡ []) ↔ IsAim goals i.target_goal
unfolding target_issues
target_issues_iff section_id goals i =
    chain_iff (ground arith) (goal_table-IsAim_iff goals i.target_goal)

linked_issues_iff :
    (section_id : Option Text) (goals : List LearningGoal) (artifact_id : Text) (c : CaseDocument)
    → (linked_issues section_id (goal_table [] goals) artifact_id c ≡ [])
      ↔ IsLinked section_id goals c
unfolding linked_issues
linked_issues_iff section_id goals artifact_id c =
    let aim = goal_table-IsAim_iff goals c.linked_goal in
    elim (maybe_dec c.section_id section_id) [
      | no other ↦ (λ h k. absurd (other k), λ h. ground arith)
      | yes mine ↦ elim (Bool-cases (is_goal (goal_table [] goals) c.linked_goal)) [
        | inl linked ↦ (λ h k. aim.0 linked, λ h. ground arith)
        | inr loose ↦ (λ h. absurd (ground arith), λ h. absurd (ground (arith, aim.1 (h mine))))
      ]
    ]

hypothesis_issues_iff :
    (section_id text : Text) (d : Difficulty)
    → (hypothesis_issues section_id text d ≡ []) ↔ IsUnstated text d
unfolding hypothesis_issues
hypothesis_issues_iff section_id text d = chain_iff (ground arith) (IsUnstated-iff text d)

planned_goals_iff :
    (rules : RouterRules) (plan : TeachingPlan) (goals : List LearningGoal)
    → All (Found rules plan) goals ↔ All (IsPlanned rules plan) goals
planned_goals_iff rules plan goals = (
  All-map goals (λ g. (planned_iff rules plan g).0),
  All-map goals (λ g. (planned_iff rules plan g).1),
)

module _ (readers : Readers) (rules : RouterRules) (ctx : GateContext) (script : Script)
    (design : LearningDesign) (plan : TeachingPlan) (items : List AssessmentItem) where
  all_issues_iff :
      (loose : List Issue)
      → linked_cases_issues readers ctx script.section_id (goals_of design) ≡ ok loose
      → (all_issues rules script design plan items loose ≡ [])
        ↔ Teaches readers rules ctx script design plan items
  all_issues_iff loose looked =
      let goals = goals_of design in
      let section_id = shown script.section_id in
      let text = script_text script in
      let is1 = design_issues section_id design in
      let is2 = collected (goal_issues rules section_id plan) goals in
      let is3 = note_issues section_id plan in
      let is4 = collected (target_issues section_id goals) items in
      let is6 = collected (hypothesis_issues section_id text) design.difficulties in
      let dec1 = design_issues_iff section_id design in
      let dec2 =
        chain_iff
          (collected_empty_iff (goal_issues rules section_id plan) (Found rules plan)
            (goal_issues_iff rules section_id plan) goals)
          (chain_iff (planned_goals_iff rules plan goals)
            (goal_table_iff (IsPlanned rules plan) design.goals)) in
      let dec3 = note_issues_iff section_id plan in
      let dec4 =
        collected_empty_iff (target_issues section_id goals) (λ i. IsAim design.goals i.target_goal)
          (target_issues_iff section_id design.goals) items in
      let dec5 =
        documents_issues_iff readers.read_case no_case (linked_issues script.section_id goals) ctx
          (IsLinked script.section_id design.goals)
          (linked_issues_iff script.section_id design.goals) (case_rows ctx) loose looked in
      let dec6 =
        collected_empty_iff (hypothesis_issues section_id text) (IsUnstated text)
          (hypothesis_issues_iff section_id text) design.difficulties in
      let all6 = append_empty_iff (is1 ++ is2 ++ is3 ++ is4 ++ loose) is6 in
      let all5 = append_empty_iff (is1 ++ is2 ++ is3 ++ is4) loose in
      let all4 = append_empty_iff (is1 ++ is2 ++ is3) is4 in
      let all3 = append_empty_iff (is1 ++ is2) is3 in
      let all2 = append_empty_iff is1 is2 in
      (
        λ h.
            let (h5, unstated) = all6.0 h in
            let (h4, linked) = all5.0 h5 in
            let (h3, targeted) = all4.0 h4 in
            let (h2, noted) = all3.0 h3 in
            let (h1, allowed) = all2.0 h2 in
            record {
              aimed = (dec1.0 h1).0;
              assessed = (dec1.0 h1).1;
              planned = dec2.0 allowed;
              noted = dec3.0 noted;
              targeted = dec4.0 targeted;
              linked = dec5.0 linked;
              unstated = dec6.0 unstated;
            },
        λ t.
            let h2 = all2.1 (dec1.1 (t.aimed, t.assessed), dec2.1 t.planned) in
            let h4 = all4.1 (all3.1 (h2, dec3.1 t.noted), dec4.1 t.targeted) in
            all6.1 (all5.1 (h4, dec5.1 t.linked), dec6.1 t.unstated),
      )

-- What a result of `g3_pedagogy` says: it is of the revision in use, and it is PASS exactly when the
-- design of the script's section has goals and evidence of their assessment; for each goal that no
-- later goal of its name replaces, the last strategy that refers to it is one that its kind of
-- knowledge allows, so an allowed strategy before another one does not count; the plan has its notes;
-- the items of the assessment and the cases of the section aim at goals of the design; and no
-- hypothesis of the model stands in the texts of the script's units, joined by spaces.
pub g3_pedagogy_iff :
    (readers : Readers) (rules : RouterRules) (rules_version script_artifact : Text)
    (ctx : GateContext) (r : GateResult)
    → g3_pedagogy readers rules rules_version script_artifact ctx ≡ ok r
    → (require_rev script_artifact ctx ≡ ok (r.target_revision, r.target_hash))
      × (script : Script) × (design : LearningDesign) × (plan : TeachingPlan) × (items : List
          AssessmentItem)
      × (document_in_use readers.read_script no_script script_artifact ctx ≡ ok script)
      × (document_of readers.read_design no_design (codes "learning_design") script ctx ≡ ok design)
      × (document_of readers.read_plan no_plan (codes "teaching_plan") script ctx ≡ ok plan)
      × (document_of readers.read_assessment no_items (codes "assessment") script ctx ≡ ok items)
      × ((r.status ≡ pass) ↔ Teaches readers rules ctx script design plan items)
unfolding g3_pedagogy
g3_pedagogy_iff readers rules rules_version script_artifact ctx r e =
    let (target, found, e2) = and_then_ok (require_rev script_artifact ctx) _ r e in
    let (script, read, e3) =
      and_then_ok (document_in_use readers.read_script no_script script_artifact ctx) _ r e2 in
    let (design, designed, e4) =
      and_then_ok (document_of readers.read_design no_design (codes "learning_design") script ctx) _
        r e3 in
    let (plan, planned, e5) =
      and_then_ok (document_of readers.read_plan no_plan (codes "teaching_plan") script ctx) _ r
        e4 in
    let (items, listed, e6) =
      and_then_ok (document_of readers.read_assessment no_items (codes "assessment") script ctx) _ r
        e5 in
    let (loose, looked, done) =
      and_then_ok (linked_cases_issues readers ctx script.section_id (goals_of design)) _ r e6 in
    let (of_target, passes) =
      concluded_iff (codes "G3") script_artifact target
        (all_issues rules script design plan items loose) _ rules_version ctx.run_id r done in
    let all = all_issues_iff readers rules ctx script design plan items loose looked in
    (
      found ∙ ap ok of_target,
      script,
      design,
      plan,
      items,
      read,
      designed,
      planned,
      listed,
      (λ h. all.0 (passes.0 h), λ t. passes.1 (all.1 t)),
    )
