-- ===== src/Gates/Documents.antt =====
-- The documents of artifacts that the gates of pebs/gates.py read. `Readers` reads the JSON of contents;
-- a field is what `get` gives of its key, with the default that the gates name, and an option where a
-- missing key counts.
use pebs.Base.{ℕ, Bool, false, Option, none, List, [], Text}

pub record ScriptUnit : Type 0 where
  pub unit_id : Option Text
  pub kind : Text
  pub text : Text
  pub placeholder : Bool
  pub claim_refs : List Text

pub record WordCount : Type 0 where
  pub method : Option Text
  pub count : Option ℕ
  pub in_range : Bool

pub record Script : Type 0 where
  pub section_id : Option Text
  pub units : List ScriptUnit
  pub word_count : WordCount

pub record CaseDocument : Type 0 where
  pub section_id : Option Text
  pub claim_refs : List Text
  pub new_factual_claims : Bool
  pub linked_goal : Option Text

pub record Requirement : Type 0 where
  pub req_id : Option Text
  pub status : Text
  pub text : Text

pub record Section : Type 0 where
  pub section_id : Option Text
  pub required_case_count : Option ℕ
  pub required_components : List Text

pub record Requirements : Type 0 where
  pub items : List Requirement
  pub word_min : Option ℕ
  pub word_max : Option ℕ
  pub sections : List Section
  pub outputs : List Text
  pub terminology : List Text

-- `{}`, which stands for a document that is not there
abbrev pub no_script : Script
no_script = record {
  section_id = none;
  units = [];
  word_count = record { method = none; count = none; in_range = false };
}

abbrev pub no_case : CaseDocument
no_case = record {
  section_id = none;
  claim_refs = [];
  new_factual_claims = false;
  linked_goal = none;
}

abbrev pub no_requirements : Requirements
no_requirements = record {
  items = [];
  word_min = none;
  word_max = none;
  sections = [];
  outputs = [];
  terminology = [];
}

pub record LearningGoal : Type 0 where
  pub goal_id : Text
  pub knowledge_type : Option Text

pub record Difficulty : Type 0 where
  pub basis : Text
  pub text : Text

pub record LearningDesign : Type 0 where
  pub goals : List LearningGoal
  pub assessment_evidence : Bool
  pub difficulties : List Difficulty

pub record Strategy : Type 0 where
  pub goal_ref : Option Text
  pub strategy : Option Text

-- A JSON value of which only the texts count.
mutual
  pub data Json : Type 0 where
    string : Text → Json
    object : Members → Json
    array : Elements → Json
    other : Json

  pub data Members : Type 0 where
    no_member : Members
    member : Text → Json → Members → Members

  pub data Elements : Type 0 where
    no_element : Elements
    element : Json → Elements → Elements

pub record UdlOption : Type 0 where
  pub core_demand_preserved : Bool
  pub same_goal_ref : Option Text
  pub representation : Bool
  pub action_expression : Bool
  pub engagement : Bool

-- `udl`, with the value that it is read from; `barriers` says that some are listed.
pub record Udl : Type 0 where
  pub value : Json
  pub barriers : Bool
  pub options : List UdlOption

pub record TeachingPlan : Type 0 where
  pub strategies : List Strategy
  pub pck_notes : Bool
  pub udl : Option Udl

pub record AssessmentItem : Type 0 where
  pub assessment_id : Option Text
  pub target_goal : Option Text

abbrev pub no_design : LearningDesign
no_design = record { goals = []; assessment_evidence = false; difficulties = [] }

abbrev pub no_plan : TeachingPlan
no_plan = record { strategies = []; pck_notes = false; udl = none }

pub record Readers : Type 0 where
  pub read_design : Text → LearningDesign
  pub read_plan : Text → TeachingPlan
  pub read_assessment : Text → List AssessmentItem
  pub read_script : Text → Script
  pub read_case : Text → CaseDocument
  pub read_requirements : Text → Requirements
