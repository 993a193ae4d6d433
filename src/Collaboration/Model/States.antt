-- ===== src/Collaboration/Model/States.antt =====
-- The State of internal/collaboration/model.go.
use omnigrex.Prelude.{ℕ, String, Bool, false, List, [], Option, none}
use omnigrex.Collaboration.Model.Records.{Assessment, Reference, Preparation, Round, Input, Receipt}
use omnigrex.Collaboration.Model.Planned.{PlanningState}

pub record State : Type 0 where
  pub interpretation_sequence : ℕ
  pub assessments : List Assessment
  pub references : List Reference
  pub planning : Option PlanningState
  pub preparations : List Preparation
  pub rounds : List Round
  pub inputs : List Input
  pub receipts : List Receipt
  pub current_round : String
  pub waiting : Bool

-- `State{}`.
abbrev pub empty_state : State
empty_state = record {
  interpretation_sequence = 0;
  assessments = [];
  references = [];
  planning = none;
  preparations = [];
  rounds = [];
  inputs = [];
  receipts = [];
  current_round = "";
  waiting = false;
}
