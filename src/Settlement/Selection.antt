-- ===== src/Settlement/Selection.antt =====
-- The data of packages/settlement/src/settle.ts: a selection, a match, and how a selection settled. A
-- note or a reason in English is a constructor with its arguments.
use void.Base.{Option, List, Result}
use void.Base.Int.{ℤ}
use void.Domain.Values.{
  ComponentResult, SettlementResult, MarketFamily, MarketType, Period, Participant, EventStatus,
  Outcome,
}
use void.Domain.Components.{ComponentError}
use void.Text.{Text}

pub record LineScore : Type 0 where
  pub home : ℤ
  pub away : ℤ

pub record MatchState : Type 0 where
  pub status : EventStatus
  pub full_time : Option LineScore
  pub first_half : Option LineScore
  pub second_half : Option LineScore
  pub extra_time : Option LineScore
  pub penalties : Option LineScore
  pub corners : Option LineScore
  pub cards : Option LineScore

pub record SettleableSelection : Type 0 where
  pub family : MarketFamily
  pub market_type : MarketType
  pub period : Period
  pub participant : Option Participant
  pub line : Option Text
  pub outcome : Outcome

pub record SettlementState : Type 0 where
  pub result : SettlementResult
  pub components : Option (List ComponentResult)

-- The notes, one constructor for each template.
pub data Note : Type 0 where
  quarter_split : Text → List Text → Note
  actual_vs_line margin_vs_line : ℤ → Text → Note
  status_void : EventStatus → Note

pub record SettleAssessment : Type 0 where
  pub state : SettlementState
  pub notes : List Note

-- The reasons, one constructor for each template.
pub data Reason : Type 0 where
  total_line_required handicap_line_required participant_required : Reason
  missing_corners missing_cards : Reason
  invalid_line : Text → Reason
  not_over_under not_home_away unsupported_result unsupported_btts not_exact_score :
      Outcome → Reason
  not_finished : EventStatus → Reason
  missing_score : Period → MarketFamily → Reason

pub data SettleCoreResult : Type 0 where
  settled : SettleAssessment → SettleCoreResult
  unknown : Reason → SettleCoreResult

-- A settlement that may throw.
abbrev pub Settles : Type 0
Settles = Result ComponentError SettleCoreResult
