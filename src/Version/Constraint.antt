-- ===== src/Version/Constraint.antt =====
-- The data of crates/tfls-core/src/version_constraint.rs: operators, constraints and their errors.
use terraform_ls_rs.Base.{Bytes, codes, List, ℕ}

-- `Range<usize>`.
pub record Range : Type 0 where
  pub start : ℕ
  pub end : ℕ

abbrev pub range : ℕ → ℕ → Range
range a b = record { start = a; end = b }

pub data ConstraintOp : Type 0 where
  eq ne gt gte lt lte pessimistic : ConstraintOp

unfoldable pub token : ConstraintOp → Bytes
token eq = codes "="
token ne = codes "!="
token gt = codes ">"
token gte = codes ">="
token lt = codes "<"
token lte = codes "<="
token pessimistic = codes "~>"

pub record Constraint : Type 0 where
  pub op : ConstraintOp
  pub version : Bytes
  pub span : Range

-- The reasons for which `validate_version` refuses a version.
pub data VersionFault : Type 0 where
  empty missing_numeric_core empty_segment not_numeric : VersionFault

-- The message of a `ConstraintError`, by its format string and the parts put into it.
pub data Message : Type 0 where
  empty_constraint : Message
  unknown_operator : Bytes → Message
  missing_version : ConstraintOp → Message
  malformed_version : Bytes → VersionFault → Message

pub record ConstraintError : Type 0 where
  pub span : Range
  pub message : Message

pub record Parsed : Type 0 where
  pub constraints : List Constraint
  pub errors : List ConstraintError

pub data CursorSlot : Type 0 where
  at_operator : CursorSlot
  after_operator : ConstraintOp → CursorSlot
  inside_version : ConstraintOp → Bytes → CursorSlot
  trailing : CursorSlot
