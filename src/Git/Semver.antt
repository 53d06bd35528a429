-- ===== src/Git/Semver.antt =====
-- The semver crate, as crates/tfls-core/src/git_ref.rs uses it.
use terraform_ls_rs.Base.{Option, Bool, Ordering, Bytes}
use terraform_ls_rs.Base.Order.{IsTotalOrder}

-- `semver::Version` with its parser, its documented total order, and `!v.pre.is_empty()`.
pub record Semver (Version : Type 0) : Type 0 where
  pub parse : Bytes → Option Version
  pub cmp : Version → Version → Ordering
  pub is_pre : Version → Bool
  pub order : IsTotalOrder cmp
