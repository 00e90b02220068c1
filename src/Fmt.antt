-- ===== src/Fmt.antt =====
-- `core::fmt`, which is not part of the crate: the builders by which `Debug` is written.
pub mod Samples
use Prim.Native.String.{String}

-- A text is what a value writes to a formatter.
pub record Formatter : Type 1 where
  pub Text : Type 0
  pub Builder : Type 0
  pub text : String → Text
  pub debug_struct : String → Builder
  pub debug_tuple : String → Builder
  pub field : String → Text → Builder → Builder
  pub tuple_field : Text → Builder → Builder
  pub finish : Builder → Text
  pub finish_non_exhaustive : Builder → Text
