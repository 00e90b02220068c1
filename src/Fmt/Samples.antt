-- ===== src/Fmt/Samples.antt =====
-- A formatter that notes the words it is given, for the tests of `Debug`.
use Prim.Native.String.{String}
use cancel_safe_futures.Base.{List, [], ◌∷◌, ◌++◌}
use cancel_safe_futures.Fmt.{Formatter}

abbrev pub words : Formatter
words = record {
  Text = List String;
  Builder = List String;
  text = λ s. s ∷ [];
  debug_struct = λ s. s ∷ [];
  debug_tuple = λ s. s ∷ [];
  field = λ name t b. b ++ name ∷ t;
  tuple_field = λ t b. b ++ t;
  finish = λ b. b;
  finish_non_exhaustive = λ b. b ++ ".." ∷ [];
}
