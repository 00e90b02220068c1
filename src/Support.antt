-- ===== src/Support.antt =====
-- src/support.rs: what is used of it when the program runs.

-- The bound, that the type is that of a future, is for the compiler.
abbrev pub assert_future : {F : Type 0} → F → F
assert_future future = future
