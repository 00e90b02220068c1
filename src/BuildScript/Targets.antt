-- ===== src/BuildScript/Targets.antt =====
-- no_atomic_cas.rs: the targets without atomic compare-and-swap.
use Prim.Native.String.{String}
use text.Mathlib.Text.{◌==◌}
use cancel_safe_futures.Base.{Bool, false, ◌||◌, List, [], ◌∷◌}

abbrev pub no_atomic_cas : List String
no_atomic_cas =
    "armv4t-none-eabi" ∷ "armv5te-none-eabi" ∷ "avr-unknown-gnu-atmega328" ∷ "bpfeb-unknown-none"
    ∷ "bpfel-unknown-none" ∷ "msp430-none-elf" ∷ "riscv32i-unknown-none-elf"
    ∷ "riscv32im-unknown-none-elf" ∷ "riscv32imc-unknown-none-elf" ∷ "thumbv4t-none-eabi"
    ∷ "thumbv5te-none-eabi" ∷ "thumbv6m-none-eabi" ∷ []

-- `<[&str]>::contains`
unfoldable pub contains : List String → String → Bool
contains [] t = false
contains (s ∷ ss) t = (s == t) || contains ss t
