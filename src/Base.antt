-- ===== src/Base.antt =====
-- Names that every component shares: the libraries', passed on, and those of the children.
-- Words holds C's fixed-width integers and byte order, Memory a byte-addressed buffer,
-- Decimal the C library's printing and reading of numbers,
-- Packet what a raw socket delivers, Explore the runs of several processes.
mod Tests
mod Lists
pub mod Int
pub mod Words
pub mod Bits
pub mod Memory
pub mod Decimal
pub mod Packet
pub mod Explore
pub use Tests.*
pub use Lists.*
pub use Prim.Native.Nat.{ℕ, zero, suc, ◌+◌, ◌-◌, ◌*◌, ◌/◌, ◌%◌, ◌^◌, ◌≤◌, ◌<◌}
pub use mathlib.Core.Path.{◌≡◌, refl, sym, ap, ◌∙◌}
pub use mathlib.Core.Logic.{◌≢◌, ◌↔◌, ◌⊎◌, inl, inr}
pub use mathlib.Core.Bool.{Bool, true, false, not, ◌&&◌, ◌||◌}
pub use mathlib.Core.Option.{Option, none, some}
pub use mathlib.Core.List.{List, [], ◌∷◌, ◌++◌, map, append-nil, append_assoc}
pub use native.Mathlib.Omega.{arith}
