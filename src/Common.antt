-- ===== src/Common.antt =====
-- What the other modules share: names of the libraries, passed on, and the helpers below.
pub mod Tests
pub mod Lists
pub mod Words
pub mod Bits
pub mod Outcomes
pub mod Slices
pub mod Texts
pub use Tests.*
pub use Lists.*
pub use Outcomes.{
  Outcome, ok, throws, Fault, out_of_range, length_error, undefined, assertion_failed, assert,
  Returns, Returns-bind, Returns-each, Returns-weaken, Returns-ok, ◌>>=◌, ◌>>◌,
}
pub use Prim.Native.Nat.{ℕ, zero, suc, ◌+◌, ◌-◌, ◌*◌, ◌/◌, ◌%◌, ◌^◌, ◌≤◌, ◌<◌, min}
pub use mathlib.Core.Path.{◌≡◌, refl, sym, ap, ◌∙◌}
pub use mathlib.Core.Logic.{◌≢◌, ◌↔◌, ◌⊎◌, inl, inr}
pub use mathlib.Core.Bool.{Bool, true, false, not, ◌&&◌, ◌||◌}
pub use mathlib.Core.Option.{Option, none, some}
pub use mathlib.Core.List.{List, [], ◌∷◌, ◌++◌, map}
pub use native.Mathlib.Omega.{arith}
