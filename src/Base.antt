-- ===== src/Base.antt =====
-- The names that every module shares: the libraries', passed on, and the program's view of Rust's
-- Booleans, vectors, strings and results.
mod Bools
mod Lists
mod Texts
mod Results
mod Words
mod Utf8
mod Maps
mod Options
mod Trimming
mod Slices
mod Decoding
pub use Bools.*
unfoldable pub use Lists.*
unfoldable pub use Texts.*
pub use Results.*
unfoldable pub use Words.*
unfoldable pub use Utf8.*
unfoldable pub use Maps.*
pub use Options.*
unfoldable pub use Trimming.*
pub use Slices.*
unfoldable pub use Decoding.*
pub use Prim.Native.Nat.{ℕ, zero, suc, ◌+◌, ◌-◌, ◌≤◌, ◌<◌}
pub use mathlib.Core.Path.{◌≡◌, refl, sym, ap, subst, ◌∙◌}
pub use mathlib.Core.Logic.{◌≢◌, ◌↔◌, ◌⊎◌, inl, inr}
pub use mathlib.Core.Bool.{Bool, true, false, not, ◌&&◌, ◌||◌}
pub use mathlib.Core.Option.{Option, none, some}
pub use mathlib.Core.List.{List, [], ◌∷◌, ◌++◌, map, append_assoc, append-nil}
pub use native.Mathlib.Omega.{arith}
