-- ===== src/Base.antt =====
-- Names that every module shares: the libraries' names passed on, and the helpers of six children:
-- Boolean tests, results of fallible code, lists of rows, ordered pages, signed integers, and one row per key.
mod Tests
mod Results
mod Rows
mod Ordered
mod Int
mod Upsert
pub use Tests.*
pub use Results.*
pub use Rows.*
pub use Ordered.*
pub use Int.*
pub use Upsert.*
pub use Prim.Native.Nat.{ℕ, zero, suc, ◌+◌, ◌-◌, ◌*◌, ◌/◌, ◌%◌, ◌≤◌, ◌<◌}
pub use Prim.Native.String.{String}
pub use mathlib.Core.Path.{◌≡◌, refl, sym, ap, ◌∙◌}
pub use mathlib.Core.Logic.{◌≢◌, ◌↔◌, ◌⊎◌, inl, inr}
pub use mathlib.Core.Bool.{Bool, true, false, not, ◌&&◌, ◌||◌}
pub use mathlib.Core.Option.{Option, none, some}
pub use mathlib.Core.List.{List, [], ◌∷◌, ◌++◌, map, foldl, Memᴰ}
pub use native.Mathlib.Omega.{arith}

-- An account's id: a UUID text, which the program only compares.
abbrev pub UserId : Type 0
UserId = ℕ

-- A moment, in microseconds from a fixed origin: UTC datetimes are only compared and advanced.
abbrev pub Moment : Type 0
Moment = ℕ
