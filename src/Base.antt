-- ===== src/Base.antt =====
-- The names that the other modules share: the libraries' names, passed on, and the helpers of
-- the children: tests, lists, Go's strings and Go's maps.
pub mod Tests
pub mod Lists
pub mod Strings
pub mod Parts
pub mod Dict
pub mod Prefix
unfoldable pub use Tests.*
unfoldable pub use Lists.*
unfoldable pub use Strings.*
unfoldable pub use Parts.*
unfoldable pub use Dict.*
unfoldable pub use Prefix.*
pub use Prim.Native.Nat.{ℕ, zero, suc, ◌+◌, ◌-◌, ◌*◌, ◌/◌, ◌%◌, ◌^◌, ◌≤◌, ◌<◌}
pub use mathlib.Core.Path.{◌≡◌, refl, sym, fun_ext, ap, ap₂, ◌∙◌, subst, ◌≡⟨◌⟩◌, ◌∎}
pub use mathlib.Core.Logic.{◌≢◌, ◌↔◌, ◌⊎◌, inl, inr}
pub use mathlib.Core.Bool.{Bool, true, false, not, ◌&&◌, ◌||◌, true≢false, false≢true}
pub use mathlib.Core.Option.{Option, none, some, some-injective, some-ne-none, none-ne-some}
pub use mathlib.Core.List.{
  List, [], ◌∷◌, ◌++◌, map, append-nil, append_assoc, append-eq-nil_iff, Memᴰ,
}
pub use native.Mathlib.Omega.{arith}
