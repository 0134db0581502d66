-- ===== src/Common.antt =====
-- The names that the other modules share: the libraries', passed on, and those of the children
-- below (Boolean tests, lists, signed numbers, texts and maps over the native numbers).
mod Tests
mod Lists
mod Ints
mod Texts
mod Numerals
mod Maps
pub use Tests.*
pub use Lists.*
pub use Ints.*
pub use Texts.{Text, Bytes, Lacks, Eq, ◌===◌, text_eq, text_eq_iff, ===-refl}
pub use Texts.{split_once-join, split_once-Lacks, append-split_once, split-Lacks, split-join}
unfoldable pub use Texts.{
  text, text_beq, split_once, splitn, trim, trim_start, is_whitespace, split,
}
pub use Numerals.{decimal-injective, decimal-Lacks}
unfoldable pub use Numerals.{decimal, hex8, hex_upper}
pub use Maps.{get-insert, get-remove, get-retain, IsMap, insert-IsMap, remove-IsMap, retain-IsMap}
pub use Maps.{remove_absent, length-insert_absent, length-remove}
unfoldable pub use Maps.{get, insert, remove, retain}
pub use Prim.Native.Nat.{ℕ, zero, suc, ◌+◌, ◌-◌, ◌*◌, ◌/◌, ◌%◌, ◌^◌, ◌≤◌, ◌<◌}
pub use Prim.Native.String.{String}
pub use mathlib.Core.Path.{◌≡◌, refl, sym, ap, subst, ◌∙◌, ◌≡⟨◌⟩◌, ◌∎, fun_ext}
pub use mathlib.Core.Logic.{◌≢◌, ◌↔◌, ◌⊎◌, inl, inr}
pub use mathlib.Core.Bool.{Bool, true, false, ◌&&◌, ◌||◌, not}
pub use mathlib.Core.Option.{Option, none, some}
pub use mathlib.Core.List.{List, [], ◌∷◌, ◌++◌, map, append-nil, append_assoc}
pub use native.Mathlib.Omega.{arith}
