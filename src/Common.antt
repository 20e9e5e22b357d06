-- ===== src/Common.antt =====
-- Names that every component shares: the libraries' names, passed on, and those of the modules
-- below: Boolean tests, equality as an interface, lists, texts, results, saturating words, loops.
mod Test
mod Equality
mod Sequence
mod Outcome
mod Word
mod Utf8
mod TreeSet
mod Loop
mod Search
pub mod Json
pub use Test.*
pub use Equality.*
unfoldable pub use Equality.{list_beq, option_beq, contains}
pub use Sequence.*
pub use Outcome.*
pub use Word.*
unfoldable pub use Utf8.{
  encode_utf8, bytes, to_ascii_lowercase, is_whitespace, trim_start_matches, trim_start, trim_end,
  trim, split_once, strip_prefix, strip_suffix, starts_with, contains_text, contains_char,
}
pub use Utf8.{
  within, is_ascii_lowercase, is_ascii_digit, is_ascii_alphanumeric, strip_prefix-append,
  strip_prefix_sound,
}
unfoldable pub use Search.{find}
pub use Search.{
  find-le, find-append, find-append_none, find-drop-none, find-starts_with, starts_with-drop-none,
  starts_with-append_long,
}
unfoldable pub use TreeSet.{text_less, insert, extend}
pub use TreeSet.{Ord, text_ord, contains-insert, contains-extend}
unfoldable pub use Loop.{while}
pub use Loop.{while_ends, while_done, while_closed}
pub use Prim.Native.Nat.{ℕ, zero, suc, ◌+◌, ◌-◌, ◌*◌, ◌/◌, ◌%◌, ◌^◌, ◌≤◌, ◌<◌, min, max}
pub use Prim.Native.String.{String}
pub use mathlib.Core.Path.{◌≡◌, refl, sym, ap, ◌∙◌}
pub use mathlib.Core.Logic.{◌≢◌, ◌↔◌, ◌⊎◌, inl, inr}
pub use mathlib.Core.Bool.{Bool, true, false, not, ◌&&◌, ◌||◌}
pub use mathlib.Core.Option.{Option, none, some}
pub use mathlib.Core.List.{List, [], ◌∷◌, ◌++◌, map, append-nil, append_assoc}
pub use native.Mathlib.Omega.{arith}
