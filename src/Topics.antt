-- ===== src/Topics.antt =====
-- `normalize_topic` of utils.py. A topic is the list of its code points.
pub mod Normal
pub mod Examples
use Prim.Native.Char.{code}
use Prim.Native.String
use Prim.Native.String.{String}
use irrigation.Base.{
  ℕ, Bool, ◌&&◌, ◌||◌, List, [], ◌∷◌, contains, leb, if◌then◌else◌, ◌==◌, nat_eq, list_eq,
}

abbrev pub Topic : Type 0
Topic = List ℕ

abbrev pub codes : String → Topic
codes String.[] = []
codes (String.◌∷◌ c s) = code c ∷ codes s

-- The characters that `strip` takes off.
abbrev pub is_space : ℕ → Bool
is_space c =
    (leb 9 c && leb c 13)
    || (leb 28 c && leb c 32)
    || (leb 0x2000 c && leb c 0x200a)
    || contains (0x85 ∷ 0xa0 ∷ 0x1680 ∷ 0x2028 ∷ 0x2029 ∷ 0x202f ∷ 0x205f ∷ 0x3000 ∷ []) c

unfoldable pub lstrip : Topic → Topic
lstrip [] = []
lstrip (c ∷ s) = if is_space c then lstrip s else c ∷ s

abbrev pub unless_blank : ℕ → Topic → Topic
unless_blank c [] = if is_space c then [] else c ∷ []
unless_blank c (d ∷ s) = c ∷ d ∷ s

unfoldable pub rstrip : Topic → Topic
rstrip [] = []
rstrip (c ∷ s) = unless_blank c (rstrip s)

abbrev pub slash : ℕ
slash = b'/'

unfoldable pub drop_slashes : Topic → Topic
drop_slashes [] = []
drop_slashes (c ∷ s) = if c == slash then drop_slashes s else c ∷ s

abbrev pub on_suffix : Topic
on_suffix = slash ∷ b'o' ∷ b'n' ∷ []

-- Takes a last "/on" off.
unfoldable pub strip_on : Topic → Topic
strip_on [] = []
strip_on (c ∷ s) = let rest = strip_on s in if c ∷ s == on_suffix then [] else c ∷ rest

abbrev pub with_slash : Topic → Topic
with_slash [] = []
with_slash (c ∷ s) = slash ∷ drop_slashes (c ∷ s)

-- A topic that starts without a slash gets one; several become one.
unfoldable pub normalize_topic : Topic → Topic
unfolding lstrip rstrip drop_slashes strip_on
normalize_topic s = strip_on (with_slash (rstrip (lstrip s)))
