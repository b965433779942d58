-- ===== src/Jobs/Json.antt =====
-- The payloads of jobs: JSON as `orjson.loads` returns it, with `null` for `None`, and the tests that
-- Python makes of its values.
use Prim.Native.Char.{Char, code}
use Prim.Native.String.{[] as empty, ◌∷◌ as cons}
use agents_at_scale.Prelude.{ℕ, String, Bool, true, false, not, ◌&&◌, ◌||◌, leb, if◌then◌else◌}
use agents_at_scale.Prelude.Eq.{◌==◌, nat_eq, string_eq}
use agents_at_scale.Prelude.Int.{ℤ, pos, int_eq}

-- A number is its digits and the number of those that follow the point.
mutual
  pub data Json : Type 0 where
    null : Json
    bool : Bool → Json
    number : ℤ → ℕ → Json
    text : String → Json
    array : Elements → Json
    object : Members → Json

  pub data Elements : Type 0 where
    no_elements : Elements
    element : Json → Elements → Elements

  pub data Members : Type 0 where
    no_members : Members
    member : String → Json → Members → Members

-- `str.isspace` of one character
unfoldable pub is_space : Char → Bool
is_space c =
    let n = code c in
    leb 9 n && leb n 13
    || leb 28 n && leb n 32
    || n == 133
    || n == 160
    || n == 5760
    || leb 8192 n && leb n 8202
    || leb 8232 n && leb n 8233
    || n == 8239
    || n == 8287
    || n == 12288

-- `not value.strip()`
unfoldable pub is_blank : String → Bool
unfolding is_space
is_blank empty = true
is_blank (cons c s) = is_space c && is_blank s

-- `dict.get`
unfoldable pub get : String → Members → Json
get key no_members = null
get key (member name value rest) = if name == key then value else get key rest

-- `key in dict`
unfoldable pub has : String → Members → Bool
has key no_members = false
has key (member name value rest) = name == key || has key rest

-- `bool(value)`
abbrev pub is_truthy : Json → Bool
is_truthy null = false
is_truthy (bool b) = b
is_truthy (number n places) = not (n == pos 0)
is_truthy (text s) = not (s == "")
is_truthy (array no_elements) = false
is_truthy (array (element _ _)) = true
is_truthy (object no_members) = false
is_truthy (object (member _ _ _)) = true

abbrev pub is_null : Json → Bool
is_null null = true
is_null _ = false

-- A string that is not blank
abbrev pub has_text : Json → Bool
has_text (text s) = not (is_blank s)
has_text _ = false

abbrev pub is_bool : Json → Bool
is_bool (bool _) = true
is_bool _ = false
