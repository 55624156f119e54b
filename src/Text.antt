-- ===== src/Text.antt =====
-- The functions on texts: safePathSegment and validRoomName of room.go, and what the program uses
-- of the packages strings and sort.
pub mod Segments
pub mod Order
pub mod Sorting
pub mod Trim
use Prim.Native.Char.{Char, code}
use Prim.Native.String.{len, compare}
use text.Mathlib.Text.{is_lt}
use lalia.Prelude.{
  String, Bool, true, false, ◌&&◌, ◌||◌, List, [], ◌∷◌, if◌then◌else◌, ltb, leb, eqb, ◌==◌,
}

-- a < b on texts, by bytes
abbrev pub str_lt : String → String → Bool
str_lt a b = is_lt (compare a b)

-- Every character passes a test.
unfoldable pub all_chars : (Char → Bool) → String → Bool
all_chars p String.[] = true
all_chars p (String.◌∷◌ c s) = p c && all_chars p s

-- strings.Replacer with one-character rules
unfoldable pub map_chars : (Char → Char) → String → String
map_chars f String.[] = String.[]
map_chars f (String.◌∷◌ c s) = String.◌∷◌ (f c) (map_chars f s)

abbrev underscore : Char
underscore = "_"

unfoldable pub unsafe_in_path : Char → Bool
unsafe_in_path c =
    eqb (code c) b'/' || eqb (code c) 92 || eqb (code c) 32 || eqb (code c) 9 || eqb (code c) 10

unfoldable pub replace_unsafe : Char → Char
replace_unsafe c = if unsafe_in_path c then underscore else c

-- room.go: safePathSegment
unfoldable pub safe_path_segment : String → String
unfolding map_chars replace_unsafe unsafe_in_path
safe_path_segment name = if name == "" then "unknown" else map_chars replace_unsafe name

-- the `switch` of validRoomName
unfoldable pub room_name_char : Char → Bool
room_name_char c =
    (leb b'a' (code c) && leb (code c) b'z')
    || (leb b'A' (code c) && leb (code c) b'Z')
    || (leb b'0' (code c) && leb (code c) b'9')
    || eqb (code c) b'-'
    || eqb (code c) b'_'
    || eqb (code c) b'.'

-- room.go: validRoomName
unfoldable pub valid_room_name : String → Bool
unfolding all_chars room_name_char
valid_room_name name =
    if (name == "") || ltb 64 (len name) then false else all_chars room_name_char name

-- sort.Strings
unfoldable pub insert_sorted : String → List String → List String
insert_sorted x [] = x ∷ []
insert_sorted x (y ∷ ys) = if str_lt y x then y ∷ insert_sorted x ys else x ∷ y ∷ ys

unfoldable pub sort_strings : List String → List String
unfolding insert_sorted
sort_strings [] = []
sort_strings (x ∷ xs) = insert_sorted x (sort_strings xs)

-- strings.TrimSpace, by unicode.IsSpace
is_space : Char → Bool
is_space c =
    (leb 9 (code c) && leb (code c) 13)
    || eqb (code c) 32
    || eqb (code c) 133
    || eqb (code c) 160
    || eqb (code c) 5760
    || (leb 8192 (code c) && leb (code c) 8202)
    || eqb (code c) 8232
    || eqb (code c) 8233
    || eqb (code c) 8239
    || eqb (code c) 8287
    || eqb (code c) 12288

trim_left : String → String
unfolding is_space
trim_left String.[] = String.[]
trim_left (String.◌∷◌ c s) = if is_space c then trim_left s else String.◌∷◌ c s

-- A character stays if a later one stays or it is no space.
trim_right : String → String
unfolding is_space
trim_right String.[] = String.[]
trim_right (String.◌∷◌ c s) =
    let rest = trim_right s in if (rest == "") && is_space c then String.[] else String.◌∷◌ c rest

unfoldable pub trim_space : String → String
unfolding trim_left trim_right
trim_space s = trim_right (trim_left s)
