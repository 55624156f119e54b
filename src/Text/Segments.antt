-- ===== src/Text/Segments.antt =====
-- safePathSegment and validRoomName of room.go: room names as parts of a path.
use Prim.Native.Char.{Char, code}
use lalia.Prelude.{◌≡◌, refl, String, Bool, true, ◌||◌, arith, eq_iff, eqb, if◌then◌else◌}
use lalia.Text.{
  all_chars, map_chars, unsafe_in_path, replace_unsafe, safe_path_segment, room_name_char,
  valid_room_name,
}

room_name_char-safe : (c : Char) → room_name_char c ≡ true → replace_unsafe c ≡ c
unfolding room_name_char replace_unsafe unsafe_in_path
room_name_char-safe c h = ground arith

map_chars-id : (s : String) → all_chars room_name_char s ≡ true → map_chars replace_unsafe s ≡ s
unfolding all_chars map_chars
map_chars-id String.[] h = refl
map_chars-id (String.◌∷◌ c s) h = ground (arith, room_name_char-safe c, map_chars-id s)

-- A room name that passes validRoomName is its own path segment: safePathSegment changes nothing.
pub safe_path_segment-valid_room_name :
    (name : String) → valid_room_name name ≡ true → safe_path_segment name ≡ name
unfolding valid_room_name safe_path_segment
safe_path_segment-valid_room_name name h = ground (arith, map_chars-id name, eq_iff name "")

-- The five characters of the Replacer: slash, backslash, blank, tab and line feed.
abbrev pub is_separator : Char → Bool
is_separator c =
    eqb (code c) 47 || eqb (code c) 92 || eqb (code c) 32 || eqb (code c) 9 || eqb (code c) 10

-- The second text is the first with an underscore (95) for each separator, character by character.
abbrev pub Replaced : String → String → Type 0
Replaced String.[] String.[] = Unit
Replaced String.[] (String.◌∷◌ d t) = ⊥
Replaced (String.◌∷◌ c s) String.[] = ⊥
Replaced (String.◌∷◌ c s) (String.◌∷◌ d t) =
    (code d ≡ (if is_separator c then 95 else code c)) × Replaced s t
