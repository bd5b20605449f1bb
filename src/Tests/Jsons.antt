-- ===== src/Tests/Jsons.antt =====
-- JSON texts, printed and read.
use javascript_database.Common.{ℕ, ◌≡◌, ◌≢◌, refl, Bool, true, [], ◌∷◌, none, some, ltb, not, arith}
use javascript_database.Props.Hash.{name_eq}
use javascript_database.Json.Values.{
  Json, bool, text, arr, obj, no_elements, element, no_members, member,
}
use javascript_database.Json.Parse.{
  json_parse, read, read_element, read_string, read_literal, read_end, literal_value, run,
  name_pair, close_pair, next_element,
}
use javascript_database.Json.Print.{print, settled, IsPlain, IsPrintable}
use javascript_database.Json.Printed.{json_parse-print}

abbrev is_alpha : ℕ → Bool
is_alpha ch = not (ltb ch 97)

-- {"a":["b"],"a":"c"}
abbrev twice : Json
twice = obj (
    member (b'a' ∷ []) (arr (element (text (b'b' ∷ [])) no_elements))
      (member (b'a' ∷ []) (text (b'c' ∷ [])) no_members))

IsPlain-letter : (n : ℕ) → (n ≢ b'"') × (n ≢ 92) → IsPlain (n ∷ [])
IsPlain-letter n h = (h.0, h.1, tt)

json_parse-print_example : json_parse is_alpha (print twice []) ≡ some (settled twice)
unfolding IsPrintable
json_parse-print_example = json_parse-print is_alpha twice (
  IsPlain-letter b'a' (omega arith),
  (IsPlain-letter b'b' (omega arith), tt),
  (IsPlain-letter b'a' (omega arith), IsPlain-letter b'c' (omega arith), tt),
)

-- "\n" is read as the letter n; a literal at the end of the text is an error, and one in front of a
-- space is not.
escape_runs :
    (json_parse is_alpha (b'"' ∷ 92 ∷ b'n' ∷ b'"' ∷ []) ≡ some (text (b'n' ∷ [])))
    × (json_parse is_alpha (b't' ∷ b'r' ∷ b'u' ∷ b'e' ∷ []) ≡ none)
    × (json_parse is_alpha (b't' ∷ b'r' ∷ b'u' ∷ b'e' ∷ b' ' ∷ []) ≡ some (bool true))
unfolding json_parse read read_element read_string read_literal read_end literal_value run name_pair
    close_pair next_element name_eq
escape_runs = (refl, refl, refl)
