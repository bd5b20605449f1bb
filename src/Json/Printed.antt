-- ===== src/Json/Printed.antt =====
-- Parsing what the printer prints.
use javascript_database.Common.{ℕ, ◌≡◌, refl, ◌∙◌, Bool, false, List, [], ◌∷◌, Option, none, some}
use javascript_database.Strings.{Str}
use javascript_database.Json.Values.{
  Json, undef, null, nan, bool, infinite, number, text, arr, obj, Elements, no_elements, element,
  Members, no_members, member, Pair, push_element, set_member, append_element,
}
use javascript_database.Json.Parse.{
  at_element, at_string, is_undef, read_element, name_pair, close_pair, next_element, read,
  read_end, run, json_parse,
}
use javascript_database.Json.Print.{
  quote, quoted, print, print_elements, print_members, IsPlain, IsPrintable, ArePrintableElements,
  ArePrintableMembers, settled, settled_elements, settled_members, run-go, run-plain,
}

abbrev pair_of : Option Str → Json → Pair
pair_of name value = record { name = name; value = value }

settled-is_undef : (v : Json) → IsPrintable v → is_undef (settled v) ≡ false
unfolding settled IsPrintable
settled-is_undef (text s) h = refl
settled-is_undef (arr xs) h = refl
settled-is_undef (obj ms) h = refl
settled-is_undef undef h = elim h [ ]
settled-is_undef null h = elim h [ ]
settled-is_undef nan h = elim h [ ]
settled-is_undef (bool b) h = elim h [ ]
settled-is_undef (infinite b) h = elim h [ ]
settled-is_undef (number s) h = elim h [ ]

module _ (is_alpha : ℕ → Bool) where
  -- A name up to its colon.
  read_name :
      (name rest : Str) (done : Members) (stack : List Pair)
      → IsPlain name
      → run is_alpha
          (at_element (pair_of none (obj done) ∷ stack) undef false)
          (quoted name (b':' ∷ rest))
        ≡ run is_alpha (at_element (pair_of (some name) (obj done) ∷ stack) undef false) rest
  unfolding read read_element name_pair
  read_name name rest done stack h =
      let opened = pair_of none (obj done) ∷ stack in
      run-go is_alpha (at_element opened undef false) (at_string opened false [] [] false) quote _
        refl
      ∙ run-plain is_alpha name opened false [] [] (b':' ∷ rest) h
      ∙ run-go is_alpha (at_element opened (text name) false)
          (at_element (pair_of (some name) (obj done) ∷ stack) undef false) b':' rest refl

  mutual
    unfolding print print_elements print_members settled settled_elements settled_members
        IsPrintable ArePrintableElements ArePrintableMembers read read_element close_pair
        next_element append_element

    read_value :
        (v : Json) (stack : List Pair) (rest : Str)
        → IsPrintable v
        → run is_alpha (at_element stack undef false) (print v rest)
          ≡ run is_alpha (at_element stack (settled v) false) rest
    read_value (text s) stack rest h =
        run-go is_alpha (at_element stack undef false) (at_string stack false [] [] false) quote _
          refl
        ∙ run-plain is_alpha s stack false [] [] rest h
    read_value (arr no_elements) stack rest h =
        let opened = pair_of none (arr no_elements) ∷ stack in
        run-go is_alpha (at_element stack undef false) (at_element opened undef false) b'[' _ refl
        ∙ run-go is_alpha (at_element opened undef false) (at_element stack (arr no_elements) false)
            b']' rest refl
    read_value (arr (element v r)) stack rest h =
        let opened = pair_of none (arr no_elements) ∷ stack in
        run-go is_alpha (at_element stack undef false) (at_element opened undef false) b'[' _ refl
        ∙ read_value v opened (print_elements r rest) h.0
        ∙ read_elements no_elements (settled v) r stack rest (settled-is_undef v h.0) h.1
    read_value (obj no_members) stack rest h =
        let opened = pair_of none (obj no_members) ∷ stack in
        run-go is_alpha (at_element stack undef false) (at_element opened undef false) b'{' _ refl
        ∙ run-go is_alpha (at_element opened undef false) (at_element stack (obj no_members) false)
            b'}' rest refl
    read_value (obj (member name v r)) stack rest h =
        let opened = pair_of none (obj no_members) ∷ stack in
        run-go is_alpha (at_element stack undef false) (at_element opened undef false) b'{' _ refl
        ∙ read_name name (print v (print_members r rest)) no_members stack h.0
        ∙ read_value v (pair_of (some name) (obj no_members) ∷ stack) (print_members r rest) h.1
        ∙ read_members no_members name (settled v) r stack rest (settled-is_undef v h.1) h.2
    read_value undef stack rest h = elim h [ ]
    read_value null stack rest h = elim h [ ]
    read_value nan stack rest h = elim h [ ]
    read_value (bool b) stack rest h = elim h [ ]
    read_value (infinite b) stack rest h = elim h [ ]
    read_value (number s) stack rest h = elim h [ ]

    read_elements :
        (done : Elements) (next : Json) (r : Elements) (stack : List Pair) (rest : Str)
        → is_undef next ≡ false
        → ArePrintableElements r
        → run is_alpha
            (at_element (pair_of none (arr done) ∷ stack) next false)
            (print_elements r rest)
          ≡ run is_alpha
              (at_element stack (arr (settled_elements (push_element done next) r)) false)
              rest
    read_elements done next no_elements stack rest e h =
        run-go is_alpha (at_element (pair_of none (arr done) ∷ stack) next false)
          (at_element stack (arr (push_element done next)) false) b']' rest (rw e)
    read_elements done next (element v r) stack rest e h =
        let opened = pair_of none (arr (push_element done next)) ∷ stack in
        run-go is_alpha (at_element (pair_of none (arr done) ∷ stack) next false)
          (at_element opened undef false) b',' _ (rw e)
        ∙ read_value v opened (print_elements r rest) h.0
        ∙ read_elements (push_element done next) (settled v) r stack rest (settled-is_undef v h.0)
            h.1

    read_members :
        (done : Members) (name : Str) (next : Json) (r : Members) (stack : List Pair) (rest : Str)
        → is_undef next ≡ false
        → ArePrintableMembers r
        → run is_alpha
            (at_element (pair_of (some name) (obj done) ∷ stack) next false)
            (print_members r rest)
          ≡ run is_alpha
              (at_element stack (obj (settled_members (set_member done name next) r)) false)
              rest
    read_members done name next no_members stack rest e h =
        run-go is_alpha (at_element (pair_of (some name) (obj done) ∷ stack) next false)
          (at_element stack (obj (set_member done name next)) false) b'}' rest (rw e)
    read_members done name next (member key v r) stack rest e h =
        let done' = set_member done name next in
        run-go is_alpha (at_element (pair_of (some name) (obj done) ∷ stack) next false)
          (at_element (pair_of none (obj done') ∷ stack) undef false) b',' _ (rw e)
        ∙ read_name key (print v (print_members r rest)) done' stack h.0
        ∙ read_value v (pair_of (some key) (obj done') ∷ stack) (print_members r rest) h.1
        ∙ read_members done' key (settled v) r stack rest (settled-is_undef v h.1) h.2

  -- A text that is printed from strings without quotes and backslashes, arrays and objects, is
  -- parsed to the value that was printed, in which a name that comes again in an object replaces
  -- the value that it had.
  pub json_parse-print :
      (v : Json) → IsPrintable v → json_parse is_alpha (print v []) ≡ some (settled v)
  unfolding json_parse run read_end
  json_parse-print v h = read_value v [] [] h
