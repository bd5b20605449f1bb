-- ===== src/Json/Print.antt =====
-- A printer of JSON texts, and reading back what it prints.
use javascript_database.Common.{
  ℕ, ◌≡◌, ◌≢◌, refl, sym, ap, ◌∙◌, inl, inr, Bool, false, Bool-cases, List, [], ◌∷◌, ◌++◌, length,
  ◌==◌, arith,
}
use javascript_database.Strings.{Str}
use javascript_database.Strings.Find.{append_assoc}
use javascript_database.Json.Values.{
  Json, undef, null, nan, bool, infinite, number, text, arr, obj, Elements, no_elements, element,
  Members, no_members, member, Pair, push_element, set_member,
}
use javascript_database.Json.Parse.{
  Parser, at_element, at_string, go, buff_size, keep, read_string, read, run,
}

abbrev pub quote : ℕ
quote = b'"'

-- A string between quotes, as it is.
abbrev pub quoted : Str → Str → Str
quoted s rest = quote ∷ (s ++ quote ∷ rest)

-- The text of a value in front of `rest`. Only strings and containers are printed.
unfoldable mutual
  pub print : Json → Str → Str
  print (text s) rest = quoted s rest
  print (arr no_elements) rest = b'[' ∷ b']' ∷ rest
  print (arr (element v r)) rest = b'[' ∷ print v (print_elements r rest)
  print (obj no_members) rest = b'{' ∷ b'}' ∷ rest
  print (obj (member name v r)) rest = b'{' ∷ quoted name (b':' ∷ print v (print_members r rest))
  print undef rest = rest
  print null rest = rest
  print nan rest = rest
  print (bool b) rest = rest
  print (infinite b) rest = rest
  print (number s) rest = rest

  pub print_elements : Elements → Str → Str
  print_elements no_elements rest = b']' ∷ rest
  print_elements (element v r) rest = b',' ∷ print v (print_elements r rest)

  pub print_members : Members → Str → Str
  print_members no_members rest = b'}' ∷ rest
  print_members (member name v r) rest = b',' ∷ quoted name (b':' ∷ print v (print_members r rest))

-- No quotes and no backslashes.
abbrev pub IsPlain : Str → Type 0
IsPlain [] = Unit {0}
IsPlain (ch ∷ s) = (ch ≢ quote) × (ch ≢ 92) × IsPlain s

-- Built from plain strings and containers only.
unfoldable mutual
  pub IsPrintable : Json → Type 0
  IsPrintable (text s) = IsPlain s
  IsPrintable (arr xs) = ArePrintableElements xs
  IsPrintable (obj ms) = ArePrintableMembers ms
  IsPrintable undef = ⊥
  IsPrintable null = ⊥
  IsPrintable nan = ⊥
  IsPrintable (bool b) = ⊥
  IsPrintable (infinite b) = ⊥
  IsPrintable (number s) = ⊥

  pub ArePrintableElements : Elements → Type 0
  ArePrintableElements no_elements = Unit {0}
  ArePrintableElements (element v r) = IsPrintable v × ArePrintableElements r

  pub ArePrintableMembers : Members → Type 0
  ArePrintableMembers no_members = Unit {0}
  ArePrintableMembers (member name v r) = IsPlain name × IsPrintable v × ArePrintableMembers r

-- The value as objects hold it: a name that comes again replaces the value that it had.
unfoldable mutual
  pub settled : Json → Json
  settled (arr xs) = arr (settled_elements no_elements xs)
  settled (obj ms) = obj (settled_members no_members ms)
  settled undef = undef
  settled null = null
  settled nan = nan
  settled (bool b) = bool b
  settled (infinite b) = infinite b
  settled (number s) = number s
  settled (text s) = text s

  pub settled_elements : Elements → Elements → Elements
  settled_elements done no_elements = done
  settled_elements done (element v r) = settled_elements (push_element done (settled v)) r

  pub settled_members : Members → Members → Members
  settled_members done no_members = done
  settled_members done (member name v r) = settled_members (set_member done name (settled v)) r

module _ (is_alpha : ℕ → Bool) where
  pub run-go :
      (p p' : Parser) (ch : ℕ) (rest : Str)
      → read is_alpha p ch ≡ go p'
      → run is_alpha p (ch ∷ rest) ≡ run is_alpha p' rest
  unfolding run
  run-go p p' ch rest e = rw (run, e)

  keep-go :
      (stack : List Pair) (negative : Bool) (moved buff : Str) (ch : ℕ)
      → (moved' : Str) × (buff' : Str) × (keep stack negative moved buff ch
          ≡ go (at_string stack negative moved' buff' false))
        × (moved' ++ buff' ≡ (moved ++ buff) ++ ch ∷ [])
  keep-go stack negative moved buff ch = elim (Bool-cases (length buff == buff_size)) [
    | inl t ↦ (moved ++ buff, ch ∷ [], rw t, refl)
    | inr f ↦ (moved, buff ++ ch ∷ [], rw f, sym (append_assoc moved buff (ch ∷ [])))
  ]

  -- The rest of a string up to its quote, whatever the buffer holds.
  pub run-plain :
      (s : Str) (stack : List Pair) (negative : Bool) (moved buff rest : Str)
      → IsPlain s
      → run is_alpha (at_string stack negative moved buff false) (s ++ quote ∷ rest)
        ≡ run is_alpha (at_element stack (text ((moved ++ buff) ++ s)) negative) rest
  unfolding read read_string
  run-plain [] stack negative moved buff rest h =
      run-go (at_string stack negative moved buff false)
        (at_element stack (text (moved ++ buff)) negative) quote rest refl
      ∙ ap (λ t. run is_alpha (at_element stack (text t) negative) rest)
          (sym (append_nil (moved ++ buff)))
    where
      append_nil : (s : Str) → s ++ [] ≡ s
      append_nil [] = refl
      append_nil (x ∷ s) = ap (λ r. x ∷ r) (append_nil s)
  run-plain (ch ∷ s) stack negative moved buff rest h =
      let (moved', buff', e, same) = keep-go stack negative moved buff ch in
      let a : (ch == 92) ≡ false = ground (arith, h) in
      let b : (ch == quote) ≡ false = ground (arith, h) in
      run-go (at_string stack negative moved buff false)
        (at_string stack negative moved' buff' false) ch _ (rw (a, b) e)
      ∙ run-plain s stack negative moved' buff' rest (h.2)
      ∙ ap (λ t. run is_alpha (at_element stack (text t) negative) rest)
          (ap (λ t. t ++ s) same ∙ append_assoc (moved ++ buff) (ch ∷ []) s)
