-- ===== src/Extensions/Offers.antt =====
-- ExtensionsParser of uWebSockets/src/Extensions.cpp. A string is the list of its bytes, and the
-- parser's position is the rest of it: a reader returns what it read and the rest, and `none` is
-- its false.
use eiows.Common.{
  ℕ, zero, suc, ◌+◌, ◌-◌, Bool, true, false, not, ◌&&◌, ◌||◌, Option, none, some, List, [], ◌∷◌,
  leb, ltb, ◌==◌, if◌then◌else◌, Bytes, length,
}

pub record ExtensionParameter : Type 0 where
  pub name : Bytes
  pub value : Bytes
  pub has_value : Bool

pub record ExtensionOffer : Type 0 where
  pub name : Bytes
  pub parameters : List ExtensionParameter

abbrev between : ℕ → ℕ → ℕ → Bool
between low high c = leb low c && leb c high

-- '!', '#' to '\'', '*', '+', '-', '.', '^' to '`', '|' and '~' are the cases of the switch.
unfoldable pub is_token_character : ℕ → Bool
is_token_character c =
    (between 48 57 c || between 65 90 c || between 97 122 c)
    || (c == 33
        || between 35 39 c
        || c == 42
        || c == 43
        || c == 45
        || c == 46
        || between 94 96 c
        || c == 124
        || c == 126)

-- lowerAscii of one character
abbrev lower_character : ℕ → ℕ
lower_character c = if between 65 90 c then c - 65 + 97 else c

unfoldable pub lower_ascii : Bytes → Bytes
lower_ascii [] = []
lower_ascii (c ∷ s) = lower_character c ∷ lower_ascii s

unfoldable pub skip_whitespace : Bytes → Bytes
skip_whitespace [] = []
skip_whitespace (c ∷ s) = if c == 32 || c == 9 then skip_whitespace s else c ∷ s

-- The loop of readToken: the token and what is behind it.
unfoldable pub span_token : Bytes → Bytes × Bytes
span_token [] = ([], [])
span_token (c ∷ s) =
    let (token, rest) = span_token s in
    if is_token_character c then (c ∷ token, rest) else ([], c ∷ s)

-- `if (position == start) return false;`
abbrev some_token : Bytes × Bytes → Option (Bytes × Bytes)
some_token ([], rest) = none
some_token (c ∷ token, rest) = some (lower_ascii (c ∷ token), rest)

unfoldable pub read_token : Bytes → Option (Bytes × Bytes)
read_token s = some_token (span_token s)

-- `valid` of a character that is neither a quote nor a backslash
abbrev is_quoted_text : ℕ → Bool
is_quoted_text c =
    c == 9 || c == 32 || c == 0x21 || between 0x23 0x5b c || (leb 0x5d c && not (c == 0x7f))

-- One more character in front of what a string's rest is read as.
abbrev push_front : ℕ → Option (Bytes × Bytes) → Option (Bytes × Bytes)
push_front c none = none
push_front c (some (value, rest)) = some (c ∷ value, rest)

-- The loop of readQuotedString, behind the opening quote; `escaping` behind a backslash.
unfoldable pub quoted_text : (escaping : Bool) → Bytes → Option (Bytes × Bytes)
quoted_text escaping [] = none
quoted_text true (c ∷ s) =
    let rest = quoted_text false s in if ltb c 0x20 || c == 0x7f then none else push_front c rest
quoted_text false (c ∷ s) =
    let rest = quoted_text false s in
    let escaped = quoted_text true s in
    if c == 34
    then some ([], s)
    else if c == 92
    then escaped
    else if is_quoted_text c
    then push_front c rest
    else none

unfoldable pub read_quoted_string : Bytes → Option (Bytes × Bytes)
read_quoted_string [] = none
read_quoted_string (c ∷ s) = if c == 34 then quoted_text false s else none

-- The value, behind the equals sign and blanks.
unfoldable pub read_value : Bytes → Option (Bytes × Bytes)
read_value [] = read_token []
read_value (c ∷ s) = if c == 34 then read_quoted_string (c ∷ s) else read_token (c ∷ s)

abbrev with_value : Bytes → Option (Bytes × Bytes) → Option (ExtensionParameter × Bytes)
with_value name none = none
with_value name (some (value, rest)) =
    some (record { name = name; value = value; has_value = true }, rest)

-- Behind the parameter's name and blanks.
unfoldable pub after_name : Bytes → Bytes → Option (ExtensionParameter × Bytes)
after_name name [] = some (record { name = name; value = []; has_value = false }, [])
after_name name (c ∷ s) =
    if c == 61
    then with_value name (read_value (skip_whitespace s))
    else some (record { name = name; value = []; has_value = false }, c ∷ s)

unfoldable pub read_parameter : Bytes → Option (ExtensionParameter × Bytes)
read_parameter s = elim (read_token (skip_whitespace s)) [
  | none ↦ none
  | some found ↦ after_name found.0 (skip_whitespace found.1)
]

abbrev push_parameter :
    ExtensionParameter
    → Option (List ExtensionParameter × Bytes)
    → Option (List ExtensionParameter × Bytes)
push_parameter p none = none
push_parameter p (some (ps, rest)) = some (p ∷ ps, rest)

-- The inner loop of parse: the parameters of one offer, and the rest from its comma on.
unfoldable pub read_parameters : ℕ → Bytes → Option (List ExtensionParameter × Bytes)
read_parameters zero s = none
read_parameters (suc fuel) s = elim (skip_whitespace s) [
  | [] ↦ some ([], [])
  | c ∷ rest ↦ elim (c == 44) [
    | true ↦ some ([], c ∷ rest)
    | false ↦ elim (c == 59) [
      | false ↦ none
      | true ↦ elim (read_parameter rest) [
        | none ↦ none
        | some (p, after) ↦ push_parameter p (read_parameters fuel after)
      ]
    ]
  ]
]

abbrev push_offer : ExtensionOffer → Option (List ExtensionOffer) → Option (List ExtensionOffer)
push_offer o none = none
push_offer o (some offers) = some (o ∷ offers)

-- The outer loop of parse. Each round reads a byte at least.
unfoldable pub read_offers : ℕ → Bytes → Option (List ExtensionOffer)
read_offers zero s = none
read_offers (suc fuel) s = elim (read_token s) [
  | none ↦ none
  | some (name, rest) ↦ elim (read_parameters (suc (length rest)) rest) [
    | none ↦ none
    | some (parameters, []) ↦ some (record { name = name; parameters = parameters } ∷ [])
    | some (parameters, c ∷ more) ↦ elim (skip_whitespace more) [
      | [] ↦ none
      | d ∷ next ↦
          push_offer (record { name = name; parameters = parameters }) (read_offers fuel (d ∷ next))
    ]
  ]
]

-- parse(offers), when it answers true
unfoldable pub parse_offers : Bytes → Option (List ExtensionOffer)
parse_offers s = elim (skip_whitespace s) [
  | [] ↦ some []
  | c ∷ rest ↦ read_offers (suc (length rest)) (c ∷ rest)
]
