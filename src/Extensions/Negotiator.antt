-- ===== src/Extensions/Negotiator.antt =====
-- ExtensionsNegotiator of uWebSockets/src/Extensions.cpp, with isWindowBits, windowBitsValue and
-- isCompatibleOffer.
pub mod Agreed
pub mod Outcome
pub mod Repeat
use Prim.Native.Char.{code}
use Prim.Native.String.{String}
use eiows.Common.{
  ℕ, ◌+◌, ◌-◌, ◌*◌, ◌/◌, ◌%◌, bit_and, Bool, true, false, not, ◌&&◌, ◌||◌, Option, none, some, List,
  [], ◌∷◌, ◌++◌, leb, ltb, ◌==◌, if◌then◌else◌, Bytes, length,
}
use eiows.Extensions.Offers.{ExtensionParameter, ExtensionOffer, parse_offers}
use eiows.Stream.Session.{
  permessage_deflate, server_no_context_takeover, client_no_context_takeover, has_option,
}

-- The bytes of an ASCII literal.
abbrev pub literal : String → Bytes
literal String.[] = []
literal (String.◌∷◌ c s) = code c ∷ literal s

-- operator== of two strings
unfoldable pub same_bytes : Bytes → Bytes → Bool
same_bytes [] [] = true
same_bytes (a ∷ s) (b ∷ t) = a == b && same_bytes s t
same_bytes _ _ = false

abbrev pub sliding_deflate_window : ℕ
sliding_deflate_window = 16

-- The value of one digit, or of two; other values have no window.
unfoldable pub window_bits_of : Bytes → Option ℕ
window_bits_of (a ∷ []) = if leb 56 a && leb a 57 then some (a - 48) else none
window_bits_of (a ∷ b ∷ []) = if a == 49 && leb 48 b && leb b 53 then some (10 + b - 48) else none
window_bits_of _ = none

abbrev is_some : Option ℕ → Bool
is_some none = false
is_some (some n) = true

abbrev value_or_zero : Option ℕ → ℕ
value_or_zero none = 0
value_or_zero (some n) = n

unfoldable pub is_window_bits : ExtensionParameter → (value_required : Bool) → Bool
is_window_bits p value_required =
    if not p.has_value then not value_required else is_some (window_bits_of p.value)

unfoldable pub window_bits_value : ExtensionParameter → ℕ
window_bits_value p =
    if not p.has_value || not (is_window_bits p true)
    then 0
    else value_or_zero (window_bits_of p.value)

-- serverMaxWindowBits and serverMaxWindowBitsNegotiated
pub record Window : Type 0 where
  pub bits : ℕ
  pub negotiated : Bool

-- seen.insert(name).second is false.
unfoldable pub is_seen : Bytes → List Bytes → Bool
is_seen name [] = false
is_seen name (n ∷ seen) = same_bytes name n || is_seen name seen

-- One parameter of an offer; `none` is `return false`.
unfoldable pub check_parameter : ℕ → ExtensionParameter → Window → Option Window
check_parameter wanted p w =
    if same_bytes p.name (literal "server_no_context_takeover")
    then if p.has_value || not (has_option wanted server_no_context_takeover) then none else some w
    else if same_bytes p.name (literal "client_no_context_takeover")
    then if p.has_value then none else some w
    else if same_bytes p.name (literal "server_max_window_bits")
    then if ltb (window_bits_value p) 9
      then none
      else some (record { bits = window_bits_value p; negotiated = true })
    else if same_bytes p.name (literal "client_max_window_bits")
    then if not (is_window_bits p false) then none else some w
    else none

-- The loop of isCompatibleOffer.
unfoldable pub check_parameters : ℕ → List Bytes → List ExtensionParameter → Window → Option Window
check_parameters wanted seen [] w = some w
check_parameters wanted seen (p ∷ ps) w = elim (is_seen p.name seen) [
  | true ↦ none
  | false ↦ elim (check_parameter wanted p w) [
    | none ↦ none
    | some w' ↦ check_parameters wanted (p.name ∷ seen) ps w'
  ]
]

abbrev pub default_window : Window
default_window = record { bits = 15; negotiated = false }

-- isCompatibleOffer, with the window that it stores when it answers true.
unfoldable pub is_compatible_offer : ExtensionOffer → ℕ → Option Window
is_compatible_offer offer wanted = check_parameters wanted [] offer.parameters default_window

pub record ExtensionsNegotiator : Type 0 where
  pub options : ℕ
  pub window : Window

abbrev pub new_negotiator : ℕ → ExtensionsNegotiator
new_negotiator wanted = record { options = wanted; window = default_window }

-- std::to_string of a number below 100
abbrev decimal : ℕ → Bytes
decimal n = if ltb n 10 then (48 + n) ∷ [] else (48 + n / 10) ∷ (48 + n % 10) ∷ []

pub generate_offer : ExtensionsNegotiator → Bytes
generate_offer n =
    if has_option n.options permessage_deflate
    then literal "permessage-deflate"
      ++ (if has_option n.options client_no_context_takeover
          then literal "; client_no_context_takeover"
          else [])
      ++ (if has_option n.options server_no_context_takeover
          then literal "; server_no_context_takeover"
          else [])
      ++ (if n.window.negotiated
          then literal "; server_max_window_bits=" ++ decimal n.window.bits
          else [])
    else []

-- options &= ~flags
abbrev pub clear_options : ℕ → ℕ → ℕ
clear_options flags options = options - bit_and options flags

-- The window of the first offer that is accepted.
pub first_compatible : ℕ → List ExtensionOffer → Option Window
first_compatible wanted [] = none
first_compatible wanted (o ∷ offers) = elim (same_bytes o.name (literal "permessage-deflate")) [
  | false ↦ first_compatible wanted offers
  | true ↦ elim (is_compatible_offer o wanted) [
    | none ↦ first_compatible wanted offers
    | some w ↦ some w
  ]
]

pub accepted_window : ℕ → Option (List ExtensionOffer) → Option Window
accepted_window wanted none = none
accepted_window wanted (some offers) = first_compatible wanted offers

-- CLIENT_NO_CONTEXT_TAKEOVER | SERVER_NO_CONTEXT_TAKEOVER | SLIDING_DEFLATE_WINDOW
abbrev pub deflate_flags : ℕ
deflate_flags = client_no_context_takeover + server_no_context_takeover + sliding_deflate_window

-- What readOffer stores of a candidate that it accepts, and does without one.
pub settle : ExtensionsNegotiator → Option Window → ExtensionsNegotiator
settle n (some w) = record n { window = w }
settle n none = record n {
  options = clear_options deflate_flags (clear_options permessage_deflate n.options);
}

pub read_offer : Bytes → ExtensionsNegotiator → ExtensionsNegotiator
read_offer offer n =
    if not (has_option n.options permessage_deflate)
    then record n { options = clear_options deflate_flags n.options }
    else settle n (accepted_window n.options (parse_offers offer))
