-- ===== src/Extensions/Negotiator/Outcome.antt =====
-- How readOffer ends: with the first offer that is accepted, or without deflate.
use eiows.Common.{
  ℕ, ◌<◌, ◌⊎◌, ◌==◌, ◌&&◌, Bool, bit_and, All, agree_below, agree_below→eq, ◌≡◌, refl, inl, inr,
  true, false, not, Option, none, some, List, [], ◌∷◌, if_intro, Bytes, arith, Bool-cases,
  Option-cases, subst,
}
use eiows.Extensions.Negotiator.{
  literal, same_bytes, Window, is_compatible_offer, default_window, ExtensionsNegotiator,
  new_negotiator, clear_options, first_compatible, accepted_window, settle, read_offer,
  deflate_flags,
}
use eiows.Extensions.Offers.{ExtensionOffer, parse_offers}
use eiows.Stream.Session.{permessage_deflate, has_option}
use eiows.Extensions.Negotiator.Agreed.{IsWindow, is_compatible_offer-IsWindow}

-- An offer of another extension, or one of deflate that isCompatibleOffer refuses.
abbrev Refused : ℕ → ExtensionOffer → Type 0
Refused wanted o =
    (same_bytes o.name (literal "permessage-deflate") ≡ false)
    ⊎ (is_compatible_offer o wanted ≡ none)

-- The window is that of the first offer of deflate that isCompatibleOffer accepts.
abbrev pub First : ℕ → Window → List ExtensionOffer → Type 0
First wanted w [] = ⊥
First wanted w (o ∷ offers) =
    ((same_bytes o.name (literal "permessage-deflate") ≡ true)
      × (is_compatible_offer o wanted ≡ some w))
    ⊎ (Refused wanted o × First wanted w offers)

-- What was looked for, and found or not.
abbrev Found : ℕ → List ExtensionOffer → Option Window → Type 0
Found wanted offers none = All (Refused wanted) offers
Found wanted offers (some w) = IsWindow w × First wanted w offers

Found-behind :
    (wanted : ℕ) (o : ExtensionOffer) (offers : List ExtensionOffer) (found : Option Window)
    → Refused wanted o
    → Found wanted offers found
    → Found wanted (o ∷ offers) found
Found-behind wanted o offers none bad h = (bad, h)
Found-behind wanted o offers (some w) bad (i, h) = (i, inr (bad, h))

first_compatible-Found :
    (wanted : ℕ) (offers : List ExtensionOffer)
    → Found wanted offers (first_compatible wanted offers)
unfolding first_compatible
first_compatible-Found wanted [] = tt
first_compatible-Found wanted (o ∷ offers) =
    let rest = first_compatible-Found wanted offers in
    let found = first_compatible wanted offers in
    elim (Bool-cases (same_bytes o.name (literal "permessage-deflate"))) [
      | inr other ↦
          rw (other, first_compatible) (Found-behind wanted o offers found (inl other) rest)
      | inl deflate ↦ elim (Option-cases (is_compatible_offer o wanted)) [
        | inl bad ↦
            rw (deflate, bad, first_compatible) (Found-behind wanted o offers found (inr bad) rest)
        | inr (w, good) ↦
            rw (deflate, good, first_compatible)
              ((is_compatible_offer-IsWindow o wanted w good).0, inl (deflate, good))
      ]
    ]

-- None of the offers is accepted, or they cannot be parsed.
abbrev pub AllRefused : ℕ → Option (List ExtensionOffer) → Type 0
AllRefused wanted none = Unit
AllRefused wanted (some offers) = All (Refused wanted) offers

abbrev pub FirstOf : ℕ → Window → Option (List ExtensionOffer) → Type 0
FirstOf wanted w none = ⊥
FirstOf wanted w (some offers) = First wanted w offers

abbrev FoundIn : ℕ → Option (List ExtensionOffer) → Option Window → Type 0
FoundIn wanted offers none = AllRefused wanted offers
FoundIn wanted offers (some w) = IsWindow w × FirstOf wanted w offers

Found-FoundIn :
    (wanted : ℕ) (offers : List ExtensionOffer) (found : Option Window)
    → Found wanted offers found
    → FoundIn wanted (some offers) found
Found-FoundIn wanted offers none h = h
Found-FoundIn wanted offers (some w) h = h

accepted_window-FoundIn :
    (wanted : ℕ) (offers : Option (List ExtensionOffer))
    → FoundIn wanted offers (accepted_window wanted offers)
unfolding accepted_window
accepted_window-FoundIn wanted none = tt
accepted_window-FoundIn wanted (some offers) =
    Found-FoundIn wanted offers (first_compatible wanted offers)
      (first_compatible-Found wanted offers)

-- Options without deflate and without any of its flags; the other bits are those of `wanted`. The
-- flags are 1, 2, 4 and 16.
pub record IsPlain (wanted options : ℕ) : Type 0 where
  no_deflate : has_option options 1 ≡ false
  no_server_flag : has_option options 2 ≡ false
  no_client_flag : has_option options 4 ≡ false
  no_sliding_window : has_option options 16 ≡ false
  other_bits : bit_and options 0xe8 ≡ bit_and wanted 0xe8

cleared_bits : ℕ → Bool
cleared_bits options =
    let left = clear_options deflate_flags (clear_options permessage_deflate options) in
    (bit_and left 1 == 0 && bit_and left 2 == 0 && bit_and left 4 == 0 && bit_and left 16 == 0)
    && bit_and left 0xe8 == bit_and options 0xe8

all_cleared : (options : ℕ) → options < 256 → cleared_bits options ≡ true
unfolding agree_below cleared_bits
all_cleared = agree_below→eq cleared_bits (λ _. true) 256 refl

cleared-IsPlain :
    (wanted : ℕ)
    → wanted < 256
    → IsPlain wanted (clear_options deflate_flags (clear_options permessage_deflate wanted))
unfolding cleared_bits
cleared-IsPlain wanted h =
    let left = clear_options deflate_flags (clear_options permessage_deflate wanted) in
    let e = all_cleared wanted h in
    record {
      no_deflate = ground (arith, e);
      no_server_flag = ground (arith, e);
      no_client_flag = ground (arith, e);
      no_sliding_window = ground (arith, e);
      other_bits = ground (arith, e);
    }

never_cleared-IsPlain :
    (wanted : ℕ)
    → wanted < 256
    → has_option wanted permessage_deflate ≡ false
    → IsPlain wanted (clear_options deflate_flags wanted)
never_cleared-IsPlain wanted h e =
    let unset : bit_and wanted permessage_deflate ≡ 0 = ground (arith, e) in
    let same : clear_options permessage_deflate wanted ≡ wanted = omega (arith, unset) in
    subst (λ (n : ℕ). IsPlain wanted (clear_options deflate_flags n)) same
      (cleared-IsPlain wanted h)

-- The ends of a negotiation.
pub data Settled (offer : Bytes) (wanted : ℕ) (n : ExtensionsNegotiator) : Type 0 where
  with_deflate :
      n.options ≡ wanted
      → has_option wanted permessage_deflate ≡ true
      → IsWindow n.window
      → FirstOf wanted n.window (parse_offers offer)
      → Settled offer wanted n
  without_deflate :
      IsPlain wanted n.options
      → n.window ≡ default_window
      → (has_option wanted permessage_deflate ≡ false) ⊎ AllRefused wanted (parse_offers offer)
      → Settled offer wanted n

settle-Settled :
    (offer : Bytes) (wanted : ℕ) (o : Option Window)
    → wanted < 256
    → has_option wanted permessage_deflate ≡ true
    → FoundIn wanted (parse_offers offer) o
    → Settled offer wanted (settle (new_negotiator wanted) o)
unfolding settle
settle-Settled offer wanted none h e f = without_deflate (cleared-IsPlain wanted h) refl (inr f)
settle-Settled offer wanted (some w) h e (i, f) = with_deflate refl e i f

-- Whatever the client offers, readOffer of a new negotiator with options below 256 ends in one of two
-- ways. Deflate is agreed on, with all options as wanted and the window of the first offer of it that
-- isCompatibleOffer accepts, one of 9 to 15 bits, or the default if that offer names none. Or it was
-- never wanted, or no offer of it is accepted: then deflate and its three flags are clear, the other
-- bits are as wanted, and the window is the default one.
pub read_offer-Settled :
    (offer : Bytes) (wanted : ℕ)
    → wanted < 256
    → Settled offer wanted (read_offer offer (new_negotiator wanted))
unfolding read_offer
read_offer-Settled offer wanted h =
    let n = new_negotiator wanted in
    if_intro (Settled offer wanted) (not (has_option wanted permessage_deflate))
      (record n { options = clear_options deflate_flags wanted })
      (settle n (accepted_window wanted (parse_offers offer)))
      (λ e.
        let never : has_option wanted permessage_deflate ≡ false = ground arith in
        without_deflate (never_cleared-IsPlain wanted h never) refl (inl never))
      (λ e.
        settle-Settled offer wanted (accepted_window wanted (parse_offers offer)) h (ground arith)
          (accepted_window-FoundIn wanted (parse_offers offer)))
