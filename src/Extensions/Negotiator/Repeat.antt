-- ===== src/Extensions/Negotiator/Repeat.antt =====
-- generateOffer's text, read by readOffer.
use eiows.Common.{
  ℕ, ◌+◌, ◌-◌, ◌*◌, ◌/◌, ◌%◌, ◌≤◌, ◌<◌, ◌≡◌, refl, sym, ap₂, ◌∙◌, Bool, true, not, ◌&&◌, ◌||◌, ◌==◌,
  arith, agree_below, agree_below→eq,
}
use eiows.Extensions.Negotiator.{
  same_bytes, window_bits_of, is_window_bits, window_bits_value, Window, is_seen, check_parameter,
  check_parameters, is_compatible_offer, ExtensionsNegotiator, new_negotiator, generate_offer,
  first_compatible, accepted_window, settle, read_offer,
}
use eiows.Extensions.Offers.{
  is_token_character, lower_ascii, skip_whitespace, span_token, read_token, quoted_text,
  read_quoted_string, read_value, after_name, read_parameter, read_parameters, read_offers,
  parse_offers,
}
use eiows.Stream.Session.{permessage_deflate, has_option}

-- The negotiator with these options and an agreed window.
abbrev pub agreed : ℕ → ℕ → ExtensionsNegotiator
agreed options bits = record {
  options = options;
  window = record { bits = bits; negotiated = true };
}

abbrev equal : ExtensionsNegotiator → ExtensionsNegotiator → Bool
equal m n =
    m.options == n.options
    && m.window.bits == n.window.bits
    && m.window.negotiated
    && n.window.negotiated

abbrev repeats_at : ℕ → ℕ → Bool
repeats_at options bits =
    not (has_option options permessage_deflate)
    || equal (read_offer (generate_offer (agreed options bits)) (new_negotiator options))
        (agreed options bits)

abbrev repeats : ℕ → Bool
repeats i = repeats_at (i / 7) (9 + i % 7)

repeats-all : agree_below repeats (λ _. true) 224 ≡ true
unfolding agree_below read_offer generate_offer parse_offers skip_whitespace read_offers read_token
    span_token is_token_character lower_ascii read_parameters read_parameter after_name read_value
    read_quoted_string quoted_text accepted_window settle first_compatible same_bytes
    is_compatible_offer check_parameters check_parameter is_seen window_bits_value is_window_bits
    window_bits_of
repeats-all = refl

wanted_part : (a b : Bool) → a ≡ true → (not a || b) ≡ true → b ≡ true
wanted_part a b h e = ground arith

equal→eq : (m n : ExtensionsNegotiator) → equal m n ≡ true → m ≡ n
equal→eq m n e =
    ap₂ (λ (options : ℕ) (window : Window). record { options = options; window = window })
      (ground arith)
      (ap₂ (λ (bits : ℕ) (negotiated : Bool). record { bits = bits; negotiated = negotiated })
        (ground arith) (ground arith))

-- The offer that a negotiator with deflate generates for an agreed window of 9 to 15 bits is
-- accepted by readOffer of a new negotiator that wants the same options, which ends with the same
-- options and window.
pub read_offer-generate_offer :
    (options bits : ℕ)
    → options < 32
    → 9 ≤ bits
    → bits ≤ 15
    → has_option options permessage_deflate ≡ true
    → read_offer (generate_offer (agreed options bits)) (new_negotiator options)
      ≡ agreed options bits
read_offer-generate_offer options bits h low high wanted =
    let i = options * 7 + (bits - 9) in
    let test = agree_below→eq repeats (λ _. true) 224 repeats-all i (omega arith) in
    let there : repeats i ≡ repeats_at options bits = ap₂ repeats_at (omega arith) (omega arith) in
    equal→eq (read_offer (generate_offer (agreed options bits)) (new_negotiator options))
      (agreed options bits)
      (wanted_part (has_option options permessage_deflate) _ wanted (sym there ∙ test))
