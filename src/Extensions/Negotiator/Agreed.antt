-- ===== src/Extensions/Negotiator/Agreed.antt =====
-- What a negotiation agrees on.
use eiows.Common.{
  ℕ, ◌≤◌, ◌≡◌, refl, sym, ◌∙◌, inl, inr, true, false, not, ◌||◌, Option, none, some, List, [], ◌∷◌,
  ltb, if◌then◌else◌, if_intro, Bytes, arith, Bool-cases, Option-cases, subst,
}
use eiows.Extensions.Negotiator.{
  literal, same_bytes, window_bits_of, is_window_bits, window_bits_value, Window, is_seen,
  check_parameter, check_parameters, is_compatible_offer, default_window,
}
use eiows.Extensions.Offers.{ExtensionParameter, ExtensionOffer}
use eiows.Stream.Session.{server_no_context_takeover, has_option}

-- A window that zlib can keep to; without an agreement it is the largest.
pub data IsWindow (w : Window) : Type 0 where
  unlimited : w.negotiated ≡ false → w.bits ≡ 15 → IsWindow w
  limited : w.negotiated ≡ true → 9 ≤ w.bits → w.bits ≤ 15 → IsWindow w

-- No two parameters of the list have one name, and none has a name of `seen`.
abbrev pub Distinct : List Bytes → List ExtensionParameter → Type 0
Distinct seen [] = Unit
Distinct seen (p ∷ ps) = (is_seen p.name seen ≡ false) × Distinct (p.name ∷ seen) ps

window_bits_of-le : (value : Bytes) (n : ℕ) → window_bits_of value ≡ some n → n ≤ 15
unfolding window_bits_of
window_bits_of-le [] n e = absurd (cc e)
window_bits_of-le (a ∷ []) n e = ground arith
window_bits_of-le (a ∷ b ∷ []) n e = ground arith
window_bits_of-le (a ∷ b ∷ c ∷ s) n e = absurd (cc e)

window_bits_value-le : (p : ExtensionParameter) → window_bits_value p ≤ 15
unfolding window_bits_value
window_bits_value-le p = elim (Option-cases (window_bits_of p.value)) [
  | inl e ↦ rw e (
      if_intro (λ k. k ≤ 15) (not p.has_value || not (is_window_bits p true)) 0 0 (λ _. omega arith)
        (λ _. omega arith))
  | inr (n, e) ↦ rw e (
      if_intro (λ k. k ≤ 15) (not p.has_value || not (is_window_bits p true)) 0 n (λ _. omega arith)
        (λ _. window_bits_of-le p.value n e))
]

abbrev OptionWindow : Option Window → Type 0
OptionWindow none = Unit
OptionWindow (some w) = IsWindow w

check_parameter-IsWindow :
    (wanted : ℕ) (p : ExtensionParameter) (w : Window)
    → IsWindow w
    → OptionWindow (check_parameter wanted p w)
unfolding check_parameter
check_parameter-IsWindow wanted p w i =
    let bits = window_bits_value p in
    let limit : Option Window =
      if ltb bits 9 then none else some (record { bits = bits; negotiated = true }) in
    let last : Option Window =
      if same_bytes p.name (literal "client_max_window_bits")
      then if not (is_window_bits p false) then none else some w
      else none in
    let third : Option Window =
      if same_bytes p.name (literal "server_max_window_bits") then limit else last in
    let second : Option Window = if p.has_value then none else some w in
    if_intro OptionWindow (same_bytes p.name (literal "server_no_context_takeover"))
      (if p.has_value || not (has_option wanted server_no_context_takeover) then none else some w)
      (if same_bytes p.name (literal "client_no_context_takeover") then second else third)
      (λ _.
        if_intro OptionWindow (p.has_value || not (has_option wanted server_no_context_takeover))
          none (some w) (λ _. tt) (λ _. i))
      (λ _.
        if_intro OptionWindow (same_bytes p.name (literal "client_no_context_takeover")) second
          third (λ _. if_intro OptionWindow p.has_value none (some w) (λ _. tt) (λ _. i))
          (λ _.
            if_intro OptionWindow (same_bytes p.name (literal "server_max_window_bits")) limit last
              (λ _.
                if_intro OptionWindow (ltb bits 9) none
                  (some (record { bits = bits; negotiated = true })) (λ _. tt)
                  (λ e. limited refl (ground arith) (window_bits_value-le p)))
              (λ _.
                if_intro OptionWindow (same_bytes p.name (literal "client_max_window_bits"))
                  (if not (is_window_bits p false) then none else some w) none
                  (λ _.
                    if_intro OptionWindow (not (is_window_bits p false)) none (some w) (λ _. tt)
                      (λ _. i))
                  (λ _. tt))))

module _ (wanted : ℕ) (seen : List Bytes) (p : ExtensionParameter) (ps : List ExtensionParameter)
    (w : Window) where
  check_parameters-seen :
      is_seen p.name seen ≡ true → check_parameters wanted seen (p ∷ ps) w ≡ none
  unfolding check_parameters
  check_parameters-seen e = rw (e, check_parameters) refl

  check_parameters-refused :
      is_seen p.name seen ≡ false
      → check_parameter wanted p w ≡ none
      → check_parameters wanted seen (p ∷ ps) w ≡ none
  unfolding check_parameters
  check_parameters-refused e f = rw (e, f, check_parameters) refl

  check_parameters-next :
      (w' : Window)
      → is_seen p.name seen ≡ false
      → check_parameter wanted p w ≡ some w'
      → check_parameters wanted seen (p ∷ ps) w ≡ check_parameters wanted (p.name ∷ seen) ps w'
  unfolding check_parameters
  check_parameters-next w' e f = rw (e, f, check_parameters) refl

check_parameters-nil :
    (wanted : ℕ) (seen : List Bytes) (w : Window) → check_parameters wanted seen [] w ≡ some w
unfolding check_parameters
check_parameters-nil wanted seen w = refl

check_parameters-IsWindow :
    (wanted : ℕ) (seen : List Bytes) (ps : List ExtensionParameter) (w w' : Window)
    → IsWindow w
    → check_parameters wanted seen ps w ≡ some w'
    → IsWindow w' × Distinct seen ps
check_parameters-IsWindow wanted seen [] w w' i e =
    (subst OptionWindow (sym (check_parameters-nil wanted seen w) ∙ e) i, tt)
check_parameters-IsWindow wanted seen (p ∷ ps) w w' i e = elim (Bool-cases (is_seen p.name seen)) [
  | inl old ↦ absurd (cc (check_parameters-seen wanted seen p ps w old, e))
  | inr new ↦ elim (Option-cases (check_parameter wanted p w)) [
    | inl bad ↦ absurd (cc (check_parameters-refused wanted seen p ps w new bad, e))
    | inr (next, good) ↦
        let (i', distinct) =
          check_parameters-IsWindow wanted (p.name ∷ seen) ps next w'
            (subst OptionWindow good (check_parameter-IsWindow wanted p w i))
            (sym (check_parameters-next wanted seen p ps w next new good) ∙ e) in
        (i', (new, distinct))
  ]
]

-- An offer that isCompatibleOffer accepts names no parameter twice, and the window that it yields is
-- one of 9 to 15 bits, or the default of 15 bits if the offer names none.
pub is_compatible_offer-IsWindow :
    (offer : ExtensionOffer) (wanted : ℕ) (w : Window)
    → is_compatible_offer offer wanted ≡ some w
    → IsWindow w × Distinct [] offer.parameters
unfolding is_compatible_offer
is_compatible_offer-IsWindow offer wanted w e =
    check_parameters-IsWindow wanted [] offer.parameters default_window w (unlimited refl refl) e
