-- ===== src/Transport/WriteRequest/Cursor.antt =====
-- The bytes that a write request has still to write, through advance.
use eiows.Common.{
  ℕ, zero, suc, ◌+◌, ◌-◌, ◌≤◌, ◌≡◌, refl, sym, ◌∙◌, ap, ap₂, List, [], ◌∷◌, ◌++◌, ltb, ◌==◌,
  if◌then◌else◌, if_intro, Bytes, length, drop, drop-append, drop-drop, arith,
}
use eiows.Transport.WriteRequest.{
  WriteRequest, concat, skip_empty_parts, advance_parts, advance_cursor, advance, remaining,
}

-- The bytes of the parts, from the cursor on.
pub skip_empty_parts-remaining :
    (finished : ℕ) (ps : List Bytes) (w : WriteRequest)
    → concat (skip_empty_parts finished ps w).rest ≡ concat ps
unfolding skip_empty_parts
skip_empty_parts-remaining finished [] w = refl
skip_empty_parts-remaining finished ([] ∷ ps) w = skip_empty_parts-remaining (finished + 1) ps w
skip_empty_parts-remaining finished ((b ∷ p) ∷ ps) w = refl

pub skip_empty_parts-offset :
    (finished : ℕ) (ps : List Bytes) (w : WriteRequest)
    → (skip_empty_parts finished ps w).cursor_offset ≡ w.cursor_offset
unfolding skip_empty_parts
skip_empty_parts-offset finished [] w = refl
skip_empty_parts-offset finished ([] ∷ ps) w = skip_empty_parts-offset (finished + 1) ps w
skip_empty_parts-offset finished ((b ∷ p) ∷ ps) w = refl

drop_past : (k n : ℕ) (p q : Bytes) → length p ≡ k → k ≤ n → drop n (p ++ q) ≡ drop (n - k) q
drop_past k n p q e h =
    ap (λ (i : ℕ). drop i (p ++ q)) (omega arith)
    ∙ sym (drop-drop (n - k) k (p ++ q))
    ∙ ap (drop (n - k)) (drop-append k p q e)

-- The length of the cursor's part.
abbrev pub first_length : List Bytes → ℕ
first_length [] = 0
first_length (p ∷ ps) = length p

drop-none : (n : ℕ) → drop {A = ℕ} n [] ≡ []
drop-none zero = refl
drop-none (suc n) = refl

pub advance_parts-remaining :
    (n offset finished : ℕ) (ps : List Bytes) (w : WriteRequest)
    → offset ≤ first_length ps
    → remaining (advance_parts n offset finished ps w) ≡ drop (offset + n) (concat ps)
unfolding advance_parts
advance_parts-remaining n offset finished [] w h = drop-none offset ∙ sym (drop-none (offset + n))
advance_parts-remaining n offset finished (p ∷ ps) w h =
    let available = length p - offset in
    let goal = λ (r : WriteRequest). remaining r ≡ drop (offset + n) (p ++ concat ps) in
    let skipped : WriteRequest =
      skip_empty_parts finished (p ∷ ps) (record w { cursor_offset = offset }) in
    let inside : WriteRequest = record w {
      finished = finished;
      rest = p ∷ ps;
      cursor_offset = offset + n;
    } in
    let next = advance_parts (n - available) 0 (finished + 1) ps w in
    if_intro goal (n == 0) skipped (if ltb n available then inside else next)
      (λ e.
        ap₂ drop
          (skip_empty_parts-offset finished (p ∷ ps) (record w { cursor_offset = offset })
            ∙ ground arith)
          (skip_empty_parts-remaining finished (p ∷ ps) (record w { cursor_offset = offset })))
      (λ _.
        if_intro goal (ltb n available) inside next (λ _. refl)
          (λ e.
            advance_parts-remaining (n - available) 0 (finished + 1) ps w (omega arith)
            ∙ ap (λ (i : ℕ). drop i (concat ps)) (ground arith)
            ∙ sym (drop_past (length p) (offset + n) p (concat ps) refl (ground arith))))

-- Whatever part of it the socket has accepted, a request has still to write what follows.
pub advance-remaining :
    (n : ℕ) (w : WriteRequest)
    → w.cursor_offset ≤ first_length w.rest
    → remaining (advance n w) ≡ drop n (remaining w)
unfolding advance advance_cursor
advance-remaining n w h =
    advance_parts-remaining n w.cursor_offset w.finished w.rest (record w { sent = w.sent + n }) h
    ∙ sym (drop-drop n w.cursor_offset (concat w.rest))
