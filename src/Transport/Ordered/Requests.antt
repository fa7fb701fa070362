-- ===== src/Transport/Ordered/Requests.antt =====
-- A write request stays consistent through the loop that advances its cursor, and starts so.
use eiows.Common.{
  ℕ, zero, suc, ◌+◌, ◌-◌, ◌^◌, ◌≤◌, ◌≡◌, refl, sym, ◌∙◌, ap, ap₂, Bool, true, false, not, Option,
  List, [], ◌∷◌, ◌++◌, ltb, ◌==◌, if◌then◌else◌, if_intro, Bytes, length, take, drop, length-append,
  append_assoc, length-drop, arith, take-append_before, drop-append_split,
}
use eiows.Transport.Ordered.{IsRequest}
use eiows.Transport.WriteRequest.{
  WriteRequest, new_request, part_count, concat, skip_empty_parts, total_bytes, prepare,
  advance_parts, advance_cursor, advance, remaining, remaining_bytes, remaining_iovecs,
}
use eiows.Transport.WriteRequest.Cursor.{
  first_length, advance-remaining, skip_empty_parts-remaining, skip_empty_parts-offset,
}

-- The counters, which the cursor's moves leave alone.
abbrev pub counters : WriteRequest → ℕ × ℕ
counters w = (w.bytes, w.sent)

skip_empty_parts-counters :
    (finished : ℕ) (ps : List Bytes) (w : WriteRequest)
    → counters (skip_empty_parts finished ps w) ≡ counters w
unfolding skip_empty_parts
skip_empty_parts-counters finished [] w = refl
skip_empty_parts-counters finished ([] ∷ ps) w = skip_empty_parts-counters (finished + 1) ps w
skip_empty_parts-counters finished ((b ∷ p) ∷ ps) w = refl

skip_empty_parts-cursor :
    (finished : ℕ) (ps : List Bytes) (w : WriteRequest)
    → w.cursor_offset ≤ first_length ps
    → (skip_empty_parts finished ps w).cursor_offset
      ≤ first_length (skip_empty_parts finished ps w).rest
unfolding skip_empty_parts
skip_empty_parts-cursor finished [] w h = h
skip_empty_parts-cursor finished ([] ∷ ps) w h =
    skip_empty_parts-cursor (finished + 1) ps w (omega (arith, h))
skip_empty_parts-cursor finished ((b ∷ p) ∷ ps) w h = h

-- What holds of a request whose cursor has moved.
abbrev pub IsMoved : WriteRequest → WriteRequest → Type 0
IsMoved w r = (r.cursor_offset ≤ first_length r.rest) × (counters r ≡ counters w)

pub advance_parts-IsMoved :
    (n offset finished : ℕ) (ps : List Bytes) (w : WriteRequest)
    → offset ≤ first_length ps
    → IsMoved w (advance_parts n offset finished ps w)
unfolding advance_parts
advance_parts-IsMoved n offset finished [] w h = (h, refl)
advance_parts-IsMoved n offset finished (p ∷ ps) w h =
    let available = length p - offset in
    let skipped : WriteRequest =
      skip_empty_parts finished (p ∷ ps) (record w { cursor_offset = offset }) in
    let inside : WriteRequest = record w {
      finished = finished;
      rest = p ∷ ps;
      cursor_offset = offset + n;
    } in
    let next = advance_parts (n - available) 0 (finished + 1) ps w in
    if_intro (IsMoved w) (n == 0) skipped (if ltb n available then inside else next)
      (λ _. (
        skip_empty_parts-cursor finished (p ∷ ps) (record w { cursor_offset = offset }) h,
        skip_empty_parts-counters finished (p ∷ ps) (record w { cursor_offset = offset }),
      ))
      (λ _.
        if_intro (IsMoved w) (ltb n available) inside next (λ e. (ground arith, refl))
          (λ _. advance_parts-IsMoved (n - available) 0 (finished + 1) ps w (omega arith)))

advance-IsMoved :
    (n : ℕ) (w : WriteRequest)
    → w.cursor_offset ≤ first_length w.rest
    → IsMoved (record w { sent = w.sent + n }) (advance n w)
unfolding advance advance_cursor
advance-IsMoved n w h =
    advance_parts-IsMoved n w.cursor_offset w.finished w.rest (record w { sent = w.sent + n }) h

pub advance-IsRequest : (n : ℕ) (w : WriteRequest) → IsRequest w → IsRequest (advance n w)
unfolding remaining_bytes
advance-IsRequest n w v =
    let (cursor, same) = advance-IsMoved n w v.cursor in
    record {
      cursor = cursor;
      counted =
          ap (length {A = ℕ}) (advance-remaining n w v.cursor)
          ∙ length-drop n (remaining w)
          ∙ omega (arith, v.counted, ap (λ (c : ℕ × ℕ). c.0) same, ap (λ (c : ℕ × ℕ). c.1) same);
    }

-- What the vectors of a message hold is the beginning of what remains.
concat-take :
    (limit : ℕ) (ps : List Bytes)
    → (behind : Bytes) × (concat ps ≡ concat (take limit ps) ++ behind)
concat-take zero ps = (concat ps, refl)
concat-take (suc limit) [] = ([], refl)
concat-take (suc limit) (p ∷ ps) =
    let (behind, e) = concat-take limit ps in
    (behind, ap (λ (b : Bytes). p ++ b) e ∙ sym (append_assoc p (concat (take limit ps)) behind))

pub take-remaining_iovecs :
    (k limit : ℕ) (w : WriteRequest)
    → k ≤ length (remaining_iovecs limit w)
    → take k (remaining_iovecs limit w) ≡ take k (remaining w)
unfolding remaining_iovecs
take-remaining_iovecs k limit w h =
    let (behind, e) = concat-take limit w.rest in
    let vectors = concat (take limit w.rest) in
    sym (
      ap (λ (b : Bytes). take k (drop w.cursor_offset b)) e
      ∙ ap (take k) (drop-append_split w.cursor_offset vectors behind)
      ∙ take-append_before k (drop w.cursor_offset vectors)
          (drop (w.cursor_offset - length vectors) behind) h)

pub length-remaining_iovecs :
    (limit : ℕ) (w : WriteRequest) → length (remaining_iovecs limit w) ≤ length (remaining w)
unfolding remaining_iovecs
length-remaining_iovecs limit w =
    let (behind, e) = concat-take limit w.rest in
    let vectors = concat (take limit w.rest) in
    omega (
      arith,
      ap (λ (b : Bytes). length (drop w.cursor_offset b)) e
          ∙ ap (length {A = ℕ}) (drop-append_split w.cursor_offset vectors behind)
          ∙ length-append (drop w.cursor_offset vectors)
              (drop (w.cursor_offset - length vectors) behind),
    )

-- prepare, on a new request
pub total_bytes-sum :
    (sum : ℕ) (ps : List Bytes)
    → (total_bytes sum ps).0 ≡ true
    → (total_bytes sum ps).1 ≡ sum + length (concat ps)
unfolding total_bytes
total_bytes-sum sum [] e = omega arith
total_bytes-sum sum (p ∷ ps) e =
    let later : ((total_bytes (sum + length p) ps).0 ≡ true)
        → (total_bytes (sum + length p) ps).1 ≡ sum + length (p ++ concat ps) =
      λ h. total_bytes-sum (sum + length p) ps h ∙ omega (arith, length-append p (concat ps)) in
    if_intro (λ (r : Bool × ℕ). r.0 ≡ true → r.1 ≡ sum + length (p ++ concat ps))
      (ltb (2 ^ 64 - 1 - length p) sum) (false, sum) (total_bytes (sum + length p) ps)
      (λ _ h. absurd (cc h)) (λ _. later) e

-- A prepared request is consistent, and has the bytes of its parts to write.
pub record IsPrepared (parts : List Bytes) (r : WriteRequest) : Type 0 where
  pub request : IsRequest r
  pub all_bytes : remaining r ≡ concat parts
  pub nothing_sent : remaining_bytes r ≡ r.bytes

pub skipped-IsPrepared :
    (ps : List Bytes) (w : WriteRequest)
    → w.cursor_offset ≡ 0
    → w.sent ≡ 0
    → w.bytes ≡ length (concat ps)
    → IsPrepared ps (skip_empty_parts 0 ps w)
unfolding remaining_bytes
skipped-IsPrepared ps w o s b =
    let r = skip_empty_parts 0 ps w in
    let all : remaining r ≡ concat ps =
      ap₂ drop (skip_empty_parts-offset 0 ps w ∙ o) (skip_empty_parts-remaining 0 ps w) in
    let bytes = ap (λ (c : ℕ × ℕ). c.0) (skip_empty_parts-counters 0 ps w) in
    let sent = ap (λ (c : ℕ × ℕ). c.1) (skip_empty_parts-counters 0 ps w) in
    record {
      request = record {
        cursor = skip_empty_parts-cursor 0 ps w (omega (arith, o));
        counted = ap (length {A = ℕ}) all ∙ omega (arith, bytes, sent, s, b);
      };
      all_bytes = all;
      nothing_sent = omega (arith, sent, s);
    }

zero_add : (n : ℕ) → 0 + n ≡ n
zero_add n = omega arith

not-false : (b : Bool) → not b ≡ false → b ≡ true
not-false true h = refl
not-false false h = sym h

pub prepare-IsPrepared :
    (address : ℕ) (ps : List Bytes) (callback : Option ℕ)
    → (prepare (new_request address ps callback)).0 ≡ true
    → IsPrepared ps (prepare (new_request address ps callback)).1
unfolding prepare
prepare-IsPrepared address ps callback e =
    let w : WriteRequest = new_request address ps callback in
    let (fits, sum) = total_bytes 0 ps in
    let whole : WriteRequest = record w { bytes = sum } in
    if_intro (λ (r : Bool × WriteRequest). r.0 ≡ true → IsPrepared ps r.1) (not fits) (false, whole)
      (not (part_count w == 0), skip_empty_parts 0 ps whole) (λ _ h. absurd (cc h))
      (λ h _.
        skipped-IsPrepared ps whole refl refl
          (total_bytes-sum 0 ps (not-false fits h) ∙ zero_add (length (concat ps))))
      e
