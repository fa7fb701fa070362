-- ===== src/Protocol/Parser/Preserve.antt =====
-- Every step of the parser keeps its state valid, unless the owner closes.
use eiows.Common.{
  ℕ, ◌+◌, ◌-◌, ◌^◌, ◌≤◌, ◌<◌, bit_and, ◌≡◌, inl, inr, refl, subst, sym, ◌∙◌, ◌%◌, Bool, true, false,
  not, ◌||◌, arith, leb, ltb, ◌==◌, Bool-cases, Bytes, length, take, drop, length-take, length-drop,
}
use eiows.Protocol.Ascii.{Simd}
use eiows.Protocol.Frame.{
  is_fin, is_masked, get_op_code, payload_length, nonzero, read_uint16_be, read_uint64_be, rsv1,
}
use eiows.Protocol.Mask.{unmask, unmask_remaining}
use eiows.Protocol.Mask.Masked.{length-unmask, length-unmask_remaining}
use eiows.Protocol.Parser.{
  finished, read_mask, next_mask, check_fragmentation, check_op_stack, refuses, whole_message,
  first_part, consume_message, last_part, middle_part, consume_continuation,
  invalid_compressed_frame, invalid_header, consume_by_length, consume_frame, has_header,
}
use eiows.Protocol.State.{WebSocketState, current_op_code, Hooks}
use eiows.Protocol.Parser.Invariant.{
  Between, Inside, Place, IsValid, HookLaws, Fits, Contract, Opens, invalid_header-Opens,
  control-short, has_header-le, invalid_parts, guards-Inside, guards-Fits, guards_head,
  pop_op_code-Between, SoundOutcome, Between-ext, pop_op_code_head, pop_op_code_spill, Inside-ext,
}

module _ {C : Type 0} (hooks : Hooks C) (simd : Simd) (k : Contract C)
    (laws : HookLaws hooks k) where
  open laws use {
    limit_fits, force_close-closed, force_close-Holds, set_compressed-Holds,
    refuse_payload_length-Holds, not_refused-fits, handle_fragment-closed, handle_fragment-Holds,
  }

  -- Wherever the parser closes the connection.
  closes :
      (w : WebSocketState) (c : C) → k.Holds c → SoundOutcome k (finished w (hooks.force_close c))
  closes w c i = (force_close-Holds c i, inl (force_close-closed c))

  whole_message-Sound :
      (n header : ℕ) (src : Bytes) (w : WebSocketState) (c : C)
      → k.Holds c
      → Inside w
      → w.wants_head ≡ true
      → n + header ≤ length src
      → Fits k.limit n (current_op_code w) w.last_fin
      → SoundOutcome k (whole_message hooks simd n header w.last_fin src w c)
  unfolding whole_message
  whole_message-Sound n header src w c i inside head room fits =
      let bytes = take n (drop header src) in
      let mask = read_mask (drop (header - 4) src) in
      let payload = unmask simd mask bytes in
      let op = current_op_code w in
      let result = hooks.handle_fragment payload 0 op w.last_fin c in
      let size : n ≡ length payload + 0 = omega (
        arith,
        length-unmask simd mask bytes,
        length-take n (drop header src),
        length-drop header src,
      ) in
      let fits' = subst (λ (m : ℕ). Fits k.limit m op w.last_fin) size fits in
      let i' = handle_fragment-Holds payload 0 op w.last_fin c i fits' in
      elim (Bool-cases result.0) [
        | inl stop ↦
            rw stop (i', inl (handle_fragment-closed payload 0 op w.last_fin c i fits' stop))
        | inr go ↦ rw go (
          i',
          Between-ext _ 0 _ (pop_op_code-Between w inside),
          pop_op_code_head w ∙ head,
          omega arith,
        )
      ]

  Fits-le : (m n op : ℕ) (fin : Bool) → m ≤ n → Fits k.limit n op fin → Fits k.limit m op fin
  Fits-le m n op fin h (inl (d, l)) = inl (d, omega arith)
  Fits-le m n op fin h (inr (d, f, l)) = inr (d, f, omega arith)

  Fits-lt : (n op : ℕ) (fin : Bool) → Fits k.limit n op fin → n < 2 ^ 32
  Fits-lt n op fin (inl (d, l)) = omega (arith, limit_fits)
  Fits-lt n op fin (inr (d, f, l)) = omega arith

  first_part-Sound :
      (n header : ℕ) (src : Bytes) (w : WebSocketState) (c : C)
      → k.Holds c
      → Inside w
      → Fits k.limit n (current_op_code w) w.last_fin
      → header ≤ length src
      → length src < n + header
      → SoundOutcome k (first_part hooks simd n header w.last_fin src w c)
  unfolding first_part current_op_code
  first_part-Sound n header src w c i inside fits h short =
      let bytes = drop header src in
      let mask = read_mask (drop (header - 4) src) in
      let payload = unmask simd mask bytes in
      let remaining = (n + header - length src) % 2 ^ 32 in
      let op = current_op_code w in
      let below = Fits-lt n op w.last_fin fits in
      let size : n ≡ length payload + remaining =
        omega (arith, length-unmask simd mask bytes, length-drop header src) in
      (
        handle_fragment-Holds payload remaining op w.last_fin c i
            (subst (λ (m : ℕ). Fits k.limit m op w.last_fin) size fits),
        inr (record {
          spill_fits = omega arith;
          place = (
            Inside-ext w _ refl refl refl refl refl inside,
            refl,
            omega arith,
            Fits-le remaining n op w.last_fin (omega arith) fits,
          );
        }),
      )

  refuses-Holds : (op n : ℕ) (c : C) → k.Holds c → k.Holds (refuses hooks simd op n c).1
  unfolding refuses
  refuses-Holds op n c i = elim (Bool-cases (leb op 2)) [
    | inl e ↦ rw e (refuse_payload_length-Holds n c i)
    | inr e ↦ rw e i
  ]

  refuses-fits :
      (op n : ℕ) (c : C) → k.Holds c → (refuses hooks simd op n c).0 ≡ false → op ≤ 2 → n ≤ k.limit
  unfolding refuses
  refuses-fits op n c i h low = ground (arith, not_refused-fits n c i)

  -- The opcode and the length that the header tests leave to consumeMessage.
  consume_message-Sound :
      (n header : ℕ) (src : Bytes) (w : WebSocketState) (c : C)
      → k.Holds c
      → Between w
      → w.wants_head ≡ true
      → Opens (get_op_code src) (is_fin src)
      → (2 < get_op_code src → n ≤ 125)
      → header ≤ length src
      → SoundOutcome k (consume_message hooks simd n header src w c)
  unfolding consume_message
  consume_message-Sound n header src w c i between head opens short h =
      let op = get_op_code src in
      let begun = check_fragmentation op (is_fin src) w in
      let stacked = check_op_stack op begun.state in
      let asked = refuses hooks simd op n c in
      let i' = refuses-Holds op n c i in
      elim (Bool-cases begun.go) [
        | inr no_start ↦ rw no_start (closes begun.state c i)
        | inl start ↦ elim (Bool-cases stacked.go) [
          | inr no_push ↦ rw (start, no_push) (closes stacked.state c i)
          | inl push ↦ elim (Bool-cases asked.0) [
            | inl refused ↦ rw (start, push, refused) (closes _ asked.1 i')
            | inr accepted ↦
                let w' = record stacked.state { last_fin = is_fin src } in
                let inside = guards-Inside op (is_fin src) w between opens start push in
                let head' = guards_head op (is_fin src) w ∙ head in
                let fits =
                  guards-Fits k.limit n op (is_fin src) w between opens start push
                    (refuses-fits op n c i accepted) short in
                rw (start, push, accepted)
                  (elim (Bool-cases (leb (n + header) (length src))) [
                    | inl whole ↦ rw whole (
                        whole_message-Sound n header src w' asked.1 i' inside head' (ground arith)
                          fits)
                    | inr part ↦
                        rw part
                          (first_part-Sound n header src w' asked.1 i' inside fits h (ground arith))
                  ])
          ]
        ]
      ]

  last_part-Sound :
      (src : Bytes) (w : WebSocketState) (c : C)
      → k.Holds c
      → w.spill_length ≤ 13
      → Inside w
      → w.remaining_bytes ≤ length src
      → Fits k.limit w.remaining_bytes (current_op_code w) w.last_fin
      → SoundOutcome k (last_part hooks simd src w c)
  unfolding last_part
  last_part-Sound src w c i spill inside room fits =
      let bytes = take w.remaining_bytes src in
      let payload = unmask_remaining simd w.mask bytes in
      let op = current_op_code w in
      let result = hooks.handle_fragment payload 0 op w.last_fin c in
      let size : w.remaining_bytes ≡ length payload + 0 =
        omega
          (arith, length-unmask_remaining simd w.mask bytes, length-take w.remaining_bytes src) in
      let fits' = subst (λ (m : ℕ). Fits k.limit m op w.last_fin) size fits in
      let i' = handle_fragment-Holds payload 0 op w.last_fin c i fits' in
      elim (Bool-cases result.0) [
        | inl stop ↦
            rw stop (i', inl (handle_fragment-closed payload 0 op w.last_fin c i fits' stop))
        | inr go ↦ rw go (
          i',
          Between-ext _ _ true (pop_op_code-Between w inside),
          refl,
          omega (arith, pop_op_code_spill w),
        )
      ]

  middle_part-Sound :
      (src : Bytes) (w : WebSocketState) (c : C)
      → k.Holds c
      → w.wants_head ≡ false
      → Inside w
      → w.spill_length ≡ 0
      → length src < w.remaining_bytes
      → Fits k.limit w.remaining_bytes (current_op_code w) w.last_fin
      → SoundOutcome k (middle_part hooks simd src w c)
  unfolding middle_part current_op_code
  middle_part-Sound src w c i head inside empty short fits =
      let payload = unmask simd w.mask src in
      let rest = w.remaining_bytes - length src in
      let op = current_op_code w in
      let stop = (hooks.handle_fragment payload rest op w.last_fin c).0 in
      let mask' = next_mask stop (length src) w.mask in
      let size : w.remaining_bytes ≡ length payload + rest =
        omega (arith, length-unmask simd w.mask src) in
      (
        handle_fragment-Holds payload rest op w.last_fin c i
            (subst (λ (m : ℕ). Fits k.limit m op w.last_fin) size fits),
        inr (record {
          spill_fits = omega arith;
          place =
              subst (λ b. Place k.limit b (record w { remaining_bytes = rest; mask = mask' }))
                (sym head)
                (
                  Inside-ext w _ refl refl refl refl refl inside,
                  empty,
                  omega arith,
                  Fits-le rest w.remaining_bytes op w.last_fin (omega arith) fits,
                );
        }),
      )

  pub consume_continuation-Sound :
      (src : Bytes) (w : WebSocketState) (c : C)
      → k.Holds c
      → w.wants_head ≡ false
      → IsValid k.limit w
      → SoundOutcome k (consume_continuation hooks simd src w c)
  unfolding consume_continuation
  consume_continuation-Sound src w c i head valid =
      let (inside, empty, some_left, fits) = subst (λ b. Place k.limit b w) head valid.place in
      elim (Bool-cases (leb w.remaining_bytes (length src))) [
        | inl whole ↦
            rw whole (last_part-Sound src w c i valid.spill_fits inside (ground arith) fits)
        | inr part ↦ rw part (middle_part-Sound src w c i head inside empty (ground arith) fits)
      ]

  consume_by_length-Sound :
      (src : Bytes) (w : WebSocketState) (c : C)
      → k.Holds c
      → Between w
      → w.wants_head ≡ true
      → invalid_header src ≡ false
      → has_header src ≡ true
      → SoundOutcome k (consume_by_length hooks simd src w c)
  unfolding consume_by_length
  consume_by_length-Sound src w c i between head valid whole =
      let opens = invalid_header-Opens src valid in
      let short = control-short src valid in
      let room = has_header-le src whole in
      elim (Bool-cases (ltb (payload_length src) 126)) [
        | inl small ↦ rw small (
            consume_message-Sound (payload_length src) 6 src w c i between head opens short
              (ground arith))
        | inr not_small ↦ elim (Bool-cases (payload_length src == 126)) [
          | inl medium ↦ elim (Bool-cases (ltb (read_uint16_be (drop 2 src)) 126)) [
            | inl padded ↦ rw (not_small, medium, padded) (closes w c i)
            | inr exact ↦
                rw (not_small, medium, exact)
                  (consume_message-Sound (read_uint16_be (drop 2 src)) 8 src w c i between head
                    opens (λ h. absurd (ground (arith, short h))) (ground arith))
          ]
          | inr long ↦
              let n = read_uint64_be (drop 2 src) in
              elim (Bool-cases (nonzero (bit_and n (2 ^ 63)) || leb n 0xffff)) [
                | inl bad ↦ rw (not_small, long, bad) (closes w c i)
                | inr good ↦
                    rw (not_small, long, good)
                      (consume_message-Sound n 14 src w c i between head opens
                        (λ h. absurd (ground (arith, short h))) (ground arith))
              ]
        ]
      ]

  invalid_compressed_frame-Holds :
      (src : Bytes) (c : C) → k.Holds c → k.Holds (invalid_compressed_frame hooks simd src c).1
  unfolding invalid_compressed_frame
  invalid_compressed_frame-Holds src c i = elim (Bool-cases (rsv1 src)) [
    | inr e ↦ rw e i
    | inl e ↦ elim (Bool-cases (get_op_code src == 0 || ltb 2 (get_op_code src))) [
      | inl bad ↦ rw (e, bad) i
      | inr good ↦ rw (e, good) (set_compressed-Holds c i)
    ]
  ]

  pub consume_frame-Sound :
      (src : Bytes) (w : WebSocketState) (c : C)
      → k.Holds c
      → Between w
      → w.wants_head ≡ true
      → has_header src ≡ true
      → SoundOutcome k (consume_frame hooks simd src w c)
  unfolding consume_frame
  consume_frame-Sound src w c i between head whole =
      let asked = invalid_compressed_frame hooks simd src c in
      let i' = invalid_compressed_frame-Holds src c i in
      elim (Bool-cases (not (is_masked src) || asked.0 || invalid_header src)) [
        | inl bad ↦ rw bad (closes w asked.1 i')
        | inr good ↦ rw good (
            consume_by_length-Sound src w asked.1 i' between head
              (invalid_parts (not (is_masked src)) asked.0 (invalid_header src) good) whole)
      ]
