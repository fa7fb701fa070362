-- ===== src/Stream/Hooks/Parts.antt =====
-- A Ping or a Pong whose payload comes in two reads, in the middle of a message or not.
use eiows.Common.{
  ℕ, ◌+◌, ◌-◌, ◌%◌, ◌^◌, ◌<◌, ◌≤◌, ◌≡◌, refl, ◌∙◌, sym, ap, ap₂, ◌⊎◌, inl, inr, Bool, true, false,
  not, ◌&&◌, ◌++◌, append_assoc, arith, ltb, ◌==◌, Bytes, if_true, if_false, Bool-cases, length,
  length-append, take, drop, take-append, drop-append,
}
use eiows.Protocol.Ascii.{Simd}
use eiows.Protocol.OpCode
use eiows.Stream.Hooks.{handle_fragment, handle_control, buffered_control, reply}
use eiows.Stream.Session.{Codec, Session}

module _ {Context : Type 0} (codec : Codec Context) (simd : Simd) where
  -- While the session is open, a control frame's payload goes to handle_control.
  handle_fragment-control :
      (bytes : Bytes) (remaining op : ℕ) (fin : Bool) (s : Session Context)
      → s.closing ≡ false
      → (op ≡ 9) ⊎ (op ≡ 10)
      → handle_fragment codec simd bytes remaining op fin s
        ≡ handle_control codec simd bytes remaining op fin s
  unfolding handle_fragment
  handle_fragment-control bytes remaining op fin s going control =
      if_false s.closing _ _ going
      ∙ if_false
          (s.close_sent
            && not (op == OpCode.close)
            && not (op == OpCode.ping)
            && not (op == OpCode.pong))
          _ _ (ground arith)
      ∙ if_false (ltb op 3) _ _ (ground arith)

  handle_control-first :
      (bytes : Bytes) (remaining op : ℕ) (fin : Bool) (s : Session Context)
      → 0 < remaining
      → handle_control codec simd bytes remaining op fin s ≡ (
        false,
        record s {
          fragment_buffer = s.fragment_buffer ++ bytes;
          control_tip_length = (s.control_tip_length + length bytes) % 2 ^ 8;
        },
      )
  unfolding handle_control
  handle_control-first bytes remaining op fin s h =
      if_false ((remaining == 0 && fin) && s.control_tip_length == 0) _ _ (ground arith)
      ∙ if_false (remaining == 0 && fin) _ _ (ground arith)

  handle_control-whole :
      (bytes : Bytes) (op : ℕ) (s : Session Context)
      → (op ≡ 9) ⊎ (op ≡ 10)
      → s.control_tip_length ≡ 0
      → handle_control codec simd bytes 0 op true s ≡ (false, reply codec simd op bytes s)
  unfolding handle_control
  handle_control-whole bytes op s control none_yet =
      if_true ((0 == 0 && true) && s.control_tip_length == 0) _ _ (ground arith)
      ∙ if_false (op == OpCode.close) _ _ (ground arith)

  reply-fields :
      (bytes buffer : Bytes) (n op : ℕ) (s : Session Context)
      → reply codec simd op bytes (record s { fragment_buffer = buffer; control_tip_length = n })
        ≡ record (reply codec simd op bytes s) { fragment_buffer = buffer; control_tip_length = n }
  unfolding reply
  reply-fields bytes buffer n op s = elim (Bool-cases (op == OpCode.ping)) [
    | inl e ↦ rw e refl
    | inr e ↦ rw e refl
  ]

  -- The tip is taken off the buffer's end, which leaves what was there before the frame.
  handle_control-last :
      (bytes tip before : Bytes) (op : ℕ) (s : Session Context)
      → (op ≡ 9) ⊎ (op ≡ 10)
      → s.fragment_buffer ≡ before ++ tip
      → s.control_tip_length ≡ length tip
      → 0 < length tip
      → length tip + length bytes ≤ 125
      → handle_control codec simd bytes 0 op true s ≡ (
        false,
        record (reply codec simd op (tip ++ bytes) s) {
          fragment_buffer = before;
          control_tip_length = 0;
        },
      )
  unfolding handle_control buffered_control
  handle_control-last bytes tip before op s control b t some_tip short =
      if_false ((0 == 0 && true) && s.control_tip_length == 0) _ _ (ground arith)
      ∙ if_false (op == OpCode.close) _ _ (ground arith)
      ∙ ap
          (λ (r : Session Context).
            (false, record r { fragment_buffer = take start buffer; control_tip_length = 0 }))
          (reply-fields (drop start buffer) buffer ((s.control_tip_length + length bytes) % 2 ^ 8)
            op s)
      ∙ ap₂
          (λ (d kept : Bytes). (
            false,
            record (reply codec simd op d s) { fragment_buffer = kept; control_tip_length = 0 },
          ))
          dropped taken
    where
      buffer : Bytes
      buffer = s.fragment_buffer ++ bytes

      start : ℕ
      start = length buffer - (s.control_tip_length + length bytes) % 2 ^ 8

      split : buffer ≡ before ++ (tip ++ bytes)
      split = ap (λ (x : Bytes). x ++ bytes) b ∙ append_assoc before tip bytes

      at_start : start ≡ length before
      at_start =
          omega
            (arith, length-append before (tip ++ bytes), length-append tip bytes, ap length split)

      dropped : drop start buffer ≡ tip ++ bytes
      dropped = ap₂ drop at_start split ∙ drop-append (length before) before (tip ++ bytes) refl

      taken : take start buffer ≡ before
      taken = ap₂ take at_start split ∙ take-append (length before) before (tip ++ bytes) refl

  -- A Ping or a Pong that arrives in two parts, whatever has been gathered of a message, leaves the
  -- session as the whole frame does: the same reply, if the session is open, and the message's part
  -- as it was.
  pub handle_fragment-parts :
      (first second : Bytes) (op : ℕ) (s : Session Context)
      → s.closing ≡ false
      → s.control_tip_length ≡ 0
      → (op ≡ 9) ⊎ (op ≡ 10)
      → 0 < length first
      → 0 < length second
      → length first + length second ≤ 125
      → handle_fragment codec simd second 0 op true
          (handle_fragment codec simd first (length second) op true s).1
        ≡ handle_fragment codec simd (first ++ second) 0 op true s
  handle_fragment-parts first second op s going none_yet control h k short =
      let tip = (s.control_tip_length + length first) % 2 ^ 8 in
      let buffer = s.fragment_buffer ++ first in
      let s' : Session Context = record s { fragment_buffer = buffer; control_tip_length = tip } in
      let begun =
        handle_fragment-control first (length second) op true s going control
        ∙ handle_control-first first (length second) op true s k in
      ap (λ (r : Bool × Session Context). handle_fragment codec simd second 0 op true r.1) begun
      ∙ handle_fragment-control second 0 op true s' going control
      ∙ handle_control-last second first s.fragment_buffer op s' control refl (omega arith) h short
      ∙ ap (λ (r : Session Context). (false, r))
          (ap
              (λ (r : Session Context). record r {
                fragment_buffer = s.fragment_buffer;
                control_tip_length = 0;
              })
              (reply-fields (first ++ second) buffer tip op s)
            ∙ sym (reply-fields (first ++ second) s.fragment_buffer 0 op s)
            ∙ ap
                (λ (n : ℕ).
                  reply codec simd op (first ++ second) (record s { control_tip_length = n }))
                (sym none_yet))
      ∙ sym (
          handle_fragment-control (first ++ second) 0 op true s going control
          ∙ handle_control-whole (first ++ second) op s control none_yet)
