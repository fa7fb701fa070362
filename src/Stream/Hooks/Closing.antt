-- ===== src/Stream/Hooks/Closing.antt =====
-- A session that has sent its Close frame, and the data frames that still arrive.
use eiows.Common.{
  ℕ, ◌<◌, ◌≡◌, refl, ap, Bool, true, false, not, ◌&&◌, arith, ltb, ◌==◌, if◌then◌else◌, Bytes,
  if_true, if_intro,
}
use eiows.Protocol.Ascii.{Simd}
use eiows.Protocol.OpCode
use eiows.Stream.Hooks.{
  set_compressed, set_compressed_status, handle_fragment, handle_data, handle_control, force_close,
}
use eiows.Stream.Session.{enabled, compressed_frame, Codec, Session}
use eiows.Stream.Valid.{fail-closing}

module _ {Context : Type 0} (codec : Codec Context) (simd : Simd) where
  handle_fragment-ignored :
      (bytes : Bytes) (remaining op : ℕ) (fin : Bool) (s : Session Context)
      → s.closing ≡ false
      → s.close_sent ≡ true
      → op < 3
      → handle_fragment codec simd bytes remaining op fin s ≡ (false, s)
  unfolding handle_fragment
  handle_fragment-ignored bytes remaining op fin s going sent small =
      if_intro (λ (r : Bool × Session Context). r ≡ (false, s)) s.closing (true, s)
        (if s.close_sent
            && not (op == OpCode.close)
            && not (op == OpCode.ping)
            && not (op == OpCode.pong)
          then (false, s)
          else if ltb op 3
          then handle_data codec simd bytes remaining op fin s
          else handle_control codec simd bytes remaining op fin s)
        (λ e. absurd (cc (e, going)))
        (λ _.
          if_true
            (s.close_sent
              && not (op == OpCode.close)
              && not (op == OpCode.ping)
              && not (op == OpCode.pong))
            _ _ (ground arith))

  set_compressed-enabled :
      (s : Session Context)
      → s.compression_status ≡ enabled
      → set_compressed codec simd s ≡ (true, record s { compression_status = compressed_frame })
  unfolding set_compressed set_compressed_status
  set_compressed-enabled s on = ap (λ status. set_compressed_status codec simd status s) on

  -- A compressed message that arrives after the session has sent its Close frame is passed over, but
  -- it leaves the session in the middle of a compressed message: the next compressed message is
  -- taken for an invalid one, and the parser's forceClose then closes the session.
  pub set_compressed-after_close :
      (bytes : Bytes) (remaining op : ℕ) (fin : Bool) (s : Session Context)
      → s.closing ≡ false
      → s.close_sent ≡ true
      → s.compression_status ≡ enabled
      → op < 3
      → (let first = set_compressed codec simd s in
          let passed = handle_fragment codec simd bytes remaining op fin first.1 in
          (first.0 ≡ true)
          × (passed.0 ≡ false)
          × ((set_compressed codec simd passed.1).0 ≡ false)
          × ((force_close codec simd passed.1).closing ≡ true))
  unfolding set_compressed set_compressed_status force_close
  set_compressed-after_close bytes remaining op fin s going sent on small =
      let s' : Session Context = record s { compression_status = compressed_frame } in
      let ignored = handle_fragment-ignored bytes remaining op fin s' going sent small in
      rw (set_compressed-enabled s on, ignored)
        (refl, refl, refl, fail-closing simd s.max_payload false s.failure_code s')
