-- ===== src/Stream/Api/Sends.antt =====
-- What createFrame and createCloseFrame answer around the closing handshake.
use eiows.Common.{
  ℕ, ◌≡◌, Bool, true, not, ◌&&◌, ◌||◌, Option, none, some, arith, ◌==◌, if_true, if_intro, Bytes,
}
use eiows.Protocol.Ascii.{Simd}
use eiows.Protocol.OpCode
use eiows.Stream.Api.{create_frame, create_close_frame}
use eiows.Stream.Session.{Codec, Session, format_close}

module _ {Context : Type 0} (codec : Codec Context) (simd : Simd) where
  -- Once the session is closed or has sent its Close frame, no message is framed and no second Close
  -- frame is made, and the session stays as it is.
  pub create-refused :
      (bytes : Bytes) (op_code code : ℕ) (compress : Bool) (reason : Option Bytes)
      (s : Session Context)
      → (s.closing || s.close_sent) ≡ true
      → (create_frame codec simd bytes op_code compress s ≡ (none, s))
        × (create_close_frame codec simd code reason s ≡ (none, s))
  unfolding create_frame create_close_frame
  create-refused bytes op_code code compress reason s e = (
    if_true
        (s.closing
          || s.close_sent
          || (not (op_code == OpCode.text) && not (op_code == OpCode.binary)))
        _ _ (ground arith),
    if_true (s.closing || s.close_sent) _ _ e,
  )

  create_close_frame-sent :
      (code : ℕ) (reason : Option Bytes) (s : Session Context)
      → (let s' = (create_close_frame codec simd code reason s).1 in (s'.closing || s'.close_sent))
        ≡ true
  unfolding create_close_frame
  create_close_frame-sent code reason s =
      if_intro (λ (r : Option Bytes × Session Context). (r.1.closing || r.1.close_sent) ≡ true)
        (s.closing || s.close_sent) (none, s)
        (some (format_close simd code reason), record s { close_sent = true }) (λ e. e)
        (λ e. ground arith)

  -- Whatever createCloseFrame has answered, the session frames no message after it and makes no
  -- second Close frame.
  pub create_close_frame-once :
      (bytes : Bytes) (op_code code code' : ℕ) (compress : Bool) (reason reason' : Option Bytes)
      (s : Session Context)
      → (let s' = (create_close_frame codec simd code reason s).1 in
          (create_frame codec simd bytes op_code compress s' ≡ (none, s'))
          × (create_close_frame codec simd code' reason' s' ≡ (none, s')))
  create_close_frame-once bytes op_code code code' compress reason reason' s =
      create-refused bytes op_code code' compress reason'
        (create_close_frame codec simd code reason s).1 (create_close_frame-sent code reason s)
