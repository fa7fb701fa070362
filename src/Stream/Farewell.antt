-- ===== src/Stream/Farewell.antt =====
-- The Close frames among a session's events, and where they stand.
use eiows.Common.{
  ℕ, ◌+◌, ◌<◌, ◌≡◌, refl, ap, ◌∙◌, Bool, true, false, Option, none, some, List, [], ◌∷◌, ◌++◌,
  arith, ◌==◌, if◌then◌else◌, Bytes, take,
}
use eiows.Protocol.Ascii.{Simd}
use eiows.Protocol.CloseFrame.{format_close_payload}
use eiows.Protocol.Frame.{get_op_code, format_message, format_message_header}
use eiows.Protocol.Frame.Header.{first_byte-op_code}
use eiows.Protocol.OpCode
use eiows.Stream.Session.{
  EventType, message, frame, close, Event, format_frame, format_close, max_close_reason,
}

abbrev pub is_close : EventType → ℕ
is_close close = 1
is_close frame = 0
is_close message = 0

-- The number of CLOSE events.
abbrev pub closes : List Event → ℕ
closes [] = 0
closes (e ∷ es) = is_close e.type + closes es

pub closes-append : (xs ys : List Event) → closes (xs ++ ys) ≡ closes xs + closes ys
closes-append [] ys = omega arith
closes-append (e ∷ xs) ys = let rest = closes-append xs ys in omega arith

-- 1 for a frame whose opcode is that of a Close.
abbrev pub close_frame : EventType → Bytes → ℕ
close_frame frame bytes = if get_op_code bytes == OpCode.close then 1 else 0
close_frame message bytes = 0
close_frame close bytes = 0

-- The number of Close frames among the frames to send.
abbrev pub close_frames : List Event → ℕ
close_frames [] = 0
close_frames (e ∷ es) = close_frame e.type e.bytes + close_frames es

pub close_frames-append :
    (xs ys : List Event) → close_frames (xs ++ ys) ≡ close_frames xs + close_frames ys
close_frames-append [] ys = omega arith
close_frames-append (e ∷ xs) ys = let rest = close_frames-append xs ys in omega arith

-- The same ahead of the first CLOSE event.
abbrev pub ahead : EventType → Bytes → ℕ → ℕ
ahead frame bytes n = close_frame frame bytes + n
ahead message bytes n = n
ahead close bytes n = 0

abbrev pub close_frames_ahead : List Event → ℕ
close_frames_ahead [] = 0
close_frames_ahead (e ∷ es) = ahead e.type e.bytes (close_frames_ahead es)

ahead-add :
    (type : EventType) (bytes : Bytes) (n k closed : ℕ)
    → is_close type + closed ≡ 0
    → ahead type bytes (n + k) ≡ ahead type bytes n + k
ahead-add frame bytes n k closed z = omega arith
ahead-add message bytes n k closed z = omega arith
ahead-add close bytes n k closed z = absurd (omega (arith, z))

pub close_frames_ahead-append :
    (xs ys : List Event)
    → closes xs ≡ 0
    → close_frames_ahead (xs ++ ys) ≡ close_frames_ahead xs + close_frames_ahead ys
close_frames_ahead-append [] ys z = omega arith
close_frames_ahead-append (e ∷ xs) ys z =
    ap (ahead e.type e.bytes) (close_frames_ahead-append xs ys (omega (arith, z)))
    ∙ ahead-add e.type e.bytes (close_frames_ahead xs) (close_frames_ahead ys) (closes xs) z

pub close_frames_ahead-same :
    (xs ys : List Event)
    → close_frames_ahead ys ≡ 0
    → close_frames_ahead (xs ++ ys) ≡ close_frames_ahead xs
close_frames_ahead-same [] ys z = z
close_frames_ahead-same (e ∷ xs) ys z = ap (ahead e.type e.bytes) (close_frames_ahead-same xs ys z)

-- An event that is no Close frame is none ahead of a CLOSE event either.
pub ahead-zero :
    (type : EventType) (bytes : Bytes) → close_frame type bytes ≡ 0 → ahead type bytes 0 ≡ 0
ahead-zero frame bytes z = omega (arith, z)
ahead-zero message bytes z = refl
ahead-zero close bytes z = refl

-- A session's record of its Close frame, when it starts with `before`, is at `sent`, and has given
-- out so many Close frames: one exactly if the record has changed.
pub data Sent (before sent : Bool) (count : ℕ) : Type 0 where
  never_sent : before ≡ false → sent ≡ false → count ≡ 0 → Sent before sent count
  sent_by_session : before ≡ false → sent ≡ true → count ≡ 1 → Sent before sent count
  sent_by_owner : before ≡ true → sent ≡ true → count ≡ 0 → Sent before sent count

pub newly-Sent :
    (before sent : Bool) (n k : ℕ)
    → sent ≡ false
    → k ≡ n + 1
    → Sent before sent n
    → Sent before true k
newly-Sent before sent n k fresh more (never_sent b s z) = sent_by_session b refl (omega arith)
newly-Sent before sent n k fresh more (sent_by_session b s z) = absurd (cc (fresh, s))
newly-Sent before sent n k fresh more (sent_by_owner b s z) = absurd (cc (fresh, s))

-- No change, and no Close frame.
pub unchanged-Sent : (before : Bool) → Sent before before 0
unchanged-Sent true = sent_by_owner refl refl refl
unchanged-Sent false = never_sent refl refl refl

-- What happens before and after a session's record was `middle`.
pub Sent-add :
    {before middle after : Bool} {n k : ℕ}
    → Sent before middle n
    → Sent middle after k
    → Sent before after (n + k)
Sent-add (never_sent b s z) (never_sent b' s' z') = never_sent b s' (omega arith)
Sent-add (never_sent b s z) (sent_by_session b' s' z') = sent_by_session b s' (omega arith)
Sent-add (never_sent b s z) (sent_by_owner b' s' z') = absurd (cc (s, b'))
Sent-add (sent_by_session b s z) (never_sent b' s' z') = absurd (cc (s, b'))
Sent-add (sent_by_session b s z) (sent_by_session b' s' z') = absurd (cc (s, b'))
Sent-add (sent_by_session b s z) (sent_by_owner b' s' z') = sent_by_session b s' (omega arith)
Sent-add (sent_by_owner b s z) (never_sent b' s' z') = absurd (cc (s, b'))
Sent-add (sent_by_owner b s z) (sent_by_session b' s' z') = absurd (cc (s, b'))
Sent-add (sent_by_owner b s z) (sent_by_owner b' s' z') = sent_by_owner b s' (omega arith)

pub get_op_code-format_frame :
    (bytes : Bytes) (op_code : ℕ)
    → op_code < 16
    → get_op_code (format_frame bytes op_code false) ≡ op_code
unfolding format_frame format_message format_message_header get_op_code
get_op_code-format_frame bytes op_code h = ground (arith, first_byte-op_code false op_code h)

pub close_frame-format_close :
    (simd : Simd) (code : ℕ) (reason : Option Bytes)
    → close_frame frame (format_close simd code reason) ≡ 1
unfolding format_close
close_frame-format_close simd code none =
    rw (get_op_code-format_frame (format_close_payload simd code none) 8 (omega arith)) refl
close_frame-format_close simd code (some reason) =
    rw
      (get_op_code-format_frame
        (format_close_payload simd code (some (take max_close_reason reason))) 8 (omega arith))
      refl

pub close_frame-pong :
    (bytes : Bytes) → close_frame frame (format_frame bytes OpCode.pong false) ≡ 0
close_frame-pong bytes = rw (get_op_code-format_frame bytes 10 (omega arith)) refl
