-- ===== src/Stream/Valid.antt =====
-- What a session's state is between two events, as the contract that the parser is given.
use eiows.Common.{
  ℕ, ◌+◌, ◌≤◌, ◌≡◌, refl, ap, sym, ◌∙◌, subst, ◌⊎◌, Bool, true, false, Option, none, [], ◌∷◌, min,
  arith, ◌==◌, if◌then◌else◌, Bytes, length, All, All-append, if_intro,
}
use eiows.Protocol.Ascii.{Simd}
use eiows.Protocol.Utf8.{is_valid_utf8}
use eiows.Protocol.Parser.Invariant.{Contract}
use eiows.Stream.Farewell.{
  is_close, closes, closes-append, close_frame, close_frames, close_frames-append,
  close_frames_ahead, close_frames_ahead-append, close_frames_ahead-same, ahead-zero, Sent,
  newly-Sent, close_frame-format_close,
}
use eiows.Stream.Hooks.{uint_max}
use eiows.Stream.Session.{
  message, frame, close, Event, payload, Session, push_event, emit_frame, emit_close, send_close,
  fail, fail_with, format_close,
}

-- The longest payload that the session accepts of one frame.
abbrev pub payload_limit : ℕ → ℕ
payload_limit max_payload = if max_payload == 0 then uint_max else min max_payload uint_max

-- Zero is no limit.
abbrev pub IsSmall : ℕ → Bytes → Type 0
IsSmall max_payload bytes = (max_payload ≡ 0) ⊎ (length bytes ≤ max_payload)

-- An event that a session may hand to its owner.
pub data Acceptable (simd : Simd) (max_payload : ℕ) (e : Event) : Type 0 where
  text_message :
      e.type ≡ message
      → e.op_code ≡ 1
      → is_valid_utf8 simd (payload e) ≡ true
      → IsSmall max_payload (payload e)
      → Acceptable simd max_payload e
  binary_message :
      e.type ≡ message
      → e.op_code ≡ 2
      → IsSmall max_payload (payload e)
      → Acceptable simd max_payload e
  frame_to_send : e.type ≡ frame → Acceptable simd max_payload e
  farewell : e.type ≡ close → Acceptable simd max_payload e

-- While the session is open it has reported no close; once it is closed it has reported one, and its
-- close_sent is set.
pub data CloseState (closing close_sent : Bool) (count : ℕ) : Type 0 where
  still_open : closing ≡ false → count ≡ 0 → CloseState closing close_sent count
  closed_once : closing ≡ true → close_sent ≡ true → count ≡ 1 → CloseState closing close_sent count

-- `before` is what close_sent was when the events were last taken.
pub record IsValid {Context : Type 0} (simd : Simd) (max_payload : ℕ) (before : Bool)
    (s : Session Context) : Type 0 where
  pub same_limit : s.max_payload ≡ max_payload
  pub acceptable : All (Acceptable simd max_payload) s.events
  pub close_state : CloseState s.closing s.close_sent (closes s.events)
  pub sent : Sent before s.close_sent (close_frames s.events)
  pub in_order : close_frames_ahead s.events ≡ close_frames s.events
  pub unsent : s.closing ≡ false → s.close_sent ≡ before

abbrev pub contract : {Context : Type 0} → Simd → ℕ → Bool → Contract (Session Context)
contract simd max_payload before = record {
  closed = λ s. s.closing;
  Holds = IsValid simd max_payload before;
  limit = payload_limit max_payload;
}

pub open-none : (c b : Bool) (n : ℕ) → CloseState c b n → c ≡ false → n ≡ 0
open-none c b n (still_open e z) h = z
open-none c b n (closed_once e f z) h = absurd (cc (e, h))

module _ {Context : Type 0} (simd : Simd) (m : ℕ) (before : Bool) where
  -- An event that is no close.
  pub push_event-IsValid :
      (e : Event) (s : Session Context)
      → IsValid simd m before s
      → Acceptable simd m e
      → is_close e.type ≡ 0
      → close_frame e.type e.bytes ≡ 0
      → IsValid simd m before (push_event e s)
  push_event-IsValid e s v a zero_closes zero_frames = record {
    same_limit = v.same_limit;
    acceptable = All-append (Acceptable simd m) s.events (e ∷ []) v.acceptable (a, tt);
    close_state =
        subst (CloseState s.closing s.close_sent)
          (sym (closes-append s.events (e ∷ []) ∙ omega (arith, zero_closes))) v.close_state;
    sent =
        subst (Sent before s.close_sent)
          (sym (close_frames-append s.events (e ∷ []) ∙ omega (arith, zero_frames))) v.sent;
    in_order =
        close_frames_ahead-same s.events (e ∷ []) (ahead-zero e.type e.bytes zero_frames)
        ∙ v.in_order
        ∙ sym (close_frames-append s.events (e ∷ []) ∙ omega (arith, zero_frames));
    unsent = v.unsent;
  }

  pub emit_frame-IsValid :
      (bytes : Bytes) (s : Session Context)
      → close_frame frame bytes ≡ 0
      → IsValid simd m before s
      → IsValid simd m before (emit_frame bytes s)
  emit_frame-IsValid bytes s z v = push_event-IsValid _ s v (frame_to_send refl) refl z

  -- A session that is about to report its close.
  pub record Leaving (s : Session Context) : Type 0 where
    pub same_limit : s.max_payload ≡ m
    pub acceptable : All (Acceptable simd m) s.events
    pub none_reported : closes s.events ≡ 0
    pub now_closing : s.closing ≡ true
    pub sent : Sent before s.close_sent (close_frames s.events)
    pub in_order : close_frames_ahead s.events ≡ close_frames s.events

  pub send_close-Leaving :
      (code : ℕ) (reason : Option Bytes) (s : Session Context)
      → Leaving s
      → Leaving (send_close simd code reason s)
        × ((send_close simd code reason s).close_sent ≡ true)
  unfolding send_close
  send_close-Leaving code reason s v =
      if_intro (λ (r : Session Context). Leaving r × (r.close_sent ≡ true)) s.close_sent _ _
        (λ already. (v, already))
        (λ fresh. (
          record {
            same_limit = v.same_limit;
            acceptable =
                All-append (Acceptable simd m) s.events _ v.acceptable (frame_to_send refl, tt);
            none_reported = closes-append s.events _ ∙ omega (arith, v.none_reported);
            now_closing = v.now_closing;
            sent =
                newly-Sent before s.close_sent (close_frames s.events) _ fresh
                  (close_frames-append s.events _
                    ∙ omega (arith, close_frame-format_close simd code reason))
                  v.sent;
            in_order =
                close_frames_ahead-append s.events _ v.none_reported
                ∙ ap (λ (n : ℕ). n + (close_frame frame (format_close simd code reason) + 0))
                    v.in_order
                ∙ sym (close_frames-append s.events _);
          },
          refl,
        ))

  pub emit_close-IsValid :
      (code : ℕ) (reason : Bytes) (s : Session Context)
      → Leaving s
      → s.close_sent ≡ true
      → IsValid simd m before (emit_close code reason s)
  emit_close-IsValid code reason s v done = record {
    same_limit = v.same_limit;
    acceptable = All-append (Acceptable simd m) s.events _ v.acceptable (farewell refl, tt);
    close_state =
        closed_once v.now_closing done (closes-append s.events _ ∙ omega (arith, v.none_reported));
    sent =
        subst (Sent before s.close_sent) (sym (close_frames-append s.events _ ∙ omega arith))
          v.sent;
    in_order =
        close_frames_ahead-same s.events _ refl
        ∙ v.in_order
        ∙ sym (close_frames-append s.events _ ∙ omega arith);
    unsent = λ e. absurd (cc (e, v.now_closing));
  }

  pub open-Leaving :
      (s : Session Context)
      → IsValid simd m before s
      → s.closing ≡ false
      → Leaving (record s { closing = true })
  open-Leaving s v e = record {
    same_limit = v.same_limit;
    acceptable = v.acceptable;
    none_reported = open-none _ _ _ v.close_state e;
    now_closing = refl;
    sent = v.sent;
    in_order = v.in_order;
  }

  pub send_close-closing :
      (code : ℕ) (reason : Option Bytes) (s : Session Context)
      → (send_close simd code reason s).closing ≡ s.closing
  unfolding send_close
  send_close-closing code reason s =
      if_intro (λ (r : Session Context). r.closing ≡ s.closing) s.close_sent _ _ (λ e. refl)
        (λ e. refl)

  pub fail-closing : (code : ℕ) (s : Session Context) → (fail simd code s).closing ≡ true
  unfolding fail
  fail-closing code s =
      if_intro (λ (r : Session Context). r.closing ≡ true) s.closing _ _ (λ e. e)
        (λ e. send_close-closing code none (record s { closing = true }))

  pub fail-IsValid :
      (code : ℕ) (s : Session Context)
      → IsValid simd m before s
      → IsValid simd m before (fail simd code s)
  unfolding fail
  fail-IsValid code s v =
      if_intro (IsValid simd m before) s.closing _ _ (λ e. v)
        (λ e.
          let (leaving, sent) =
            send_close-Leaving code none (record s { closing = true }) (open-Leaving s v e) in
          emit_close-IsValid 1006 [] _ leaving sent)

  pub fail_with-IsValid :
      (code : ℕ) (s : Session Context)
      → IsValid simd m before s
      → IsValid simd m before (fail_with simd code s)
  fail_with-IsValid code s v =
      fail-IsValid code (record s { failure_code = code })
        (record {
          same_limit = v.same_limit;
          acceptable = v.acceptable;
          close_state = v.close_state;
          sent = v.sent;
          in_order = v.in_order;
          unsent = v.unsent;
        })
