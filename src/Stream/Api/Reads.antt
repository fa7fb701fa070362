-- ===== src/Stream/Api/Reads.antt =====
-- What consume does to a stream, one read after another.
use eiows.Common.{
  ℕ, ◌≡◌, refl, sym, ◌∙◌, subst, ap, ap₂, append-nil, ◌+◌, ◌⊎◌, inl, inr, Bool, true, false, not,
  ◌&&◌, ◌||◌, List, [], ◌∷◌, ◌++◌, arith, ltb, ◌==◌, if◌then◌else◌, Bytes, length, take, drop,
  Option, All, All-append, if_intro, if_true, Bool-cases,
}
use eiows.Protocol.Ascii.{Simd}
use eiows.Protocol.Frame.{nonzero}
use eiows.Protocol.Parser.Invariant
use eiows.Protocol.Parser.Invariant.{idle}
use eiows.Protocol.Parser.Loop.{consume-IsValid}
use eiows.Stream.Api.{
  StreamWebSocket, new_stream, spilled_part, release_events, parse, consume_spilled, consume,
}
use eiows.Stream.Hooks.{protocol_hooks, uint_max}
use eiows.Stream.Hooks.Keep.{protocol_hooks-HookLaws}
use eiows.Stream.Hooks.Messages.{CodecLaws}
use eiows.Stream.Session.{Event, Codec, Session, fail_with}
use eiows.Stream.Farewell.{
  closes, closes-append, Sent, unchanged-Sent, Sent-add, close_frames, close_frames-append,
  close_frames_ahead, close_frames_ahead-append,
}
use eiows.Stream.Valid.{
  payload_limit, Acceptable, CloseState, still_open, IsValid, contract, fail_with-IsValid,
  fail-closing, open-none,
}

module _ {Context : Type 0} (codec : Codec Context) (simd : Simd) where
  -- Reads one after another: the events of all, and the stream after them.
  pub reads : List Bytes → StreamWebSocket Context → List Event × StreamWebSocket Context
  reads [] ws = ([], ws)
  reads (bytes ∷ rest) ws =
      let ws' = consume codec simd bytes ws in
      let (events, ws'') = reads rest ws' in (ws'.session.events ++ events, ws'')

  -- A closed stream reads no more, and reports nothing.
  pub consume-closed :
      (bytes : Bytes) (ws : StreamWebSocket Context)
      → ws.session.closing ≡ true
      → consume codec simd bytes ws ≡ record {
        state = ws.state;
        session = record ws.session { events = []; failure_code = 1002 };
      }
  unfolding consume release_events
  consume-closed bytes ws closed =
      if_true (ws.session.closing || length bytes == 0) _ _ (ground arith)

  reads-closed :
      (inputs : List Bytes) (ws : StreamWebSocket Context)
      → ws.session.closing ≡ true
      → ((reads inputs ws).0 ≡ [])
        × ((reads inputs ws).1.session.closing ≡ true)
        × ((reads inputs ws).1.session.close_sent ≡ ws.session.close_sent)
  unfolding reads
  reads-closed [] ws closed = (refl, closed, refl)
  reads-closed (bytes ∷ rest) ws closed =
      let after : StreamWebSocket Context = record {
        state = ws.state;
        session = record ws.session { events = []; failure_code = 1002 };
      } in
      rw (consume-closed bytes ws closed) (reads-closed rest after closed)

module _ {Context : Type 0} (codec : Codec Context) (laws : CodecLaws codec) (simd : Simd)
    (m : ℕ) where
  -- The session is valid, with `before` for what close_sent was, and so is the parser's state unless the session is closed.
  abbrev pub Sound : (before : Bool) → StreamWebSocket Context → Type 0
  Sound before ws =
      IsValid simd m before ws.session
      × ((ws.session.closing ≡ true) ⊎ Invariant.IsValid (payload_limit m) ws.state)

  parse-Sound :
      (before : Bool) (bytes : Bytes) (ws : StreamWebSocket Context)
      → IsValid simd m before ws.session
      → Invariant.IsValid (payload_limit m) ws.state
      → Sound before (parse codec simd bytes ws)
  unfolding parse
  parse-Sound before bytes ws v p =
      consume-IsValid (protocol_hooks codec simd) simd (contract simd m before)
        (protocol_hooks-HookLaws codec laws simd m before) bytes ws.state ws.session v p

  -- The second part of a read, unless the first has closed the session.
  continue-Sound :
      (before : Bool) (bytes : Bytes) (b : Bool) (ws : StreamWebSocket Context)
      → Sound before ws
      → Sound before (if not ws.session.closing && b then parse codec simd bytes ws else ws)
  continue-Sound before bytes b ws h =
      if_intro (Sound before) (not ws.session.closing && b) (parse codec simd bytes ws) ws
        (λ e. elim h.1 [
          | inl closed ↦ absurd (ground arith)
          | inr p ↦ parse-Sound before bytes ws h.0 p
        ])
        (λ e. h)

  consume_spilled-Sound :
      (before : Bool) (bytes : Bytes) (ws : StreamWebSocket Context)
      → IsValid simd m before ws.session
      → Invariant.IsValid (payload_limit m) ws.state
      → Sound before (consume_spilled codec simd bytes ws)
  unfolding consume_spilled
  consume_spilled-Sound before bytes ws v p =
      let copied = spilled_part ws.state bytes in
      continue-Sound before (drop copied bytes) (ltb copied (length bytes))
        (parse codec simd (take copied bytes) ws) (parse-Sound before (take copied bytes) ws v p)

  -- A read of any bytes leaves an open stream sound. Its events are messages that pass the UTF-8 test
  -- if they are text and keep to the limit of the payload, frames to send, and one CLOSE event
  -- exactly if the session is closed by this read. A session that is closed has close_sent set; the
  -- read gives out one frame with a Close's opcode, ahead of the CLOSE event, if it has set close_sent,
  -- which it does only when it closes the session, and none otherwise.
  pub consume-Sound :
      (bytes : Bytes) (ws : StreamWebSocket Context)
      → ws.session.max_payload ≡ m
      → ws.session.closing ≡ false
      → Invariant.IsValid (payload_limit m) ws.state
      → Sound ws.session.close_sent (consume codec simd bytes ws)
  unfolding consume release_events
  consume-Sound bytes ws same going p =
      let s : Session Context = record ws.session { events = []; failure_code = 1002 } in
      let before = ws.session.close_sent in
      let v : IsValid simd m before s = record {
        same_limit = same;
        acceptable = tt;
        close_state = still_open going refl;
        sent = unchanged-Sent before;
        in_order = refl;
        unsent = λ e. refl;
      } in
      let ws' : StreamWebSocket Context = record ws { session = s } in
      let too_long : StreamWebSocket Context = record ws { session = fail_with simd 1009 s } in
      let short =
        if nonzero ws.state.spill_length
        then consume_spilled codec simd bytes ws'
        else parse codec simd bytes ws' in
      if_intro (Sound before) (s.closing || length bytes == 0) ws'
        (if ltb uint_max (length bytes) then too_long else short) (λ _. (v, inr p))
        (λ _.
          if_intro (Sound before) (ltb uint_max (length bytes)) too_long short
            (λ _. (
              fail_with-IsValid simd m before 1009 s v,
              inl (fail-closing simd m before 1009 (record s { failure_code = 1009 })),
            ))
            (λ _.
              if_intro (Sound before) (nonzero ws.state.spill_length)
                (consume_spilled codec simd bytes ws') (parse codec simd bytes ws')
                (λ _. consume_spilled-Sound before bytes ws' v p)
                (λ _. parse-Sound before bytes ws' v p)))

  -- The events of several reads, and the session after them; `before` is what close_sent was ahead
  -- of them.
  pub record Reported (before : Bool) (events : List Event) (s : Session Context) : Type 0 where
    pub acceptable : All (Acceptable simd m) events
    pub close_state : CloseState s.closing s.close_sent (closes events)
    pub sent : Sent before s.close_sent (close_frames events)
    pub in_order : close_frames_ahead events ≡ close_frames events
    pub unsent : s.closing ≡ false → s.close_sent ≡ before

  Reported-closed :
      (before : Bool) (xs ys : List Event) (s t : Session Context)
      → Reported before xs s
      → s.closing ≡ true
      → ys ≡ []
      → t.closing ≡ true
      → t.close_sent ≡ s.close_sent
      → Reported before (xs ++ ys) t
  Reported-closed before xs ys s t h c none_left d same =
      subst (λ (es : List Event). Reported before es t)
        (sym (ap (λ (l : List Event). xs ++ l) none_left ∙ append-nil xs))
        (record {
          acceptable = h.acceptable;
          close_state =
              subst (λ (b : Bool). CloseState b t.close_sent (closes xs)) (c ∙ sym d)
                (subst (λ (b : Bool). CloseState s.closing b (closes xs)) (sym same) h.close_state);
          sent = subst (λ (b : Bool). Sent before b (close_frames xs)) (sym same) h.sent;
          in_order = h.in_order;
          unsent = λ e. absurd (cc (e, d));
        })

  Reported-append :
      (before : Bool) (xs ys : List Event) (s t : Session Context)
      → Reported before xs s
      → s.closing ≡ false
      → Reported s.close_sent ys t
      → Reported before (xs ++ ys) t
  Reported-append before xs ys s t h c k =
      let none_yet : closes xs ≡ 0 = open-none _ _ _ h.close_state c in
      record {
        acceptable = All-append (Acceptable simd m) xs ys h.acceptable k.acceptable;
        close_state =
            subst (CloseState t.closing t.close_sent)
              (sym (closes-append xs ys ∙ omega (arith, none_yet))) k.close_state;
        sent =
            subst (Sent before t.close_sent) (sym (close_frames-append xs ys))
              (Sent-add h.sent k.sent);
        in_order =
            close_frames_ahead-append xs ys none_yet
            ∙ ap₂ (λ (a b : ℕ). a + b) h.in_order k.in_order
            ∙ sym (close_frames-append xs ys);
        unsent = λ e. k.unsent e ∙ h.unsent c;
      }

  -- However a stream's bytes are cut into reads, an open and valid stream reports at most one CLOSE
  -- event in all of them: exactly one if it is closed in the end, and none if it is not. All events of all
  -- reads are acceptable ones. Exactly one frame with a Close's opcode is among them, ahead of the
  -- CLOSE event, if close_sent was clear and the stream is closed, and none otherwise.
  pub reads-Reported :
      (inputs : List Bytes) (ws : StreamWebSocket Context)
      → ws.session.max_payload ≡ m
      → ws.session.closing ≡ false
      → Invariant.IsValid (payload_limit m) ws.state
      → Reported ws.session.close_sent
          (reads codec simd inputs ws).0
          (reads codec simd inputs ws).1.session
  unfolding reads
  reads-Reported [] ws same going p = record {
    acceptable = tt;
    close_state = still_open going refl;
    sent = unchanged-Sent ws.session.close_sent;
    in_order = refl;
    unsent = λ e. refl;
  }
  reads-Reported (bytes ∷ rest) ws same going p =
      let ws' = consume codec simd bytes ws in
      let (v, next) = consume-Sound bytes ws same going p in
      let before = ws.session.close_sent in
      let first : Reported before ws'.session.events ws'.session = record {
        acceptable = v.acceptable;
        close_state = v.close_state;
        sent = v.sent;
        in_order = v.in_order;
        unsent = v.unsent;
      } in
      let r = reads codec simd rest ws' in
      elim (Bool-cases ws'.session.closing) [
        | inl closed ↦
            let (none_left, still, sent) = reads-closed codec simd rest ws' closed in
            Reported-closed before ws'.session.events r.0 ws'.session r.1.session first closed
              none_left still sent
        | inr going' ↦ elim next [
          | inl closed ↦ absurd (cc (closed, going'))
          | inr p' ↦
              Reported-append before ws'.session.events r.0 ws'.session r.1.session first going'
                (reads-Reported rest ws' v.same_limit going' p')
        ]
      ]

  -- However the bytes sent to a new stream are cut into reads, it reports one CLOSE event in
  -- all of them if it is closed in the end, and none if it is not. If it is closed, exactly one of
  -- the frames that it gives out to send has the opcode of a Close, and it stands ahead of the CLOSE
  -- event; if not, none has. Every other event is another frame to send, or a message within the payload limit, whose bytes pass isValidUtf8 if it is a text. The codec keeps to the limit that it is given.
  pub reads-new_stream :
      (inputs : List Bytes) (options window_bits : ℕ) (given : Option Context)
      → (let r = reads codec simd inputs (new_stream codec simd options window_bits m given) in
          Reported false r.0 r.1.session)
  reads-new_stream inputs options window_bits given =
      reads-Reported inputs (new_stream codec simd options window_bits m given) refl refl
        (record { spill_fits = omega arith; place = idle refl refl })
