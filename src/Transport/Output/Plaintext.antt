-- ===== src/Transport/Output/Plaintext.antt =====
-- writeTLS of nodejs/src/native_transport.cpp: plaintext reaches OpenSSL in its order, and counts as
-- written only when all TLS output is on the socket.
use eiows.Common.{
  ℕ, zero, suc, ◌+◌, ◌-◌, min, ◌≤◌, ◌≡◌, ◌≢◌, refl, sym, ◌∙◌, ap, ap₂, subst, Bool, true, false,
  ◌&&◌, List, [], ◌∷◌, ◌++◌, ◌==◌, if_intro, Bytes, length, take, drop, length-drop, length-append,
  take-append-drop, drop_all, length-take, take-append_before, drop-append_split, drop-drop,
  append_assoc, arith,
}
use eiows.Protocol.Frame.{nonzero}
use eiows.Transport.Ordered.Requests.{advance_parts-IsMoved}
use eiows.Transport.Output.{
  Attempt, wrote, broken, has_tls_output, flush_memory_bio_output, commit_plaintext, staged,
  answered, stage_plaintext, stage_then_flush, write_tls, tls_plaintext_batch_size,
}
use eiows.Transport.System.{
  System, Transport, SslWritten, ssl_accepted, ssl_wants_read, ssl_wants_write, ssl_write_failed,
}
use eiows.Transport.WriteRequest.{
  WriteRequest, concat, advance_cursor, remaining, remaining_bytes, part_data, remaining_data,
  remaining_part_bytes, stage_tls, unstaged_bytes,
}
use eiows.Transport.WriteRequest.Cursor.{first_length, advance_parts-remaining}
use eiows.Transport.Output.Kept.{WriteLaw, TlsLaws, IsKept, flush-IsKept}

zero_add : (n : ℕ) → n ≡ 0 + n
zero_add n = omega arith

add_zero : (n : ℕ) → n ≡ n + 0
add_zero n = omega arith

-- A request of which OpenSSL has taken `committed` bytes that do not count as sent yet.
pub record IsStaged (committed : ℕ) (r : WriteRequest) : Type 0 where
  pub cursor : r.cursor_offset ≤ first_length r.rest
  pub counted : length (remaining r) + committed ≡ remaining_bytes r

stage_tls-remaining :
    (n : ℕ) (r : WriteRequest)
    → r.cursor_offset ≤ first_length r.rest
    → remaining (stage_tls n r) ≡ drop n (remaining r)
unfolding stage_tls advance_cursor
stage_tls-remaining n r h =
    advance_parts-remaining n r.cursor_offset r.finished r.rest r h
    ∙ sym (drop-drop n r.cursor_offset (concat r.rest))

stage_tls-IsStaged :
    (n committed : ℕ) (r : WriteRequest)
    → IsStaged committed r
    → n ≤ length (remaining r)
    → IsStaged (committed + n) (stage_tls n r)
unfolding remaining_bytes stage_tls advance_cursor
stage_tls-IsStaged n committed r v h =
    let (cursor, same) = advance_parts-IsMoved n r.cursor_offset r.finished r.rest r v.cursor in
    record {
      cursor = cursor;
      counted = omega (
        arith,
        ap (length {A = ℕ}) (stage_tls-remaining n r v.cursor) ∙ length-drop n (remaining r),
        h,
        v.counted,
        ap (λ (c : ℕ × ℕ). c.0) same,
        ap (λ (c : ℕ × ℕ). c.1) same,
      );
    }

-- The data that is handed to OpenSSL is the beginning of what remains.
take_part :
    (n batch : ℕ) (r : WriteRequest)
    → n ≤ length (remaining_data batch r)
    → take n (remaining_data batch r) ≡ take n (remaining r)
unfolding remaining_data
take_part n batch r h = of_parts r.rest h
  where
    of_parts :
        (rest : List Bytes)
        → n ≤ length (part_data batch r.cursor_offset rest)
        → take n (part_data batch r.cursor_offset rest)
          ≡ take n (drop r.cursor_offset (concat rest))
    of_parts [] h = ap (take n) (sym (drop_all r.cursor_offset [] (omega arith)))
    of_parts (p ∷ ps) h =
        let here = drop r.cursor_offset p in
        let front = take batch here in
        let behind = drop (r.cursor_offset - length p) (concat ps) in
        sym (
          ap (take n) (drop-append_split r.cursor_offset p (concat ps))
          ∙ take-append_before n here behind (omega (arith, h, length-take batch here))
          ∙ ap (take n) (sym (take-append-drop batch here))
          ∙ take-append_before n front (drop batch here) h)

length-part_data :
    (batch : ℕ) (r : WriteRequest) → length (remaining_data batch r) ≤ length (remaining r)
unfolding remaining_data
length-part_data batch r = of_parts r.rest
  where
    of_parts :
        (rest : List Bytes)
        → length (part_data batch r.cursor_offset rest)
          ≤ length (drop r.cursor_offset (concat rest))
    of_parts [] = omega arith
    of_parts (p ∷ ps) =
        let here = drop r.cursor_offset p in
        let behind = drop (r.cursor_offset - length p) (concat ps) in
        omega (
          arith,
          length-take batch here,
          ap (length {A = ℕ}) (drop-append_split r.cursor_offset p (concat ps)),
          length-append here behind,
        )

module _ {World Context : Type 0} (system : System World Context) (accepted : World → Bytes)
    (laws : TlsLaws system accepted) where
  -- The request at the head of the queue has handed on some of its bytes to OpenSSL, in their order.
  pub record Hands (r : WriteRequest) (rest : List WriteRequest) (t t' : Transport World Context)
      : Type 0 where
    pub head : WriteRequest
    pub queued : t'.queue ≡ head ∷ rest
    pub staged_head : IsStaged t'.tls_committed_plaintext head
    pub in_order : accepted t'.world ++ remaining head ≡ accepted t.world ++ remaining r

  -- A state with that request at the head of the queue.
  abbrev with_head :
      WriteRequest → List WriteRequest → Transport World Context → Transport World Context
  with_head r rest t = record t { queue = r ∷ rest }

  Hands-itself :
      (r : WriteRequest) (rest : List WriteRequest) (t t' : Transport World Context)
      → t'.queue ≡ r ∷ rest
      → t'.tls_committed_plaintext ≡ t.tls_committed_plaintext
      → accepted t'.world ≡ accepted t.world
      → IsStaged t.tls_committed_plaintext r
      → Hands r rest t t'
  Hands-itself r rest t t' q c a v = record {
    head = r;
    queued = q;
    staged_head = subst (λ (n : ℕ). IsStaged n r) (sym c) v;
    in_order = ap (λ (b : Bytes). b ++ remaining r) a;
  }

  Hands-step :
      (r r' : WriteRequest) (rest : List WriteRequest) (t t' t'' : Transport World Context)
      → accepted t'.world ++ remaining r' ≡ accepted t.world ++ remaining r
      → Hands r' rest t' t''
      → Hands r rest t t''
  Hands-step r r' rest t t' t'' e h = record {
    head = h.head;
    queued = h.queued;
    staged_head = h.staged_head;
    in_order = h.in_order ∙ e;
  }

  -- The answer of SSL_write_ex, and the loop behind it.
  answered-Hands :
      (next : ℕ → Transport World Context → Bool × Transport World Context) (r : WriteRequest)
      (rest : List WriteRequest) (t : Transport World Context) (batch : ℕ)
      → ((n : ℕ) (r' : WriteRequest) (t' : Transport World Context)
          → IsStaged t'.tls_committed_plaintext r'
          → (next n (with_head r' rest t')).0 ≡ true
          → Hands r' rest (with_head r' rest t') (next n (with_head r' rest t')).1)
      → IsStaged t.tls_committed_plaintext r
      → (answer : SslWritten × World) → WriteLaw accepted (remaining_data batch r) t.world answer
      → (answered system next answer.0 (record (with_head r rest t) { world = answer.1 })).0 ≡ true
      → Hands r rest
          (with_head r rest t)
          (answered system next answer.0 (record (with_head r rest t) { world = answer.1 })).1
  unfolding answered staged
  answered-Hands next r rest t batch ih v (ssl_accepted zero, world) l e = absurd (cc e)
  answered-Hands next r rest t batch ih v (ssl_accepted (suc n), world) (h, a) e =
      let fits : suc n ≤ length (remaining r) = omega (arith, h, length-part_data batch r) in
      let r' = stage_tls (suc n) r in
      let t' : Transport World Context = record t {
        world = world;
        tls_write_blocked_on_read = false;
        tls_committed_plaintext = t.tls_committed_plaintext + suc n;
      } in
      let front = take (suc n) (remaining r) in
      Hands-step r r' rest (with_head r rest t) (with_head r' rest t')
        (next (suc n) (with_head r' rest t')).1
        (ap₂ (◌++◌) (a ∙ ap (λ (b : Bytes). accepted t.world ++ b) (take_part (suc n) batch r h))
            (stage_tls-remaining (suc n) r v.cursor)
          ∙ append_assoc (accepted t.world) front (drop (suc n) (remaining r))
          ∙ ap (λ (b : Bytes). accepted t.world ++ b) (take-append-drop (suc n) (remaining r)))
        (ih (suc n) r' t' (stage_tls-IsStaged (suc n) t.tls_committed_plaintext r v fits) e)
  answered-Hands next r rest t batch ih v (ssl_wants_read, world) l e =
      Hands-itself r rest (with_head r rest t) _ refl refl l v
  answered-Hands next r rest t batch ih v (ssl_wants_write, world) l e =
      Hands-itself r rest (with_head r rest t) _ refl refl l v
  answered-Hands next r rest t batch ih v (ssl_write_failed, world) l e = absurd (cc e)

  stage_plaintext-Hands :
      (fuel room : ℕ) (r : WriteRequest) (rest : List WriteRequest) (t : Transport World Context)
      → IsStaged t.tls_committed_plaintext r
      → (stage_plaintext system fuel room (with_head r rest t)).0 ≡ true
      → Hands r rest (with_head r rest t) (stage_plaintext system fuel room (with_head r rest t)).1
  unfolding stage_plaintext
  stage_plaintext-Hands zero room r rest t v =
      λ e. Hands-itself r rest (with_head r rest t) (with_head r rest t) refl refl refl v
  stage_plaintext-Hands (suc fuel) room r rest t v =
      let s : Transport World Context = with_head r rest t in
      let batch = min (remaining_part_bytes r) room in
      let answer = system.ssl_write (remaining_data batch r) t.world in
      if_intro
        (λ (result : Bool × Transport World Context). result.0 ≡ true → Hands r rest s result.1)
        (nonzero (unstaged_bytes t.tls_committed_plaintext r) && nonzero room)
        (answered system (λ n. stage_plaintext system fuel (room - n)) answer.0
          (record s { world = answer.1 }))
        (true, s)
        (λ _.
          answered-Hands (λ n. stage_plaintext system fuel (room - n)) r rest t batch
            (λ n r' t' v' e'. stage_plaintext-Hands fuel (room - n) r' rest t' v' e') v answer
            (laws.write_law (remaining_data batch r) t.world))
        (λ _ e. Hands-itself r rest s s refl refl refl v)

  Hands-kept :
      (r : WriteRequest) (rest : List WriteRequest) (t t' t'' : Transport World Context)
      → Hands r rest t t'
      → IsKept system accepted laws t' t''
      → Hands r rest t t''
  Hands-kept r rest t t' t'' h k = record {
    head = h.head;
    queued = k.same_queue ∙ h.queued;
    staged_head = subst (λ (n : ℕ). IsStaged n h.head) (sym k.same_committed) h.staged_head;
    in_order = ap (λ (b : Bytes). b ++ remaining h.head) k.same_accepted ∙ h.in_order;
  }

  -- writeTLS reports `n` bytes of the request at the head of the queue as written.
  pub record IsWritten (n : ℕ) (r : WriteRequest) (rest : List WriteRequest)
      (t t' : Transport World Context) : Type 0 where
    pub head : WriteRequest
    pub queued : t'.queue ≡ head ∷ rest
    pub staged_head : IsStaged (t'.tls_committed_plaintext + n) head
    pub in_order : accepted t'.world ++ remaining head ≡ accepted t.world ++ remaining r
    pub on_socket : n ≢ 0 → (has_tls_output system t' ≡ false) × (t'.tls_committed_plaintext ≡ 0)

  abbrev pub WritesTls :
      WriteRequest
      → List WriteRequest
      → Transport World Context
      → Attempt × Transport World Context
      → Type 0
  WritesTls r rest t (wrote n, t') = IsWritten n r rest t t'
  WritesTls r rest t (broken errno, t') = Unit

  not_yet :
      (r : WriteRequest) (rest : List WriteRequest) (t t' : Transport World Context)
      → Hands r rest t t'
      → IsWritten 0 r rest t t'
  not_yet r rest t t' h = record {
    head = h.head;
    queued = h.queued;
    staged_head =
        subst (λ (n : ℕ). IsStaged n h.head) (add_zero t'.tls_committed_plaintext) h.staged_head;
    in_order = h.in_order;
    on_socket = λ n. absurd (n refl);
  }

  drained :
      (t' : Transport World Context)
      → has_tls_output system t' ≡ false
      → has_tls_output system (record t' { tls_committed_plaintext = 0 }) ≡ false
  unfolding has_tls_output
  drained t' e = e

  commit_plaintext-WritesTls :
      (r : WriteRequest) (rest : List WriteRequest) (t : Transport World Context)
      (result : Bool × Transport World Context)
      → (result.0 ≡ true → Hands r rest t result.1)
      → WritesTls r rest t (commit_plaintext system result)
  unfolding commit_plaintext
  commit_plaintext-WritesTls r rest t (false, t') h = tt
  commit_plaintext-WritesTls r rest t (true, t') h =
      let done : Transport World Context = record t' { tls_committed_plaintext = 0 } in
      let hands : Hands r rest t t' = h refl in
      if_intro (WritesTls r rest t) (t'.tls_committed_plaintext == 0) (wrote 0, t') _
        (λ _. not_yet r rest t t' hands)
        (λ _.
          if_intro (WritesTls r rest t) (has_tls_output system t') (wrote 0, t')
            (wrote t'.tls_committed_plaintext, done) (λ _. not_yet r rest t t' hands)
            (λ e. record {
              head = hands.head;
              queued = hands.queued;
              staged_head =
                  subst (λ (n : ℕ). IsStaged n hands.head) (zero_add t'.tls_committed_plaintext)
                    hands.staged_head;
              in_order = hands.in_order;
              on_socket = λ _. (drained t' e, refl);
            }))

  stage_then_flush-WritesTls :
      (r : WriteRequest) (rest : List WriteRequest) (t : Transport World Context)
      (result : Bool × Transport World Context)
      → (result.0 ≡ true → Hands r rest t result.1)
      → WritesTls r rest t (stage_then_flush system result)
  stage_then_flush-WritesTls r rest t (false, t') h = tt
  stage_then_flush-WritesTls r rest t (true, t') h =
      commit_plaintext-WritesTls r rest t (flush_memory_bio_output system t') (λ e.
        Hands-kept r rest t t' (flush_memory_bio_output system t').1 (h refl)
          (flush-IsKept system accepted laws t' e))

  at_head :
      (r : WriteRequest) (rest : List WriteRequest) (t : Transport World Context)
      → IsStaged t.tls_committed_plaintext r
      → WritesTls r rest (with_head r rest t) (write_tls system (with_head r rest t))
  unfolding write_tls
  at_head r rest t v =
      let s : Transport World Context = with_head r rest t in
      let batch = tls_plaintext_batch_size in
      if_intro (WritesTls r rest s) (nonzero t.tls_committed_plaintext)
        (commit_plaintext system (flush_memory_bio_output system s))
        (stage_then_flush system (stage_plaintext system batch batch s))
        (λ _. commit_plaintext-WritesTls r rest s (flush_memory_bio_output system s) (λ e.
          Hands-kept r rest s s (flush_memory_bio_output system s).1
            (Hands-itself r rest s s refl refl refl v) (flush-IsKept system accepted laws s e)))
        (λ _.
          stage_then_flush-WritesTls r rest s (stage_plaintext system batch batch s)
            (stage_plaintext-Hands batch batch r rest t v))

  -- Unless writeTLS fails, OpenSSL has the bytes of the request at the head of the queue that it did
  -- not have before, from where it had left off and none of them twice, and the rest remains in the
  -- request; the bytes that are reported as written are those that OpenSSL has and that did not count
  -- so far, and then no TLS output is left to send.
  pub write_tls-WritesTls :
      (r : WriteRequest) (rest : List WriteRequest) (t : Transport World Context)
      → t.queue ≡ r ∷ rest
      → IsStaged t.tls_committed_plaintext r
      → WritesTls r rest t (write_tls system t)
  write_tls-WritesTls r rest t q v =
      subst (λ (s : Transport World Context). WritesTls r rest s (write_tls system s))
        (ap (λ (queue : List WriteRequest). record t { queue = queue }) (sym q))
        (at_head r rest t v)
