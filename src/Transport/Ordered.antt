-- ===== src/Transport/Ordered.antt =====
-- The order of the bytes that a transport without TLS writes (nodejs/src/native_transport.cpp): what
-- holds of its state between the calls, and how a call may change it.
pub mod Requests
pub mod Closes
pub mod Flushes
pub mod Submits
pub mod Deferred
pub mod Submitted
pub mod Polls
pub mod Watches
pub mod Coalesced
pub mod Rounds
use eiows.Common.{
  ℕ, ◌+◌, ◌-◌, ◌≤◌, ◌≡◌, refl, sym, ◌∙◌, ap, ap₂, subst, ◌⊎◌, inl, inr, Bool, true, false,
  Bool-cases, Option, List, [], ◌∷◌, ◌++◌, append-nil, append_assoc, Bytes, length, take, All,
}
use eiows.Transport.System.{System, Transport, Sent, sent, send_blocked, send_failed, OwnerCall}
use eiows.Transport.WriteRequest.{WriteRequest, remaining, remaining_bytes}
use eiows.Transport.WriteRequest.Cursor.{first_length}

-- A request between two writes: its cursor is inside its first part, and its counts are the bytes
-- that it has still to write.
pub record IsRequest (r : WriteRequest) : Type 0 where
  pub cursor : r.cursor_offset ≤ first_length r.rest
  pub counted : length (remaining r) ≡ remaining_bytes r

-- What the requests of a queue have still to write, and how much it is.
abbrev pub unsent : List WriteRequest → Bytes
unsent [] = []
unsent (r ∷ rs) = remaining r ++ unsent rs

abbrev pub total : List WriteRequest → ℕ
total [] = 0
total (r ∷ rs) = remaining_bytes r + total rs

module _ {World Context : Type 0} where
  -- What holds with the queue written out holds.
  pub queue_intro {κ} :
      (P : Transport World Context → Type κ) (t : Transport World Context)
      → (t.queue ≡ [] → P (record t { queue = [] }))
      → ((r : WriteRequest) (rest : List WriteRequest)
          → t.queue ≡ r ∷ rest
          → P (record t { queue = r ∷ rest }))
      → P t
  queue_intro P t empty more = written_out t.queue refl
    where
      written_out : (q : List WriteRequest) → t.queue ≡ q → P t
      written_out [] e =
          subst (λ (q : List WriteRequest). P (record t { queue = q })) (sym e) (empty e)
      written_out (r ∷ rest) e =
          subst (λ (q : List WriteRequest). P (record t { queue = q })) (sym e) (more r rest e)

  pub plain_intro {κ} :
      (P : Transport World Context → Type κ) (t : Transport World Context)
      → t.encrypted ≡ false
      → P (record t { encrypted = false })
      → P t
  plain_intro P t e h = subst (λ (b : Bool). P (record t { encrypted = b })) (sym e) h

-- JavaScript does not open a closing transport again, and leaves its queue alone.
pub record ClosingLaws {World Context : Type 0} (system : System World Context) : Type 0 where
  pub call-closing :
      (c : OwnerCall) (t : Transport World Context)
      → t.closing ≡ true
      → (system.call c t).1.closing ≡ true
  pub call-queue :
      (c : OwnerCall) (t : Transport World Context)
      → t.closing ≡ true
      → (system.call c t).1.queue ≡ t.queue

-- `output` are the bytes that the socket has taken so far.
module _ {World : Type 0} (output : World → Bytes) where
  abbrev pub SendLaw : Bytes → World → Sent × World → Type 0
  SendLaw bytes world (sent n, world') =
      (n ≤ length bytes) × (output world' ≡ output world ++ take n bytes)
  SendLaw bytes world (send_blocked, world') = output world' ≡ output world
  SendLaw bytes world (send_failed errno, world') = output world' ≡ output world

module _ {World Context : Type 0} (output : World → Bytes) where
  -- All bytes that were given to the transport: those on the socket, and those in the queue.
  abbrev pub stream : Transport World Context → Bytes
  stream t = output t.world ++ unsent t.queue

  pub record IsOrdered (t : Transport World Context) : Type 0 where
    pub plain : t.encrypted ≡ false
    pub requests : All IsRequest t.queue
    pub pending : t.pending_bytes ≡ total t.queue

  -- Behind the bytes of the one state, and of nothing else, come further ones.
  pub record Continues (t t' : Transport World Context) : Type 0 where
    pub was_open : t.closing ≡ false
    pub ordered : IsOrdered t'
    pub more : Bytes
    pub bytes : stream t' ≡ stream t ++ more

  -- What a call does: the transport closes, or is closed already, or its stream continues.
  abbrev pub Extends : (t t' : Transport World Context) → Type 0
  Extends t t' = (t'.closing ≡ true) ⊎ Continues t t'

  abbrev pub IsConsistent : Transport World Context → Type 0
  IsConsistent t = (t.closing ≡ true) ⊎ IsOrdered t

  -- The same with `added` at the front of what comes behind.
  pub record ContinuesBy (added : Bytes) (t t' : Transport World Context) : Type 0 where
    pub was_open : t.closing ≡ false
    pub ordered : IsOrdered t'
    pub more : Bytes
    pub bytes : stream t' ≡ (stream t ++ added) ++ more

  abbrev pub ExtendsBy : Bytes → (t t' : Transport World Context) → Type 0
  ExtendsBy added t t' = (t'.closing ≡ true) ⊎ ContinuesBy added t t'

  -- What the socket, the event loop and JavaScript do. JavaScript may use all entry points of the
  -- transport, but none of its own writes inside a callback loses the queue to a callback that cannot
  -- be retained.
  pub record TcpLaws (system : System World Context) : Type 0 where
    pub closing_laws : ClosingLaws system
    pub call-Extends :
        (c : OwnerCall) (t : Transport World Context)
        → IsConsistent t
        → Extends t (system.call c t).1
    pub send_law :
        (bytes : Bytes) (world : World) → SendLaw output bytes world (system.send bytes world)
    pub retain-output :
        (id : ℕ) (world : World) → output (system.retain_callback id world).1 ≡ output world
    pub poll-output :
        (events : ℕ) (world : World) → output (system.poll_start events world).1 ≡ output world
    pub allocate-output : (world : World) → output (system.allocate world).1 ≡ output world
    pub recv-output : (world : World) → output (system.recv world).1 ≡ output world
    pub init-output : (world : World) → output (system.poll_init world).1 ≡ output world

  pub ends_closed :
      (t t' : Transport World Context) → t.closing ≡ true → Extends t t' → t'.closing ≡ true
  ends_closed t t' e (inl c) = c
  ends_closed t t' e (inr k) = absurd (cc (e, k.was_open))

  pub consistent : (t t' : Transport World Context) → Extends t t' → IsConsistent t'
  consistent t t' (inl c) = inl c
  consistent t t' (inr k) = inr k.ordered

  -- A change of other fields.
  pub unchanged :
      (t t' : Transport World Context)
      → IsConsistent t
      → t'.closing ≡ t.closing
      → t'.encrypted ≡ t.encrypted
      → t'.queue ≡ t.queue
      → t'.pending_bytes ≡ t.pending_bytes
      → output t'.world ≡ output t.world
      → Extends t t'
  unchanged t t' (inl e) c p q n o = inl (c ∙ e)
  unchanged t t' (inr g) c p q n o = elim (Bool-cases t.closing) [
    | inl e ↦ inl (c ∙ e)
    | inr e ↦ inr (record {
      was_open = e;
      ordered = record {
        plain = p ∙ g.plain;
        requests = subst (All IsRequest) (sym q) g.requests;
        pending = n ∙ g.pending ∙ ap total (sym q);
      };
      more = [];
      bytes = ap₂ (◌++◌) o (ap unsent q) ∙ sym (append-nil (stream t));
    })
  ]

  continue_on :
      (t t' t'' : Transport World Context) → Continues t t' → Continues t' t'' → Continues t t''
  continue_on t t' t'' k l = record {
    was_open = k.was_open;
    ordered = l.ordered;
    more = k.more ++ l.more;
    bytes =
        l.bytes ∙ ap (λ (s : Bytes). s ++ l.more) k.bytes ∙ append_assoc (stream t) k.more l.more;
  }

  -- One call after another.
  pub step : (t t' t'' : Transport World Context) → Extends t t' → Extends t' t'' → Extends t t''
  step t t' t'' h (inl c) = inl c
  step t t' t'' (inl c) (inr l) = absurd (cc (c, l.was_open))
  step t t' t'' (inr k) (inr l) = inr (continue_on t t' t'' k l)

  -- Further calls behind one that has added bytes.
  pub step_by :
      (added : Bytes) (t t' t'' : Transport World Context)
      → ExtendsBy added t t'
      → Extends t' t''
      → ExtendsBy added t t''
  step_by added t t' t'' h (inl c) = inl c
  step_by added t t' t'' (inl c) (inr l) = absurd (cc (c, l.was_open))
  step_by added t t' t'' (inr k) (inr l) = inr (record {
    was_open = k.was_open;
    ordered = l.ordered;
    more = k.more ++ l.more;
    bytes =
        l.bytes
        ∙ ap (λ (s : Bytes). s ++ l.more) k.bytes
        ∙ append_assoc (stream t ++ added) k.more l.more;
  })

  pub IsConsistent-by :
      (added : Bytes) (t t' : Transport World Context) → ExtendsBy added t t' → IsConsistent t'
  IsConsistent-by added t t' (inl c) = inl c
  IsConsistent-by added t t' (inr k) = inr k.ordered

  -- What holds of a closing transport, and of an open one that is in order, holds of a consistent one.
  pub consistent_intro {κ} :
      (P : Transport World Context → Type κ) (t : Transport World Context)
      → IsConsistent t
      → P (record t { closing = true })
      → (IsOrdered (record t { encrypted = false; closing = false })
          → P (record t { encrypted = false; closing = false }))
      → P t
  consistent_intro P t h closed open_case = elim (Bool-cases t.closing) [
    | inl e ↦ subst (λ (b : Bool). P (record t { closing = b })) (sym e) closed
    | inr e ↦ elim h [
      | inl e' ↦ absurd (cc (e, e'))
      | inr g ↦
          subst (λ (b : Bool). P (record t { closing = b })) (sym e)
            (plain_intro P (record t { closing = false }) g.plain
              (open_case (record { plain = refl; requests = g.requests; pending = g.pending })))
    ]
  ]
