-- ===== src/Transport/Ordered/Deferred.antt =====
-- What defer does to the requests of a queue, and to what they have still to write.
use eiows.Common.{
  ℕ, ◌+◌, ◌≡◌, refl, ◌⊎◌, sym, ◌∙◌, ap, ap₂, inl, inr, Bool, true, false, Option, none, some, List,
  [], ◌∷◌, ◌++◌, ◌==◌, if_intro, Bytes, length, All, arith,
}
use eiows.Transport.Ordered.{TcpLaws, IsRequest, unsent, total}
use eiows.Transport.Submit.{retained_callback, defer_callback, defer, defer_queued}
use eiows.Transport.System.{System}
use eiows.Transport.WriteRequest.{WriteRequest, remaining, remaining_bytes}
use eiows.Transport.WriteRequest.Cursor.{first_length}

-- Two requests with the same bytes still to write.
pub record IsAlike (r r' : WriteRequest) : Type 0 where
  pub same_bytes : r'.bytes ≡ r.bytes
  pub same_sent : r'.sent ≡ r.sent
  pub same_rest : r'.rest ≡ r.rest
  pub same_offset : r'.cursor_offset ≡ r.cursor_offset

pub alike-remaining : (r r' : WriteRequest) → IsAlike r r' → remaining r' ≡ remaining r
alike-remaining r r' a =
    ap₂ (λ (n : ℕ) (ps : List Bytes). remaining (record r { cursor_offset = n; rest = ps }))
      a.same_offset a.same_rest

pub alike-remaining_bytes :
    (r r' : WriteRequest) → IsAlike r r' → remaining_bytes r' ≡ remaining_bytes r
unfolding remaining_bytes
alike-remaining_bytes r r' a = omega (arith, a.same_bytes, a.same_sent)

pub alike-IsRequest : (r r' : WriteRequest) → IsAlike r r' → IsRequest r → IsRequest r'
alike-IsRequest r r' a v = record {
  cursor = omega (arith, v.cursor, a.same_offset, ap first_length a.same_rest);
  counted =
      ap (length {A = ℕ}) (alike-remaining r r' a) ∙ v.counted ∙ sym (alike-remaining_bytes r r' a);
}

-- Two queues with the same bytes still to write.
pub record AreAlike (rs rs' : List WriteRequest) : Type 0 where
  pub same_unsent : unsent rs' ≡ unsent rs
  pub same_total : total rs' ≡ total rs
  pub keeps_requests : All IsRequest rs → All IsRequest rs'

same-AreAlike : (rs : List WriteRequest) → AreAlike rs rs
same-AreAlike rs = record { same_unsent = refl; same_total = refl; keeps_requests = λ vs. vs }

head-AreAlike :
    (r r' : WriteRequest) (rs : List WriteRequest) → IsAlike r r' → AreAlike (r ∷ rs) (r' ∷ rs)
head-AreAlike r r' rs a = record {
  same_unsent = ap (λ (b : Bytes). b ++ unsent rs) (alike-remaining r r' a);
  same_total = ap (λ (n : ℕ). n + total rs) (alike-remaining_bytes r r' a);
  keeps_requests = λ vs. (alike-IsRequest r r' a vs.0, vs.1);
}

tail-AreAlike :
    (r : WriteRequest) (rs rs' : List WriteRequest) → AreAlike rs rs' → AreAlike (r ∷ rs) (r ∷ rs')
tail-AreAlike r rs rs' a = record {
  same_unsent = ap (λ (b : Bytes). remaining r ++ b) a.same_unsent;
  same_total = ap (λ (n : ℕ). remaining_bytes r + n) a.same_total;
  keeps_requests = λ vs. (vs.0, a.keeps_requests vs.1);
}

module _ {World Context : Type 0} (system : System World Context) (output : World → Bytes)
    (laws : TcpLaws output system) where
  -- napi_create_reference has failed.
  pub record Unretained : Type 0 where
    pub callback : ℕ
    pub at : World
    pub failed : (system.retain_callback callback at).0 ≡ false

  -- What defer changes: not the bytes. It is done, or the callback could not be retained.
  pub record IsDeferred (r : WriteRequest) (world : World) (deferral : Bool × WriteRequest × World)
      : Type 0 where
    pub done : (deferral.0 ≡ true) ⊎ Unretained
    pub alike : IsAlike r deferral.1
    pub no_output : output deferral.2 ≡ output world

  retained-IsDeferred :
      (id : ℕ) (r : WriteRequest) (world : World) (answer : Bool × World)
      → (answer.0 ≡ false → Unretained)
      → output answer.1 ≡ output world
      → IsDeferred r world (retained_callback system id r answer)
  retained-IsDeferred id r world (true, world') e o = record {
    done = inl refl;
    alike = record { same_bytes = refl; same_sent = refl; same_rest = refl; same_offset = refl };
    no_output = o;
  }
  retained-IsDeferred id r world (false, world') e o = record {
    done = inr (e refl);
    alike = record { same_bytes = refl; same_sent = refl; same_rest = refl; same_offset = refl };
    no_output = o;
  }

  pub defer-IsDeferred :
      (r : WriteRequest) (world : World) → IsDeferred r world (defer system r world)
  unfolding defer
  defer-IsDeferred r world =
      let itself : IsAlike r r = record {
        same_bytes = refl;
        same_sent = refl;
        same_rest = refl;
        same_offset = refl;
      } in
      if_intro (IsDeferred r world) r.deferred (true, r, world)
        (defer_callback system r.callback_value r world)
        (λ _. record { done = inl refl; alike = itself; no_output = refl })
        (λ _. with_callback r.callback_value)
    where
      with_callback :
          (callback : Option ℕ) → IsDeferred r world (defer_callback system callback r world)
      with_callback none = record {
        done = inl refl;
        alike = record {
          same_bytes = refl;
          same_sent = refl;
          same_rest = refl;
          same_offset = refl;
        };
        no_output = refl;
      }
      with_callback (some id) =
          retained-IsDeferred id r world (system.retain_callback id world)
            (λ e. record { callback = id; at = world; failed = e }) (laws.retain-output id world)

  -- What defer of a queued request changes.
  pub record IsQueueDeferred (rs : List WriteRequest) (world : World)
      (deferral : Bool × List WriteRequest × World) : Type 0 where
    pub all_done : (deferral.0 ≡ true) ⊎ Unretained
    pub are_alike : AreAlike rs deferral.1
    pub nothing_put_out : output deferral.2 ≡ output world

  pub defer_queued-IsQueueDeferred :
      (address : ℕ) (rs : List WriteRequest) (world : World)
      → IsQueueDeferred rs world (defer_queued system address rs world)
  unfolding defer_queued
  defer_queued-IsQueueDeferred address [] world = record {
    all_done = inl refl;
    are_alike = same-AreAlike [];
    nothing_put_out = refl;
  }
  defer_queued-IsQueueDeferred address (r ∷ rs) world =
      let here = defer-IsDeferred r world in
      let behind = defer_queued-IsQueueDeferred address rs world in
      if_intro (IsQueueDeferred (r ∷ rs) world) (r.address == address) _ _
        (λ _. record {
          all_done = here.done;
          are_alike = head-AreAlike r (defer system r world).1 rs here.alike;
          nothing_put_out = here.no_output;
        })
        (λ _. record {
          all_done = behind.all_done;
          are_alike = tail-AreAlike r rs (defer_queued system address rs world).1 behind.are_alike;
          nothing_put_out = behind.nothing_put_out;
        })
