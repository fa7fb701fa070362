-- ===== src/Protocol/Parser/Loop.antt =====
-- The loop of `consume`: each round takes a whole frame, so it ends, and the state stays valid.
use eiows.Common.{
  ℕ, zero, suc, ◌+◌, ◌%◌, ◌≤◌, ◌≡◌, ◌≢◌, ◌⊎◌, inl, inr, refl, sym, subst, ◌∙◌, Bool, true, false,
  ◌++◌, arith, ◌==◌, if◌then◌else◌, Bool-cases, Bytes, length, take, drop, length-drop,
}
use eiows.Protocol.Ascii.{Simd}
use eiows.Protocol.Frame.{
  is_fin, get_op_code, payload_length, nonzero, read_uint16_be, read_uint64_be,
}
use eiows.Protocol.Parser.{
  Outcome, finished, more, check_fragmentation, check_op_stack, refuses, whole_message, first_part,
  consume_message, consume_continuation, Guard, invalid_compressed_frame, consume_by_length,
  consume_frame, header_length, has_header, parse_next, continue_with, consume,
}
use eiows.Protocol.State.{WebSocketState, store_spill, Hooks}
use eiows.Protocol.Parser.Invariant.{
  Between, idle, fragmented, Place, IsValid, Contract, HookLaws, Sound, SoundOutcome,
}
use eiows.Protocol.Parser.Preserve.{consume_frame-Sound, consume_continuation-Sound}

Outcome-cases :
    {C : Type 0} (o : Outcome C)
    → ((w : WebSocketState) × (c : C) × (o ≡ finished w c))
      ⊎ ((src : Bytes) × (w : WebSocketState) × (c : C) × (o ≡ more src w c))
Outcome-cases (finished w c) = inl (w, c, refl)
Outcome-cases (more src w c) = inr (src, w, c, refl)

has_header-pos : (src : Bytes) → has_header src ≡ true → 6 ≤ length src
unfolding has_header
has_header-pos src e = ground arith

no_header : (src : Bytes) → length src ≤ 0 → has_header src ≡ false
no_header src h = elim (Bool-cases (has_header src)) [
  | inl e ↦ absurd (omega (arith, has_header-pos src e))
  | inr e ↦ e
]

module _ {C : Type 0} (hooks : Hooks C) (simd : Simd) where
  whole_message-more :
      (n header : ℕ) (fin : Bool) (src rest : Bytes) (w w' : WebSocketState) (c c' : C)
      → whole_message hooks simd n header fin src w c ≡ more rest w' c'
      → rest ≡ drop (n + header) src
  unfolding whole_message
  whole_message-more n header fin src rest w w' c c' e = ground arith

  first_part-more :
      (n header : ℕ) (fin : Bool) (src rest : Bytes) (w w' : WebSocketState) (c c' : C)
      → first_part hooks simd n header fin src w c ≢ more rest w' c'
  unfolding first_part
  first_part-more n header fin src rest w w' c c' e = cc e

  -- A message is taken off the buffer with its header, or not at all.
  consume_message-more :
      (n header : ℕ) (src rest : Bytes) (w w' : WebSocketState) (c c' : C)
      → consume_message hooks simd n header src w c ≡ more rest w' c'
      → 6 ≤ header
      → length rest + 6 ≤ length src
  unfolding consume_message
  consume_message-more n header src rest w w' c c' e h =
      ground (arith, step, length-drop (n + header) src)
    where
      fin : Bool
      fin = is_fin src

      begun : Guard
      begun = check_fragmentation (get_op_code src) fin w

      stacked : Guard
      stacked = check_op_stack (get_op_code src) begun.state

      state : WebSocketState
      state = record stacked.state { last_fin = fin }

      asked : C
      asked = (refuses hooks simd (get_op_code src) n c).1

      step :
          (whole_message hooks simd n header fin src state asked ≡ more rest w' c'
            → rest ≡ drop (n + header) src)
          × (first_part hooks simd n header fin src state asked ≢ more rest w' c')
      step = (
        whole_message-more n header fin src rest state w' asked c',
        first_part-more n header fin src rest state w' asked c',
      )

  consume_by_length-more :
      (src rest : Bytes) (w w' : WebSocketState) (c c' : C)
      → consume_by_length hooks simd src w c ≡ more rest w' c'
      → length rest + 6 ≤ length src
  unfolding consume_by_length
  consume_by_length-more src rest w w' c c' e = ground (
    arith,
    consume_message-more (payload_length src) 6 src rest w w' c c',
    consume_message-more (read_uint16_be (drop 2 src)) 8 src rest w w' c c',
    consume_message-more (read_uint64_be (drop 2 src)) 14 src rest w w' c c',
  )

  pub consume_frame-more :
      (src rest : Bytes) (w w' : WebSocketState) (c c' : C)
      → consume_frame hooks simd src w c ≡ more rest w' c'
      → length rest + 6 ≤ length src
  unfolding consume_frame
  consume_frame-more src rest w w' c c' e =
      ground (
        arith,
        consume_by_length-more src rest w w' (invalid_compressed_frame hooks simd src c).1 c',
      )

  -- One round of the loop.
  pub parse_next-stop :
      (f : ℕ) (src : Bytes) (w : WebSocketState) (c : C)
      → has_header src ≡ false
      → parse_next hooks simd f src w c ≡ (store_spill src w, c)
  unfolding parse_next
  parse_next-stop zero src w c e = refl
  parse_next-stop (suc f) src w c e = rw (e, parse_next) refl

  pub parse_next-finished :
      (f : ℕ) (src : Bytes) (w w' : WebSocketState) (c c' : C)
      → has_header src ≡ true
      → consume_frame hooks simd src w c ≡ finished w' c'
      → parse_next hooks simd (suc f) src w c ≡ (w', c')
  unfolding parse_next
  parse_next-finished f src w w' c c' e p = rw (e, p, parse_next) refl

  pub parse_next-more :
      (f : ℕ) (src rest : Bytes) (w w' : WebSocketState) (c c' : C)
      → has_header src ≡ true
      → consume_frame hooks simd src w c ≡ more rest w' c'
      → parse_next hooks simd (suc f) src w c ≡ parse_next hooks simd f rest w' c'
  unfolding parse_next
  parse_next-more f src rest w w' c c' e p = rw (e, p, parse_next) refl

  -- With as many rounds as bytes the loop ends by its own tests: more rounds change nothing.
  pub parse_next-fuel :
      (f g : ℕ) (src : Bytes) (w : WebSocketState) (c : C)
      → length src ≤ f
      → length src ≤ g
      → parse_next hooks simd f src w c ≡ parse_next hooks simd g src w c
  parse_next-fuel zero g src w c h k =
      let e = no_header src (omega arith) in
      parse_next-stop zero src w c e ∙ sym (parse_next-stop g src w c e)
  parse_next-fuel (suc f) zero src w c h k =
      let e = no_header src (omega arith) in
      parse_next-stop (suc f) src w c e ∙ sym (parse_next-stop zero src w c e)
  parse_next-fuel (suc f) (suc g) src w c h k = elim (Bool-cases (has_header src)) [
    | inr e ↦ parse_next-stop (suc f) src w c e ∙ sym (parse_next-stop (suc g) src w c e)
    | inl e ↦ elim (Outcome-cases (consume_frame hooks simd src w c)) [
      | inl (w', c', p) ↦
          parse_next-finished f src w w' c c' e p ∙ sym (parse_next-finished g src w w' c c' e p)
      | inr (rest, w', c', p) ↦
          let less = consume_frame-more src rest w w' c c' p in
          parse_next-more f src rest w w' c c' e p
          ∙ parse_next-fuel f g rest w' c' (omega arith) (omega arith)
          ∙ sym (parse_next-more g src rest w w' c c' e p)
    ]
  ]

has_header-short : (src : Bytes) → has_header src ≡ false → length src ≤ 13
unfolding has_header header_length
has_header-short src e = ground arith

Between-spill :
    (w : WebSocketState) (n : ℕ) (spill : Bytes)
    → Between w
    → Between (record w { spill_length = n; spill = spill })
Between-spill w n spill (idle s f) = idle s f
Between-spill w n spill (fragmented s f d) = fragmented s f d

store_spill-IsValid :
    (limit : ℕ) (src : Bytes) (w : WebSocketState)
    → Between w
    → w.wants_head ≡ true
    → w.spill_length ≤ 13
    → length src ≤ 13
    → IsValid limit (store_spill src w)
unfolding store_spill
store_spill-IsValid limit src w between head spill short = elim (Bool-cases (length src == 0)) [
  | inl none_left ↦
      rw none_left
        (record { spill_fits = spill; place = subst (λ b. Place limit b w) (sym head) between })
  | inr some_left ↦ rw some_left (record {
    spill_fits = omega arith;
    place =
        subst
          (λ b.
            Place limit b (record w {
              spill = src ++ drop (length src) w.spill;
              spill_length = length src % 16;
            }))
          (sym head) (Between-spill w (length src % 16) (src ++ drop (length src) w.spill) between);
  })
]

module _ {C : Type 0} (hooks : Hooks C) (simd : Simd) (k : Contract C)
    (laws : HookLaws hooks k) where
  abbrev SoundPair : WebSocketState × C → Type 0
  SoundPair r = Sound k r.0 r.1

  parse_next-Sound :
      (f : ℕ) (src : Bytes) (w : WebSocketState) (c : C)
      → k.Holds c
      → length src ≤ f
      → Between w
      → w.wants_head ≡ true
      → w.spill_length ≤ 13
      → SoundPair (parse_next hooks simd f src w c)
  parse_next-Sound zero src w c i h between head spill =
      subst SoundPair (sym (parse_next-stop hooks simd zero src w c (no_header src (omega arith))))
        (i, inr (store_spill-IsValid k.limit src w between head spill (omega arith)))
  parse_next-Sound (suc f) src w c i h between head spill = elim (Bool-cases (has_header src)) [
    | inr e ↦
        subst SoundPair (sym (parse_next-stop hooks simd (suc f) src w c e))
          (i, inr (store_spill-IsValid k.limit src w between head spill (has_header-short src e)))
    | inl e ↦
        let sound = consume_frame-Sound hooks simd k laws src w c i between head e in
        elim (Outcome-cases (consume_frame hooks simd src w c)) [
          | inl (w', c', p) ↦
              subst SoundPair (sym (parse_next-finished hooks simd f src w w' c c' e p))
                (subst (SoundOutcome k) p sound)
          | inr (rest, w', c', p) ↦
              let less = consume_frame-more hooks simd src rest w w' c c' p in
              let (i', between', head', spill') = subst (SoundOutcome k) p sound in
              subst SoundPair (sym (parse_next-more hooks simd f src rest w w' c c' e p))
                (parse_next-Sound f rest w' c' i' (omega arith) between' head' spill')
        ]
  ]

  continue_with-Sound : (o : Outcome C) → SoundOutcome k o → SoundPair (continue_with hooks simd o)
  unfolding continue_with
  continue_with-Sound (finished w c) h = h
  continue_with-Sound (more src w c) (i, between, head, spill) =
      parse_next-Sound (length src) src w c i (omega arith) between head spill

  -- Whatever bytes arrive, the owner's invariant holds afterwards, and the state is valid or the owner
  -- has closed the connection.
  pub consume-IsValid :
      (src : Bytes) (w : WebSocketState) (c : C)
      → k.Holds c
      → IsValid k.limit w
      → Sound k (consume hooks simd src w c).0 (consume hooks simd src w c).1
  unfolding consume
  consume-IsValid src w c i valid =
      let src' = if nonzero w.spill_length then take w.spill_length w.spill ++ src else src in
      let at_head = parse_next hooks simd (length src') src' w c in
      let inside = continue_with hooks simd (consume_continuation hooks simd src' w c) in
      let goal = λ (b : Bool). SoundPair (if b then at_head else inside) in
      elim (Bool-cases w.wants_head) [
        | inl head ↦ subst goal (sym head) (
            parse_next-Sound (length src') src' w c i (omega arith)
              (subst (λ b. Place k.limit b w) head valid.place) head valid.spill_fits)
        | inr body ↦ subst goal (sym body) (
            continue_with-Sound (consume_continuation hooks simd src' w c)
              (consume_continuation-Sound hooks simd k laws src' w c i body valid))
      ]
