-- ===== src/Transport/Ordered/Coalesced.antt =====
-- flatten and coalescePrefix of WriteRequest (nodejs/src/native_transport.cpp) join the parts of a
-- write, and leave its bytes as they are.
use eiows.Common.{
  ℕ, zero, suc, ◌+◌, ◌-◌, ◌^◌, min, ◌<◌, ◌≡◌, refl, sym, ◌∙◌, ap, ap₂, Bool, true, false, not, ◌||◌,
  List, [], ◌∷◌, ◌++◌, ltb, leb, ◌==◌, ==_iff, leb→le, drop_all, drop-append_split,
  take-append_split, take_all, ◌≢◌, if◌then◌else◌, if_intro, Bytes, length, take, drop, append-nil,
  length-append, length-take, take-append-drop, arith,
}
use eiows.Transport.Ordered.Requests.{IsPrepared, skipped-IsPrepared, total_bytes-sum}
use eiows.Transport.WriteRequest.{
  WriteRequest, part_count, released, parts, concat, skip_empty_parts, total_bytes, rewound,
  prepare, with_parts, inline_bytes, zeros, flatten, gather, behind_prefix, coalesce_prefix,
}

gather-take : (n : ℕ) (ps : List Bytes) → gather n ps ≡ take n (concat ps)
unfolding gather
gather-take n [] = sym (take_all n [] (omega arith))
gather-take n (p ∷ ps) =
    if_intro (λ (b : Bytes). b ≡ take n (p ++ concat ps)) (n == 0) []
      (take (min (length p) n) p ++ gather (n - length p) ps)
      (λ e. ap (λ (k : ℕ). take k (p ++ concat ps)) (sym ((==_iff n 0).0 e)))
      (λ _.
        ap (λ (b : Bytes). take (min (length p) n) p ++ b) (gather-take (n - length p) ps)
        ∙ sym (take-append_split n p (concat ps)))

behind_prefix-drop : (n : ℕ) (ps : List Bytes) → concat (behind_prefix n ps) ≡ drop n (concat ps)
unfolding behind_prefix
behind_prefix-drop n [] = sym (drop_all n [] (omega arith))
behind_prefix-drop n (p ∷ ps) =
    let behind = drop (n - length p) (concat ps) in
    if_intro (λ (qs : List Bytes). concat qs ≡ drop n (p ++ concat ps)) (leb (length p) n)
      (behind_prefix (n - length p) ps) (drop n p ∷ behind_prefix 0 ps)
      (λ e.
        behind_prefix-drop (n - length p) ps
        ∙ sym (
            drop-append_split n p (concat ps)
            ∙ ap (λ (b : Bytes). b ++ behind) (drop_all n p (leb→le (length p) n e))))
      (λ e.
        ap (λ (b : Bytes). drop n p ++ b)
          (behind_prefix-drop 0 ps ∙ ap (λ (i : ℕ). drop i (concat ps)) {x = 0} (ground arith))
        ∙ sym (drop-append_split n p (concat ps)))

-- The sum of the lengths fits into 64 bits.
total_bytes-fits :
    (sum : ℕ) (ps : List Bytes) → sum + length (concat ps) < 2 ^ 64 → (total_bytes sum ps).0 ≡ true
unfolding total_bytes
total_bytes-fits sum [] h = refl
total_bytes-fits sum (p ∷ ps) h =
    if_intro (λ (r : Bool × ℕ). r.0 ≡ true) (ltb (2 ^ 64 - 1 - length p) sum) (false, sum)
      (total_bytes (sum + length p) ps) (λ e. absurd (ground (arith, length-append p (concat ps))))
      (λ _. total_bytes-fits (sum + length p) ps (omega (arith, h, length-append p (concat ps))))

-- A request that still has all its bytes to write, `bytes` of them.
pub record IsWhole (bytes : Bytes) (r : WriteRequest) : Type 0 where
  pub all_parts : concat (parts r) ≡ bytes
  pub prepared : IsPrepared (bytes ∷ []) r
  pub unsent_yet : r.sent ≡ 0

concat-one : (b : Bytes) → concat (b ∷ []) ≡ b
concat-one b = append-nil b

concat-released : (n : ℕ) (ps : List Bytes) → concat (released n ++ ps) ≡ concat ps
concat-released zero ps = refl
concat-released (suc n) ps = concat-released n ps

skip_empty_parts-parts :
    (n : ℕ) (ps : List Bytes) (w : WriteRequest)
    → concat (parts (skip_empty_parts n ps w)) ≡ concat ps
unfolding skip_empty_parts
skip_empty_parts-parts n [] w = concat-released n []
skip_empty_parts-parts n ([] ∷ ps) w = skip_empty_parts-parts (n + 1) ps w
skip_empty_parts-parts n ((b ∷ p) ∷ ps) w = concat-released n ((b ∷ p) ∷ ps)

skip_empty_parts-sent :
    (n : ℕ) (ps : List Bytes) (w : WriteRequest) → (skip_empty_parts n ps w).sent ≡ w.sent
unfolding skip_empty_parts
skip_empty_parts-sent n [] w = refl
skip_empty_parts-sent n ([] ∷ ps) w = skip_empty_parts-sent (n + 1) ps w
skip_empty_parts-sent n ((b ∷ p) ∷ ps) w = refl

other_parts :
    (ps qs : List Bytes) (r : WriteRequest)
    → concat ps ≡ concat qs
    → IsPrepared ps r
    → IsPrepared qs r
other_parts ps qs r e p = record {
  request = p.request;
  all_bytes = p.all_bytes ∙ e;
  nothing_sent = p.nothing_sent;
}

-- prepare of a request with nothing sent, whose bytes are fewer than 2 to the 64.
pub prepare-IsWhole :
    (bytes : Bytes) (w : WriteRequest)
    → concat (parts w) ≡ bytes
    → w.sent ≡ 0
    → part_count w ≢ 0
    → length bytes < 2 ^ 64
    → ((prepare w).0 ≡ true) × IsWhole bytes (prepare w).1
unfolding prepare
prepare-IsWhole bytes w e s c h =
    let (fits, sum) = total_bytes 0 (parts w) in
    let whole = rewound sum w in
    let fitting : fits ≡ true =
      total_bytes-fits 0 (parts w) (omega (arith, h, ap (length {A = ℕ}) e)) in
    let sum_is : sum ≡ length (concat (parts w)) =
      total_bytes-sum 0 (parts w) fitting ∙ omega arith in
    if_intro (λ (r : Bool × WriteRequest). (r.0 ≡ true) × IsWhole bytes r.1) (not fits)
      (false, whole) (not (part_count w == 0), skip_empty_parts 0 (parts w) whole)
      (λ n. absurd (cc (n, fitting)))
      (λ _. (
        ground arith,
        record {
          all_parts = skip_empty_parts-parts 0 (parts w) whole ∙ e;
          prepared =
              other_parts (parts w) (bytes ∷ []) (skip_empty_parts 0 (parts w) whole)
                (e ∙ sym (concat-one bytes)) (skipped-IsPrepared (parts w) whole refl s sum_is);
          unsent_yet = skip_empty_parts-sent 0 (parts w) whole ∙ s;
        },
      ))

-- A request with other parts that hold the same bytes, prepared again.
again-IsWhole :
    (bytes : Bytes) (p : Bytes) (ps : List Bytes) (w : WriteRequest)
    → concat (p ∷ ps) ≡ bytes
    → w.sent ≡ 0
    → length bytes < 2 ^ 64
    → ((prepare (with_parts (p ∷ ps) w)).0 ≡ true)
      × IsWhole bytes (prepare (with_parts (p ∷ ps) w)).1
again-IsWhole bytes p ps w e s h =
    prepare-IsWhole bytes (with_parts (p ∷ ps) w) e s (λ c. omega (arith, c)) h

whole_length : (bytes : Bytes) (w : WriteRequest) → IsWhole bytes w → w.bytes ≡ length bytes
whole_length bytes w v = sym (
    ap (length {A = ℕ}) (sym (v.prepared.all_bytes ∙ concat-one bytes))
    ∙ v.prepared.request.counted
    ∙ v.prepared.nothing_sent)

no_zeros : (n : ℕ) → n ≡ 0 → zeros n ≡ []
no_zeros n e = ap zeros e

-- The request is kept, and whole.
abbrev pub IsKeptWhole : Bytes → Bool × WriteRequest → Type 0
IsKeptWhole bytes (kept, r) = (kept ≡ true) × IsWhole bytes r

-- flatten succeeds, and the request is as whole as before.
pub flatten-IsWhole :
    (bytes : Bytes) (w : WriteRequest)
    → IsWhole bytes w
    → length bytes < 2 ^ 64
    → IsKeptWhole bytes (flatten w)
unfolding flatten
flatten-IsWhole bytes w v h =
    let joined = concat (parts w) in
    let filled = joined ++ zeros (w.bytes - length joined) in
    let none_left : zeros (w.bytes - length joined) ≡ [] =
      no_zeros (w.bytes - length joined)
        (omega (arith, whole_length bytes w v, ap (length {A = ℕ}) v.all_parts)) in
    if_intro (IsKeptWhole bytes) (leb (part_count w) 1) (true, w)
      (if leb w.bytes inline_bytes
        then prepare (with_parts (joined ∷ []) w)
        else prepare (with_parts (filled ∷ []) w))
      (λ _. (refl, v))
      (λ _.
        if_intro (IsKeptWhole bytes) (leb w.bytes inline_bytes)
          (prepare (with_parts (joined ∷ []) w)) (prepare (with_parts (filled ∷ []) w))
          (λ _. again-IsWhole bytes joined [] w (concat-one joined ∙ v.all_parts) v.unsent_yet h)
          (λ _.
            again-IsWhole bytes filled [] w
              (concat-one filled
                ∙ ap (λ (z : Bytes). joined ++ z) none_left
                ∙ append-nil joined
                ∙ v.all_parts)
              v.unsent_yet h))

prefix_full :
    (n : ℕ) (prefix bytes : Bytes) (counted : ℕ) (few : Bool)
    → prefix ≡ take n bytes
    → counted ≡ length bytes
    → (few || leb counted n) ≡ false
    → not (length prefix == n) ≢ true
prefix_full n prefix bytes counted few e c long short =
    ground (arith, e, c, long, short, ap (length {A = ℕ}) e ∙ length-take n bytes)

-- What submit does with the parts of a write before TLS encrypts it, flatten or coalescePrefix, always
-- succeeds for fewer than 2 to the 64 bytes, and leaves a request that has the same bytes to write, in
-- the same order, all of them still unsent and counted.
pub coalesce_prefix-IsWhole :
    (bytes : Bytes) (n : ℕ) (w : WriteRequest)
    → IsWhole bytes w
    → length bytes < 2 ^ 64
    → IsKeptWhole bytes (flatten w) × IsKeptWhole bytes (coalesce_prefix n w)
unfolding coalesce_prefix
coalesce_prefix-IsWhole bytes n w v h =
    let flat = flatten-IsWhole bytes w v h in
    let prefix = gather n (parts w) in
    let behind = behind_prefix n (parts w) in
    let taken : prefix ≡ take n bytes = gather-take n (parts w) ∙ ap (take n) v.all_parts in
    let joined : prefix ++ concat behind ≡ bytes =
      ap₂ (◌++◌) taken (behind_prefix-drop n (parts w) ∙ ap (drop n) v.all_parts)
      ∙ take-append-drop n bytes in
    (
      flat,
      if_intro (IsKeptWhole bytes) (leb (part_count w) 1 || leb w.bytes n) (flatten w)
          (if not (length prefix == n)
            then (false, w)
            else prepare (with_parts (prefix ∷ behind) w))
          (λ _. flat)
          (λ long.
            if_intro (IsKeptWhole bytes) (not (length prefix == n)) (false, w)
              (prepare (with_parts (prefix ∷ behind) w))
              (λ short. absurd (
                prefix_full n prefix bytes w.bytes (leb (part_count w) 1) taken
                  (whole_length bytes w v) long short))
              (λ _. again-IsWhole bytes prefix behind w joined v.unsent_yet h)),
    )
