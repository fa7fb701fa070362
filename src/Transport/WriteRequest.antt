-- ===== src/Transport/WriteRequest.antt =====
-- WriteRequest of nodejs/src/native_transport.cpp: the parts of a write, the cursor through them,
-- and the two ways to join them. A part is the bytes that its pointer and length give.
pub mod Cursor
use eiows.Common.{
  ℕ, zero, suc, ◌+◌, ◌-◌, ◌*◌, ◌^◌, min, Bool, true, false, not, ◌&&◌, ◌||◌, Option, none, some,
  List, [], ◌∷◌, ◌++◌, ltb, leb, ◌==◌, if◌then◌else◌, Bytes, length, take, drop,
}

-- `finished` is cursorPart: that many parts are released, and have no bytes. `rest` are the parts
-- from the cursor on; partCount counts both. `address` is what the code compares pointers to a
-- request by. A callback is known by a number: callbackValue, and `callback` once it is retained.
pub record WriteRequest : Type 0 where
  pub address : ℕ
  pub finished : ℕ
  pub rest : List Bytes
  pub cursor_offset : ℕ
  pub bytes : ℕ
  pub sent : ℕ
  pub callback_value : Option ℕ
  pub callback : Option ℕ
  pub deferred : Bool

-- A new request, with its parts and the callback that retainCallback has taken.
abbrev pub new_request : (address : ℕ) → List Bytes → Option ℕ → WriteRequest
new_request address parts callback = record {
  address = address;
  finished = 0;
  rest = parts;
  cursor_offset = 0;
  bytes = 0;
  sent = 0;
  callback_value = callback;
  callback = none;
  deferred = false;
}

abbrev pub part_count : WriteRequest → ℕ
part_count w = w.finished + length w.rest

abbrev pub released : ℕ → List Bytes
released zero = []
released (suc n) = [] ∷ released n

-- All parts, from the first on.
abbrev pub parts : WriteRequest → List Bytes
parts w = released w.finished ++ w.rest

abbrev pub concat : List Bytes → Bytes
concat [] = []
concat (p ∷ ps) = p ++ concat ps

-- skipEmptyParts
unfoldable pub skip_empty_parts : ℕ → List Bytes → WriteRequest → WriteRequest
skip_empty_parts finished ([] ∷ ps) w = skip_empty_parts (finished + 1) ps w
skip_empty_parts finished ps w = record w { finished = finished; rest = ps }

-- The loop of prepare, which stops with false where the sum would not fit.
unfoldable pub total_bytes : ℕ → List Bytes → Bool × ℕ
total_bytes sum [] = (true, sum)
total_bytes sum (p ∷ ps) =
    let rest = total_bytes (sum + length p) ps in
    if ltb (2 ^ 64 - 1 - length p) sum then (false, sum) else rest

abbrev pub rewound : ℕ → WriteRequest → WriteRequest
rewound sum w = record w { finished = 0; rest = parts w; cursor_offset = 0; bytes = sum }

unfoldable pub prepare : WriteRequest → Bool × WriteRequest
prepare w =
    let (fits, sum) = total_bytes 0 (parts w) in
    if not fits
    then (false, rewound sum w)
    else (not (part_count w == 0), skip_empty_parts 0 (parts w) (rewound sum w))

-- clearParts and the parts appended behind it
abbrev pub with_parts : List Bytes → WriteRequest → WriteRequest
with_parts ps w = record w { finished = 0; rest = ps; cursor_offset = 0 }

abbrev pub inline_bytes : ℕ
inline_bytes = 1024 + 14

abbrev pub zeros : ℕ → Bytes
zeros zero = []
zeros (suc n) = 0 ∷ zeros n

unfoldable pub flatten : WriteRequest → Bool × WriteRequest
flatten w =
    let joined = concat (parts w) in
    if leb (part_count w) 1
    then (true, w)
    else if leb w.bytes inline_bytes
    then prepare (with_parts (joined ∷ []) w)
    else prepare (with_parts ((joined ++ zeros (w.bytes - length joined)) ∷ []) w)

-- The first loop of coalescePrefix.
unfoldable pub gather : ℕ → List Bytes → Bytes
gather n [] = []
gather n (p ∷ ps) =
    let rest = gather (n - length p) ps in if n == 0 then [] else take (min (length p) n) p ++ rest

-- Its last loop: the parts behind the prefix.
unfoldable pub behind_prefix : ℕ → List Bytes → List Bytes
behind_prefix n [] = []
behind_prefix n (p ∷ ps) =
    let after = behind_prefix (n - length p) ps in
    let rest = behind_prefix 0 ps in if leb (length p) n then after else drop n p ∷ rest

unfoldable pub coalesce_prefix : ℕ → WriteRequest → Bool × WriteRequest
coalesce_prefix prefix_length w =
    let prefix = gather prefix_length (parts w) in
    if leb (part_count w) 1 || leb w.bytes prefix_length
    then flatten w
    else if not (length prefix == prefix_length)
    then (false, w)
    else prepare (with_parts (prefix ∷ behind_prefix prefix_length (parts w)) w)

-- The loop of advanceCursor: the cursor's part and offset, and the parts from there on.
unfoldable pub advance_parts : ℕ → ℕ → ℕ → List Bytes → WriteRequest → WriteRequest
advance_parts n offset finished [] w = record w {
  finished = finished;
  rest = [];
  cursor_offset = offset;
}
advance_parts n offset finished (p ∷ ps) w =
    let available = length p - offset in
    let next = advance_parts (n - available) 0 (finished + 1) ps w in
    if n == 0
    then skip_empty_parts finished (p ∷ ps) (record w { cursor_offset = offset })
    else if ltb n available
    then record w { finished = finished; rest = p ∷ ps; cursor_offset = offset + n }
    else next

unfoldable pub advance_cursor : ℕ → WriteRequest → WriteRequest
advance_cursor n w = advance_parts n w.cursor_offset w.finished w.rest w

unfoldable pub advance : ℕ → WriteRequest → WriteRequest
advance n w = advance_cursor n (record w { sent = w.sent + n })

-- What is still to be written.
abbrev pub remaining : WriteRequest → Bytes
remaining w = drop w.cursor_offset (concat w.rest)

-- The pieces of remainingIovecs, at most `limit` of them.
unfoldable pub remaining_iovecs : (limit : ℕ) → WriteRequest → Bytes
remaining_iovecs limit w = drop w.cursor_offset (concat (take limit w.rest))

abbrev pub part_data : (size offset : ℕ) → List Bytes → Bytes
part_data size offset [] = []
part_data size offset (p ∷ ps) = take size (drop offset p)

-- remainingData, cut to `size` bytes: the cursor's part from the offset on.
unfoldable pub remaining_data : (size : ℕ) → WriteRequest → Bytes
remaining_data size w = part_data size w.cursor_offset w.rest

unfoldable pub remaining_part_bytes : WriteRequest → ℕ
remaining_part_bytes w = elim w.rest [ [] ↦ 0 | p ∷ ps ↦ length p - w.cursor_offset ]

unfoldable pub remaining_bytes : WriteRequest → ℕ
remaining_bytes w = w.bytes - w.sent

unfoldable pub stage_tls : ℕ → WriteRequest → WriteRequest
stage_tls n w = advance_cursor n w

unfoldable pub commit_tls : ℕ → WriteRequest → WriteRequest
commit_tls n w = record w { sent = w.sent + n }

unfoldable pub unstaged_bytes : (staged : ℕ) → WriteRequest → ℕ
unstaged_bytes staged w = w.bytes - w.sent - staged
