-- ===== src/Transport/TlsContexts.antt =====
-- The callbacks of TLS contexts that transports keep (nodejs/src/native_transport.cpp):
-- retainTLSContext, releaseTLSContext, retainTLSCallbacks and releaseTLSCallbacks.
use eiows.Common.{
  ℕ, ◌+◌, ◌-◌, ◌≡◌, ◌≢◌, refl, sym, ◌∙◌, ap, true, not, Option, none, some, List, [], ◌∷◌, ◌==◌,
  ==_iff, if◌then◌else◌, if_intro, if_true, if_false, Bool-cases, Option-cases, ap₂, subst, inl,
  inr, All, arith,
}
use mathlib.Core.Path.{fun_ext}
use eiows.Protocol.Frame.{nonzero}

-- What a context calls: nothing, a callback of its own, or this program's multiplexNewSession,
-- multiplexGetSession and multiplexKeylog.
pub data Hook : Type 0 where
  no_hook multiplexed : Hook
  callback : ℕ → Hook

pub record ContextHooks : Type 0 where
  pub new_session : Hook
  pub get_session : Hook
  pub keylog : Hook

-- TLSContextCallbacks
pub record TlsContextCallbacks : Type 0 where
  pub owners : ℕ
  pub saved : ContextHooks

-- tlsContexts, by the contexts' numbers, and what OpenSSL has installed in each.
pub record TlsContexts : Type 0 where
  pub table : List (ℕ × TlsContextCallbacks)
  pub hooks : ℕ → ContextHooks

pub find : ℕ → List (ℕ × TlsContextCallbacks) → Option TlsContextCallbacks
find context [] = none
find context ((c, e) ∷ table) =
    let rest = find context table in if c == context then some e else rest

-- A change of the entry that is there, or a new one.
pub put : ℕ → TlsContextCallbacks → List (ℕ × TlsContextCallbacks) → List (ℕ × TlsContextCallbacks)
put context new [] = (context, new) ∷ []
put context new ((c, e) ∷ table) =
    let rest = put context new table in if c == context then (c, new) ∷ table else (c, e) ∷ rest

pub erase : ℕ → List (ℕ × TlsContextCallbacks) → List (ℕ × TlsContextCallbacks)
erase context [] = []
erase context ((c, e) ∷ table) =
    let rest = erase context table in if c == context then table else (c, e) ∷ rest

abbrev install : ℕ → ContextHooks → (ℕ → ContextHooks) → ℕ → ContextHooks
install context new hooks c = if c == context then new else hooks c

abbrev multiplexing : ContextHooks
multiplexing = record { new_session = multiplexed; get_session = multiplexed; keylog = multiplexed }

abbrev first_owner : ℕ → TlsContexts → TlsContexts
first_owner context s = record {
  table = put context (record { owners = 1; saved = s.hooks context }) s.table;
  hooks = install context multiplexing s.hooks;
}

abbrev retain_found : ℕ → Option TlsContextCallbacks → TlsContexts → TlsContexts
retain_found context none s = first_owner context s
retain_found context (some e) s =
    if nonzero e.owners
    then record s { table = put context (record e { owners = e.owners + 1 }) s.table }
    else first_owner context s

pub retain_tls_context : ℕ → TlsContexts → TlsContexts
retain_tls_context context s = retain_found context (find context s.table) s

-- A callback that is still this program's gives way to the one that was there.
abbrev restored : Hook → Hook → Hook
restored multiplexed saved = saved
restored no_hook saved = no_hook
restored (callback n) saved = callback n

abbrev restore : ContextHooks → ContextHooks → ContextHooks
restore now saved = record {
  new_session = restored now.new_session saved.new_session;
  get_session = restored now.get_session saved.get_session;
  keylog = restored now.keylog saved.keylog;
}

abbrev release_found : ℕ → Option TlsContextCallbacks → TlsContexts → TlsContexts
release_found context none s = s
release_found context (some e) s =
    if nonzero (e.owners - 1)
    then record s { table = put context (record e { owners = e.owners - 1 }) s.table }
    else record {
      table = erase context s.table;
      hooks = install context (restore (s.hooks context) e.saved) s.hooks;
    }

pub release_tls_context : ℕ → TlsContexts → TlsContexts
release_tls_context context s = release_found context (find context s.table) s

-- The contexts' part of retainTLSCallbacks and releaseTLSCallbacks.
pub retain_tls_callbacks : (current initial : ℕ) → TlsContexts → TlsContexts
retain_tls_callbacks current initial s =
    let s' = retain_tls_context initial s in
    if not (current == initial) then retain_tls_context current s' else s'

pub release_tls_callbacks : (current initial : ℕ) → TlsContexts → TlsContexts
release_tls_callbacks current initial s =
    release_tls_context initial
      (if not (current == initial) then release_tls_context current s else s)

-- Every entry has an owner.
abbrev pub IsOwned : TlsContexts → Type 0
IsOwned s = All (λ (entry : ℕ × TlsContextCallbacks). entry.1.owners ≢ 0) s.table

pub record IsSame (s s' : TlsContexts) : Type 0 where
  pub same_table : s'.table ≡ s.table
  pub same_hooks : (c : ℕ) → s'.hooks c ≡ s.hooks c

eq_self : (c : ℕ) → (c == c) ≡ true
eq_self c = (==_iff c c).1 refl

find-put :
    (c : ℕ) (e : TlsContextCallbacks) (table : List (ℕ × TlsContextCallbacks))
    → find c (put c e table) ≡ some e
unfolding find put
find-put c e [] = if_true (c == c) (some e) none (eq_self c)
find-put c e ((d, x) ∷ table) =
    if_intro (λ (t : List (ℕ × TlsContextCallbacks)). find c t ≡ some e) (d == c) ((d, e) ∷ table)
      ((d, x) ∷ put c e table) (λ q. if_true (d == c) (some e) (find c table) q)
      (λ q. if_false (d == c) (some x) (find c (put c e table)) q ∙ find-put c e table)

erase-put :
    (c : ℕ) (e : TlsContextCallbacks) (table : List (ℕ × TlsContextCallbacks))
    → find c table ≡ none
    → erase c (put c e table) ≡ table
unfolding find put erase
erase-put c e [] n = if_true (c == c) [] ((c, e) ∷ []) (eq_self c)
erase-put c e ((d, x) ∷ table) n = elim (Bool-cases (d == c)) [
  | inl q ↦ absurd (cc (sym (if_true (d == c) (some x) (find c table) q) ∙ n))
  | inr q ↦
      ap (erase c) (if_false (d == c) ((d, e) ∷ table) ((d, x) ∷ put c e table) q)
      ∙ if_false (d == c) (put c e table) ((d, x) ∷ erase c (put c e table)) q
      ∙ ap (λ (t : List (ℕ × TlsContextCallbacks)). (d, x) ∷ t)
          (erase-put c e table (sym (if_false (d == c) (some x) (find c table) q) ∙ n))
]

entry_or : TlsContextCallbacks → Option TlsContextCallbacks → TlsContextCallbacks
entry_or e none = e
entry_or e (some x) = x

put-put :
    (c : ℕ) (e e' : TlsContextCallbacks) (table : List (ℕ × TlsContextCallbacks))
    → find c table ≡ some e
    → put c e (put c e' table) ≡ table
unfolding find put entry_or
put-put c e e' [] n = absurd (cc n)
put-put c e e' ((d, x) ∷ table) n = elim (Bool-cases (d == c)) [
  | inl q ↦
      ap (put c e) (if_true (d == c) ((d, e') ∷ table) ((d, x) ∷ put c e' table) q)
      ∙ if_true (d == c) ((d, e) ∷ table) ((d, e') ∷ put c e table) q
      ∙ ap (λ (v : TlsContextCallbacks). (d, v) ∷ table)
          (sym (ap (entry_or e) (sym (if_true (d == c) (some x) (find c table) q) ∙ n)))
  | inr q ↦
      ap (put c e) (if_false (d == c) ((d, e') ∷ table) ((d, x) ∷ put c e' table) q)
      ∙ if_false (d == c) ((d, e) ∷ put c e' table) ((d, x) ∷ put c e (put c e' table)) q
      ∙ ap (λ (t : List (ℕ × TlsContextCallbacks)). (d, x) ∷ t)
          (put-put c e e' table (sym (if_false (d == c) (some x) (find c table) q) ∙ n))
]

found-owned :
    (c : ℕ) (e : TlsContextCallbacks) (table : List (ℕ × TlsContextCallbacks))
    → All (λ (entry : ℕ × TlsContextCallbacks). entry.1.owners ≢ 0) table
    → find c table ≡ some e
    → e.owners ≢ 0
unfolding find entry_or
found-owned c e [] h n = absurd (cc n)
found-owned c e ((d, x) ∷ table) (o, os) n = elim (Bool-cases (d == c)) [
  | inl q ↦
      subst (λ (v : TlsContextCallbacks). v.owners ≢ 0)
        (ap (entry_or e) (sym (if_true (d == c) (some x) (find c table) q) ∙ n)) o
  | inr q ↦ found-owned c e table os (sym (if_false (d == c) (some x) (find c table) q) ∙ n)
]

put-owned :
    (c : ℕ) (e : TlsContextCallbacks) (table : List (ℕ × TlsContextCallbacks))
    → e.owners ≢ 0
    → All (λ (entry : ℕ × TlsContextCallbacks). entry.1.owners ≢ 0) table
    → All (λ (entry : ℕ × TlsContextCallbacks). entry.1.owners ≢ 0) (put c e table)
unfolding put
put-owned c e [] o h = (o, tt)
put-owned c e ((d, x) ∷ table) o (h, hs) =
    if_intro (All (λ (entry : ℕ × TlsContextCallbacks). entry.1.owners ≢ 0)) (d == c) _ _
      (λ _. (o, hs)) (λ _. (h, put-owned c e table o hs))

retain_tls_context-IsOwned :
    (context : ℕ) (s : TlsContexts) → IsOwned s → IsOwned (retain_tls_context context s)
unfolding retain_tls_context
retain_tls_context-IsOwned context s h = found (find context s.table)
  where
    found : (o : Option TlsContextCallbacks) → IsOwned (retain_found context o s)
    found none = put-owned context _ s.table (λ e. omega (arith, e)) h
    found (some e) =
        if_intro IsOwned (nonzero e.owners) _ (first_owner context s)
          (λ _. put-owned context _ s.table (λ z. omega (arith, z)) h)
          (λ _. put-owned context _ s.table (λ z. omega (arith, z)) h)

reinstalled :
    (context : ℕ) (hooks : ℕ → ContextHooks) (c : ℕ)
    → install context
        (restore (install context multiplexing hooks context) (hooks context))
        (install context multiplexing hooks)
        c
      ≡ hooks c
reinstalled context hooks c = elim (Bool-cases (c == context)) [
  | inl q ↦
      if_true (c == context) (restore (install context multiplexing hooks context) (hooks context))
        (install context multiplexing hooks c) q
      ∙ ap (λ (now : ContextHooks). restore now (hooks context))
          (if_true (context == context) multiplexing (hooks context) (eq_self context))
      ∙ ap hooks (sym ((==_iff c context).0 q))
  | inr q ↦
      if_false (c == context) (restore (install context multiplexing hooks context) (hooks context))
        (install context multiplexing hooks c) q
      ∙ if_false (c == context) multiplexing (hooks c) q
]

released_first :
    (context : ℕ) (s : TlsContexts)
    → find context s.table ≡ none
    → IsSame s (release_tls_context context (first_owner context s))
unfolding release_tls_context
released_first context s n =
    let e : TlsContextCallbacks = record { owners = 1; saved = s.hooks context } in
    subst
      (λ (o : Option TlsContextCallbacks).
        IsSame s (release_found context o (first_owner context s)))
      (sym (find-put context e s.table))
      (record {
        same_table = erase-put context e s.table n;
        same_hooks = reinstalled context s.hooks;
      })

released_again :
    (context : ℕ) (s : TlsContexts) (e : TlsContextCallbacks)
    → find context s.table ≡ some e
    → e.owners ≢ 0
    → IsSame s (
        release_tls_context context
          (record s { table = put context (record e { owners = e.owners + 1 }) s.table }))
unfolding release_tls_context
released_again context s e n o =
    let more : TlsContextCallbacks = record e { owners = e.owners + 1 } in
    let s' : TlsContexts = record s { table = put context more s.table } in
    let less : TlsContextCallbacks = record e { owners = e.owners + 1 - 1 } in
    let back : less ≡ e = ap (λ (k : ℕ). record e { owners = k }) (omega arith) in
    subst (λ (found : Option TlsContextCallbacks). IsSame s (release_found context found s'))
      (sym (find-put context more s.table))
      (if_intro (IsSame s) (nonzero (e.owners + 1 - 1))
        (record s' { table = put context less s'.table }) _
        (λ _. record {
          same_table =
              ap (λ (v : TlsContextCallbacks). put context v s'.table) back
              ∙ put-put context e more s.table n;
          same_hooks = λ c. refl;
        })
        (λ z. absurd (ground (arith, o, z))))

-- Releasing a context that was just retained gives back the table of contexts and every context's
-- callbacks, whether others own the context or not.
pub release-retain_tls_context :
    (context : ℕ) (s : TlsContexts)
    → IsOwned s
    → IsSame s (release_tls_context context (retain_tls_context context s))
unfolding retain_tls_context
release-retain_tls_context context s h = elim (Option-cases (find context s.table)) [
  | inl n ↦
      subst
        (λ (o : Option TlsContextCallbacks).
          IsSame s (release_tls_context context (retain_found context o s)))
        (sym n) (released_first context s n)
  | inr (e, n) ↦
      let owned = found-owned context e s.table h n in
      subst
        (λ (o : Option TlsContextCallbacks).
          IsSame s (release_tls_context context (retain_found context o s)))
        (sym n)
        (if_intro (λ (s' : TlsContexts). IsSame s (release_tls_context context s'))
          (nonzero e.owners)
          (record s { table = put context (record e { owners = e.owners + 1 }) s.table })
          (first_owner context s) (λ _. released_again context s e n owned)
          (λ z. absurd (ground (arith, owned, z))))
]

release-retain_same :
    (context : ℕ) (s : TlsContexts)
    → IsOwned s
    → release_tls_context context (retain_tls_context context s) ≡ s
release-retain_same context s h =
    let k = release-retain_tls_context context s h in
    ap₂
      (λ (table : List (ℕ × TlsContextCallbacks)) (hooks : ℕ → ContextHooks). record {
        table = table;
        hooks = hooks;
      })
      k.same_table (fun_ext k.same_hooks)

-- When a transport lets go of the contexts that it has just retained, the one it began with and the
-- one of its connection, which may be the same, all is as before: the owners of every context, and the
-- callbacks that OpenSSL has for it.
pub release-retain_tls_callbacks :
    (current initial : ℕ) (s : TlsContexts)
    → IsOwned s
    → release_tls_callbacks current initial (retain_tls_callbacks current initial s) ≡ s
unfolding release_tls_callbacks retain_tls_callbacks
release-retain_tls_callbacks current initial s h =
    let two = not (current == initial) in
    let s' = retain_tls_context initial s in
    let s'' = retain_tls_context current s' in
    elim (Bool-cases two) [
      | inl q ↦
          ap (release_tls_context initial) (
            if_true two (release_tls_context current (if two then s'' else s'))
              (if two then s'' else s') q
            ∙ ap (release_tls_context current) (if_true two s'' s' q)
            ∙ release-retain_same current s' (retain_tls_context-IsOwned initial s h))
          ∙ release-retain_same initial s h
      | inr q ↦
          ap (release_tls_context initial) (
            if_false two (release_tls_context current (if two then s'' else s'))
              (if two then s'' else s') q
            ∙ if_false two s'' s' q)
          ∙ release-retain_same initial s h
    ]
