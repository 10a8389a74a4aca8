-- ===== src/Api/Coalescer/Flights.antt =====
-- Which requests share a forward, and what the counters say of them.
use hier_kv_gateway.Prelude.{
  ℕ, ◌+◌, ◌%◌, ◌^◌, ◌≡◌, ◌≢◌, refl, sym, ap, ◌∙◌, subst, Bool, true, false, ◌&&◌, none, some, List,
  [], ◌∷◌, if◌then◌else◌, ◌==◌, ite, length, arith, ℕ_discrete, Bool-cases, Option-cases, inl, inr,
  ◌⊎◌,
}
use hier_kv_gateway.HashSet.{contains}
use hier_kv_gateway.Interface.DashMap.{DashMap}
use hier_kv_gateway.Api.Coalescer.{
  CoalescingConfig, SharedHandle, CoalesceStats, no_stats, RequestCoalescer, Attachment, bypass,
  waiter, leader, is_leader, count, new, is_full, attach, schedule_cleanup, after_await, wake,
}

-- A call with the future that its `produce` would make and the time; the end of a call's `await`;
-- the end of the sleep of a spawned task. A call that is dropped while it awaits does nothing more.
pub data Action (F : Type 0) : Type 0 where
  call : ℕ → F → ℕ → Action F
  resumed : Attachment F → ℕ → Action F
  woken : ℕ → Action F

module _ {F : Type 0} where
  unfoldable pub calls : List (Action F) → ℕ
  calls [] = 0
  calls (call key f now ∷ acts) = calls acts + 1
  calls (resumed a key ∷ acts) = calls acts
  calls (woken key ∷ acts) = calls acts

  -- The counters after these attachments.
  unfoldable pub count_all : List (Attachment F) → CoalesceStats → CoalesceStats
  count_all [] s = s
  count_all (a ∷ acts) s = count_all acts (count a s)

  -- The attachments whose call runs `produce`.
  unfoldable pub forwards : List (Attachment F) → ℕ
  forwards [] = 0
  forwards (bypass f ∷ acts) = forwards acts + 1
  forwards (waiter f ∷ acts) = forwards acts
  forwards (leader f ∷ acts) = forwards acts + 1

module _ {F : Type 0} where
  -- The counters count, modulo 2 ^ 64.
  unfoldable pub IsSum : List (Attachment F) → CoalesceStats → CoalesceStats → Type 0
  IsSum acts s t =
      ((t.leaders + t.bypassed) % 2 ^ 64 ≡ (s.leaders + s.bypassed + forwards acts) % 2 ^ 64)
      × ((t.waiters + forwards acts) % 2 ^ 64 ≡ (s.waiters + length acts) % 2 ^ 64)
      × ((t.forwards_saved + forwards acts) % 2 ^ 64 ≡ (s.forwards_saved + length acts) % 2 ^ 64)

  count_all-IsSum :
      (acts : List (Attachment F)) (s : CoalesceStats) → IsSum acts s (count_all acts s)
  unfolding IsSum count_all forwards
  count_all-IsSum [] s = omega arith
  count_all-IsSum (bypass f ∷ acts) s = omega (arith, count_all-IsSum acts (count (bypass f) s))
  count_all-IsSum (waiter f ∷ acts) s = omega (arith, count_all-IsSum acts (count (waiter f) s))
  count_all-IsSum (leader f ∷ acts) s = omega (arith, count_all-IsSum acts (count (leader f) s))

module _ {F M : Type 0} (dm : DashMap M ℕ_discrete (SharedHandle F)) (cfg : CoalescingConfig) where
  unfoldable pub run :
      List (Action F) → RequestCoalescer M → List (Attachment F) × RequestCoalescer M
  unfolding attach after_await wake
  run [] s = ([], s)
  run (call key f now ∷ acts) s =
      let (a, s') = attach dm cfg key f now s in let (rest, s'') = run acts s' in (a ∷ rest, s'')
  run (resumed a key ∷ acts) s = run acts (after_await dm cfg a key s)
  run (woken key ∷ acts) s = run acts (wake dm cfg key s)

  -- Whether an action removes the entry of the key.
  unfoldable pub removes : ℕ → Action F → Bool
  removes key (call k f now) = false
  removes key (resumed a k) = is_leader a && (cfg.ttl_ms == 0) && (k == key)
  removes key (woken k) = k == key

  abbrev pub NeverRemoves : ℕ → List (Action F) → Type 0
  NeverRemoves key [] = Unit
  NeverRemoves key (a ∷ acts) = (removes key a ≡ false) × NeverRemoves key acts

  attach-cases :
      (k : ℕ) (f : F) (now : ℕ) (s : RequestCoalescer M)
      → ((attach dm cfg k f now s).1.stats ≡ count (attach dm cfg k f now s).0 s.stats)
        × (((attach dm cfg k f now s).1.inflight ≡ s.inflight)
            ⊎ ((dm.get k s.inflight ≡ none)
                × ((attach dm cfg k f now s).1.inflight
                    ≡ dm.insert k (record { future = f; inserted_at = now }) s.inflight)))
  unfolding attach
  attach-cases k f now s = elim (Bool-cases (is_full dm cfg s)) [
    | inl e ↦ rw (attach, e) (refl, inl refl)
    | inr e ↦ elim (Option-cases (dm.get k s.inflight)) [
      | inl q ↦ rw (attach, e, q) (refl, inr (refl, refl))
      | inr (h, q) ↦ rw (attach, e, q) (refl, inl refl)
    ]
  ]

  some-none : (k : ℕ) (h : SharedHandle F) (m : M) → dm.get k m ≡ some h → dm.get k m ≢ none
  some-none k h m e q = ground (arith, e, q)

  attach-kept :
      (key : ℕ) (h : SharedHandle F) (k : ℕ) (f : F) (now : ℕ) (s : RequestCoalescer M)
      → dm.get key s.inflight ≡ some h
      → dm.get key (attach dm cfg k f now s).1.inflight ≡ some h
  attach-kept key h k f now s e = elim (attach-cases k f now s).1 [
    | inl q ↦ ap (λ m. dm.get key m) q ∙ e
    | inr (z, q) ↦ elim (ℕ_discrete k key) [
      | yes d ↦ absurd (some-none key h s.inflight e (subst (λ t. dm.get t s.inflight ≡ none) d z))
      | no d ↦ ap (λ m. dm.get key m) q ∙ dm.get-insert k key _ s.inflight ∙ ground (arith, d, e)
    ]
  ]

  removed-kept :
      (key k : ℕ) (h : SharedHandle F) (m : M)
      → (k == key) ≡ false
      → dm.get key m ≡ some h
      → dm.get key (dm.remove k m) ≡ some h
  removed-kept key k h m d e = dm.get-remove k key m ∙ other (ℕ_discrete k key)
    where
      other : (q : Dec (k ≡ key)) → ite q none (dm.get key m) ≡ some h
      other (yes q) = ground (arith, d, q)
      other (no q) = e

  resumed-kept :
      (key : ℕ) (h : SharedHandle F) (a : Attachment F) (k : ℕ) (s : RequestCoalescer M)
      → removes key (resumed a k) ≡ false
      → dm.get key s.inflight ≡ some h
      → dm.get key (after_await dm cfg a k s).inflight ≡ some h
  unfolding removes after_await schedule_cleanup
  resumed-kept key h a k s r e = elim (Bool-cases (is_leader a)) [
    | inr l ↦ rw (after_await, l) e
    | inl l ↦ elim (Bool-cases (cfg.ttl_ms == 0)) [
      | inr t ↦ rw (after_await, l, t) e
      | inl t ↦ rw (after_await, l, t) (removed-kept key k h s.inflight (ground (arith, r, l, t)) e)
    ]
  ]

  woken-kept :
      (key : ℕ) (h : SharedHandle F) (k : ℕ) (s : RequestCoalescer M)
      → removes key (woken k) ≡ false
      → dm.get key s.inflight ≡ some h
      → dm.get key (wake dm cfg k s).inflight ≡ some h
  unfolding removes wake
  woken-kept key h k s r e = elim (Bool-cases (contains ℕ_discrete k s.pending)) [
    | inr c ↦ rw (wake, c) e
    | inl c ↦ rw (wake, c) (removed-kept key k h s.inflight r e)
  ]

  run-kept :
      (key : ℕ) (h : SharedHandle F) (acts : List (Action F)) (s : RequestCoalescer M)
      → NeverRemoves key acts
      → dm.get key s.inflight ≡ some h
      → dm.get key (run acts s).1.inflight ≡ some h
  unfolding run
  run-kept key h [] s n e = e
  run-kept key h (call k f now ∷ acts) s (n, ns) e =
      run-kept key h acts (attach dm cfg k f now s).1 ns (attach-kept key h k f now s e)
  run-kept key h (resumed a k ∷ acts) s (n, ns) e =
      run-kept key h acts (after_await dm cfg a k s) ns (resumed-kept key h a k s n e)
  run-kept key h (woken k ∷ acts) s (n, ns) e =
      run-kept key h acts (wake dm cfg k s) ns (woken-kept key h k s n e)

  -- While no action removes the entry of a key, whatever else happens, every call with that key
  -- becomes a waiter of the forward that the entry holds, if the map is below its capacity then.
  pub attach-single_flight :
      (key : ℕ) (h : SharedHandle F) (acts : List (Action F)) (s : RequestCoalescer M) (f : F)
      (now : ℕ)
      → dm.get key s.inflight ≡ some h
      → NeverRemoves key acts
      → is_full dm cfg (run acts s).1 ≡ false
      → (attach dm cfg key f now (run acts s).1).0 ≡ waiter h.future
  unfolding attach
  attach-single_flight key h acts s f now e n c = rw (attach, c, run-kept key h acts s n e) refl

  resumed_stats :
      (a : Attachment F) (k : ℕ) (s : RequestCoalescer M)
      → (after_await dm cfg a k s).stats ≡ s.stats
  unfolding after_await schedule_cleanup
  resumed_stats a k s = elim (Bool-cases (is_leader a)) [
    | inr l ↦ rw (after_await, l) refl
    | inl l ↦ elim (Bool-cases (cfg.ttl_ms == 0)) [
      | inr t ↦ rw (after_await, l, t) refl
      | inl t ↦ rw (after_await, l, t) refl
    ]
  ]

  woken_stats : (k : ℕ) (s : RequestCoalescer M) → (wake dm cfg k s).stats ≡ s.stats
  unfolding wake
  woken_stats k s = elim (Bool-cases (contains ℕ_discrete k s.pending)) [
    | inr c ↦ rw (wake, c) refl
    | inl c ↦ rw (wake, c) refl
  ]

  run_counts :
      (acts : List (Action F)) (s : RequestCoalescer M)
      → ((run acts s).1.stats ≡ count_all (run acts s).0 s.stats)
        × (length (run acts s).0 ≡ calls acts)
  unfolding run count_all calls
  run_counts [] s = (refl, refl)
  run_counts (call k f now ∷ acts) s =
      let r = run_counts acts (attach dm cfg k f now s).1 in
      (
        r.0
            ∙ ap (λ t. count_all (run acts (attach dm cfg k f now s).1).0 t)
                (attach-cases k f now s).0,
        omega (arith, r.1),
      )
  run_counts (resumed a k ∷ acts) s =
      let r = run_counts acts (after_await dm cfg a k s) in
      (
        r.0 ∙ ap (λ t. count_all (run acts (after_await dm cfg a k s)).0 t) (resumed_stats a k s),
        r.1,
      )
  run_counts (woken k ∷ acts) s =
      let r = run_counts acts (wake dm cfg k s) in
      (r.0 ∙ ap (λ t. count_all (run acts (wake dm cfg k s)).0 t) (woken_stats k s), r.1)

  -- From no entries, after any calls, resumptions and wakings, modulo 2 ^ 64: the leaders and the
  -- bypassed calls are the forwards that were made, and the saved forwards with those made are the
  -- calls.
  pub run-forwards :
      (acts : List (Action F))
      → (((run acts (new dm cfg)).1.stats.leaders + (run acts (new dm cfg)).1.stats.bypassed)
            % 2 ^ 64
          ≡ forwards (run acts (new dm cfg)).0 % 2 ^ 64)
        × (((run acts (new dm cfg)).1.stats.forwards_saved + forwards (run acts (new dm cfg)).0)
              % 2 ^ 64
            ≡ calls acts % 2 ^ 64)
  unfolding IsSum
  run-forwards acts =
      let (e, n) = run_counts acts (new dm cfg) in
      let (l, w, f) =
        subst (IsSum (run acts (new dm cfg)).0 no_stats) (sym e)
          (count_all-IsSum (run acts (new dm cfg)).0 no_stats) in
      (omega (arith, l), omega (arith, f, n))

  -- Without a time to live, the next call with the key of a leader that has finished makes a forward
  -- of its own, if the map is below its capacity then; with one, it does so once the spawned task of
  -- the leader has woken.
  pub attach-fresh :
      (key : ℕ) (g f : F) (now : ℕ) (s : RequestCoalescer M) (t : RequestCoalescer M)
      → t ≡ (
          if cfg.ttl_ms == 0
          then after_await dm cfg (leader g) key s
          else wake dm cfg key (after_await dm cfg (leader g) key s))
      → is_full dm cfg t ≡ false
      → (attach dm cfg key f now t).0 ≡ leader f
  unfolding attach after_await schedule_cleanup wake contains
  attach-fresh key g f now s t e c =
      rw (attach, c, ap (λ u. dm.get key u.inflight) e ∙ gone (cfg.ttl_ms == 0) refl) refl
    where
      gone_from : (m : M) → dm.get key (dm.remove key m) ≡ none
      gone_from m = dm.get-remove key key m ∙ ground arith

      held : (l : List ℕ) → contains ℕ_discrete key (key ∷ l) ≡ true
      held l = ground arith

      gone :
          (b : Bool)
          → (cfg.ttl_ms == 0) ≡ b
          → dm.get key
              (if b
                then after_await dm cfg (leader g) key s
                else wake dm cfg key (after_await dm cfg (leader g) key s)).inflight
            ≡ none
      gone true z = rw (after_await, z) (gone_from s.inflight)
      gone false z = rw (schedule_cleanup, z) (rw (wake, held s.pending) (gone_from s.inflight))
