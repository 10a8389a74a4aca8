-- ===== src/Cluster/Gossip/Detector/Silence.antt =====
-- Sequences of events in which an instance answers or is silent.
use hier_kv_gateway.Prelude.{
  ℕ, ◌+◌, ◌≤◌, ◌<◌, ◌≡◌, refl, sym, ap, ◌∙◌, subst, false, some, List, [], ◌∷◌, ◌++◌, arith, ◌≢◌,
}
use hier_kv_gateway.Ids.{InstanceId}
use hier_kv_gateway.Cluster.Member.{MemberStatus, alive, dead, is_alive}
use hier_kv_gateway.Cluster.Gossip.Detector.{
  LoopEvent, gossip_tick, probe_tick, received, heartbeat_of, Opinion, doubt, detect, detect_all,
}
use hier_kv_gateway.Cluster.Gossip.Detector.Doubts.{
  is_dead, last_heard, hear-alive, Holds, hear-not_dead, doubt-not_dead, doubt-not_alive,
  doubt-late, doubt-last, doubt-time, hear-silent,
}

module _ {F J : Type 0} where
  -- Every probe comes at most `timeout` after the last heartbeat of `i` before it, the first of
  -- which is at `t`.
  abbrev pub AnswersWithin : ℕ → InstanceId → ℕ → List (LoopEvent F J) → Type 0
  AnswersWithin timeout i t [] = Unit
  AnswersWithin timeout i t (gossip_tick now shuffle ∷ evs) = AnswersWithin timeout i t evs
  AnswersWithin timeout i t (probe_tick now ∷ evs) =
      (now ≤ t + timeout) × AnswersWithin timeout i t evs
  AnswersWithin timeout i t (received now msg ∷ evs) =
      AnswersWithin timeout i (last_heard now i (heartbeat_of msg) t) evs

  -- No heartbeat of `i`.
  abbrev pub IsSilent : InstanceId → List (LoopEvent F J) → Type 0
  IsSilent i [] = Unit
  IsSilent i (gossip_tick now shuffle ∷ evs) = IsSilent i evs
  IsSilent i (probe_tick now ∷ evs) = IsSilent i evs
  IsSilent i (received now msg ∷ evs) = (heartbeat_of msg ≢ some i) × IsSilent i evs

  pub detect_all-alive :
      (pt st : ℕ) (i : InstanceId) (t : ℕ) (evs : List (LoopEvent F J))
      → AnswersWithin pt i t evs
      → (u : ℕ) × (detect_all pt st i evs (some (alive, t)) ≡ some (alive, u))
  unfolding detect_all detect doubt
  detect_all-alive pt st i t [] h = (t, refl)
  detect_all-alive pt st i t (gossip_tick now shuffle ∷ evs) h = detect_all-alive pt st i t evs h
  detect_all-alive pt st i t (probe_tick now ∷ evs) (b, h) =
      let (u, e) = detect_all-alive pt st i t evs h in (u, ground (arith, b, e))
  detect_all-alive pt st i t (received now msg ∷ evs) h =
      let (u, e) = detect_all-alive pt st i (last_heard now i (heartbeat_of msg) t) evs h in
      (u, ap (detect_all pt st i evs) (hear-alive now i (heartbeat_of msg) t) ∙ e)

  pub detect_all-not_dead :
      (pt st : ℕ) (i : InstanceId) (s : MemberStatus) (t : ℕ) (evs : List (LoopEvent F J))
      → AnswersWithin st i t evs
      → is_dead s ≡ false
      → Holds is_dead false (detect_all pt st i evs (some (s, t)))
  unfolding detect_all detect
  detect_all-not_dead pt st i s t [] h n = (s, t, refl, n)
  detect_all-not_dead pt st i s t (gossip_tick now shuffle ∷ evs) h n =
      detect_all-not_dead pt st i s t evs h n
  detect_all-not_dead pt st i s t (probe_tick now ∷ evs) (b, h) n =
      let (s', e, n') = doubt-not_dead now pt st s t b n in
      subst (λ o. Holds is_dead false (detect_all pt st i evs o)) (sym e)
        (detect_all-not_dead pt st i s' t evs h n')
  detect_all-not_dead pt st i s t (received now msg ∷ evs) h n =
      let (s', e, n') = hear-not_dead now i (heartbeat_of msg) s t n in
      subst (λ o. Holds is_dead false (detect_all pt st i evs o)) (sym e)
        (detect_all-not_dead pt st i s' (last_heard now i (heartbeat_of msg) t) evs h n')

  detect_all-not_alive :
      (pt st : ℕ) (i : InstanceId) (s : MemberStatus) (t : ℕ) (evs : List (LoopEvent F J))
      → IsSilent i evs
      → is_alive s ≡ false
      → (s' : MemberStatus) × (detect_all pt st i evs (some (s, t)) ≡ some (s', t))
        × (is_alive s' ≡ false)
  unfolding detect_all detect
  detect_all-not_alive pt st i s t [] h n = (s, refl, n)
  detect_all-not_alive pt st i s t (gossip_tick now shuffle ∷ evs) h n =
      detect_all-not_alive pt st i s t evs h n
  detect_all-not_alive pt st i s t (probe_tick now ∷ evs) h n =
      let (s', e, n') = doubt-not_alive now pt st s t n in
      let (s'', e', n'') = detect_all-not_alive pt st i s' t evs h n' in
      (s'', ap (detect_all pt st i evs) e ∙ e', n'')
  detect_all-not_alive pt st i s t (received now msg ∷ evs) (q, h) n =
      let (s', e, n') = detect_all-not_alive pt st i s t evs h n in
      (
        s',
        ap (detect_all pt st i evs) (hear-silent now i (heartbeat_of msg) (some (s, t)) q) ∙ e,
        n',
      )

  detect_all-silent :
      (pt st : ℕ) (i : InstanceId) (s : MemberStatus) (t : ℕ) (evs : List (LoopEvent F J))
      → IsSilent i evs
      → (s' : MemberStatus) × (detect_all pt st i evs (some (s, t)) ≡ some (s', t))
  unfolding detect_all detect
  detect_all-silent pt st i s t [] h = (s, refl)
  detect_all-silent pt st i s t (gossip_tick now shuffle ∷ evs) h =
      detect_all-silent pt st i s t evs h
  detect_all-silent pt st i s t (probe_tick now ∷ evs) h =
      let (s', e) = doubt-time now pt st s t in
      let (s'', e') = detect_all-silent pt st i s' t evs h in
      (s'', ap (detect_all pt st i evs) e ∙ e')
  detect_all-silent pt st i s t (received now msg ∷ evs) (q, h) =
      let (s', e) = detect_all-silent pt st i s t evs h in
      (s', ap (detect_all pt st i evs) (hear-silent now i (heartbeat_of msg) (some (s, t)) q) ∙ e)

  detect_all-dead :
      (pt st : ℕ) (i : InstanceId) (t : ℕ) (evs : List (LoopEvent F J))
      → IsSilent i evs
      → detect_all pt st i evs (some (dead, t)) ≡ some (dead, t)
  unfolding detect_all detect doubt
  detect_all-dead pt st i t [] h = refl
  detect_all-dead pt st i t (gossip_tick now shuffle ∷ evs) h = detect_all-dead pt st i t evs h
  detect_all-dead pt st i t (probe_tick now ∷ evs) h = detect_all-dead pt st i t evs h
  detect_all-dead pt st i t (received now msg ∷ evs) (q, h) =
      ap (detect_all pt st i evs) (hear-silent now i (heartbeat_of msg) (some (dead, t)) q)
      ∙ detect_all-dead pt st i t evs h

  detect_all-append :
      (pt st : ℕ) (i : InstanceId) (xs ys : List (LoopEvent F J)) (o : Opinion)
      → detect_all pt st i (xs ++ ys) o ≡ detect_all pt st i ys (detect_all pt st i xs o)
  unfolding detect_all
  detect_all-append pt st i [] ys o = refl
  detect_all-append pt st i (ev ∷ xs) ys o = detect_all-append pt st i xs ys (detect pt st i ev o)

  pub detect_all-two_probes :
      (pt st : ℕ) (i : InstanceId) (s : MemberStatus) (t n1 n2 : ℕ)
      (xs ys zs : List (LoopEvent F J))
      → IsSilent i xs
      → IsSilent i ys
      → IsSilent i zs
      → t + pt < n1
      → t + st < n2
      → detect_all pt st i (xs ++ (probe_tick n1 ∷ (ys ++ (probe_tick n2 ∷ zs)))) (some (s, t))
        ≡ some (dead, t)
  unfolding detect_all detect
  detect_all-two_probes pt st i s t n1 n2 xs ys zs hx hy hz b c =
      let rest = ys ++ (probe_tick n2 ∷ zs) in
      let (s1, e1) = detect_all-silent pt st i s t xs hx in
      let (s2, e2, a2) = doubt-late n1 pt st s1 t b in
      let (s3, e3, a3) = detect_all-not_alive pt st i s2 t ys hy a2 in
      detect_all-append pt st i xs (probe_tick n1 ∷ rest) (some (s, t))
      ∙ ap (detect_all pt st i (probe_tick n1 ∷ rest)) e1
      ∙ ap (detect_all pt st i rest) e2
      ∙ detect_all-append pt st i ys (probe_tick n2 ∷ zs) (some (s2, t))
      ∙ ap (detect_all pt st i (probe_tick n2 ∷ zs)) e3
      ∙ ap (detect_all pt st i zs) (doubt-last n2 pt st s3 t c a3)
      ∙ detect_all-dead pt st i t zs hz
