-- ===== src/Routing/RoundRobin/Rotation.antt =====
-- The order of the candidates, and how it turns from call to call.
use hier_kv_gateway.Prelude.{
  ℕ, zero, suc, ◌+◌, ◌-◌, ◌%◌, ◌^◌, ◌≤◌, ◌≡◌, refl, sym, ap, ◌∙◌, Option, none, some, List, [], ◌∷◌,
  ◌++◌, length, get_elem?, drop-get_elem?, gather, gather_all, take, drop, arith, Option-cases, inl,
  inr, map,
}
use native.Mathlib.Nat.{mod-eq_of_lt, mod-lt, mod-add-mod}
use hier_kv_gateway.Ids.{BackendId}
use hier_kv_gateway.Routing.RoundRobin.{ScoredBackend, rank, evaluate}

-- The candidates from the one at `k` on, wrapping round.
abbrev pub rotated : ℕ → List BackendId → List BackendId
rotated k xs = drop k xs ++ take k xs

module _ {F : Type 0} (as_f64 : ℕ → F) (neg : F → F) where
  -- The scores of a ranking: `n` at the first, one less at each next.
  unfoldable pub scored : ℕ → List BackendId → List (ScoredBackend F)
  scored n [] = []
  scored n (b ∷ bs) =
      record { backend_id = b; score = as_f64 n; raw_cost = neg (as_f64 n); meta_version = 0 }
      ∷ scored (n - 1) bs

  abbrev scored_some : ℕ → Option (List BackendId) → Option (List (ScoredBackend F))
  scored_some n none = none
  scored_some n (some bs) = some (scored n bs)

  rank-gather :
      (xs : List BackendId) (n start count offset : ℕ)
      → rank as_f64 neg xs n start count offset
        ≡ scored_some (n - offset) (gather xs n start count offset)
  unfolding rank gather scored
  rank-gather xs n start zero offset = refl
  rank-gather xs n start (suc count) offset =
      let rest = rank-gather xs n start count (suc offset) in
      elim (Option-cases (get_elem? xs ((start + offset) % n))) [
        | inl e ↦ ground (arith, e)
        | inr (b, e) ↦ elim (Option-cases (gather xs n start count (suc offset))) [
          | inl f ↦ ground (arith, e, f, rest)
          | inr (bs, f) ↦ ground (
            arith,
            e,
            f,
            rest,
            ap (λ k. scored k bs) {x = n - offset - 1} {y = n - suc offset} (omega arith),
          )
        ]
      ]

  -- A call on some candidates ranks all of them, from the one at the cursor on and wrapping round,
  -- with the scores `n`, `n - 1` and so on down to 1 for `n` candidates; it never panics, and
  -- leaves the next cursor.
  pub evaluate_lem :
      (cursor : ℕ) (c : BackendId) (cs : List BackendId)
      → evaluate as_f64 neg cursor (c ∷ cs) ≡ (
        (cursor + 1) % 2 ^ 64,
        some (scored (length (c ∷ cs)) (rotated (cursor % length (c ∷ cs)) (c ∷ cs))),
      )
  unfolding evaluate
  evaluate_lem cursor c cs =
      let n = length (c ∷ cs) in
      ap (λ r. ((cursor + 1) % 2 ^ 64, r))
        (rank-gather (c ∷ cs) n (cursor % n) n 0
          ∙ ap (λ k. scored_some k (gather (c ∷ cs) n (cursor % n) n 0)) {x = n - 0} {y = n}
              (omega arith)
          ∙ ap (λ g. scored_some n g)
              (gather_all (c ∷ cs) (cursor % n)
                (omega (arith, mod-lt cursor {m = n} (omega arith)))))

  -- The first choices of `count` calls, one after the other.
  unfoldable pub first_of : Option (List (ScoredBackend F)) → Option BackendId
  first_of none = none
  first_of (some []) = none
  first_of (some (s ∷ ss)) = some s.backend_id

  unfoldable pub choices : ℕ → ℕ → List BackendId → List (Option BackendId)
  unfolding first_of
  choices zero cursor xs = []
  choices (suc count) cursor xs =
      let (next, ranked) = evaluate as_f64 neg cursor xs in first_of ranked ∷ choices count next xs

  first_choice :
      (cursor : ℕ) (c b : BackendId) (cs : List BackendId)
      → get_elem? (c ∷ cs) (cursor % length (c ∷ cs)) ≡ some b
      → first_of (evaluate as_f64 neg cursor (c ∷ cs)).1 ≡ some b
  unfolding first_of scored
  first_choice cursor c b cs e =
      let n = length (c ∷ cs) in
      let (b', e', split) =
        drop-get_elem? (c ∷ cs) (cursor % n) (mod-lt cursor {m = n} (omega arith)) in
      ap (λ r. first_of r.1) (evaluate_lem cursor c cs)
      ∙ ap (λ l. first_of (some (scored n (l ++ take (cursor % n) (c ∷ cs))))) split
      ∙ sym e'
      ∙ e

  gather_mod :
      (xs : List BackendId) (n start count offset : ℕ)
      → gather xs n start count offset ≡ gather xs n (start % n) count offset
  unfolding gather
  gather_mod xs n start zero offset = refl
  gather_mod xs n start (suc count) offset =
      ground (arith, gather_mod xs n start count (suc offset), mod-add-mod start n offset)

  choices-gather :
      (c : BackendId) (cs ys : List BackendId) (start count offset : ℕ)
      → start + offset + count ≤ 2 ^ 64
      → gather (c ∷ cs) (length (c ∷ cs)) start count offset ≡ some ys
      → choices count ((start + offset) % 2 ^ 64) (c ∷ cs) ≡ map some ys
  unfolding gather choices
  choices-gather c cs ys start zero offset bound e = ground (arith, e)
  choices-gather c cs ys start (suc count) offset bound e =
      elim (Option-cases (get_elem? (c ∷ cs) ((start + offset) % n))) [
        | inl f ↦ ground (arith, e, f)
        | inr (b, f) ↦ elim (Option-cases (gather (c ∷ cs) n start count (suc offset))) [
          | inl g ↦ ground (arith, e, f, g)
          | inr (bs, g) ↦
              let same : ys ≡ b ∷ bs = ground (arith, e, f, g) in
              let pick : first_of (evaluate as_f64 neg cursor (c ∷ cs)).1 ≡ some b =
                first_choice cursor c b cs (
                  ap (λ k. get_elem? (c ∷ cs) (k % n)) {x = cursor} (mod-eq_of_lt (omega arith))
                  ∙ f) in
              ap (λ o. o ∷ choices count (evaluate as_f64 neg cursor (c ∷ cs)).0 (c ∷ cs)) pick
              ∙ ap (λ k. some b ∷ choices count k (c ∷ cs)) next
              ∙ ap (λ l. some b ∷ l)
                  (choices-gather c cs bs start count (suc offset) (omega arith) g)
              ∙ ap (λ l. map some l) (sym same)
        ]
      ]
    where
      n : ℕ
      n = length (c ∷ cs)

      cursor : ℕ
      cursor = (start + offset) % 2 ^ 64

      next : (evaluate as_f64 neg cursor (c ∷ cs)).0 ≡ (start + suc offset) % 2 ^ 64
      next =
          ap (λ r. r.0) (evaluate_lem cursor c cs)
          ∙ mod-add-mod (start + offset) (2 ^ 64) 1
          ∙ ap (λ k. k % 2 ^ 64) {y = start + suc offset} (omega arith)

  -- Unless the cursor wraps round at 2 ^ 64 on the way, as many calls in a row as there are
  -- candidates choose each candidate first once: in the order of the candidates, from the one at
  -- the cursor on.
  pub choices_lem :
      (cursor : ℕ) (c : BackendId) (cs : List BackendId)
      → cursor + length (c ∷ cs) ≤ 2 ^ 64
      → choices (length (c ∷ cs)) cursor (c ∷ cs)
        ≡ map some (rotated (cursor % length (c ∷ cs)) (c ∷ cs))
  choices_lem cursor c cs bound =
      let n = length (c ∷ cs) in
      ap (λ k. choices n k (c ∷ cs)) {x = cursor} {y = (cursor + 0) % 2 ^ 64}
        (sym (mod-eq_of_lt (omega arith)) ∙ ap (λ k. k % 2 ^ 64) {x = cursor} (omega arith))
      ∙ choices-gather c cs (rotated (cursor % n) (c ∷ cs)) cursor n 0 (omega arith) (
          gather_mod (c ∷ cs) n cursor n 0
          ∙ gather_all (c ∷ cs) (cursor % n) (omega (arith, mod-lt cursor {m = n} (omega arith))))
