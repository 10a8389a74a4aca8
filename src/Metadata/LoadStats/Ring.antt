-- ===== src/Metadata/LoadStats/Ring.antt =====
-- The ring buffer holds the last samples, in the order they were pushed.
use hier_kv_gateway.Prelude.{
  ℕ, zero, suc, ◌+◌, ◌-◌, ◌%◌, ◌≤◌, ◌<◌, ◌≡◌, refl, sym, ap, ◌∙◌, ◌⊎◌, inl, inr, Option, none, some,
  List, [], ◌∷◌, ◌++◌, length, length-append, set, gather, gather_all, take, drop, drop-get_elem?,
  drop_all, append-nil, append_assoc, arith, ℕ_discrete, subst,
}
use native.Mathlib.Nat.{mod-eq_of_lt, mod-lt, mod_self}
use hier_kv_gateway.Metadata.LoadStats.{RingBuffer, new_ring, push, snapshot}

-- The last `n` elements.
abbrev pub last_of : {T : Type 0} → ℕ → List T → List T
last_of n xs = drop (length xs - n) xs

-- What a buffer of this capacity is after the items `xs`.
pub record IsRing {T : Type 0} (n : ℕ) (xs : List T) (r : RingBuffer T) : Type 0 where
  pub capacity : r.capacity ≡ n
  pub size : r.len ≡ length r.buf
  pub holds :
      ((length r.buf < n) × (r.buf ≡ xs) × (r.head ≡ 0))
      ⊎ ((length r.buf ≡ n)
          × (r.head < n)
          × (n ≤ length xs)
          × (drop r.head r.buf ++ take r.head r.buf ≡ last_of n xs))

unfoldable pub push_all : {T : Type 0} → RingBuffer T → List T → Option (RingBuffer T)
push_all r [] = some r
push_all r (x ∷ xs) = elim (push r x) [ none ↦ none | some r' ↦ push_all r' xs ]

module _ {T : Type 0} where
  drop-snoc :
      (k : ℕ) (xs rest : List T) (x y : T)
      → drop k xs ≡ y ∷ rest
      → drop (suc k) (xs ++ x ∷ []) ≡ rest ++ x ∷ []
  drop-snoc zero [] rest x y e = cc
  drop-snoc zero (z ∷ xs) rest x y e = cc
  drop-snoc (suc k) [] rest x y e = cc
  drop-snoc (suc k) (z ∷ xs) rest x y e = drop-snoc k xs rest x y e

  drop-set : (l : List T) (h : ℕ) (x : T) → drop (suc h) (set l h x) ≡ drop (suc h) l
  drop-set [] h x = refl
  drop-set (y ∷ l) zero x = refl
  drop-set (y ∷ l) (suc h) x = drop-set l h x

  take-set :
      (l : List T) (h : ℕ) (x : T) → h < length l → take (suc h) (set l h x) ≡ take h l ++ x ∷ []
  take-set [] h x lt = elim lt [ ]
  take-set (y ∷ l) zero x lt = refl
  take-set (y ∷ l) (suc h) x lt = ap (λ t. y ∷ t) (take-set l h x (omega arith))

  length-set : (l : List T) (h : ℕ) (x : T) → length (set l h x) ≡ length l
  length-set [] h x = refl
  length-set (y ∷ l) zero x = refl
  length-set (y ∷ l) (suc h) x = ap suc (length-set l h x)

  take_all : (l : List T) (k : ℕ) → k ≡ length l → take k l ≡ l
  take_all [] zero e = refl
  take_all [] (suc k) e = refl
  take_all (y ∷ l) zero e = absurd (omega arith)
  take_all (y ∷ l) (suc k) e = ap (λ t. y ∷ t) (take_all l k (omega arith))

  -- Overwriting the oldest element turns the reading order by one.
  turned :
      (l : List T) (h n : ℕ) (x : T)
      → length l ≡ n
      → h < n
      → drop ((h + 1) % n) (set l h x) ++ take ((h + 1) % n) (set l h x)
        ≡ (drop (suc h) l ++ take h l) ++ x ∷ []
  turned l h n x e lt = elim (ℕ_discrete (suc h) n) [
    | no p ↦
        ap (λ k. drop k (set l h x) ++ take k (set l h x)) {y = suc h}
          (mod-eq_of_lt (omega arith) ∙ omega arith)
        ∙ ap (λ t. t ++ take (suc h) (set l h x)) (drop-set l h x)
        ∙ ap (λ t. drop (suc h) l ++ t) (take-set l h x (omega arith))
        ∙ sym (append_assoc (drop (suc h) l) (take h l) (x ∷ []))
    | yes p ↦
        ap (λ k. drop k (set l h x) ++ take k (set l h x)) {y = 0}
          (ap (λ k. k % n) {y = n} (omega arith) ∙ mod_self n)
        ∙ append-nil (set l h x)
        ∙ sym (take_all (set l h x) (suc h) (omega (arith, length-set l h x)))
        ∙ take-set l h x (omega arith)
        ∙ ap (λ t. (t ++ take h l) ++ x ∷ [])
            (sym (drop_all l) ∙ ap (λ k. drop k l) {y = suc h} (omega arith))
  ]

  pub new_ring-IsRing : (n : ℕ) → 0 < n → IsRing {T = T} n [] (new_ring n)
  new_ring-IsRing n h = record { capacity = refl; size = refl; holds = inl (h, refl, refl) }

  push_room :
      (n : ℕ) (xs : List T) (r : RingBuffer T) (x : T)
      → IsRing n xs r
      → (length r.buf < n) × (r.buf ≡ xs) × (r.head ≡ 0)
      → (r' : RingBuffer T) × (push r x ≡ some r') × IsRing n (xs ++ x ∷ []) r'
  unfolding push
  push_room n xs r x v (lt, same, start) =
      let r' : RingBuffer T = record r { buf = r.buf ++ x ∷ []; len = length (r.buf ++ x ∷ []) } in
      let grown : r.buf ++ x ∷ [] ≡ xs ++ x ∷ [] = ap (λ l. l ++ x ∷ []) same in
      (
        r',
        ground (arith, v.capacity),
        record {
          capacity = v.capacity;
          size = refl;
          holds = elim (ℕ_discrete (suc (length r.buf)) n) [
            | no p ↦ inl (omega (arith, length-append r.buf (x ∷ [])), grown, start)
            | yes p ↦ inr (
              omega (arith, length-append r.buf (x ∷ [])),
              omega arith,
              omega (arith, length-append r.buf (x ∷ []), ap length grown),
              ap (λ k. drop k (r.buf ++ x ∷ []) ++ take k (r.buf ++ x ∷ [])) start
                  ∙ append-nil (r.buf ++ x ∷ [])
                  ∙ grown
                  ∙ ap (λ k. drop k (xs ++ x ∷ [])) {x = 0}
                      (omega (arith, length-append r.buf (x ∷ []), ap length grown)),
            )
          ];
        },
      )

  push_full :
      (n : ℕ) (xs : List T) (r : RingBuffer T) (x : T)
      → IsRing n xs r
      → (length r.buf ≡ n)
        × (r.head < n)
        × (n ≤ length xs)
        × (drop r.head r.buf ++ take r.head r.buf ≡ last_of n xs)
      → (r' : RingBuffer T) × (push r x ≡ some r') × IsRing n (xs ++ x ∷ []) r'
  unfolding push
  push_full n xs r x v (full, lt, many, window) =
      let (old, e, split) = drop-get_elem? r.buf r.head (omega arith) in
      let r' : RingBuffer T = record r {
        buf = set r.buf r.head x;
        head = (r.head + 1) % r.capacity;
        len = r.capacity;
      } in
      let rest = drop (suc r.head) r.buf ++ take r.head r.buf in
      let shifted : drop (suc (length xs - n)) (xs ++ x ∷ []) ≡ rest ++ x ∷ [] =
        drop-snoc (length xs - n) xs rest x old
          (sym window ∙ ap (λ l. l ++ take r.head r.buf) split) in
      (
        r',
        ground (arith, v.capacity, e),
        record {
          capacity = v.capacity;
          size = omega (arith, v.capacity, length-set r.buf r.head x);
          holds = inr (
            omega (arith, length-set r.buf r.head x),
            rw v.capacity (mod-lt (r.head + 1) (omega arith)),
            omega (arith, length-append xs (x ∷ [])),
            ap
                  (λ c.
                    drop ((r.head + 1) % c) (set r.buf r.head x)
                    ++ take ((r.head + 1) % c) (set r.buf r.head x))
                  v.capacity
                ∙ turned r.buf r.head n x full lt
                ∙ sym shifted
                ∙ ap (λ k. drop k (xs ++ x ∷ [])) {x = suc (length xs - n)}
                    (omega (arith, length-append xs (x ∷ []))),
          );
        },
      )

  pub push-IsRing :
      (n : ℕ) (xs : List T) (r : RingBuffer T) (x : T)
      → IsRing n xs r
      → (r' : RingBuffer T) × (push r x ≡ some r') × IsRing n (xs ++ x ∷ []) r'
  push-IsRing n xs r x v = elim v.holds [
    | inl f ↦ push_room n xs r x v f
    | inr g ↦ push_full n xs r x v g
  ]

  pub snapshot-IsRing :
      (n : ℕ) (xs : List T) (r : RingBuffer T) → IsRing n xs r → snapshot r ≡ some (last_of n xs)
  unfolding snapshot
  snapshot-IsRing n xs r v = elim v.holds [
    | inl (lt, same, start) ↦
        ground (arith, v.capacity)
        ∙ ap some (same ∙ ap (λ k. drop k xs) {x = 0} (omega (arith, ap length same)))
    | inr (full, lt, many, window) ↦
        ground (arith, v.capacity)
        ∙ ap (λ c. gather r.buf c r.head c 0) (v.capacity ∙ sym full)
        ∙ gather_all r.buf r.head (omega arith)
        ∙ ap some window
  ]

  pub push_all-IsRing :
      (n : ℕ) (ys xs : List T) (r : RingBuffer T)
      → IsRing n xs r
      → (r' : RingBuffer T) × (push_all r ys ≡ some r') × IsRing n (xs ++ ys) r'
  unfolding push_all
  push_all-IsRing n [] xs r v = (r, refl, subst (λ l. IsRing n l r) (sym (append-nil xs)) v)
  push_all-IsRing n (y ∷ ys) xs r v =
      let (r1, e1, v1) = push-IsRing n xs r y v in
      let (r2, e2, v2) = push_all-IsRing n ys (xs ++ y ∷ []) r1 v1 in
      (r2, rw (push_all, e1) e2, subst (λ l. IsRing n l r2) (append_assoc xs (y ∷ []) ys) v2)

  -- A ring buffer of a capacity `n` above zero takes any number of items without a panic, and its
  -- snapshot is then the last `n` of them, oldest first.
  pub snapshot-push_all :
      (n : ℕ) (xs : List T)
      → 0 < n
      → (r : RingBuffer T) × (push_all (new_ring n) xs ≡ some r)
        × (snapshot r ≡ some (last_of n xs))
  snapshot-push_all n xs h =
      let (r, e, v) = push_all-IsRing n xs [] (new_ring n) (new_ring-IsRing n h) in
      (r, e, snapshot-IsRing n xs r v)
