-- ===== src/Metadata/CkfProducer/Buckets.antt =====
-- What insertions, evictions and deletions do to the fingerprints of the two candidate buckets.
use hier_kv_gateway.Prelude.{
  ℕ, zero, suc, ◌+◌, ◌%◌, ◌^◌, ◌<◌, ◌≡◌, ◌≢◌, refl, sym, ap, ◌∙◌, subst, fun_ext, Bool, false, ◌||◌,
  Option, none, some, List, [], ◌∷◌, arith, if◌then◌else◌, ◌==◌, ◌⊎◌, inl, inr, ℕ_discrete,
}
use hier_kv_gateway.Metadata.CuckooFilter.{alt_index, slot, with_slot}
use hier_kv_gateway.Metadata.CuckooFilter.Slots.{
  one_if, slot_count, slot_count-with_slot, with_slot-lt, try_insert-cases, slot-lt,
}
use hier_kv_gateway.Metadata.CuckooFilter.Alternate.{alt_index-lt, alt_index_twice}
use hier_kv_gateway.Metadata.CkfProducer.{set_bucket, roll_back, next_random, kicks}

abbrev pub IsPacked : (ℕ → ℕ) → Type 0
IsPacked buckets = (i : ℕ) → buckets i < 2 ^ 64

pub set_bucket-IsPacked :
    (buckets : ℕ → ℕ) (c v : ℕ) → IsPacked buckets → v < 2 ^ 64 → IsPacked (set_bucket buckets c v)
set_bucket-IsPacked buckets c v h hv i = ground (arith, h i)

-- Writing back what a bucket held.
set_bucket_back :
    (buckets : ℕ → ℕ) (c v : ℕ) → set_bucket (set_bucket buckets c v) c (buckets c) ≡ buckets
set_bucket_back buckets c v = fun_ext λ j. back j
  where
    back : (j : ℕ) → set_bucket (set_bucket buckets c v) c (buckets c) j ≡ buckets j
    back j = ground arith

-- One bucket of a pair: `m` fingerprints went and `n` came.
set_bucket-slot_count :
    (buckets : ℕ → ℕ) (c v j x m n : ℕ)
    → slot_count v x + m ≡ slot_count (buckets c) x + n
    → slot_count (set_bucket buckets c v j) x + (if c == j then m else 0)
      ≡ slot_count (buckets j) x + (if c == j then n else 0)
set_bucket-slot_count buckets c v j x m n h = ground (arith, h)

abbrev pub was_touched : ℕ → List (ℕ × ℕ) → Bool
was_touched j [] = false
was_touched j ((i, before) ∷ touched) = (i == j) || was_touched j touched

module _ (xxh3 : List ℕ → ℕ → ℕ) where
  -- How many slots of bucket `a` and of its alternate for the fingerprint `x` hold `x`.
  unfoldable pub pair_count : (ℕ → ℕ) → ℕ → ℕ → ℕ
  pair_count buckets a x = slot_count (buckets a) x + slot_count (buckets (alt_index xxh3 a x)) x

  -- `n` for each bucket of the pair that is `c`.
  abbrev pub share : ℕ → ℕ → ℕ → ℕ → ℕ
  share c a x n = (if c == a then n else 0) + (if c == alt_index xxh3 a x then n else 0)

  pub set_bucket-pair_count :
      (buckets : ℕ → ℕ) (c v a x m n : ℕ)
      → slot_count v x + m ≡ slot_count (buckets c) x + n
      → pair_count (set_bucket buckets c v) a x + share c a x m
        ≡ pair_count buckets a x + share c a x n
  unfolding pair_count
  set_bucket-pair_count buckets c v a x m n h = omega (
    arith,
    set_bucket-slot_count buckets c v a x m n h,
    set_bucket-slot_count buckets c v (alt_index xxh3 a x) x m n h,
  )

  -- A fingerprint stays in its pair when it moves to its alternate bucket.
  pub share-alt_index :
      (c a e x : ℕ)
      → c < 65536
      → a < 65536
      → share (alt_index xxh3 c e) a x (one_if (e == x)) ≡ share c a x (one_if (e == x))
  share-alt_index c a e x hc ha = elim (ℕ_discrete e x) [
    | no d ↦ ground arith
    | yes p ↦
        subst
          (λ t. share (alt_index xxh3 c e) a t (one_if (e == t)) ≡ share c a t (one_if (e == t))) p
          (crossed (alt_index xxh3 c e) (alt_index xxh3 a e) c a (one_if (e == e))
            (λ q. sym (alt_index_twice xxh3 c e hc) ∙ ap (λ t. alt_index xxh3 t e) q)
            (λ q. ap (λ t. alt_index xxh3 t e) q ∙ alt_index_twice xxh3 a e ha)
            (λ q.
              sym (alt_index_twice xxh3 c e hc)
              ∙ ap (λ t. alt_index xxh3 t e) q
              ∙ alt_index_twice xxh3 a e ha)
            (λ q. ap (λ t. alt_index xxh3 t e) q))
  ]
    where
      crossed :
          (c' a' c a n : ℕ)
          → (c' ≡ a → c ≡ a')
          → (c ≡ a' → c' ≡ a)
          → (c' ≡ a' → c ≡ a)
          → (c ≡ a → c' ≡ a')
          → (if c' == a then n else 0) + (if c' == a' then n else 0)
            ≡ (if c == a then n else 0) + (if c == a' then n else 0)
      crossed c' a' c a n f g h k = ground arith

  -- The buckets after `fp` has come into bucket `c` or its alternate.
  abbrev pub Gained : (ℕ → ℕ) → (ℕ → ℕ) → ℕ → ℕ → Type 0
  Gained before after c fp =
      (a x : ℕ)
      → a < 65536
      → 0 < x
      → pair_count after a x ≡ pair_count before a x + share c a x (one_if (fp == x))

  -- A run of evictions that fails rolls them back; one that succeeds brings the fingerprint in and
  -- lists the buckets that it changes.
  abbrev pub KicksCases :
      (ℕ → ℕ) → ℕ → ℕ → List (ℕ × ℕ) → (ℕ → ℕ) × ℕ × Option (ℕ × List (ℕ × ℕ)) → Type 0
  KicksCases buckets c fp touched r =
      ((r.2 ≡ none) × (r.0 ≡ roll_back touched buckets))
      ⊎ ((i : ℕ) × (t : List (ℕ × ℕ)) × (r.2 ≡ some (i, t))
          × IsPacked r.0
          × Gained buckets r.0 c fp
          × ((j : ℕ)
              → i ≢ j
              → was_touched j t ≡ false
              → (r.0 j ≡ buckets j) × (was_touched j touched ≡ false)))

  -- A write that brings in one fingerprint.
  pub set_bucket-Gained :
      (buckets : ℕ → ℕ) (c v fp : ℕ)
      → ((x : ℕ) → 0 < x → slot_count v x ≡ slot_count (buckets c) x + one_if (fp == x))
      → Gained buckets (set_bucket buckets c v) c fp
  set_bucket-Gained buckets c v fp g a x ha hx =
      ground
        (arith, set_bucket-pair_count buckets c v a x 0 (one_if (fp == x)) (omega (arith, g x hx)))

  -- One round: `fp` takes the place of `e` in bucket `c`, and `e` comes into its own alternate.
  Gained-trans :
      (buckets after last : ℕ → ℕ) (c i fp : ℕ)
      → c < 65536
      → i < 4
      → fp < 2 ^ 16
      → after ≡ set_bucket buckets c (with_slot (buckets c) i fp)
      → Gained after last (alt_index xxh3 c (slot (buckets c) i)) (slot (buckets c) i)
      → Gained buckets last c fp
  Gained-trans buckets after last c i fp hc hi hf e g a x ha hx =
      let old = slot (buckets c) i in
      omega (
        arith,
        ap (λ t. pair_count t a x) e,
        g a x ha hx,
        share-alt_index c a old x hc ha,
        set_bucket-pair_count buckets c (with_slot (buckets c) i fp) a x (one_if (old == x))
            (one_if (fp == x)) (slot_count-with_slot (buckets c) i fp x hi hf),
      )

  unchanged :
      (buckets : ℕ → ℕ) (c v j : ℕ) (touched : List (ℕ × ℕ)) (b : ℕ)
      → was_touched j ((c, b) ∷ touched) ≡ false
      → (set_bucket buckets c v j ≡ buckets j) × (was_touched j touched ≡ false)
  unchanged buckets c v j touched b h = (ground (arith, h), ground (arith, h))

  kicks_round :
      (buckets : ℕ → ℕ) (c i fp : ℕ) (touched : List (ℕ × ℕ))
      (r : (ℕ → ℕ) × ℕ × Option (ℕ × List (ℕ × ℕ)))
      → c < 65536
      → i < 4
      → fp < 2 ^ 16
      → KicksCases
          (set_bucket buckets c (with_slot (buckets c) i fp))
          (alt_index xxh3 c (slot (buckets c) i))
          (slot (buckets c) i)
          ((c, buckets c) ∷ touched)
          r
      → KicksCases buckets c fp touched r
  unfolding roll_back
  kicks_round buckets c i fp touched r hc hi hf (inl (q, b)) = inl (
    q,
    b ∙ ap (λ t. roll_back touched t) (set_bucket_back buckets c (with_slot (buckets c) i fp)),
  )
  kicks_round buckets c i fp touched r hc hi hf (inr (k, t, q, hp, g, u)) = inr (
    k,
    t,
    q,
    hp,
    Gained-trans buckets _ r.0 c i fp hc hi hf refl g,
    λ j d z.
        let w =
          unchanged buckets c (with_slot (buckets c) i fp) j touched (buckets c) (u j d z).1 in
        ((u j d z).0 ∙ w.0, w.1),
  )

  pub kicks-cases :
      (n : ℕ) (buckets : ℕ → ℕ) (rng c fp : ℕ) (touched : List (ℕ × ℕ))
      → IsPacked buckets
      → c < 65536
      → fp < 2 ^ 16
      → KicksCases buckets c fp touched (kicks xxh3 n buckets rng c fp touched)
  unfolding kicks
  kicks-cases zero buckets rng c fp touched hp hc hf = inl (refl, refl)
  kicks-cases (suc n) buckets rng c fp touched hp hc hf =
      let i = (next_random rng).0 % 4 in
      let e = slot (buckets c) i in
      let after = set_bucket buckets c (with_slot (buckets c) i fp) in
      let next = alt_index xxh3 c e in
      let packed : IsPacked after =
        set_bucket-IsPacked buckets c _ hp
          (with_slot-lt (buckets c) i fp (hp c) (omega arith) hf) in
      elim (try_insert-cases (after next) e (packed next) (slot-lt (buckets c) i)) [
        | inl (q, _) ↦
            rw (kicks, q)
              (kicks_round buckets c i fp touched
                (kicks xxh3 n after (next_random rng).1 next e ((c, buckets c) ∷ touched)) hc
                (omega arith) hf
                (kicks-cases n after (next_random rng).1 next e ((c, buckets c) ∷ touched) packed
                  (alt_index-lt xxh3 c e) (slot-lt (buckets c) i)))
        | inr (v, q, hv, g) ↦
            rw (kicks, q)
              (kicks_round buckets c i fp touched
                (
                  set_bucket after next v,
                  (next_random rng).1,
                  some (next, (c, buckets c) ∷ touched),
                )
                hc (omega arith) hf
                (inr (
                  next,
                  (c, buckets c) ∷ touched,
                  refl,
                  set_bucket-IsPacked after next v packed hv,
                  set_bucket-Gained after next v e g,
                  λ j d z. (other after next v j d, z),
                )))
      ]
    where
      other : (b : ℕ → ℕ) (k v j : ℕ) → k ≢ j → set_bucket b k v j ≡ b j
      other b k v j d = ground (arith, d)
