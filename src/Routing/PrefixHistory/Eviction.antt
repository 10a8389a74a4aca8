-- ===== src/Routing/PrefixHistory/Eviction.antt =====
-- A dispatch never leaves more entries than the capacity.
use hier_kv_gateway.Prelude.{
  ℕ, zero, suc, ◌+◌, ◌-◌, ◌≤◌, ◌≡◌, ◌≢◌, refl, List, [], ◌∷◌, leb, length, take, arith, ℕ_discrete,
  Bool-cases, inl, inr, In, Distinct, sym, subst, ◌⊎◌, ap,
}
use hier_kv_gateway.Ids.{BackendId}
use hier_kv_gateway.HashMap.{insert, remove, keys}
use hier_kv_gateway.Routing.PrefixHistory.{
  Entries, PrefixReuseHistory, stamps, remove_all, bump, bump_all, compute_prefix_hashes,
  evict_if_needed, record_dispatch,
}

-- What the documentation of `sort_unstable_by_key` promises, as far as it is used here: the result
-- holds the same pairs.
pub record IsReordering (sort : List (ℕ × ℕ) → List (ℕ × ℕ)) : Type 0 where
  pub same_length : (l : List (ℕ × ℕ)) → length (sort l) ≡ length l
  pub members : (k : ℕ) (l : List (ℕ × ℕ)) → In k (keys (sort l)) → In k (keys l)
  pub distinct : (l : List (ℕ × ℕ)) → Distinct (keys l) → Distinct (keys (sort l))

module _ {V : Type 0} where
  not-In-remove_self : (k : ℕ) (m : List (ℕ × V)) → ¬ In k (keys (remove ℕ_discrete k m))
  unfolding remove
  not-In-remove_self k [] i = i
  not-In-remove_self k ((j, v) ∷ m) i = ground (arith, not-In-remove_self k m)

  In-remove : (j k : ℕ) (m : List (ℕ × V)) → In j (keys (remove ℕ_discrete k m)) → In j (keys m)
  unfolding remove
  In-remove j k [] i = i
  In-remove j k ((h, v) ∷ m) i = ground (arith, In-remove j k m)

  In-remove_ne :
      (j k : ℕ) (m : List (ℕ × V)) → j ≢ k → In j (keys m) → In j (keys (remove ℕ_discrete k m))
  unfolding remove
  In-remove_ne j k [] ne i = i
  In-remove_ne j k ((h, v) ∷ m) ne i = ground (arith, In-remove_ne j k m)

  remove-Distinct :
      (k : ℕ) (m : List (ℕ × V)) → Distinct (keys m) → Distinct (keys (remove ℕ_discrete k m))
  unfolding remove
  remove-Distinct k [] d = d
  remove-Distinct k ((j, v) ∷ m) d = ground (arith, remove-Distinct k m, In-remove j k m)

  remove_absent :
      (k : ℕ) (m : List (ℕ × V)) → ¬ In k (keys m) → length (remove ℕ_discrete k m) ≡ length m
  unfolding remove
  remove_absent k [] a = refl
  remove_absent k ((j, v) ∷ m) a = elim (ℕ_discrete j k) [
    | yes p ↦ absurd (a (inl (sym p)))
    | no p ↦ ground (arith, remove_absent k m (λ i. a (inr i)))
  ]

  length-remove :
      (k : ℕ) (m : List (ℕ × V))
      → Distinct (keys m)
      → In k (keys m)
      → length (remove ℕ_discrete k m) + 1 ≡ length m
  unfolding remove
  length-remove k [] d i = absurd i
  length-remove k ((j, v) ∷ m) d i = elim (ℕ_discrete j k) [
    | yes p ↦ ground (arith, remove_absent k m (subst (λ h. ¬ In h (keys m)) p d.0))
    | no p ↦ ground (arith, length-remove k m d.1)
  ]

  In-insert :
      (j k : ℕ) (v : V) (m : List (ℕ × V))
      → In j (keys (insert ℕ_discrete k v m))
      → (j ≡ k) ⊎ In j (keys m)
  unfolding insert
  In-insert j k v [] i = i
  In-insert j k v ((h, w) ∷ m) i = ground (arith, In-insert j k v m)

  insert-Distinct :
      (k : ℕ) (v : V) (m : List (ℕ × V))
      → Distinct (keys m)
      → Distinct (keys (insert ℕ_discrete k v m))
  unfolding insert
  insert-Distinct k v [] d = (λ i. i, tt)
  insert-Distinct k v ((h, w) ∷ m) d = ground (arith, insert-Distinct k v m, In-insert h k v m)

abbrev AllIn : List ℕ → Entries → Type 0
AllIn [] m = Unit
AllIn (k ∷ ks) m = In k (keys m) × AllIn ks m

AllIn-remove :
    (k : ℕ) (ks : List ℕ) (m : Entries) → ¬ In k ks → AllIn ks m → AllIn ks (remove ℕ_discrete k m)
AllIn-remove k [] m a h = tt
AllIn-remove k (j ∷ ks) m a h =
    (In-remove_ne j k m (λ e. a (inl (sym e))) h.0, AllIn-remove k ks m (λ i. a (inr i)) h.1)

length-remove_all :
    (ks : List ℕ) (m : Entries)
    → Distinct ks
    → Distinct (keys m)
    → AllIn ks m
    → length (remove_all ks m) + length ks ≡ length m
unfolding remove_all
length-remove_all [] m d dm h = omega arith
length-remove_all (k ∷ ks) m d dm h = omega (
  arith,
  length-remove k m dm h.0,
  length-remove_all ks (remove ℕ_discrete k m) d.1 (remove-Distinct k m dm)
      (AllIn-remove k ks m d.0 h.1),
)

remove_all-Distinct :
    (ks : List ℕ) (m : Entries) → Distinct (keys m) → Distinct (keys (remove_all ks m))
unfolding remove_all
remove_all-Distinct [] m d = d
remove_all-Distinct (k ∷ ks) m d =
    remove_all-Distinct ks (remove ℕ_discrete k m) (remove-Distinct k m d)

bump_all-Distinct :
    (now : ℕ) (b : BackendId) (hs : List ℕ) (m : Entries)
    → Distinct (keys m)
    → Distinct (keys (bump_all now b hs m))
unfolding bump_all bump
bump_all-Distinct now b [] m d = d
bump_all-Distinct now b (h ∷ hs) m d =
    bump_all-Distinct now b hs (bump now b m h) (insert-Distinct h _ m d)

In-take : (n k : ℕ) (l : List (ℕ × ℕ)) → In k (keys (take n l)) → In k (keys l)
In-take zero k l i = absurd i
In-take (suc n) k [] i = i
In-take (suc n) k (e ∷ l) i = ground (arith, In-take n k l)

Distinct-take : (n : ℕ) (l : List (ℕ × ℕ)) → Distinct (keys l) → Distinct (keys (take n l))
Distinct-take zero l d = tt
Distinct-take (suc n) [] d = tt
Distinct-take (suc n) (e ∷ l) d = (λ i. d.0 (In-take n e.0 l i), Distinct-take n l d.1)

length-keys-take : (n : ℕ) (l : List (ℕ × ℕ)) → n ≤ length l → length (keys (take n l)) ≡ n
length-keys-take zero l h = refl
length-keys-take (suc n) [] h = absurd (omega arith)
length-keys-take (suc n) (e ∷ l) h = omega (arith, length-keys-take n l (omega arith))

keys-stamps : (m : Entries) → keys (stamps m) ≡ keys m
keys-stamps [] = refl
keys-stamps ((k, r) ∷ m) = ap (◌∷◌ k) (keys-stamps m)

length-stamps : (m : Entries) → length (stamps m) ≡ length m
length-stamps [] = refl
length-stamps ((k, r) ∷ m) = ap suc (length-stamps m)

In-AllIn : (ks : List ℕ) (m : Entries) → ((k : ℕ) → In k ks → In k (keys m)) → AllIn ks m
In-AllIn [] m f = tt
In-AllIn (k ∷ ks) m f = (f k (inl refl), In-AllIn ks m (λ j i. f j (inr i)))

pub record IsValid (t : PrefixReuseHistory) : Type 0 where
  pub bounded : length t.entries ≤ t.max_entries
  pub distinct : Distinct (keys t.entries)

module _ (sort : List (ℕ × ℕ) → List (ℕ × ℕ)) (sorts : IsReordering sort) where
  evict-IsValid :
      (t : PrefixReuseHistory) → Distinct (keys t.entries) → IsValid (evict_if_needed sort t)
  unfolding evict_if_needed
  evict-IsValid t d = elim (Bool-cases (leb (length t.entries) t.max_entries)) [
    | inl e ↦ rw e (record { bounded = ground arith; distinct = d })
    | inr e ↦
        rw e
          (record { bounded = ground (arith, gone); distinct = remove_all-Distinct _ t.entries d })
  ]
    where
      surplus : ℕ
      surplus = length t.entries - t.max_entries

      sorted_keys : Distinct (keys (sort (stamps t.entries)))
      sorted_keys = sorts.distinct (stamps t.entries) (rw (keys-stamps t.entries) d)

      victims : List ℕ
      victims = keys (take surplus (sort (stamps t.entries)))

      present : AllIn victims t.entries
      present = In-AllIn victims t.entries (λ k i.
          subst (λ ks. In k ks) (keys-stamps t.entries)
            (sorts.members k (stamps t.entries) (In-take surplus k (sort (stamps t.entries)) i)))

      length-victims : length victims ≡ surplus
      length-victims =
          length-keys-take surplus (sort (stamps t.entries))
            (omega (arith, sorts.same_length (stamps t.entries), length-stamps t.entries))

      gone :
          length (remove_all (keys (take surplus (sort (stamps t.entries)))) t.entries) + surplus
          ≡ length t.entries
      gone = omega (
        arith,
        length-victims,
        length-remove_all victims t.entries (Distinct-take surplus _ sorted_keys) d present,
      )

  -- If `sort` only reorders, and the history has at most as many entries as its capacity, one for
  -- each hash, then it is so after any dispatch.
  pub record_dispatch-IsValid :
      (xxh3 : List ℕ → ℕ → ℕ) (now : ℕ) (t : PrefixReuseHistory) (hs : List ℕ) (b : BackendId)
      → IsValid t
      → IsValid (record_dispatch xxh3 sort now t hs b)
  unfolding record_dispatch
  record_dispatch-IsValid xxh3 now t [] b v = v
  record_dispatch-IsValid xxh3 now t (h ∷ hs) b v =
      evict-IsValid
        (record t { entries = bump_all now b (compute_prefix_hashes xxh3 (h ∷ hs)) t.entries })
        (bump_all-Distinct now b (compute_prefix_hashes xxh3 (h ∷ hs)) t.entries v.distinct)
