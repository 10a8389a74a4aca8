-- ===== src/Prelude/Rotation.antt =====
-- Reading a whole list from a position on, wrapping round at its end.
use Prim.Native.Nat.{ℕ, zero, suc, ◌+◌, ◌-◌, ◌%◌, ◌≤◌, ◌<◌}
use mathlib.Core.Path.{◌≡◌, refl, ap, ◌∙◌, sym}
use mathlib.Core.List.{List, [], ◌∷◌, ◌++◌}
use mathlib.Core.Option.{Option, none, some}
use native.Mathlib.Omega.{arith}
use native.Mathlib.Nat.{mod-eq_of_lt, add-mod_left}
use hier_kv_gateway.Prelude.Lists.{length, get_elem?, take, drop}

module _ {ℓ} {A : Type ℓ} where
  abbrev pub prepend : A → Option (List A) → Option (List A)
  prepend x none = none
  prepend x (some xs) = some (x ∷ xs)

  -- `count` reads from `offset` on, at `(start + offset) % n`; `none` is a read out of bounds.
  unfoldable pub gather : List A → ℕ → ℕ → ℕ → ℕ → Option (List A)
  gather xs n start zero offset = some []
  gather xs n start (suc count) offset =
      let rest = gather xs n start count (suc offset) in
      elim (get_elem? xs ((start + offset) % n)) [ none ↦ none | some x ↦ prepend x rest ]

  pub drop-get_elem? :
      (xs : List A) (i : ℕ)
      → i < length xs
      → (x : A) × (get_elem? xs i ≡ some x) × (drop i xs ≡ x ∷ drop (suc i) xs)
  drop-get_elem? [] i lt = elim lt [ ]
  drop-get_elem? (x ∷ xs) zero lt = (x, refl, refl)
  drop-get_elem? (x ∷ xs) (suc i) lt = drop-get_elem? xs i (omega arith)

  pub drop_all : (xs : List A) → drop (length xs) xs ≡ []
  drop_all [] = refl
  drop_all (x ∷ xs) = drop_all xs

  get_elem?-take : (xs : List A) (n i : ℕ) → i < n → get_elem? (take n xs) i ≡ get_elem? xs i
  get_elem?-take xs zero i lt = elim lt [ ]
  get_elem?-take [] (suc n) i lt = refl
  get_elem?-take (x ∷ xs) (suc n) zero lt = refl
  get_elem?-take (x ∷ xs) (suc n) (suc i) lt = get_elem?-take xs n i (omega arith)

  length-take : (xs : List A) (n : ℕ) → n ≤ length xs → length (take n xs) ≡ n
  length-take xs zero h = refl
  length-take [] (suc n) h = absurd (omega arith)
  length-take (x ∷ xs) (suc n) h = omega (arith, length-take xs n (omega arith))

  gather-step :
      (xs ys : List A) (n start count offset : ℕ) (x : A)
      → get_elem? xs ((start + offset) % n) ≡ some x
      → gather xs n start count (suc offset) ≡ some ys
      → gather xs n start (suc count) offset ≡ some (x ∷ ys)
  unfolding gather
  gather-step xs ys n start count offset x e rest = rw (gather, e, rest) refl

  -- The reads after the wrap.
  gather_low :
      (xs : List A) (start count offset j : ℕ)
      → start ≤ length xs
      → start + offset ≡ length xs + j
      → j + count ≡ start
      → gather xs (length xs) start count offset ≡ some (drop j (take start xs))
  unfolding gather
  gather_low xs start zero offset j le at left =
      ap some (sym (drop_all (take start xs)) ∙ ap (λ k. drop k (take start xs)) same)
    where
      same : length (take start xs) ≡ j
      same = omega (arith, length-take xs start le)
  gather_low xs start (suc count) offset j le at left =
      let (x, e, split) =
        drop-get_elem? (take start xs) j (omega (arith, length-take xs start le)) in
      rw split (
        gather-step xs (drop (suc j) (take start xs)) (length xs) start count offset x
          (rw wrapped (sym (get_elem?-take xs start j (omega arith)) ∙ e))
          (gather_low xs start count (suc offset) (suc j) le (omega arith) (omega arith)))
    where
      wrapped : (start + offset) % length xs ≡ j
      wrapped = ap (λ k. k % length xs) at ∙ add-mod_left (length xs) j ∙ mod-eq_of_lt (omega arith)

  -- The reads before the wrap.
  gather_high :
      (xs : List A) (start rest offset : ℕ)
      → start ≤ length xs
      → start + offset + rest ≡ length xs
      → gather xs (length xs) start (rest + start) offset
        ≡ some (drop (start + offset) xs ++ take start xs)
  gather_high xs start zero offset le at =
      ap (λ c. gather xs (length xs) start c offset) (omega arith)
      ∙ gather_low xs start start offset 0 le (omega arith) (omega arith)
      ∙ ap (λ ys. some (ys ++ take start xs))
          (sym (drop_all xs) ∙ ap (λ k. drop k xs) (omega arith))
  gather_high xs start (suc rest) offset le at =
      let (x, e, split) = drop-get_elem? xs (start + offset) (omega arith) in
      ap (λ c. gather xs (length xs) start c offset) (omega arith)
      ∙ gather-step xs (drop (suc (start + offset)) xs ++ take start xs) (length xs) start
          (rest + start) offset x (ap (λ k. get_elem? xs k) (mod-eq_of_lt (omega arith)) ∙ e)
          (gather_high xs start rest (suc offset) le (omega arith)
            ∙ ap (λ k. some (drop k xs ++ take start xs)) {x = start + suc offset}
                {y = suc (start + offset)} (omega arith))
      ∙ ap (λ ys. some (ys ++ take start xs)) (sym split)

  -- Reading as often as the list is long reads each element once.
  pub gather_all :
      (xs : List A) (start : ℕ)
      → start ≤ length xs
      → gather xs (length xs) start (length xs) 0 ≡ some (drop start xs ++ take start xs)
  gather_all xs start le =
      ap (λ c. gather xs (length xs) start c 0) (omega arith)
      ∙ gather_high xs start (length xs - start) 0 le (omega arith)
      ∙ ap (λ k. some (drop k xs ++ take start xs)) (omega arith)
