-- ===== src/HashSet.antt =====
-- The standard library's `HashSet` as a list, in the unspecified order of its iteration.
use hier_kv_gateway.Prelude.{
  ◌≡◌, refl, sym, Bool, true, false, not, ◌||◌, List, [], ◌∷◌, if◌then◌else◌, dec→Bool, arith, ◌&&◌,
  ◌+◌, ◌≤◌, length, ap, ◌∙◌,
}

module _ {A : Type 0} (dec : Discrete A) where
  unfoldable pub contains : A → List A → Bool
  contains x [] = false
  contains x (y ∷ ys) = dec→Bool (dec y x) || contains x ys

  -- `insert`
  unfoldable pub set_insert : A → List A → List A
  set_insert x [] = x ∷ []
  set_insert x (y ∷ ys) = if dec→Bool (dec y x) then y ∷ ys else y ∷ set_insert x ys

  -- `remove`
  unfoldable pub set_remove : A → List A → List A
  set_remove x [] = []
  set_remove x (y ∷ ys) =
      let rest = set_remove x ys in if dec→Bool (dec y x) then rest else y ∷ rest

  -- No element stands twice.
  abbrev pub IsUnrepeated : List A → Type 0
  IsUnrepeated [] = Unit
  IsUnrepeated (y ∷ ys) = (contains y ys ≡ false) × IsUnrepeated ys

  pub contains-set_insert :
      (j x : A) (ys : List A) → contains j (set_insert x ys) ≡ (dec→Bool (dec x j) || contains j ys)
  unfolding contains set_insert
  contains-set_insert j x [] = refl
  contains-set_insert j x (y ∷ ys) = elim (dec y x) [
    | yes p ↦ ground (arith, p)
    | no p ↦ ground (arith, contains-set_insert j x ys)
  ]

  pub contains-set_remove :
      (j x : A) (ys : List A)
      → contains j (set_remove x ys) ≡ (not (dec→Bool (dec x j)) && contains j ys)
  unfolding contains set_remove
  contains-set_remove j x [] = ground arith
  contains-set_remove j x (y ∷ ys) = elim (dec y x) [
    | yes p ↦ elim (dec x j) [
      | yes q ↦ ground (arith, p, q, contains-set_remove j x ys)
      | no q ↦ ground (arith, p, q, contains-set_remove j x ys)
    ]
    | no p ↦ elim (dec x j) [
      | yes q ↦ ground (arith, p, q, contains-set_remove j x ys)
      | no q ↦ ground (arith, p, q, contains-set_remove j x ys)
    ]
  ]

  pub set_insert-IsUnrepeated :
      (x : A) (ys : List A) → IsUnrepeated ys → IsUnrepeated (set_insert x ys)
  unfolding contains set_insert
  set_insert-IsUnrepeated x [] h = (refl, tt)
  set_insert-IsUnrepeated x (y ∷ ys) h = elim (dec y x) [
    | yes p ↦ ground (arith, p, h)
    | no p ↦ ground (arith, p, h, contains-set_insert y x ys, set_insert-IsUnrepeated x ys h.1)
  ]

  pub set_remove-IsUnrepeated :
      (x : A) (ys : List A) → IsUnrepeated ys → IsUnrepeated (set_remove x ys)
  unfolding contains set_remove
  set_remove-IsUnrepeated x [] h = tt
  set_remove-IsUnrepeated x (y ∷ ys) h = elim (dec y x) [
    | yes p ↦ ground (arith, p, set_remove-IsUnrepeated x ys h.1)
    | no p ↦ ground (arith, p, h, contains-set_remove y x ys, set_remove-IsUnrepeated x ys h.1)
  ]

  pub length-set_insert :
      (x : A) (ys : List A) → contains x ys ≡ false → length (set_insert x ys) ≡ length ys + 1
  unfolding contains set_insert
  length-set_insert x [] h = refl
  length-set_insert x (y ∷ ys) h = ground (arith, h, length-set_insert x ys)

  pub set_remove_absent : (x : A) (ys : List A) → contains x ys ≡ false → set_remove x ys ≡ ys
  unfolding contains set_remove
  set_remove_absent x [] h = refl
  set_remove_absent x (y ∷ ys) h = ground (arith, h, set_remove_absent x ys)

  pub length-set_remove :
      (x : A) (ys : List A)
      → IsUnrepeated ys
      → contains x ys ≡ true
      → length (set_remove x ys) + 1 ≡ length ys
  unfolding contains set_remove
  length-set_remove x [] d h = ground (arith, h)
  length-set_remove x (y ∷ ys) d h = elim (dec y x) [
    | yes p ↦
        ground
          (arith, p, ap length (set_remove_absent x ys (ap (λ t. contains t ys) (sym p) ∙ d.0)))
    | no p ↦ ground (arith, p, h, length-set_remove x ys d.1)
  ]

  pub length-contains : (x : A) (ys : List A) → contains x ys ≡ true → 1 ≤ length ys
  unfolding contains
  length-contains x [] h = ground (arith, h)
  length-contains x (y ∷ ys) h = omega arith
