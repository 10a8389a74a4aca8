-- ===== src/Metadata/Store/Listing.antt =====
-- The lists of an index after an entry is pushed or dropped, and what they say of the backends.
use hier_kv_gateway.Prelude.{
  ◌≡◌, ◌≢◌, refl, sym, ap, ◌∙◌, subst, true, none, some, List, [], ◌∷◌, ◌++◌, not, keep, dec→Bool,
  ite, In, inl, inr, ◌⊎◌, arith, Option-cases, Bool-cases, if_pos,
}
use hier_kv_gateway.Ids.{BackendId, BackendId_discrete}
use hier_kv_gateway.HashMap.{lookup, lookup-insert, lookup-remove}
use hier_kv_gateway.Interface.DashMap.{DashMap}
use hier_kv_gateway.Core.Backend.{BackendInfo}
use hier_kv_gateway.Metadata.Store.{is_empty, or_default, listed, push_to, drop_from}

-- The other backends of a list.
abbrev pub others : BackendId → List BackendId → List BackendId
others b l = keep (λ c. not (dec→Bool (BackendId_discrete c b))) l

In-others : (b c : BackendId) (l : List BackendId) → In c l → c ≢ b → In c (others b l)
In-others b c [] i n = i
In-others b c (x ∷ l) (inl e) n = ground (arith, e, n, λ (p : x ≡ b). e ∙ p)
In-others b c (x ∷ l) (inr i) n = ground (arith, In-others b c l i n)

others-In : (b c : BackendId) (l : List BackendId) → In c (others b l) → In c l × (c ≢ b)
others-In b c [] i = absurd i
others-In b c (x ∷ l) i = elim (BackendId_discrete x b) [
  | yes p ↦ ground (arith, p, others-In b c l)
  | no p ↦ ground (arith, p, others-In b c l, λ (e : c ≡ x) (q : c ≡ b). p (sym e ∙ q))
]

In-snoc : (b c : BackendId) (l : List BackendId) → In c l → In c (l ++ b ∷ [])
In-snoc b c [] i = absurd i
In-snoc b c (x ∷ l) (inl e) = inl e
In-snoc b c (x ∷ l) (inr i) = inr (In-snoc b c l i)

In-snoc_self : (b : BackendId) (l : List BackendId) → In b (l ++ b ∷ [])
In-snoc_self b [] = inl refl
In-snoc_self b (x ∷ l) = inr (In-snoc_self b l)

snoc-In : (b c : BackendId) (l : List BackendId) → In c (l ++ b ∷ []) → In c l ⊎ (c ≡ b)
snoc-In b c [] (inl e) = inr e
snoc-In b c [] (inr i) = absurd i
snoc-In b c (x ∷ l) (inl e) = inl (inl e)
snoc-In b c (x ∷ l) (inr i) = elim (snoc-In b c l i) [ inl j ↦ inl (inr j) | inr e ↦ inr e ]

In-ite :
    {P : Type 0} (q : Dec P) (c : BackendId) (x y : List BackendId)
    → (P → In c x)
    → (¬ P → In c y)
    → In c (ite q x y)
In-ite (yes p) c x y f g = f p
In-ite (no p) c x y f g = g p

module _ {K : Type 0} (dec : Discrete K) where
  listed-push_to :
      (k j : K) (b : BackendId) (m : List (K × List BackendId))
      → listed dec j (push_to dec k b m) ≡ ite (dec k j) (listed dec k m ++ b ∷ []) (listed dec j m)
  unfolding push_to
  listed-push_to k j b m = ground (arith, lookup-insert dec k j (listed dec k m ++ b ∷ []) m)

  empty_others : (l : List BackendId) → is_empty l ≡ true → l ≡ []
  empty_others [] e = refl
  empty_others (x ∷ l) e = ground (arith, e)

  listed-drop_from :
      (k j : K) (b : BackendId) (m : List (K × List BackendId))
      → listed dec j (drop_from dec k b m)
        ≡ ite (dec k j) (others b (listed dec k m)) (listed dec j m)
  unfolding drop_from
  listed-drop_from k j b m = elim (Option-cases (lookup dec k m)) [
    | inl e ↦ elim (dec k j) [
      | yes p ↦
          rw (drop_from, e)
            (ap (λ x. or_default x) (ap (λ x. lookup dec x m) (sym p) ∙ e) ∙ ground (arith, p))
      | no p ↦ ground (arith, e, p)
    ]
    | inr (l, e) ↦ elim (Bool-cases (is_empty (others b l))) [
      | inl q ↦
          rw (drop_from, e, q)
            (ground (arith, lookup-remove dec k j m, empty_others (others b l) q))
      | inr q ↦ rw (drop_from, e, q) (ground (arith, lookup-insert dec k j (others b l) m))
    ]
  ]

  listed-push_to_self :
      (k : K) (b : BackendId) (m : List (K × List BackendId))
      → In b (listed dec k (push_to dec k b m))
  listed-push_to_self k b m =
      subst (λ l. In b l) (sym (listed-push_to k k b m ∙ if_pos (dec k k) refl _ _))
        (In-snoc_self b (listed dec k m))

  push_to-keeps :
      (k j : K) (b c : BackendId) (m : List (K × List BackendId))
      → In c (listed dec j m)
      → In c (listed dec j (push_to dec k b m))
  push_to-keeps k j b c m i =
      subst (λ l. In c l) (sym (listed-push_to k j b m))
        (In-ite (dec k j) c (listed dec k m ++ b ∷ []) (listed dec j m)
          (λ p. In-snoc b c (listed dec k m) (subst (λ x. In c (listed dec x m)) (sym p) i))
          (λ p. i))

  push_to-of :
      (k j : K) (b c : BackendId) (m : List (K × List BackendId))
      → In c (listed dec j (push_to dec k b m))
      → In c (listed dec j m) ⊎ ((c ≡ b) × (k ≡ j))
  push_to-of k j b c m i = by_key (dec k j) (subst (λ l. In c l) (listed-push_to k j b m) i)
    where
      by_key :
          (q : Dec (k ≡ j))
          → In c (ite q (listed dec k m ++ b ∷ []) (listed dec j m))
          → In c (listed dec j m) ⊎ ((c ≡ b) × (k ≡ j))
      by_key (no p) i = inl i
      by_key (yes p) i = elim (snoc-In b c (listed dec k m) i) [
        | inl j ↦ inl (subst (λ x. In c (listed dec x m)) p j)
        | inr e ↦ inr (e, p)
      ]

  drop_from-keeps :
      (k j : K) (b c : BackendId) (m : List (K × List BackendId))
      → In c (listed dec j m)
      → c ≢ b
      → In c (listed dec j (drop_from dec k b m))
  drop_from-keeps k j b c m i n =
      subst (λ l. In c l) (sym (listed-drop_from k j b m))
        (In-ite (dec k j) c (others b (listed dec k m)) (listed dec j m)
          (λ p. In-others b c (listed dec k m) (subst (λ x. In c (listed dec x m)) (sym p) i) n)
          (λ p. i))

  drop_from-of :
      (k j : K) (b c : BackendId) (m : List (K × List BackendId))
      → In c (listed dec j (drop_from dec k b m))
      → In c (listed dec j m) × (k ≡ j → c ≢ b)
  drop_from-of k j b c m i = by_key (dec k j) (subst (λ l. In c l) (listed-drop_from k j b m) i)
    where
      by_key :
          (q : Dec (k ≡ j))
          → In c (ite q (others b (listed dec k m)) (listed dec j m))
          → In c (listed dec j m) × (k ≡ j → c ≢ b)
      by_key (no p) i = (i, λ q. absurd (p q))
      by_key (yes p) i =
          let (j, n) = others-In b c (listed dec k m) i in
          (subst (λ x. In c (listed dec x m)) p j, λ q. n)

-- An index whose keys are read off the backends' information. `home` is the key of each backend.
module _ {K B : Type 0} (dec : Discrete K) (key : BackendInfo → K) (home : BackendId → K)
    (db : DashMap B BackendId_discrete BackendInfo) where
  -- Every backend stands under its own identifier and in the list of its key.
  abbrev pub IsComplete : B → List (K × List BackendId) → Type 0
  IsComplete bs m =
      (b : BackendId) (info : BackendInfo)
      → db.get b bs ≡ some info
      → (info.id ≡ b) × In b (listed dec (key info) m)

  -- Every backend has its home for its key, and a list holds only backends whose home it is.
  abbrev pub IsSound : B → List (K × List BackendId) → Type 0
  IsSound bs m =
      ((b : BackendId) (info : BackendInfo) → db.get b bs ≡ some info → key info ≡ home b)
      × ((b : BackendId) (k : K)
          → In b (listed dec k m)
          → (info : BackendInfo) × (db.get b bs ≡ some info) × (home b ≡ k))

  pub push_to-IsComplete :
      (info : BackendInfo) (bs : B) (m : List (K × List BackendId))
      → IsComplete bs m
      → IsComplete (db.insert info.id info bs) (push_to dec (key info) info.id m)
  push_to-IsComplete info bs m h b i e = elim (BackendId_discrete info.id b) [
    | yes p ↦
        let same : info ≡ i = ground (arith, e, p, db.get-insert info.id b info bs) in
        subst
          (λ (x : BackendInfo).
            (x.id ≡ b) × In b (listed dec (key x) (push_to dec (key info) info.id m)))
          same
          (
            p,
            subst (λ x. In x (listed dec (key info) (push_to dec (key info) info.id m))) p
                (listed-push_to_self dec (key info) info.id m),
          )
    | no p ↦
        let (q, j) = h b i (ground (arith, e, p, db.get-insert info.id b info bs)) in
        (q, push_to-keeps dec (key info) (key i) info.id b m j)
  ]

  pub drop_from-IsComplete :
      (a : BackendId) (info : BackendInfo) (bs : B) (m : List (K × List BackendId))
      → db.get a bs ≡ some info
      → IsComplete bs m
      → IsComplete (db.remove a bs) (drop_from dec (key info) info.id m)
  drop_from-IsComplete a info bs m g h b i e = elim (BackendId_discrete a b) [
    | yes p ↦ ground (arith, e, p, db.get-remove a b bs)
    | no p ↦
        let (q, j) = h b i (ground (arith, e, p, db.get-remove a b bs)) in
        (
          q,
          drop_from-keeps dec (key info) (key i) info.id b m j (λ r. p (sym (r ∙ (h a info g).0))),
        )
  ]

  pub push_to-IsSound :
      (info : BackendInfo) (bs : B) (m : List (K × List BackendId))
      → key info ≡ home info.id
      → IsSound bs m
      → IsSound (db.insert info.id info bs) (push_to dec (key info) info.id m)
  push_to-IsSound info bs m e (hk, hl) = (
    λ b i g. elim (BackendId_discrete info.id b) [
      | yes p ↦
          let same : info ≡ i = ground (arith, g, p, db.get-insert info.id b info bs) in
          subst (λ x. key x ≡ home b) same (e ∙ ap home p)
      | no p ↦ hk b i (ground (arith, g, p, db.get-insert info.id b info bs))
    ],
    λ b k i. elim (BackendId_discrete info.id b) [
      | yes p ↦ (
        info,
        ground (arith, p, db.get-insert info.id b info bs),
        elim (push_to-of dec (key info) k info.id b m i) [
          | inl j ↦ (hl b k j).2
          | inr (q, r) ↦ ap home q ∙ sym e ∙ r
        ],
      )
      | no p ↦ elim (push_to-of dec (key info) k info.id b m i) [
        | inl j ↦
            let (x, y, z) = hl b k j in
            (x, ground (arith, p, y, db.get-insert info.id b info bs), z)
        | inr (q, r) ↦ absurd (p (sym q))
      ]
    ],
  )

  pub drop_from-IsSound :
      (a : BackendId) (info : BackendInfo) (bs : B) (m : List (K × List BackendId))
      → db.get a bs ≡ some info
      → info.id ≡ a
      → IsSound bs m
      → IsSound (db.remove a bs) (drop_from dec (key info) info.id m)
  drop_from-IsSound a info bs m g e (hk, hl) = (
    λ b i p. elim (BackendId_discrete a b) [
      | yes q ↦ ground (arith, p, q, db.get-remove a b bs)
      | no q ↦ hk b i (ground (arith, p, q, db.get-remove a b bs))
    ],
    λ b k i.
        let (j, n) = drop_from-of dec (key info) k info.id b m i in
        let (x, y, z) = hl b k j in
        elim (BackendId_discrete a b) [
          | yes q ↦ absurd (n (hk a info g ∙ ap home q ∙ z) (sym q ∙ sym e))
          | no q ↦ (x, ground (arith, q, y, db.get-remove a b bs), z)
        ],
  )

  get-remove_absent :
      (a b : BackendId) (bs : B) → db.get a bs ≡ none → db.get b (db.remove a bs) ≡ db.get b bs
  get-remove_absent a b bs e = elim (BackendId_discrete a b) [
    | yes p ↦ ground (arith, p, e, db.get-remove a b bs, ap (λ x. db.get x bs) p)
    | no p ↦ ground (arith, p, db.get-remove a b bs)
  ]

  pub remove_absent-IsComplete :
      (a : BackendId) (bs : B) (m : List (K × List BackendId))
      → db.get a bs ≡ none
      → IsComplete bs m
      → IsComplete (db.remove a bs) m
  remove_absent-IsComplete a bs m e h b i p = h b i (sym (get-remove_absent a b bs e) ∙ p)

  pub remove_absent-IsSound :
      (a : BackendId) (bs : B) (m : List (K × List BackendId))
      → db.get a bs ≡ none
      → IsSound bs m
      → IsSound (db.remove a bs) m
  remove_absent-IsSound a bs m e (hk, hl) = (
    λ b i p. hk b i (sym (get-remove_absent a b bs e) ∙ p),
    λ b k i. let (x, y, z) = hl b k i in (x, get-remove_absent a b bs e ∙ y, z),
  )
