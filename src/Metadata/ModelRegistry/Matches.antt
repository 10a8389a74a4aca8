-- ===== src/Metadata/ModelRegistry/Matches.antt =====
-- Which backends serve a model.
use hier_kv_gateway.Prelude.{
  ℕ, max, ◌<◌, ◌≡◌, ◌↔◌, ◌≢◌, ◌⊎◌, refl, sym, ap, ◌∙◌, Option, none, some, List, [], ◌∷◌,
  if◌then◌else◌, ltb, String, In, arith, subst, Distinct,
}
use hier_kv_gateway.Ids.{BackendId, BackendId_discrete, String_discrete}
use hier_kv_gateway.HashMap.{lookup, keys}
use hier_kv_gateway.Interface.DashMap.{DashMap}
use hier_kv_gateway.Core.Backend.{ModelInstance}
use hier_kv_gateway.Metadata.ModelRegistry.{
  or_default, match_score, best_score, max_score, serving, model_match_score, model_find_backends,
}

-- The loop and the fold compute the same number.
best_score_lem :
    (best : ℕ) (ms : List ModelInstance) (name : String)
    → best_score best ms name ≡ max_score best ms name
unfolding best_score max_score
best_score_lem best [] name = refl
best_score_lem best (m ∷ ms) name =
    ap (λ b. best_score b ms name) (chosen best (match_score m name))
    ∙ best_score_lem (max best (match_score m name)) ms name
  where
    chosen : (a b : ℕ) → (if ltb a b then b else a) ≡ max a b
    chosen a b = ground arith

In-serving-keys :
    (b : BackendId) (l : List (BackendId × List ModelInstance)) (name : String)
    → In b (serving l name)
    → In b (keys l)
unfolding serving
In-serving-keys b [] name i = i
In-serving-keys b ((c, ms) ∷ l) name i = ground (arith, In-serving-keys b l name)

abbrev score_at : Option (List ModelInstance) → String → ℕ
score_at none name = 0
score_at (some ms) name = max_score 0 ms name

In-serving :
    (b : BackendId) (l : List (BackendId × List ModelInstance)) (name : String)
    → Distinct (keys l)
    → In b (serving l name) ↔ (0 < score_at (lookup BackendId_discrete b l) name)
unfolding serving lookup
In-serving b [] name h = ground arith
In-serving b ((c, ms) ∷ l) name (a, h) = elim (BackendId_discrete c b) [
  | yes p ↦
      let gone : In b (serving l name) → ⊥ =
        λ i. a (subst (λ x. In x (keys l)) (sym p) (In-serving-keys b l name i)) in
      ground (arith, p, sym p, gone)
  | no p ↦ ground (arith, p, In-serving b l name h, λ (e : b ≡ c). p (sym e))
]

-- A model of the name, or of an architecture that is not empty and has the name.
abbrev pub Offers : List ModelInstance → String → Type 0
Offers [] name = ⊥
Offers (m ∷ ms) name =
    ((m.model_name ≡ name) ⊎ ((m.model_architecture ≢ "") × (m.model_architecture ≡ name)))
    ⊎ Offers ms name

match_score-pos :
    (m : ModelInstance) (name : String)
    → (0 < match_score m name)
      ↔ ((m.model_name ≡ name) ⊎ ((m.model_architecture ≢ "") × (m.model_architecture ≡ name)))
unfolding match_score
match_score-pos m name = elim (String_discrete m.model_name name) [
  | yes p ↦ ground (arith, p)
  | no p ↦ elim (String_discrete m.model_architecture "") [
    | yes q ↦ ground (arith, p, q)
    | no q ↦ elim (String_discrete m.model_architecture name) [
      | yes r ↦ ground (arith, p, q, r)
      | no r ↦ ground (arith, p, q, r)
    ]
  ]
]

max_score-pos :
    (best : ℕ) (ms : List ModelInstance) (name : String)
    → (0 < max_score best ms name) ↔ ((0 < best) ⊎ Offers ms name)
unfolding max_score
max_score-pos best [] name = ground arith
max_score-pos best (m ∷ ms) name =
    ground (arith, max_score-pos (max best (match_score m name)) ms name, match_score-pos m name)

module _ {M : Type 0} (d : DashMap M BackendId_discrete (List ModelInstance)) where
  -- `model_find_backends` lists a backend exactly if `model_match_score` gives it a score, and exactly
  -- if it is registered with a model whose name or whose architecture, which is not empty, is the
  -- requested name. So a model of the requested model's architecture under another name is not enough.
  pub model_find_backends_lem :
      (b : BackendId) (name : String) (s : M)
      → (In b (model_find_backends d name s) ↔ (0 < model_match_score d b name s))
        × (In b (model_find_backends d name s) ↔ Offers (or_default (d.get b s)) name)
  unfolding model_find_backends model_match_score
  model_find_backends_lem b name s =
      let listed = In-serving b (d.entries s) name (d.entries-Distinct s) in
      let found = d.lookup-entries b s in
      by_models (d.get b s)
        (subst (λ o. In b (serving (d.entries s) name) ↔ (0 < score_at o name)) found listed)
    where
      by_models :
          (o : Option (List ModelInstance))
          → In b (serving (d.entries s) name) ↔ (0 < score_at o name)
          → (In b (serving (d.entries s) name)
              ↔ (0 < elim o [ none ↦ 0 | some ms ↦ best_score 0 ms name ]))
            × (In b (serving (d.entries s) name) ↔ Offers (or_default o) name)
      by_models none h = ground (arith, h)
      by_models (some ms) h = ground (arith, h, best_score_lem 0 ms name, max_score-pos 0 ms name)
