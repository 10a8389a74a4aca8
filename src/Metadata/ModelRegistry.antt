-- ===== src/Metadata/ModelRegistry.antt =====
-- crates/hier-kv-gateway-metadata/src/model_registry.rs: the models that each backend serves. A score
-- is ten times the number of the code: 10, 7 or 0.
pub mod Matches
use hier_kv_gateway.Prelude.{
  ℕ, max, Bool, true, false, Option, none, some, List, [], ◌∷◌, if◌then◌else◌, ltb, not, ◌&&◌,
  String, dec→Bool, length,
}
use hier_kv_gateway.Ids.{BackendId, BackendId_discrete, String_discrete}
use hier_kv_gateway.Interface.DashMap.{DashMap}
use hier_kv_gateway.Core.Backend.{ModelInstance}

abbrev pub is_text : String → String → Bool
is_text s t = dec→Bool (String_discrete s t)

unfoldable pub match_score : ModelInstance → String → ℕ
match_score m model_name =
    if is_text m.model_name model_name
    then 10
    else if not (is_text m.model_architecture "") && is_text m.model_architecture model_name
    then 7
    else 0

-- The loop of `model_match_score`.
unfoldable pub best_score : ℕ → List ModelInstance → String → ℕ
unfolding match_score
best_score best [] model_name = best
best_score best (m ∷ ms) model_name =
    let score = match_score m model_name in
    best_score (if ltb best score then score else best) ms model_name

-- The fold of `model_find_backends`.
unfoldable pub max_score : ℕ → List ModelInstance → String → ℕ
unfolding match_score
max_score best [] model_name = best
max_score best (m ∷ ms) model_name = max_score (max best (match_score m model_name)) ms model_name

-- `filter_map` over the entries.
unfoldable pub serving : List (BackendId × List ModelInstance) → String → List BackendId
unfolding max_score
serving [] model_name = []
serving ((b, ms) ∷ l) model_name =
    let rest = serving l model_name in if ltb 0 (max_score 0 ms model_name) then b ∷ rest else rest

abbrev pub or_default : Option (List ModelInstance) → List ModelInstance
or_default none = []
or_default (some l) = l

module _ {M : Type 0} (d : DashMap M BackendId_discrete (List ModelInstance)) where
  unfoldable pub new : M
  new = d.empty

  unfoldable pub register : BackendId → List ModelInstance → M → M
  register backend models s = d.insert backend models s

  unfoldable pub unregister : BackendId → M → M
  unregister backend s = d.remove backend s

  unfoldable pub model_match_score : BackendId → String → M → ℕ
  unfolding best_score
  model_match_score backend model_name s = elim (d.get backend s) [
    | none ↦ 0
    | some ms ↦ best_score 0 ms model_name
  ]

  unfoldable pub model_find_backends : String → M → List BackendId
  unfolding serving
  model_find_backends model_name s = serving (d.entries s) model_name

  unfoldable pub get_instances : BackendId → M → List ModelInstance
  get_instances backend s = or_default (d.get backend s)

  unfoldable pub len : M → ℕ
  len s = length (d.entries s)
