-- ===== src/Tests/Identifiers.antt =====
-- The texts of identifiers at concrete inputs.
use hier_kv_gateway.Prelude.{◌≡◌, ◌↔◌, refl, false, some, none}
use hier_kv_gateway.Ids.Parsing.{parse, display, split_at_slash, HasNoSlash, is_blank, parse_iff}
use hier_kv_gateway.Tests.Data.{backend_a}

parsed : parse "edge/gpu_one" ≡ some backend_a
unfolding parse split_at_slash
parsed = refl

no_instance : parse "edge/" ≡ none
unfolding parse split_at_slash
no_instance = refl

parse_iff_example : (parse "edge/gpu_one" ≡ some backend_a) ↔ (
    (display backend_a ≡ "edge/gpu_one")
    × HasNoSlash backend_a.region.name
    × (is_blank backend_a.region.name ≡ false)
    × (is_blank backend_a.instance_id.name ≡ false))
parse_iff_example = parse_iff "edge/gpu_one" backend_a
