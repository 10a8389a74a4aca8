-- ===== src/Metadata/RadixTree/View/Clearing.antt =====
-- What clearing a backend does to the paths that are held, and to the matches.
use hier_kv_gateway.Prelude.{
  ℕ, suc, ◌≡◌, refl, ◌&&◌, not, List, [], ◌∷◌, arith, length, take, sym, ◌∙◌, Bool-cases, inl, inr,
  if◌then◌else◌,
}
use hier_kv_gateway.Ids.{BackendId}
use hier_kv_gateway.Metadata.RadixTree.{
  Node, Children, child, same_backend, clear_backend_recursive, clear_in_children, find_matches,
  TreeState, clear_backend,
}
use hier_kv_gateway.Metadata.RadixTree.Valid.{IsValid, AreValid, valid, none_left, one_more}
use hier_kv_gateway.Metadata.RadixTree.Valid.Removal.{IsAbsent-clear, clear-IsValid}
use hier_kv_gateway.Metadata.RadixTree.View.{holds}
use hier_kv_gateway.Metadata.RadixTree.View.Matches.{
  leading-congr, leading-none, holds_first, match_path-leading,
}
use hier_kv_gateway.Metadata.RadixTree.View.Removal.{
  held_below, any_rank-retain, child_absent, holds_reclaimable, held_below-keep_child,
  held_below-cons,
}

module _ {bound : ℕ} (a b : BackendId) where
  mutual
    unfolding clear_backend_recursive holds held_below child

    pub holds-clear :
        (p : List ℕ) {n : Node}
        → IsValid bound n
        → holds b p (clear_backend_recursive a n) ≡ (holds b p n && not (same_backend a b))
    holds-clear [] (valid {h} {os} {rc} {cs} c v) = any_rank-retain a b os
    holds-clear (x ∷ p) (valid {h} {os} {rc} {cs} c v) = held_below-clear x p v

    held_below-clear :
        (h : ℕ) (p : List ℕ) {cs : Children}
        → AreValid bound cs
        → held_below b h p (clear_in_children a cs)
          ≡ (held_below b h p cs && not (same_backend a b))
    held_below-clear h p none_left = refl
    held_below-clear h p (one_more {k} {n} {cs} e r ab v vs) =
        held_below-keep_child b h p k (clear_backend_recursive a n) (clear_in_children a cs) (λ q f.
          (
            ground (arith, child_absent k _ (IsAbsent-clear a k cs ab)),
            holds_reclaimable b p (clear-IsValid a v) f,
          ))
        ∙ ground (arith, holds-clear p v, held_below-clear h p vs, held_below-cons b h p k n cs)

-- In a valid tree, clearing `a` leaves it no match for any query, and leaves every other backend
-- its matches.
pub find_matches-cleared :
    {bound : ℕ} (t : TreeState) (a b : BackendId) (qs : List ℕ)
    → IsValid bound t.root
    → find_matches (clear_backend t a) qs b ≡ (if same_backend a b then 0 else find_matches t qs b)
unfolding find_matches clear_backend
find_matches-cleared t a b qs v = elim (Bool-cases (same_backend a b)) [
  | inl e ↦
      match_path-leading b qs (clear_backend_recursive a t.root)
      ∙ leading-none (length qs) (holds_first b qs (clear_backend_recursive a t.root))
          (ground (arith, holds-clear a b (take 1 qs) v))
      ∙ ground arith
  | inr e ↦
      match_path-leading b qs (clear_backend_recursive a t.root)
      ∙ leading-congr (length qs) (holds_first b qs (clear_backend_recursive a t.root))
          (holds_first b qs t.root) (λ k lt. ground (arith, holds-clear a b (take (suc k) qs) v))
      ∙ sym (match_path-leading b qs t.root)
      ∙ ground arith
]
