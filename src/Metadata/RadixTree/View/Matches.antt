-- ===== src/Metadata/RadixTree/View/Matches.antt =====
-- `find_matches` computes the length of the longest held prefix whose prefixes are all held.
use hier_kv_gateway.Prelude.{
  ℕ, zero, suc, ◌<◌, ◌≡◌, ◌≢◌, refl, Bool, true, false, ◌&&◌, ◌||◌, Option, none, some, List, [],
  ◌∷◌, arith, length, take, Option-cases, Bool-cases, inl, inr, if◌then◌else◌, sym, ◌∙◌,
}
use hier_kv_gateway.Ids.{BackendId}
use hier_kv_gateway.Core.KvEvent.{WorkerWithRank, stored_event}
use hier_kv_gateway.Metadata.RadixTree.{
  Node, children, child, is_owned_by, same_backend, match_path, store_path, find_matches, TreeState,
  apply_event,
}
use hier_kv_gateway.Metadata.RadixTree.View.{holds, is_prefix, holds-store_path}

module _ (b : BackendId) (h : ℕ) (hs : List ℕ) (n : Node) where
  match_path-miss : child h (children n) ≡ none → match_path b (h ∷ hs) n ≡ 0
  unfolding match_path
  match_path-miss e = ground arith

  match_path-alien :
      (c : Node)
      → child h (children n) ≡ some c
      → is_owned_by c b ≡ false
      → match_path b (h ∷ hs) n ≡ 0
  unfolding match_path
  match_path-alien c e o = ground arith

  match_path-owned :
      (c : Node)
      → child h (children n) ≡ some c
      → is_owned_by c b ≡ true
      → match_path b (h ∷ hs) n ≡ suc (match_path b hs c)
  unfolding match_path
  match_path-owned c e o = ground arith

  holds-child : (c : Node) → child h (children n) ≡ some c → holds b (h ∷ hs) n ≡ holds b hs c
  unfolding holds
  holds-child c e = ground arith

  holds-miss : child h (children n) ≡ none → holds b (h ∷ hs) n ≡ false
  unfolding holds
  holds-miss e = ground arith

module _ (b : BackendId) (h : ℕ) (n : Node) where
  holds-owned :
      (c : Node)
      → child h (children n) ≡ some c
      → is_owned_by c b ≡ true
      → holds b (h ∷ []) n ≡ true
  unfolding holds
  holds-owned c e o = ground arith

  holds-alien :
      (c : Node)
      → child h (children n) ≡ some c
      → is_owned_by c b ≡ false
      → holds b (h ∷ []) n ≡ false
  unfolding holds
  holds-alien c e o = ground arith

pub same_backend_refl : (b : BackendId) → same_backend b b ≡ true
same_backend_refl b = ground arith

-- How many numbers from 0 on, below `n`, pass the test, up to the first that does not.
unfoldable pub leading : ℕ → (ℕ → Bool) → ℕ
leading zero p = 0
leading (suc n) p = let rest = leading n (λ k. p (suc k)) in if p 0 then suc rest else 0

pub leading-congr :
    (n : ℕ) (p q : ℕ → Bool) → ((k : ℕ) → k < n → p k ≡ q k) → leading n p ≡ leading n q
unfolding leading
leading-congr zero p q h = refl
leading-congr (suc n) p q h = ground (
  arith,
  h 0 (omega arith),
  leading-congr n (λ k. p (suc k)) (λ k. q (suc k)) (λ k lt. h (suc k) (omega arith)),
)

pub leading-none : (n : ℕ) (p : ℕ → Bool) → p 0 ≡ false → leading n p ≡ 0
unfolding leading
leading-none zero p h = refl
leading-none (suc n) p h = ground arith

leading-all : (n : ℕ) (p : ℕ → Bool) → ((k : ℕ) → k < n → p k ≡ true) → leading n p ≡ n
unfolding leading
leading-all zero p h = refl
leading-all (suc n) p h =
    ground
      (arith, h 0 (omega arith), leading-all n (λ k. p (suc k)) (λ k lt. h (suc k) (omega arith)))

-- Whether the backend holds the first `k + 1` blocks of the query.
abbrev pub holds_first : BackendId → List ℕ → Node → ℕ → Bool
holds_first b hs n k = holds b (take (suc k) hs) n

pub match_path-leading :
    (b : BackendId) (hs : List ℕ) (n : Node)
    → match_path b hs n ≡ leading (length hs) (holds_first b hs n)
unfolding match_path leading
match_path-leading b [] n = refl
match_path-leading b (h ∷ hs) n = elim (Option-cases (child h (children n))) [
  | inl e ↦
      match_path-miss b h hs n e
      ∙ sym (leading-none (suc (length hs)) (holds_first b (h ∷ hs) n) (holds-miss b h [] n e))
  | inr (c, e) ↦ elim (Bool-cases (is_owned_by c b)) [
    | inl o ↦ ground (
      arith,
      match_path-owned b h hs n c e o,
      match_path-leading b hs c,
      holds-owned b h n c e o,
      leading-congr (length hs) (λ k. holds_first b (h ∷ hs) n (suc k)) (holds_first b hs c)
          (λ k lt. holds-child b h (take (suc k) hs) n c e),
    )
    | inr o ↦
        match_path-alien b h hs n c e o
        ∙ sym (leading-none (suc (length hs)) (holds_first b (h ∷ hs) n) (holds-alien b h n c e o))
  ]
]

-- For every tree, query and backend, `find_matches` is the number of leading prefixes of the query
-- that the backend holds: it goes on exactly as long as the node at the end of the next prefix is
-- there and is owned by the backend.
pub find_matches-leading :
    (t : TreeState) (hs : List ℕ) (b : BackendId)
    → find_matches t hs b ≡ leading (length hs) (holds_first b hs t.root)
unfolding find_matches
find_matches-leading t hs b = match_path-leading b hs t.root

-- A prefix of a list is a prefix of it.
is_prefix-take : (k : ℕ) (hs : List ℕ) → is_prefix (take k hs) hs ≡ true
unfolding is_prefix
is_prefix-take zero hs = refl
is_prefix-take (suc k) [] = refl
is_prefix-take (suc k) (h ∷ hs) = ground (arith, is_prefix-take k hs)

pub take-suc :
    (k : ℕ) (hs : List ℕ) → k < length hs → (h : ℕ) × (p : List ℕ) × (take (suc k) hs ≡ h ∷ p)
take-suc k [] lt = elim lt [ ]
take-suc k (h ∷ hs) lt = (h, take k hs, refl)

holds-stored :
    (a b : BackendId) (hs qs : List ℕ) (n : Node) (k : ℕ)
    → k < length qs
    → holds_first b qs (store_path (a, 0) hs n) k
      ≡ (holds_first b qs n k || (same_backend a b && is_prefix (take (suc k) qs) hs))
holds-stored a b hs (q ∷ qs) n k lt = holds-store_path a b hs q (take k qs) n
holds-stored a b hs [] n k lt = elim lt [ ]

-- After a `Stored` event the backend matches all of the stored sequence, whatever the tree held
-- before.
pub find_matches-stored_self :
    (t : TreeState) (b : BackendId) (w : WorkerWithRank) (hs : List ℕ) (parent : Option ℕ)
    (tokens : List ℕ)
    → find_matches (apply_event t b (stored_event w hs parent tokens)) hs b ≡ length hs
unfolding find_matches apply_event
find_matches-stored_self t b w hs parent tokens =
    match_path-leading b hs (store_path (b, 0) hs t.root)
    ∙ leading-all (length hs) (holds_first b hs (store_path (b, 0) hs t.root)) (λ k lt.
      ground
        (arith, holds-stored b b hs hs t.root k lt, is_prefix-take (suc k) hs, same_backend_refl b))

-- A `Stored` event of one backend changes no other backend's match, for any query.
pub find_matches-stored_ne :
    (t : TreeState) (a b : BackendId) (w : WorkerWithRank) (hs qs : List ℕ) (parent : Option ℕ)
    (tokens : List ℕ)
    → a ≢ b
    → find_matches (apply_event t a (stored_event w hs parent tokens)) qs b ≡ find_matches t qs b
unfolding find_matches apply_event
find_matches-stored_ne t a b w hs qs parent tokens ne =
    match_path-leading b qs (store_path (a, 0) hs t.root)
    ∙ leading-congr (length qs) (holds_first b qs (store_path (a, 0) hs t.root))
        (holds_first b qs t.root) (λ k lt. ground (arith, holds-stored a b hs qs t.root k lt))
    ∙ sym (match_path-leading b qs t.root)
