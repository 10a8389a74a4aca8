-- ===== src/Routing/PrefixHistory/Matches.antt =====
-- A recorded prefix is found again, and longer queries match at least as far.
use hier_kv_gateway.Prelude.{
  ℕ, zero, suc, ◌≤◌, ◌<◌, ◌≡◌, ◌≢◌, refl, Option, none, some, List, [], ◌∷◌, ◌++◌, length, get_or,
  arith, ℕ_discrete, Option-cases, inl, inr, ap, subst, sym, ◌∙◌, length-append,
}
use hier_kv_gateway.Ids.{BackendId}
use hier_kv_gateway.HashMap.{lookup, lookup-insert}
use hier_kv_gateway.Routing.PrefixHistory.{
  DispatchRecord, Entries, PrefixReuseHistory, bump, bumped, bump_all, longest, hashes_from,
  compute_prefix_hashes, find_longest_match, evict_if_needed, record_dispatch,
}

-- The hash has an entry, of this backend.
pub record IsRecorded (backend : BackendId) (m : Entries) (hash : ℕ) : Type 0 where
  pub entry : DispatchRecord
  pub found : lookup ℕ_discrete hash m ≡ some entry
  pub owner : entry.backend ≡ backend

backend-bumped :
    (now : ℕ) (b : BackendId) (o : Option DispatchRecord) → (bumped now b o).backend ≡ b
unfolding bumped
backend-bumped now b none = refl
backend-bumped now b (some r) = refl

bump-IsRecorded_self :
    (now : ℕ) (b : BackendId) (m : Entries) (h : ℕ) → IsRecorded b (bump now b m h) h
unfolding bump
bump-IsRecorded_self now b m h =
    let r = bumped now b (lookup ℕ_discrete h m) in
    record {
      entry = r;
      found = ground (arith, lookup-insert ℕ_discrete h h r m);
      owner = backend-bumped now b (lookup ℕ_discrete h m);
    }

bump-IsRecorded :
    (now : ℕ) (b : BackendId) (m : Entries) (h k : ℕ)
    → IsRecorded b m k
    → IsRecorded b (bump now b m h) k
unfolding bump
bump-IsRecorded now b m h k r = elim (ℕ_discrete h k) [
  | yes p ↦ subst (λ j. IsRecorded b (bump now b m h) j) p (bump-IsRecorded_self now b m h)
  | no p ↦ record {
    entry = r.entry;
    found =
        ground
          (arith, lookup-insert ℕ_discrete h k (bumped now b (lookup ℕ_discrete h m)) m, r.found);
    owner = r.owner;
  }
]

bump_all-keeps :
    (now : ℕ) (b : BackendId) (hs : List ℕ) (m : Entries) (k : ℕ)
    → IsRecorded b m k
    → IsRecorded b (bump_all now b hs m) k
unfolding bump_all
bump_all-keeps now b [] m k r = r
bump_all-keeps now b (h ∷ hs) m k r =
    bump_all-keeps now b hs (bump now b m h) k (bump-IsRecorded now b m h k r)

-- Every hash of the list has an entry of the backend afterwards.
bump_all-IsRecorded :
    (now : ℕ) (b : BackendId) (hs : List ℕ) (m : Entries) (i : ℕ)
    → i < length hs
    → IsRecorded b (bump_all now b hs m) (get_or hs i 0)
unfolding bump_all
bump_all-IsRecorded now b [] m i lt = elim lt [ ]
bump_all-IsRecorded now b (h ∷ hs) m zero lt =
    bump_all-keeps now b hs (bump now b m h) h (bump-IsRecorded_self now b m h)
bump_all-IsRecorded now b (h ∷ hs) m (suc i) lt =
    bump_all-IsRecorded now b hs (bump now b m h) i (omega arith)

some≢none : {A : Type 0} {a : A} → some a ≢ none
some≢none h = cc

-- A search finds an entry at least as long as any that is there.
longest-le :
    (m : Entries) (hashes : List ℕ) (n i : ℕ) (r : DispatchRecord)
    → i < n
    → lookup ℕ_discrete (get_or hashes i 0) m ≡ some r
    → (k : ℕ) × (r' : DispatchRecord) × (longest m hashes n ≡ some (k, r')) × (i < k) × (k ≤ n)
unfolding longest
longest-le m hashes zero i r lt found = elim lt [ ]
longest-le m hashes (suc n) i r lt found =
    elim (Option-cases (lookup ℕ_discrete (get_or hashes n 0) m)) [
      | inr (r', e) ↦ (suc n, r', ground (arith, e), omega arith, omega arith)
      | inl e ↦
          let (k, r', f, above, below) = longest-le m hashes n i r (lower e) found in
          (k, r', ground (arith, e, f), above, omega arith)
    ]
  where
    lower : lookup ℕ_discrete (get_or hashes n 0) m ≡ none → i < n
    lower e = elim (ℕ_discrete i n) [
      | yes p ↦ absurd (some≢none (sym found ∙ rw p e))
      | no p ↦ omega arith
    ]

module _ (xxh3 : List ℕ → ℕ → ℕ) where
  length-hashes_from : (hs : List ℕ) (prev : ℕ) → length (hashes_from xxh3 prev hs) ≡ length hs
  unfolding hashes_from
  length-hashes_from [] prev = refl
  length-hashes_from (h ∷ hs) prev = ap suc (length-hashes_from hs _)

  length-compute : (hs : List ℕ) → length (compute_prefix_hashes xxh3 hs) ≡ length hs
  unfolding compute_prefix_hashes
  length-compute [] = refl
  length-compute (h ∷ hs) = ap suc (length-hashes_from hs _)

  get_or-hashes_from :
      (hs gs : List ℕ) (i prev : ℕ)
      → i < length hs
      → get_or (hashes_from xxh3 prev (hs ++ gs)) i 0 ≡ get_or (hashes_from xxh3 prev hs) i 0
  unfolding hashes_from
  get_or-hashes_from [] gs i prev lt = elim lt [ ]
  get_or-hashes_from (h ∷ hs) gs zero prev lt = refl
  get_or-hashes_from (h ∷ hs) gs (suc i) prev lt = get_or-hashes_from hs gs i _ (omega arith)

  -- The hashes are incremental: those of a prefix are the first hashes of the whole.
  get_or-compute :
      (hs gs : List ℕ) (i : ℕ)
      → i < length hs
      → get_or (compute_prefix_hashes xxh3 (hs ++ gs)) i 0
        ≡ get_or (compute_prefix_hashes xxh3 hs) i 0
  unfolding compute_prefix_hashes
  get_or-compute [] gs i lt = elim lt [ ]
  get_or-compute (h ∷ hs) gs zero lt = refl
  get_or-compute (h ∷ hs) gs (suc i) lt = get_or-hashes_from hs gs i _ (omega arith)

  module _ (sort : List (ℕ × ℕ) → List (ℕ × ℕ)) (now : ℕ) (t : PrefixReuseHistory) (h : ℕ)
      (hs : List ℕ) (b : BackendId) where
    -- The entries of a dispatch, before any is evicted.
    abbrev pub dispatched : Entries
    dispatched = bump_all now b (compute_prefix_hashes xxh3 (h ∷ hs)) t.entries

    entries-record_dispatch :
        length dispatched ≤ t.max_entries
        → (record_dispatch xxh3 sort now t (h ∷ hs) b).entries ≡ dispatched
    unfolding record_dispatch evict_if_needed
    entries-record_dispatch fits = ground arith

    last-IsRecorded :
        (gs : List ℕ)
        → IsRecorded b dispatched
            (get_or (compute_prefix_hashes xxh3 ((h ∷ hs) ++ gs)) (length hs) 0)
    last-IsRecorded gs =
        subst (λ j. IsRecorded b dispatched j)
          (sym (get_or-compute (h ∷ hs) gs (length hs) (omega arith)))
          (bump_all-IsRecorded now b (compute_prefix_hashes xxh3 (h ∷ hs)) t.entries (length hs)
            (omega (arith, length-compute (h ∷ hs))))

    -- While the entries fit the capacity, a dispatch of `h ∷ hs` is found again: any query that
    -- starts with `h ∷ hs` has a match, at least as long as it.
    pub find_longest_match-extension :
        (gs : List ℕ)
        → length dispatched ≤ t.max_entries
        → (k : ℕ) × (r : DispatchRecord) × (find_longest_match xxh3
              (record_dispatch xxh3 sort now t (h ∷ hs) b)
              ((h ∷ hs) ++ gs)
            ≡ some (k, r))
          × (length (h ∷ hs) ≤ k)
          × (k ≤ length ((h ∷ hs) ++ gs))
    unfolding find_longest_match
    find_longest_match-extension gs fits =
        let q = (h ∷ hs) ++ gs in
        let hashes = compute_prefix_hashes xxh3 q in
        let rec = last-IsRecorded gs in
        let (k, r, e, above, below) =
          longest-le dispatched hashes (length hashes) (length hs) rec.entry
            (omega (arith, length-compute q, length-append hs gs)) rec.found in
        (k, r, rw (entries-record_dispatch fits) e, above, omega (arith, below, length-compute q))

    -- While the entries fit the capacity, the query `h ∷ hs` is matched whole after its dispatch,
    -- by an entry of the backend it was dispatched to.
    pub find_longest_match-record_dispatch :
        length dispatched ≤ t.max_entries
        → (r : DispatchRecord) × (find_longest_match xxh3
              (record_dispatch xxh3 sort now t (h ∷ hs) b)
              (h ∷ hs)
            ≡ some (length (h ∷ hs), r))
          × (r.backend ≡ b)
    unfolding find_longest_match longest
    find_longest_match-record_dispatch fits =
        let rec =
          bump_all-IsRecorded now b (compute_prefix_hashes xxh3 (h ∷ hs)) t.entries (length hs)
            (omega (arith, length-compute (h ∷ hs))) in
        (
          rec.entry,
          ground (arith, entries-record_dispatch fits, length-compute (h ∷ hs), rec.found),
          rec.owner,
        )
