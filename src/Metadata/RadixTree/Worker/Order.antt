-- ===== src/Metadata/RadixTree/Worker/Order.antt =====
-- The worker answers in the order of the requests, until a handle is dropped.
use hier_kv_gateway.Prelude.{
  ℕ, zero, suc, ◌<◌, ◌≡◌, refl, sym, ap, ◌∙◌, true, false, List, [], ◌∷◌, ◌++◌, length, All, arith,
  append-nil, append_assoc,
}
use hier_kv_gateway.Metadata.RadixTree.{TreeState, empty_tree}
use hier_kv_gateway.Metadata.RadixTree.Worker.{
  Query, Command, ask, shutdown_command, Reply, World, started, serve, refused, work, work_on,
  request, shutdown, drop_handle, abandoned,
}

-- A request, or a round of the worker.
pub data Action : Type 0 where
  requested : ℕ → Query → Action
  worked : Action

unfoldable pub act : Action → World → World
unfolding request work
act (requested n c) w = request n c w
act worked w = work w

unfoldable pub act_all : List Action → World → World
unfolding act
act_all [] w = w
act_all (a ∷ acts) w = act_all acts (act a w)

-- The requests among the actions, and those in the queue.
unfoldable pub requests : List Action → List (ℕ × Query)
requests [] = []
requests (requested n c ∷ acts) = (n, c) ∷ requests acts
requests (worked ∷ acts) = requests acts

unfoldable pub asks : List Command → List (ℕ × Query)
asks [] = []
asks (ask n c ∷ q) = (n, c) ∷ asks q
asks (shutdown_command ∷ q) = asks q

-- The specification: the replies of the tree alone, one query after the other.
unfoldable pub answers : TreeState → List (ℕ × Query) → List (ℕ × Reply)
answers t [] = []
answers t ((n, c) ∷ qs) = (n, (serve t c).1) ∷ answers (serve t c).0 qs

abbrev pub IsAsk : Command → Type 0
IsAsk (ask n c) = Unit
IsAsk shutdown_command = ⊥

abbrev queued : ℕ → Query → World → World
queued n c w = record w { queue = w.queue ++ ask n c ∷ [] }

-- What is answered and will be answered, if no more is asked than `qs`.
abbrev outlook : World → List (ℕ × Query) → List (ℕ × Reply)
outlook w qs = w.replies ++ answers w.tree (asks w.queue ++ qs)

record IsOpen (w : World) : Type 0 where
  running : w.running ≡ true
  queries : All IsAsk w.queue

asks-snoc :
    (q : List Command) (n : ℕ) (c : Query) (qs : List (ℕ × Query))
    → asks (q ++ ask n c ∷ []) ++ qs ≡ asks q ++ (n, c) ∷ qs
unfolding asks
asks-snoc [] n c qs = refl
asks-snoc (ask m d ∷ q) n c qs = ap (λ l. (m, d) ∷ l) (asks-snoc q n c qs)
asks-snoc (shutdown_command ∷ q) n c qs = asks-snoc q n c qs

All-snoc : (q : List Command) (n : ℕ) (c : Query) → All IsAsk q → All IsAsk (q ++ ask n c ∷ [])
All-snoc [] n c h = (tt, tt)
All-snoc (k ∷ q) n c h = (h.0, All-snoc q n c h.1)

request-outlook :
    (n : ℕ) (c : Query) (w : World) (qs : List (ℕ × Query))
    → IsOpen w
    → IsOpen (request n c w) × (outlook (request n c w) qs ≡ outlook w ((n, c) ∷ qs))
unfolding request
request-outlook n c w qs o = rw o.running (
  record { running = refl; queries = All-snoc w.queue n c o.queries },
  ap (λ l. w.replies ++ answers w.tree l) (asks-snoc w.queue n c qs),
)

work_on-outlook :
    (q : List Command) (t : TreeState) (rs : List (ℕ × Reply)) (qs : List (ℕ × Query))
    → All IsAsk q
    → IsOpen (work_on q t rs) × (outlook (work_on q t rs) qs ≡ rs ++ answers t (asks q ++ qs))
unfolding work_on asks answers
work_on-outlook [] t rs qs h = (record { running = refl; queries = tt }, refl)
work_on-outlook (ask n c ∷ q) t rs qs h = (
  record { running = refl; queries = h.1 },
  append_assoc rs ((n, (serve t c).1) ∷ []) (answers (serve t c).0 (asks q ++ qs)),
)
work_on-outlook (shutdown_command ∷ q) t rs qs h = absurd h.0

act_all-outlook :
    (acts : List Action) (w : World)
    → IsOpen w
    → outlook (act_all acts w) [] ≡ outlook w (requests acts)
unfolding act_all act requests work
act_all-outlook [] w o = refl
act_all-outlook (requested n c ∷ acts) w o =
    let (o', e) = request-outlook n c w (requests acts) o in
    act_all-outlook acts (request n c w) o' ∙ e
act_all-outlook (worked ∷ acts) w o =
    let (o', e) = work_on-outlook w.queue w.tree w.replies (requests acts) o.queries in
    rw o.running (act_all-outlook acts (work_on w.queue w.tree w.replies) o' ∙ e)

-- Whatever the order of requests and of rounds of the worker, while no handle is dropped or shut
-- down: the replies so far, and those that the queue will get, are the replies of the tree to all
-- requests, in the order they were made, one after the other.
pub act_all-replies :
    (acts : List Action)
    → (act_all acts started).replies
        ++ answers (act_all acts started).tree (asks (act_all acts started).queue)
      ≡ answers empty_tree (requests acts)
unfolding asks
act_all-replies acts =
    ap (λ l. (act_all acts started).replies ++ answers (act_all acts started).tree l)
      (sym (append-nil (asks (act_all acts started).queue)))
    ∙ act_all-outlook acts started (record { running = refl; queries = tt })

-- Rounds of the worker.
unfoldable pub rounds : ℕ → World → World
rounds zero w = w
rounds (suc n) w = rounds n (work w)

ended :
    (q : List Command) (t : TreeState) (rs : List (ℕ × Reply))
    → All IsAsk q
    → (t' : TreeState) × (rounds
          (suc (length q))
          (record { queue = q ++ shutdown_command ∷ []; tree = t; running = true; replies = rs })
        ≡ record { queue = []; tree = t'; running = false; replies = rs ++ answers t (asks q) })
unfolding rounds work work_on answers asks abandoned
ended [] t rs h = (t, refl)
ended (ask n c ∷ q) t rs h =
    let (t', e) = ended q (serve t c).0 (rs ++ (n, (serve t c).1) ∷ []) h.1 in
    (
      t',
      e
          ∙ ap (λ l. record { queue = []; tree = t'; running = false; replies = l })
              (append_assoc rs ((n, (serve t c).1) ∷ []) (answers (serve t c).0 (asks q))),
    )
ended (shutdown_command ∷ q) t rs h = absurd h.0

-- One handle that is dropped stops the worker for all: if it runs, with fewer than 4096 requests
-- and no shutdown in its queue, then after a round for each of them and one more, they are all
-- answered and the next request of any handle is refused.
pub drop_handle-stops :
    (w : World) (n : ℕ) (c : Query)
    → w.running ≡ true
    → All IsAsk w.queue
    → length w.queue < 4096
    → (request n c (rounds (suc (length w.queue)) (drop_handle w))).replies
      ≡ (w.replies ++ answers w.tree (asks w.queue)) ++ (n, refused c) ∷ []
unfolding drop_handle shutdown request
drop_handle-stops w n c run h room =
    let (t', e) = ended w.queue w.tree w.replies h in
    ap (λ v. (request n c (rounds (suc (length w.queue)) v)).replies) open_world
    ∙ ap (λ v. (request n c v).replies) e
  where
    open_world : drop_handle w ≡ record {
      queue = w.queue ++ shutdown_command ∷ [];
      tree = w.tree;
      running = true;
      replies = w.replies;
    }
    open_world = ground (arith, run, room)
