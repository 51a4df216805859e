-- ===== src/Pipe/Manager/Exit.antt =====
-- What an agent's exit does to its pipes.
use avix.Base.{
  ℕ, String, Bool, false, ◌||◌, if◌then◌else◌, ◌==◌, string_eq, nat_eq, List, [], ◌∷◌, ◌++◌, map,
  keep, Option, none, some, ◌≡◌, refl, ◌∙◌, arith, contains, inl, inr, Option-cases, Bool-cases,
  eq_iff,
}
use avix.Base.Dict.{get, remove, get-remove}
use avix.Pipe.Config.{partner}
use avix.Pipe.Manager.{
  PipeRecord, PipeManager, PipeSignal, sigpipe, close_as, is_endpoint, close_all,
  close_pipes_for_pid,
}

-- No key twice, as in every HashMap
abbrev pub HasUniqueKeys : PipeManager → Type 0
HasUniqueKeys [] = Unit
HasUniqueKeys ((id, rec) ∷ pipes) = (get id pipes ≡ none) × HasUniqueKeys pipes

abbrev ids_of : ℕ → PipeManager → List String
ids_of pid pipes = map (λ p. p.0) (keep (is_endpoint pid) pipes)

abbrev pub is_mine : ℕ → Option PipeRecord → Bool
is_mine pid none = false
is_mine pid (some rec) = rec.config.source_pid == pid || rec.config.target_pid == pid

-- The signals for the pipes of `pid`, in the order of the map
abbrev pub farewells : ℕ → PipeManager → List PipeSignal
farewells pid [] = []
farewells pid ((id, rec) ∷ pipes) =
    if is_endpoint pid (id, rec)
    then sigpipe (partner rec.config pid) id "owner_exited" ++ farewells pid pipes
    else farewells pid pipes

get-close_all :
    (ids : List String) (id : String) (pid : ℕ) (pipes : PipeManager)
    → get id (close_all ids pid pipes).0 ≡ (if contains ids id then none else get id pipes)
unfolding close_all close_as
get-close_all [] id pid pipes = refl
get-close_all (i ∷ ids) id pid pipes = ground (
  arith,
  get-close_all ids id pid (remove i pipes),
  get-close_all ids id pid pipes,
  get-remove i id pipes,
  eq_iff i id,
)

contains-ids_of :
    (id : String) (pid : ℕ) (pipes : PipeManager)
    → HasUniqueKeys pipes
    → contains (ids_of pid pipes) id ≡ is_mine pid (get id pipes)
unfolding get
contains-ids_of id pid [] u = refl
contains-ids_of id pid ((i, rec) ∷ pipes) u =
    ground (arith, contains-ids_of id pid pipes u.1, eq_iff i id)

-- In a map without repeated keys, closing the pipes of an exited agent takes away every pipe that it is
-- an end of and no other.
pub get-close_pipes_for_pid :
    (pid : ℕ) (id : String) (pipes : PipeManager)
    → HasUniqueKeys pipes
    → get id (close_pipes_for_pid pid pipes).0
      ≡ (if is_mine pid (get id pipes) then none else get id pipes)
unfolding close_pipes_for_pid
get-close_pipes_for_pid pid id pipes u =
    ground (arith, get-close_all (ids_of pid pipes) id pid pipes, contains-ids_of id pid pipes u)

abbrev goodbye : ℕ → String → Option PipeRecord → List PipeSignal
goodbye pid id none = []
goodbye pid id (some rec) = sigpipe (partner rec.config pid) id "owner_exited"

abbrev goodbyes : ℕ → List String → PipeManager → List PipeSignal
goodbyes pid [] pipes = []
goodbyes pid (id ∷ ids) pipes = goodbye pid id (get id pipes) ++ goodbyes pid ids pipes

abbrev HasNoRepeats : List String → Type 0
HasNoRepeats [] = Unit
HasNoRepeats (id ∷ ids) = (contains ids id ≡ false) × HasNoRepeats ids

goodbyes-remove :
    (pid : ℕ) (ids : List String) (i : String) (pipes : PipeManager)
    → contains ids i ≡ false
    → goodbyes pid ids (remove i pipes) ≡ goodbyes pid ids pipes
goodbyes-remove pid [] i pipes h = refl
goodbyes-remove pid (id ∷ ids) i pipes h =
    ground (arith, goodbyes-remove pid ids i pipes, get-remove i id pipes, eq_iff id i, eq_iff i id)

signals-close_all :
    (pid : ℕ) (ids : List String) (pipes : PipeManager)
    → HasNoRepeats ids
    → (close_all ids pid pipes).1 ≡ goodbyes pid ids pipes
unfolding close_all close_as
signals-close_all pid [] pipes u = refl
signals-close_all pid (i ∷ ids) pipes u = elim (Option-cases (get i pipes)) [
  | inl e ↦ ground (arith, signals-close_all pid ids pipes u.1)
  | inr (rec, e) ↦
      ground
        (arith, signals-close_all pid ids (remove i pipes) u.1, goodbyes-remove pid ids i pipes u.0)
]

goodbyes-cons :
    (pid : ℕ) (ids : List String) (i : String) (rec : PipeRecord) (pipes : PipeManager)
    → contains ids i ≡ false
    → goodbyes pid ids ((i, rec) ∷ pipes) ≡ goodbyes pid ids pipes
unfolding get
goodbyes-cons pid [] i rec pipes h = refl
goodbyes-cons pid (id ∷ ids) i rec pipes h =
    ground (arith, goodbyes-cons pid ids i rec pipes, eq_iff id i, eq_iff i id)

not_in_ids_of :
    (pid : ℕ) (id : String) (pipes : PipeManager)
    → HasUniqueKeys pipes
    → get id pipes ≡ none
    → contains (ids_of pid pipes) id ≡ false
not_in_ids_of pid id pipes u h = ground (arith, contains-ids_of id pid pipes u)

ids_of-HasNoRepeats :
    (pid : ℕ) (pipes : PipeManager) → HasUniqueKeys pipes → HasNoRepeats (ids_of pid pipes)
ids_of-HasNoRepeats pid [] u = tt
ids_of-HasNoRepeats pid ((i, rec) ∷ pipes) u = elim (Bool-cases (is_endpoint pid (i, rec))) [
  | inl e ↦ rw e (not_in_ids_of pid i pipes u.1 u.0, ids_of-HasNoRepeats pid pipes u.1)
  | inr e ↦ rw e (ids_of-HasNoRepeats pid pipes u.1)
]

goodbyes-ids_of :
    (pid : ℕ) (pipes : PipeManager)
    → HasUniqueKeys pipes
    → goodbyes pid (ids_of pid pipes) pipes ≡ farewells pid pipes
unfolding get
goodbyes-ids_of pid [] u = refl
goodbyes-ids_of pid ((i, rec) ∷ pipes) u = ground (
  arith,
  goodbyes-ids_of pid pipes u.1,
  eq_iff i i,
  not_in_ids_of pid i pipes u.1 u.0,
  goodbyes-cons pid (ids_of pid pipes) i rec pipes,
)

-- When the pipes of an exited agent are closed, in a map without repeated keys, the other end of each of
-- them gets one SIGPIPE for it, in the order of the map, and nobody else gets any.
pub signals-close_pipes_for_pid :
    (pid : ℕ) (pipes : PipeManager)
    → HasUniqueKeys pipes
    → (close_pipes_for_pid pid pipes).1 ≡ farewells pid pipes
unfolding close_pipes_for_pid
signals-close_pipes_for_pid pid pipes u =
    signals-close_all pid (ids_of pid pipes) pipes (ids_of-HasNoRepeats pid pipes u)
    ∙ goodbyes-ids_of pid pipes u
