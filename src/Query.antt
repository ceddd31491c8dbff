-- ===== src/Query.antt =====
-- What the source uses of @tanstack/react-query, as interfaces: the object that `useMutation`
-- returns, with its documented behaviour, and the part of `useQuery`'s result that the pages read.
-- Not code of this repository.
pub mod Simple
pub mod SimplePages
use blockops.Prelude.{
  ◌≡◌, ◌≢◌, refl, ◌⊎◌, inl, inr, Bool, true, false, not, ◌&&◌, Option, none, some, List, [], ◌∷◌,
  ◌++◌, is_some,
}

-- `status` of a mutation
pub data Status : Type 0 where
  idle pending failed succeeded : Status

abbrev pub is_pending : Status → Bool
is_pending pending = true
is_pending _ = false

abbrev pub is_error : Status → Bool
is_error failed = true
is_error _ = false

abbrev pub is_success : Status → Bool
is_success succeeded = true
is_success _ = false

pub pending-cases : (s : Status) → (s ≡ pending) ⊎ (s ≢ pending)
pending-cases pending = inl refl
pending-cases idle = inr (λ e. cc)
pending-cases failed = inr (λ e. cc)
pending-cases succeeded = inr (λ e. cc)

-- A mutation with variables V and errors E. `resolve` and `reject` are what its observer does when
-- the promise of the mutation function settles: it follows only a call that is pending, so after
-- a `reset` a late result does not reach it.
pub record Mutation (V E : Type 0) : Type 1 where
  pub State : Type 0
  pub initial : State
  pub mutate : V → State → State
  pub reset : State → State
  pub resolve : State → State
  pub reject : E → State → State
  pub status : State → Status
  pub variables : State → Option V
  pub error : State → Option E
  pub initial_status : status initial ≡ idle
  pub initial_error : error initial ≡ none
  pub initial_variables : variables initial ≡ none
  pub mutate_status : (v : V) (s : State) → status (mutate v s) ≡ pending
  pub mutate_variables : (v : V) (s : State) → variables (mutate v s) ≡ some v
  pub mutate_error : (v : V) (s : State) → error (mutate v s) ≡ none
  pub reset_status : (s : State) → status (reset s) ≡ idle
  pub reset_variables : (s : State) → variables (reset s) ≡ none
  pub reset_error : (s : State) → error (reset s) ≡ none
  pub resolve_status : (s : State) → status s ≡ pending → status (resolve s) ≡ succeeded
  pub resolve_variables : (s : State) → variables (resolve s) ≡ variables s
  pub resolve_error : (s : State) → status s ≡ pending → error (resolve s) ≡ none
  pub reject_status : (e : E) (s : State) → status s ≡ pending → status (reject e s) ≡ failed
  pub reject_variables : (e : E) (s : State) → variables (reject e s) ≡ variables s
  pub reject_error : (e : E) (s : State) → status s ≡ pending → error (reject e s) ≡ some e
  pub resolve_detached : (s : State) → status s ≢ pending → resolve s ≡ s
  pub reject_detached : (e : E) (s : State) → status s ≢ pending → reject e s ≡ s

-- The result of `useQuery`: `isPending` is that there is neither data nor an error yet,
-- `isFetching` that a request is under way, and data survive a failed refetch.
pub record QueryResult (A E : Type 0) : Type 0 where
  pub value : Option A
  pub error : Option E
  pub fetching : Bool

-- `isLoading`: a first request is under way.
abbrev pub is_loading : {A E : Type 0} → QueryResult A E → Bool
is_loading q = q.fetching && not (is_some q.value) && not (is_some q.error)

-- `queryClient.setQueryData` for one key: the data are there, and the query has succeeded.
pub record CacheEntry (A E : Type 0) : Type 0 where
  pub set_data : A → QueryResult A E → QueryResult A E
  pub set_value : (a : A) (q : QueryResult A E) → (set_data a q).value ≡ some a
  pub set_error : (a : A) (q : QueryResult A E) → (set_data a q).error ≡ none

-- The fetches of one query: data survive a new fetch and a failed one, and a successful one leaves
-- no error.
pub record Fetching (A E : Type 0) : Type 0 where
  pub start : QueryResult A E → QueryResult A E
  pub succeed : A → QueryResult A E → QueryResult A E
  pub fail : E → QueryResult A E → QueryResult A E
  pub start_value : (q : QueryResult A E) → (start q).value ≡ q.value
  pub succeed_value : (a : A) (q : QueryResult A E) → (succeed a q).value ≡ some a
  pub succeed_error : (a : A) (q : QueryResult A E) → (succeed a q).error ≡ none
  pub fail_value : (e : E) (q : QueryResult A E) → (fail e q).value ≡ q.value
  pub fail_error : (e : E) (q : QueryResult A E) → (fail e q).error ≡ some e

-- `useInfiniteQuery` with page parameters P, pages A and errors E: `fetch` is `fetchNextPage`, or the
-- first fetch, and `asked` the parameter of the fetch that is under way. It asks for a page only
-- while no fetch is under way and a next parameter is known, and keeps its pages when one fails.
abbrev pub next_param : {P A : Type 0} → P → (A → Option P) → List A → Option P
next_param first next [] = some first
next_param first next (a ∷ []) = next a
next_param first next (a ∷ b ∷ pages) = next_param first next (b ∷ pages)

pub record InfiniteQuery (P A E : Type 0) (first : P) (next : A → Option P) : Type 1 where
  pub State : Type 0
  pub initial : State
  pub pages : State → List A
  pub asked : State → Option P
  pub fetch : State → State
  pub resolve : A → State → State
  pub reject : E → State → State
  pub initial_pages : pages initial ≡ []
  pub initial_asked : asked initial ≡ none
  pub fetch_pages : (s : State) → pages (fetch s) ≡ pages s
  pub fetch_asked : (s : State) → asked s ≡ none → asked (fetch s) ≡ next_param first next (pages s)
  pub fetch_asked_once : (s : State) (p : P) → asked s ≡ some p → asked (fetch s) ≡ some p
  pub resolve_pages :
      (a : A) (s : State) (p : P) → asked s ≡ some p → pages (resolve a s) ≡ pages s ++ a ∷ []
  pub resolve_asked : (a : A) (s : State) → asked (resolve a s) ≡ none
  pub resolve_detached : (a : A) (s : State) → asked s ≡ none → pages (resolve a s) ≡ pages s
  pub reject_pages : (e : E) (s : State) → pages (reject e s) ≡ pages s
  pub reject_asked : (e : E) (s : State) → asked (reject e s) ≡ none
