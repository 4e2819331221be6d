-- ===== src/Server/History.antt =====
-- `get_history` and `post_retention` of crates/auru-pm-server/src/main.rs: the walk along first
-- parents from the head to the history floor. A `while` loop takes fuel, and `none` says that it
-- ran out.
use auru_pm_core.Protocol.Retention.{RetentionRule, retained_prefix_len}
use auru_pm_core.Prelude.Int.{ℤ}
use auru_pm_core.Hash.{to_string}
use auru_pm_core.Server.Store.{
  project_for, update_project, mutate_persisted, Principal, Io, World, Db, project_key,
}
use auru_pm_core.Commit.{Content}
use auru_pm_core.Prelude.{
  ℕ, zero, suc, ◌+◌, ◌-◌, List, [], ◌∷◌, map, Text, Option, some, none, Bool, true, if◌then◌else◌,
  Map, lookup, contains, opt_text_eq, head?, leb, length, get_elem?, is_none,
}
use auru_pm_core.Server.Handlers.{
  Response, HistoryRow, endless, history_is, not_found, retention_is, respond,
}
use mathlib.Core.Option

unfoldable pub first_parent : Content → Option Text
first_parent c = Option.map to_string (head? c.parents)

-- The summary of a stored commit, which a `description` always stands in.
unfoldable pub history_row : Text → Content → HistoryRow
history_row id c = record {
  id = id;
  parents = map to_string c.parents;
  author = c.author;
  timestamp = c.timestamp;
  message = c.message;
  description = c.description;
}

-- `HistoryQuery`, with the default limit put in.
pub record Page : Type 0 where
  pub limit : ℕ
  pub before : Option Text

abbrev pub default_limit : Option ℕ → ℕ
default_limit none = 100
default_limit (some n) = n

abbrev pub cons_some {ℓ} : {A : Type ℓ} → A → Option (List A) → Option (List A)
cons_some x none = none
cons_some x (some xs) = some (x ∷ xs)

module _ (commits : Map Content) (owned : List Text) (floor : Option Text) where
  -- The loop of `get_history`, with the number of rows so far. Either branch ends at the floor.
  unfoldable pub history_walk : ℕ → Page → Bool → ℕ → Option Text → Option (List HistoryRow)
  history_walk fuel page started count none = some []
  history_walk zero page started count (some id) = none
  history_walk (suc fuel) page started count (some id) =
      if contains owned id
      then elim (lookup id commits) [
        | none ↦ some []
        | some c ↦
            let row = history_row id c in
            let more = history_walk fuel page true (count + 1) (first_parent c) in
            let skip =
              history_walk fuel page (opt_text_eq (some id) page.before) count (first_parent c) in
            let at_floor = opt_text_eq (some id) floor in
            if started
            then (if leb page.limit (count + 1)
                then some (row ∷ [])
                else if at_floor
                then some (row ∷ [])
                else cons_some row more)
            else (if at_floor then some [] else skip)
      ]
      else some []

  -- The loop of `post_retention`.
  unfoldable pub retention_walk : ℕ → Option Text → Option (List (Text × Content))
  retention_walk fuel none = some []
  retention_walk zero (some id) = none
  retention_walk (suc fuel) (some id) = elim (lookup id commits) [
    | none ↦ some []
    | some c ↦
        let more = retention_walk fuel (first_parent c) in
        if contains owned id
        then (if opt_text_eq (some id) floor then some ((id, c) ∷ []) else cons_some (id, c) more)
        else some []
  ]

-- Every id of the walk is new (`Grown` in `Server.Grown`), so one round for each commit of the
-- project, and one more, is enough.
abbrev pub walk_fuel : List Text → ℕ
walk_fuel owned = suc (length owned)

abbrev pub history_or_endless : Option (List HistoryRow) → Response
history_or_endless none = endless
history_or_endless (some rows) = history_is rows

-- Without a project the cursor is empty, and so is the history.
unfoldable pub get_history : Principal → Text → Option ℕ → Option Text → World → Response
unfolding history_walk project_for
get_history identity handle limit before w = elim (project_for w.db identity handle) [
  | none ↦ history_is []
  | some project ↦
      let page : Page = record { limit = default_limit limit; before = before } in
      history_or_endless (
        history_walk w.db.saved.commits project.commits project.history_floor
          (walk_fuel project.commits) page (is_none before) 0 project.head)
]

abbrev pub timestamps : List (Text × Content) → List ℤ
timestamps [] = []
timestamps ((id, c) ∷ rest) = c.timestamp ∷ timestamps rest

-- `retained_len.checked_sub(1)` and then `history.get(index)`.
abbrev pub last_retained {ℓ} : {A : Type ℓ} → ℕ → List A → Option A
last_retained zero xs = none
last_retained (suc index) xs = get_elem? xs index

unfoldable pub set_floor : Principal → Text → Text → Db → Db
unfolding update_project
set_floor identity handle floor db =
    update_project (project_key identity handle) (λ p. record p { history_floor = some floor }) db

-- `post_retention` after the walk.
unfoldable pub retain :
    Io → Principal → Text → RetentionRule → List (Text × Content) → World → Response × World
unfolding set_floor mutate_persisted
retain io identity handle rule history w =
    let retained = retained_prefix_len rule (timestamps history) in
    elim (last_retained retained history) [
      | none ↦ (retention_is 0, w)
      | some (floor, c) ↦
          let (done, w') = mutate_persisted io (set_floor identity handle floor) w in
          (respond done (retention_is (length history - retained)), w')
    ]

unfoldable pub post_retention : Io → Principal → Text → RetentionRule → World → Response × World
unfolding retain retention_walk project_for
post_retention io identity handle rule w = elim (project_for w.db identity handle) [
  | none ↦ (not_found, w)
  | some project ↦
      elim (retention_walk w.db.saved.commits project.commits project.history_floor
        (walk_fuel project.commits) project.head) [
          | none ↦ (endless, w)
          | some history ↦ retain io identity handle rule history w
        ]
]
