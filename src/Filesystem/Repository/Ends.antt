-- ===== src/Filesystem/Repository/Ends.antt =====
-- The walks over a history in crates/auru-pm/src/filesystem.rs end.
use auru_pm_core.Filesystem.Repository.Done.{
  IsDone, head_value-IsHash, err-injective, bind-IsDone, store-IsDone, if-IsDone, rows-IsDone,
  control-IsDone, parsed-IsDone, floor_value-IsDone, head_value-IsDone,
}
use auru_pm_core.Prelude.{
  Result, ℕ, ◌≢◌, ◌≡◌, Option, ◌≤◌, lookup, err, ok, Bool, length, true, arith, some, ◌>>=◌, false,
  ◌<◌, none, leb, ◌+◌, none-some, ap, if◌then◌else◌, Bool-cases, List, text_eq, refl, inl,
  text_eq_iff, inr, ◌∙◌, err-ok, >>=-eq-ok, opt_text_eq, ok-injective, Option-cases, is_none,
}
use auru_pm_core.Prelude.{[], ◌∷◌, some, none, suc, zero, ok, err, true, false}
use auru_pm_core.Cas.{Codec, Store, File, get, path_for, hash_of, CasError}
use auru_pm_core.Cas.Names.{hash_of-path_for}
use auru_pm_core.Commit.{Commit, SampleEntry, summary}
use auru_pm_core.Hash.{ContentHash}
use auru_pm_core.Hash.RoundTrip.{IsHash}
use auru_pm_core.Filesystem.Repository.{
  Repository, RepositoryIo, RepositoryError, endless, Range, read_commit, visible_walk,
  visible_commits, range_walk, list_history, parent_of, or_store_failed, history_fuel, read_control,
  read_head, read_history_floor, default_history_limit,
}

module _ (rank : ContentHash → ℕ) where
  ranks_to : ℕ → Option ContentHash → Bool
  ranks_to r none = false
  ranks_to r (some h) = leb (rank h) r

  -- How many blobs have a rank up to `r`.
  pub count_to : ℕ → Store → ℕ
  count_to r [] = 0
  count_to r ((path, file) ∷ s) = (if ranks_to r (hash_of path) then 1 else 0) + count_to r s

  pub count_to_le : (r : ℕ) (s : Store) → count_to r s ≤ length s
  unfolding count_to
  count_to_le r [] = omega arith
  count_to_le r ((path, file) ∷ s) = ground (arith, count_to_le r s)

  ranks_to_mono :
      (q r : ℕ) (o : Option ContentHash) → q ≤ r → ranks_to q o ≡ true → ranks_to r o ≡ true
  unfolding ranks_to
  ranks_to_mono q r none b h = cc
  ranks_to_mono q r (some g) b h = ground arith

  count_to_mono : (q r : ℕ) (s : Store) → q ≤ r → count_to q s ≤ count_to r s
  unfolding count_to
  count_to_mono q r [] b = omega arith
  count_to_mono q r ((path, file) ∷ s) b =
      let later = count_to_mono q r s b in
      elim (Bool-cases (ranks_to q (hash_of path))) [
        | inl low ↦ rw (low, ranks_to_mono q r (hash_of path) b low) (omega arith)
        | inr high ↦ rw high (omega arith)
      ]

  -- The blob of `h` counts up to the rank of `h`, and not below.
  pub count_to-step :
      (q : ℕ) (h : ContentHash) (file : File) (s : Store)
      → IsHash h
      → lookup (path_for h) s ≡ some file
      → q < rank h
      → count_to q s + 1 ≤ count_to (rank h) s
  unfolding count_to lookup ranks_to
  count_to-step q h file [] v e b = absurd (none-some e)
  count_to-step q h file ((path, f) ∷ s) v e b = elim (Bool-cases (text_eq path (path_for h))) [
    | inl same ↦
        let it : hash_of path ≡ some h =
          ap hash_of ((text_eq_iff path (path_for h)).0 same) ∙ hash_of-path_for h v in
        let above : leb (rank h) q ≡ false = ground arith in
        let own : leb (rank h) (rank h) ≡ true = ground arith in
        rw (it, above, own) (omega (arith, count_to_mono q (rank h) s (omega arith)))
    | inr other ↦
        let later = count_to-step q h file s v (rw other at e) b in
        elim (Bool-cases (ranks_to q (hash_of path))) [
          | inl low ↦
              rw (low, ranks_to_mono q (rank h) (hash_of path) (omega arith) low)
                (omega (arith, later))
          | inr high ↦ rw high (omega (arith, later))
        ]
  ]

pub or_store_failed-ok :
    {A : Type 0} (r : Result CasError A) {a : A} → or_store_failed r ≡ ok a → r ≡ ok a
or_store_failed-ok (ok b) e = ap (λ c. ok c) (ok-injective e)
or_store_failed-ok (err x) e = err-ok e

pub get-found :
    (codec : Codec) (readable : Bool) (id : ContentHash) (commits : Store) (bytes : List ℕ)
    → get codec readable id commits ≡ ok bytes
    → (file : File) × (lookup (path_for id) commits ≡ some file)
unfolding get
get-found codec false id commits bytes e = err-ok e
get-found codec true id commits bytes e = elim (Option-cases (lookup (path_for id) commits)) [
  | inl missing ↦ err-ok (rw (get, missing) at e)
  | inr (file, found) ↦ (file, found)
]

module _ (codec : Codec) (parse_commit : List ℕ → ContentHash → Option Commit)
    (parse_manifest : List ℕ → Option (List SampleEntry)) (io : RepositoryIo) (s : Repository)
    (rank : ContentHash → ℕ) where
  -- The parent of a commit that can be read is a hash of a lower rank.
  abbrev pub IsRanked : Type 0
  IsRanked =
      (id parent : ContentHash) (commit : Commit)
      → read_commit codec parse_commit parse_manifest io s id ≡ ok commit
      → parent_of commit ≡ some parent
      → IsHash parent × (rank parent < rank id)

  -- There is fuel for the blobs up to the cursor.
  unfoldable pub Fuelled : ℕ → Option ContentHash → Type 0
  Fuelled fuel next =
      (id : ContentHash) → next ≡ some id → IsHash id × (count_to rank (rank id) s.commits < fuel)

  read_commit-IsDone :
      (id : ContentHash) → IsDone (read_commit codec parse_commit parse_manifest io s id)
  unfolding read_commit
  read_commit-IsDone id =
      bind-IsDone (or_store_failed (get codec (io.commit_readable id) id s.commits)) _
        (store-IsDone (get codec (io.commit_readable id) id s.commits))
        (λ bytes got. parsed-IsDone (parse_commit bytes id))

  pub Fuelled-parent :
      (fuel : ℕ) (id : ContentHash) (commit : Commit)
      → IsRanked
      → Fuelled (suc fuel) (some id)
      → read_commit codec parse_commit parse_manifest io s id ≡ ok commit
      → Fuelled fuel (parent_of commit)
  unfolding Fuelled read_commit
  Fuelled-parent fuel id commit ranked f read parent e =
      let (hash, lower) = ranked id parent commit read e in
      let (bytes, got, parsed) =
        >>=-eq-ok (or_store_failed (get codec (io.commit_readable id) id s.commits)) _ read in
      let (file, found) =
        get-found codec (io.commit_readable id) id s.commits bytes
          (or_store_failed-ok (get codec (io.commit_readable id) id s.commits) got) in
      let (this, room) = f id refl in
      (
        hash,
        omega (arith, room, count_to-step rank (rank parent) id file s.commits this found lower),
      )

  visible_walk-IsDone :
      (floor : Option ContentHash) (fuel : ℕ) (next : Option ContentHash)
      → IsRanked
      → Fuelled fuel next
      → IsDone (visible_walk codec parse_commit parse_manifest io s floor fuel next)
  unfolding visible_walk Fuelled
  visible_walk-IsDone floor fuel none ranked f = λ e. cc
  visible_walk-IsDone floor zero (some id) ranked f =
      let (hash, room) = f id refl in absurd (omega (arith, room))
  visible_walk-IsDone floor (suc fuel) (some id) ranked f =
      bind-IsDone (read_commit codec parse_commit parse_manifest io s id) _ (read_commit-IsDone id)
        (λ commit read.
          bind-IsDone _ _
            (if-IsDone (opt_text_eq (some id) floor) _ (
              visible_walk-IsDone floor fuel (parent_of commit) ranked
                (Fuelled-parent fuel id commit ranked f read)))
            (λ rest e same. cc))

  range_walk-IsDone :
      (floor : Option ContentHash) (range : Range) (fuel : ℕ) (started : Bool) (count : ℕ)
      (next : Option ContentHash)
      → IsRanked
      → Fuelled fuel next
      → IsDone
          (range_walk codec parse_commit parse_manifest io s floor range fuel started count next)
  unfolding range_walk Fuelled
  range_walk-IsDone floor range fuel started count none ranked f = λ e. cc
  range_walk-IsDone floor range zero started count (some id) ranked f =
      let (hash, room) = f id refl in absurd (omega (arith, room))
  range_walk-IsDone floor range (suc fuel) started count (some id) ranked f =
      bind-IsDone (read_commit codec parse_commit parse_manifest io s id) _ (read_commit-IsDone id)
        (λ commit read.
          let behind = Fuelled-parent fuel id commit ranked f read in
          rows-IsDone started (leb range.limit (count + 1)) (opt_text_eq (some id) floor)
            (summary commit) _ _
            (range_walk-IsDone floor range fuel true (count + 1) (parent_of commit) ranked behind)
            (range_walk-IsDone floor range fuel (opt_text_eq (some id) range.before) count
              (parent_of commit) ranked behind))

module _ (codec : Codec) (parse_commit : List ℕ → ContentHash → Option Commit)
    (parse_manifest : List ℕ → Option (List SampleEntry)) (io : RepositoryIo) (s : Repository)
    (rank : ContentHash → ℕ) (ranked : IsRanked codec parse_commit parse_manifest io s rank) where
  -- From the head there is fuel enough.
  pub head-Fuelled :
      (head : Option ContentHash)
      → read_head io s ≡ ok head
      → Fuelled codec parse_commit parse_manifest io s rank
          (history_fuel codec parse_commit parse_manifest io s)
          head
  unfolding Fuelled read_head
  head-Fuelled head read id e =
      let (value, found, parsed) = >>=-eq-ok (read_control io.head_readable s.head) _ read in
      (
        head_value-IsHash value (parsed ∙ ap (λ h. ok h) e),
        omega (arith, count_to_le rank (rank id) s.commits),
      )

  -- A walk from the head, behind the two control files.
  from_head-IsDone :
      {A : Type 0} (walk : Option ContentHash → Option ContentHash → Result RepositoryError A)
      → ((floor head : Option ContentHash) → read_head io s ≡ ok head → IsDone (walk floor head))
      → IsDone (do floor ← read_history_floor io s; head ← read_head io s; walk floor head)
  unfolding read_history_floor read_head
  from_head-IsDone walk h =
      bind-IsDone (read_history_floor io s) _
        (bind-IsDone (read_control io.floor_readable s.floor) _
          (control-IsDone io.floor_readable s.floor) (λ value e. floor_value-IsDone value))
        (λ floor e.
          bind-IsDone (read_head io s) _
            (bind-IsDone (read_control io.head_readable s.head) _
              (control-IsDone io.head_readable s.head) (λ value e. head_value-IsDone value))
            (h floor))

  -- If each commit that can be read has a first parent of 32 bytes and of a lower rank, or none,
  -- the walk of visible commits and every history request end, with a result or an error of the
  -- code.
  pub history_ends :
      (visible_commits codec parse_commit parse_manifest io s ≢ err endless)
      × ((limit : Option ℕ) (before : Option ContentHash)
          → list_history codec parse_commit parse_manifest io limit before s ≢ err endless)
  unfolding visible_commits list_history
  history_ends = (
    from_head-IsDone _ (λ floor head e.
        visible_walk-IsDone codec parse_commit parse_manifest io s rank floor _ head ranked
          (head-Fuelled head e)),
    λ limit before. elim (Bool-cases io.locked) [
      | inr unlocked ↦ rw unlocked (λ e. let never = err-injective e in cc)
      | inl locked ↦ rw locked (
          from_head-IsDone _ (λ floor head e.
            range_walk-IsDone codec parse_commit parse_manifest io s rank floor
              (record { limit = default_history_limit limit; before = before }) _ (is_none before) 0
              head ranked (head-Fuelled head e)))
    ],
  )
