-- ===== src/Filesystem/Repository/Retained.antt =====
-- What is visible after `prune_history` of crates/auru-pm/src/filesystem.rs.
use mathlib.Core.Path.{subst}
use auru_pm_core.Cas.{Codec, get, path_for}
use auru_pm_core.Commit.{Commit, SampleEntry}
use auru_pm_core.Filesystem.Repository.{
  Repository, RepositoryIo, read_commit, visible_walk, parent_of, or_store_failed,
}
use auru_pm_core.Filesystem.Repository.History.{KeepsId, visible_step, read_commit-id}
use auru_pm_core.Filesystem.Repository.Ends.{
  IsRanked, count_to, get-found, or_store_failed-ok, count_to-step,
}
use auru_pm_core.Filesystem.Repository.Prune.{ids, floor_at}
use auru_pm_core.Hash.{ContentHash}
use auru_pm_core.Hash.RoundTrip.{IsHash}
use auru_pm_core.Prelude.{
  [], ◌∷◌, some, suc, zero, ok, true, false, List, contains, ◌≡◌, ℕ, arith, Bool-cases, none-some,
  Option, text_eq, Option-cases, inr, inl, sym, ap, refl, text_eq_iff, some-injective, ok-injective,
  ◌∙◌, err-ok, >>=-eq-ok, ◌≤◌, opt_text_eq, lookup, ◌<◌, take, ◌+◌, text_eq_refl, text_ne,
}

module _ (codec : Codec) (parse_commit : List ℕ → ContentHash → Option Commit)
    (parse_manifest : List ℕ → Option (List SampleEntry)) (keeps : KeepsId parse_commit)
    (io : RepositoryIo) (s : Repository) where
  -- The floor of a history has a lower rank than its head, or is it.
  pub floor_at-rank :
      (rank : ContentHash → ℕ) (old : Option ContentHash) (fuel index : ℕ) (id floor : ContentHash)
      (commits : List Commit)
      → IsRanked codec parse_commit parse_manifest io s rank
      → IsHash id
      → visible_walk codec parse_commit parse_manifest io s old fuel (some id) ≡ ok commits
      → floor_at (suc index) commits ≡ some floor
      → IsHash floor × (rank floor ≤ rank id)
  unfolding visible_walk
  floor_at-rank rank old zero index id floor commits ranked v e f = err-ok e
  floor_at-rank rank old (suc fuel) zero id floor commits ranked v e f =
      let (commit, rest, read, behind, same) =
        visible_step codec parse_commit parse_manifest keeps io s old fuel id commits e in
      let named = read_commit-id codec parse_commit parse_manifest keeps io s old id commit read in
      let top = subst (λ cs. floor_at 1 cs ≡ some floor) (sym same) f in
      let at_top : id ≡ floor = sym named ∙ some-injective _ _ top in
      (subst IsHash at_top v, rw at_top (omega arith))
  floor_at-rank rank old (suc fuel) (suc index) id floor commits ranked v e f =
      let (commit, rest, read, behind, same) =
        visible_step codec parse_commit parse_manifest keeps io s old fuel id commits e in
      let deeper : floor_at (suc index) rest ≡ some floor =
        subst (λ cs. floor_at (suc (suc index)) cs ≡ some floor) (sym same) f in
      elim (Bool-cases (opt_text_eq (some id) old)) [
        | inl stop ↦ absurd (none-some (rw (behind.0 stop) at deeper))
        | inr on ↦ elim (Option-cases (parent_of commit)) [
          | inl root ↦
              let empty : [] ≡ rest = ok-injective (rw root at (behind.1 on)) in
              absurd (none-some (rw (sym empty) at deeper))
          | inr (parent, is_parent) ↦
              let (hash, lower) = ranked id parent commit read is_parent in
              let (floor_hash, below) =
                floor_at-rank rank old fuel index parent floor rest ranked hash
                  (rw is_parent at (behind.1 on)) deeper in
              (floor_hash, omega (arith, lower, below))
        ]
      ]

  -- A later state that has the commits `kept` as they were.
  module _ (t : Repository) (kept : List ContentHash)
      (stays : (x : ContentHash)
        → IsHash x
        → contains kept x ≡ true
        → lookup (path_for x) t.commits ≡ lookup (path_for x) s.commits) where
    read_commit-stays :
        (id : ContentHash)
        → IsHash id
        → contains kept id ≡ true
        → read_commit codec parse_commit parse_manifest io t id
          ≡ read_commit codec parse_commit parse_manifest io s id
    unfolding read_commit get
    read_commit-stays id v k = rw (stays id v k) refl

    read_commit-count :
        (rank : ContentHash → ℕ) (id : ContentHash) (commit : Commit) (q : ℕ)
        → IsHash id
        → contains kept id ≡ true
        → read_commit codec parse_commit parse_manifest io s id ≡ ok commit
        → q < rank id
        → count_to rank q t.commits + 1 ≤ count_to rank (rank id) t.commits
    unfolding read_commit
    read_commit-count rank id commit q v k read b =
        let (bytes, got, parsed) =
          >>=-eq-ok (or_store_failed (get codec (io.commit_readable id) id s.commits)) _ read in
        let (file, found) =
          get-found codec (io.commit_readable id) id s.commits bytes
            (or_store_failed-ok (get codec (io.commit_readable id) id s.commits) got) in
        count_to-step rank q id file t.commits v (stays id v k ∙ found) b

    pub visible_walk-retained :
        (rank : ContentHash → ℕ) (old : Option ContentHash) (fuel room index : ℕ)
        (id floor : ContentHash) (commits : List Commit)
        → IsRanked codec parse_commit parse_manifest io s rank
        → IsHash id
        → visible_walk codec parse_commit parse_manifest io s old fuel (some id) ≡ ok commits
        → floor_at (suc index) commits ≡ some floor
        → ((x : ContentHash)
            → contains (ids (take (suc index) commits)) x ≡ true
            → contains kept x ≡ true)
        → count_to rank (rank id) t.commits < room
        → visible_walk codec parse_commit parse_manifest io t (some floor) room (some id)
          ≡ ok (take (suc index) commits)
    unfolding visible_walk
    visible_walk-retained rank old zero room index id floor commits ranked v e f k b = err-ok e
    visible_walk-retained rank old (suc fuel) zero index id floor commits ranked v e f k b =
        absurd (omega (arith, b))
    visible_walk-retained rank old (suc fuel) (suc room) zero id floor commits ranked v e f k b =
        let (commit, rest, read, behind, same) =
          visible_step codec parse_commit parse_manifest keeps io s old fuel id commits e in
        let named =
          read_commit-id codec parse_commit parse_manifest keeps io s old id commit read in
        let top = subst (λ cs. floor_at 1 cs ≡ some floor) (sym same) f in
        let at_top : id ≡ floor = sym named ∙ some-injective _ _ top in
        let own : contains kept id ≡ true = k id (
          subst (λ cs. contains (ids (take 1 cs)) id ≡ true) same
            (rw (named, text_eq_refl id) refl)) in
        let stop : text_eq id floor ≡ true = (text_eq_iff id floor).1 at_top in
        subst
          (λ cs.
            visible_walk codec parse_commit parse_manifest io t (some floor) (suc room) (some id)
            ≡ ok (take 1 cs))
          same (rw (read_commit-stays id v own, read, stop) refl)
    visible_walk-retained rank old (suc fuel) (suc room) (suc index) id floor commits ranked v e f k
          b =
        let (commit, rest, read, behind, same) =
          visible_step codec parse_commit parse_manifest keeps io s old fuel id commits e in
        let named =
          read_commit-id codec parse_commit parse_manifest keeps io s old id commit read in
        let deeper : floor_at (suc index) rest ≡ some floor =
          subst (λ cs. floor_at (suc (suc index)) cs ≡ some floor) (sym same) f in
        let kept_all : (x : ContentHash)
            → contains (ids (take (suc (suc index)) (commit ∷ rest))) x ≡ true
            → contains kept x ≡ true =
          subst
            (λ cs.
              (x : ContentHash)
              → contains (ids (take (suc (suc index)) cs)) x ≡ true
              → contains kept x ≡ true)
            (sym same) k in
        let own : contains kept id ≡ true = kept_all id (rw (named, text_eq_refl id) refl) in
        elim (Bool-cases (opt_text_eq (some id) old)) [
          | inl stop ↦ absurd (none-some (rw (behind.0 stop) at deeper))
          | inr on ↦ elim (Option-cases (parent_of commit)) [
            | inl root ↦
                let empty : [] ≡ rest = ok-injective (rw root at (behind.1 on)) in
                absurd (none-some (rw (sym empty) at deeper))
            | inr (parent, is_parent) ↦
                let (hash, lower) = ranked id parent commit read is_parent in
                let walked = rw is_parent at (behind.1 on) in
                let (floor_hash, below) =
                  floor_at-rank rank old fuel index parent floor rest ranked hash walked deeper in
                let passes : text_eq id floor ≡ false = text_ne id floor (λ same_id.
                  let equal = ap rank same_id in absurd (omega (arith, lower, below, equal))) in
                let later =
                  visible_walk-retained rank old fuel room index parent floor rest ranked hash
                    walked deeper (λ x m. kept_all x (ground (arith, m)))
                    (omega (
                      arith,
                      b,
                      read_commit-count rank id commit (rank parent) v own read lower,
                    )) in
                subst
                  (λ cs.
                    visible_walk codec parse_commit parse_manifest io t (some floor) (suc room)
                      (some id)
                    ≡ ok (take (suc (suc index)) cs))
                  same (rw (read_commit-stays id v own, read, passes, is_parent, later) refl)
          ]
        ]
