-- ===== src/Merge/Rounds.antt =====
-- The loop of `conflict_path_segments` of crates/auru-pm-kernel/src/merge.rs: its rounds.
use auru_pm_core.Prelude.{
  ℕ, Result, Bool, Text, List, length, ◌≢◌, ok, ◌≤◌, drop, err, arith, suc, ◌∷◌, length-drop,
  Bool-cases, [], ◌==◌, inl, inr, text_eq, take, codes, zero, ◌≡◌, false, refl,
}
use auru_pm_core.Merge.Resolve.{
  Segment, path_segments, conflict_path_segments, split_at, ends_key, ends_id, out_of_fuel,
  push_segment, ResolveError, invalid_path, id,
}

split_at_le : (stop : ℕ → Bool) (s : Text) → length (split_at stop s).1 ≤ length s
unfolding split_at
split_at_le stop [] = omega arith
split_at_le stop (c ∷ s) = ground (arith, split_at_le stop s)

drop_le : (n : ℕ) (s : Text) → length (drop n s) ≤ length s
drop_le n s = omega (arith, length-drop n s)

abbrev IsDone : Result ResolveError (List Segment) → Type 0
IsDone r = r ≢ err out_of_fuel

push_segment-IsDone :
    (s : Segment) (r : Result ResolveError (List Segment)) → IsDone r → IsDone (push_segment s r)
push_segment-IsDone s (ok rest) h e = cc
push_segment-IsDone s (err x) h e = h e

-- An id, for any rest that is read.
id_branch-IsDone :
    (name after : Text) (rest : Result ResolveError (List Segment))
    → IsDone rest
    → IsDone (elim after [ [] ↦ err invalid_path | d ∷ _ ↦ push_segment (id name) rest ])
id_branch-IsDone name [] rest h = λ e. cc
id_branch-IsDone name (d ∷ after) rest h = push_segment-IsDone (id name) rest h

path_segments-IsDone :
    (fuel : ℕ) (path : Text) → length path ≤ fuel → IsDone (path_segments fuel path)
unfolding path_segments split_at
path_segments-IsDone zero [] b = λ e. cc
path_segments-IsDone (suc fuel) [] b = λ e. cc
path_segments-IsDone zero (c ∷ path) b = absurd (omega arith)
path_segments-IsDone (suc fuel) (c ∷ path) b = elim (Bool-cases (c == b'.')) [
  | inl dot ↦ rw dot (path_segments-IsDone fuel path (omega arith))
  | inr no_dot ↦ elim (Bool-cases (text_eq (take 4 (c ∷ path)) (codes "[id="))) [
    | inl is_id ↦
        let (name, after) = split_at ends_id (drop 3 path) in
        rw (no_dot, is_id)
          (id_branch-IsDone name after _ (
            path_segments-IsDone fuel (drop 1 after)
              (omega (arith, drop_le 1 after, split_at_le ends_id (drop 3 path), drop_le 3 path))))
    | inr is_key ↦ elim (Bool-cases (c == b'[')) [
      | inl bracket ↦ rw (no_dot, is_key, bracket) (λ e. cc)
      | inr plain ↦
          let stop : ends_key c ≡ false = rw (no_dot, plain) refl in
          let shorter : length (split_at ends_key (c ∷ path)).1 ≤ fuel =
            rw stop (omega (arith, split_at_le ends_key path)) in
          rw (no_dot, is_key, plain)
            (push_segment-IsDone _ _
              (path_segments-IsDone fuel (split_at ends_key (c ∷ path)).1 shorter))
    ]
  ]
]

-- The reader of conflict paths ends on every text.
pub conflict_path_segments_ends : (path : Text) → conflict_path_segments path ≢ err out_of_fuel
unfolding conflict_path_segments
conflict_path_segments_ends path = path_segments-IsDone (length path) path (omega arith)
