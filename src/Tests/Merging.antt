-- ===== src/Tests/Merging.antt =====
-- Runs of the merge and of the resolution of its conflicts.
use auru_pm_core.Prelude.Decimal.{parse_unsigned}
use auru_pm_core.Prelude.Order.{text_ltb}
use auru_pm_core.Merge.Resolve
use auru_pm_core.Json.{
  Value, Fields, number, whole, string, object, array, field, end, cons, nil, value_eq,
}
use auru_pm_core.Prelude.Int.{pos}
use auru_pm_core.Prelude.{
  Text, codes, ℕ, List, [], ◌∷◌, ◌≡◌, refl, some, All, map, ok, ◌≢◌, err, text_eq, arith, lookup,
}
use auru_pm_core.Merge.{ConflictedField, clean, conflict, merge_values, merge3}
use auru_pm_core.Merge.Resolve.{
  resolve_conflicts, key, index, id, remote, local, Segment, conflict_path_segments,
}
use auru_pm_core.Merge.Real.{IsReal, merge_values-IsReal}
use auru_pm_core.Merge.Mirror.{merge_values-swap, swap}
use auru_pm_core.Merge.Settled.{merge_values_settles}
use auru_pm_core.Merge.Unchanged.{merge3_remote_unchanged, merge3_local_unchanged}
use auru_pm_core.Merge.Paths.{conflict_path_segments-path_from, IsPlain, path_from}
use auru_pm_core.Merge.Rounds.{conflict_path_segments_ends}
use auru_pm_core.Merge.Choices.{resolve_conflicts_local, resolve_conflicts_remote, get_at}

abbrev whole_number : ℕ → Value
whole_number n = number (whole (pos n))

abbrev channel : Text → Value
channel name =
    object (field (codes "id") (string (codes "c1")) (field (codes "name") (string name) end))

-- A project with a tempo and a channel.
abbrev project : ℕ → Text → Fields
project tempo name =
    field (codes "channels") (array (cons (channel name) nil))
      (field (codes "tempo") (whole_number tempo) end)

abbrev ancestor : Value
ancestor = object (project 120 (codes "Kick"))

abbrev mine : Value
mine = object (project 128 (codes "Snare"))

abbrev theirs : Value
theirs = object (project 140 (codes "Kick"))

abbrev tempo_conflict : ConflictedField
tempo_conflict = record {
  path = codes "tempo";
  ancestor = some (whole_number 120);
  local = some (whole_number 128);
  remote = some (whole_number 140);
}

merged : merge3 ancestor mine theirs ≡ conflict mine (tempo_conflict ∷ [])
unfolding merge3 text_eq text_ltb lookup value_eq
merged = refl

merge_values-IsReal_example : All IsReal (merge_values ancestor mine theirs []).1
merge_values-IsReal_example = merge_values-IsReal ancestor mine theirs []

merge_values-swap_example :
    (merge_values ancestor theirs mine []).1 ≡ map swap (merge_values ancestor mine theirs []).1
merge_values-swap_example = merge_values-swap ancestor mine theirs []

merge_values_settles_example : (merge_values ancestor mine mine (codes "a")).1 ≡ []
merge_values_settles_example = merge_values_settles ancestor mine (codes "a")

merge3_remote_unchanged_example : merge3 ancestor mine ancestor ≡ clean mine
unfolding text_ltb
merge3_remote_unchanged_example =
    merge3_remote_unchanged (project 120 (codes "Kick")) (project 128 (codes "Snare"))
      ((refl, tt), (tt, tt))

merge3_local_unchanged_example : merge3 ancestor ancestor theirs ≡ clean theirs
unfolding text_ltb
merge3_local_unchanged_example =
    merge3_local_unchanged (project 120 (codes "Kick")) (project 140 (codes "Kick"))
      ((refl, tt), (tt, tt))

channels-IsPlain : IsPlain (key (codes "channels"))
unfolding parse_unsigned
channels-IsPlain =
    (λ e. cc, ((refl, (refl, (refl, (refl, (refl, (refl, (refl, (refl, tt)))))))), refl))

volume-IsPlain : IsPlain (key (codes "volume"))
unfolding parse_unsigned
volume-IsPlain = (λ e. cc, ((refl, (refl, (refl, (refl, (refl, (refl, tt)))))), refl))

tempo-IsPlain : IsPlain (key (codes "tempo"))
unfolding parse_unsigned
tempo-IsPlain = (λ e. cc, ((refl, (refl, (refl, (refl, (refl, tt))))), refl))

abbrev volume_path : List Segment
volume_path = key (codes "channels") ∷ id (codes "c1") ∷ key (codes "volume") ∷ index 12 ∷ []

conflict_path_segments-path_from_example :
    conflict_path_segments (path_from [] volume_path) ≡ ok volume_path
conflict_path_segments-path_from_example =
    conflict_path_segments-path_from volume_path
      (channels-IsPlain, ((refl, (refl, tt)), (volume-IsPlain, (omega arith, tt))))

conflict_path_segments_ends_example :
    conflict_path_segments (codes "a..[id=b].0") ≢ err Resolve.out_of_fuel
conflict_path_segments_ends_example = conflict_path_segments_ends (codes "a..[id=b].0")

resolve_conflicts_local_example :
    resolve_conflicts mine (tempo_conflict ∷ []) (local ∷ []) ≡ ok mine
resolve_conflicts_local_example = resolve_conflicts_local mine (tempo_conflict ∷ [])

resolve_conflicts_remote_example :
    (merged : Value) × ((resolve_conflicts mine (tempo_conflict ∷ []) (remote ∷ []) ≡ ok merged)
      × (get_at (key (codes "tempo") ∷ []) merged ≡ some (whole_number 140)))
unfolding get_at path_from text_eq lookup
resolve_conflicts_remote_example =
    resolve_conflicts_remote mine tempo_conflict (key (codes "tempo") ∷ []) (whole_number 140)
      (whole_number 128) (tempo-IsPlain, tt) (λ e. cc) refl refl refl
