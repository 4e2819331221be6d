-- ===== src/Merge/Paths.antt =====
-- The paths that the merge of crates/auru-pm-kernel/src/merge.rs writes, read by
-- `conflict_path_segments`.
use mathlib.Core.List.{append-nil, append_assoc}
use auru_pm_core.Merge.{child_path, index_path, id_path}
use auru_pm_core.Merge.Resolve.{
  Segment, key, index, id, path_segments, conflict_path_segments, split_at, ends_key, ends_id,
  usize_max, key_or_index,
}
use auru_pm_core.Prelude.Decimal.{
  decimal, parse_unsigned, parse_unsigned-decimal, decimal_digits, decimal-ne-nil, is_digit,
}
use auru_pm_core.Prelude.{
  Text, List, [], ◌∷◌, none, true, false, All, codes, ℕ, ◌≢◌, ◌++◌, ◌≡◌, text_eq, Bool, ◌≤◌, arith,
  ok, refl, suc, ◌==◌, length, sym, length-append, ap, ◌∙◌, zero, drop,
}

abbrev NoStop : (ℕ → Bool) → Text → Type 0
NoStop stop = All (λ c. stop c ≡ false)

-- A segment that can be told from its text: a key is not empty, has no `.` and no `[`, and is no
-- number; an id has no `]`.
abbrev pub IsPlain : Segment → Type 0
IsPlain (key k) = (k ≢ []) × (NoStop ends_key k × (parse_unsigned usize_max k ≡ none))
IsPlain (index i) = i ≤ usize_max
IsPlain (id name) = NoStop ends_id name

-- The path that the merge has at the end of some steps down, from the path where it starts.
unfoldable pub path_from : Text → List Segment → Text
path_from path [] = path
path_from path (key k ∷ segments) = path_from (child_path path k) segments
path_from path (index i ∷ segments) = path_from (index_path path i) segments
path_from path (id name ∷ segments) = path_from (id_path path name) segments

-- What each segment adds to a path that is not empty.
steps : List Segment → Text
steps [] = []
steps (key k ∷ segments) = b'.' ∷ (k ++ steps segments)
steps (index i ∷ segments) = b'.' ∷ (decimal i ++ steps segments)
steps (id name ∷ segments) = codes "[id=" ++ (name ++ (b']' ∷ steps segments))

abbrev Stops : Text → Type 0
Stops [] = Unit
Stops (c ∷ s) = ends_key c ≡ true

steps-Stops : (segments : List Segment) → Stops (steps segments)
unfolding steps
steps-Stops [] = tt
steps-Stops (key k ∷ segments) = refl
steps-Stops (index i ∷ segments) = refl
steps-Stops (id name ∷ segments) = refl

split_at_key :
    (k rest : Text) → NoStop ends_key k → Stops rest → split_at ends_key (k ++ rest) ≡ (k, rest)
unfolding split_at
split_at_key [] [] h s = refl
split_at_key [] (c ∷ rest) h s = rw s refl
split_at_key (c ∷ k) rest h s = rw (h.0, split_at_key k rest h.1 s) refl

split_at_id :
    (name rest : Text)
    → NoStop ends_id name
    → split_at ends_id (name ++ (b']' ∷ rest)) ≡ (name, b']' ∷ rest)
unfolding split_at
split_at_id [] rest h = refl
split_at_id (c ∷ name) rest h = rw (h.0, split_at_id name rest h.1) refl

digit_no_stop : (c : ℕ) → is_digit c ≡ true → ends_key c ≡ false
digit_no_stop c h = ground arith

-- A key or an index, after its dot.
name_segment :
    (fuel : ℕ) (name rest : Text) (found : Segment) (segments : List Segment)
    → name ≢ []
    → NoStop ends_key name
    → Stops rest
    → key_or_index name (parse_unsigned usize_max name) ≡ found
    → path_segments fuel rest ≡ ok segments
    → path_segments (suc fuel) (name ++ rest) ≡ ok (found ∷ segments)
unfolding path_segments text_eq
name_segment fuel [] rest found segments ne h s e behind = absurd (ne refl)
name_segment fuel (c ∷ name) rest found segments ne h s e behind =
    let plain : (c == b'.') ≡ false = ground (arith, h.0) in
    let not_id : (c == b'[') ≡ false = ground (arith, h.0) in
    rw (plain, not_id, split_at_key name rest h.1 s, e, h.0, behind)

-- A key or an index with the dot before it: two rounds, and at least as many characters.
dotted_segment :
    (fuel : ℕ) (name rest : Text) (found : Segment) (segments : List Segment)
    → name ≢ []
    → NoStop ends_key name
    → Stops rest
    → key_or_index name (parse_unsigned usize_max name) ≡ found
    → ((f : ℕ) → length rest ≤ f → path_segments f rest ≡ ok segments)
    → length (b'.' ∷ (name ++ rest)) ≤ fuel
    → path_segments fuel (b'.' ∷ (name ++ rest)) ≡ ok (found ∷ segments)
unfolding path_segments text_eq
dotted_segment fuel [] rest found segments ne h s e behind b = absurd (ne refl)
dotted_segment zero (c ∷ name) rest found segments ne h s e behind b = absurd (omega arith)
dotted_segment (suc zero) (c ∷ name) rest found segments ne h s e behind b = absurd (omega arith)
dotted_segment (suc (suc fuel)) (c ∷ name) rest found segments ne h s e behind b =
    let e0 = length-append name rest in
    name_segment fuel (c ∷ name) rest found segments ne h s e (behind fuel (omega arith))

id_segment :
    (fuel : ℕ) (name rest : Text) (segments : List Segment)
    → NoStop ends_id name
    → ((f : ℕ) → length rest ≤ f → path_segments f rest ≡ ok segments)
    → length (codes "[id=" ++ (name ++ (b']' ∷ rest))) ≤ fuel
    → path_segments fuel (codes "[id=" ++ (name ++ (b']' ∷ rest))) ≡ ok (id name ∷ segments)
unfolding path_segments text_eq
id_segment zero name rest segments h behind b = absurd (omega arith)
id_segment (suc fuel) name rest segments h behind b =
    let e0 = length-append name (b']' ∷ rest) in
    let split = split_at_id name rest h in
    let after : drop 1 (split_at ends_id (name ++ (b']' ∷ rest))).1 ≡ rest = rw split refl in
    rw (split, after, behind fuel (omega arith), split) refl

digits-NoStop : (s : Text) → All (λ d. is_digit d ≡ true) s → NoStop ends_key s
digits-NoStop [] h = tt
digits-NoStop (c ∷ s) h = (digit_no_stop c h.0, digits-NoStop s h.1)

path_segments-nil : (fuel : ℕ) → path_segments fuel [] ≡ ok []
unfolding path_segments
path_segments-nil zero = refl
path_segments-nil (suc fuel) = refl

path_segments-steps :
    (segments : List Segment)
    → All IsPlain segments
    → (fuel : ℕ) → length (steps segments) ≤ fuel
    → path_segments fuel (steps segments) ≡ ok segments
unfolding steps
path_segments-steps [] h fuel b = path_segments-nil fuel
path_segments-steps (key k ∷ segments) h fuel b =
    dotted_segment fuel k (steps segments) (key k) segments h.0.0 h.0.1.0 (steps-Stops segments)
      (ap (key_or_index k) h.0.1.1) (path_segments-steps segments h.1) b
path_segments-steps (index i ∷ segments) h fuel b =
    dotted_segment fuel (decimal i) (steps segments) (index i) segments (decimal-ne-nil i)
      (digits-NoStop _ (decimal_digits i)) (steps-Stops segments)
      (ap (key_or_index (decimal i)) (parse_unsigned-decimal usize_max i h.0))
      (path_segments-steps segments h.1) b
path_segments-steps (id name ∷ segments) h fuel b =
    id_segment fuel name (steps segments) segments h.0 (path_segments-steps segments h.1) b

-- From a path that is not empty, each step adds its own part.
path_from-steps :
    (c : ℕ) (path : Text) (segments : List Segment)
    → path_from (c ∷ path) segments ≡ (c ∷ path) ++ steps segments
unfolding path_from steps
path_from-steps c path [] = sym (append-nil (c ∷ path))
path_from-steps c path (key k ∷ segments) =
    path_from-steps c (path ++ (b'.' ∷ k)) segments ∙ append_assoc (c ∷ path) _ _
path_from-steps c path (index i ∷ segments) =
    path_from-steps c (path ++ (b'.' ∷ decimal i)) segments ∙ append_assoc (c ∷ path) _ _
path_from-steps c path (id name ∷ segments) =
    path_from-steps c (path ++ (codes "[id=" ++ (name ++ codes "]"))) segments
    ∙ append_assoc (c ∷ path) _ _
    ∙ ap (λ s. (c ∷ path) ++ (codes "[id=" ++ s)) (append_assoc name (codes "]") (steps segments))

-- Reading takes as many rounds as the path has characters.
read_steps :
    (segments : List Segment) (path : Text)
    → All IsPlain segments
    → path ≡ steps segments
    → conflict_path_segments path ≡ ok segments
unfolding conflict_path_segments
read_steps segments path h e =
    rw e (path_segments-steps segments h (length (steps segments)) (omega arith))

-- The path that the merge writes for steps by keys, indices and ids is read back as those steps,
-- if each key is not empty, has no dot and no bracket and is no number, each index fits in 64
-- bits and no id has a closing bracket.
pub conflict_path_segments-path_from :
    (segments : List Segment)
    → All IsPlain segments
    → conflict_path_segments (path_from [] segments) ≡ ok segments
unfolding conflict_path_segments path_from steps
conflict_path_segments-path_from [] h = path_segments-nil 0
conflict_path_segments-path_from (key [] ∷ segments) h = absurd (h.0.0 refl)
conflict_path_segments-path_from (key (c ∷ k) ∷ segments) h = rw (path_from-steps c k segments) (
    name_segment (length (k ++ steps segments)) (c ∷ k) (steps segments) (key (c ∷ k)) segments
      h.0.0 h.0.1.0 (steps-Stops segments) (ap (key_or_index (c ∷ k)) h.0.1.1)
      (path_segments-steps segments h.1 _ (omega (arith, length-append k (steps segments)))))
conflict_path_segments-path_from (index i ∷ segments) h =
    read_steps (index i ∷ segments) _ h (path_from-steps b'.' (decimal i) segments)
conflict_path_segments-path_from (id name ∷ segments) h = read_steps (id name ∷ segments) _ h (
    path_from-steps b'[' (codes "id=" ++ (name ++ codes "]")) segments
    ∙ ap (λ s. codes "[id=" ++ s) (append_assoc name (codes "]") (steps segments)))
