-- ===== src/Tests/Memory.antt =====
-- A provider in memory, which keeps the contract of ProjectProvider in crates/auru-pm/src/provider.rs.
use native.Mathlib.Decide.{ℕ_discrete}
use auru_pm_core.Filesystem.Repository.{advanced, conflicting}
use auru_pm_core.Provider.{ProjectProvider, View, Advances, IsProvider, Unanswered}
use auru_pm_core.Commit.{Commit}
use auru_pm_core.Hash.{ContentHash}
use auru_pm_core.Prelude.{
  Map, Option, ◌≡◌, Text, List, Result, lookup, some, ℕ, ok, err, none, Option-cases, insert, map,
  refl, inl, if◌then◌else◌, is_some, Bool-cases, lookup-insert_self, text_eq, opt_text_eq, inr,
  text_eq_iff, ◌∙◌, none-some, ap, sym, lookup-insert, opt_text_eq_iff,
}
use auru_pm_core.Prelude.Steps.{Ensures}

pub record Memory : Type 0 where
  pub blobs : Map (List ℕ)
  pub commits : Map Commit
  pub head : Option ContentHash

abbrev put_new :
    ContentHash → List ℕ → Memory → Option (List ℕ) → Result (Unit {0}) (Unit {0}) × Memory
put_new h bytes s none = (ok tt, record s { blobs = insert h bytes s.blobs })
put_new h bytes s (some old) = if text_eq old bytes then (ok tt, s) else (err tt, s)

abbrev Commit-discrete : Discrete Commit
Commit-discrete = hlevel (ℕ_discrete)

abbrev put_same : (old c : Commit) → Memory → Dec (old ≡ c) → Result (Unit {0}) ContentHash × Memory
put_same old c s (yes same) = (ok c.id, s)
put_same old c s (no other) = (err tt, s)

abbrev put_new_commit : Commit → Memory → Option Commit → Result (Unit {0}) ContentHash × Memory
put_new_commit c s none = (ok c.id, record s { commits = insert c.id c s.commits })
put_new_commit c s (some old) = put_same old c s (Commit-discrete old c)

abbrev found {ℓ} : {A : Type ℓ} → Memory → Option A → Result (Unit {0}) A × Memory
found s none = (err tt, s)
found s (some a) = (ok a, s)

abbrev pub memory : ProjectProvider Memory
memory = record {
  put_blob = λ h bytes s. put_new h bytes s (lookup h s.blobs);
  has_blobs = λ hs s. (ok (map (λ h. is_some (lookup h s.blobs)) hs), s);
  get_blob = λ h s. found s (lookup h s.blobs);
  put_commit = λ c s. put_new_commit c s (lookup c.id s.commits);
  get_commit = λ id s. found s (lookup id s.commits);
  get_head = λ s. (ok s.head, s);
  advance_head = λ from to s.
      if opt_text_eq s.head from
      then (ok advanced, record s { head = some to })
      else (ok (conflicting s.head), s);
}

pub record Grows (s t : Memory) : Type 0 where
  same_head : t.head ≡ s.head
  blobs : (h : ContentHash) (b : List ℕ) → lookup h s.blobs ≡ some b → lookup h t.blobs ≡ some b
  commits :
      (h : ContentHash) (c : Commit) → lookup h s.commits ≡ some c → lookup h t.commits ≡ some c

abbrev pub memory_view : View Memory
memory_view = record {
  blob = λ s h. lookup h s.blobs;
  commit = λ s id. lookup id s.commits;
  head = λ s. s.head;
  Moves = Grows;
}

Grows-refl : (s : Memory) → Grows s s
Grows-refl s = record { same_head = refl; blobs = λ h b e. e; commits = λ h c e. e }

-- An entry at a new key hides none.
insert_new {ℓ} :
    {V : Type ℓ} (k j : Text) (new old : V) (m : Map V)
    → lookup k m ≡ none
    → lookup j m ≡ some old
    → lookup j (insert k new m) ≡ some old
insert_new k j new old m free there = elim (Bool-cases (text_eq k j)) [
  | inl same ↦
      let e = (text_eq_iff k j).0 same in
      absurd (none-some (sym free ∙ ap (λ h. lookup h m) e ∙ there))
  | inr other ↦ rw (lookup-insert k j new m, other) there
]

memory_puts_blob :
    (h : ContentHash) (bytes : List ℕ) (s : Memory)
    → Ensures
        (λ done t. Grows s t × (lookup h t.blobs ≡ some bytes))
        (λ e t. Grows s t)
        (memory.put_blob h bytes s)
memory_puts_blob h bytes s = elim (Option-cases (lookup h s.blobs)) [
  | inl free ↦ rw free (
    record {
      same_head = refl;
      blobs = λ j b e. insert_new h j bytes b s.blobs free e;
      commits = λ j c e. e;
    },
    lookup-insert_self h bytes s.blobs,
  )
  | inr (old, there) ↦ elim (Bool-cases (text_eq old bytes)) [
    | inl same ↦
        rw (there, same) (Grows-refl s, there ∙ ap (λ b. some b) ((text_eq_iff old bytes).0 same))
    | inr other ↦ rw (there, other) (Grows-refl s)
  ]
]

memory_puts_commit :
    (c : Commit) (s : Memory)
    → Ensures
        (λ id t. Grows s t × (lookup c.id t.commits ≡ some c))
        (λ e t. Grows s t)
        (memory.put_commit c s)
memory_puts_commit c s = elim (Option-cases (lookup c.id s.commits)) [
  | inl free ↦ rw free (
    record {
      same_head = refl;
      blobs = λ j b e. e;
      commits = λ j d e. insert_new c.id j c d s.commits free e;
    },
    lookup-insert_self c.id c s.commits,
  )
  | inr (old, there) ↦ rw there (known old there (Commit-discrete old c))
]
  where
    known :
        (old : Commit)
        → lookup c.id s.commits ≡ some old
        → (d : Dec (old ≡ c))
        → Ensures
            (λ id t. Grows s t × (lookup c.id t.commits ≡ some c))
            (λ e t. Grows s t)
            (put_same old c s d)
    known old there (yes same) = (Grows-refl s, there ∙ ap (λ d. some d) same)
    known old there (no other) = Grows-refl s

memory_found :
    {A : Type 0} (read : Memory → Option A) (s : Memory)
    → Ensures (λ a t. Grows s t × (read t ≡ some a)) (λ e t. Grows s t) (found s (read s))
memory_found read s = elim (Option-cases (read s)) [
  | inl missing ↦ rw missing (Grows-refl s)
  | inr (a, there) ↦ rw there (Grows-refl s, there)
]

memory-Advances :
    (from : Option ContentHash) (to : ContentHash) (s : Memory)
    → Ensures
        (λ result t. Advances memory_view from to s result t)
        (λ e t. Unanswered memory_view from to s t)
        (memory.advance_head from to s)
memory-Advances from to s = elim (Bool-cases (opt_text_eq s.head from)) [
  | inl expected ↦ rw expected (record {
    before = s;
    after = record s { head = some to };
    moved = Grows-refl s;
    was = (opt_text_eq_iff s.head from).0 expected;
    became = refl;
    blobs = λ h. refl;
    commits = λ id. refl;
    moves = Grows-refl (record s { head = some to });
  })
  | inr moved ↦ rw moved (Grows-refl s)
]

pub memory-IsProvider : IsProvider memory_view memory
memory-IsProvider = record {
  rest = Grows-refl;
  chain = λ s t u m n. record {
    same_head = n.same_head ∙ m.same_head;
    blobs = λ h b e. n.blobs h b (m.blobs h b e);
    commits = λ id c e. n.commits id c (m.commits id c e);
  };
  keeps_blob = λ s t h b m. m.blobs h b;
  keeps_commit = λ s t id c m. m.commits id c;
  puts_blob = memory_puts_blob;
  gets_blob = λ h. memory_found (λ s. lookup h s.blobs);
  finds_blobs = λ hs s. Grows-refl s;
  puts_commit = memory_puts_commit;
  gets_commit = λ id. memory_found (λ s. lookup id s.commits);
  gets_head = Grows-refl;
  advances = memory-Advances;
}
