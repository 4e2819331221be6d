-- ===== src/Sync/Drained.antt =====
-- What `drain_pending_pushes` of crates/auru-pm/src/sync.rs takes from the queue.
use mathlib.Core.Path.{subst}
use auru_pm_core.Sync.Mirrors.{succeeded}
use auru_pm_core.Sync.Delivered.{IsWhole, Delivers, fetch_bundle-IsWhole, deliver-Delivers}
use auru_pm_core.Sync.State.{Mirror}
use auru_pm_core.Commit.{SampleEntry}
use auru_pm_core.Hash.{ContentHash}
use auru_pm_core.Prelude.{
  List, ℕ, Option, contains, All, ◌∷◌, ◌≡◌, some, ◌⊎◌, inr, Result, true, Bool, none, inl,
  Bool-cases, [], text_eq, err, suc, ◌&&◌, ok, text_eq_iff, sym, false, refl, zero,
}
use auru_pm_core.Sync.Drain.{
  drain_pending_pushes, Bundle, fetch_any, deliver_all, drain_one, drain_loop, DrainState, or_next,
  deliver_found, kept_if, save_pending, fetch_bundle, deliver,
}
use auru_pm_core.Sidecar.{SidecarIo, load, Sidecar, or_default, Modified, modify, modify-Modified}
use auru_pm_core.Provider.{View, Moves-Holds, Holds}
use auru_pm_core.Prelude.Steps.{Ensures}
use auru_pm_core.Sync.Later.{Lawful, Later, Has, Later-refl, Later-trans, Has-Later, All-Later}

module _ {S : Type 0} (v : View S) (parse_manifest : List ℕ → Option (List SampleEntry)) where
  -- A provider has the commit under this id, and all have it with what its manifest lists.
  pub record IsDelivered (id : ContentHash) (ms : List (Mirror S)) : Type 0 where
    pub bundle : Bundle
    pub whole : IsWhole parse_manifest bundle
    pub known : Has v id bundle.commit ms
    pub everywhere : All (λ m. Delivers v bundle m.state) ms

  IsDelivered-Later :
      (id : ContentHash) (ms ns : List (Mirror S))
      → Later v ms ns
      → IsDelivered id ms
      → IsDelivered id ns
  IsDelivered-Later id ms ns l d = record {
    bundle = d.bundle;
    whole = d.whole;
    known = Has-Later v id d.bundle.commit ms ns l d.known;
    everywhere = All-Later v d.bundle ms ns l d.everywhere;
  }

  abbrev Finds : ContentHash → Option Bundle → List (Mirror S) → Type 0
  Finds id none ms = Unit
  Finds id (some b) ms = IsWhole parse_manifest b × Has v id b.commit ms

  Finds-skip :
      (id : ContentHash) (found : Option Bundle) (m : Mirror S) (ms : List (Mirror S))
      → Finds id found ms
      → Finds id found (m ∷ ms)
  Finds-skip id none m ms h = tt
  Finds-skip id (some b) m ms (whole, has) = (whole, inr has)

  fetch_any-Finds :
      (id : ContentHash) (ms : List (Mirror S))
      → Lawful v ms
      → Lawful v (fetch_any parse_manifest id ms).1
        × Later v ms (fetch_any parse_manifest id ms).1
        × Finds id (fetch_any parse_manifest id ms).0 (fetch_any parse_manifest id ms).1
  unfolding fetch_any
  fetch_any-Finds id [] l = (tt, tt, tt)
  fetch_any-Finds id (m ∷ ms) (l, ls) =
      go (fetch_bundle m.provider parse_manifest id m.state)
        (fetch_bundle-IsWhole v m.provider l parse_manifest id m.state)
        (fetch_any parse_manifest id ms) (fetch_any-Finds id ms ls)
    where
      go :
          (end : Result (Unit {0}) Bundle × S)
          → Ensures
              (λ b t.
                v.Moves m.state t × IsWhole parse_manifest b × (v.commit t id ≡ some b.commit))
              (λ e t. v.Moves m.state t)
              end
          → (later : Option Bundle × List (Mirror S))
          → Lawful v later.1 × Later v ms later.1 × Finds id later.0 later.1
          → Lawful v (or_next parse_manifest m later ms end).1
            × Later v (m ∷ ms) (or_next parse_manifest m later ms end).1
            × Finds id
                (or_next parse_manifest m later ms end).0
                (or_next parse_manifest m later ms end).1
      go (err e, s) moves (found, rest) (ls', later, finds) = (
        (l, ls'),
        (Moves-Holds v m.provider l m.state s moves, later),
        Finds-skip id found (record m { state = s }) rest finds,
      )
      go (ok b, s) (moves, whole, has) (found, rest) h = (
        (l, ls),
        (Moves-Holds v m.provider l m.state s moves, Later-refl v ms ls),
        (whole, inl has),
      )

  deliver_all-Delivers :
      (id : ContentHash) (b : Bundle) (ms : List (Mirror S))
      → Lawful v ms
      → Lawful v (deliver_all parse_manifest id b ms).1
        × Later v ms (deliver_all parse_manifest id b ms).1
        × ((deliver_all parse_manifest id b ms).0 ≡ true
            → All (λ m. Delivers v b m.state) (deliver_all parse_manifest id b ms).1)
  unfolding deliver_all
  deliver_all-Delivers id b [] l = (tt, tt, λ e. tt)
  deliver_all-Delivers id b (m ∷ ms) (l, ls) =
      go (deliver m.provider id b m.state) (deliver-Delivers v m.provider l id b m.state)
        (deliver_all parse_manifest id b ms) (deliver_all-Delivers id b ms ls)
    where
      go :
          (end : Result (Unit {0}) (Unit {0}) × S)
          → Ensures (λ done t. Holds v m.state t × Delivers v b t) (λ e t. Holds v m.state t) end
          → (rest : Bool × List (Mirror S))
          → Lawful v rest.1
            × Later v ms rest.1
            × (rest.0 ≡ true → All (λ m. Delivers v b m.state) rest.1)
          → Lawful v (record m { state = end.1 } ∷ rest.1)
            × Later v (m ∷ ms) (record m { state = end.1 } ∷ rest.1)
            × ((succeeded end.0 && rest.0) ≡ true
                → All (λ m. Delivers v b m.state) (record m { state = end.1 } ∷ rest.1))
      go (err e, s) h rest (ls', later, all) = ((l, ls'), (h, later), λ e. cc)
      go (ok put, s) (h, d) rest (ls', later, all) = ((l, ls'), (h, later), λ e. (d, all e))

  drain_one-IsDelivered :
      (id : ContentHash) (ms : List (Mirror S))
      → Lawful v ms
      → Lawful v (drain_one parse_manifest id ms).1
        × Later v ms (drain_one parse_manifest id ms).1
        × ((drain_one parse_manifest id ms).0 ≡ true
            → IsDelivered id (drain_one parse_manifest id ms).1)
  unfolding drain_one
  drain_one-IsDelivered id ms l = go (fetch_any parse_manifest id ms) (fetch_any-Finds id ms l)
    where
      go :
          (found : Option Bundle × List (Mirror S))
          → Lawful v found.1 × Later v ms found.1 × Finds id found.0 found.1
          → Lawful v (deliver_found parse_manifest id found).1
            × Later v ms (deliver_found parse_manifest id found).1
            × ((deliver_found parse_manifest id found).0 ≡ true
                → IsDelivered id (deliver_found parse_manifest id found).1)
      go (none, ns) (l', later, finds) = (l', later, λ e. cc)
      go (some b, ns) (l', later, (whole, has)) =
          let (l'', later', all) = deliver_all-Delivers id b ns l' in
          (
            l'',
            Later-trans v ms ns (deliver_all parse_manifest id b ns).1 later later',
            λ e. record {
              bundle = b;
              whole = whole;
              known = Has-Later v id b.commit ns (deliver_all parse_manifest id b ns).1 later' has;
              everywhere = all e;
            },
          )

  abbrev Settled : List ContentHash → List ContentHash → List (Mirror S) → Type 0
  Settled pending still ms =
      (id : ContentHash)
      → contains pending id ≡ true
      → (contains still id ≡ true) ⊎ IsDelivered id ms

  drain_loop-IsDelivered :
      (pending : List ContentHash) (ms : List (Mirror S))
      → Lawful v ms
      → Settled pending
          (drain_loop parse_manifest pending ms).0
          (drain_loop parse_manifest pending ms).1
        × Later v ms (drain_loop parse_manifest pending ms).1
  unfolding drain_loop
  drain_loop-IsDelivered [] ms l = ((λ id e. cc), Later-refl v ms l)
  drain_loop-IsDelivered (x ∷ pending) ms l =
      let (l', later, one) = drain_one-IsDelivered x ms l in
      let ns = (drain_one parse_manifest x ms).1 in
      let (rest, later') = drain_loop-IsDelivered pending ns l' in
      let end = (drain_loop parse_manifest pending ns).1 in
      (
        λ id e.
            go (drain_one parse_manifest x ms).0 (drain_loop parse_manifest pending ns).0 end id
              (λ o. IsDelivered-Later x ns end later' (one o)) (rest id) e,
        Later-trans v ms ns end later later',
      )
    where
      go :
          (delivered : Bool) (still : List ContentHash) (end : List (Mirror S)) (id : ContentHash)
          → (delivered ≡ true → IsDelivered x end)
          → (contains pending id ≡ true → (contains still id ≡ true) ⊎ IsDelivered id end)
          → contains (x ∷ pending) id ≡ true
          → (contains (kept_if delivered x still) id ≡ true) ⊎ IsDelivered id end
      go delivered still end id one rest e = elim (Bool-cases (text_eq x id)) [
        | inl same ↦ here delivered (one) same
        | inr other ↦ later delivered (rest (rw other at e)) other
      ]
        where
          here :
              (delivered : Bool)
              → (delivered ≡ true → IsDelivered x end)
              → text_eq x id ≡ true
              → (contains (kept_if delivered x still) id ≡ true) ⊎ IsDelivered id end
          here true one same =
              inr (subst (λ i. IsDelivered i end) ((text_eq_iff x id).0 same) (one refl))
          here false one same = inl (rw same refl)

          later :
              (delivered : Bool)
              → (contains still id ≡ true) ⊎ IsDelivered id end
              → text_eq x id ≡ false
              → (contains (kept_if delivered x still) id ≡ true) ⊎ IsDelivered id end
          later true h other = h
          later false (inl h) other = inl (rw other h)
          later false (inr h) other = inr h

-- A save of the queue leaves the old one or the new one.
save_pending-Settled :
    (D : Type 0) (io : SidecarIo) (n : ℕ) (still : List ContentHash) (file : Option Sidecar)
    (id : ContentHash)
    → contains (or_default file).pending_pushes id ≡ true
    → (contains still id ≡ true) ⊎ D
    → (contains (or_default (save_pending io n still file)).pending_pushes id ≡ true) ⊎ D
save_pending-Settled D io zero still file id e h = inl e
save_pending-Settled D io (suc n) still file id e h =
    go (modify io (λ sidecar. record sidecar { pending_pushes = still }) file)
      (modify-Modified io (λ sidecar. record sidecar { pending_pushes = still }) file) h
  where
    go :
        (end : Result (Unit {0}) (Unit {0}) × Option Sidecar)
        → Modified io (λ sidecar. record sidecar { pending_pushes = still }) file end
        → (contains still id ≡ true) ⊎ D
        → (contains (or_default end.1).pending_pushes id ≡ true) ⊎ D
    go (err u, left) same h =
        inl (subst (λ f. contains (or_default f).pending_pushes id ≡ true) (sym same) e)
    go (ok saved, left) changed (inl k) =
        inl (subst (λ f. contains (or_default f).pending_pushes id ≡ true) (sym changed) k)
    go (ok saved, left) changed (inr d) = inr d

-- The commit is pending, or it is everywhere.
abbrev pub Accounts :
    {S : Type 0}
    → View S
    → (List ℕ → Option (List SampleEntry))
    → ContentHash
    → DrainState S
    → Type 0
Accounts v parse_manifest id t =
    (contains (or_default t.sidecar).pending_pushes id ≡ true)
    ⊎ IsDelivered v parse_manifest id t.providers

-- If every provider keeps its contract, with no history pruned in between, then whatever calls
-- fail, a commit that was pending before a drain is still pending after it, or a provider has it
-- under its id and every provider has it, its manifest and the samples that the manifest lists.
pub drain_pending_pushes-IsDelivered :
    {S : Type 0} (v : View S) (parse_manifest : List ℕ → Option (List SampleEntry))
    (io_load io_save : SidecarIo) (w : DrainState S) (id : ContentHash)
    → Lawful v w.providers
    → contains (or_default w.sidecar).pending_pushes id ≡ true
    → Accounts v parse_manifest id (drain_pending_pushes parse_manifest io_load io_save w).1
unfolding drain_pending_pushes load
drain_pending_pushes-IsDelivered v parse_manifest io_load io_save w id l e =
    elim (Bool-cases io_load.readable) [
      | inl readable ↦
          let pending = (or_default w.sidecar).pending_pushes in
          let (settled, later) = drain_loop-IsDelivered v parse_manifest pending w.providers l in
          rw readable (
            save_pending-Settled _ io_save _ (drain_loop parse_manifest pending w.providers).0
              w.sidecar id e (settled id e))
      | inr unreadable ↦ rw unreadable (inl e)
    ]
