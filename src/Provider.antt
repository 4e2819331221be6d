-- ===== src/Provider.antt =====
-- The trait `ProjectProvider` of crates/auru-pm/src/provider.rs, with what its documentation asks
-- of an implementation.
use auru_pm_core.Commit.{Commit}
use auru_pm_core.Filesystem.Repository.{HeadAdvance, conflicting, advanced}
use auru_pm_core.Prelude.{Option, List, ◌≡◌, ℕ, some, Bool, ◌∙◌, ◌⊎◌}
use auru_pm_core.Hash.{ContentHash}
use auru_pm_core.Prelude.Steps.{Step, Ensures}

-- One provider on a state of its own. Other writers may change the state in any call.
pub record ProjectProvider (S : Type 0) : Type 0 where
  pub put_blob : ContentHash → List ℕ → Step (Unit {0}) S (Unit {0})
  pub has_blobs : List ContentHash → Step (Unit {0}) S (List Bool)
  pub get_blob : ContentHash → Step (Unit {0}) S (List ℕ)
  pub put_commit : Commit → Step (Unit {0}) S ContentHash
  pub get_commit : ContentHash → Step (Unit {0}) S Commit
  pub get_head : Step (Unit {0}) S (Option ContentHash)
  pub advance_head : Option ContentHash → ContentHash → Step (Unit {0}) S HeadAdvance

-- What can be seen of a provider, and the moves that it makes while its head is not advanced by
-- this client: those of other writers and the objects that are stored. Pruning is not among them:
-- `prune_history` may remove what no retained commit names, so the contract holds between two
-- prunings.
pub record View (S : Type 0) : Type 1 where
  pub blob : S → ContentHash → Option (List ℕ)
  pub commit : S → ContentHash → Option Commit
  pub head : S → Option ContentHash
  pub Moves : S → S → Type 0

module _ {S : Type 0} (v : View S) where
  -- The head was `from` at some point and is `to` from then on, until another writer moves it.
  pub record Swap (from : Option ContentHash) (to : ContentHash) (s t : S) : Type 0 where
    pub before : S
    pub after : S
    pub moved : v.Moves s before
    pub was : v.head before ≡ from
    pub became : v.head after ≡ some to
    pub blobs : (h : ContentHash) → v.blob after h ≡ v.blob before h
    pub commits : (id : ContentHash) → v.commit after id ≡ v.commit before id
    pub moves : v.Moves after t

  abbrev pub Advances : Option ContentHash → ContentHash → S → HeadAdvance → S → Type 0
  Advances from to s advanced t = Swap from to s t
  Advances from to s (conflicting current) t = v.Moves s t

  -- After an error the head may have moved all the same, as when the answer is lost.
  abbrev pub Unanswered : Option ContentHash → ContentHash → S → S → Type 0
  Unanswered from to s t = v.Moves s t ⊎ Swap from to s t

  -- The contract: between two prunings an object that was stored stays, a read gives what is stored, and the head is
  -- moved by an advance only, from the head that was expected.
  pub record IsProvider (p : ProjectProvider S) : Type 0 where
    pub rest : (s : S) → v.Moves s s
    pub chain : (s t u : S) → v.Moves s t → v.Moves t u → v.Moves s u
    pub keeps_blob :
        (s t : S) (h : ContentHash) (bytes : List ℕ)
        → v.Moves s t
        → v.blob s h ≡ some bytes
        → v.blob t h ≡ some bytes
    pub keeps_commit :
        (s t : S) (id : ContentHash) (c : Commit)
        → v.Moves s t
        → v.commit s id ≡ some c
        → v.commit t id ≡ some c
    pub puts_blob :
        (h : ContentHash) (bytes : List ℕ) (s : S)
        → Ensures
            (λ done t. v.Moves s t × (v.blob t h ≡ some bytes))
            (λ e t. v.Moves s t)
            (p.put_blob h bytes s)
    pub gets_blob :
        (h : ContentHash) (s : S)
        → Ensures
            (λ bytes t. v.Moves s t × (v.blob t h ≡ some bytes))
            (λ e t. v.Moves s t)
            (p.get_blob h s)
    pub finds_blobs :
        (hashes : List ContentHash) (s : S)
        → Ensures (λ present t. v.Moves s t) (λ e t. v.Moves s t) (p.has_blobs hashes s)
    pub puts_commit :
        (c : Commit) (s : S)
        → Ensures
            (λ id t. v.Moves s t × (v.commit t c.id ≡ some c))
            (λ e t. v.Moves s t)
            (p.put_commit c s)
    pub gets_commit :
        (id : ContentHash) (s : S)
        → Ensures
            (λ c t. v.Moves s t × (v.commit t id ≡ some c))
            (λ e t. v.Moves s t)
            (p.get_commit id s)
    pub gets_head : (s : S) → Ensures (λ head t. v.Moves s t) (λ e t. v.Moves s t) (p.get_head s)
    pub advances :
        (from : Option ContentHash) (to : ContentHash) (s : S)
        → Ensures
            (λ result t. Advances from to s result t)
            (λ e t. Unanswered from to s t)
            (p.advance_head from to s)

  -- Nothing that was stored is lost between two states.
  pub record Holds (s t : S) : Type 0 where
    pub blobs :
        (h : ContentHash) (bytes : List ℕ) → v.blob s h ≡ some bytes → v.blob t h ≡ some bytes
    pub commits : (id : ContentHash) (c : Commit) → v.commit s id ≡ some c → v.commit t id ≡ some c

  pub Holds-trans : (s t u : S) → Holds s t → Holds t u → Holds s u
  Holds-trans s t u h k = record {
    blobs = λ hash bytes there. k.blobs hash bytes (h.blobs hash bytes there);
    commits = λ id c there. k.commits id c (h.commits id c there);
  }

module _ {S : Type 0} (v : View S) (p : ProjectProvider S) (laws : IsProvider v p) where
  pub Moves-Holds : (s t : S) → v.Moves s t → Holds v s t
  Moves-Holds s t m = record {
    blobs = λ h bytes there. laws.keeps_blob s t h bytes m there;
    commits = λ id c there. laws.keeps_commit s t id c m there;
  }

  pub Swap-Holds :
      (from : Option ContentHash) (to : ContentHash) (s t : S) → Swap v from to s t → Holds v s t
  Swap-Holds from to s t swap = record {
    blobs = λ h bytes there.
        laws.keeps_blob swap.after t h bytes swap.moves
          (swap.blobs h ∙ laws.keeps_blob s swap.before h bytes swap.moved there);
    commits = λ id c there.
        laws.keeps_commit swap.after t id c swap.moves
          (swap.commits id ∙ laws.keeps_commit s swap.before id c swap.moved there);
  }
