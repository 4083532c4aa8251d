-- ===== src/Bridge/Sound.antt =====
-- What holds of the machine of firmware/bridge_main.c between two calls.
pub mod Pieces
pub mod Commands
pub mod Writes
use picobridge.Prelude.{
  ℕ, ◌+◌, ◌≤◌, ◌<◌, ◌≡◌, ◌⊎◌, inl, inr, refl, ap, arith, Bool, true, false, some, List, length,
  ◌==◌, Option-cases,
}
use picobridge.ControllerStore.Types.{Store, ok, err_argument}
use picobridge.ControllerStore.Store.{encode}
use picobridge.ControllerStore.Valid.{IsTrusted}
use picobridge.ControllerStore.Flash.{
  Board, Flash, Execution, performed, not_called, timed_out, boot_existing, commit, write_store,
  is_ok,
}
use picobridge.ControllerStore.Flash.Sequence.{IsBoard}
use picobridge.ControllerStore.Flash.PowerCut.{commit-boots, programmed-boots}
use picobridge.BridgeCore.Invariant.{IsValid}
use picobridge.Bridge.{Machine, World, ble_cmd_buf_max}
use picobridge.Bridge.Handlers.{commit_candidate}

-- What the flash boots, next to the store in memory: that store, or, once a call of
-- `flash_safe_execute` has timed out, a trusted successor of it, whose commit has run then.
pub data Boots (late : Bool) (f : Flash) (s : Store) : Type 0 where
  in_memory : boot_existing f ≡ (ok, s) → Boots late f s
  ahead :
      late ≡ true
      → (pending : Store) → IsTrusted pending
      → pending.generation ≡ s.generation + 1
      → boot_existing f ≡ (ok, pending)
      → Boots late f s

-- `late` says whether a call of `flash_safe_execute` may have timed out so far.
pub record IsSound (late : Bool) (m : Machine) : Type 0 where
  pub core : IsValid m.core
  -- The store in memory is in order, and the flash boots it or a successor.
  pub trusted : IsTrusted m.controllers
  pub boots : Boots late m.flash m.controllers
  -- The reassembly stays in its buffer.
  pub buffer : length m.ble_cmd_buf ≤ ble_cmd_buf_max

sector_encoded :
    (store : Store) (n : ℕ) → 188 ≤ n → (sector : List ℕ) × (encode store n ≡ some sector)
unfolding encode
sector_encoded store n h = elim (Option-cases (encode store n)) [
  | inl nothing ↦ absurd (ground arith)
  | inr found ↦ found
]

-- A commit of the next store: it succeeds and the flash boots that store, or the store in memory
-- stays and the flash boots it or a successor of it.
commits :
    (late : Bool) (board : Board) (f : Flash) (cur store : Store) (granted : Execution)
    → (granted ≡ timed_out → late ≡ true)
    → IsBoard board
    → IsTrusted store
    → boot_existing f ≡ (ok, cur)
    → store.generation ≡ cur.generation + 1
    → ((is_ok (commit board f store granted).0 ≡ true)
        × (boot_existing (commit board f store granted).1 ≡ (ok, store)))
      ⊎ ((is_ok (commit board f store granted).0 ≡ false)
          × Boots late (commit board f store granted).1 cur)
commits late board f cur store granted honest b t booted next =
    let enc =
      sector_encoded store board.sector_size (omega (arith, b.holds_record, b.holds_page)) in
    let newer : cur.generation < store.generation = omega arith in
    from granted honest enc.0 enc.1 newer
  where
    from :
        (x : Execution)
        → (x ≡ timed_out → late ≡ true)
        → (sector : List ℕ) → encode store board.sector_size ≡ some sector
        → cur.generation < store.generation
        → ((is_ok (commit board f store x).0 ≡ true)
            × (boot_existing (commit board f store x).1 ≡ (ok, store)))
          ⊎ ((is_ok (commit board f store x).0 ≡ false) × Boots late (commit board f store x).1 cur)
    from performed honest sector e newer =
        let done = commit-boots board f cur store sector b t booted newer e in
        inl (ap is_ok done.0, done.1)
    from not_called honest sector e newer =
        let other : (cur.generation == store.generation) ≡ false = ground arith in
        unfold commit write_store in rw (booted, other, e) (inr (refl, in_memory booted))
    from timed_out honest sector e newer =
        let other : (cur.generation == store.generation) ≡ false = ground arith in
        unfold commit write_store in
        rw (booted, other, e)
          (inr (
            refl,
            ahead (honest refl) store t next
                (programmed-boots board f cur store sector b t booted newer e),
          ))

-- While the flash is ahead, a commit of the next store is refused.
refused_ahead :
    (board : Board) (f : Flash) (pending store : Store) (granted : Execution)
    → boot_existing f ≡ (ok, pending)
    → store.generation ≡ pending.generation
    → commit board f store granted ≡ (err_argument, f)
unfolding commit
refused_ahead board f pending store granted booted same =
    let equal : (pending.generation == store.generation) ≡ true = ground arith in
    rw (booted, equal) refl

-- A candidate that is trusted and the next one is taken over soundly.
pub candidate-IsSound :
    (late : Bool) (board : Board) (w : World) (m : Machine) (candidate : Store)
    → (w.granted ≡ timed_out → late ≡ true)
    → IsBoard board
    → IsSound late m
    → IsTrusted candidate
    → candidate.generation ≡ m.controllers.generation + 1
    → IsSound late (commit_candidate board w m candidate).1
unfolding commit_candidate
candidate-IsSound late board w m candidate honest b v t next = from v.boots
  where
    from : Boots late m.flash m.controllers → IsSound late (commit_candidate board w m candidate).1
    from (ahead l pending tp above booted) =
        unfold commit_candidate in
        rw (refused_ahead board m.flash pending candidate w.granted booted (omega arith)) v
    from (in_memory booted) =
        unfold commit_candidate in
        elim (commits late board m.flash m.controllers candidate w.granted honest b t booted next) [
          | inl (done, boots) ↦
              rw done
                (record { core = v.core; trusted = t; boots = in_memory boots; buffer = v.buffer })
          | inr (failed, boots) ↦
              rw failed
                (record { core = v.core; trusted = v.trusted; boots = boots; buffer = v.buffer })
        ]
