-- ===== src/BridgeCore/Refusal.antt =====
-- The tests of `bridge_core_stage` before its loop, against a plain description of the requests
-- that are in order.
use picobridge.Prelude.{
  ℕ, ◌≤◌, ◌<◌, ◌/◌, ◌*◌, ◌≡◌, ◌≢◌, ◌↔◌, ◌⊎◌, refl, arith, List, [], ◌∷◌, length, true, false, none,
  bit_and,
}
use picobridge.Prelude.Bits.{every, byte_law}
use picobridge.BridgeCore.Types.{
  Ticket, Core, layout_us, layout_de, mode_password, mode_text, max_ttl_ms, max_input_bytes,
  replay_capacity,
}
use picobridge.BridgeCore.Stage.{Request, is_null, is_replay, bad_argument, bad_policy, refusal}

-- The ticket is among those spent.
abbrev pub IsSpent : ℕ → ℕ → List Ticket → Type 0
IsSpent owner id [] = ⊥
IsSpent owner id (t ∷ ts) = ((t.owner ≡ owner) × (t.id ≡ id)) ⊎ IsSpent owner id ts

pub is_replay-IsSpent :
    (owner id : ℕ) (ts : List Ticket) → is_replay ts owner id ≡ true → IsSpent owner id ts
unfolding is_replay
is_replay-IsSpent owner id [] h = cc
is_replay-IsSpent owner id (t ∷ ts) h = ground (arith, is_replay-IsSpent owner id ts)

pub IsSpent-is_replay :
    (owner id : ℕ) (ts : List Ticket) → IsSpent owner id ts → is_replay ts owner id ≡ true
unfolding is_replay
IsSpent-is_replay owner id [] h = absurd h
IsSpent-is_replay owner id (t ∷ ts) h = ground (arith, IsSpent-is_replay owner id ts)

-- A request that the stage command takes up.
pub record IsInOrder (core : Core) (r : Request) : Type 0 where
  pub some_input : 0 < r.length
  pub short_input : r.length ≤ max_input_bytes
  pub has_buffer : is_null r.utf8 ≡ false
  pub has_owner : r.owner ≢ 0
  pub has_id : r.id ≢ 0
  pub known_layout : (r.options.layout ≡ layout_us) ⊎ (r.options.layout ≡ layout_de)
  pub known_mode : (r.options.mode ≡ mode_password) ⊎ (r.options.mode ≡ mode_text)
  pub lives : 0 < r.ttl_ms
  pub short_life : r.ttl_ms ≤ max_ttl_ms
  pub known_flags : r.options.flags < 4
  pub plain_password : r.options.mode ≡ mode_password → r.options.flags ≡ 0
  pub fresh : ¬ (IsSpent r.owner r.id core.replay)
  pub room : length core.replay ≢ replay_capacity

flag_bits : (b : ℕ) → b < 256 → bit_and b 0xfc ≡ b / 4 * 4
unfolding every
flag_bits = byte_law (λ b. bit_and b 0xfc) (λ b. b / 4 * 4) refl

-- The tests before the loop let exactly the requests in order pass, for any flags byte.
pub refusal-IsInOrder_iff :
    (core : Core) (r : Request) → r.options.flags < 256 → (refusal core r ≡ none) ↔ IsInOrder core r
unfolding refusal bad_argument bad_policy
refusal-IsInOrder_iff core r byte = (to, from)
  where
    to : refusal core r ≡ none → IsInOrder core r
    to h =
        ground (arith, flag_bits r.options.flags byte, IsSpent-is_replay r.owner r.id core.replay)

    from : IsInOrder core r → refusal core r ≡ none
    from v =
        ground (arith, flag_bits r.options.flags byte, is_replay-IsSpent r.owner r.id core.replay)
