-- ===== src/ShmClient/Shown.antt =====
-- The board that a client in shared memory shows after a tick.
use snake_posix.Common.{
  ℕ, ◌≡◌, refl, sym, ap, ◌∙◌, inl, inr, not, ◌||◌, ◌==◌, ltb, Bool-cases, ==→≡, List, [], ◌∷◌,
}
use snake_posix.Common.Outcome.{Ensures, Ensures-mono}
use snake_posix.Rng.{Rng}
use snake_posix.Geometry.{Coordinates}
use snake_posix.Map.{Map, map_set_tile_state}
use snake_posix.Map.Moves.{Inside}
use snake_posix.Map.Neighbors.{tile_at}
use snake_posix.Changelog.{
  Change, Changelog, change_tile_state, first_changes, for_each_change, syn_changelog_copy,
  syn_changelog_for_each_copy,
}
use snake_posix.Changelog.Replay.{replay-agree, entries, replay}
use snake_posix.Player.{Player, is_status}
use snake_posix.Server.Turn.{Server, server_tick}
use snake_posix.Server.Passed.{Ready}
use snake_posix.Server.Tick.{server_tick-replay}
use snake_posix.ShmClient.{ShmClient, shm_client_update_renderer, shm_client_tick}

for_each_change_lem :
    (l : List Change) (m : Map) → for_each_change shm_client_update_renderer l m ≡ replay m l
unfolding for_each_change replay shm_client_update_renderer
for_each_change_lem [] m = refl
for_each_change_lem (change_tile_state c t ∷ xs) m =
    for_each_change_lem xs (map_set_tile_state m c t)

-- The callback for each entry of a copy makes the updates of the changelog.
for_each_copy_lem :
    (log : Changelog) (m : Map)
    → syn_changelog_for_each_copy log shm_client_update_renderer m ≡ replay m (entries log)
unfolding syn_changelog_for_each_copy syn_changelog_copy entries first_changes replay
for_each_copy_lem log m = elim (Bool-cases (log.size == 0)) [
  | inl z ↦
      rw (z, syn_changelog_for_each_copy)
        (ap (λ n. replay m (first_changes n log.changes)) (sym (==→≡ log.size 0 z)))
  | inr z ↦
      rw (z, syn_changelog_for_each_copy)
        (for_each_change_lem (first_changes log.size log.changes) m)
]

-- What a client shows after its own tick is the board, if its changelog leads to it.
shown_lem :
    (k : ShmClient) (ticks : ℕ) (now : Player) (m : Map) (log : Changelog) (c : Coordinates)
    → tile_at (replay k.shown (entries log)) c ≡ tile_at m c
    → tile_at (shm_client_tick k ticks now m log).shown c ≡ tile_at m c
unfolding shm_client_tick
shown_lem k ticks now m log c h =
    elim (Bool-cases (ltb 1 ticks || not (is_status now.status k.player_status))) [
      | inl e ↦ rw (e, shm_client_tick) refl
      | inr e ↦ rw (e, shm_client_tick) (ap (λ u. tile_at u c) (for_each_copy_lem log k.shown) ∙ h)
    ]

-- From a state that is ready for a tick, a client that shows the tile of the server's board at a cell
-- of it shows the tile of the new board there after its own tick, whether it redraws or updates,
-- unless the tick of the server ends by `exit`.
pub server_tick-shm_client_tick :
    (rng : Rng) (self : Server) (k : ShmClient) (ticks : ℕ) (now : Player) (c : Coordinates)
    → Ready self
    → Inside self.map c
    → tile_at k.shown c ≡ tile_at self.map c
    → Ensures (server_tick rng self) (λ r.
      tile_at (shm_client_tick k ticks now r.0.map r.0.changelog).shown c ≡ tile_at r.0.map c)
server_tick-shm_client_tick rng self k ticks now c ready inside agree =
    Ensures-mono (server_tick rng self) _ _ (server_tick-replay rng self ready c inside)
      (λ r (_, _, e).
        shown_lem k ticks now r.0.map r.0.changelog c
          (replay-agree (entries r.0.changelog) k.shown self.map c agree ∙ e))
