-- ===== src/Server/Turns.antt =====
-- `server_tick_process_player`, branch by branch.
use snake_posix.Common.{
  ℕ, ◌+◌, ◌<◌, ◌≡◌, refl, sym, ap, ◌∙◌, subst, ◌≢◌, arith, Bool, true, false, if◌then◌else◌,
  if_intro,
}
use snake_posix.Common.Outcome.{Outcome, ok, ◌>>=◌, Ensures, Ensures->>=}
use snake_posix.Rng.{Rng}
use snake_posix.Geometry.{Coordinates}
use snake_posix.Map.{max_players, Map, MapTile, map_get_tile_state, map_move_in_direction}
use snake_posix.Map.Moves.{Inside, move-Inside}
use snake_posix.Player.{
  Player, PlayerManager, PlayerStatus, player_not_connected, player_playing, player_paused,
  player_dead, player_respawning, player_joining, player_disconnecting, player_other, write_player,
}
use snake_posix.Player.Lifecycle.{
  TickStep, join_placed, join_no_room, respawn_placed, respawn_no_room, leave, live, die, wait, lie,
  absent, unknown, is_alive, write_self, write_other,
}
use snake_posix.Server.{
  ProcessPlayerData, player_data_cache_get_head, move_player_head, move_player_tail, kill_player,
  spawn_player, spawn_fruit,
}
use snake_posix.Server.Turn.{
  alive, advance, meet_player, play_turn, spawn_turn, turn_of, server_tick_process_player,
}
use snake_posix.Server.Invariant.{
  IsBoard, has_body, CacheInside, Good, Good-IsBoard, Good-Inside, Inside-Good, Good-flags,
}
use snake_posix.Server.Operations.{
  move_player_head-Good, move_player_tail-Good, write_player-Good, kill_player-Good,
  spawn_fruit-Good, set_head-CacheInside,
}
use snake_posix.Server.Spawning.{Spawned, spawn_player-Spawned}

pub record Turn (old : Map) (manager : PlayerManager) (ctx : ProcessPlayerData) (p : ℕ)
    (r : PlayerManager × ProcessPlayerData) : Type 0 where
  pub good : Good old r.0 r.1
  pub others : (q : ℕ) → q ≢ p → r.0.players q ≡ manager.players q
  pub life : TickStep (manager.players p).status (r.0.players p).status
  pub flag :
      r.1.no_player_alive ≡ (if is_alive (r.0.players p).status then false else ctx.no_player_alive)

module _ {old : Map} (board : IsBoard old) {manager : PlayerManager} {ctx : ProcessPlayerData}
    (g : Good old manager ctx) (p : ℕ) (small : p < max_players) where
  -- Shut, so that a goal about a conditional keeps its shape.
  Safe : Outcome (PlayerManager × ProcessPlayerData) → Type 0
  Safe o = Ensures o (Turn old manager ctx p)

  if_Safe :
      (b : Bool) (x y : Outcome (PlayerManager × ProcessPlayerData))
      → Safe x
      → Safe y
      → Safe (if b then x else y)
  if_Safe b x y h k = if_intro Safe b x y (λ _. h) (λ _. k)

  Turn-write :
      (x : Player) (d : ProcessPlayerData)
      → Good old (write_player manager p x) d
      → TickStep (manager.players p).status x.status
      → d.no_player_alive ≡ (if is_alive x.status then false else ctx.no_player_alive)
      → Turn old manager ctx p (write_player manager p x, d)
  Turn-write x d good life flag =
      let self = ap (λ (y : Player). y.status) (write_self manager p x) in
      record {
        good = good;
        others = λ q ne. write_other manager p q x ne;
        life = subst (TickStep (manager.players p).status) (sym self) life;
        flag = flag ∙ ap (λ s. if is_alive s then false else ctx.no_player_alive) (sym self);
      }

  Turn-keep :
      (s : PlayerStatus) (d : ProcessPlayerData)
      → (manager.players p).status ≡ s
      → Good old manager d
      → TickStep s s
      → d.no_player_alive ≡ (if is_alive s then false else ctx.no_player_alive)
      → Turn old manager ctx p (manager, d)
  Turn-keep s d e good life flag = record {
    good = good;
    others = λ q ne. refl;
    life = subst (λ t. TickStep t t) (sym e) life;
    flag = flag ∙ ap (λ s. if is_alive s then false else ctx.no_player_alive) (sym e);
  }

  -- The branches of a playing player.
  module _ (playing : (manager.players p).status ≡ player_playing) where
    own : CacheInside old ctx.player_data_cache p
    own = g.bodies p small (ap has_body playing)

    kill-Turn : Safe (kill_player manager ctx p)
    unfolding Safe
    kill-Turn =
        let (d, e, gd, flag) = kill_player-Good board g p own in
        subst (λ o. Ensures o (Turn old manager ctx p)) (sym e)
          (Turn-write (record (manager.players p) { status = player_dead }) d
            (write_player-Good board gd p (record (manager.players p) { status = player_dead })
              (λ b. cc))
            (subst (λ s. TickStep s player_dead) (sym playing) die) flag)

    advance-Turn : (next : Coordinates) → Inside old next → Safe (advance manager ctx p next)
    unfolding Safe advance move_player_head
    advance-Turn next i =
        Ensures->>= (move_player_tail (move_player_head ctx p next) p) _ (Good old manager) _
          (move_player_tail-Good board (move_player_head-Good board g p next own i) p
            (set_head-CacheInside old ctx.player_data_cache p next i p own))
          (λ d gd.
            Turn-keep player_playing (alive d) playing (Good-flags gd d.fruits_eaten d.seed false)
              live refl)

    meet-Turn :
        (next : Coordinates) (t : MapTile)
        → Inside old next
        → Safe (meet_player manager ctx p next t)
    unfolding meet_player
    meet-Turn next t i = search (if_Safe, kill-Turn, advance-Turn next i)

    eat-Turn :
        (next : Coordinates)
        → Good old manager (move_player_head ctx p next)
        → let eaten = move_player_head ctx p next in
          Safe (ok (manager, alive (record eaten { fruits_eaten = eaten.fruits_eaten + 1 })))
    unfolding Safe
    eat-Turn next moved =
        let d = move_player_head ctx p next in
        Turn-keep player_playing (alive (record d { fruits_eaten = d.fruits_eaten + 1 })) playing
          (Good-flags moved (d.fruits_eaten + 1) d.seed false) live refl

    play-Turn : Safe (play_turn manager ctx p)
    unfolding play_turn player_data_cache_get_head
    play-Turn =
        let head = ctx.player_data_cache.head p in
        let next = map_move_in_direction ctx.map head (manager.players p).direction in
        let i : Inside old next = Inside-Good g next (
          move-Inside ctx.map head _ (Good-IsBoard g board).fits.sizes
            (Good-Inside g head own.0)) in
        let moved = move_player_head-Good board g p next own i in
        let eat = eat-Turn next moved in
        let meet = meet-Turn next (map_get_tile_state ctx.map next) i in
        search (if_Safe, kill-Turn, advance-Turn next i, eat, meet)

  module _ (rng : Rng) where
    placed-Turn :
        (b : Bool) (s : PlayerStatus) (m' : PlayerManager) (d : ProcessPlayerData) (x : Player)
        → (manager.players p).status ≡ s
        → TickStep s player_playing
        → m' ≡ write_player manager p x
        → x.status ≡ player_playing
        → Good old m' d
        → Safe (
            (if b then spawn_fruit rng d else ok d) >>= λ (ctx'' : ProcessPlayerData).
            ok (m', alive ctx''))
    unfolding Safe
    placed-Turn b s m' d x e placed em st gd = split b
      where
        final : (d2 : ProcessPlayerData) → Good old m' d2 → Turn old manager ctx p (m', alive d2)
        final d2 g2 =
            subst (λ m. Turn old manager ctx p (m, alive d2)) (sym em)
              (Turn-write x (alive d2)
                (Good-flags (subst (λ m. Good old m d2) em g2) d2.fruits_eaten d2.seed false)
                (subst (λ t. TickStep t x.status) (sym e)
                  (subst (λ t. TickStep s t) (sym st) placed))
                (sym (ap (λ t. if is_alive t then false else ctx.no_player_alive) st)))

        split :
            (b : Bool)
            → Ensures
                ((if b then spawn_fruit rng d else ok d) >>= λ (ctx'' : ProcessPlayerData).
                  ok (m', alive ctx''))
                (Turn old manager ctx p)
        split true = let (d2, e2, g2, _, _) = spawn_fruit-Good board gd rng in rw e2 (final d2 g2)
        split false = final d gd

    spawn-Turn :
        (b : Bool) (s : PlayerStatus)
        → (manager.players p).status ≡ s
        → TickStep s player_playing
        → TickStep s player_dead
        → Safe (spawn_turn rng b manager ctx p)
    unfolding Safe spawn_turn Spawned
    spawn-Turn b s e placed no_room = pick (spawn_player-Spawned rng board g p)
      where
        pick :
            (r : Bool × PlayerManager × ProcessPlayerData) × (spawn_player rng manager ctx p ≡ ok r)
              × Spawned old manager ctx p r
            → Ensures (spawn_turn rng b manager ctx p) (Turn old manager ctx p)
        pick ((true, m', d), e', (x, em, st, gd, flag)) =
            rw e' (placed-Turn b s m' d x e placed em st gd)
        pick ((false, m', d), e', (em, gd, flag)) =
            rw (e', em)
              (Turn-write (record (manager.players p) { status = player_dead }) d
                (write_player-Good board gd p (record (manager.players p) { status = player_dead })
                  (λ b. cc))
                (subst (λ t. TickStep t player_dead) (sym e) no_room) flag)

    leave-Turn :
        (manager.players p).status ≡ player_disconnecting
        → Safe (turn_of rng player_disconnecting manager p ctx)
    unfolding Safe turn_of
    leave-Turn e =
        let (d, e', gd, flag) = kill_player-Good board g p (g.bodies p small (ap has_body e)) in
        let dying : Player = record (manager.players p) { status = player_dead } in
        let m1 = write_player manager p dying in
        let gone : Player = record (m1.players p) { status = player_not_connected } in
        let self = ap (λ (y : Player). y.status) (write_self m1 p gone) in
        rw e' (record {
          good =
              write_player-Good board (write_player-Good board gd p dying (λ b. cc)) p gone
                (λ b. cc);
          others = λ q ne. write_other m1 p q gone ne ∙ write_other manager p q dying ne;
          life =
              subst (TickStep (manager.players p).status) (sym self)
                (subst (λ t. TickStep t player_not_connected) (sym e) leave);
          flag = flag ∙ ap (λ t. if is_alive t then false else ctx.no_player_alive) (sym self);
        })

    turn_of-Turn :
        (s : PlayerStatus) → (manager.players p).status ≡ s → Safe (turn_of rng s manager p ctx)
    unfolding turn_of
    turn_of-Turn player_respawning e = spawn-Turn false _ e respawn_placed respawn_no_room
    turn_of-Turn player_joining e = spawn-Turn true _ e join_placed join_no_room
    turn_of-Turn player_disconnecting e = leave-Turn e
    turn_of-Turn player_playing e = play-Turn e
    turn_of-Turn player_paused e =
        unfold Safe in
        (Turn-keep _ (alive ctx) e (Good-flags g ctx.fruits_eaten ctx.seed false) wait refl)
    turn_of-Turn player_not_connected e = unfold Safe in (Turn-keep _ ctx e g absent refl)
    turn_of-Turn player_dead e = unfold Safe in (Turn-keep _ ctx e g lie refl)
    turn_of-Turn (player_other n) e =
        unfold Safe in (Turn-keep _ ctx e g (unknown n) (ground arith))

-- From a state that is good for a board, the turn of one of the players either ends by `exit` or ends
-- normally, with no undefined behaviour and no endless search: the state is good again, no other
-- player has changed, the status of the player has taken a step of its life, and
-- `no_player_alive` is cleared if the player now plays or is paused, and else as before.
pub process_player-Turn :
    (rng : Rng) {old : Map} (board : IsBoard old) {manager : PlayerManager}
    {ctx : ProcessPlayerData}
    → Good old manager ctx
    → (p : ℕ) → p < max_players
    → Ensures (server_tick_process_player rng manager p ctx) (Turn old manager ctx p)
unfolding server_tick_process_player Safe
process_player-Turn rng board {manager} {ctx} g p small =
    turn_of-Turn board g p small rng (manager.players p).status refl
