-- ===== src/Server/Invariant.antt =====
-- What holds throughout a tick, of the board that it began with, the players and the data.
use snake_posix.Common.{
  ℕ, ◌<◌, ◌≡◌, refl, sym, ap, ◌∙◌, subst, ◌⊎◌, inl, inr, arith, Bool, true, false, ◌||◌, [], ◌∷◌,
}
use snake_posix.Geometry.{Coordinates}
use snake_posix.Map.{
  max_players, Map, MapTile, tile_player, tile_dead, is_type, map_get_tile_state,
  map_set_tile_state,
}
use snake_posix.Map.Moves.{Inside}
use snake_posix.Map.Neighbors.{tile_at}
use snake_posix.Map.Search.Promise.{FitsIndex}
use snake_posix.Changelog.{Changelog, changelog_push_tile_state_change, change_tile_state}
use snake_posix.Changelog.Replay.{
  entries, entries-push, replay, replay-append, tile_at-set, set_eq, set_ne,
}
use snake_posix.Player.{
  PlayerManager, PlayerStatus, player_playing, player_paused, player_disconnecting, is_status,
}
use snake_posix.Server.{PlayerDataCache, ProcessPlayerData, push_changelog_tile}

-- A board with at least one cell and fewer than 2 ^ 31, so that its sizes are kept as an `int`.
pub record IsBoard (m : Map) : Type 0 where
  pub fits : FitsIndex m
  pub tall : 0 < m.height
  pub wide : 0 < m.width

-- The statuses of a player whose snake is on the board.
abbrev pub has_body : PlayerStatus → Bool
has_body s =
    is_status s player_playing || is_status s player_paused || is_status s player_disconnecting

abbrev pub CacheInside : Map → PlayerDataCache → ℕ → Type 0
CacheInside m cache q = Inside m (cache.head q) × Inside m (cache.tail q)

abbrev pub is_dead : MapTile → Bool
is_dead t = is_type t.type tile_dead

abbrev pub is_player : MapTile → Bool
is_player t = is_type t.type tile_player

-- `old` is the board at the start of the tick. The cached head and tail of every snake lie on the
-- board, and the changelog accounts for every cell that is not waiting to be cleared.
pub record Good (old : Map) (manager : PlayerManager) (ctx : ProcessPlayerData) : Type 0 where
  pub width : ctx.map.width ≡ old.width
  pub height : ctx.map.height ≡ old.height
  pub bodies :
      (q : ℕ)
      → q < max_players
      → has_body (manager.players q).status ≡ true
      → CacheInside old ctx.player_data_cache q
  pub tiles :
      (c : Coordinates)
      → Inside old c
      → is_player (tile_at ctx.map c) ≡ true
      → CacheInside old ctx.player_data_cache (tile_at ctx.map c).player
  pub dead :
      (c : Coordinates) → Inside old c → is_dead (tile_at ctx.map c) ≡ true → ctx.player_died ≡ true
  pub synced :
      (c : Coordinates)
      → Inside old c
      → (tile_at (replay old (entries ctx.changelog)) c ≡ tile_at ctx.map c)
        ⊎ (is_dead (tile_at ctx.map c) ≡ true)

size-set :
    (m : Map) (c : Coordinates) (t : MapTile)
    → ((map_set_tile_state m c t).width ≡ m.width) × ((map_set_tile_state m c t).height ≡ m.height)
unfolding map_set_tile_state
size-set m c t = (refl, refl)

replay-push :
    (old : Map) (log : Changelog) (c : Coordinates) (t : MapTile)
    → replay old (entries (changelog_push_tile_state_change log c t))
      ≡ map_set_tile_state (replay old (entries log)) c t
unfolding replay
replay-push old log c t =
    ap (replay old) (entries-push log c t)
    ∙ replay-append old (entries log) (change_tile_state c t ∷ [])

module _ {old : Map} {manager : PlayerManager} {ctx : ProcessPlayerData}
    (g : Good old manager ctx) where
  -- The board of the data is a board of the same size.
  pub Good-IsBoard : IsBoard old → IsBoard ctx.map
  Good-IsBoard b = record {
    fits = record {
      sizes = omega (arith, b.fits.sizes, g.width, g.height);
      area = rw (g.width, g.height) b.fits.area;
    };
    tall = omega (arith, b.tall, g.height);
    wide = omega (arith, b.wide, g.width);
  }

  pub Good-Inside : (c : Coordinates) → Inside old c → Inside ctx.map c
  Good-Inside c i = omega (arith, g.width, g.height)

  pub Inside-Good : (c : Coordinates) → Inside ctx.map c → Inside old c
  Inside-Good c i = omega (arith, g.width, g.height)

  -- Counters, flags and the generator play no part, but for the flag of a death.
  pub Good-flags :
      (fruits seed : ℕ) (none_alive : Bool)
      → Good old manager
          (record ctx { fruits_eaten = fruits; no_player_alive = none_alive; seed = seed })
  Good-flags fruits seed none_alive = record {
    width = g.width;
    height = g.height;
    bodies = g.bodies;
    tiles = g.tiles;
    dead = g.dead;
    synced = g.synced;
  }

  -- The cache may change where it is inside before and after.
  pub Good-cache :
      (cache : PlayerDataCache)
      → ((q : ℕ) → CacheInside old ctx.player_data_cache q → CacheInside old cache q)
      → Good old manager (record ctx { player_data_cache = cache })
  Good-cache cache keep = record {
    width = g.width;
    height = g.height;
    bodies = λ q l h. keep q (g.bodies q l h);
    tiles = λ c i e. keep _ (g.tiles c i e);
    dead = g.dead;
    synced = g.synced;
  }

  -- The players may change where those with a body have their cache inside.
  pub Good-players :
      (manager' : PlayerManager)
      → ((q : ℕ)
          → q < max_players
          → has_body (manager'.players q).status ≡ true
          → CacheInside old ctx.player_data_cache q)
      → Good old manager' ctx
  Good-players manager' bodies = record {
    width = g.width;
    height = g.height;
    bodies = bodies;
    tiles = g.tiles;
    dead = g.dead;
    synced = g.synced;
  }

  -- A write of a living tile that is pushed to the changelog.
  pub Good-write :
      (c : Coordinates) (t : MapTile)
      → is_dead t ≡ false
      → (is_player t ≡ true → CacheInside old ctx.player_data_cache t.player)
      → Good old manager
          (push_changelog_tile (record ctx { map = map_set_tile_state ctx.map c t }) c)
  unfolding map_get_tile_state
  Good-write c t living inside = record {
    width = (size-set ctx.map c t).0 ∙ g.width;
    height = (size-set ctx.map c t).1 ∙ g.height;
    bodies = g.bodies;
    tiles = λ q i e. elim (tile_at-set ctx.map c q t) [
      | inl (_, new) ↦
          subst (CacheInside old ctx.player_data_cache) (sym (ap (λ x. x.player) new))
            (inside (sym (ap is_player new) ∙ e))
      | inr (_, kept) ↦
          subst (CacheInside old ctx.player_data_cache) (sym (ap (λ x. x.player) kept))
            (g.tiles q i (sym (ap is_player kept) ∙ e))
    ];
    dead = λ q i e. elim (tile_at-set ctx.map c q t) [
      | inl (_, new) ↦ let clash : true ≡ false = sym e ∙ ap is_dead new ∙ living in cc
      | inr (_, kept) ↦ g.dead q i (sym (ap is_dead kept) ∙ e)
    ];
    synced = λ q i.
        subst
          (λ m.
            (tile_at m q ≡ tile_at (map_set_tile_state ctx.map c t) q)
            ⊎ (is_dead (tile_at (map_set_tile_state ctx.map c t) q) ≡ true))
          (sym (replay-push old ctx.changelog c (tile_at (map_set_tile_state ctx.map c t) c)))
          (elim (tile_at-set ctx.map c q t) [
            | inl (same, new) ↦ inl (set_eq _ c q _ same ∙ set_eq ctx.map c c t refl ∙ sym new)
            | inr (ne, kept) ↦ elim (g.synced q i) [
              | inl e ↦ inl (set_ne _ c q _ ne ∙ e ∙ sym kept)
              | inr d ↦ inr (ap is_dead kept ∙ d)
            ]
          ]);
  }

  -- A push of a tile as it is.
  pub Good-push : (c : Coordinates) → Good old manager (push_changelog_tile ctx c)
  unfolding map_get_tile_state
  Good-push c = record {
    width = g.width;
    height = g.height;
    bodies = g.bodies;
    tiles = g.tiles;
    dead = g.dead;
    synced = λ q i.
        subst (λ m. (tile_at m q ≡ tile_at ctx.map q) ⊎ (is_dead (tile_at ctx.map q) ≡ true))
          (sym (replay-push old ctx.changelog c (tile_at ctx.map c)))
          (elim (tile_at-set (replay old (entries ctx.changelog)) c q (tile_at ctx.map c)) [
            | inl (same, new) ↦ inl (new ∙ sym (ap (tile_at ctx.map) same))
            | inr (ne, kept) ↦ elim (g.synced q i) [ inl e ↦ inl (kept ∙ e) | inr d ↦ inr d ]
          ]);
  }
