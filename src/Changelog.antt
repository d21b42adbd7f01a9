-- ===== src/Changelog.antt =====
-- `libsnake/changelog/changelog.{h,c}` and `syn_changelog.{h,c}`: the tiles that one tick changed.
pub mod Replay
use snake_posix.Common.{
  ℕ, zero, suc, ◌+◌, ◌-◌, ◌*◌, ◌/◌, ◌%◌, ◌^◌, ◌≤◌, ◌<◌, ◌≡◌, refl, sym, ap, ◌∙◌, subst, ◌≢◌, ◌↔◌,
  ◌⊎◌, inl, inr, arith, Bool, true, false, not, ◌&&◌, ◌||◌, ◌==◌, ltb, leb, if◌then◌else◌, if_intro,
  Bool-cases, ==-refl, ==→≡, ==→≢, Option, none, some, Option-cases, List, [], ◌∷◌, ◌++◌,
}
use package.snake_posix.Geometry.{Coordinates}
use package.snake_posix.Map.{
  Map, MapTile, map_set_tile_state, max_map_width, max_map_height, max_players,
}

abbrev pub max_changelog_size : ℕ
max_changelog_size = max_map_width * max_map_height + max_players

-- `change_t`, a tagged union with one variant.
pub data Change : Type 0 where
  change_tile_state : Coordinates → MapTile → Change

pub record Changelog : Type 0 where
  pub changes : ℕ → Change
  pub size : ℕ

unfoldable pub changelog_init : Changelog → Changelog
changelog_init self = record self { size = 0 }

unfoldable pub changelog_clear : Changelog → Changelog
changelog_clear self = record self { size = 0 }

-- The model does not bound `size` by `max_changelog_size`: an entry behind the end of the array is
-- kept, where the C write is undefined.
unfoldable pub changelog_push_tile_state_change : Changelog → Coordinates → MapTile → Changelog
changelog_push_tile_state_change self coordinates map_tile = record self {
  changes = λ i. if i == self.size then change_tile_state coordinates map_tile else self.changes i;
  size = self.size + 1;
}

-- The first `n` entries: what `memcpy` copies.
unfoldable pub first_changes : ℕ → (ℕ → Change) → List Change
first_changes zero f = []
first_changes (suc n) f = first_changes n f ++ (f n ∷ [])

-- `none` is the result NULL, with size 0.
unfoldable pub syn_changelog_copy : Changelog → Option (List Change)
unfolding first_changes
syn_changelog_copy self =
    if self.size == 0 then none else some (first_changes self.size self.changes)

unfoldable pub for_each_change {ℓ} : {C : Type ℓ} → (Change → C → C) → List Change → C → C
for_each_change f [] ctx = ctx
for_each_change f (x ∷ xs) ctx = for_each_change f xs (f x ctx)

unfoldable pub syn_changelog_for_each_copy {ℓ} : {C : Type ℓ} → Changelog → (Change → C → C) → C → C
unfolding for_each_change syn_changelog_copy
syn_changelog_for_each_copy self for_each_fn ctx = elim (syn_changelog_copy self) [
  | none ↦ ctx
  | some l ↦ for_each_change for_each_fn l ctx
]
